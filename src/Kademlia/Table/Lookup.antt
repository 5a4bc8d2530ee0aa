-- ===== src/Kademlia/Table/Lookup.antt =====
-- `bucket_by_node`: the buckets of a table cut the ids in consecutive ranges, and the search finds
-- the one of a node unless its id is the last of a range.
use structured_p2p_overlay_n.Prelude.{
  >>=-eq-ok, leb→le, ℕ, ◌+◌, ◌≤◌, ◌<◌, ◌≡◌, ◌≢◌, ◌⊎◌, refl, ap, subst, false, List, [], ◌∷◌, ◌++◌,
  arith, All, ltb, leb, leb→le, ltb→lt, ltb→le, lt→ltb, le→leb, lt→leb, Bool-cases, ◌==◌, ==_iff,
  inl, inr, ok, err, assertion_error, bare_exception, Fault,
}
use structured_p2p_overlay_n.Kademlia.Node.{Node, k_max_node_id}
use structured_p2p_overlay_n.Kademlia.Bucket.{KBucket}
use structured_p2p_overlay_n.Kademlia.Bucket.Lru
use structured_p2p_overlay_n.Kademlia.Bucket.Lru.{InRange}
use structured_p2p_overlay_n.Kademlia.Table.{
  RoutingTable, Place, later, find_bucket, bucket_by_node,
}

-- The buckets cover the ids from `lo` up to, and without, `top`, one range after the other.
abbrev pub Tiles : ℕ → ℕ → List KBucket → Type 0
Tiles lo top [] = lo ≡ top
Tiles lo top (b ∷ bs) = (b.start ≡ lo) × Tiles (b.end + 1) top bs

pub record IsValid (t : RoutingTable) : Type 0 where
  pub tiles : Tiles 0 (k_max_node_id + 1) t.buckets
  pub buckets : All Lru.IsValid t.buckets

-- The id of a node is the last one of some bucket's range.
abbrev pub AtEnd : Node → List KBucket → Type 0
AtEnd n [] = ⊥
AtEnd n (b ∷ bs) = (n.id ≡ b.end) ⊎ AtEnd n bs

-- What a search that succeeds gives: the place of a bucket whose range holds the id.
pub record IsPlace (n : Node) (bs : List KBucket) (p : Place) : Type 0 where
  pub whole : p.before ++ p.found ∷ p.after ≡ bs
  pub above : p.found.start ≤ n.id
  pub below : n.id < p.found.end

AtEnd-ge :
    (n : Node) (lo top : ℕ) (bs : List KBucket)
    → Tiles lo top bs
    → All Lru.IsValid bs
    → AtEnd n bs
    → lo ≤ n.id
AtEnd-ge n lo top [] t v h = absurd h
AtEnd-ge n lo top (b ∷ bs) t v (inl e) = omega (arith, v.0.ordered)
AtEnd-ge n lo top (b ∷ bs) t v (inr h) =
    omega (arith, v.0.ordered, AtEnd-ge n (b.end + 1) top bs t.1 v.1 h)

-- Below all ranges the search raises: there is no bucket, or the first one starts above the id.
find_bucket_low :
    (n : Node) (lo top : ℕ) (bs : List KBucket)
    → Tiles lo top bs
    → All Lru.IsValid bs
    → n.id < lo
    → (e : Fault) × (find_bucket n bs ≡ err e)
unfolding find_bucket
find_bucket_low n lo top [] t v h = (bare_exception, refl)
find_bucket_low n lo top (b ∷ bs) t v h = (
  assertion_error,
  rw (
    lt→ltb n.id b.end (omega (arith, v.0.ordered, t.0)),
    lt→leb b.start n.id (omega (arith, t.0)),
    find_bucket,
  ),
)

-- The outcomes of the search for an id that the ranges cover.
pub data Found (n : Node) (bs : List KBucket) : Type 0 where
  hit : (p : Place) → find_bucket n bs ≡ ok p → IsPlace n bs p → ¬ AtEnd n bs → Found n bs
  miss : (e : Fault) → find_bucket n bs ≡ err e → AtEnd n bs → Found n bs

Found-later :
    (n : Node) (b : KBucket) (bs : List KBucket)
    → ltb n.id b.end ≡ false
    → n.id ≢ b.end
    → Found n bs
    → Found n (b ∷ bs)
unfolding find_bucket
Found-later n b bs e ne (hit p h r out) =
    hit (later b p) (rw (e, h, find_bucket))
      (record { whole = ap (◌∷◌ b) r.whole; above = r.above; below = r.below })
      (elim [ inl x ↦ ne x | inr y ↦ out y ])
Found-later n b bs e ne (miss f h w) = miss f (rw (e, h, find_bucket)) (inr w)

pub find_bucket-cases :
    (n : Node) (lo top : ℕ) (bs : List KBucket)
    → Tiles lo top bs
    → All Lru.IsValid bs
    → lo ≤ n.id
    → n.id < top
    → Found n bs
unfolding find_bucket
find_bucket-cases n lo top [] t v h k = absurd (omega arith)
find_bucket-cases n lo top (b ∷ bs) t v h k = elim (Bool-cases (ltb n.id b.end)) [
  | inl e ↦
      let lt = ltb→lt n.id b.end e in
      hit (record { before = []; found = b; after = bs })
        (rw (e, le→leb b.start n.id (omega (arith, t.0)), find_bucket))
        (record { whole = refl; above = omega (arith, t.0); below = lt })
        (elim [
          | inl x ↦ absurd (omega arith)
          | inr y ↦ absurd (omega (arith, AtEnd-ge n (b.end + 1) top bs t.1 v.1 y))
        ])
  | inr e ↦
      let le = ltb→le n.id b.end e in
      elim (Bool-cases (n.id == b.end)) [
        | inl f ↦
            let same = (==_iff n.id b.end).0 f in
            let (fault, raised) = find_bucket_low n (b.end + 1) top bs t.1 v.1 (omega arith) in
            miss fault (rw (e, raised, find_bucket)) (inl same)
        | inr f ↦
            let ne : n.id ≢ b.end = λ x. ground arith in
            Found-later n b bs e ne
              (find_bucket-cases n (b.end + 1) top bs t.1 v.1 (omega (arith, ne)) k)
      ]
]

module _ (n : Node) (t : RoutingTable) (v : IsValid t) (small : n.id ≤ k_max_node_id) where
  cases : Found n t.buckets
  cases =
      find_bucket-cases n 0 (k_max_node_id + 1) t.buckets v.tiles v.buckets (omega arith)
        (omega arith)

  -- In a valid table `bucket_by_node` finds a bucket whose range holds the id of the node, if the
  -- id is not the last one of a range.
  pub bucket_by_node-IsPlace :
      ¬ AtEnd n t.buckets → (p : Place) × (bucket_by_node n t ≡ ok p) × IsPlace n t.buckets p
  unfolding bucket_by_node
  bucket_by_node-IsPlace out = from cases
    where
      from :
          Found n t.buckets → (p : Place) × (find_bucket n t.buckets ≡ ok p) × IsPlace n t.buckets p
      from (hit p h r _) = (p, h, r)
      from (miss e h w) = absurd (out w)

  -- If the id of the node is the last one of a bucket's range, although the bucket covers it,
  -- `bucket_by_node` raises.
  pub bucket_by_node-AtEnd : AtEnd n t.buckets → (e : Fault) × (bucket_by_node n t ≡ err e)
  unfolding bucket_by_node
  bucket_by_node-AtEnd w = from cases
    where
      from : Found n t.buckets → (e : Fault) × (find_bucket n t.buckets ≡ err e)
      from (hit p h r out) = absurd (out w)
      from (miss e h _) = (e, h)

-- Whatever the table, a search that succeeds gives the place of a bucket whose range holds the id.
find_bucket-IsPlace :
    (n : Node) (bs : List KBucket) (p : Place) → find_bucket n bs ≡ ok p → IsPlace n bs p
unfolding find_bucket
find_bucket-IsPlace n [] p h = cc
find_bucket-IsPlace n (b ∷ bs) p h = elim (Bool-cases (ltb n.id b.end)) [
  | inl e ↦ elim (Bool-cases (leb b.start n.id)) [
    | inl f ↦
        let same : ok (record { before = []; found = b; after = bs }) ≡ ok p =
          rw (e, f, find_bucket) at h in
        let here : IsPlace n (b ∷ bs) (record { before = []; found = b; after = bs }) = record {
          whole = refl;
          above = leb→le b.start n.id f;
          below = ltb→lt n.id b.end e;
        } in
        subst (IsPlace n (b ∷ bs)) (cc) here
    | inr f ↦ absurd (ground arith)
  ]
  | inr e ↦
      let (q, found, eq) =
        >>=-eq-ok (find_bucket n bs) (λ (q : Place). ok (later b q)) (rw (e, find_bucket) at h) in
      let r = find_bucket-IsPlace n bs q found in
      let there : IsPlace n (b ∷ bs) (later b q) = record {
        whole = ap (◌∷◌ b) r.whole;
        above = r.above;
        below = r.below;
      } in
      subst (IsPlace n (b ∷ bs)) (cc) there
]

pub place_of :
    (n : Node) (t : RoutingTable) {p : Place} → bucket_by_node n t ≡ ok p → IsPlace n t.buckets p
unfolding bucket_by_node
place_of n t {p} e = find_bucket-IsPlace n t.buckets p e
