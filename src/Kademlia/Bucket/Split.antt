-- ===== src/Kademlia/Bucket/Split.antt =====
-- `KBucket.split`: the nodes and the replacement cache go to the half of the range they lie in.
use structured_p2p_overlay_n.Prelude.{
  ℕ, ◌+◌, ◌≤◌, ◌<◌, ◌≡◌, refl, ap, ap₂, ◌∙◌, Bool, true, false, not, List, [], ◌∷◌, ◌++◌, arith,
  length, All, filter, Bool-cases, inl, inr, length-append, leb, lt→ltb, append_assoc, append-nil,
  length-filter-le,
}
use structured_p2p_overlay_n.Kademlia.Node.{Node, k_bucket_size, contains}
use structured_p2p_overlay_n.Kademlia.Node.Members.{
  Distinct, node_eq_comm, contains-append, filter-Distinct,
}
use structured_p2p_overlay_n.Kademlia.Bucket.{
  KBucket, midpoint, add_node, distribute, distribute_cache, split,
}
use structured_p2p_overlay_n.Kademlia.Bucket.Lru.{InRange, IsValid}

abbrev pub low : ℕ → Node → Bool
low splitid n = leb n.id splitid

abbrev pub high : ℕ → Node → Bool
high splitid n = not (leb n.id splitid)

-- A new node is appended if there is room.
add_node_room :
    (now : ℕ) (n : Node) (b : KBucket)
    → contains n b.nodes ≡ false
    → length b.nodes < k_bucket_size
    → (add_node now n b).0 ≡ record b { nodes = b.nodes ++ n ∷ []; last_updated = now }
unfolding add_node
add_node_room now n b h k = rw (h, lt→ltb (length b.nodes) k_bucket_size k)

-- No node of `xs` is among those of `ys`.
abbrev Apart : List Node → List Node → Type 0
Apart xs ys = All (λ x. contains x ys ≡ false) xs

Apart-snoc :
    (n : Node) (xs ys : List Node) → Apart xs ys → contains n xs ≡ false → Apart xs (ys ++ n ∷ [])
unfolding contains
Apart-snoc n [] ys h k = tt
Apart-snoc n (x ∷ xs) ys h k =
    ground (arith, Apart-snoc n xs ys, contains-append x ys (n ∷ []), node_eq_comm x n)

abbrev half : (now start end : ℕ) → (nodes cache : List Node) → KBucket
half now start end nodes cache = record {
  start = start;
  end = end;
  nodes = nodes;
  replacement_cache = cache;
  last_updated = now;
}

filter_yes :
    (p : Node → Bool) (n : Node) (ns xs : List Node)
    → p n ≡ true
    → (xs ++ n ∷ []) ++ filter p ns ≡ xs ++ filter p (n ∷ ns)
unfolding filter
filter_yes p n ns xs e = rw (append_assoc, e, filter)

filter_no :
    (p : Node → Bool) (n : Node) (ns xs : List Node)
    → p n ≡ false
    → xs ++ filter p ns ≡ xs ++ filter p (n ∷ ns)
unfolding filter
filter_no p n ns xs e = rw (e, filter)

module _ (now start splitid up end : ℕ) where
  distribute-filter :
      (ns xs ys : List Node)
      → Distinct ns
      → Apart ns xs
      → Apart ns ys
      → length xs + length ns ≤ k_bucket_size
      → length ys + length ns ≤ k_bucket_size
      → distribute now splitid ns (half now start splitid xs [], half now up end ys []) ≡ (
        half now start splitid (xs ++ filter (low splitid) ns) [],
        half now up end (ys ++ filter (high splitid) ns) [],
      )
  unfolding distribute
  distribute-filter [] xs ys d hx hy kx ky = unfold filter in rw (append-nil xs, append-nil ys)
  distribute-filter (n ∷ ns) xs ys d hx hy kx ky = elim (Bool-cases (leb n.id splitid)) [
    | inl e ↦
        rw (e, add_node_room now n (half now start splitid xs []) hx.0 (omega arith))
          (distribute-filter ns (xs ++ n ∷ []) ys d.1 (Apart-snoc n ns xs hx.1 d.0) hy.1
              (omega (arith, length-append xs (n ∷ []))) (omega arith)
            ∙ ap₂ (λ (a b : List Node). pair_of a b) (filter_yes (low splitid) n ns xs e)
                (filter_no (high splitid) n ns ys (rw e)))
    | inr e ↦
        rw (e, add_node_room now n (half now up end ys []) hy.0 (omega arith))
          (distribute-filter ns xs (ys ++ n ∷ []) d.1 hx.1 (Apart-snoc n ns ys hy.1 d.0)
              (omega arith) (omega (arith, length-append ys (n ∷ [])))
            ∙ ap₂ (λ (a b : List Node). pair_of a b) (filter_no (low splitid) n ns xs e)
                (filter_yes (high splitid) n ns ys (rw e)))
  ]
    where
      pair_of : List Node → List Node → KBucket × KBucket
      pair_of a b = (half now start splitid a [], half now up end b [])

  distribute_cache-filter :
      (cs ns ms xs ys : List Node)
      → distribute_cache splitid cs (half now start splitid ns xs, half now up end ms ys) ≡ (
        half now start splitid ns (xs ++ filter (low splitid) cs),
        half now up end ms (ys ++ filter (high splitid) cs),
      )
  unfolding distribute_cache
  distribute_cache-filter [] ns ms xs ys = unfold filter in rw (append-nil xs, append-nil ys)
  distribute_cache-filter (c ∷ cs) ns ms xs ys = elim (Bool-cases (leb c.id splitid)) [
    | inl e ↦ rw e (
        distribute_cache-filter cs ns ms (xs ++ c ∷ []) ys
        ∙ ap₂ (λ (a b : List Node). pair_of a b) (filter_yes (low splitid) c cs xs e)
            (filter_no (high splitid) c cs ys (rw e)))
    | inr e ↦ rw e (
        distribute_cache-filter cs ns ms xs (ys ++ c ∷ [])
        ∙ ap₂ (λ (a b : List Node). pair_of a b) (filter_no (low splitid) c cs xs e)
            (filter_yes (high splitid) c cs ys (rw e)))
  ]
    where
      pair_of : List Node → List Node → KBucket × KBucket
      pair_of a b = (half now start splitid ns a, half now up end ms b)

Apart-nil : (ns : List Node) → Apart ns []
unfolding contains
Apart-nil [] = tt
Apart-nil (n ∷ ns) = (refl, Apart-nil ns)

midpoint_range : (b : KBucket) → b.start ≤ b.end → (b.start ≤ midpoint b) × (midpoint b ≤ b.end)
unfolding midpoint
midpoint_range b h = ground arith

pub midpoint-lt : (b : KBucket) → b.start < b.end → midpoint b < b.end
unfolding midpoint
midpoint-lt b h = ground arith

-- `split` cuts the range in two at the midpoint, and each half has, in their old order, the nodes
-- and the replacement nodes whose ids lie in it.
pub split-filter :
    (now : ℕ) (b : KBucket)
    → IsValid b
    → let s = midpoint b in
      split now b ≡ (
        record {
          start = b.start;
          end = s;
          nodes = filter (low s) b.nodes;
          replacement_cache = filter (low s) b.replacement_cache;
          last_updated = now;
        },
        record {
          start = s + 1;
          end = b.end;
          nodes = filter (high s) b.nodes;
          replacement_cache = filter (high s) b.replacement_cache;
          last_updated = now;
        },
      )
unfolding split
split-filter now b v =
    let s = midpoint b in
    ap (distribute_cache s b.replacement_cache) (
      distribute-filter now b.start s (s + 1) b.end b.nodes [] [] v.distinct (Apart-nil b.nodes)
        (Apart-nil b.nodes) (omega (arith, v.fits)) (omega (arith, v.fits)))
    ∙ distribute_cache-filter now b.start s (s + 1) b.end b.replacement_cache
        (filter (low s) b.nodes) (filter (high s) b.nodes) [] []

-- Both halves meet the invariant, and they hold together what the bucket held.
pub split-IsValid :
    (now : ℕ) (b : KBucket)
    → IsValid b
    → b.start < b.end
    → IsValid (split now b).0 × IsValid (split now b).1
unfolding filter
split-IsValid now b v h =
    let s = midpoint b in
    rw (split-filter now b v) (
      record {
        ordered = (midpoint_range b v.ordered).0;
        fits = omega (arith, length-filter-le (low s) b.nodes, v.fits);
        distinct = filter-Distinct (low s) b.nodes v.distinct;
        ranged = ranged_low s b.nodes v.ranged;
      },
      record {
        ordered = omega (arith, midpoint-lt b h);
        fits = omega (arith, length-filter-le (high s) b.nodes, v.fits);
        distinct = filter-Distinct (high s) b.nodes v.distinct;
        ranged = ranged_high s b.nodes v.ranged;
      },
    )
  where
    ranged_low :
        (s : ℕ) (ns : List Node)
        → All (InRange b) ns
        → All (λ n. (b.start ≤ n.id) × (n.id ≤ s)) (filter (low s) ns)
    ranged_low s [] r = tt
    ranged_low s (n ∷ ns) r = ground (arith, ranged_low s ns r.1)

    ranged_high :
        (s : ℕ) (ns : List Node)
        → All (InRange b) ns
        → All (λ n. (s + 1 ≤ n.id) × (n.id ≤ b.end)) (filter (high s) ns)
    ranged_high s [] r = tt
    ranged_high s (n ∷ ns) r = ground (arith, ranged_high s ns r.1)
