-- ===== src/Kademlia/Table/Ends.antt =====
-- `RoutingTable.add_node` ends: a split at least halves the range that holds the id.
use native.Mathlib.Nat.{pow-suc}
use structured_p2p_overlay_n.Prelude.{
  ℕ, zero, suc, ◌+◌, ◌-◌, ◌*◌, ◌^◌, ◌≤◌, ◌<◌, ◌≡◌, ◌≢◌, refl, ◌∙◌, subst, Bool, List, [], ◌∷◌, ◌++◌,
  arith, All, All-append, Result, ok, err, Fault, out_of_fuel, map,
}
use structured_p2p_overlay_n.Kademlia.Node.{Node, k_id_size, k_max_node_id}
use structured_p2p_overlay_n.Kademlia.Bucket.{
  KBucket, midpoint, split, depth, depth_loop, to_binary,
}
use structured_p2p_overlay_n.Kademlia.Bucket.Lru
use structured_p2p_overlay_n.Kademlia.Bucket.Split.{split-filter}
use structured_p2p_overlay_n.Kademlia.Table.{
  RoutingTable, Place, State, find_bucket, bucket_by_node, put_bucket, split_bucket, may_split,
  add_node,
}
use structured_p2p_overlay_n.Kademlia.Table.Lookup.{Tiles, IsValid}
use structured_p2p_overlay_n.Kademlia.Table.Shape.{All-at}
use structured_p2p_overlay_n.Kademlia.Table.Adds.{
  Round, self, lost, added, stuck, full, again, offered, one_round, round, add_node-one_round,
}
use structured_p2p_overlay_n.Kademlia.Table.Keeps.{
  place, offered-touched, offered-IsValid, halved-IsValid,
}

find_bucket-ne : (n : Node) (bs : List KBucket) → find_bucket n bs ≢ err out_of_fuel
unfolding find_bucket
find_bucket-ne n [] = λ h. cc
find_bucket-ne n (b ∷ bs) = λ h. ground (arith, find_bucket-ne n bs)

depth_loop-ne : (r i : ℕ) (bits : List (List Bool)) → depth_loop r i bits ≢ err out_of_fuel
unfolding depth_loop
depth_loop-ne zero i bits = λ h. cc
depth_loop-ne (suc r) i bits = λ h. ground (arith, depth_loop-ne r (i + 1) bits)

depth-ne : (b : KBucket) → depth b ≢ err out_of_fuel
unfolding depth
depth-ne b = λ h.
    ground (arith, depth_loop-ne k_id_size 0 (map (λ (n : Node). to_binary k_id_size n.id) b.nodes))

may_split-ne : (t : RoutingTable) (b : KBucket) → may_split t b ≢ err out_of_fuel
unfolding may_split
may_split-ne t b = λ h. ground (arith, depth-ne b)

pub bucket_by_node-ne : (n : Node) (t : RoutingTable) → bucket_by_node n t ≢ err out_of_fuel
unfolding bucket_by_node
bucket_by_node-ne n t = find_bucket-ne n t.buckets

pub same_fault {ℓ κ} :
    {A : Type ℓ} {B : Type κ} (x : Fault)
    → ◌≡◌ {A = Result A} (err x) (err out_of_fuel)
    → ◌≡◌ {A = Result B} (err x) (err out_of_fuel)
same_fault x h = cc

-- A range that holds the id is narrower than 2 ^ f.
abbrev pub Narrow : ℕ → Node → List KBucket → Type 0
Narrow f n = All (λ (b : KBucket). b.start ≤ n.id → n.id < b.end → b.end - b.start < 2 ^ f)

-- in a valid table no range is wider than the ids
ends_below :
    (n : Node) (lo top : ℕ) (bs : List KBucket) → Tiles lo top bs → All Lru.IsValid bs → lo ≤ top
ends_below n lo top [] t v = omega arith
ends_below n lo top (b ∷ bs) t v =
    omega (arith, v.0.ordered, ends_below n (b.end + 1) top bs t.1 v.1)

Narrow-valid :
    (n : Node) (lo top : ℕ) (bs : List KBucket)
    → Tiles lo top bs
    → All Lru.IsValid bs
    → top ≤ 2 ^ k_id_size
    → Narrow k_id_size n bs
Narrow-valid n lo top [] t v h = tt
Narrow-valid n lo top (b ∷ bs) t v h = (
  λ x y. omega (arith, ends_below n (b.end + 1) top bs t.1 v.1),
  Narrow-valid n (b.end + 1) top bs t.1 v.1 h,
)

half_lower :
    (f : ℕ) (c : KBucket)
    → c.start ≤ c.end
    → c.end - c.start < 2 ^ suc f
    → midpoint c - c.start < 2 ^ f
unfolding midpoint
half_lower f c o w =
    let w' : c.end - c.start < 2 ^ f * 2 = subst (λ (k : ℕ). c.end - c.start < k) (pow-suc 2 f) w in
    ground arith

half_upper :
    (f : ℕ) (c : KBucket)
    → c.start ≤ c.end
    → c.end - c.start < 2 ^ suc f
    → c.end - (midpoint c + 1) < 2 ^ f
unfolding midpoint
half_upper f c o w =
    let w' : c.end - c.start < 2 ^ f * 2 = subst (λ (k : ℕ). c.end - c.start < k) (pow-suc 2 f) w in
    ground arith

Narrow-halves :
    (f now : ℕ) (n : Node) (b : KBucket)
    → Lru.IsValid b
    → b.end - b.start < 2 ^ suc f
    → Narrow f n ((split now b).0 ∷ (split now b).1 ∷ [])
Narrow-halves f now n b v h =
    rw (split-filter now b v)
      ((λ _ _. half_lower f b v.ordered h), ((λ _ _. half_upper f b v.ordered h), tt))

-- The ranges before and after the one that holds the id do not hold it.
starts_above :
    (lo top : ℕ) (xs ys : List KBucket) (b : KBucket)
    → Tiles lo top (xs ++ b ∷ ys)
    → All Lru.IsValid (xs ++ b ∷ ys)
    → lo ≤ b.start
starts_above lo top [] ys b t v = omega arith
starts_above lo top (x ∷ xs) ys b t v =
    omega (arith, v.0.ordered, starts_above (x.end + 1) top xs ys b t.1 v.1)

Narrow-before :
    (f : ℕ) (n : Node) (lo top : ℕ) (xs ys : List KBucket) (b : KBucket)
    → Tiles lo top (xs ++ b ∷ ys)
    → All Lru.IsValid (xs ++ b ∷ ys)
    → b.start ≤ n.id
    → Narrow f n xs
Narrow-before f n lo top [] ys b t v h = tt
Narrow-before f n lo top (x ∷ xs) ys b t v h = (
  λ _ k. absurd (omega (arith, starts_above (x.end + 1) top xs ys b t.1 v.1)),
  Narrow-before f n (x.end + 1) top xs ys b t.1 v.1 h,
)

Narrow-above :
    (f : ℕ) (n : Node) (lo top : ℕ) (ys : List KBucket)
    → Tiles lo top ys
    → All Lru.IsValid ys
    → n.id < lo
    → Narrow f n ys
Narrow-above f n lo top [] t v h = tt
Narrow-above f n lo top (y ∷ ys) t v h = (
  λ k _. absurd (omega arith),
  Narrow-above f n (y.end + 1) top ys t.1 v.1 (omega (arith, v.0.ordered)),
)

Narrow-after :
    (f : ℕ) (n : Node) (lo top : ℕ) (xs ys : List KBucket) (b : KBucket)
    → Tiles lo top (xs ++ b ∷ ys)
    → All Lru.IsValid (xs ++ b ∷ ys)
    → n.id < b.end
    → Narrow f n ys
Narrow-after f n lo top [] ys b t v h = Narrow-above f n (b.end + 1) top ys t.1 v.1 (omega arith)
Narrow-after f n lo top (x ∷ xs) ys b t v h = Narrow-after f n (x.end + 1) top xs ys b t.1 v.1 h

module _ (now : ℕ) (n : Node) (t : RoutingTable) (v : IsValid t) (p : Place)
    (at : bucket_by_node n t ≡ ok p) where
  tiles : Tiles 0 (k_max_node_id + 1) (p.before ++ p.found ∷ p.after)
  tiles = rw ((place now n t v p at).whole) v.tiles

  valid : All Lru.IsValid (p.before ++ p.found ∷ p.after)
  valid = rw ((place now n t v p at).whole) v.buckets

  width : (f : ℕ) → Narrow f n t.buckets → p.found.end - p.found.start < 2 ^ f
  width f w =
      let r = place now n t v p at in
      All-at (λ (b : KBucket). b.start ≤ n.id → n.id < b.end → b.end - b.start < 2 ^ f) p.before
        p.after p.found (rw r.whole w) r.above r.below

  Narrow-halved :
      (f : ℕ)
      → Narrow (suc f) n t.buckets
      → Narrow f n (split_bucket now p (offered now n p) (put_bucket p (offered now n p) t)).buckets
  unfolding put_bucket split_bucket
  Narrow-halved f w =
      let r = place now n t v p at in
      let b = offered now n p in
      All-append _ p.before ((split now b).0 ∷ (split now b).1 ∷ p.after)
        (Narrow-before f n 0 (k_max_node_id + 1) p.before p.after p.found tiles valid r.above)
        (All-append _ ((split now b).0 ∷ (split now b).1 ∷ []) p.after
          (Narrow-halves f now n b (offered-IsValid now n t v p at)
            (rw (offered-touched now n t v p at) (width (suc f) w)))
          (Narrow-after f n 0 (k_max_node_id + 1) p.before p.after p.found tiles valid r.below))

-- the fuel was not met
abbrev Ended : State → Type 0
Ended (_, r) = r ≢ err out_of_fuel

Round-Ended :
    (f now : ℕ) (n : Node) (t : RoutingTable) (retry : RoutingTable → State)
    → IsValid t
    → Narrow f n t.buckets
    → ((g : ℕ)
        → f ≡ suc g
        → (u : RoutingTable) → IsValid u
        → Narrow g n u.buckets
        → Ended (retry u))
    → Round now n t (one_round now n t)
    → Ended (one_round now n t retry)
Round-Ended f now n t retry v w keep (self _ e) = rw (e retry) (λ h. cc)
Round-Ended f now n t retry v w keep (lost x h e) =
    rw (e retry) (λ q. bucket_by_node-ne n t (h ∙ same_fault x q))
Round-Ended f now n t retry v w keep (added p at _ e) = rw (e retry) (λ h. cc)
Round-Ended f now n t retry v w keep (stuck p at _ _ x m e) =
    rw (e retry) (λ q. may_split-ne _ _ (m ∙ same_fault x q))
Round-Ended f now n t retry v w keep (full p at _ _ _ e) = rw (e retry) (λ h. cc)
Round-Ended zero now n t retry v w keep (again p at _ _ e) =
    let r = place now n t v p at in
    absurd (omega (arith, width now n t v p at 0 w, r.above, r.below))
Round-Ended (suc g) now n t retry v w keep (again p at _ _ e) =
    rw (e retry) (keep g refl _ (halved-IsValid now n t v p at) (Narrow-halved now n t v p at g w))

add_node-Narrow :
    (f now : ℕ) (n : Node) (t : RoutingTable)
    → IsValid t
    → Narrow f n t.buckets
    → Ended (add_node (suc f) now n t)
add_node-Narrow zero now n t v w = rw (add_node-one_round zero now n t) (
    Round-Ended zero now n t (λ u. add_node zero now n u) v w (λ g e. absurd (omega arith))
      (round now n t))
add_node-Narrow (suc f) now n t v w = rw (add_node-one_round (suc f) now n t) (
    Round-Ended (suc f) now n t (λ u. add_node (suc f) now n u) v w
      (λ g e u x y.
        let same : g ≡ f = omega arith in
        add_node-Narrow f now n u x (subst (λ (j : ℕ). Narrow j n u.buckets) same y))
      (round now n t))

-- On a valid table `add_node` never meets the bound of `k_id_size + 1` rounds: it returns or raises.
pub add_node_total :
    (now : ℕ) (n : Node) (t : RoutingTable)
    → IsValid t
    → (add_node (suc k_id_size) now n t).1 ≢ err out_of_fuel
add_node_total now n t v =
    add_node-Narrow k_id_size now n t v
      (Narrow-valid n 0 (k_max_node_id + 1) t.buckets v.tiles v.buckets (omega arith))
