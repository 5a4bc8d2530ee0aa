-- ===== src/Kademlia/Table/Removal.antt =====
-- `RoutingTable.remove_node`, and the field that no operation of the table changes.
use structured_p2p_overlay_n.Kademlia.Node.Members.{node_eq_comm, contains-others}
use structured_p2p_overlay_n.Kademlia.Table.Effect.{
  contains-one, contains-at, add_node-Effect, Effect,
}
use structured_p2p_overlay_n.Prelude.{
  err, ◌∙◌, ok, arith, [], false, ◌∷◌, ◌++◌, none, some, Bool-cases, inl, inr,
}
use structured_p2p_overlay_n.Prelude.{ℕ, zero, suc, ◌≡◌, refl, ap, Result-cases, is_ok, is_err}
use structured_p2p_overlay_n.Kademlia.Node.{node_eq, node_ne, contains, Node}
use structured_p2p_overlay_n.Kademlia.Bucket
use structured_p2p_overlay_n.Kademlia.Bucket.{KBucket, cache_append}
use structured_p2p_overlay_n.Kademlia.Bucket.Lru.{remove_node-others, remove_node-IsValid}
use structured_p2p_overlay_n.Kademlia.Table.{
  [], false, nodes_of, Place, RoutingTable, State, bucket_by_node, put_bucket, split_bucket,
  add_node, remove_node, remove_at,
}
use structured_p2p_overlay_n.Kademlia.Table.Lookup.{IsValid, place_of}
use structured_p2p_overlay_n.Kademlia.Table.Shape.{found-IsValid, put_bucket-IsValid}
use structured_p2p_overlay_n.Kademlia.Table.Adds.{
  Round, self, lost, added, stuck, full, again, one_round, round,
}

Round-this_node :
    (now : ℕ) (n : Node) (t : RoutingTable) (retry : RoutingTable → State)
    → ((u : RoutingTable) → (retry u).0.this_node ≡ u.this_node)
    → Round now n t (one_round now n t)
    → (one_round now n t retry).0.this_node ≡ t.this_node
unfolding put_bucket split_bucket
Round-this_node now n t retry keep (self _ e) = rw (e retry)
Round-this_node now n t retry keep (lost _ _ e) = rw (e retry)
Round-this_node now n t retry keep (added p at _ e) = rw (e retry)
Round-this_node now n t retry keep (stuck p at _ _ _ _ e) = rw (e retry)
Round-this_node now n t retry keep (full p at _ _ _ e) = rw (e retry)
Round-this_node now n t retry keep (again p at _ _ e) = rw (e retry) (keep _)

pub add_node-this_node :
    (f now : ℕ) (n : Node) (t : RoutingTable) → (add_node f now n t).0.this_node ≡ t.this_node
unfolding add_node
add_node-this_node zero now n t = refl
add_node-this_node (suc f) now n t =
    Round-this_node now n t (λ u. add_node f now n u) (add_node-this_node f now n) (round now n t)

pub remove_node-this_node :
    (n : Node) (t : RoutingTable) → (remove_node n t).0.this_node ≡ t.this_node
unfolding remove_node remove_at put_bucket
remove_node-this_node n t = elim (Result-cases (bucket_by_node n t)) [
  | is_ok p e ↦ rw (e, remove_at)
  | is_err x e ↦ rw (e, remove_at)
]

-- `remove_node` keeps a valid table valid, whether it returns or raises.
pub table_remove-IsValid : (n : Node) (t : RoutingTable) → IsValid t → IsValid (remove_node n t).0
unfolding remove_node
table_remove-IsValid n t v = elim (Result-cases (bucket_by_node n t)) [
  | is_err x e ↦ unfold remove_at in rw (e, remove_at) v
  | is_ok p e ↦
      let r = place_of n t e in
      let w = found-IsValid t p r.whole v in
      let same = remove_node-others n p.found w in
      unfold remove_at in
      rw (e, remove_at)
        (put_bucket-IsValid t p r.whole v (Bucket.remove_node n p.found)
          (ap (λ (b : KBucket). b.start) same) (ap (λ (b : KBucket). b.end) same)
          (remove_node-IsValid n p.found w))
]

Effect-no :
    (q n : Node) (t : RoutingTable) (r : State)
    → Effect t n r
    → node_eq q n ≡ false
    → contains q (nodes_of t.buckets) ≡ false
    → contains q (nodes_of r.0.buckets) ≡ false
Effect-no q n t (u, ok none) h e k = ground (arith, h q)
Effect-no q n t (u, ok (some c)) h e k = h.0 q ∙ k
Effect-no q n t (u, err _) h e k = h q ∙ k

-- `add_node` does not bring in the local node.
pub add_node-no_self :
    (f now : ℕ) (n : Node) (t : RoutingTable)
    → IsValid t
    → contains t.this_node (nodes_of t.buckets) ≡ false
    → contains t.this_node (nodes_of (add_node f now n t).0.buckets) ≡ false
unfolding add_node node_ne
add_node-no_self zero now n t v k = k
add_node-no_self (suc f) now n t v k = elim (Bool-cases (node_eq n t.this_node)) [
  | inl e ↦ rw e k
  | inr e ↦
      Effect-no t.this_node n t (add_node (suc f) now n t) (add_node-Effect (suc f) now n t v)
        (node_eq_comm t.this_node n ∙ e) k
]

-- A bucket with no new node brings none into the table.
pub put_bucket-no :
    (q : Node) (t : RoutingTable) (p : Place) (b : KBucket)
    → p.before ++ p.found ∷ p.after ≡ t.buckets
    → (contains q p.found.nodes ≡ false → contains q b.nodes ≡ false)
    → contains q (nodes_of t.buckets) ≡ false
    → contains q (nodes_of (put_bucket p b t).buckets) ≡ false
unfolding put_bucket
put_bucket-no q t p b whole keep h =
    let h' : contains q (nodes_of (p.before ++ (p.found ∷ [] ++ p.after))) ≡ false = rw whole h in
    ground (
      arith,
      contains-at q p (p.found ∷ []),
      contains-at q p (b ∷ []),
      contains-one q p.found,
      contains-one q b,
      keep,
    )

-- `remove_node` brings in no node.
pub remove_node-no :
    (q n : Node) (t : RoutingTable)
    → IsValid t
    → contains q (nodes_of t.buckets) ≡ false
    → contains q (nodes_of (remove_node n t).0.buckets) ≡ false
unfolding remove_node
remove_node-no q n t v h = elim (Result-cases (bucket_by_node n t)) [
  | is_err x e ↦ unfold remove_at in rw (e, remove_at) h
  | is_ok p e ↦
      let r = place_of n t e in
      let w = found-IsValid t p r.whole v in
      unfold remove_at in
      rw (e, remove_at)
        (put_bucket-no q t p (Bucket.remove_node n p.found) r.whole
          (λ k.
            rw (remove_node-others n p.found w) (ground (arith, contains-others q n p.found.nodes)))
          h)
]
