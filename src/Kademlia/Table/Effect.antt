-- ===== src/Kademlia/Table/Effect.antt =====
-- What `RoutingTable.add_node` does to the set of known nodes.
use structured_p2p_overlay_n.Prelude.{
  ℕ, zero, suc, ◌≡◌, refl, sym, ◌∙◌, true, ◌||◌, none, some, List, [], ◌∷◌, ◌++◌, arith, filter,
  append-nil, head?, if◌then◌else◌, ok, err,
}
use structured_p2p_overlay_n.Kademlia.Node.{Node, node_eq, node_eq_self, contains}
use structured_p2p_overlay_n.Kademlia.Node.Members.{
  contains-append, contains_congr, contains-filter-filter,
}
use structured_p2p_overlay_n.Kademlia.Bucket.{KBucket, midpoint, split}
use structured_p2p_overlay_n.Kademlia.Bucket.Lru
use structured_p2p_overlay_n.Kademlia.Bucket.Lru.{touch, contains-touch, add_node-touch}
use structured_p2p_overlay_n.Kademlia.Bucket.Split.{low, split-filter}
use structured_p2p_overlay_n.Kademlia.Table.{
  RoutingTable, Place, State, bucket_by_node, put_bucket, split_bucket, add_node, nodes_of,
}
use structured_p2p_overlay_n.Kademlia.Table.Lookup.{IsValid}
use structured_p2p_overlay_n.Kademlia.Table.Adds.{
  Round, self, lost, added, stuck, full, again, offered, candidate, one_round, round,
}
use structured_p2p_overlay_n.Kademlia.Table.Keeps.{
  place, touched-IsValid, offered-touched, offered-IsValid, halved-IsValid,
}

pub contains-nodes_of :
    (q : Node) (xs ys : List KBucket)
    → contains q (nodes_of (xs ++ ys)) ≡ (contains q (nodes_of xs) || contains q (nodes_of ys))
unfolding nodes_of contains
contains-nodes_of q [] ys = refl
contains-nodes_of q (x ∷ xs) ys = ground (
  arith,
  contains-append q x.nodes (nodes_of (xs ++ ys)),
  contains-append q x.nodes (nodes_of xs),
  contains-nodes_of q xs ys,
)

-- What the candidate says of the bucket: with none the node is in, with one nothing is new.
candidate_none :
    (q n : Node) (ns : List Node)
    → (if contains n (touch n ns) then none else head? ns) ≡ none
    → contains q (touch n ns) ≡ (contains q ns || node_eq q n)
unfolding filter
candidate_none q n [] h =
    ground (arith, contains-touch q n [], contains-touch n n [], node_eq_self n)
candidate_none q n (m ∷ ms) h = ground (
  arith,
  contains-touch q n (m ∷ ms),
  contains-touch n n (m ∷ ms),
  node_eq_self n,
  contains_congr q n (m ∷ ms),
)

candidate_some :
    (q n c : Node) (ns : List Node)
    → (if contains n (touch n ns) then none else head? ns) ≡ some c
    → (contains q (touch n ns) ≡ contains q ns) × (contains c ns ≡ true)
unfolding contains
candidate_some q n c [] h = ground arith
candidate_some q n c (m ∷ ms) h = ground (
  arith,
  contains-touch q n (m ∷ ms),
  contains-touch n n (m ∷ ms),
  node_eq_self n,
  node_eq_self m,
)

-- the nodes of a table in which `mid` stands for the bucket found at a place
pub contains-at :
    (q : Node) (p : Place) (mid : List KBucket)
    → contains q (nodes_of (p.before ++ (mid ++ p.after))) ≡ (
        contains q (nodes_of p.before)
        || (contains q (nodes_of mid) || contains q (nodes_of p.after)))
contains-at q p mid = simp contains-nodes_of

pub contains-one : (q : Node) (b : KBucket) → contains q (nodes_of (b ∷ [])) ≡ contains q b.nodes
unfolding nodes_of
contains-one q b = rw (append-nil b.nodes)

contains-split :
    (now : ℕ) (q : Node) (b : KBucket)
    → Lru.IsValid b
    → contains q (nodes_of ((split now b).0 ∷ (split now b).1 ∷ [])) ≡ contains q b.nodes
unfolding nodes_of
contains-split now q b v =
    rw (split-filter now b v, append-nil, contains-append)
      (sym (contains-filter-filter q (low (midpoint b)) b.nodes))

-- The nodes that `add_node` leaves in the table: with none handed back the old ones and the new
-- one; with a candidate handed back, or after a raise, the old ones, the candidate among them.
abbrev pub Effect : RoutingTable → Node → State → Type 0
Effect t n (u, ok none) =
    (q : Node) → contains q (nodes_of u.buckets) ≡ (contains q (nodes_of t.buckets) || node_eq q n)
Effect t n (u, ok (some c)) =
    ((q : Node) → contains q (nodes_of u.buckets) ≡ contains q (nodes_of t.buckets))
    × (contains c (nodes_of t.buckets) ≡ true)
Effect t n (u, err _) =
    (q : Node) → contains q (nodes_of u.buckets) ≡ contains q (nodes_of t.buckets)

module _ (now : ℕ) (n : Node) (t : RoutingTable) (v : IsValid t) (p : Place)
    (at : bucket_by_node n t ≡ ok p) where
  nodes_before :
      (q : Node)
      → contains q (nodes_of t.buckets) ≡ (
          contains q (nodes_of p.before)
          || (contains q p.found.nodes || contains q (nodes_of p.after)))
  nodes_before q =
      rw (sym (place now n t v p at).whole)
        (rw (contains-one q p.found) at (contains-at q p (p.found ∷ [])))

  nodes_put :
      (q : Node)
      → contains q (nodes_of (put_bucket p (offered now n p) t).buckets) ≡ (
          contains q (nodes_of p.before)
          || (contains q (touch n p.found.nodes) || contains q (nodes_of p.after)))
  unfolding put_bucket
  nodes_put q = rw (offered-touched now n t v p at) (
      rw (contains-one q (record p.found { nodes = touch n p.found.nodes; last_updated = now })) at
        (contains-at q p
          (record p.found { nodes = touch n p.found.nodes; last_updated = now } ∷ [])))

  nodes_halved :
      (q : Node)
      → contains q (
          nodes_of
            (split_bucket now p (offered now n p) (put_bucket p (offered now n p) t)).buckets)
        ≡ (contains q (nodes_of p.before)
            || (contains q (touch n p.found.nodes) || contains q (nodes_of p.after)))
  unfolding put_bucket split_bucket
  nodes_halved q =
      let b = offered now n p in
      contains-at q p ((split now b).0 ∷ (split now b).1 ∷ [])
      ∙ rw (contains-split now q b (offered-IsValid now n t v p at), offered-touched now n t v p at)

  judged :
      candidate now n p ≡ (if contains n (touch n p.found.nodes) then none else head? p.found.nodes)
  judged = (add_node-touch now n p.found (touched-IsValid now n t v p at)).1

  Effect-none : candidate now n p ≡ none → Effect t n (put_bucket p (offered now n p) t, ok none)
  Effect-none e q =
      ground (arith, nodes_put q, nodes_before q, candidate_none q n p.found.nodes (sym judged ∙ e))

  same_nodes :
      (q c : Node)
      → candidate now n p ≡ some c
      → (contains q (touch n p.found.nodes) ≡ contains q p.found.nodes)
        × (contains c p.found.nodes ≡ true)
  same_nodes q c e = candidate_some q n c p.found.nodes (sym judged ∙ e)

  unchanged :
      (c : Node)
      → candidate now n p ≡ some c
      → (q : Node)
      → contains q (nodes_of (put_bucket p (offered now n p) t).buckets)
        ≡ contains q (nodes_of t.buckets)
  unchanged c e q = ground (arith, nodes_put q, nodes_before q, same_nodes q c e)

  unchanged_halved :
      (c : Node)
      → candidate now n p ≡ some c
      → (q : Node)
      → contains q (
          nodes_of
            (split_bucket now p (offered now n p) (put_bucket p (offered now n p) t)).buckets)
        ≡ contains q (nodes_of t.buckets)
  unchanged_halved c e q = ground (arith, nodes_halved q, nodes_before q, same_nodes q c e)

  held : (c : Node) → candidate now n p ≡ some c → contains c (nodes_of t.buckets) ≡ true
  held c e = ground (arith, nodes_before c, same_nodes c c e)

-- The effect on a table with the same nodes is the effect on the table.
Effect-same :
    (t u : RoutingTable) (n : Node) (r : State)
    → ((q : Node) → contains q (nodes_of u.buckets) ≡ contains q (nodes_of t.buckets))
    → Effect u n r
    → Effect t n r
Effect-same t u n (w, ok none) h e = λ q. ground (arith, h q, e q)
Effect-same t u n (w, ok (some c)) h e = (λ q. e.0 q ∙ h q, sym (h c) ∙ e.1)
Effect-same t u n (w, err _) h e = λ q. e q ∙ h q

Round-Effect :
    (now : ℕ) (n : Node) (t : RoutingTable) (retry : RoutingTable → State)
    → IsValid t
    → ((u : RoutingTable) → IsValid u → Effect u n (retry u))
    → Round now n t (one_round now n t)
    → Effect t n (one_round now n t retry)
Round-Effect now n t retry v keep (self _ e) = rw (e retry) (λ q. refl)
Round-Effect now n t retry v keep (lost _ _ e) = rw (e retry) (λ q. refl)
Round-Effect now n t retry v keep (added p at c e) = rw (e retry) (Effect-none now n t v p at c)
Round-Effect now n t retry v keep (stuck p at c f _ _ e) =
    rw (e retry) (unchanged now n t v p at c f)
Round-Effect now n t retry v keep (full p at c f _ e) =
    rw (e retry) (unchanged now n t v p at c f, held now n t v p at c f)
Round-Effect now n t retry v keep (again p at c f e) =
    let u = split_bucket now p (offered now n p) (put_bucket p (offered now n p) t) in
    rw (e retry) (
      Effect-same t u n (retry u) (unchanged_halved now n t v p at c f)
        (keep u (halved-IsValid now n t v p at)))

-- `add_node` loses no node: with none handed back the table holds its old nodes and the new one,
-- and otherwise exactly its old nodes, the handed back candidate among them.
pub add_node-Effect :
    (f now : ℕ) (n : Node) (t : RoutingTable) → IsValid t → Effect t n (add_node f now n t)
unfolding add_node
add_node-Effect zero now n t v = λ q. refl
add_node-Effect (suc f) now n t v =
    Round-Effect now n t (λ u. add_node f now n u) v (λ u w. add_node-Effect f now n u w)
      (round now n t)
