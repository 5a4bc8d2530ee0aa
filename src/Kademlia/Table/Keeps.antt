-- ===== src/Kademlia/Table/Keeps.antt =====
-- What `RoutingTable.add_node` and `remove_node` keep: the shape of the table and its nodes.
use structured_p2p_overlay_n.Prelude.{ℕ, zero, suc, ◌≡◌, ap, arith, ok}
use structured_p2p_overlay_n.Kademlia.Node.{Node}
use structured_p2p_overlay_n.Kademlia.Bucket.{KBucket}
use structured_p2p_overlay_n.Kademlia.Bucket.Lru
use structured_p2p_overlay_n.Kademlia.Bucket.Lru.{InRange, add_node-touch, add_node-IsValid}
use structured_p2p_overlay_n.Kademlia.Table.{
  RoutingTable, Place, State, bucket_by_node, put_bucket, split_bucket, add_node,
}
use structured_p2p_overlay_n.Kademlia.Table.Lookup.{IsValid, IsPlace, place_of}
use structured_p2p_overlay_n.Kademlia.Table.Shape.{
  found-IsValid, put_bucket-IsValid, split_bucket-IsValid,
}
use structured_p2p_overlay_n.Kademlia.Table.Adds.{
  Round, self, lost, added, stuck, full, again, offered, one_round, round,
}

module _ (now : ℕ) (n : Node) (t : RoutingTable) (v : IsValid t) (p : Place)
    (at : bucket_by_node n t ≡ ok p) where
  pub place : IsPlace n t.buckets p
  place = place_of n t at

  pub touched-IsValid : Lru.IsValid p.found
  touched-IsValid = found-IsValid t p place.whole v

  abbrev touched : KBucket
  touched = record p.found { nodes = Lru.touch n p.found.nodes; last_updated = now }

  pub offered-touched : offered now n p ≡ touched
  offered-touched = (add_node-touch now n p.found touched-IsValid).0

  pub offered-IsValid : Lru.IsValid (offered now n p)
  offered-IsValid =
      add_node-IsValid now n p.found touched-IsValid (place.above, omega (arith, place.below))

  pub put-IsValid : IsValid (put_bucket p (offered now n p) t)
  put-IsValid =
      put_bucket-IsValid t p place.whole v (offered now n p)
        (ap (λ (b : KBucket). b.start) offered-touched)
        (ap (λ (b : KBucket). b.end) offered-touched) offered-IsValid

  pub halved-IsValid :
      IsValid (split_bucket now p (offered now n p) (put_bucket p (offered now n p) t))
  unfolding put_bucket split_bucket
  halved-IsValid =
      split_bucket-IsValid t p place.whole v now (offered now n p)
        (ap (λ (b : KBucket). b.start) offered-touched)
        (ap (λ (b : KBucket). b.end) offered-touched)
        (rw offered-touched (omega (arith, place.above, place.below))) offered-IsValid

Round-IsValid :
    (now : ℕ) (n : Node) (t : RoutingTable) (retry : RoutingTable → State)
    → IsValid t
    → ((u : RoutingTable) → IsValid u → IsValid (retry u).0)
    → Round now n t (one_round now n t)
    → IsValid (one_round now n t retry).0
Round-IsValid now n t retry v keep (self _ e) = rw (e retry) v
Round-IsValid now n t retry v keep (lost _ _ e) = rw (e retry) v
Round-IsValid now n t retry v keep (added p at _ e) = rw (e retry) (put-IsValid now n t v p at)
Round-IsValid now n t retry v keep (stuck p at _ _ _ _ e) =
    rw (e retry) (put-IsValid now n t v p at)
Round-IsValid now n t retry v keep (full p at _ _ _ e) = rw (e retry) (put-IsValid now n t v p at)
Round-IsValid now n t retry v keep (again p at _ _ e) =
    rw (e retry) (keep _ (halved-IsValid now n t v p at))

-- `add_node` keeps a valid table valid, whether it returns or raises.
pub table_add-IsValid :
    (f now : ℕ) (n : Node) (t : RoutingTable) → IsValid t → IsValid (add_node f now n t).0
unfolding add_node
table_add-IsValid zero now n t v = v
table_add-IsValid (suc f) now n t v =
    Round-IsValid now n t (λ u. add_node f now n u) v (λ u w. table_add-IsValid f now n u w)
      (round now n t)
