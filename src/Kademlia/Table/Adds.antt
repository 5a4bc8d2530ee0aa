-- ===== src/Kademlia/Table/Adds.antt =====
-- One round of `RoutingTable.add_node`, in every way it can go.
use mathlib.Core.Path.{fun_ext, subst}
use structured_p2p_overlay_n.Prelude.{
  if◌then◌else◌, ℕ, suc, ◌≡◌, refl, true, false, Option, none, some, ok, err, assertion_error,
  Fault, Bool-cases, Option-cases, Result-cases, ResultCase, is_ok, is_err, inl, inr,
}
use structured_p2p_overlay_n.Kademlia.Node.{Node, node_ne}
use structured_p2p_overlay_n.Kademlia.Bucket
use structured_p2p_overlay_n.Kademlia.Bucket.{KBucket}
use structured_p2p_overlay_n.Kademlia.Table.{
  RoutingTable, Place, State, bucket_by_node, put_bucket, split_bucket, may_split, when_full,
  after_bucket, add_at, add_node,
}

-- the bucket at the place, after the node was offered to it
abbrev pub offered : ℕ → Node → Place → KBucket
offered now n p = (Bucket.add_node now n p.found).0

abbrev pub candidate : ℕ → Node → Place → Option Node
candidate now n p = (Bucket.add_node now n p.found).1

-- What `add_node` returns at once (`result`), or the table on which it tries again (`again`).
pub data Round (now : ℕ) (n : Node) (t : RoutingTable) (run : (RoutingTable → State) → State)
    : Type 0 where
  self :
      node_ne n t.this_node ≡ false
      → ((retry : RoutingTable → State) → run retry ≡ (t, err assertion_error))
      → Round now n t run
  lost :
      (e : Fault)
      → bucket_by_node n t ≡ err e
      → ((retry : RoutingTable → State) → run retry ≡ (t, err e))
      → Round now n t run
  added :
      (p : Place)
      → bucket_by_node n t ≡ ok p
      → candidate now n p ≡ none
      → ((retry : RoutingTable → State) → run retry ≡ (put_bucket p (offered now n p) t, ok none))
      → Round now n t run
  stuck :
      (p : Place)
      → bucket_by_node n t ≡ ok p
      → (c : Node) → candidate now n p ≡ some c
      → (e : Fault) → may_split (put_bucket p (offered now n p) t) (offered now n p) ≡ err e
      → ((retry : RoutingTable → State) → run retry ≡ (put_bucket p (offered now n p) t, err e))
      → Round now n t run
  full :
      (p : Place)
      → bucket_by_node n t ≡ ok p
      → (c : Node) → candidate now n p ≡ some c
      → may_split (put_bucket p (offered now n p) t) (offered now n p) ≡ ok false
      → ((retry : RoutingTable → State)
          → run retry ≡ (put_bucket p (offered now n p) t, ok (some c)))
      → Round now n t run
  again :
      (p : Place)
      → bucket_by_node n t ≡ ok p
      → (c : Node) → candidate now n p ≡ some c
      → ((retry : RoutingTable → State)
          → run retry
            ≡ retry (split_bucket now p (offered now n p) (put_bucket p (offered now n p) t)))
      → Round now n t run

module _ (now : ℕ) (n : Node) (t : RoutingTable) where
  abbrev body : (RoutingTable → State) → State
  body retry = add_at retry now n t (bucket_by_node n t)

  placed : (p : Place) → bucket_by_node n t ≡ ok p → Round now n t body
  unfolding add_at after_bucket when_full
  placed p at = elim (Option-cases (candidate now n p)) [
    | inl e ↦ added p at e (λ retry. rw (at, e, after_bucket))
    | inr (c, e) ↦ judged c e (Result-cases (may_split t' b))
  ]
    where
      b : KBucket
      b = offered now n p

      t' : RoutingTable
      t' = put_bucket p b t

      judged :
          (c : Node) → candidate now n p ≡ some c → ResultCase (may_split t' b) → Round now n t body
      judged c e (is_err f m) = stuck p at c e f m (λ retry. rw (at, e, after_bucket, m, when_full))
      judged c e (is_ok true m) = again p at c e (λ retry. rw (at, e, after_bucket, m, when_full))
      judged c e (is_ok false m) = full p at c e m (λ retry. rw (at, e, after_bucket, m, when_full))

  searched : ResultCase (bucket_by_node n t) → Round now n t body
  unfolding add_at
  searched (is_err e h) = lost e h (λ retry. rw (h, add_at))
  searched (is_ok p h) = placed p h

-- one round of `add_node`, over what it does to try again
abbrev pub one_round : ℕ → Node → RoutingTable → (RoutingTable → State) → State
one_round now n t retry =
    if node_ne n t.this_node
    then add_at retry now n t (bucket_by_node n t)
    else (t, err assertion_error)

pub round : (now : ℕ) (n : Node) (t : RoutingTable) → Round now n t (one_round now n t)
round now n t = elim (Bool-cases (node_ne n t.this_node)) [
  | inl e ↦
      let same : body now n t ≡ one_round now n t = fun_ext (λ retry. rw e) in
      subst (Round now n t) same (searched now n t (Result-cases (bucket_by_node n t)))
  | inr e ↦ self e (λ retry. rw e)
]

pub add_node-one_round :
    (f now : ℕ) (n : Node) (t : RoutingTable)
    → add_node (suc f) now n t ≡ one_round now n t (λ u. add_node f now n u)
unfolding add_node
add_node-one_round f now n t = refl
