-- ===== src/Kademlia/Protocol/Fuel.antt =====
-- `update` calls itself for a replacement after it has deleted an entry of `_expected_pongs`.
use structured_p2p_overlay_n.Kademlia.Table.Ends.{bucket_by_node-ne, same_fault}
use structured_p2p_overlay_n.Kademlia.Table.{RoutingTable, bucket_by_node, Place}
use structured_p2p_overlay_n.Kademlia.Node.{node_eq, Node}
use structured_p2p_overlay_n.Prelude.Bytes.{bytes_eq, bytes_eq_self, Bytes}
use structured_p2p_overlay_n.Prelude.{
  if◌then◌else◌, zero, append_assoc, subst, inr, ◌∙◌, sym, ◌||◌, inl, ltb, Bool-cases, ◌≤◌, arith,
  ◌<◌, ◌++◌, length, suc, ◌≡◌, none, some, Option, ℕ, ap, true, ok, [], out_of_fuel, err, ◌≢◌,
  Result, List, Bool,
}
use structured_p2p_overlay_n.Kademlia.Table
use structured_p2p_overlay_n.Prelude.{refl, sym, ap, ◌∙◌}
use mathlib.Core.Bool.{true, false}
use structured_p2p_overlay_n.Kademlia.Protocol.{
  run_update, is_surprising, bytes_eq, ltb, expire, replace_or_go_on, note_deleted,
  expire_and_finish, length, delete, update, RoutingTable, bucket_by_node, suc, Place, Pending,
  Option, Node, ℕ, Bytes, finish_update, set_pending, Env, on_routing, out_of_fuel, err, ◌∷◌,
  Result, Bool, List, Act, Kademlia,
}
use structured_p2p_overlay_n.Prelude.Exec.{◌>>◌, continue, pure, gets, ◌>>=◌, modify}
use structured_p2p_overlay_n.Kademlia.Protocol.Invariant.{
  update-IsValid, expire-IsValid, note_deleted-IsValid, remove_node-IsValid, set_pending-IsValid,
  IsValid,
}
use structured_p2p_overlay_n.Kademlia.Protocol.Returns.{done-ne, finish_update-Ends}

module _ {A B : Type 0} where
  bind-ne :
      (m : Act A) (f : A → Act B) (s : Kademlia)
      → (m s).1 ≢ err out_of_fuel
      → ((a : A) → (f a (m s).0).1 ≢ err out_of_fuel)
      → ((m >>= f) s).1 ≢ err out_of_fuel
  unfolding ◌>>=◌
  bind-ne m f s h k = go (m s).1 h
    where
      go : (r : Result A) → r ≢ err out_of_fuel → (continue (m s).0 r f).1 ≢ err out_of_fuel
      go (ok a) h = k a
      go (err e) h = λ x. h (same_fault e x)

remove_node-ne : (n : Node) (t : RoutingTable) → (Table.remove_node n t).1 ≢ err out_of_fuel
unfolding Table.remove_node Table.remove_at
remove_node-ne n t = go (bucket_by_node n t) (bucket_by_node-ne n t)
  where
    go : (p : Result Place) → p ≢ err out_of_fuel → (Table.remove_at n t p).1 ≢ err out_of_fuel
    go (ok p) h = done-ne
    go (err e) h = λ x. h (same_fault e x)

-- The deletion of an entry that is still to be looked at leaves those after it, and one less.
delete-later :
    (pid : Bytes) (e : Pending) (l kept : List (Bytes × Pending))
    → (kept' : List (Bytes × Pending)) × (delete pid (kept ++ (pid, e) ∷ l) ≡ kept' ++ l)
      × (length (delete pid (kept ++ (pid, e) ∷ l)) < length (kept ++ (pid, e) ∷ l))
unfolding delete
delete-later pid e l [] = ([], rw (bytes_eq_self pid) refl, rw (bytes_eq_self pid) (omega arith))
delete-later pid e l ((j, w) ∷ k) = elim (Bool-cases (bytes_eq j pid)) [
  | inl h ↦ (k ++ (pid, e) ∷ [], rw h (sym (append_assoc k ((pid, e) ∷ []) l)), rw h (omega arith))
  | inr h ↦
      let (kept', same, less) = delete-later pid e l k in
      ((j, w) ∷ kept', rw h (ap (◌∷◌ (j, w)) same), rw h (omega (arith, less)))
]

module _ (env : Env) (f : ℕ) (retry : Node → Act (Unit {0})) (n : Node)
    (ends : (r : Node) (u : Kademlia)
      → IsValid u
      → length u.expected_pongs < f
      → (retry r u).1 ≢ err out_of_fuel) where
  replace_or_go_on-ne :
      (rest : Act Bool) (gone : Node) (o : Option Node) (s : Kademlia)
      → IsValid s
      → length s.expected_pongs < f
      → (rest s).1 ≢ err out_of_fuel
      → (replace_or_go_on env retry n rest gone o s).1 ≢ err out_of_fuel
  unfolding replace_or_go_on pure
  replace_or_go_on-ne rest gone (some r) s v h k =
      bind-ne (retry r) _ s (ends r s v h) (λ a. λ e. cc)
  replace_or_go_on-ne rest gone none s v h k = elim (Bool-cases (node_eq gone n)) [
    | inl e ↦ rw e (λ x. cc)
    | inr e ↦ rw e k
  ]

  abbrev after_removal : Bytes → Pending → Kademlia → Kademlia
  after_removal pid e s =
      (on_routing (Table.remove_node e.node) (set_pending (delete pid) (note_deleted pid s).0).0).0

  after_removal-IsValid :
      (pid : Bytes) (e : Pending) (s : Kademlia) → IsValid s → IsValid (after_removal pid e s)
  after_removal-IsValid pid e s v =
      (remove_node-IsValid e.node).at _
        ((set_pending-IsValid (delete pid)).at _ ((note_deleted-IsValid pid).at s v))

  expire-ne :
      (l kept : List (Bytes × Pending)) (s : Kademlia)
      → IsValid s
      → s.expected_pongs ≡ kept ++ l
      → length s.expected_pongs ≤ f
      → (expire env retry n l s).1 ≢ err out_of_fuel
  unfolding expire pure on_routing set_pending note_deleted modify
  expire-ne [] kept s v h k = λ e. cc
  expire-ne ((pid, e) ∷ l) kept s v h k = elim (Bool-cases (ltb e.timeout env.now)) [
    | inl late ↦
        let (kept', same, less) = delete-later pid e l kept in
        let u = after_removal pid e s in
        let w = after_removal-IsValid pid e s v in
        let left : u.expected_pongs ≡ kept' ++ l = ap (delete pid) h ∙ same in
        let fewer : length u.expected_pongs < length s.expected_pongs =
          subst (λ (d : List (Bytes × Pending)). length (delete pid d) < length d) (sym h) less in
        let finish : Act Bool =
          replace_or_go_on env retry n (expire env retry n l) e.node e.replacement in
        let third : Act Bool = on_routing (Table.remove_node e.node) >> finish in
        let second : Act Bool = set_pending (delete pid) >> third in
        rw late (
          bind-ne (note_deleted pid) (λ _. second) s done-ne
            (λ _.
              bind-ne (set_pending (delete pid)) (λ _. third) (note_deleted pid s).0 done-ne
                (λ _.
                  bind-ne (on_routing (Table.remove_node e.node)) (λ _. finish)
                    (set_pending (delete pid) (note_deleted pid s).0).0
                    (remove_node-ne e.node s.routing)
                    (λ _.
                      replace_or_go_on-ne (expire env retry n l) e.node e.replacement u w
                        (omega (arith, fewer, k))
                        (expire-ne l kept' u w left (omega (arith, fewer, k)))))))
    | inr soon ↦
        rw soon (
          expire-ne l (kept ++ (pid, e) ∷ []) s v (h ∙ sym (append_assoc kept ((pid, e) ∷ []) l)) k)
  ]

module _ (env : Env) where
  stop_or_finish-ne :
      (n : Node) (o : Option Bytes) (stop : Bool) (s : Kademlia)
      → IsValid s
      → ((if stop then pure tt else finish_update env n o) s).1 ≢ err out_of_fuel
  unfolding pure
  stop_or_finish-ne n o true s v = done-ne
  stop_or_finish-ne n o false s v = (finish_update-Ends env n o).ends s v

  pub update-ne :
      (f : ℕ) (n : Node) (o : Option Bytes) (s : Kademlia)
      → IsValid s
      → length s.expected_pongs < f
      → (update env f n o s).1 ≢ err out_of_fuel
  unfolding update expire_and_finish gets pure ◌>>=◌
  update-ne zero n o s v h = absurd (omega arith)
  update-ne (suc f) n o s v h =
      let again = λ (r : Node). update env f r none in
      let e = s.expected_pongs in
      let loop = expire env again n e in
      elim (Bool-cases (node_eq n s.this_node || is_surprising env o e)) [
        | inl q ↦ rw q done-ne
        | inr q ↦ rw q (
            stopped (loop s).0 (loop s).1
              (expire-ne env f again n (λ r u w k. update-ne f r none u w k) e [] s v refl
                (omega (arith, h)))
              ((expire-IsValid env again n (λ r. update-IsValid env f r none) e).at s v))
      ]
    where
      stopped :
          (u : Kademlia) (r : Result Bool)
          → r ≢ err out_of_fuel
          → IsValid u
          → (continue u r (λ stop. if stop then pure tt else finish_update env n o)).1
            ≢ err out_of_fuel
      stopped u (ok stop) k w = stop_or_finish-ne n o stop u w
      stopped u (err x) k w = λ y. k (same_fault x y)

  -- In a valid state the fuel that `run_update` gives `update` is enough: it returns or raises.
  pub run_update_total :
      (n : Node) (o : Option Bytes) (s : Kademlia)
      → IsValid s
      → (run_update env n o s).1 ≢ err out_of_fuel
  unfolding run_update
  run_update_total n o s v = update-ne (suc (length s.expected_pongs)) n o s v (omega arith)
