-- ===== src/Kademlia/Protocol/Returns.antt =====
-- The parts of `update` other than its recursion never meet the bound of the fuel.
use structured_p2p_overlay_n.Kademlia.Table.Ends.{add_node_total, bucket_by_node-ne, same_fault}
use structured_p2p_overlay_n.Kademlia.Table.{RoutingTable, bucket_by_node, Place}
use structured_p2p_overlay_n.Kademlia.Node.{k_id_size, Node}
use structured_p2p_overlay_n.Prelude.Bytes.{Bytes}
use structured_p2p_overlay_n.Prelude.{
  suc, ◌≡◌, none, some, Option, ℕ, ap, true, ok, [], out_of_fuel, err, ◌≢◌, assertion_error, Result,
  List, Bool,
}
use structured_p2p_overlay_n.Kademlia.Table
use structured_p2p_overlay_n.Prelude.{ap}
use mathlib.Core.Bool.{true, false}
use structured_p2p_overlay_n.Kademlia.Protocol.{
  bucket_by_node, suc, Place, Pending, Option, Node, query_neighbours, take_pong, prune_requests,
  ping_candidate, note_request, ping_node, refresh_idle, append_cache, accept_pong,
  ping_replacements, add_or_ping, find, ℕ, mkpingid, Bytes, Message, finish_update,
  cache_replacement, send, set_pending, Env, on_routing, out_of_fuel, err, assertion_error, ◌∷◌,
  Result, Bool, List, Act, Kademlia,
}
use structured_p2p_overlay_n.Prelude.Exec.{
  Keeps-bind, Keeps-lift, Keeps-assert, Keeps-gets, Keeps-pure, Keeps, continue, pure, raise, gets,
  lift, assert, for_each, ◌>>=◌, modify,
}
use structured_p2p_overlay_n.Kademlia.Protocol.Invariant.{
  add_node-IsValid, cache_replacement-IsValid, set_pending-IsValid, prune_requests-IsValid,
  note_request-IsValid, send-IsValid, IsValid,
}

-- `m` never meets the bound of the fuel, from a state that meets the invariant.
pub record Ends {A : Type 0} (m : Act A) : Type 0 where
  pub keeps : Keeps IsValid m
  pub ends : (s : Kademlia) → IsValid s → (m s).1 ≢ err out_of_fuel

module _ {A : Type 0} where
  Ends-pure : (a : A) → Ends (pure a)
  unfolding pure
  Ends-pure a = record { keeps = Keeps-pure a; ends = λ s v. λ e. cc }

  Ends-gets : (f : Kademlia → A) → Ends (gets f)
  unfolding gets
  Ends-gets f = record { keeps = Keeps-gets f; ends = λ s v. λ e. cc }

  Ends-lift : (r : Result A) → r ≢ err out_of_fuel → Ends (lift r)
  unfolding lift
  Ends-lift r h = record { keeps = Keeps-lift r; ends = λ s v. h }

module _ {A B : Type 0} where
  Ends-bind : (m : Act A) (f : A → Act B) → Ends m → ((a : A) → Ends (f a)) → Ends (m >>= f)
  unfolding ◌>>=◌
  Ends-bind m f em ef = record {
    keeps = Keeps-bind m f em.keeps (λ a. (ef a).keeps);
    ends = λ s v. go s (m s).1 (em.keeps.at s v) (em.ends s v);
  }
    where
      go :
          (s : Kademlia) (r : Result A)
          → IsValid (m s).0
          → r ≢ err out_of_fuel
          → (continue (m s).0 r f).1 ≢ err out_of_fuel
      go s (ok a) w h = (ef a).ends (m s).0 w
      go s (err e) w h = λ x. h (ap (λ (r : Result B). elim r [ ok _ ↦ err e | err i ↦ err i ]) x)

Ends-assert : (b : Bool) → Ends (assert b assertion_error)
unfolding assert pure raise
Ends-assert true = Ends-pure tt
Ends-assert false = record { keeps = Keeps-assert false assertion_error; ends = λ s v. λ e. cc }

Ends-for_each :
    {A : Type 0} (l : List A) (body : A → Act (Unit {0}))
    → ((a : A) → Ends (body a))
    → Ends (for_each l body)
unfolding for_each
Ends-for_each [] body k = Ends-pure tt
Ends-for_each (a ∷ l) body k =
    Ends-bind (body a) (λ _. for_each l body) (k a) (λ _. Ends-for_each l body k)

ruleset ends_rules = (Ends-pure, Ends-gets, Ends-bind, Ends-assert, Ends-for_each)

pub done-ne : ◌≡◌ {A = Result (Unit {0})} (ok tt) (err out_of_fuel) → ⊥
done-ne e = cc

send-Ends : (m : Message) → Ends (send m)
unfolding send modify
send-Ends m = record { keeps = send-IsValid m; ends = λ s v. done-ne }

set_pending-Ends : (f : List (Bytes × Pending) → List (Bytes × Pending)) → Ends (set_pending f)
unfolding set_pending modify
set_pending-Ends f = record { keeps = set_pending-IsValid f; ends = λ s v. done-ne }

cache_replacement-Ends : (o : Option Node) → Ends (cache_replacement o)
unfolding cache_replacement append_cache modify ◌>>=◌ gets lift
cache_replacement-Ends none = Ends-pure tt
cache_replacement-Ends (some r) = record {
  keeps = cache_replacement-IsValid (some r);
  ends = λ s v. found s (bucket_by_node r s.routing) (bucket_by_node-ne r s.routing);
}
  where
    found :
        (s : Kademlia) (p : Result Place)
        → p ≢ err out_of_fuel
        → (continue s p (append_cache r)).1 ≢ err out_of_fuel
    found s (ok p) h = done-ne
    found s (err e) h = λ x. h (same_fault e x)

routing_add-Ends : (now : ℕ) (n : Node) → Ends (on_routing (Table.add_node (suc k_id_size) now n))
unfolding on_routing
routing_add-Ends now n = record {
  keeps = add_node-IsValid (suc k_id_size) now n;
  ends = λ s v. add_node_total now n s.routing v.table;
}

module _ (env : Env) where
  mkpingid-Ends : (echoed : Bytes) (n : Node) → Ends (mkpingid echoed n)
  unfolding mkpingid
  mkpingid-Ends echoed n = search ends_rules

  ping_node-Ends : (n : Node) (o : Option Node) → Ends (ping_node env n o)
  unfolding ping_node
  ping_node-Ends n o = search (ends_rules, send-Ends, mkpingid-Ends, set_pending-Ends) depth 12

  query_neighbours-Ends : (target : ℕ) → Ends (query_neighbours env target)
  unfolding query_neighbours
  query_neighbours-Ends target = search (ends_rules, send-Ends) depth 8

  note_request-Ends : (target : ℕ) → Ends (note_request env target)
  unfolding note_request modify
  note_request-Ends target = record {
    keeps = note_request-IsValid env target;
    ends = λ s v. done-ne;
  }

  find-Ends : (target : ℕ) (via : Option Node) → Ends (find env target via)
  unfolding find
  find-Ends target none = search (ends_rules, note_request-Ends, query_neighbours-Ends) depth 8
  find-Ends target (some n) = search (ends_rules, note_request-Ends, send-Ends) depth 8

  take_pong-Ends : (pid : Bytes) (o : Option Pending) → Ends (take_pong env pid o)
  unfolding take_pong
  take_pong-Ends pid none = Ends-pure tt
  take_pong-Ends pid (some e) =
      search (ends_rules, cache_replacement-Ends, set_pending-Ends) depth 8

  accept_pong-Ends : (o : Option Bytes) → Ends (accept_pong env o)
  unfolding accept_pong
  accept_pong-Ends none = Ends-pure tt
  accept_pong-Ends (some pid) = search (ends_rules, take_pong-Ends) depth 8

  ping_candidate-Ends : (n : Node) (o : Option Node) → Ends (ping_candidate env n o)
  unfolding ping_candidate
  ping_candidate-Ends n none = Ends-pure tt
  ping_candidate-Ends n (some c) = ping_node-Ends c (some n)

  add_or_ping-Ends : (n : Node) → Ends (add_or_ping env n)
  unfolding add_or_ping
  add_or_ping-Ends n = Ends-bind _ _ (routing_add-Ends env.now n) (λ c. ping_candidate-Ends n c)

  ping_replacements-Ends : Ends (ping_replacements env)
  unfolding ping_replacements
  ping_replacements-Ends = search (ends_rules, ping_node-Ends) depth 9

  refresh_idle-Ends : Ends (refresh_idle env)
  unfolding refresh_idle
  refresh_idle-Ends = search (ends_rules, find-Ends) depth 9

  prune_requests-Ends : Ends (prune_requests env)
  unfolding prune_requests modify
  prune_requests-Ends = record { keeps = prune_requests-IsValid env; ends = λ s v. done-ne }

  pub finish_update-Ends : (n : Node) (o : Option Bytes) → Ends (finish_update env n o)
  unfolding finish_update
  finish_update-Ends n o =
      search
        (
          ends_rules, accept_pong-Ends, add_or_ping-Ends, ping_replacements-Ends, refresh_idle-Ends,
          prune_requests-Ends,
        )
        depth 9
