-- ===== src/Kademlia/Protocol/Invariant.antt =====
-- The invariant of `KademliaProtocol`, for every handler, whether it returns or raises.
use structured_p2p_overlay_n.Kademlia.Bucket.{cache_append}
use structured_p2p_overlay_n.Kademlia.Table.Shape.{put_bucket-IsValid, found-IsValid}
use structured_p2p_overlay_n.Kademlia.Table.Lookup.{place_of}
use structured_p2p_overlay_n.Prelude.{[], ◌∷◌, zero, suc, true, false, ok, err, none, some}
use structured_p2p_overlay_n.Prelude.{zero, out_of_fuel, suc, refl}
use structured_p2p_overlay_n.Prelude.Exec.{Keeps-gets, Keeps-raise, Keeps-bind}
use structured_p2p_overlay_n.Kademlia.Table.{put_bucket, bucket_by_node, Place, nodes_of}
use structured_p2p_overlay_n.Kademlia.Node.{contains}
use structured_p2p_overlay_n.Kademlia.Table.Keeps.{table_add-IsValid}
use structured_p2p_overlay_n.Prelude.{
  ok, err, Result, sym, true, some, subst, false, ◌∙◌, none, ◌≡◌, if◌then◌else◌,
}
use structured_p2p_overlay_n.Kademlia.Table.Removal.{
  put_bucket-no, add_node-no_self, remove_node-no, remove_node-this_node, add_node-this_node,
  table_remove-IsValid,
}
use structured_p2p_overlay_n.Prelude.Exec.{
  continue, Keeps-pure, Exec, pure, raise, lift, gets, modify, when, assert, for_each, ◌>>=◌, ◌>>◌,
  Keeps, keeps_rules,
}
use structured_p2p_overlay_n.Kademlia.Table
use structured_p2p_overlay_n.Kademlia.Table.Lookup
use structured_p2p_overlay_n.Kademlia.Protocol.{
  cache_append, put_bucket, expire_and_finish, take_pong, replace_or_go_on, ping_candidate,
  out_of_fuel, suc, update, add_or_ping, prune_requests, accept_pong, expire, ping_replacements,
  refresh_idle, finish_update, append_cache, bucket_by_node, Place, note_request, note_deleted,
  Result, find, query_neighbours, cache_replacement, false, Pending, Node, List, ℕ, Bytes,
  set_pending, on_routing, Bool, Option, mkpingid, Kademlia, Env, Act, send, ping_node, Message,
}

-- The routing table is well-formed, is the local node's, and does not hold the local node.
pub record IsValid (s : Kademlia) : Type 0 where
  pub table : Lookup.IsValid s.routing
  pub owner : s.routing.this_node ≡ s.this_node
  pub no_self : contains s.this_node (nodes_of s.routing.buckets) ≡ false

module _ {A : Type 0} where
  pub Keeps-if :
      (b : Bool) (m n : Act A)
      → Keeps IsValid m
      → Keeps IsValid n
      → Keeps IsValid (if b then m else n)
  Keeps-if true m n h k = h
  Keeps-if false m n h k = k

  pub Keeps-option :
      {B : Type 0} (o : Option B) (m : Act A) (f : B → Act A)
      → Keeps IsValid m
      → ((b : B) → Keeps IsValid (f b))
      → Keeps IsValid (elim o [ none ↦ m | some b ↦ f b ])
  Keeps-option none m f h k = h
  Keeps-option (some b) m f h k = k b

pub ruleset rules = (keeps_rules, Keeps-if, Keeps-option)

pub send-IsValid : (m : Message) → Keeps IsValid (send m)
unfolding send modify
send-IsValid m = record {
  at = λ s v. record { table = v.table; owner = v.owner; no_self = v.no_self };
}

pub set_pending-IsValid :
    (f : List (Bytes × Pending) → List (Bytes × Pending)) → Keeps IsValid (set_pending f)
unfolding set_pending modify
set_pending-IsValid f = record {
  at = λ s v. record { table = v.table; owner = v.owner; no_self = v.no_self };
}

pub mkpingid-IsValid : (echoed : Bytes) (n : Node) → Keeps IsValid (mkpingid echoed n)
unfolding mkpingid
mkpingid-IsValid echoed n = search rules

pub add_node-IsValid : (f now : ℕ) (n : Node) → Keeps IsValid (on_routing (Table.add_node f now n))
unfolding on_routing
add_node-IsValid f now n = record {
  at = λ s v. record {
    table = table_add-IsValid f now n s.routing v.table;
    owner = add_node-this_node f now n s.routing ∙ v.owner;
    no_self =
        subst
          (λ (n' : Node).
            contains n' (nodes_of (Table.add_node f now n s.routing).0.buckets) ≡ false)
          v.owner
          (add_node-no_self f now n s.routing v.table (
            subst (λ (n' : Node). contains n' (nodes_of s.routing.buckets) ≡ false) (sym v.owner)
              v.no_self));
  };
}

pub remove_node-IsValid : (n : Node) → Keeps IsValid (on_routing (Table.remove_node n))
unfolding on_routing
remove_node-IsValid n = record {
  at = λ s v. record {
    table = table_remove-IsValid n s.routing v.table;
    owner = remove_node-this_node n s.routing ∙ v.owner;
    no_self = remove_node-no s.this_node n s.routing v.table v.no_self;
  };
}

pub note_deleted-IsValid : (pid : Bytes) → Keeps IsValid (note_deleted pid)
unfolding note_deleted modify
note_deleted-IsValid pid = record {
  at = λ s v. record { table = v.table; owner = v.owner; no_self = v.no_self };
}

pub cache_replacement-IsValid : (o : Option Node) → Keeps IsValid (cache_replacement o)
unfolding cache_replacement
cache_replacement-IsValid none = Keeps-pure tt
cache_replacement-IsValid (some r) = record {
  at = λ s v. found s v (bucket_by_node r s.routing) refl;
}
  where
    found :
        (s : Kademlia)
        → IsValid s
        → (p : Result Place) → bucket_by_node r s.routing ≡ p
        → IsValid (continue s p (append_cache r)).0
    found s v (err e) at = v
    found s v (ok p) at =
        let place = place_of r s.routing at in
        let w = found-IsValid s.routing p place.whole v.table in
        unfold append_cache put_bucket in
        record {
          table =
              put_bucket-IsValid s.routing p place.whole v.table (cache_append r p.found) refl refl
                (record {
                  ordered = w.ordered;
                  fits = w.fits;
                  distinct = w.distinct;
                  ranged = w.ranged;
                });
          owner = v.owner;
          no_self =
              put_bucket-no s.this_node s.routing p (cache_append r p.found) place.whole (λ h. h)
                v.no_self;
        }

module _ (env : Env) where
  pub ping_node-IsValid : (n : Node) (o : Option Node) → Keeps IsValid (ping_node env n o)
  unfolding ping_node
  ping_node-IsValid n o =
      search (rules, send-IsValid, mkpingid-IsValid, set_pending-IsValid) depth 12

  pub query_neighbours-IsValid : (target : ℕ) → Keeps IsValid (query_neighbours env target)
  unfolding query_neighbours
  query_neighbours-IsValid target = search (rules, send-IsValid) depth 8

  pub note_request-IsValid : (target : ℕ) → Keeps IsValid (note_request env target)
  unfolding note_request modify
  note_request-IsValid target = record {
    at = λ s v. record { table = v.table; owner = v.owner; no_self = v.no_self };
  }

  pub find-IsValid : (target : ℕ) (via : Option Node) → Keeps IsValid (find env target via)
  unfolding find
  find-IsValid target none = search (rules, note_request-IsValid, query_neighbours-IsValid) depth 8
  find-IsValid target (some n) = search (rules, send-IsValid, note_request-IsValid) depth 8

  take_pong-IsValid : (pid : Bytes) (o : Option Pending) → Keeps IsValid (take_pong env pid o)
  unfolding take_pong
  take_pong-IsValid pid none = Keeps-pure tt
  take_pong-IsValid pid (some e) =
      search (rules, cache_replacement-IsValid, set_pending-IsValid) depth 8

  accept_pong-IsValid : (o : Option Bytes) → Keeps IsValid (accept_pong env o)
  unfolding accept_pong
  accept_pong-IsValid none = Keeps-pure tt
  accept_pong-IsValid (some pid) = search (rules, take_pong-IsValid) depth 8

  ping_candidate-IsValid : (n : Node) (o : Option Node) → Keeps IsValid (ping_candidate env n o)
  unfolding ping_candidate
  ping_candidate-IsValid n none = Keeps-pure tt
  ping_candidate-IsValid n (some c) = ping_node-IsValid c (some n)

  pub add_or_ping-IsValid : (n : Node) → Keeps IsValid (add_or_ping env n)
  unfolding add_or_ping
  add_or_ping-IsValid n = search (rules, add_node-IsValid, ping_candidate-IsValid) depth 8

  ping_replacements-IsValid : Keeps IsValid (ping_replacements env)
  unfolding ping_replacements
  ping_replacements-IsValid = search (rules, ping_node-IsValid) depth 9

  refresh_idle-IsValid : Keeps IsValid (refresh_idle env)
  unfolding refresh_idle
  refresh_idle-IsValid = search (rules, find-IsValid) depth 9

  pub prune_requests-IsValid : Keeps IsValid (prune_requests env)
  unfolding prune_requests modify
  prune_requests-IsValid = record {
    at = λ s v. record { table = v.table; owner = v.owner; no_self = v.no_self };
  }

  pub finish_update-IsValid : (n : Node) (o : Option Bytes) → Keeps IsValid (finish_update env n o)
  unfolding finish_update
  finish_update-IsValid n o =
      search
        (
          rules, accept_pong-IsValid, add_or_ping-IsValid, ping_replacements-IsValid,
          refresh_idle-IsValid, prune_requests-IsValid,
        )
        depth 9

  replace_or_go_on-IsValid :
      (retry : Node → Act (Unit {0})) (n : Node) (rest : Act Bool) (gone : Node) (o : Option Node)
      → ((r : Node) → Keeps IsValid (retry r))
      → Keeps IsValid rest
      → Keeps IsValid (replace_or_go_on env retry n rest gone o)
  unfolding replace_or_go_on
  replace_or_go_on-IsValid retry n rest gone none keep k = search rules
  replace_or_go_on-IsValid retry n rest gone (some r) keep k = search (rules, keep)

  pub expire-IsValid :
      (retry : Node → Act (Unit {0})) (n : Node)
      → ((r : Node) → Keeps IsValid (retry r))
      → (l : List (Bytes × Pending)) → Keeps IsValid (expire env retry n l)
  unfolding expire
  expire-IsValid retry n keep [] = Keeps-pure false
  expire-IsValid retry n keep ((pid, e) ∷ l) =
      let rest = expire-IsValid retry n keep l in
      search
        (
          rules, note_deleted-IsValid, set_pending-IsValid, remove_node-IsValid, keep,
          replace_or_go_on-IsValid,
        )
        depth 12

  pub update-IsValid : (f : ℕ) (n : Node) (o : Option Bytes) → Keeps IsValid (update env f n o)
  unfolding update expire_and_finish
  update-IsValid zero n o = Keeps-raise out_of_fuel
  update-IsValid (suc f) n o =
      let again = expire-IsValid (λ r. update env f r none) n (λ r. update-IsValid f r none) in
      search (rules, again, finish_update-IsValid) depth 12
