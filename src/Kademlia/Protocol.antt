-- ===== src/Kademlia/Protocol.antt =====
-- `KademliaProtocol` of pydevp2p/devp2p/kademlia.py. A method is an action on the object that may
-- raise. What it sends through its `WireInterface` is appended to `outbox`; the clock, the echo that
-- the wire hands back for a ping and the random number generator are those of `Env`.
pub mod Invariant
pub mod Returns
pub mod Fuel
pub mod Runs
use structured_p2p_overlay_n.Prelude.{
  ℕ, zero, suc, ◌+◌, Bool, true, false, not, ◌||◌, Option, none, some, List, [], ◌∷◌, ◌++◌, length,
  take, head?, filter, ltb, leb, ◌==◌, if◌then◌else◌, Result, ok, err, assertion_error, out_of_fuel,
}
use structured_p2p_overlay_n.Prelude.Bytes.{Bytes, bytes_eq}
use structured_p2p_overlay_n.Prelude.Sort.{sorted}
use structured_p2p_overlay_n.Prelude.Exec.{
  Exec, pure, raise, lift, gets, modify, when, assert, for_each, ◌>>=◌, ◌>>◌,
}
use structured_p2p_overlay_n.Kademlia.Table.Addresses.{update_address}
use structured_p2p_overlay_n.Kademlia.Node.{
  Node, k_bucket_size, k_request_timeout, k_find_concurrency, k_id_size, id_distance, node_eq,
  node_ne,
}
use structured_p2p_overlay_n.Kademlia.Bucket.{KBucket, cache_append}
use structured_p2p_overlay_n.Kademlia.Table
use structured_p2p_overlay_n.Kademlia.Table.{
  RoutingTable, Place, new_table, bucket_by_node, put_bucket, table_contains, not_full_buckets,
  idle_buckets,
}

-- the calls of `WireInterface`
pub data Message : Type 0 where
  ping : Node → Message
  pong : Node → Bytes → Message
  find_node : Node → ℕ → Message
  neighbours : Node → List Node → Message

-- an entry of `_expected_pongs`
pub record Pending : Type 0 where
  pub timeout : ℕ
  pub node : Node
  pub replacement : Option Node

pub record Kademlia : Type 0 where
  pub this_node : Node
  pub routing : RoutingTable
  pub expected_pongs : List (Bytes × Pending)
  pub find_requests : List (ℕ × ℕ)
  pub deleted_pingids : List Bytes
  pub outbox : List Message

-- `echo i n` is what the wire returns for a ping to `n` sent after `i` messages, and `randint i`
-- stands for `random.randint` then.
pub record Env : Type 0 where
  pub now : ℕ
  pub echo : ℕ → Node → Bytes
  pub randint : ℕ → ℕ → ℕ → ℕ

abbrev pub Act : Type 0 → Type 0
Act = Exec Kademlia

unfoldable pub new_kademlia : ℕ → Node → Kademlia
unfolding new_table
new_kademlia now n = record {
  this_node = n;
  routing = new_table now n;
  expected_pongs = [];
  find_requests = [];
  deleted_pingids = [];
  outbox = [];
}

-- Python's `dict`, in the order of insertion: `d.get(k)`, `d[k] = v` and `del d[k]`
module _ {V : Type 0} where
  unfoldable pub lookup : Bytes → List (Bytes × V) → Option V
  lookup k [] = none
  lookup k ((j, v) ∷ d) = if bytes_eq j k then some v else lookup k d

  unfoldable pub put : Bytes → V → List (Bytes × V) → List (Bytes × V)
  put k v [] = (k, v) ∷ []
  put k v ((j, w) ∷ d) = if bytes_eq j k then (j, v) ∷ d else (j, w) ∷ put k v d

  unfoldable pub delete : Bytes → List (Bytes × V) → List (Bytes × V)
  delete k [] = []
  delete k ((j, w) ∷ d) = if bytes_eq j k then d else (j, w) ∷ delete k d

unfoldable pub put_request : ℕ → ℕ → List (ℕ × ℕ) → List (ℕ × ℕ)
put_request k v [] = (k, v) ∷ []
put_request k v ((j, w) ∷ d) = if j == k then (j, v) ∷ d else (j, w) ∷ put_request k v d

unfoldable pub send : Message → Act (Unit {0})
unfolding modify
send m = modify (λ (s : Kademlia). record s { outbox = s.outbox ++ m ∷ [] })

-- a method of the routing table
unfoldable pub on_routing : {A : Type 0} → (RoutingTable → RoutingTable × Result A) → Act A
on_routing f s = let (r, a) = f s.routing in (record s { routing = r }, a)

unfoldable pub set_pending : (List (Bytes × Pending) → List (Bytes × Pending)) → Act (Unit {0})
unfolding modify
set_pending f = modify (λ (s : Kademlia). record s { expected_pongs = f s.expected_pongs })

unfoldable pub note_deleted : Bytes → Act (Unit {0})
unfolding modify
note_deleted pid =
    modify (λ (s : Kademlia). record s { deleted_pingids = s.deleted_pingids ++ pid ∷ [] })

-- `bucket.replacement_cache.append(node)`
unfoldable pub append_cache : Node → Place → Act (Unit {0})
unfolding cache_append put_bucket modify
append_cache r p =
    modify
      (λ (s : Kademlia). record s { routing = put_bucket p (cache_append r p.found) s.routing })

unfoldable pub cache_replacement : Option Node → Act (Unit {0})
unfolding ◌>>=◌ append_cache
cache_replacement none = pure tt
cache_replacement (some r) = do
  t ← gets (λ (s : Kademlia). s.routing)
  p ← lift (bucket_by_node r t)
  append_cache r p

unfoldable pub mkpingid : Bytes → Node → Act Bytes
unfolding assert ◌>>=◌
mkpingid echoed n = do assert (ltb 0 (length n.pubkey)) assertion_error; pure (echoed ++ n.pubkey)

module _ (env : Env) where
  unfoldable pub ping_node : Node → Option Node → Act (Unit {0})
  unfolding assert send mkpingid set_pending ◌>>=◌
  ping_node n replacement = do
    self ← gets (λ (s : Kademlia). s.this_node)
    assert (node_ne n self) assertion_error
    echoed ← gets (λ (s : Kademlia). env.echo (length s.outbox) n)
    send (ping n)
    pingid ← mkpingid echoed n
    assert (ltb 0 (length pingid)) assertion_error
    set_pending (
        put pingid
          (record { timeout = env.now + k_request_timeout; node = n; replacement = replacement }))

  unfoldable pub query_neighbours : ℕ → Act (Unit {0})
  unfolding send for_each ◌>>=◌
  query_neighbours target = do
    near ← gets (λ (s : Kademlia). Table.neighbours s.routing target k_bucket_size)
    for_each (take k_find_concurrency near) (λ n. send (find_node n target))

  unfoldable pub note_request : ℕ → Act (Unit {0})
  unfolding put_request modify
  note_request target = modify (λ (s : Kademlia). record s {
    find_requests = put_request target (env.now + k_request_timeout) s.find_requests;
  })

  unfoldable pub find : ℕ → Option Node → Act (Unit {0})
  unfolding send query_neighbours note_request ◌>>=◌
  find target via = do
    note_request target
    elim via [ none ↦ query_neighbours target | some n ↦ send (find_node n target) ]

  -- `pingid and (pingid not in self._expected_pongs)`
  unfoldable pub is_surprising : Option Bytes → List (Bytes × Pending) → Bool
  unfolding lookup
  is_surprising none d = false
  is_surprising (some []) d = false
  is_surprising (some (b ∷ bs)) d = elim (lookup (b ∷ bs) d) [ none ↦ true | some _ ↦ false ]

  -- what follows the removal of a node that has timed out
  unfoldable pub replace_or_go_on :
      (Node → Act (Unit {0})) → Node → Act Bool → Node → Option Node → Act Bool
  unfolding ◌>>=◌
  replace_or_go_on retry n rest gone (some r) = do retry r; pure true
  replace_or_go_on retry n rest gone none = if node_eq gone n then pure true else rest

  -- The loop over a copy of `_expected_pongs` that deletes what has timed out. It says whether
  -- `update` returns: after a replacement was added, or if the sender itself has timed out.
  unfoldable pub expire : (Node → Act (Unit {0})) → Node → List (Bytes × Pending) → Act Bool
  unfolding on_routing set_pending delete note_deleted replace_or_go_on ◌>>=◌
  expire retry n [] = pure false
  expire retry n ((pid, e) ∷ l) =
      let rest = expire retry n l in
      if ltb e.timeout env.now
      then (do
        note_deleted pid
        set_pending (delete pid)
        on_routing (Table.remove_node e.node)
        replace_or_go_on retry n rest e.node e.replacement)
      else rest

  -- the entry of an expected pong is taken out, its replacement node kept in reserve
  unfoldable pub take_pong : Bytes → Option Pending → Act (Unit {0})
  unfolding cache_replacement set_pending delete ◌>>=◌
  take_pong pid none = pure tt
  take_pong pid (some e) = do cache_replacement e.replacement; set_pending (delete pid)

  unfoldable pub accept_pong : Option Bytes → Act (Unit {0})
  unfolding take_pong lookup ◌>>=◌
  accept_pong none = pure tt
  accept_pong (some pid) = do
    found ← gets (λ (s : Kademlia). lookup pid s.expected_pongs)
    take_pong pid found

  unfoldable pub ping_candidate : Node → Option Node → Act (Unit {0})
  unfolding ping_node ◌>>=◌
  ping_candidate n none = pure tt
  ping_candidate n (some c) = ping_node c (some n)

  unfoldable pub add_or_ping : Node → Act (Unit {0})
  unfolding on_routing ping_candidate ◌>>=◌
  add_or_ping n = do
    candidate ← on_routing (Table.add_node (suc k_id_size) env.now n)
    ping_candidate n candidate

  -- the pings of the replacement nodes of buckets with room
  unfoldable pub ping_replacements : Act (Unit {0})
  unfolding ping_node for_each not_full_buckets ◌>>=◌
  ping_replacements = do
    buckets ← gets (λ (s : Kademlia). not_full_buckets s.routing)
    for_each buckets (λ b. for_each b.replacement_cache (λ n. ping_node n none))

  unfoldable pub refresh_idle : Act (Unit {0})
  unfolding find for_each idle_buckets ◌>>=◌
  refresh_idle = do
    buckets ← gets (λ (s : Kademlia). idle_buckets env.now s.routing)
    for_each buckets (λ b. do
      rid ← gets (λ (s : Kademlia). env.randint (length s.outbox) b.start b.end)
      find rid none)

  unfoldable pub prune_requests : Act (Unit {0})
  unfolding filter ◌>>=◌
  prune_requests = modify (λ (s : Kademlia). record s {
    find_requests = filter (λ (r : ℕ × ℕ). leb env.now r.1) s.find_requests;
  })

  unfoldable pub finish_update : Node → Option Bytes → Act (Unit {0})
  unfolding accept_pong add_or_ping ping_replacements refresh_idle prune_requests ◌>>=◌
  finish_update n pingid = do
    accept_pong pingid
    add_or_ping n
    ping_replacements
    refresh_idle
    prune_requests

  -- `update` from the check for timed out pings on
  unfoldable pub expire_and_finish :
      (Node → Act (Unit {0})) → Node → Option Bytes → List (Bytes × Pending) → Act (Unit {0})
  unfolding expire finish_update ◌>>=◌
  expire_and_finish retry n pingid expected = do
    stop ← expire retry n expected
    if stop then pure tt else finish_update n pingid

  -- `update`, on fuel: it calls itself with a replacement after it has deleted an expected pong.
  unfoldable pub update : (fuel : ℕ) → Node → Option Bytes → Act (Unit {0})
  unfolding expire_and_finish is_surprising ◌>>=◌
  update zero n pingid = raise out_of_fuel
  update (suc f) n pingid = do
    self ← gets (λ (s : Kademlia). s.this_node)
    expected ← gets (λ (s : Kademlia). s.expected_pongs)
    let quiet = node_eq n self || is_surprising pingid expected
    let run = expire_and_finish (λ r. update f r none) n pingid expected
    if quiet then pure tt else run

  -- `update` with as much fuel as its own recursion can use
  unfoldable pub run_update : Node → Option Bytes → Act (Unit {0})
  unfolding update
  run_update n pingid s = update (suc (length s.expected_pongs)) n pingid s

  unfoldable pub recv_ping : Node → Bytes → Act (Unit {0})
  unfolding run_update send ◌>>=◌
  recv_ping remote echo = do
    self ← gets (λ (s : Kademlia). s.this_node)
    if node_eq remote self then pure tt else (do run_update remote none; send (pong remote echo))

  unfoldable pub recv_pong : Node → Bytes → Act (Unit {0})
  unfolding run_update mkpingid assert modify update_address ◌>>=◌
  recv_pong remote echoed = do
    self ← gets (λ (s : Kademlia). s.this_node)
    assert (node_ne remote self) assertion_error
    pingid ← mkpingid echoed remote
    modify (λ (s : Kademlia). record s { routing = update_address remote s.routing })
    run_update remote (some pingid)

  unfoldable pub recv_find_node : Node → ℕ → Act (Unit {0})
  unfolding run_update send ◌>>=◌
  recv_find_node remote target = do
    run_update remote none
    found ← gets (λ (s : Kademlia). Table.neighbours s.routing target k_bucket_size)
    send (neighbours remote found)

  -- `[n for n in neighbours if n not in self.routing]`
  unfoldable pub unknown : List Node → Act (List Node)
  unfolding ◌>>=◌
  unknown [] = pure []
  unknown (n ∷ ns) = do
    t ← gets (λ (s : Kademlia). s.routing)
    known ← lift (table_contains n t)
    rest ← unknown ns
    pure (if known then rest else n ∷ rest)

  unfoldable pub is_closer : ℕ → Option Node → Node → Bool
  is_closer id none n = true
  is_closer id (some known) n = ltb (id_distance id n) (id_distance id known)

  unfoldable pub is_not : Node → Option Node → Bool
  is_not self none = true
  is_not self (some n) = node_ne n self

  -- one find request: the closest of the new nodes are asked too, if they are closer than any known
  unfoldable pub forward : List Node → ℕ × ℕ → Act (Unit {0})
  unfolding is_closer is_not assert when send for_each ◌>>=◌
  forward ns (target, timeout) =
      let closest = sorted (id_distance target) ns in
      when (ltb env.now timeout) (do
        near ← gets (λ (s : Kademlia). Table.neighbours s.routing target k_bucket_size)
        self ← gets (λ (s : Kademlia). s.this_node)
        assert (is_not self (head? near)) assertion_error
        for_each (take k_find_concurrency closest)
            (λ n. when (is_closer target (head? near) n) (send (find_node n target))))

  unfoldable pub recv_neighbours : Node → List Node → Act (Unit {0})
  unfolding unknown forward ping_node when for_each filter ◌>>=◌
  recv_neighbours remote ns = do
    self ← gets (λ (s : Kademlia). s.this_node)
    fresh ← unknown (filter (λ (n : Node). node_ne n self) ns)
    requests ← gets (λ (s : Kademlia). s.find_requests)
    for_each requests (forward fresh)
    for_each fresh (λ n. when (node_ne n self) (ping_node n none))

  unfoldable pub bootstrap : List Node → Act (Unit {0})
  unfolding on_routing find when for_each ◌>>=◌
  bootstrap ns = do
    self ← gets (λ (s : Kademlia). s.this_node)
    for_each ns (λ n.
        when (node_ne n self)
          (do on_routing (Table.add_node (suc k_id_size) env.now n); find self.id (some n)))
