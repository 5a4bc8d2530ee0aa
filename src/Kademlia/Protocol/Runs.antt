-- ===== src/Kademlia/Protocol/Runs.antt =====
-- The protocol as a system: any sequence of calls from its transport and its owner.
use structured_p2p_overlay_n.Kademlia.Table.Addresses.{
  update_address, table_address-IsValid, update_address-owner, contains-update_address,
}
use structured_p2p_overlay_n.Prelude.Bytes.{Bytes}
use structured_p2p_overlay_n.Kademlia.Node.{Node}
use structured_p2p_overlay_n.Prelude.{length, arith, Option, ℕ, List, [], ◌∷◌, suc, refl, ◌∙◌}
use structured_p2p_overlay_n.Prelude.Exec.{
  modify, Keeps-modify, gets, lift, Keeps-gets, Keeps-lift, Keeps-pure, Keeps, Keeps-bind,
}
use structured_p2p_overlay_n.Kademlia.Protocol
use structured_p2p_overlay_n.Kademlia.Table
use structured_p2p_overlay_n.Kademlia.Table.{table_contains}
use structured_p2p_overlay_n.Kademlia.Node.{contains}
use structured_p2p_overlay_n.Kademlia.Bucket.{new_bucket}
use structured_p2p_overlay_n.Kademlia.Protocol.{
  length, Bytes, Option, run_update, ℕ, List, forward, Node, unknown, Kademlia, Env, Act,
  new_kademlia,
}
use structured_p2p_overlay_n.Kademlia.Protocol.Invariant.{
  mkpingid-IsValid, update-IsValid, add_node-IsValid, send-IsValid, ping_node-IsValid, find-IsValid,
  IsValid, rules,
}

-- The calls that reach a `KademliaProtocol` from outside.
pub data Call : Type 0 where
  ping_in : Node → Bytes → Call
  pong_in : Node → Bytes → Call
  find_node_in : Node → ℕ → Call
  neighbours_in : Node → List Node → Call
  find_call : ℕ → Option Node → Call
  bootstrap_call : List Node → Call

unfoldable pub perform : Env → Call → Act (Unit {0})
perform env (ping_in remote echo) = Protocol.recv_ping env remote echo
perform env (pong_in remote echoed) = Protocol.recv_pong env remote echoed
perform env (find_node_in remote target) = Protocol.recv_find_node env remote target
perform env (neighbours_in remote ns) = Protocol.recv_neighbours env remote ns
perform env (find_call target via) = Protocol.find env target via
perform env (bootstrap_call ns) = Protocol.bootstrap env ns

-- A run: each call may come at any time and may raise, after which the object is used further.
pub data Reach (s : Kademlia) : Kademlia → Type 0 where
  here : Reach s s
  next : {t : Kademlia} (env : Env) (c : Call) → Reach s t → Reach s (perform env c t).0

module _ (env : Env) where
  run_update-IsValid : (n : Node) (o : Option Bytes) → Keeps IsValid (run_update env n o)
  unfolding run_update
  run_update-IsValid n o = record {
    at = λ s v. (update-IsValid env (suc (length s.expected_pongs)) n o).at s v;
  }

  recv_ping-IsValid : (n : Node) (echo : Bytes) → Keeps IsValid (Protocol.recv_ping env n echo)
  unfolding Protocol.recv_ping
  recv_ping-IsValid n echo = search (rules, run_update-IsValid, send-IsValid) depth 9

  update_address-IsValid :
      (n : Node)
      → Keeps IsValid (modify (λ (s : Kademlia). record s { routing = update_address n s.routing }))
  update_address-IsValid n = Keeps-modify _ (λ s v. record {
    table = table_address-IsValid n s.routing v.table;
    owner = update_address-owner n s.routing ∙ v.owner;
    no_self = contains-update_address n s.this_node s.routing ∙ v.no_self;
  })

  recv_pong-IsValid : (n : Node) (echo : Bytes) → Keeps IsValid (Protocol.recv_pong env n echo)
  unfolding Protocol.recv_pong
  recv_pong-IsValid n echo =
      search (rules, run_update-IsValid, mkpingid-IsValid, update_address-IsValid) depth 9

  recv_find_node-IsValid :
      (n : Node) (target : ℕ) → Keeps IsValid (Protocol.recv_find_node env n target)
  unfolding Protocol.recv_find_node
  recv_find_node-IsValid n target = search (rules, run_update-IsValid, send-IsValid) depth 9

  unknown-IsValid : (ns : List Node) → Keeps IsValid (unknown env ns)
  unfolding unknown
  unknown-IsValid [] = search rules
  unknown-IsValid (n ∷ ns) = Keeps-bind (gets (λ (s : Kademlia). s.routing)) _ (Keeps-gets _) (λ t.
      Keeps-bind (lift (table_contains n t)) _ (Keeps-lift _)
        (λ known. Keeps-bind (unknown env ns) _ (unknown-IsValid ns) (λ rest. Keeps-pure _)))

  forward-IsValid : (ns : List Node) (r : ℕ × ℕ) → Keeps IsValid (forward env ns r)
  unfolding forward
  forward-IsValid ns (target, timeout) = search (rules, send-IsValid) depth 12

  recv_neighbours-IsValid :
      (n : Node) (ns : List Node) → Keeps IsValid (Protocol.recv_neighbours env n ns)
  unfolding Protocol.recv_neighbours
  recv_neighbours-IsValid n ns =
      search (rules, unknown-IsValid, forward-IsValid, ping_node-IsValid) depth 12

  bootstrap-IsValid : (ns : List Node) → Keeps IsValid (Protocol.bootstrap env ns)
  unfolding Protocol.bootstrap
  bootstrap-IsValid ns = search (rules, add_node-IsValid, find-IsValid) depth 12

  perform-IsValid : (c : Call) → Keeps IsValid (perform env c)
  unfolding perform
  perform-IsValid (ping_in n e) = recv_ping-IsValid n e
  perform-IsValid (pong_in n e) = recv_pong-IsValid n e
  perform-IsValid (find_node_in n t) = recv_find_node-IsValid n t
  perform-IsValid (neighbours_in n ns) = recv_neighbours-IsValid n ns
  perform-IsValid (find_call t via) = find-IsValid env t via
  perform-IsValid (bootstrap_call ns) = bootstrap-IsValid ns

new_kademlia-IsValid : (now : ℕ) (n : Node) → IsValid (new_kademlia now n)
unfolding new_kademlia Table.nodes_of contains Table.new_table new_bucket
new_kademlia-IsValid now n = record {
  table = record {
    tiles = (refl, refl);
    buckets =
        (record { ordered = omega arith; fits = omega arith; distinct = tt; ranged = tt }, tt);
  };
  owner = refl;
  no_self = refl;
}

-- In every state that a protocol object can come to, from its constructor and by any calls at any
-- times, raising or not, the buckets of the routing table cut the ids in consecutive ranges, each
-- bucket has at most `k_bucket_size` nodes, no public key twice and only ids of its range, and the
-- local node is in none.
pub Reach-IsValid : (now : ℕ) (n : Node) {s : Kademlia} → Reach (new_kademlia now n) s → IsValid s
Reach-IsValid now n here = new_kademlia-IsValid now n
Reach-IsValid now n (next env c r) = (perform-IsValid env c).at _ (Reach-IsValid now n r)
