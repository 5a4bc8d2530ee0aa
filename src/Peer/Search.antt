-- ===== src/Peer/Search.antt =====
-- How a manager comes to new peers, pydevp2p/devp2p/peermanager.py: `connect` and a round of
-- `_discovery_loop`.
use structured_p2p_overlay_n.Prelude.{
  Option, ℕ, ◌<◌, ◌≡◌, Bool, true, false, none, some, List, [], ◌∷◌, ◌++◌, length, get_elem?, ltb,
}
use structured_p2p_overlay_n.Prelude.Bytes.{Bytes, bytes_eq}
use structured_p2p_overlay_n.Prelude.Exec.{pure, modify, ◌>>◌}
use structured_p2p_overlay_n.Peer.Protocol.{Protocol}
use structured_p2p_overlay_n.Peer.State.{
  Peer, Manager, Act, Report, connection_timeout, connection_error, add_error, is_key,
  remote_pubkey,
}
use structured_p2p_overlay_n.Peer.Handlers.{start_peer}

-- what comes of `create_connection`
pub data Outcome : Type 0 where
  created timed_out failed : Outcome

-- a node: its public key and its address
pub record Contact : Type 0 where
  pub pubkey : Bytes
  pub address : ℕ

unfoldable pub note_failure : ℕ → Report → Act (Unit {0})
note_failure address report =
    modify (λ (m : Manager). record m { errors = add_error address report [] m.errors })

-- `connect` behind `create_connection`, which blocks: other calls run before it comes back, and none
-- after that. Before it `connect` reads nothing. The protocol object is that of a new peer.
unfoldable pub connect : Protocol → Contact → Outcome → Act Bool
unfolding start_peer note_failure
connect p2p c created = start_peer c.address (some c.pubkey) p2p >> pure true
connect p2p c timed_out = note_failure c.address connection_timeout >> pure false
connect p2p c failed = note_failure c.address connection_error >> pure false

-- `num_peers < min_peers`, before the search and the sleep. Every peer in the list is one that has
-- not stopped.
unfoldable pub is_missing_peers : ℕ → Manager → Bool
is_missing_peers min_peers m = ltb (length m.peers) min_peers

-- `pubkey in [p.remote_pubkey for p in self.peers]`
unfoldable pub is_connected : Bytes → List (ℕ × Peer) → Bool
unfolding is_key remote_pubkey
is_connected key [] = false
is_connected key (e ∷ l) = elim (is_key (remote_pubkey e.1) key) [
  | true ↦ true
  | false ↦ is_connected key l
]

-- behind the sleep: the node to call, with the nodes found, the random choice and our own key
unfoldable pub choose_node : Bytes → List Contact → ℕ → Manager → Option Contact
unfolding is_connected
choose_node local_pubkey neighbours choice m = elim (get_elem? neighbours choice) [
  | none ↦ none
  | some node ↦ elim (is_connected node.pubkey m.peers) [
    | true ↦ none
    | false ↦ elim (bytes_eq node.pubkey local_pubkey) [ true ↦ none | false ↦ some node ]
  ]
]

-- A round of `_discovery_loop`: it sees the manager at its start, when it wakes, and when the
-- connection comes back, and other calls run in between. The last two arguments say what they make
-- of the manager.
unfoldable pub discovery_round :
    ℕ
    → Protocol
    → Bytes
    → List Contact
    → ℕ
    → Outcome
    → (Manager → Manager)
    → (Manager → Manager)
    → Act (Unit {0})
unfolding is_missing_peers choose_node connect pure
discovery_round min_peers p2p local_pubkey neighbours choice outcome asleep connecting m =
    elim (is_missing_peers min_peers m) [
      | false ↦ pure tt m
      | true ↦ elim (choose_node local_pubkey neighbours choice (asleep m)) [
        | none ↦ pure tt (asleep m)
        | some node ↦ (connect p2p node outcome >> pure tt) (connecting (asleep m))
      ]
    ]

-- A peer was called: there were too few at the start; the node called is one of those found, not
-- ourselves, and no peer had its key at the time of the choice; the peer is new in the list.
pub record Called (min_peers : ℕ) (local_pubkey : Bytes) (neighbours : List Contact)
    (start awake connected : Manager) (peers : List (ℕ × Peer)) : Type 0 where
  pub node : Contact
  pub choice : ℕ
  pub peer : Peer
  pub few : length start.peers < min_peers
  pub found : get_elem? neighbours choice ≡ some node
  pub other : bytes_eq node.pubkey local_pubkey ≡ false
  pub fresh : is_connected node.pubkey awake.peers ≡ false
  pub called : peer.mux_pubkey ≡ some node.pubkey
  pub appended : peers ≡ connected.peers ++ (connected.next_peer, peer) ∷ []

module _ (min_peers : ℕ) (p2p : Protocol) (local_pubkey : Bytes) (neighbours : List Contact)
    (choice : ℕ) (outcome : Outcome) (asleep connecting : Manager → Manager) (m : Manager) where
  abbrev after : List (ℕ × Peer)
  after =
      (discovery_round min_peers p2p local_pubkey neighbours choice outcome asleep connecting
        m).0.peers
