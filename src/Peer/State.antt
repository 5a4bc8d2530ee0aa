-- ===== src/Peer/State.antt =====
-- The peers of a manager: classes Peer, PeerManager and PeerErrors of pydevp2p/devp2p/peer.py and
-- pydevp2p/devp2p/peermanager.py, with the p2p commands of pydevp2p/devp2p/p2p_protocol.py that they
-- send. A peer is a number, its identity, and stands in the list of the manager until it is stopped.
use structured_p2p_overlay_n.Prelude.{
  ℕ, Bool, true, false, not, ◌&&◌, Option, none, some, List, [], ◌∷◌, ◌++◌, length, ltb, ◌==◌,
}
use structured_p2p_overlay_n.Prelude.Bytes.{Bytes, bytes_eq}
use structured_p2p_overlay_n.Prelude.Dict.{dict_get, dict_set, dict_del}
use structured_p2p_overlay_n.Prelude.Exec.{Exec, pure, gets, modify, ◌>>=◌, ◌>>◌}
use structured_p2p_overlay_n.Peer.Protocol.{Protocol}

-- `disconnect.reason`
pub data Reason : Type 0 where
  disconnect_requested tcp_sub_system_error bad_protocol useless_peer too_many_peers : Reason
  already_connected incompatible_p2p_version null_node_identity_received client_quitting : Reason
  unexpected_identity connected_to_self timeout subprotocol_error other : Reason

unfoldable pub reason_id : Reason → ℕ
reason_id disconnect_requested = 0
reason_id tcp_sub_system_error = 1
reason_id bad_protocol = 2
reason_id useless_peer = 3
reason_id too_many_peers = 4
reason_id already_connected = 5
reason_id incompatible_p2p_version = 6
reason_id null_node_identity_received = 7
reason_id client_quitting = 8
reason_id unexpected_identity = 9
reason_id connected_to_self = 10
reason_id timeout = 11
reason_id subprotocol_error = 12
reason_id other = 16

-- the p2p commands that a peer sends behind the handshake
pub data P2pCommand : Type 0 where
  disconnect : Reason → P2pCommand
  ping pong : P2pCommand

-- what `report_error` is called with
pub data Report : Type 0 where
  sending_disconnect : Reason → Report
  disconnected : ℕ → Report
  wrong_version not_responding no_hello connection_timeout connection_error : Report

-- what a hello says
pub record Hello : Type 0 where
  pub version : ℕ
  pub client_version : Bytes
  pub capabilities : List (Bytes × ℕ)
  pub pubkey : Bytes

pub record Service : Type 0 where
  pub name : Bytes
  pub is_manager : Bool
  pub wire_protocol : Protocol

-- `mux_pubkey` and `session_pubkey` are those that `remote_pubkey` of the multiplexed session chooses
-- from.
pub record Peer : Type 0 where
  pub address : ℕ
  pub hello_received : Bool
  pub offset_based_dispatch : Bool
  pub remote_pubkey_available : Bool
  pub mux_pubkey : Option Bytes
  pub session_pubkey : Option Bytes
  pub remote_client_version : Bytes
  pub remote_capabilities : Option (List (Bytes × ℕ))
  pub protocols : List Protocol
  pub sent : List P2pCommand

-- class PeerErrors, by address
pub record PeerErrors : Type 0 where
  pub errors : List (ℕ × List Report)
  pub client_versions : List (ℕ × Bytes)

pub record Manager : Type 0 where
  pub node_id : Bytes
  pub max_peers : ℕ
  pub services : List Service
  pub next_peer : ℕ
  pub peers : List (ℕ × Peer)
  pub errors : PeerErrors

abbrev pub compatible_p2p_version : ℕ
compatible_p2p_version = 5

-- `a or b` for keys or `None`
unfoldable pub or_key : Option Bytes → Option Bytes → Option Bytes
or_key none k = k
or_key (some []) k = k
or_key (some (x ∷ xs)) k = some (x ∷ xs)

-- `self._remote_pubkey or self.rlpx_session.remote_pubkey`
unfoldable pub remote_pubkey : Peer → Option Bytes
unfolding or_key
remote_pubkey p = or_key p.mux_pubkey p.session_pubkey

-- `a == b` for a key or `None` and a key
unfoldable pub is_key : Option Bytes → Bytes → Bool
is_key none b = false
is_key (some a) b = bytes_eq a b

-- `PeerErrors.add`
unfoldable pub add_error : ℕ → Report → Bytes → PeerErrors → PeerErrors
add_error address report client_version e = record {
  errors =
      dict_set address
        (elim (dict_get address e.errors) [ none ↦ report ∷ [] | some old ↦ old ++ report ∷ [] ])
        e.errors;
  client_versions = elim client_version [
    | [] ↦ e.client_versions
    | x ∷ xs ↦ dict_set address (x ∷ xs) e.client_versions
  ];
}

abbrev pub Act : Type 0 → Type 0
Act A = Exec Manager A

-- Of a peer that was stopped nothing is left to change.
unfoldable pub change : ℕ → (Peer → Peer) → Act (Unit {0})
change i f = modify (λ (m : Manager). record m {
  peers = elim (dict_get i m.peers) [ none ↦ m.peers | some p ↦ dict_set i (f p) m.peers ];
})

unfoldable pub with_peer : ℕ → (Peer → Act (Unit {0})) → Act (Unit {0})
unfolding pure
with_peer i f m = elim (dict_get i m.peers) [ none ↦ pure tt m | some p ↦ f p m ]

unfoldable pub report_error : ℕ → Report → Act (Unit {0})
unfolding with_peer modify
report_error i report = with_peer i (λ p. modify (λ (m : Manager). record m {
  errors = add_error p.address report p.remote_client_version m.errors;
}))

-- `stop`: the peer leaves the list of the manager.
unfoldable pub stop_peer : ℕ → Act (Unit {0})
stop_peer i = modify (λ (m : Manager). record m { peers = dict_del i m.peers })

unfoldable pub send_command : ℕ → P2pCommand → Act (Unit {0})
unfolding change
send_command i message = change i (λ p. record p { sent = p.sent ++ message ∷ [] })

-- `send_disconnect`: the peer is stopped half a second later, by another call.
unfoldable pub send_disconnect : ℕ → Reason → Act (Unit {0})
unfolding ◌>>=◌ report_error send_command
send_disconnect i reason = do
  report_error i (sending_disconnect reason)
  send_command i (disconnect reason)

-- the key of another peer in the list
unfoldable pub has_key : ℕ → Bytes → List (ℕ × Peer) → Bool
unfolding is_key remote_pubkey
has_key i key [] = false
has_key i key ((j, p) ∷ l) = elim (not (j == i) && is_key (remote_pubkey p) key) [
  | true ↦ true
  | false ↦ has_key i key l
]

-- `PeerManager.on_hello_received`
unfoldable pub on_hello_received : ℕ → Bytes → Act Bool
unfolding ◌>>=◌ send_disconnect has_key
on_hello_received i key = do
  m ← gets (λ (m : Manager). m)
  elim (ltb m.max_peers (length m.peers)) [
    | true ↦ (send_disconnect i too_many_peers >> pure false)
    | false ↦ elim (has_key i key m.peers) [
      | true ↦ (send_disconnect i useless_peer >> pure false)
      | false ↦ pure true
    ]
  ]
