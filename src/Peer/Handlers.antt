-- ===== src/Peer/Handlers.antt =====
-- What a peer does with the p2p commands that it receives, and how peers come and go:
-- pydevp2p/devp2p/peer.py, p2p_protocol.py and peermanager.py.
use structured_p2p_overlay_n.Prelude.{
  ℕ, ◌+◌, Bool, true, false, not, Option, none, some, List, [], ◌∷◌, ◌++◌, length, leb, ◌==◌,
  if◌then◌else◌, Fault, Result, ok, err, assertion_error, unknown_command,
}
use structured_p2p_overlay_n.Prelude.Bytes.{Bytes, bytes_eq}
use structured_p2p_overlay_n.Prelude.Exec.{
  lift, pure, gets, modify, assert, when, for_each, ◌>>=◌, ◌>>◌,
}
use structured_p2p_overlay_n.Peer.Protocol.{Protocol, knows}
use structured_p2p_overlay_n.Peer.Capabilities.{group_services, versions_of}
use structured_p2p_overlay_n.Peer.State.{
  connected_to_self, incompatible_p2p_version, pong, disconnected, wrong_version, no_hello,
  not_responding, Hello, Service, Manager, Act, compatible_p2p_version, remote_pubkey, is_key,
  change, with_peer, report_error, stop_peer, send_command, send_disconnect, on_hello_received,
}

-- `a <= b` of names
unfoldable pub name_le : Bytes → Bytes → Bool
name_le [] b = true
name_le (x ∷ a) [] = false
name_le (x ∷ a) (y ∷ b) = if x == y then name_le a b else leb x y

-- `sorted(services, key=attrgetter('name'))`
unfoldable pub insert_service : Service → List Service → List Service
unfolding name_le
insert_service s [] = s ∷ []
insert_service s (t ∷ ts) = elim (name_le s.name t.name) [
  | true ↦ s ∷ t ∷ ts
  | false ↦ t ∷ insert_service s ts
]

unfoldable pub sorted_services : List Service → List Service
unfolding insert_service
sorted_services [] = []
sorted_services (s ∷ ss) = insert_service s (sorted_services ss)

-- `protocol_class in self.protocols`, and a protocol id that the multiplexer has a queue for
unfoldable pub has_class : ℕ → List Protocol → Bool
has_class c [] = false
has_class c (p ∷ ps) = elim (p.class_of == c) [ true ↦ true | false ↦ has_class c ps ]

unfoldable pub has_id : ℕ → List Protocol → Bool
has_id i [] = false
has_id i (p ∷ ps) = elim (p.protocol_id == i) [ true ↦ true | false ↦ has_id i ps ]

-- `connect_service`: the protocol is registered before the multiplexer may refuse its id.
unfoldable pub connect_service : ℕ → Service → Act (Unit {0})
connect_service i service = with_peer i (λ p. do
  let protocol = service.wire_protocol
  assert (not (has_class protocol.class_of p.protocols)) assertion_error
  change i (λ p. record p { protocols = p.protocols ++ protocol ∷ [] })
  assert (not (has_id protocol.protocol_id p.protocols)) assertion_error)

-- one round of the loop of `receive_hello`, with the versions that the other end has of the protocol
unfoldable pub offer_versions : ℕ → Service → Option (List ℕ) → Act (Unit {0})
offer_versions i service none = pure tt
offer_versions i service (some vs) =
    if knows service.wire_protocol.version vs
    then when (not service.is_manager) (connect_service i service)
    else report_error i wrong_version

unfoldable pub offer_service : ℕ → List (Bytes × List ℕ) → Service → Act (Unit {0})
offer_service i remote service =
    offer_versions i service (versions_of service.wire_protocol.name remote)

-- the version of the other end: an old one is spoken to with offsets, a new one is sent away
unfoldable pub note_version : ℕ → ℕ → Act (Unit {0})
note_version i version =
    if leb version compatible_p2p_version
    then change i (λ p. record p { offset_based_dispatch = true })
    else send_disconnect i incompatible_p2p_version

-- what `receive_hello` takes from an accepted hello
unfoldable pub accept_hello : ℕ → Hello → Act (Unit {0})
accept_hello i hello = change i (λ p. record p {
  remote_client_version = hello.client_version;
  remote_pubkey_available = not (bytes_eq hello.pubkey []);
  mux_pubkey = some hello.pubkey;
  remote_capabilities = some hello.capabilities;
})

unfoldable pub register : ℕ → Hello → Act (Unit {0})
register i hello = do
  accept_hello i hello
  remote ← lift (group_services [] hello.capabilities)
  services ← gets (λ (m : Manager). m.services)
  for_each (sorted_services services) (offer_service i remote)

-- `Peer.receive_hello`
unfoldable pub receive_hello : ℕ → Hello → Act (Unit {0})
receive_hello i hello = with_peer i (λ p. do
  assert (length hello.pubkey == 64) assertion_error
  when p.remote_pubkey_available (assert (is_key (remote_pubkey p) hello.pubkey) assertion_error)
  change i (λ p. record p { hello_received = true })
  note_version i hello.version
  agree ← on_hello_received i hello.pubkey
  when agree (register i hello))

-- `receive` of the command hello
unfoldable pub hello_in : ℕ → Hello → Act (Unit {0})
hello_in i hello = do
  m ← gets (λ (m : Manager). m)
  if bytes_eq hello.pubkey m.node_id
      then send_disconnect i connected_to_self
      else receive_hello i hello

-- `receive` of the commands disconnect and ping
unfoldable pub disconnect_in : ℕ → ℕ → Act (Unit {0})
disconnect_in i reason = do report_error i (disconnected reason); stop_peer i

unfoldable pub ping_in : ℕ → Act (Unit {0})
ping_in i = send_command i pong

-- `except UnknownCommandError` and `except Exception` of `_handle_packet`: an unknown command is
-- passed over, any other exception stops the peer.
unfoldable pub is_unknown : Fault → Bool
is_unknown unknown_command = true
is_unknown e = false

unfoldable pub recover : ℕ → Result (Unit {0}) → Act (Unit {0})
recover i (ok t) = pure tt
recover i (err e) = if is_unknown e then pure tt else stop_peer i

unfoldable pub handle : ℕ → Act (Unit {0}) → Act (Unit {0})
handle i act m = recover i (act m).1 (act m).0

-- `check_if_dumb_remote`
unfoldable pub check_if_dumb_remote : ℕ → Act (Unit {0})
check_if_dumb_remote i =
    with_peer i (λ p. when (not p.hello_received) (report_error i no_hello >> stop_peer i))

-- the round of ConnectionMonitor that gives up
unfoldable pub unresponsive : ℕ → Act (Unit {0})
unresponsive i = do report_error i not_responding; stop_peer i

-- `_start_peer`, with the key of the node that was called, or none for a caller
unfoldable pub start_peer : ℕ → Option Bytes → Protocol → Act (Unit {0})
start_peer address key p2p = modify (λ (m : Manager). record m {
  next_peer = m.next_peer + 1;
  peers =
      m.peers
      ++ (
        m.next_peer,
        record {
          address = address;
          hello_received = false;
          offset_based_dispatch = false;
          remote_pubkey_available = elim key [ none ↦ false | some b ↦ not (bytes_eq b []) ];
          mux_pubkey = key;
          session_pubkey = none;
          remote_client_version = [];
          remote_capabilities = none;
          protocols = p2p ∷ [];
          sent = [];
        },
      )
        ∷ [];
})

-- the key that the handshake of the session brings to light
unfoldable pub learn_key : ℕ → Bytes → Act (Unit {0})
learn_key i key = change i (λ p. record p { session_pubkey = some key })
