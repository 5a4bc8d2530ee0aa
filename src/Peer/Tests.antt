-- ===== src/Peer/Tests.antt =====
-- Runs of the theorems on peers and their protocols.
use structured_p2p_overlay_n.Prelude.{
  ℕ, List, ◌≡◌, ◌≢◌, true, false, none, [], ◌∷◌, replicate, get_elem?, ok, of_option, refl, arith,
  unknown_command, ◌>>=◌,
}
use structured_p2p_overlay_n.Prelude.Bytes.{Bytes}
use structured_p2p_overlay_n.Multiplexer.State.{Packet}
use structured_p2p_overlay_n.Peer.Protocol.{
  Protocol, text, raw, find_protocol, knows, rewrite, dispatch,
}
use structured_p2p_overlay_n.Peer.Dispatch.{table, dispatch-table, dispatch-rewrite-roomless}
use structured_p2p_overlay_n.Peer.Commands.{Sedes, fields, Command}
use structured_p2p_overlay_n.Peer.State.{Peer, Hello, Manager}
use structured_p2p_overlay_n.Peer.Search.{Contact, created, discovery_round}
use structured_p2p_overlay_n.Peer.Shutdown.{stop_all, every_other, stop_all-every_other}
use structured_p2p_overlay_n.Peer.Monitor.{
  IsSilent, MonitorRound, new_monitor, monitor_run, monitor_run-answered, monitor_run-silent,
}
use structured_p2p_overlay_n.Peer.Marks.{IsSound}
use structured_p2p_overlay_n.Peer.Invariant.{marks}
use structured_p2p_overlay_n.Peer.Runs.{
  start_event, key_event, hello_event, Reach, here, next, perform_event, Reach-IsSound,
}

-- the p2p protocol, one with a single command, and one with two commands
abbrev p2p : Protocol
p2p = record {
  class_of = 0;
  protocol_id = 0;
  name = raw (112 ∷ 50 ∷ 112 ∷ []);
  version = 4;
  max_cmd_id = 15;
  cmd_ids = 0 ∷ 1 ∷ 2 ∷ 3 ∷ [];
}

abbrev token : Protocol
token = record {
  class_of = 1;
  protocol_id = 1;
  name = text (120 ∷ []);
  version = 1;
  max_cmd_id = 0;
  cmd_ids = 0 ∷ [];
}

abbrev chat : Protocol
chat = record {
  class_of = 2;
  protocol_id = 2;
  name = text (121 ∷ []);
  version = 1;
  max_cmd_id = 1;
  cmd_ids = 0 ∷ 1 ∷ [];
}

abbrev packet : ℕ → ℕ → Packet
packet p c = record { protocol_id = p; cmd_id = c; payload = 7 ∷ []; prioritize = false }

dispatch-table_example :
    dispatch true (p2p ∷ chat ∷ []) (packet 0 17)
    ≡ of_option unknown_command (get_elem? (table (p2p ∷ chat ∷ [])) 17)
dispatch-table_example = dispatch-table (p2p ∷ chat ∷ []) (packet 0 17)

dispatch-rewrite-roomless_example :
    (rewrite true (p2p ∷ token ∷ chat ∷ []) (packet 2 1)
      >>= dispatch true (p2p ∷ token ∷ chat ∷ []))
    ≢ ok (chat, 1)
unfolding find_protocol knows
dispatch-rewrite-roomless_example =
    dispatch-rewrite-roomless (p2p ∷ token ∷ chat ∷ []) (packet 2 1) chat refl refl (omega arith)
      (omega arith)

-- bytes that stand for themselves
abbrev plain : Sedes ℕ ℕ
plain = record {
  encode_list = λ ss vs. ok vs;
  decode_list = λ strict ss b. ok b;
  encode_countable = λ s vs. ok vs;
  decode_countable = λ s b. ok b;
}

-- a command with the fields `a` and `b`
abbrev say : Command ℕ
say = record {
  cmd_id = 1;
  structure = fields ((97 ∷ [], 0) ∷ (98 ∷ [], 0) ∷ []);
  decode_strict = true;
}

abbrev said : Packet
said = record { protocol_id = 2; cmd_id = 1; payload = 6 ∷ 5 ∷ []; prioritize = false }

abbrev start : Manager
start = record {
  node_id = replicate 64 9;
  max_peers = 1;
  services = record { name = 121 ∷ []; is_manager = false; wire_protocol = chat } ∷ [];
  next_peer = 0;
  peers = [];
  errors = record { errors = []; client_versions = [] };
}

abbrev greeting : Hello
greeting = record {
  version = 4;
  client_version = 97 ∷ [];
  capabilities = (121 ∷ [], 1) ∷ [];
  pubkey = replicate 64 1;
}

-- a caller comes, its key is learnt, it says hello, a second caller comes
abbrev finish : Manager
finish =
    (perform_event (start_event 2 none p2p)
      (perform_event (hello_event 0 greeting)
        (perform_event (key_event 0 (replicate 64 1))
          (perform_event (start_event 1 none p2p) start).0).0).0).0

run : Reach start finish
run = next (start_event 2 none p2p) (
    next (hello_event 0 greeting)
      (next (key_event 0 (replicate 64 1)) (next (start_event 1 none p2p) here)))

Reach-IsSound_example : IsSound finish.max_peers finish.next_peer (marks finish.peers)
Reach-IsSound_example = Reach-IsSound start refl run

stop_all-every_other_example :
    stop_all finish ≡ (record finish { peers = every_other finish.peers }, ok tt)
stop_all-every_other_example = stop_all-every_other finish (Reach-IsSound start refl run)

abbrev node : Contact
node = record { pubkey = replicate 64 5; address = 3 }

-- no other call runs while the search sleeps; while it connects, the manager starts another peer
abbrev meanwhile : Manager → Manager
meanwhile m = (perform_event (start_event 7 none p2p) m).0

abbrev searched : List (ℕ × Peer)
searched =
    (discovery_round 5 p2p (replicate 64 9) (node ∷ []) 0 created (λ m. m) meanwhile finish).0.peers

-- rounds at the given times, in which no pong comes
abbrev silent : List ℕ → List MonitorRound
silent [] = []
silent (t ∷ ts) = record { now = t; pongs = [] } ∷ silent ts

abbrev times : List ℕ
times = 0 ∷ 15000 ∷ 30000 ∷ 45000 ∷ 60000 ∷ 75000 ∷ 90000 ∷ 105000 ∷ 120000 ∷ 135000 ∷ []

quiet : IsSilent 0 (silent times)
quiet = (
  omega arith,
  refl,
  (
    omega arith,
    refl,
    (
      omega arith,
      refl,
      (
        omega arith,
        refl,
        (
          omega arith,
          refl,
          (
            omega arith,
            refl,
            (omega arith, refl, (omega arith, refl, (omega arith, refl, (omega arith, refl, tt)))),
          ),
        ),
      ),
    ),
  ),
)

monitor_run-silent_example : (monitor_run (silent times) (new_monitor 0)).1 ≡ true
unfolding new_monitor
monitor_run-silent_example = monitor_run-silent (silent times) (new_monitor 0) (omega arith) quiet

monitor_run-answered_example :
    (monitor_run
      (record { now = 0; pongs = 5 ∷ [] } ∷ record { now = 900000; pongs = 900004 ∷ [] } ∷ [])
      (new_monitor 0)).1
    ≡ false
monitor_run-answered_example =
    monitor_run-answered
      (record { now = 0; pongs = 5 ∷ [] } ∷ record { now = 900000; pongs = 900004 ∷ [] } ∷ [])
      (new_monitor 0) ((omega arith, (omega arith, tt)), ((omega arith, (omega arith, tt)), tt))
