-- ===== src/Peer/Protocol.antt =====
-- The protocols of a peer, and the command ids that pydevp2p/devp2p/peer.py gives them on the wire.
use structured_p2p_overlay_n.Prelude.{
  ℕ, ◌+◌, ◌-◌, Bool, true, false, Option, none, some, List, [], ◌∷◌, ltb, ◌==◌, if◌then◌else◌,
  Result, ok, of_option, check, ◌>>=◌, ◌>>◌, assertion_error, key_error, unknown_command,
}
use structured_p2p_overlay_n.Prelude.Bytes.{Bytes}
use structured_p2p_overlay_n.Multiplexer.State.{Packet}

-- `name` of a protocol class: `str` or `bytes`, which are different keys
pub data Name : Type 0 where
  text raw : Bytes → Name

-- An instance of a protocol class; `class_of` stands for the class.
pub record Protocol : Type 0 where
  pub class_of : ℕ
  pub protocol_id : ℕ
  pub name : Name
  pub version : ℕ
  pub max_cmd_id : ℕ
  pub cmd_ids : List ℕ

-- `cmd_id in protocol.cmd_by_id`
unfoldable pub knows : ℕ → List ℕ → Bool
knows c [] = false
knows c (d ∷ ds) = elim (d == c) [ true ↦ true | false ↦ knows c ds ]

-- the first protocol with an id
unfoldable pub find_protocol : ℕ → List Protocol → Option Protocol
find_protocol i [] = none
find_protocol i (p ∷ ps) = elim (p.protocol_id == i) [ true ↦ some p | false ↦ find_protocol i ps ]

-- The second loop of `send_packet`: what is added to the command id. A protocol with the highest id
-- 0 takes no room.
unfoldable pub offset : ℕ → List Protocol → ℕ
offset i [] = 0
offset i (p ∷ ps) = elim (p.protocol_id == i) [
  | true ↦ 0
  | false ↦ (if p.max_cmd_id == 0 then 0 else p.max_cmd_id + 1) + offset i ps
]

-- the packet that `send_packet` hands to the multiplexer
unfoldable pub rewrite : Bool → List Protocol → Packet → Result Packet
unfolding find_protocol knows offset
rewrite offset_based ps packet =
    of_option assertion_error (find_protocol packet.protocol_id ps) >>= λ p.
    check (knows packet.cmd_id p.cmd_ids) key_error
    >> ok (
        if offset_based
        then record packet {
          cmd_id = packet.cmd_id + offset packet.protocol_id ps;
          protocol_id = 0;
        }
        else packet)

-- the loop of `protocol_cmd_id_from_packet`, with `max_id`
unfoldable pub by_offset : ℕ → ℕ → List Protocol → Option (Protocol × ℕ)
by_offset max_id c [] = none
by_offset max_id c (p ∷ ps) = elim (ltb c (max_id + p.max_cmd_id + 1)) [
  | true ↦ some (p, c - max_id)
  | false ↦ by_offset (max_id + (p.max_cmd_id + 1)) c ps
]

-- `protocol_cmd_id_from_packet`
unfoldable pub dispatch : Bool → List Protocol → Packet → Result (Protocol × ℕ)
unfolding by_offset find_protocol
dispatch offset_based ps packet =
    if offset_based
    then of_option unknown_command (by_offset 0 packet.cmd_id ps)
    else (of_option unknown_command (find_protocol packet.protocol_id ps) >>= λ p.
        ok (p, packet.cmd_id))
