-- ===== src/Peer/Commands.antt =====
-- The commands of a protocol, class BaseProtocol of pydevp2p/devp2p/protocol.py: their payloads, and
-- what a peer makes of a packet.
use structured_p2p_overlay_n.Prelude.{
  ℕ, Bool, true, false, Option, none, some, List, [], ◌∷◌, map, length, ◌==◌, if◌then◌else◌, Result,
  ok, err, check, of_option, ◌>>=◌, ◌>>◌, assertion_error, key_error, index_error,
}
use structured_p2p_overlay_n.Prelude.Bytes.{Bytes, bytes_eq}
use structured_p2p_overlay_n.Multiplexer.State.{Packet}
use structured_p2p_overlay_n.Peer.Protocol.{Protocol, dispatch}

-- `rlp.encode` and `rlp.decode` with `sedes.List`, strict or not, and with a `sedes.CountableList`.
-- `S` are the types of elements, `V` their values.
pub record Sedes (V S : Type 0) : Type 0 where
  pub encode_list : List S → List V → Result Bytes
  pub decode_list : Bool → List S → Bytes → Result (List V)
  pub encode_countable : S → List V → Result Bytes
  pub decode_countable : S → Bytes → Result (List V)

pub data Structure (S : Type 0) : Type 0 where
  fields : List (Bytes × S) → Structure S
  countable : S → Structure S

-- class `command`
pub record Command (S : Type 0) : Type 0 where
  pub cmd_id : ℕ
  pub structure : Structure S
  pub decode_strict : Bool

-- the data of a command: a dict by names, or a list
pub data Data (V : Type 0) : Type 0 where
  named : List (Bytes × V) → Data V
  items : List V → Data V

module _ {V : Type 0} where
  -- `data[name]`
  unfoldable pub field : Bytes → List (Bytes × V) → Option V
  field n [] = none
  field n ((k, v) ∷ d) = if bytes_eq k n then some v else field n d

  -- `data[name] = v`
  unfoldable pub set_field : Bytes → V → List (Bytes × V) → List (Bytes × V)
  set_field n v [] = (n, v) ∷ []
  set_field n v ((k, w) ∷ d) = if bytes_eq k n then (k, v) ∷ d else (k, w) ∷ set_field n v d

abbrev pub types : {S : Type 0} → List (Bytes × S) → List S
types fs = map (λ f. f.1) fs

-- the command with an id: `cmd_by_id`, and the method of its name
unfoldable pub find_command : {S : Type 0} → ℕ → List (Command S) → Option (Command S)
find_command i [] = none
find_command i (c ∷ cs) = elim (c.cmd_id == i) [ true ↦ some c | false ↦ find_command i cs ]

module _ {V S : Type 0} where
  -- `[data[x[0]] for x in cls.structure]`
  unfoldable pub pick : List (Bytes × S) → List (Bytes × V) → Result (List V)
  unfolding field
  pick [] d = ok []
  pick ((n, s) ∷ fs) d = of_option key_error (field n d) >>= λ v. pick fs d >>= λ vs. ok (v ∷ vs)

  -- `dict((cls.structure[i][0], v) for i, v in enumerate(data))`, from a dict on
  unfoldable pub as_dict : List (Bytes × S) → List V → List (Bytes × V) → Result (List (Bytes × V))
  unfolding set_field
  as_dict fs [] d = ok d
  as_dict [] (v ∷ vs) d = err index_error
  as_dict ((n, s) ∷ fs) (v ∷ vs) d = as_dict fs vs (set_field n v d)

  module _ (sedes : Sedes V S) where
    unfoldable pub encode_struct : List (Bytes × S) → List V → Result Bytes
    encode_struct fs vs =
        check (length vs == length fs) assertion_error >> sedes.encode_list (types fs) vs

    unfoldable pub encode_payload : Structure S → Data V → Result Bytes
    unfolding pick encode_struct
    encode_payload (fields fs) (named d) = pick fs d >>= encode_struct fs
    encode_payload (fields fs) (items vs) = encode_struct fs vs
    encode_payload (countable s) (named d) = err assertion_error
    encode_payload (countable s) (items vs) = sedes.encode_countable s vs

    -- What `rlp.decode` raises is raised again.
    unfoldable pub decode_payload : Bool → Structure S → Bytes → Result (Data V)
    unfolding as_dict
    decode_payload strict (fields fs) b =
        sedes.decode_list strict (types fs) b >>= λ vs. as_dict fs vs [] >>= λ d. ok (named d)
    decode_payload strict (countable s) b = sedes.decode_countable s b >>= λ vs. ok (items vs)

    -- `create`, with the data that the command's own `create` returns
    unfoldable pub create : Protocol → Command S → Data V → Result Packet
    unfolding encode_payload
    create p c content = encode_payload c.structure content >>= λ b.
        ok (record {
          protocol_id = p.protocol_id;
          cmd_id = c.cmd_id;
          payload = b;
          prioritize = false;
        })

    -- `receive_packet`, up to the command's own `receive`: the command and its data
    unfoldable pub receive_packet : List (Command S) → Packet → Result (Command S × Data V)
    unfolding find_command decode_payload
    receive_packet cs packet = of_option key_error (find_command packet.cmd_id cs) >>= λ c.
        decode_payload c.decode_strict c.structure packet.payload >>= λ content. ok (c, content)

    -- `_handle_packet`, for protocols with commands
    unfoldable pub handle_packet :
        (Protocol → List (Command S))
        → Bool
        → List Protocol
        → Packet
        → Result (Protocol × (Command S × Data V))
    unfolding receive_packet
    handle_packet commands_of mode ps packet = dispatch mode ps packet >>= λ pc.
        receive_packet (commands_of pc.0) (record packet { cmd_id = pc.1 }) >>= λ r. ok (pc.0, r)
