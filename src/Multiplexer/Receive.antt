-- ===== src/Multiplexer/Receive.antt =====
-- The receiving half of class `Multiplexer` in pydevp2p/devp2p/multiplexer.py: `decode_body` and
-- `decode`.
use structured_p2p_overlay_n.Prelude.{
  ℕ, zero, suc, ◌+◌, ◌-◌, ◌^◌, Bool, true, false, Option, none, some, List, [], ◌∷◌, ◌++◌, length,
  take, drop, ltb, leb, ◌==◌, if◌then◌else◌, Fault, Result, ok, err, check, of_option,
  assertion_error, index_error, rlp_error, deserialization_error, multiplexer_error, out_of_fuel,
}
use structured_p2p_overlay_n.Prelude
use structured_p2p_overlay_n.Prelude.Bytes.{Bytes}
use structured_p2p_overlay_n.Prelude.Dict.{dict_get, dict_set, dict_del}
use structured_p2p_overlay_n.Prelude.Exec.{Exec, pure, lift, gets, modify, ◌>>=◌, ◌>>◌}
use structured_p2p_overlay_n.Rlp.{Rlp}
use structured_p2p_overlay_n.Multiplexer.Frame.{header_size, mac_size, ceil16}
use structured_p2p_overlay_n.Multiplexer.Cipher.{
  FrameCipher, header_body_size, decode_header, read_body,
}
use structured_p2p_overlay_n.Multiplexer.State.{Packet, Incomplete, Multiplexer}

-- What the header says of a frame besides its size; a total size makes it a chunked-0 frame.
pub record HeaderData : Type 0 where
  pub protocol_id : ℕ
  pub sequence_id : Option ℕ
  pub total_payload_size : Option ℕ

unfoldable pub assert_fits : ℕ → ℕ → Result (Unit {0})
assert_fits n bits = check (ltb n (2 ^ bits)) assertion_error

unfoldable pub read_header_data : List ℕ → Result HeaderData
unfolding assert_fits
read_header_data [] = err index_error
read_header_data (p ∷ []) =
    Prelude.◌>>◌ (assert_fits p 16)
      (ok (record { protocol_id = p; sequence_id = none; total_payload_size = none }))
read_header_data (p ∷ s ∷ []) = Prelude.◌>>◌ (assert_fits p 16) (
    Prelude.◌>>◌ (assert_fits s 16)
      (ok (record { protocol_id = p; sequence_id = some s; total_payload_size = none })))
read_header_data (p ∷ s ∷ t ∷ []) = Prelude.◌>>◌ (assert_fits t 32) (
    Prelude.◌>>◌ (assert_fits p 16) (
      Prelude.◌>>◌ (assert_fits s 16)
        (ok (record { protocol_id = p; sequence_id = some s; total_payload_size = some t }))))
read_header_data (p ∷ s ∷ t ∷ _ ∷ _) = Prelude.◌>>◌ (assert_fits p 16) (
    Prelude.◌>>◌ (assert_fits s 16)
      (ok (record { protocol_id = p; sequence_id = some s; total_payload_size = none })))

-- `except rlp.RLPException: raise DeserializationError`
unfoldable pub as_deserialization : {A : Type 0} → Result A → Result A
as_deserialization (ok a) = ok a
as_deserialization (err rlp_error) = err deserialization_error
as_deserialization (err e) = err e

abbrev pub Buffers : Type 0
Buffers = List (ℕ × Incomplete)

-- `chunkbuf.get(sequence_id)`; no frame without a sequence id is in the buffer
unfoldable pub find_incomplete : Option ℕ → Buffers → Option Incomplete
find_incomplete none c = none
find_incomplete (some s) c = dict_get s c

unfoldable pub append_payload : Incomplete → Bytes → Incomplete
append_payload i b = record i { packet = record (i.packet) { payload = i.packet.payload ++ b } }

-- a further frame of the packet `i`
unfoldable pub continue_packet :
    ℕ → Option ℕ → Incomplete → Bytes → Buffers → Result (Buffers × Option Packet)
unfolding append_payload
continue_packet s (some t) i b c = err multiplexer_error
continue_packet s none i b c =
    if ltb i.total_payload_size (length i.packet.payload + length b)
    then err multiplexer_error
    else (if i.total_payload_size == length i.packet.payload + length b
        then ok (dict_del s c, some ((append_payload i b).packet))
        else ok (dict_set s (append_payload i b) c, none))

-- the first frame of a packet, of which `total` bytes with the command id are to come
unfoldable pub begin_chunked :
    Option ℕ → ℕ → ℕ → Packet → Buffers → Result (Buffers × Option Packet)
begin_chunked s total end packet c =
    if ltb total (end + length packet.payload)
    then err multiplexer_error
    else (if total == end + length packet.payload then ok (c, some packet) else (elim s [
      | none ↦ err assertion_error
      | some s' ↦
          ok (dict_set s' (record { packet = packet; total_payload_size = total - end }) c, none)
    ]))

unfoldable pub first_packet : ℕ → ℕ → ℕ → Bytes → Packet
first_packet p cmd_id end b = record {
  protocol_id = p;
  cmd_id = cmd_id;
  payload = drop end b;
  prioritize = false;
}

unfoldable pub begin_packet :
    HeaderData → ℕ × ℕ → Bytes → Buffers → Result (Buffers × Option Packet)
unfolding first_packet
begin_packet h (cmd_id, end) b c = elim (h.total_payload_size) [
  | none ↦ ok (c, some (first_packet h.protocol_id cmd_id end b))
  | some t ↦ begin_chunked h.sequence_id t end (first_packet h.protocol_id cmd_id end b) c
]

module _ (rlp : Rlp) where
  -- what a frame with body `b` does to the buffers of its protocol, and the packet that it completes
  unfoldable pub accept : HeaderData → Bytes → Buffers → Result (Buffers × Option Packet)
  accept h b c = elim (find_incomplete h.sequence_id c) [
    | some i ↦ (elim (h.sequence_id) [
      | none ↦ err assertion_error
      | some s ↦ continue_packet s h.total_payload_size i b c
    ])
    | none ↦ Prelude.◌>>=◌ (rlp.consume_int b) (λ item. begin_packet h item b c)
  ]

  -- the header that is decoded: without a cipher it is read again from the buffer
  unfoldable pub seen_header : {K : Type 0} → Option K → Bytes → Bytes → Bytes
  seen_header none buffer h = take header_size buffer
  seen_header (some k) buffer h = h

  unfoldable pub read_header : Bytes → Result HeaderData
  read_header h =
      Prelude.◌>>=◌ (as_deserialization (rlp.decode_list (drop 3 h))) (λ l. read_header_data l)

-- How far `decode` came: more bytes are wanted, or a frame was read, which may complete a packet.
pub data Progress : Type 0 where
  waiting : Progress
  consumed : Option Packet → Progress

-- `if packet`: a packet has a length, that of its payload
unfoldable pub is_truthy : Packet → Bool
is_truthy p = ltb 0 (length p.payload)

unfoldable pub found : Option Packet → List Packet
found none = []
found (some p) = if is_truthy p then p ∷ [] else []

-- an empty header counts as none
unfoldable pub cached : Option Bytes → Option Bytes
cached none = none
cached (some []) = none
cached (some (x ∷ xs)) = some (x ∷ xs)

unfoldable pub required_len : Bytes → ℕ
required_len h = header_size + mac_size + ceil16 (header_body_size h) + mac_size

module _ (rlp : Rlp) {K : Type 0} (cipher : FrameCipher K) where
  -- an action of the cipher on the front of the buffer
  unfoldable pub with_cipher : {A : Type 0} → Exec (Option K) A → Exec (Multiplexer K) A
  with_cipher a m = (record m { frame_cipher = (a m.frame_cipher).0 }, (a m.frame_cipher).1)

  unfoldable pub decode_body : Bytes → Bytes → Exec (Multiplexer K) (Option Packet)
  unfolding ◌>>=◌ with_cipher
  decode_body buffer header = do
    k ← gets (λ (m : Multiplexer K). m.frame_cipher)
    b ← with_cipher (read_body cipher buffer (header_body_size header))
    h ← lift (read_header rlp (seen_header rlp k buffer header))
    all ← gets (λ (m : Multiplexer K). m.chunked_buffers)
    c ← lift (of_option multiplexer_error (dict_get h.protocol_id all))
    result ← lift (accept rlp h b c)
    modify (λ (m : Multiplexer K). record m {
      chunked_buffers = dict_set h.protocol_id result.0 m.chunked_buffers;
    })
    pure result.1

  unfoldable pub store_header : Option Bytes → Exec (Multiplexer K) (Unit {0})
  store_header h = modify (λ (m : Multiplexer K). record m { cached_decode_header = h })

  unfoldable pub new_header : Exec (Multiplexer K) (Option Bytes)
  unfolding ◌>>=◌ with_cipher store_header
  new_header = do
    buffer ← gets (λ (m : Multiplexer K). m.decode_buffer)
    elim (ltb (length buffer) (header_size + mac_size)) [
      | true ↦ pure none
      | false ↦ (do
        h ← with_cipher (decode_header cipher buffer)
        store_header (some h)
        pure (some h))
    ]

  unfoldable pub fetch_header : Exec (Multiplexer K) (Option Bytes)
  unfolding ◌>>=◌ new_header
  fetch_header = do
    old ← gets (λ (m : Multiplexer K). cached m.cached_decode_header)
    elim old [ some h ↦ pure (some h) | none ↦ new_header ]

  unfoldable pub take_frame : Bytes → Exec (Multiplexer K) Progress
  unfolding ◌>>=◌ decode_body store_header
  take_frame h = do
    buffer ← gets (λ (m : Multiplexer K). m.decode_buffer)
    elim (leb (required_len h) (length buffer)) [
      | true ↦ (do
        o ← decode_body buffer h
        store_header none
        modify (λ (m : Multiplexer K). record m { decode_buffer = drop (required_len h) buffer })
        pure (consumed o))
      | false ↦ pure waiting
    ]

  -- one frame
  unfoldable pub decode_one : Exec (Multiplexer K) Progress
  unfolding ◌>>=◌ fetch_header take_frame
  decode_one = do h ← fetch_header; elim h [ none ↦ pure waiting | some h' ↦ take_frame h' ]

  -- `decode()`, with no more data, on fuel
  unfoldable pub decode_all : ℕ → Exec (Multiplexer K) (List Packet)
  unfolding ◌>>=◌
  decode_all zero = lift (err out_of_fuel)
  decode_all (suc n) = do
    p ← decode_one
    elim p [ waiting ↦ pure [] | consumed o ↦ (do rest ← decode_all n; pure (found o ++ rest)) ]

  -- A frame takes 48 bytes at least, so there is a round for each that is in the buffer.
  unfoldable pub decode : Bytes → Exec (Multiplexer K) (List Packet)
  unfolding ◌>>=◌
  decode more = do
    modify (λ (m : Multiplexer K). record m { decode_buffer = m.decode_buffer ++ more })
    n ← gets (λ (m : Multiplexer K). length m.decode_buffer)
    decode_all (n + 1)
