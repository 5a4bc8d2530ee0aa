-- ===== src/Multiplexer/Frame.antt =====
-- `ceil16`, `rzpad16` and class `Frame` of pydevp2p/devp2p/multiplexer.py.
pub mod Chunks
pub mod Layout
pub mod Total
use structured_p2p_overlay_n.Prelude.{
  ℕ, zero, suc, ◌+◌, ◌-◌, ◌%◌, ◌^◌, Bool, true, false, not, ◌&&◌, Option, none, some, List, [], ◌∷◌,
  ◌++◌, length, take, drop, replicate, ltb, leb, ◌==◌, if◌then◌else◌, Result, ok, err, check, ◌>>=◌,
  ◌>>◌, assertion_error, rlp_error, out_of_fuel,
}
use structured_p2p_overlay_n.Prelude.Bytes.{Bytes, to_be}
use structured_p2p_overlay_n.Rlp.{Rlp}

abbrev pub header_size : ℕ
header_size = 16

abbrev pub mac_size : ℕ
mac_size = 16

abbrev pub padding : ℕ
padding = 16

unfoldable pub ceil16 : ℕ → ℕ
ceil16 x = if x % 16 == 0 then x else x + 16 - x % 16

unfoldable pub rzpad16 : Bytes → Bytes
rzpad16 b = if length b % 16 == 0 then b else b ++ replicate (16 - length b % 16) 0

pub record Frame : Type 0 where
  pub protocol_id : ℕ
  pub cmd_id : ℕ
  pub payload : Bytes
  pub sequence_id : Option ℕ
  pub is_chunked_n : Bool
  pub is_chunked_0 : Bool
  pub total_payload_size : Option ℕ
  pub cipher_called : Bool

unfoldable pub is_normal : Frame → Bool
is_normal f = not f.is_chunked_n && not f.is_chunked_0

-- `s is None or s < 2**16`
unfoldable pub sequence_id_fits : Option ℕ → Bool
sequence_id_fits none = true
sequence_id_fits (some s) = ltb s (2 ^ 16)

-- `rlp.decode(data) == tuple(l)`
unfoldable pub list_eq : List ℕ → List ℕ → Bool
list_eq [] [] = true
list_eq [] (_ ∷ _) = false
list_eq (_ ∷ _) [] = false
list_eq (x ∷ xs) (y ∷ ys) = x == y && list_eq xs ys

-- the list that `header` encodes, of the protocol id, the sequence id and the total size
unfoldable pub header_list : ℕ → Bool → Option ℕ → Option ℕ → Result (List ℕ)
header_list p true none t = err assertion_error
header_list p true (some s) none = err rlp_error
header_list p true (some s) (some t) = ok (p ∷ s ∷ t ∷ [])
header_list p false none t = ok (p ∷ [])
header_list p false (some s) t = ok (p ∷ s ∷ [])

module _ (rlp : Rlp) where
  unfoldable pub enc_cmd_id : Frame → Bytes
  enc_cmd_id f = if f.is_chunked_n then [] else rlp.encode_int f.cmd_id

  unfoldable pub body_size : Frame → ℕ
  body_size f = length (enc_cmd_id f) + length f.payload

  -- `body_size(padded=True)`
  unfoldable pub padded_body_size : Frame → ℕ
  padded_body_size f = ceil16 (body_size f)

  unfoldable pub frame_size : Frame → ℕ
  frame_size f = header_size + mac_size + padded_body_size f + mac_size

  -- `struct.pack('>I', body_size)[1:]` is the three low bytes.
  unfoldable pub header : Frame → Result Bytes
  header f = do
    check (ltb f.protocol_id (2 ^ 16)) assertion_error
    check (sequence_id_fits f.sequence_id) assertion_error
    l ← header_list f.protocol_id f.is_chunked_0 f.sequence_id f.total_payload_size
    let header_data = rlp.encode_list l
    l' ← rlp.decode_list header_data
    check (list_eq l l') assertion_error
    check (ltb (body_size f) (256 ^ 3)) assertion_error
    let padded = rzpad16 (to_be 3 (body_size f) ++ header_data)
    check (length padded == header_size) assertion_error
    ok padded

  unfoldable pub body : Frame → Bytes
  body f = let l = body_size f in enc_cmd_id f ++ (f.payload ++ replicate (ceil16 l - l) 0)

  -- `as_bytes` without a cipher
  unfoldable pub plain_bytes : Frame → Result Bytes
  plain_bytes f = do
    h ← header f
    check (length h == header_size) assertion_error
    check (length (body f) == padded_body_size f) assertion_error
    let dummy_mac = replicate mac_size 0
    let r = h ++ (dummy_mac ++ (body f ++ dummy_mac))
    check (length r == frame_size f) assertion_error
    ok r

  -- the two ends of the constructor: the frame is small enough, or `rest` are those of the remainder
  unfoldable pub whole_frame : ℕ → Frame → Result (List Frame)
  whole_frame window_size f = do check (leb (frame_size f) window_size) assertion_error; ok (f ∷ [])

  -- `payload[:window_size - fs]`, for `fs > window_size`
  unfoldable pub chunk_payload : ℕ → Frame → Bytes
  chunk_payload window_size f = take (length f.payload - (frame_size f - window_size)) f.payload

  unfoldable pub first_chunk : ℕ → Frame → Frame
  first_chunk window_size f = record f {
    is_chunked_0 = not f.is_chunked_n;
    total_payload_size = if f.is_chunked_n then none else some (body_size f);
    payload = chunk_payload window_size f;
  }

  -- `payload[len(self.payload):]`
  unfoldable pub remain : ℕ → Frame → Bytes
  remain window_size f = drop (length (chunk_payload window_size f)) f.payload

  unfoldable pub split_frame : ℕ → Frame → Result (List Frame) → Result (List Frame)
  split_frame window_size f rest = do
    check (leb (frame_size (first_chunk window_size f)) window_size) assertion_error
    check (length (remain window_size f) + length (chunk_payload window_size f) == length f.payload)
        assertion_error
    fs ← rest
    check (leb (frame_size (first_chunk window_size f)) window_size) assertion_error
    ok (first_chunk window_size f ∷ fs)

  unfoldable pub arguments_fit : ℕ → ℕ → Option ℕ → ℕ → Bool
  arguments_fit protocol_id cmd_id sequence_id window_size =
      window_size % padding == 0
      && ltb cmd_id 256
      && ltb protocol_id (2 ^ 16)
      && sequence_id_fits sequence_id

  -- `Frame(protocol_id, cmd_id, payload, sequence_id, window_size, is_chunked_n).frames`, on fuel
  unfoldable pub make_frames : ℕ → ℕ → ℕ → Bytes → Option ℕ → ℕ → Bool → Result (List Frame)
  make_frames zero protocol_id cmd_id payload sequence_id window_size is_chunked_n = err out_of_fuel
  make_frames (suc n) protocol_id cmd_id payload sequence_id window_size is_chunked_n =
      let f : Frame = record {
        protocol_id = protocol_id;
        cmd_id = cmd_id;
        payload = payload;
        sequence_id = sequence_id;
        is_chunked_n = is_chunked_n;
        is_chunked_0 = false;
        total_payload_size = none;
        cipher_called = false;
      } in
      let rest =
        make_frames n protocol_id cmd_id (remain window_size f) sequence_id window_size true in
      check (arguments_fit protocol_id cmd_id sequence_id window_size) assertion_error
      >> (if ltb window_size (frame_size f)
          then split_frame window_size f rest
          else whole_frame window_size f)

  -- Two rounds more than the payload has bytes are enough, see Frame.Chunks.
  unfoldable pub new_frames : ℕ → ℕ → Bytes → Option ℕ → ℕ → Result (List Frame)
  new_frames protocol_id cmd_id payload sequence_id window_size =
      make_frames (length payload + 2) protocol_id cmd_id payload sequence_id window_size false
