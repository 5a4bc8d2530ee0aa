-- ===== src/Multiplexer/Frame/Chunks.antt =====
-- How the constructor of `Frame` cuts a payload into frames, pydevp2p/devp2p/multiplexer.py.
use structured_p2p_overlay_n.Prelude.{
  ℕ, zero, suc, ◌+◌, ◌-◌, ◌%◌, ◌≤◌, ◌<◌, Bool, true, false, Option, none, some, List, [], ◌∷◌, ◌++◌,
  map, length, take, drop, All, Result, ok, ◌≡◌, refl, ap, arith, Bool-cases, inl, inr, length-take,
  length-drop, ltb, lt→ltb, le→ltb, ltb→lt, ltb→le, ◌∙◌, append-nil,
}
use structured_p2p_overlay_n.Prelude.Bytes.{Bytes}
use structured_p2p_overlay_n.Rlp.{Rlp, IsRlp}
use structured_p2p_overlay_n.Multiplexer.Frame.{
  Frame, ceil16, make_frames, new_frames, split_frame, whole_frame, frame_size, padded_body_size,
  body_size, enc_cmd_id, first_chunk, chunk_payload, remain, arguments_fit,
}

-- a frame that continues a packet, with the bytes `b`
abbrev pub tail_frame : ℕ → ℕ → Option ℕ → Bytes → Frame
tail_frame p c sid b = record {
  protocol_id = p;
  cmd_id = c;
  payload = b;
  sequence_id = sid;
  is_chunked_n = true;
  is_chunked_0 = false;
  total_payload_size = none;
  cipher_called = false;
}

-- the only frame of a packet
abbrev pub normal_frame : ℕ → ℕ → Option ℕ → Bytes → Frame
normal_frame p c sid b = record (tail_frame p c sid b) { is_chunked_n = false }

-- the first frame of several, of `total` bytes
abbrev pub head_frame : ℕ → ℕ → Option ℕ → ℕ → Bytes → Frame
head_frame p c sid total b = record {
  protocol_id = p;
  cmd_id = c;
  payload = b;
  sequence_id = sid;
  is_chunked_n = false;
  is_chunked_0 = true;
  total_payload_size = some total;
  cipher_called = false;
}

-- the bytes of a list of chunks
abbrev pub joined : List Bytes → Bytes
joined [] = []
joined (b ∷ bs) = b ++ joined bs

-- The smallest multiple of 16 from `x` on.
pub ceil16_bounds : (x : ℕ) → (x ≤ ceil16 x) × (ceil16 x ≤ x + 15) × (ceil16 x % 16 ≡ 0)
unfolding ceil16
ceil16_bounds x = ground arith

-- the frame that the constructor begins with
abbrev pub start_frame : ℕ → ℕ → Option ℕ → Bool → Bytes → Frame
start_frame p c sid n b = record (tail_frame p c sid b) { is_chunked_n = n }

pub ceil16-le : (x y : ℕ) → x ≤ y → y % 16 ≡ 0 → ceil16 x ≤ y
unfolding ceil16
ceil16-le x y h e = ground arith

take-append-drop_rest : (n : ℕ) (b : Bytes) → take n b ++ drop (length (take n b)) b ≡ b
take-append-drop_rest zero b = refl
take-append-drop_rest (suc n) [] = refl
take-append-drop_rest (suc n) (x ∷ b) = ap (◌∷◌ x) (take-append-drop_rest n b)

module _ (rlp : Rlp) (ws : ℕ) (f : Frame) where
  length-chunk_payload :
      length (chunk_payload rlp ws f) ≡ length f.payload - (frame_size rlp f - ws)
  unfolding chunk_payload
  length-chunk_payload =
      omega (arith, length-take (length f.payload - (frame_size rlp f - ws)) f.payload)

  length-remain : length (remain rlp ws f) ≡ length f.payload - length (chunk_payload rlp ws f)
  unfolding remain
  length-remain = length-drop (length (chunk_payload rlp ws f)) f.payload

  chunk-append-remain : chunk_payload rlp ws f ++ remain rlp ws f ≡ f.payload
  unfolding remain chunk_payload
  chunk-append-remain = take-append-drop_rest (length f.payload - (frame_size rlp f - ws)) f.payload

  enc-first_chunk : enc_cmd_id rlp (first_chunk rlp ws f) ≡ enc_cmd_id rlp f
  unfolding enc_cmd_id first_chunk
  enc-first_chunk = refl

  pub frame_size_lem : frame_size rlp f ≡ 48 + ceil16 (length (enc_cmd_id rlp f) + length f.payload)
  unfolding frame_size padded_body_size body_size
  frame_size_lem = omega arith

  pub frame_size-first_chunk :
      frame_size rlp (first_chunk rlp ws f)
      ≡ 48 + ceil16 (length (enc_cmd_id rlp f) + length (chunk_payload rlp ws f))
  unfolding frame_size padded_body_size body_size first_chunk enc_cmd_id
  frame_size-first_chunk = omega arith

  body_room :
      64 ≤ ws
      → length (enc_cmd_id rlp f) ≤ 2
      → ws < frame_size rlp f
      → length (enc_cmd_id rlp f) + length (chunk_payload rlp ws f) ≤ ws - 48
  body_room room short big = omega (
    arith,
    length-chunk_payload,
    frame_size_lem,
    ceil16_bounds (length (enc_cmd_id rlp f) + length f.payload),
  )

  -- The first chunk fits the window.
  first_chunk_fits :
      64 ≤ ws
      → ws % 16 ≡ 0
      → length (enc_cmd_id rlp f) ≤ 2
      → ws < frame_size rlp f
      → frame_size rlp (first_chunk rlp ws f) ≤ ws
  first_chunk_fits room e short big = omega (
    arith,
    frame_size-first_chunk,
    ceil16-le (length (enc_cmd_id rlp f) + length (chunk_payload rlp ws f)) (ws - 48)
        (body_room room short big) (omega arith),
  )

  -- It takes at least a byte but for the command id.
  chunk_pos :
      64 ≤ ws
      → length (enc_cmd_id rlp f) ≡ 0
      → ws < frame_size rlp f
      → length (remain rlp ws f) < length f.payload
  chunk_pos room e big = omega (
    arith,
    length-remain,
    length-chunk_payload,
    frame_size_lem,
    ceil16_bounds (length (enc_cmd_id rlp f) + length f.payload),
  )

  payload_pos :
      64 ≤ ws → length (enc_cmd_id rlp f) ≤ 2 → ws < frame_size rlp f → 0 < length f.payload
  payload_pos room short big =
      omega (arith, frame_size_lem, ceil16_bounds (length (enc_cmd_id rlp f) + length f.payload))

  -- What is left over is not empty.
  remain_pos : 0 < length f.payload → ws < frame_size rlp f → 0 < length (remain rlp ws f)
  remain_pos more big = omega (arith, length-remain, length-chunk_payload)

  split_lem :
      (g : Frame) (fs : List Frame) {rest : Result (List Frame)}
      → rest ≡ ok fs
      → first_chunk rlp ws f ≡ g
      → frame_size rlp (first_chunk rlp ws f) ≤ ws
      → split_frame rlp ws f rest ≡ ok (g ∷ fs)
  unfolding split_frame
  split_lem g fs r e h = ground (arith, length-remain, length-chunk_payload)

  whole_lem : frame_size rlp f ≤ ws → whole_frame rlp ws f ≡ ok (f ∷ [])
  unfolding whole_frame
  whole_lem h = ground arith

module _ (rlp : Rlp) (p c : ℕ) (sid : Option ℕ) (ws : ℕ) (n : ℕ) (payload : Bytes) (cn : Bool)
    (fit : arguments_fit rlp p c sid ws ≡ true) where
  pub make_frames-split :
      ws < frame_size rlp (start_frame p c sid cn payload)
      → make_frames rlp (suc n) p c payload sid ws cn
        ≡ split_frame rlp ws
            (start_frame p c sid cn payload)
            (make_frames rlp n p c (remain rlp ws (start_frame p c sid cn payload)) sid ws true)
  unfolding make_frames
  make_frames-split h = rw (fit, lt→ltb _ _ h)

  make_frames-whole :
      frame_size rlp (start_frame p c sid cn payload) ≤ ws
      → make_frames rlp (suc n) p c payload sid ws cn
        ≡ whole_frame rlp ws (start_frame p c sid cn payload)
  unfolding make_frames
  make_frames-whole h = rw (fit, le→ltb _ _ h)

module _ (ws : ℕ) where
  -- the bytes `b`, with a command id of `e` bytes, fit a frame of the window
  abbrev pub Fits : ℕ → Bytes → Type 0
  Fits e b = 48 + ceil16 (e + length b) ≤ ws

  -- a chunk of a packet behind its first
  abbrev pub IsChunk : Bytes → Type 0
  IsChunk b = (0 < length b) × Fits 0 b

room_at : {e e' ws : ℕ} (b : Bytes) → e ≡ e' → Fits ws e b → Fits ws e' b
room_at b same fits = rw same at fits

module _ (rlp : Rlp) (p c : ℕ) (sid : Option ℕ) (ws : ℕ) where
  enc-tail_frame : (b : Bytes) → enc_cmd_id rlp (tail_frame p c sid b) ≡ []
  unfolding enc_cmd_id
  enc-tail_frame b = refl

  first_chunk-tail :
      (b : Bytes)
      → first_chunk rlp ws (tail_frame p c sid b)
        ≡ tail_frame p c sid (chunk_payload rlp ws (tail_frame p c sid b))
  unfolding first_chunk
  first_chunk-tail b = refl

  -- A payload that continues a packet is cut in frames that fit, and enough fuel is its length.
  pub tail_frames :
      arguments_fit rlp p c sid ws ≡ true
      → 64 ≤ ws
      → ws % 16 ≡ 0
      → (n : ℕ) (payload : Bytes) → 0 < length payload
      → length payload < n
      → (bs : List Bytes) × (make_frames rlp n p c payload sid ws true
          ≡ ok (map (tail_frame p c sid) bs))
        × (joined bs ≡ payload)
        × All (IsChunk ws) bs
  tail_frames fit room e zero payload more h = absurd (omega arith)
  tail_frames fit room e (suc n) payload more h =
      let f : Frame = tail_frame p c sid payload in
      let none_left : length (enc_cmd_id rlp f) ≡ 0 = ap length (enc-tail_frame payload) in
      elim (Bool-cases (ltb ws (frame_size rlp f))) [
        | inl big ↦
            let over = ltb→lt _ _ big in
            let fits = first_chunk_fits rlp ws f room e (omega arith) over in
            let (bs, made, same, small) =
              tail_frames fit room e n (remain rlp ws f) (remain_pos rlp ws f more over)
                (omega (arith, chunk_pos rlp ws f room none_left over)) in
            (
              chunk_payload rlp ws f ∷ bs,
              make_frames-split rlp p c sid ws n payload true fit over
                  ∙ split_lem rlp ws f (tail_frame p c sid (chunk_payload rlp ws f))
                      (map (tail_frame p c sid) bs) made (first_chunk-tail payload) fits,
              rw same (chunk-append-remain rlp ws f),
              (
                (
                  omega (arith, chunk_pos rlp ws f room none_left over, length-remain rlp ws f),
                  room_at (chunk_payload rlp ws f) none_left (rw frame_size-first_chunk at fits),
                ),
                small,
              ),
            )
        | inr small ↦
            let under = ltb→le _ _ small in
            (
              payload ∷ [],
              make_frames-whole rlp p c sid ws n payload true fit under ∙ whole_lem rlp ws f under,
              append-nil payload,
              ((more, room_at payload none_left (rw frame_size_lem at under)), tt),
            )
      ]

  -- The frames of a packet: one, or several of which the first tells the size of them all.
  pub data Framing (payload : Bytes) : List Frame → Type 0 where
    single :
        Fits ws (length (rlp.encode_int c)) payload
        → Framing payload (normal_frame p c sid payload ∷ [])
    several :
        (b : Bytes) (bs : List Bytes)
        → ws < 48 + ceil16 (length (rlp.encode_int c) + length payload)
        → Fits ws (length (rlp.encode_int c)) b
        → All (IsChunk ws) bs
        → 0 < length (joined bs)
        → b ++ joined bs ≡ payload
        → Framing payload (
            head_frame p c sid (length (rlp.encode_int c) + length payload) b
            ∷ map (tail_frame p c sid) bs)

module _ (rlp : Rlp) (laws : IsRlp rlp) (p c : ℕ) (sid : Option ℕ) (ws : ℕ) where
  enc-normal : (b : Bytes) → enc_cmd_id rlp (normal_frame p c sid b) ≡ rlp.encode_int c
  unfolding enc_cmd_id
  enc-normal b = refl

  first_chunk-normal :
      (b : Bytes)
      → first_chunk rlp ws (normal_frame p c sid b)
        ≡ head_frame p c sid
            (length (rlp.encode_int c) + length b)
            (chunk_payload rlp ws (normal_frame p c sid b))
  unfolding first_chunk body_size enc_cmd_id
  first_chunk-normal b = refl

  -- If the window is of 64 bytes or more and a multiple of 16, the command id is below 256 and the
  -- constructor's checks of the protocol id, the sequence id and the window pass, then a payload of
  -- any size is cut in frames: they hold it in order, each fits the window, and there are several
  -- only if one would not fit.
  pub new_frames-Framing :
      (payload : Bytes)
      → arguments_fit rlp p c sid ws ≡ true
      → c < 256
      → 64 ≤ ws
      → ws % 16 ≡ 0
      → (fs : List Frame) × (new_frames rlp p c payload sid ws ≡ ok fs)
        × Framing rlp p c sid ws payload fs
  unfolding new_frames
  new_frames-Framing payload fit small room e =
      let f : Frame = normal_frame p c sid payload in
      let same : length (enc_cmd_id rlp f) ≡ length (rlp.encode_int c) =
        ap length (enc-normal payload) in
      let short = laws.length-encode_int c small in
      let rounds : length payload + 2 ≡ suc (length payload + 1) = omega arith in
      rw rounds (elim (Bool-cases (ltb ws (frame_size rlp f))) [
        | inl big ↦
            let over = ltb→lt _ _ big in
            let fits = first_chunk_fits rlp ws f room e (omega arith) over in
            let more = payload_pos rlp ws f room (omega arith) over in
            let (bs, made, joins, chunks) =
              tail_frames rlp p c sid ws fit room e (length payload + 1) (remain rlp ws f)
                (remain_pos rlp ws f more over) (omega (arith, length-remain rlp ws f)) in
            (
              head_frame p c sid (length (rlp.encode_int c) + length payload)
                    (chunk_payload rlp ws f)
                  ∷ map (tail_frame p c sid) bs,
              make_frames-split rlp p c sid ws (length payload + 1) payload false fit over
                  ∙ split_lem rlp ws f
                      (head_frame p c sid (length (rlp.encode_int c) + length payload)
                        (chunk_payload rlp ws f))
                      (map (tail_frame p c sid) bs) made (first_chunk-normal payload) fits,
              several (chunk_payload rlp ws f) bs (rw same at (rw frame_size_lem at over))
                  (room_at (chunk_payload rlp ws f) same (rw frame_size-first_chunk at fits)) chunks
                  (rw joins (remain_pos rlp ws f more over))
                  (rw joins (chunk-append-remain rlp ws f)),
            )
        | inr less ↦
            let under = ltb→le _ _ less in
            (
              f ∷ [],
              make_frames-whole rlp p c sid ws (length payload + 1) payload false fit under
                  ∙ whole_lem rlp ws f under,
              single (room_at payload same (rw frame_size_lem at under)),
            )
      ])
