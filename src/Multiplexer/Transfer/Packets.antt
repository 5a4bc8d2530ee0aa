-- ===== src/Multiplexer/Transfer/Packets.antt =====
-- What the frames of one packet do to the receiver, pydevp2p/devp2p/multiplexer.py.
use structured_p2p_overlay_n.Prelude.{
  ℕ, ◌+◌, ◌^◌, ◌<◌, false, Option, none, some, List, [], ◌∷◌, ◌++◌, length, map, ok, ◌≡◌, refl, ap,
  ◌∙◌, arith, length-append, lt→ltb, All, drop-length-append, append_assoc, sym, append-nil,
}
use structured_p2p_overlay_n.Prelude.Bytes.{Bytes}
use structured_p2p_overlay_n.Prelude.Dict.{
  dict_get, dict_set, dict_set-set, dict_set-get, dict_del-set, dict_get-set_self,
}
use structured_p2p_overlay_n.Rlp.{Rlp, IsRlp}
use structured_p2p_overlay_n.Multiplexer.Frame.{Frame, header_list, enc_cmd_id}
use structured_p2p_overlay_n.Multiplexer.Frame.Chunks.{
  normal_frame, head_frame, tail_frame, joined, IsChunk, Framing, single, several,
}
use structured_p2p_overlay_n.Multiplexer.State.{Packet, Incomplete}
use structured_p2p_overlay_n.Multiplexer.Receive.{
  Buffers, read_header_data, accept, find_incomplete, begin_packet, begin_chunked, continue_packet,
  append_payload, found,
}
use structured_p2p_overlay_n.Multiplexer.Transfer.{receive_frame, receive_frames}

abbrev pub packet_of : ℕ → ℕ → Bytes → Packet
packet_of p c b = record { protocol_id = p; cmd_id = c; payload = b; prioritize = false }

-- a packet of which the bytes `b` have come, and `total` are to come in all
abbrev waiting_for : ℕ → ℕ → ℕ → Bytes → Incomplete
waiting_for p c total b = record { packet = packet_of p c b; total_payload_size = total }

pub receive_frames-cons :
    (rlp : Rlp) (f : Frame) (fs : List Frame) (d : List (ℕ × Buffers)) {d₁ d₂ : List (ℕ × Buffers)}
    {o : Option Packet} {ps : List Packet}
    → receive_frame rlp f d ≡ ok (d₁, o)
    → receive_frames rlp fs d₁ ≡ ok (d₂, ps)
    → receive_frames rlp (f ∷ fs) d ≡ ok (d₂, found o ++ ps)
unfolding receive_frames
receive_frames-cons rlp f fs d e₁ e₂ = ground arith

receive_frames-nil : (rlp : Rlp) (d : List (ℕ × Buffers)) → receive_frames rlp [] d ≡ ok (d, [])
unfolding receive_frames
receive_frames-nil rlp d = refl

found_none : (ps : List Packet) → found none ++ ps ≡ ps
unfolding found
found_none ps = refl

module _ (rlp : Rlp) (laws : IsRlp rlp) (p c s : ℕ) (p_fits : p < 2 ^ 16) (s_fits : s < 2 ^ 16)
    (c_fits : c < 256) (d : List (ℕ × Buffers)) (c₀ : Buffers)
    (known : dict_get p d ≡ some c₀) where
  enc : Bytes
  enc = rlp.encode_int c

  -- A frame that is not chunked is a packet.
  receive_normal :
      (b : Bytes)
      → dict_get s c₀ ≡ none
      → receive_frame rlp (normal_frame p c (some s) b) d ≡ ok (d, some (packet_of p c b))
  unfolding receive_frame header_list read_header_data accept find_incomplete begin_packet
      enc_cmd_id
  receive_normal b fresh = ground (
    arith,
    lt→ltb p (2 ^ 16) p_fits,
    lt→ltb s (2 ^ 16) s_fits,
    laws.consume-encode c b c_fits,
    drop-length-append (rlp.encode_int c) b (length (rlp.encode_int c)) refl,
    dict_set-get p c₀ d known,
  )

  receive_head :
      (total : ℕ) (b : Bytes)
      → dict_get s c₀ ≡ none
      → length b < total
      → length (rlp.encode_int c) + total < 2 ^ 32
      → receive_frame rlp (head_frame p c (some s) (length (rlp.encode_int c) + total) b) d
        ≡ ok (dict_set p (dict_set s (waiting_for p c total b) c₀) d, none)
  unfolding receive_frame header_list read_header_data accept find_incomplete begin_packet
      begin_chunked enc_cmd_id
  receive_head total b fresh less fits = ground (
    arith,
    lt→ltb p (2 ^ 16) p_fits,
    lt→ltb s (2 ^ 16) s_fits,
    lt→ltb (length (rlp.encode_int c) + total) (2 ^ 32) fits,
    laws.consume-encode c b c_fits,
    drop-length-append (rlp.encode_int c) b (length (rlp.encode_int c)) refl,
  )

  -- the buffers while the packet is coming
  abbrev during : ℕ → Bytes → List (ℕ × Buffers)
  during total acc = dict_set p (dict_set s (waiting_for p c total acc) c₀) d

  receive_more :
      (total : ℕ) (acc b : Bytes)
      → length acc + length b < total
      → receive_frame rlp (tail_frame p c (some s) b) (during total acc)
        ≡ ok (during total (acc ++ b), none)
  unfolding receive_frame header_list read_header_data accept find_incomplete continue_packet
      append_payload enc_cmd_id
  receive_more total acc b less = ground (
    arith,
    lt→ltb p (2 ^ 16) p_fits,
    lt→ltb s (2 ^ 16) s_fits,
    dict_get-set_self p (dict_set s (waiting_for p c total acc) c₀) d,
    dict_get-set_self s (waiting_for p c total acc) c₀,
    dict_set-set s (waiting_for p c total (acc ++ b)) (waiting_for p c total acc) c₀,
    dict_set-set p (dict_set s (waiting_for p c total (acc ++ b)) c₀)
        (dict_set s (waiting_for p c total acc) c₀) d,
  )

  receive_last :
      (total : ℕ) (acc b : Bytes)
      → dict_get s c₀ ≡ none
      → length acc + length b ≡ total
      → receive_frame rlp (tail_frame p c (some s) b) (during total acc)
        ≡ ok (d, some (packet_of p c (acc ++ b)))
  unfolding receive_frame header_list read_header_data accept find_incomplete continue_packet
      append_payload enc_cmd_id
  receive_last total acc b fresh all = ground (
    arith,
    lt→ltb p (2 ^ 16) p_fits,
    lt→ltb s (2 ^ 16) s_fits,
    dict_get-set_self p (dict_set s (waiting_for p c total acc) c₀) d,
    dict_get-set_self s (waiting_for p c total acc) c₀,
    dict_del-set s (waiting_for p c total acc) c₀ fresh,
    dict_set-set p c₀ (dict_set s (waiting_for p c total acc) c₀) d,
    dict_set-get p c₀ d known,
  )

  receive_tails :
      (total : ℕ) (bs : List Bytes) (acc : Bytes)
      → dict_get s c₀ ≡ none
      → All (λ (b : Bytes). 0 < length b) bs
      → 0 < length (joined bs)
      → length acc + length (joined bs) ≡ total
      → receive_frames rlp (map (tail_frame p c (some s)) bs) (during total acc)
        ≡ ok (d, found (some (packet_of p c (acc ++ joined bs))))
  receive_tails total [] acc fresh full more all = absurd (omega arith)
  receive_tails total (b ∷ []) acc fresh full more all =
      receive_frames-cons rlp (tail_frame p c (some s) b) [] (during total acc)
        (receive_last total acc b fresh (omega (arith, ap length (append-nil b))))
        (receive_frames-nil rlp d)
      ∙ ap (λ z. ok (d, z))
          (append-nil (found (some (packet_of p c (acc ++ b))))
            ∙ ap (λ z. found (some (packet_of p c (acc ++ z)))) (sym (append-nil b)))
  receive_tails total (b ∷ (b' ∷ bs)) acc fresh full more all =
      receive_frames-cons rlp (tail_frame p c (some s) b) (map (tail_frame p c (some s)) (b' ∷ bs))
        (during total acc)
        (receive_more total acc b (
          omega (arith, full.1.0, length-append b (b' ++ joined bs), length-append b' (joined bs))))
        (receive_tails total (b' ∷ bs) (acc ++ b) fresh full.1
          (omega (arith, full.1.0, length-append b' (joined bs)))
          (omega (arith, length-append acc b, length-append b (b' ++ joined bs))))
      ∙ ap (λ z. ok (d, z))
          (found_none (found (some (packet_of p c ((acc ++ b) ++ (b' ++ joined bs)))))
            ∙ ap (λ z. found (some (packet_of p c z))) (append_assoc acc b (b' ++ joined bs)))

  chunks_full :
      (ws : ℕ) (bs : List Bytes) → All (IsChunk ws) bs → All (λ (b : Bytes). 0 < length b) bs
  chunks_full ws [] h = tt
  chunks_full ws (b ∷ bs) h = (h.0.0, chunks_full ws bs h.1)

  -- The frames of a packet complete it, and leave the buffers as they were.
  pub receive-Framing :
      (ws : ℕ) (payload : Bytes) {fs : List Frame}
      → dict_get s c₀ ≡ none
      → length (rlp.encode_int c) + length payload < 2 ^ 32
      → Framing rlp p c (some s) ws payload fs
      → receive_frames rlp fs d ≡ ok (d, found (some (packet_of p c payload)))
  receive-Framing ws payload fresh fits (single room) =
      receive_frames-cons rlp (normal_frame p c (some s) payload) [] d
        (receive_normal payload fresh) (receive_frames-nil rlp d)
      ∙ ap (λ z. ok (d, z)) (append-nil (found (some (packet_of p c payload))))
  receive-Framing ws payload fresh fits (several b bs over room chunks more same) =
      receive_frames-cons rlp
        (head_frame p c (some s) (length (rlp.encode_int c) + length payload) b)
        (map (tail_frame p c (some s)) bs) d
        (receive_head (length payload) b fresh
          (omega (arith, ap length same, length-append b (joined bs))) fits)
        (receive_tails (length payload) bs b fresh (chunks_full ws bs chunks) more
          (omega (arith, ap length same, length-append b (joined bs))))
      ∙ ap (λ z. ok (d, z))
          (found_none (found (some (packet_of p c (b ++ joined bs))))
            ∙ ap (λ z. found (some (packet_of p c z))) same)
