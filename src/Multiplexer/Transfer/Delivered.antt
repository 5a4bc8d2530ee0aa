-- ===== src/Multiplexer/Transfer/Delivered.antt =====
-- A packet from one multiplexer to another, pydevp2p/devp2p/multiplexer.py.
use structured_p2p_overlay_n.Prelude.{
  ℕ, ◌+◌, ◌%◌, ◌^◌, ◌≤◌, ◌<◌, true, Option, none, some, List, [], ◌∷◌, length, map, ok, ◌≡◌, refl,
  arith, lt→ltb, All,
}
use structured_p2p_overlay_n.Prelude.Bytes.{Bytes}
use structured_p2p_overlay_n.Prelude.Dict.{dict_get}
use structured_p2p_overlay_n.Rlp.{Rlp, IsRlp}
use structured_p2p_overlay_n.Multiplexer.Frame.{
  Frame, header_list, enc_cmd_id, body_size, sequence_id_fits, arguments_fit, new_frames,
}
use structured_p2p_overlay_n.Multiplexer.Frame.Chunks.{
  normal_frame, head_frame, tail_frame, Fits, IsChunk, Framing, single, several, ceil16_bounds,
  new_frames-Framing,
}
use structured_p2p_overlay_n.Multiplexer.Cipher.{FrameCipher}
use structured_p2p_overlay_n.Multiplexer.Receive.{Buffers, found}
use structured_p2p_overlay_n.Multiplexer.Channel.{IsChannel}
use structured_p2p_overlay_n.Multiplexer.Transfer.{IsReady, Arrival, frames_arrive}
use structured_p2p_overlay_n.Multiplexer.Transfer.Packets.{packet_of, receive-Framing}

module _ (rlp : Rlp) (p c s ws : ℕ) (p_fits : p < 2 ^ 16) (s_fits : s < 2 ^ 16)
    (small : ws < 2 ^ 24) where
  normal-IsReady :
      (b : Bytes)
      → Fits ws (length (rlp.encode_int c)) b
      → IsReady rlp (normal_frame p c (some s) b)
  unfolding header_list sequence_id_fits body_size enc_cmd_id
  normal-IsReady b room = record {
    listed = p ∷ s ∷ [];
    sendable = record {
      protocol_fits = p_fits;
      sequence_fits = lt→ltb s (2 ^ 16) s_fits;
      listed = refl;
      small = (p_fits, s_fits);
      size_fits = omega (arith, ceil16_bounds (length (rlp.encode_int c) + length b));
    };
    fresh = refl;
  }

  head-IsReady :
      (total : ℕ) (b : Bytes)
      → total < 2 ^ 32
      → Fits ws (length (rlp.encode_int c)) b
      → IsReady rlp (head_frame p c (some s) total b)
  unfolding header_list sequence_id_fits body_size enc_cmd_id
  head-IsReady total b fits room = record {
    listed = p ∷ s ∷ total ∷ [];
    sendable = record {
      protocol_fits = p_fits;
      sequence_fits = lt→ltb s (2 ^ 16) s_fits;
      listed = refl;
      small = (p_fits, s_fits, fits);
      size_fits = omega (arith, ceil16_bounds (length (rlp.encode_int c) + length b));
    };
    fresh = refl;
  }

  tails-IsReady :
      (bs : List Bytes) → All (IsChunk ws) bs → All (IsReady rlp) (map (tail_frame p c (some s)) bs)
  unfolding header_list sequence_id_fits body_size enc_cmd_id
  tails-IsReady [] h = tt
  tails-IsReady (b ∷ bs) h = (
    record {
      listed = p ∷ s ∷ [];
      sendable = record {
        protocol_fits = p_fits;
        sequence_fits = lt→ltb s (2 ^ 16) s_fits;
        listed = refl;
        small = (p_fits, s_fits);
        size_fits = omega (arith, h.0.1, ceil16_bounds (0 + length b));
      };
      fresh = refl;
    },
    tails-IsReady bs h.1,
  )

  pub Framing-IsReady :
      (payload : Bytes) {fs : List Frame}
      → length (rlp.encode_int c) + length payload < 2 ^ 32
      → Framing rlp p c (some s) ws payload fs
      → All (IsReady rlp) fs
  Framing-IsReady payload fits (single room) = (normal-IsReady payload room, tt)
  Framing-IsReady payload fits (several b bs over room chunks more same) = (
    head-IsReady (length (rlp.encode_int c) + length payload) b fits room,
    tails-IsReady bs chunks,
  )

  fitting : c < 256 → ws % 16 ≡ 0 → arguments_fit rlp p c (some s) ws ≡ true
  unfolding arguments_fit sequence_id_fits
  fitting c_fits even = ground arith

module _ (rlp : Rlp) (laws : IsRlp rlp) {K : Type 0} (cipher : FrameCipher K)
    {Sync : Option K → Option K → Type 0} (channel : IsChannel rlp cipher Sync) where
  -- A packet whose ids and size fit is cut in frames for a window of at least 64 bytes, and the bytes
  -- that the sender makes of these frames are read back by a receiver in sync: it yields the packet,
  -- unless the payload is empty, keeps no part of it in its buffers, goes on with whatever bytes
  -- follow, and both ciphers stay in sync.
  pub packet_arrives :
      (p c s ws : ℕ) (payload : Bytes) (d : List (ℕ × Buffers)) (c₀ : Buffers)
      (sender receiver : Option K)
      → p < 2 ^ 16
      → s < 2 ^ 16
      → c < 256
      → (64 ≤ ws) × (ws % 16 ≡ 0) × (ws < 2 ^ 24)
      → length (rlp.encode_int c) + length payload < 2 ^ 32
      → dict_get p d ≡ some c₀
      → dict_get s c₀ ≡ none
      → Sync sender receiver
      → (fs : List Frame) × (new_frames rlp p c payload (some s) ws ≡ ok fs)
        × Arrival rlp cipher Sync fs d d (found (some (packet_of p c payload))) sender receiver
  packet_arrives p c s ws payload d c₀ sender receiver pf sf cf w fits known fresh sync =
      let (fs, made, framing) =
        new_frames-Framing rlp laws p c (some s) ws payload (fitting rlp p c s ws pf sf w.2 cf w.1)
          cf w.0 w.1 in
      (
        fs,
        made,
        frames_arrive rlp laws cipher channel fs d d (found (some (packet_of p c payload))) sender
            receiver (Framing-IsReady rlp p c s ws pf sf w.2 payload fits framing) sync
            (receive-Framing rlp laws p c s pf sf cf d c₀ known ws payload fresh fits framing),
      )
