-- ===== src/Multiplexer/Tests.antt =====
-- Runs of the multiplexer's theorems on a packet of 100 bytes and a window of 64.
use structured_p2p_overlay_n.Prelude.{
  ℕ, none, some, List, [], ◌∷◌, replicate, ok, err, ◌≡◌, refl, arith, assertion_error,
}
use structured_p2p_overlay_n.Prelude.Bytes.{Bytes}
use structured_p2p_overlay_n.Prelude.Dict.{dict_get}
use structured_p2p_overlay_n.Multiplexer.Frame.{Frame, new_frames, arguments_fit, sequence_id_fits}
use structured_p2p_overlay_n.Multiplexer.Frame.Chunks.{Framing, new_frames-Framing}
use structured_p2p_overlay_n.Multiplexer.Frame.Total.{new_frames-narrow}
use structured_p2p_overlay_n.Multiplexer.Cipher.{FrameCipher}
use structured_p2p_overlay_n.Multiplexer.Receive.{Buffers, found}
use structured_p2p_overlay_n.Multiplexer.Channel.{Plain, plain, Plain-IsChannel}
use structured_p2p_overlay_n.Multiplexer.Transfer.{Arrival}
use structured_p2p_overlay_n.Multiplexer.Transfer.Packets.{packet_of}
use structured_p2p_overlay_n.Multiplexer.Transfer.Delivered.{packet_arrives}
use structured_p2p_overlay_n.Multiplexer.Samples.{fixed, fixed-IsRlp}

abbrev payload : Bytes
payload = replicate 100 7

-- no multiplexer of the tests has a cipher
abbrev no_cipher : FrameCipher (Unit {0})
no_cipher = record {
  encrypt = λ h b s. (s, err assertion_error);
  decrypt_header = λ b s. (s, err assertion_error);
  decrypt_body = λ b n s. (s, err assertion_error);
}

-- the protocol 1 with an empty buffer
abbrev empty_buffers : List (ℕ × Buffers)
empty_buffers = (1, []) ∷ []

new_frames-Framing_example :
    (fs : List Frame) × (new_frames fixed 1 4 payload (some 3) 64 ≡ ok fs)
    × Framing fixed 1 4 (some 3) 64 payload fs
unfolding arguments_fit sequence_id_fits
new_frames-Framing_example =
    new_frames-Framing fixed fixed-IsRlp 1 4 (some 3) 64 payload refl (omega arith) (omega arith)
      refl

new_frames-narrow_example : new_frames fixed 1 4 payload (some 3) 48 ≡ err assertion_error
unfolding arguments_fit sequence_id_fits
new_frames-narrow_example =
    new_frames-narrow fixed fixed-IsRlp 1 4 (some 3) 48 payload refl (omega arith)

packet_arrives_example :
    (fs : List Frame) × (new_frames fixed 1 4 payload (some 3) 64 ≡ ok fs)
    × Arrival fixed no_cipher Plain fs empty_buffers empty_buffers
        (found (some (packet_of 1 4 payload)))
        none
        none
unfolding dict_get
packet_arrives_example =
    packet_arrives fixed fixed-IsRlp no_cipher (Plain-IsChannel fixed fixed-IsRlp no_cipher) 1 4 3
      64 payload empty_buffers [] none none (omega arith) (omega arith) (omega arith)
      (omega arith, refl, omega arith) (omega arith) refl refl plain
