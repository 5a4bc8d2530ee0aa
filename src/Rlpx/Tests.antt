-- ===== src/Rlpx/Tests.antt =====
-- Runs of the theorems on sessions over a toy cipher that adds a running number to each byte.
use structured_p2p_overlay_n.Prelude.{
  ℕ, ◌≡◌, ◌≢◌, ◌⊎◌, ◌++◌, ap, Bool, true, false, none, some, [], ◌∷◌, take, drop, replicate, ok,
  err, refl, arith, authentication_error,
}
use structured_p2p_overlay_n.Prelude.Bytes.{Bytes}
use structured_p2p_overlay_n.Multiplexer.Frame.{
  Frame, ceil16, sequence_id_fits, header_list, body_size, enc_cmd_id,
}
use structured_p2p_overlay_n.Multiplexer.Frame.Chunks.{normal_frame}
use structured_p2p_overlay_n.Multiplexer.Frame.Layout.{IsSendable, header_bytes}
use structured_p2p_overlay_n.Multiplexer.Channel.{Delivery}
use structured_p2p_overlay_n.Multiplexer.Samples.{fixed, fixed-IsRlp}
use structured_p2p_overlay_n.Rlpx.Samples.{toy, SameCount, toy-IsCipher}
use structured_p2p_overlay_n.Rlpx.Session.{
  Keys, Ecc, RlpxSession, rlpx_cipher, decrypt_header_with, decrypt_body_with,
}
use structured_p2p_overlay_n.Rlpx.Frames.{sealed, encrypt_with_lem}
use structured_p2p_overlay_n.Rlpx.Tampered.{decrypt_header-tampered, decrypt_body-tampered}
use structured_p2p_overlay_n.Rlpx.Channel.{Synced, synced}
use structured_p2p_overlay_n.Rlpx.Wire.{rlpx_delivers}

-- a key pair that agrees with every other on the same secret
abbrev toy_ecc : Ecc
toy_ecc = record {
  raw_pubkey = replicate 64 1;
  is_valid_key = λ b. true;
  get_ecdh_key = λ b. ok (replicate 32 5);
  sign = λ b. ok (replicate 65 2);
  ecies_encrypt = λ b k m. ok b;
  ecies_decrypt = λ b m. ok b;
}

-- an end that has seen the messages of a handshake
abbrev seen_end : Bool → RlpxSession ℕ Bytes
seen_end b = record {
  ecc = toy_ecc;
  ephemeral_ecc = toy_ecc;
  is_initiator = b;
  remote_ephemeral_pubkey = some (replicate 64 1);
  initiator_nonce = some (replicate 32 3);
  responder_nonce = some (replicate 32 4);
  auth_init = some (1 ∷ 2 ∷ []);
  auth_ack = some (3 ∷ []);
  remote_pubkey = none;
  remote_version = 4;
  got_eip8_auth = false;
  got_eip8_ack = false;
  keys = none;
}

abbrev keys : Keys ℕ Bytes
keys = record {
  token = [];
  aes_secret = [];
  mac_secret = 1 ∷ [];
  aes_enc = 0;
  aes_dec = 0;
  egress_mac = 6 ∷ [];
  ingress_mac = 6 ∷ [];
}

-- a session that is ready
abbrev ready_end : RlpxSession ℕ Bytes
ready_end = record (seen_end true) { keys = some keys }

abbrev hello : Frame
hello = normal_frame 0 1 (some 0) (9 ∷ 8 ∷ 7 ∷ [])

hello-IsSendable : IsSendable fixed hello (0 ∷ 0 ∷ [])
unfolding header_list sequence_id_fits body_size enc_cmd_id
hello-IsSendable = record {
  protocol_fits = omega arith;
  sequence_fits = refl;
  listed = refl;
  small = (omega arith, omega arith);
  size_fits = omega arith;
}

rlpx_delivers_example :
    Delivery fixed
      (rlpx_cipher toy)
      (Synced SameCount)
      hello
      (header_bytes fixed (body_size fixed hello) (0 ∷ 0 ∷ []))
      (some ready_end)
      (some ready_end)
rlpx_delivers_example =
    rlpx_delivers toy toy-IsCipher fixed fixed-IsRlp hello (0 ∷ 0 ∷ []) (some ready_end)
      (some ready_end) hello-IsSendable refl
      (synced ready_end ready_end keys keys refl refl
        (record { secrets = refl; macs = refl; streams = refl }))

-- a frame header and a frame as they are, and as they are sent
abbrev header_block : Bytes
header_block = replicate 16 1

abbrev frame_block : Bytes
frame_block = replicate 16 2

abbrev sent_bytes : Bytes
sent_bytes = sealed toy keys header_block frame_block

-- a tag that another put in place of the sender's
abbrev other_tag : Bytes
other_tag = replicate 16 9

decrypt_header-tampered_example :
    ((other_tag ≡ take 16 (drop 16 sent_bytes))
      × ((decrypt_header_with toy (take 16 sent_bytes ++ other_tag) keys).1 ≡ ok header_block))
    ⊎ ((other_tag ≢ take 16 (drop 16 sent_bytes))
        × ((decrypt_header_with toy (take 16 sent_bytes ++ other_tag) keys).1
            ≡ err authentication_error)
        × ((decrypt_header_with toy (take 16 sent_bytes ++ other_tag) keys).0.aes_dec
            ≡ keys.aes_dec))
decrypt_header-tampered_example =
    decrypt_header-tampered toy toy-IsCipher keys keys
      (record { secrets = refl; macs = refl; streams = refl }) header_block frame_block sent_bytes
      other_tag refl refl refl
      (ap (λ z. z.1) (encrypt_with_lem toy toy-IsCipher header_block frame_block keys refl refl))

-- a body of 12 bytes, padded to 16, and the receiver behind its header
abbrev body_text : Bytes
body_text = take (ceil16 12) (drop 32 sent_bytes)

abbrev body_end : Bytes
body_end = take 16 (drop (ceil16 12) (drop 32 sent_bytes))

abbrev receiver : Keys ℕ Bytes
receiver = (decrypt_header_with toy (take 32 sent_bytes) keys).0

decrypt_body-tampered_example :
    ((other_tag ≡ body_end)
      × ((decrypt_body_with toy (body_text ++ other_tag) 12 receiver).1 ≡ ok (take 12 frame_block)))
    ⊎ ((other_tag ≢ body_end)
        × ((decrypt_body_with toy (body_text ++ other_tag) 12 receiver).1
            ≡ err authentication_error)
        × ((decrypt_body_with toy (body_text ++ other_tag) 12 receiver).0.aes_dec
            ≡ receiver.aes_dec))
unfolding ceil16
decrypt_body-tampered_example =
    decrypt_body-tampered toy toy-IsCipher keys keys
      (record { secrets = refl; macs = refl; streams = refl }) header_block frame_block sent_bytes
      other_tag 12 refl refl refl
      (ap (λ z. z.1) (encrypt_with_lem toy toy-IsCipher header_block frame_block keys refl refl))
