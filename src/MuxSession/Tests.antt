-- ===== src/MuxSession/Tests.antt =====
-- A handshake between two ends with a toy cipher and toy keys.
use structured_p2p_overlay_n.Prelude.{
  ℕ, true, false, none, [], ◌∷◌, ◌++◌, drop, replicate, ok, refl, length-append,
}
use structured_p2p_overlay_n.Prelude.Bytes.{Bytes}
use structured_p2p_overlay_n.Rlpx.Session.{Ecc, RlpxSession, new_session}
use structured_p2p_overlay_n.Rlpx.Handshake.{Codec}
use structured_p2p_overlay_n.Rlpx.Handshake.Messages.{Parties}
use structured_p2p_overlay_n.Rlpx.Samples.{toy, SameCount, toy-IsCipher, length-pad_32}
use structured_p2p_overlay_n.MuxSession.Exchange.{Exchanged, handshake-Synced}

-- keys that agree with all others; a message is encrypted by 113 zeros in front of it
abbrev ecc : ℕ → Ecc
ecc n = record {
  raw_pubkey = replicate 64 n;
  is_valid_key = λ b. true;
  get_ecdh_key = λ b. ok (replicate 32 5);
  sign = λ b. ok (replicate 65 2);
  ecies_encrypt = λ b k m. ok (replicate 113 0 ++ b);
  ecies_decrypt = λ b m. ok (drop 113 b);
}

abbrev codec : Codec
codec = record {
  ecdsa_recover = λ b s. ok (replicate 64 3);
  decode_auth = λ b. ok none;
  decode_ack = λ b. ok none;
  encode_ack = λ k n v. [];
}

abbrev initiator : RlpxSession ℕ Bytes
initiator = new_session (ecc 1) true (ecc 3)

abbrev responder : RlpxSession ℕ Bytes
responder = new_session (ecc 2) false (ecc 4)

parties : Parties toy codec initiator responder
unfolding new_session
parties = record {
  initiates = refl;
  responds = refl;
  plain = refl;
  length-sha3 = length-pad_32;
  length-static = refl;
  length-ephemeral_s = refl;
  length-ephemeral_r = refl;
  s_knows_r = refl;
  r_knows_s = refl;
  s_valid = refl;
  r_knows_ephemeral = refl;
  s_knows_ephemeral = refl;
  token = replicate 32 5;
  length-token = refl;
  s_token = refl;
  r_token = refl;
  ecdhe = replicate 32 5;
  s_ecdhe = refl;
  r_ecdhe = refl;
  signs = λ b h. (replicate 65 2, refl, refl, refl);
  to_r = λ m shared. (replicate 113 0 ++ m, refl, length-append (replicate 113 0) m, refl);
  to_s = λ m shared. (replicate 113 0 ++ m, refl, length-append (replicate 113 0) m, refl);
}

handshake-Synced_example :
    Exchanged toy codec SameCount initiator responder
      (replicate 64 2)
      (replicate 32 6)
      (replicate 32 7)
      []
      (8 ∷ [])
      (9 ∷ [])
unfolding new_session
handshake-Synced_example =
    handshake-Synced toy codec initiator responder parties (replicate 32 6) (replicate 32 7) refl
      refl toy-IsCipher [] (8 ∷ []) (9 ∷ [])
