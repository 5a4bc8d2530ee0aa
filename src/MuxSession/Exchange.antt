-- ===== src/MuxSession/Exchange.antt =====
-- The exchange of the messages of the handshake of pydevp2p/devp2p/muxsession.py between two ends.
use structured_p2p_overlay_n.Prelude.{◌≤◌, some, [], ◌∷◌, ◌++◌, length, ok, ◌≡◌, refl, ◌∙◌, arith}
use structured_p2p_overlay_n.Prelude.Bytes.{Bytes}
use structured_p2p_overlay_n.MuxSession.Steps.{open_session, acknowledge}
use structured_p2p_overlay_n.Rlpx.Session.{Primitives, RlpxSession, xor_bytes}
use structured_p2p_overlay_n.Rlpx.Frames.{IsCipher}
use structured_p2p_overlay_n.Rlpx.Channel.{Synced}
use structured_p2p_overlay_n.Rlpx.Handshake.{Codec, decode_auth_ack_message, setup_cipher, present}
use structured_p2p_overlay_n.Rlpx.Handshake.Messages.{
  Parties, auth_text, ack_text, length-auth_text, length-ack_text, length-xor_bytes,
}
use structured_p2p_overlay_n.Rlpx.Handshake.Steps.{
  create_auth_message_lem, encrypt_auth_message_lem, decode_authentication_lem, authenticated,
  acknowledged, create_auth_ack_message_lem, encrypt_auth_ack_message_lem,
  decode_auth_ack_message_lem,
}
use structured_p2p_overlay_n.Rlpx.Handshake.Agreement.{Seen, setup_cipher-Synced}

present_lem : (b : Bytes) → 1 ≤ length b → present (some b) ≡ ok b
unfolding present
present_lem [] h = let impossible : ⊥ = omega arith in absurd impossible
present_lem (x ∷ b) h = refl

-- What a handshake leaves: the auth message and the ack, the sessions of both ends with their keys.
pub record Exchanged {A H : Type 0} (prim : Primitives A H) (codec : Codec)
    (Paired : A → A → Type 0) (s r : RlpxSession A H)
    (remote initiator_nonce responder_nonce pad rest_s rest_r : Bytes) : Type 0 where
  pub auth : Bytes
  pub ack : Bytes
  pub opened : RlpxSession A H
  pub answered : RlpxSession A H
  pub concluded : RlpxSession A H
  pub opens : open_session prim codec remote initiator_nonce s ≡ (opened, ok auth)
  pub answers :
      acknowledge prim codec responder_nonce pad (auth ++ rest_r) r ≡ (answered, ok (ack, rest_r))
  pub concludes : decode_auth_ack_message prim codec (ack ++ rest_s) opened ≡ (concluded, ok rest_s)
  pub s_has_keys : (setup_cipher prim concluded).1 ≡ ok tt
  pub r_has_keys : (setup_cipher prim answered).1 ≡ ok tt
  pub to_r :
      Synced Paired (some (setup_cipher prim concluded).0) (some (setup_cipher prim answered).0)
  pub to_s :
      Synced Paired (some (setup_cipher prim answered).0) (some (setup_cipher prim concluded).0)

module _ {A H : Type 0} (prim : Primitives A H) (codec : Codec) (s r : RlpxSession A H)
    (p : Parties prim codec s r) (initiator_nonce responder_nonce : Bytes)
    (ni : length initiator_nonce ≡ 32) (nr : length responder_nonce ≡ 32) where
  abbrev digest : Bytes
  digest = prim.sha3 s.ephemeral_ecc.raw_pubkey

  -- the auth message and the signature in it
  record AuthSent : Type 0 where
    signature : Bytes
    auth : Bytes
    signed : s.ephemeral_ecc.sign (xor_bytes p.token initiator_nonce) ≡ ok signature
    length-signature : length signature ≡ 65
    recovered :
        codec.ecdsa_recover (xor_bytes p.token initiator_nonce) signature
        ≡ ok s.ephemeral_ecc.raw_pubkey
    sent :
        s.ecc.ecies_encrypt
          (auth_text signature digest s.ecc.raw_pubkey initiator_nonce)
          r.ecc.raw_pubkey
          []
        ≡ ok auth
    length-auth : length auth ≡ 307
    read :
        r.ecc.ecies_decrypt auth []
        ≡ ok (auth_text signature digest s.ecc.raw_pubkey initiator_nonce)

  auth_sent : AuthSent
  auth_sent =
      let mixed = length-xor_bytes p.token initiator_nonce (omega (arith, p.length-token, ni)) in
      let (signature, signed, s65, recovered) =
        p.signs (xor_bytes p.token initiator_nonce) (mixed ∙ p.length-token) in
      let (auth, sent, longer, read) =
        p.to_r (auth_text signature digest s.ecc.raw_pubkey initiator_nonce) [] in
      record {
        signature = signature;
        auth = auth;
        signed = signed;
        length-signature = s65;
        recovered = recovered;
        sent = sent;
        length-auth = omega (
          arith,
          longer,
          length-auth_text signature digest s.ecc.raw_pubkey initiator_nonce s65
              (p.length-sha3 s.ephemeral_ecc.raw_pubkey) p.length-static ni,
        );
        read = read;
      }

  -- the ack
  record AckSent : Type 0 where
    ack : Bytes
    sent :
        r.ecc.ecies_encrypt
          (ack_text r.ephemeral_ecc.raw_pubkey responder_nonce)
          s.ecc.raw_pubkey
          []
        ≡ ok ack
    length-ack : length ack ≡ 210
    read : s.ecc.ecies_decrypt ack [] ≡ ok (ack_text r.ephemeral_ecc.raw_pubkey responder_nonce)

  ack_sent : AckSent
  ack_sent =
      let (ack, sent, longer, read) =
        p.to_s (ack_text r.ephemeral_ecc.raw_pubkey responder_nonce) [] in
      record {
        ack = ack;
        sent = sent;
        length-ack = omega (
          arith,
          longer,
          length-ack_text r.ephemeral_ecc.raw_pubkey responder_nonce p.length-ephemeral_r nr,
        );
        read = read;
      }

  -- the sessions behind the auth message and behind the ack
  abbrev created : RlpxSession A H
  created = record s {
    remote_pubkey = some r.ecc.raw_pubkey;
    initiator_nonce = some initiator_nonce;
  }

  abbrev opened_by : AuthSent → RlpxSession A H
  opened_by a = record created { auth_init = some a.auth }

  abbrev accepted_by : AuthSent → RlpxSession A H
  accepted_by a =
      authenticated prim codec r a.auth s.ecc.raw_pubkey initiator_nonce s.ephemeral_ecc.raw_pubkey

  abbrev answered_by : AuthSent → AckSent → RlpxSession A H
  answered_by a k = record (accepted_by a) {
    responder_nonce = some responder_nonce;
    auth_ack = some k.ack;
  }

  abbrev concluded_by : AuthSent → AckSent → RlpxSession A H
  concluded_by a k =
      acknowledged prim codec (opened_by a) k.ack r.ephemeral_ecc.raw_pubkey responder_nonce

  opens_lem :
      (a : AuthSent)
      → open_session prim codec r.ecc.raw_pubkey initiator_nonce s ≡ (opened_by a, ok a.auth)
  unfolding open_session
  opens_lem a =
      rw
        (
          create_auth_message_lem prim codec s r.ecc.raw_pubkey initiator_nonce p.token a.signature
              p.initiates p.s_knows_r p.s_token p.length-token ni p.length-ephemeral_s p.s_valid
              a.signed a.length-signature (p.length-sha3 s.ephemeral_ecc.raw_pubkey)
              p.length-static,
          encrypt_auth_message_lem prim codec created
              (auth_text a.signature digest s.ecc.raw_pubkey initiator_nonce) r.ecc.raw_pubkey
              a.auth p.initiates refl a.sent a.length-auth,
        )
        refl

  answers_lem :
      (a : AuthSent) (k : AckSent) (pad rest : Bytes)
      → acknowledge prim codec responder_nonce pad (a.auth ++ rest) r
        ≡ (answered_by a k, ok (k.ack, rest))
  unfolding acknowledge
  answers_lem a k pad rest =
      rw
        (
          decode_authentication_lem prim codec r a.auth rest a.signature digest s.ecc.raw_pubkey
              initiator_nonce p.token s.ephemeral_ecc.raw_pubkey p.responds a.length-auth a.read
              a.length-signature (p.length-sha3 s.ephemeral_ecc.raw_pubkey) p.length-static ni
              p.r_knows_s p.r_token p.length-token a.recovered p.r_knows_ephemeral p.plain,
          create_auth_ack_message_lem prim codec (accepted_by a) responder_nonce pad p.responds
              p.plain p.length-ephemeral_r nr,
          encrypt_auth_ack_message_lem prim codec
              (record (accepted_by a) { responder_nonce = some responder_nonce })
              (ack_text r.ephemeral_ecc.raw_pubkey responder_nonce) s.ecc.raw_pubkey k.ack
              p.responds p.plain refl k.sent k.length-ack,
        )
        refl

  initiator-Seen :
      (a : AuthSent) (k : AckSent)
      → Seen (concluded_by a k) responder_nonce initiator_nonce a.auth k.ack p.ecdhe
  initiator-Seen a k = record {
    remote = r.ephemeral_ecc.raw_pubkey;
    has_responder_nonce = present_lem responder_nonce (omega (arith, nr));
    has_initiator_nonce = present_lem initiator_nonce (omega (arith, ni));
    has_auth_init = present_lem a.auth (omega (arith, a.length-auth));
    has_auth_ack = present_lem k.ack (omega (arith, k.length-ack));
    has_remote = present_lem r.ephemeral_ecc.raw_pubkey (omega (arith, p.length-ephemeral_r));
    valid_remote = p.s_knows_ephemeral;
    agrees = p.s_ecdhe;
  }

  responder-Seen :
      (a : AuthSent) (k : AckSent)
      → Seen (answered_by a k) responder_nonce initiator_nonce a.auth k.ack p.ecdhe
  responder-Seen a k = record {
    remote = s.ephemeral_ecc.raw_pubkey;
    has_responder_nonce = present_lem responder_nonce (omega (arith, nr));
    has_initiator_nonce = present_lem initiator_nonce (omega (arith, ni));
    has_auth_init = present_lem a.auth (omega (arith, a.length-auth));
    has_auth_ack = present_lem k.ack (omega (arith, k.length-ack));
    has_remote = present_lem s.ephemeral_ecc.raw_pubkey (omega (arith, p.length-ephemeral_s));
    valid_remote = p.r_knows_ephemeral;
    agrees = p.r_ecdhe;
  }

  -- Between an initiator and a responder whose keys agree, carry and sign, with nonces of 32 bytes,
  -- the auth message that the first one makes is answered by the second one with an ack that the
  -- first one accepts, each handing back whatever bytes follow the message; then both get their keys
  -- and are in sync, in both directions.
  pub handshake-Synced :
      {Paired : A → A → Type 0} (laws : IsCipher prim Paired) (pad rest_s rest_r : Bytes)
      → Exchanged prim codec Paired s r r.ecc.raw_pubkey initiator_nonce responder_nonce pad rest_s
          rest_r
  handshake-Synced laws pad rest_s rest_r =
      let a = auth_sent in
      let k = ack_sent in
      let (s_has_keys, r_has_keys, to_r, to_s) =
        setup_cipher-Synced prim laws p.length-sha3 (concluded_by a k) (answered_by a k)
          responder_nonce initiator_nonce a.auth k.ack p.ecdhe p.initiates p.responds nr ni
          (initiator-Seen a k) (responder-Seen a k) in
      record {
        auth = a.auth;
        ack = k.ack;
        opened = opened_by a;
        answered = answered_by a k;
        concluded = concluded_by a k;
        opens = opens_lem a;
        answers = answers_lem a k pad rest_r;
        concludes =
            decode_auth_ack_message_lem prim codec (opened_by a) k.ack rest_s
              r.ephemeral_ecc.raw_pubkey responder_nonce p.initiates k.length-ack k.read
              p.length-ephemeral_r nr p.s_knows_ephemeral;
        s_has_keys = s_has_keys;
        r_has_keys = r_has_keys;
        to_r = to_r;
        to_s = to_s;
      }
