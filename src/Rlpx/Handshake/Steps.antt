-- ===== src/Rlpx/Handshake/Steps.antt =====
-- The steps of a handshake without EIP-8, pydevp2p/devp2p/rlpxcipher.py: what each leaves in the
-- session, given what its calls return.
use structured_p2p_overlay_n.Prelude.{
  le→leb, append-nil, ap₂, true, false, some, [], ◌++◌, length, take, drop, ok, ◌≡◌, refl, sym, ap,
  ◌∙◌, arith, leb, length-append, take-length-append, drop-length-append,
}
use structured_p2p_overlay_n.Prelude.Bytes.{Bytes, from_be}
use structured_p2p_overlay_n.Rlpx.Session.{Primitives, Ecc, RlpxSession, sxor, xor_bytes}
use structured_p2p_overlay_n.Rlpx.Handshake.{
  Codec, Auth, Ack, create_auth_message, encrypt_auth_message, decode_authentication,
  decode_auth_plain, decode_auth_eip8, plain_or_eip8, as_authentication, create_auth_ack_message,
  encrypt_auth_ack_message, decode_auth_ack_message, decode_ack_plain, decode_ack_eip8,
}
use structured_p2p_overlay_n.Rlpx.Handshake.Messages.{
  ack_text, length-ack_text, ack_pubkey, ack_nonce, ack_flag, auth_text, length-xor_bytes,
  length-auth_text, auth_signature, auth_pubkey, auth_nonce, auth_flag,
}

sxor_lem : (a b : Bytes) → length a ≡ length b → sxor a b ≡ ok (xor_bytes a b)
unfolding sxor
sxor_lem a b h = ground arith

module _ {A H : Type 0} (prim : Primitives A H) (codec : Codec) where
  pub create_auth_message_lem :
      (s : RlpxSession A H) (remote nonce token signature : Bytes)
      → s.is_initiator ≡ true
      → s.ecc.is_valid_key remote ≡ true
      → s.ecc.get_ecdh_key remote ≡ ok token
      → length token ≡ 32
      → length nonce ≡ 32
      → length s.ephemeral_ecc.raw_pubkey ≡ 64
      → s.ecc.is_valid_key s.ephemeral_ecc.raw_pubkey ≡ true
      → s.ephemeral_ecc.sign (xor_bytes token nonce) ≡ ok signature
      → length signature ≡ 65
      → length (prim.sha3 s.ephemeral_ecc.raw_pubkey) ≡ 32
      → length s.ecc.raw_pubkey ≡ 64
      → create_auth_message prim codec remote nonce s ≡ (
        record s { remote_pubkey = some remote; initiator_nonce = some nonce },
        ok (auth_text signature (prim.sha3 s.ephemeral_ecc.raw_pubkey) s.ecc.raw_pubkey nonce),
      )
  unfolding create_auth_message
  create_auth_message_lem s remote nonce token signature i v t t32 n32 e64 ev sg s65 h32 p64 =
      ground (
        arith,
        sxor_lem token nonce (omega (arith, t32, n32)),
        length-xor_bytes token nonce (omega (arith, t32, n32)),
        length-auth_text signature (prim.sha3 s.ephemeral_ecc.raw_pubkey) s.ecc.raw_pubkey nonce s65
            h32 p64 n32,
      )

  pub encrypt_auth_message_lem :
      (s : RlpxSession A H) (text remote sent : Bytes)
      → s.is_initiator ≡ true
      → s.remote_pubkey ≡ some remote
      → s.ecc.ecies_encrypt text remote [] ≡ ok sent
      → length sent ≡ 307
      → encrypt_auth_message prim codec text s ≡ (record s { auth_init = some sent }, ok sent)
  unfolding encrypt_auth_message
  encrypt_auth_message_lem s text remote sent i r e l = ground arith

  decode_auth_plain_lem :
      (ecc : Ecc) (sent signature digest pubkey nonce : Bytes)
      → ecc.ecies_decrypt (take 307 sent) [] ≡ ok (auth_text signature digest pubkey nonce)
      → length signature ≡ 65
      → length digest ≡ 32
      → length pubkey ≡ 64
      → length nonce ≡ 32
      → ecc.is_valid_key pubkey ≡ true
      → decode_auth_plain codec ecc sent
        ≡ ok (record {
          size = 307;
          signature = signature;
          pubkey = pubkey;
          nonce = nonce;
          version = 4;
        })
  unfolding decode_auth_plain as_authentication
  decode_auth_plain_lem ecc sent signature digest pubkey nonce d s65 d32 p64 n32 v =
      rw
        (
          d,
          length-auth_text signature digest pubkey nonce s65 d32 p64 n32,
          auth_pubkey signature digest pubkey nonce s65 d32 p64 n32,
          v,
          auth_flag signature digest pubkey nonce s65 d32 p64 n32,
          auth_signature signature digest pubkey nonce s65 d32 p64 n32,
          auth_nonce signature digest pubkey nonce s65 d32 p64 n32,
        )
        (unfold from_be in refl)

  -- The session of a responder behind an auth message.
  abbrev pub authenticated : RlpxSession A H → Bytes → Bytes → Bytes → Bytes → RlpxSession A H
  authenticated r sent pubkey nonce ephemeral = record r {
    auth_init = some sent;
    remote_ephemeral_pubkey = some ephemeral;
    initiator_nonce = some nonce;
    remote_pubkey = some pubkey;
    remote_version = 4;
  }

  accepted_lem :
      (r : RlpxSession A H) (ciphertext signed token ephemeral : Bytes) (auth : Auth)
      → r.is_initiator ≡ false
      → leb 307 (length ciphertext) ≡ true
      → plain_or_eip8
          (decode_auth_plain codec r.ecc ciphertext)
          (decode_auth_eip8 codec r.ecc ciphertext)
        ≡ ok (auth, false)
      → r.ecc.get_ecdh_key auth.pubkey ≡ ok token
      → sxor token auth.nonce ≡ ok signed
      → codec.ecdsa_recover signed auth.signature ≡ ok ephemeral
      → r.ecc.is_valid_key ephemeral ≡ true
      → decode_authentication prim codec ciphertext r ≡ (
        record r {
          auth_init = some (take auth.size ciphertext);
          remote_ephemeral_pubkey = some ephemeral;
          initiator_nonce = some auth.nonce;
          remote_pubkey = some auth.pubkey;
          remote_version = auth.version;
        },
        ok (drop auth.size ciphertext),
      )
  unfolding decode_authentication
  accepted_lem r ciphertext signed token ephemeral auth i long decoded t x rec e =
      rw (i, long, decoded, t, x, rec, e) refl

  pub decode_authentication_lem :
      (r : RlpxSession A H) (sent rest signature digest pubkey nonce token ephemeral : Bytes)
      → r.is_initiator ≡ false
      → length sent ≡ 307
      → r.ecc.ecies_decrypt sent [] ≡ ok (auth_text signature digest pubkey nonce)
      → length signature ≡ 65
      → length digest ≡ 32
      → length pubkey ≡ 64
      → length nonce ≡ 32
      → r.ecc.is_valid_key pubkey ≡ true
      → r.ecc.get_ecdh_key pubkey ≡ ok token
      → length token ≡ 32
      → codec.ecdsa_recover (xor_bytes token nonce) signature ≡ ok ephemeral
      → r.ecc.is_valid_key ephemeral ≡ true
      → r.got_eip8_auth ≡ false
      → decode_authentication prim codec (sent ++ rest) r
        ≡ (authenticated r sent pubkey nonce ephemeral, ok rest)
  unfolding plain_or_eip8
  decode_authentication_lem r sent rest signature digest pubkey nonce token ephemeral i l d s65 d32
        p64 n32 v t t32 rec e plain =
      let front = take-length-append sent rest 307 (sym l) in
      let auth : Auth = record {
        size = 307;
        signature = signature;
        pubkey = pubkey;
        nonce = nonce;
        version = 4;
      } in
      let decoded =
        decode_auth_plain_lem r.ecc (sent ++ rest) signature digest pubkey nonce
          (ap (λ z. r.ecc.ecies_decrypt z []) front ∙ d) s65 d32 p64 n32 v in
      accepted_lem r (sent ++ rest) (xor_bytes token nonce) token ephemeral auth i
        (le→leb 307 (length (sent ++ rest)) (omega (arith, length-append sent rest, l)))
        (ap (λ z. plain_or_eip8 z (decode_auth_eip8 codec r.ecc (sent ++ rest))) decoded) t
        (sxor_lem token nonce (omega (arith, t32, n32))) rec e
      ∙ ap₂ (λ x y. (authenticated r x pubkey nonce ephemeral, ok y)) front
          (drop-length-append sent rest 307 (sym l))

  pub create_auth_ack_message_lem :
      (r : RlpxSession A H) (nonce pad : Bytes)
      → r.is_initiator ≡ false
      → r.got_eip8_auth ≡ false
      → length r.ephemeral_ecc.raw_pubkey ≡ 64
      → length nonce ≡ 32
      → create_auth_ack_message prim codec nonce pad r ≡ (
        record r { responder_nonce = some nonce },
        ok (ack_text r.ephemeral_ecc.raw_pubkey nonce),
      )
  unfolding create_auth_ack_message
  create_auth_ack_message_lem r nonce pad i plain p64 n32 =
      ground (arith, length-ack_text r.ephemeral_ecc.raw_pubkey nonce p64 n32)

  pub encrypt_auth_ack_message_lem :
      (r : RlpxSession A H) (text remote sent : Bytes)
      → r.is_initiator ≡ false
      → r.got_eip8_auth ≡ false
      → r.remote_pubkey ≡ some remote
      → r.ecc.ecies_encrypt text remote [] ≡ ok sent
      → length sent ≡ 210
      → encrypt_auth_ack_message prim codec text r ≡ (record r { auth_ack = some sent }, ok sent)
  unfolding encrypt_auth_ack_message
  encrypt_auth_ack_message_lem r text remote sent i plain p e l = ground arith

  decode_ack_plain_lem :
      (ecc : Ecc) (sent pubkey nonce : Bytes)
      → ecc.ecies_decrypt (take 210 sent) [] ≡ ok (ack_text pubkey nonce)
      → length pubkey ≡ 64
      → length nonce ≡ 32
      → decode_ack_plain codec ecc sent
        ≡ ok (record { size = 210; eph_pubkey = pubkey; nonce = nonce; version = 4 })
  unfolding decode_ack_plain as_authentication
  decode_ack_plain_lem ecc sent pubkey nonce d p64 n32 =
      rw
        (
          d,
          length-ack_text pubkey nonce p64 n32,
          ack_flag pubkey nonce p64 n32,
          ack_pubkey pubkey nonce p64 n32,
          ack_nonce pubkey nonce p64 n32,
        )
        (unfold from_be in refl)

  -- The session of an initiator behind an ack.
  abbrev pub acknowledged : RlpxSession A H → Bytes → Bytes → Bytes → RlpxSession A H
  acknowledged s sent ephemeral nonce = record s {
    auth_ack = some sent;
    remote_ephemeral_pubkey = some ephemeral;
    responder_nonce = some nonce;
    remote_version = 4;
  }

  acknowledged_lem :
      (s : RlpxSession A H) (ciphertext : Bytes) (ack : Ack)
      → s.is_initiator ≡ true
      → leb 210 (length ciphertext) ≡ true
      → plain_or_eip8
          (decode_ack_plain codec s.ecc ciphertext)
          (decode_ack_eip8 codec s.ecc ciphertext)
        ≡ ok (ack, false)
      → s.ecc.is_valid_key (take 64 ack.eph_pubkey) ≡ true
      → decode_auth_ack_message prim codec ciphertext s ≡ (
        record s {
          auth_ack = some (take ack.size ciphertext);
          remote_ephemeral_pubkey = some (take 64 ack.eph_pubkey);
          responder_nonce = some ack.nonce;
          remote_version = ack.version;
        },
        ok (drop ack.size ciphertext),
      )
  unfolding decode_auth_ack_message
  acknowledged_lem s ciphertext ack i long decoded v = rw (i, long, decoded, v) refl

  pub decode_auth_ack_message_lem :
      (s : RlpxSession A H) (sent rest pubkey nonce : Bytes)
      → s.is_initiator ≡ true
      → length sent ≡ 210
      → s.ecc.ecies_decrypt sent [] ≡ ok (ack_text pubkey nonce)
      → length pubkey ≡ 64
      → length nonce ≡ 32
      → s.ecc.is_valid_key pubkey ≡ true
      → decode_auth_ack_message prim codec (sent ++ rest) s
        ≡ (acknowledged s sent pubkey nonce, ok rest)
  unfolding plain_or_eip8
  decode_auth_ack_message_lem s sent rest pubkey nonce i l d p64 n32 v =
      let front = take-length-append sent rest 210 (sym l) in
      let whole : take 64 pubkey ≡ pubkey =
        ap (take 64) (sym (append-nil pubkey)) ∙ take-length-append pubkey [] 64 (sym p64) in
      let ack : Ack = record { size = 210; eph_pubkey = pubkey; nonce = nonce; version = 4 } in
      let decoded =
        decode_ack_plain_lem s.ecc (sent ++ rest) pubkey nonce
          (ap (λ z. s.ecc.ecies_decrypt z []) front ∙ d) p64 n32 in
      acknowledged_lem s (sent ++ rest) ack i
        (le→leb 210 (length (sent ++ rest)) (omega (arith, length-append sent rest, l)))
        (ap (λ z. plain_or_eip8 z (decode_ack_eip8 codec s.ecc (sent ++ rest))) decoded)
        (ap s.ecc.is_valid_key whole ∙ v)
      ∙ ap (λ x. (acknowledged s (take 210 (sent ++ rest)) x nonce, ok (drop 210 (sent ++ rest))))
          whole
      ∙ ap₂ (λ x y. (acknowledged s x pubkey nonce, ok y)) front
          (drop-length-append sent rest 210 (sym l))
