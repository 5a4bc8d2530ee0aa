-- ===== src/Rlpx/Handshake.antt =====
-- The handshake of class `RLPxSession`, pydevp2p/devp2p/rlpxcipher.py: the auth and ack messages and
-- the derivation of the keys. Random nonces and padding are arguments.
pub mod Messages
pub mod Steps
pub mod Agreement
use structured_p2p_overlay_n.Prelude.{
  ℕ, ◌+◌, Bool, true, false, not, Option, none, some, List, [], ◌∷◌, ◌++◌, length, take, drop, ltb,
  leb, ◌==◌, if◌then◌else◌, Fault, Result, ok, err, of_option, assertion_error,
  authentication_error, format_error, invalid_key_error, runtime_error, value_error,
}
use structured_p2p_overlay_n.Prelude
use structured_p2p_overlay_n.Prelude.Bytes.{Bytes, to_be, from_be}
use structured_p2p_overlay_n.Prelude.Exec.{Exec, pure, lift, gets, modify, assert, ◌>>=◌, ◌>>◌}
use structured_p2p_overlay_n.Rlpx.Session.{Primitives, Keys, Ecc, RlpxSession, sxor}

-- The third-party calls of the handshake: `ecdsa_recover`, and the EIP-8 lists of rlp. A list with
-- fewer values than the session asserts is `none`.
pub record Codec : Type 0 where
  pub ecdsa_recover : Bytes → Bytes → Result Bytes
  pub decode_auth : Bytes → Result (Option (Bytes × Bytes × Bytes × ℕ))
  pub decode_ack : Bytes → Result (Option (Bytes × Bytes × ℕ))
  pub encode_ack : Bytes → Bytes → ℕ → Bytes

-- what an auth message says: its size, signature, public key, nonce and version
pub record Auth : Type 0 where
  pub size : ℕ
  pub signature : Bytes
  pub pubkey : Bytes
  pub nonce : Bytes
  pub version : ℕ

-- what an ack says
pub record Ack : Type 0 where
  pub size : ℕ
  pub eph_pubkey : Bytes
  pub nonce : Bytes
  pub version : ℕ

abbrev pub ecies_encrypt_overhead_length : ℕ
ecies_encrypt_overhead_length = 113

abbrev pub supported_rlpx_version : ℕ
supported_rlpx_version = 4

-- `except RuntimeError as e: raise AuthenticationError(e)`
unfoldable pub as_authentication : {B : Type 0} → Result B → Result B
as_authentication (ok b) = ok b
as_authentication (err runtime_error) = err authentication_error
as_authentication (err e) = err e

-- `try: plain except AuthenticationError: eip8`, and whether the second was used
unfoldable pub plain_or_eip8 : {B : Type 0} → Result B → Result B → Result (B × Bool)
plain_or_eip8 (ok b) other = ok (b, false)
plain_or_eip8 (err authentication_error) (ok b) = ok (b, true)
plain_or_eip8 (err authentication_error) (err e) = err e
plain_or_eip8 (err e) other = err e

-- `assert x`, where `x` is none or an empty string
unfoldable pub present : Option Bytes → Result Bytes
present none = err assertion_error
present (some []) = err assertion_error
present (some (x ∷ xs)) = ok (x ∷ xs)

-- the size that the first two bytes of an EIP-8 message give
unfoldable pub eip8_size : Bytes → ℕ
eip8_size ciphertext = from_be 0 (take 2 ciphertext) + 2

module _ (codec : Codec) (ecc : Ecc) where
  unfoldable pub decode_auth_plain : Bytes → Result Auth
  decode_auth_plain ciphertext =
      let decrypted = as_authentication (ecc.ecies_decrypt (take 307 ciphertext) []) in
      Prelude.◌>>=◌ decrypted (λ message.
        Prelude.◌>>◌ (Prelude.check (length message == 194) assertion_error) (
          Prelude.◌>>◌
            (Prelude.check (ecc.is_valid_key (take 64 (drop 97 message))) invalid_key_error)
            (Prelude.◌>>◌ (Prelude.check (from_be 0 (drop 193 message) == 0) assertion_error) (
              ok (record {
                size = 307;
                signature = take 65 message;
                pubkey = take 64 (drop 97 message);
                nonce = take 32 (drop 161 message);
                version = 4;
              })))))

  unfoldable pub decode_auth_eip8 : Bytes → Result Auth
  decode_auth_eip8 ciphertext =
      let size = eip8_size ciphertext in
      Prelude.◌>>◌ (Prelude.check (leb size (length ciphertext)) format_error) (
        Prelude.◌>>=◌
          (as_authentication
            (ecc.ecies_decrypt (drop 2 (take size ciphertext)) (take 2 ciphertext)))
          (λ message. Prelude.◌>>=◌ (codec.decode_auth message) (λ values.
            Prelude.◌>>=◌ (of_option assertion_error values) (λ v. ok (record {
              size = size;
              signature = v.0;
              pubkey = v.1;
              nonce = v.2;
              version = v.3;
            })))))

  unfoldable pub decode_ack_plain : Bytes → Result Ack
  decode_ack_plain ciphertext =
      Prelude.◌>>=◌ (as_authentication (ecc.ecies_decrypt (take 210 ciphertext) [])) (λ message.
        Prelude.◌>>◌ (Prelude.check (length message == 97) assertion_error) (
          Prelude.◌>>◌ (Prelude.check (from_be 0 (drop 96 message) == 0) assertion_error) (
            ok (record {
              size = 210;
              eph_pubkey = take 64 message;
              nonce = take 32 (drop 64 message);
              version = 4;
            }))))

  unfoldable pub decode_ack_eip8 : Bytes → Result Ack
  decode_ack_eip8 ciphertext =
      let size = eip8_size ciphertext in
      Prelude.◌>>◌ (Prelude.check (length ciphertext == size) assertion_error) (
        Prelude.◌>>=◌
          (as_authentication
            (ecc.ecies_decrypt (drop 2 (take size ciphertext)) (take 2 ciphertext)))
          (λ message. Prelude.◌>>=◌ (codec.decode_ack message) (λ values.
            Prelude.◌>>=◌ (of_option assertion_error values)
              (λ v. ok (record { size = size; eph_pubkey = v.0; nonce = v.1; version = v.2 })))))

module _ {A H : Type 0} (prim : Primitives A H) (codec : Codec) where
  unfoldable pub create_auth_message : Bytes → Bytes → Exec (RlpxSession A H) Bytes
  unfolding ◌>>=◌ assert
  create_auth_message remote_pubkey nonce = do
    s ← gets (λ (s : RlpxSession A H). s)
    assert s.is_initiator assertion_error
    assert (s.ecc.is_valid_key remote_pubkey) invalid_key_error
    modify (λ (s : RlpxSession A H). record s { remote_pubkey = some remote_pubkey })
    token ← lift (s.ecc.get_ecdh_key remote_pubkey)
    modify (λ (s : RlpxSession A H). record s { initiator_nonce = some nonce })
    assert (length nonce == 32) assertion_error
    token_xor_nonce ← lift (sxor token nonce)
    assert (length token_xor_nonce == 32) assertion_error
    let ephemeral_pubkey = s.ephemeral_ecc.raw_pubkey
    assert (length ephemeral_pubkey == 64) assertion_error
    assert (s.ecc.is_valid_key ephemeral_pubkey) invalid_key_error
    signature ← lift (s.ephemeral_ecc.sign token_xor_nonce)
    assert (length signature == 65) assertion_error
    let message =
        signature ++ (prim.sha3 ephemeral_pubkey ++ (s.ecc.raw_pubkey ++ (nonce ++ 0 ∷ [])))
    assert (length message == 194) assertion_error
    pure message

  unfoldable pub encrypt_auth_message : Bytes → Exec (RlpxSession A H) Bytes
  unfolding ◌>>=◌ assert
  encrypt_auth_message auth_message = do
    s ← gets (λ (s : RlpxSession A H). s)
    assert s.is_initiator assertion_error
    remote ← lift (of_option value_error s.remote_pubkey)
    auth ← lift (s.ecc.ecies_encrypt auth_message remote [])
    modify (λ (s : RlpxSession A H). record s { auth_init = some auth })
    assert (length auth == 307) assertion_error
    pure auth

  unfoldable pub decode_authentication : Bytes → Exec (RlpxSession A H) Bytes
  unfolding ◌>>=◌ assert
  decode_authentication ciphertext = do
    s ← gets (λ (s : RlpxSession A H). s)
    assert (not s.is_initiator) assertion_error
    assert (leb 307 (length ciphertext)) format_error
    result ← lift (
        plain_or_eip8 (decode_auth_plain codec s.ecc ciphertext)
          (decode_auth_eip8 codec s.ecc ciphertext))
    let auth = result.0
    modify (λ (s : RlpxSession A H). record s {
      got_eip8_auth = if result.1 then true else s.got_eip8_auth;
      auth_init = some (take auth.size ciphertext);
    })
    token ← lift (s.ecc.get_ecdh_key auth.pubkey)
    signed ← lift (sxor token auth.nonce)
    ephemeral ← lift (codec.ecdsa_recover signed auth.signature)
    modify (λ (s : RlpxSession A H). record s { remote_ephemeral_pubkey = some ephemeral })
    assert (s.ecc.is_valid_key ephemeral) invalid_key_error
    modify (λ (s : RlpxSession A H). record s {
      initiator_nonce = some auth.nonce;
      remote_pubkey = some auth.pubkey;
      remote_version = auth.version;
    })
    pure (drop auth.size ciphertext)

  unfoldable pub create_eip8_auth_ack_message : Bytes → Bytes → ℕ → Bytes → Bytes
  create_eip8_auth_ack_message ephemeral_pubkey nonce version pad =
      codec.encode_ack ephemeral_pubkey nonce version ++ pad

  unfoldable pub create_auth_ack_message : Bytes → Bytes → Exec (RlpxSession A H) Bytes
  unfolding ◌>>=◌ assert
  create_auth_ack_message nonce pad = do
    s ← gets (λ (s : RlpxSession A H). s)
    assert (not s.is_initiator) assertion_error
    let ephemeral_pubkey = s.ephemeral_ecc.raw_pubkey
    modify (λ (s : RlpxSession A H). record s { responder_nonce = some nonce })
    let long = create_eip8_auth_ack_message ephemeral_pubkey nonce supported_rlpx_version pad
    let short = ephemeral_pubkey ++ (nonce ++ 0 ∷ [])
    assert (if s.got_eip8_auth then ltb 97 (length long) else length short == 97) assertion_error
    pure (if s.got_eip8_auth then long else short)

  unfoldable pub encrypt_auth_ack_message : Bytes → Exec (RlpxSession A H) Bytes
  unfolding ◌>>=◌ assert
  encrypt_auth_ack_message ack_message = do
    s ← gets (λ (s : RlpxSession A H). s)
    assert (not s.is_initiator) assertion_error
    remote ← lift (of_option value_error s.remote_pubkey)
    let prefix =
        if s.got_eip8_auth then to_be 2 (length ack_message + ecies_encrypt_overhead_length) else []
    ciphertext ← lift (s.ecc.ecies_encrypt ack_message remote prefix)
    modify (λ (s : RlpxSession A H). record s { auth_ack = some (prefix ++ ciphertext) })
    assert (if s.got_eip8_auth then true else length ciphertext == 210) assertion_error
    pure (prefix ++ ciphertext)

  unfoldable pub decode_auth_ack_message : Bytes → Exec (RlpxSession A H) Bytes
  unfolding ◌>>=◌ assert
  decode_auth_ack_message ciphertext = do
    s ← gets (λ (s : RlpxSession A H). s)
    assert s.is_initiator assertion_error
    assert (leb 210 (length ciphertext)) assertion_error
    result ← lift (
        plain_or_eip8 (decode_ack_plain codec s.ecc ciphertext)
          (decode_ack_eip8 codec s.ecc ciphertext))
    let ack = result.0
    modify (λ (s : RlpxSession A H). record s {
      got_eip8_ack = if result.1 then true else s.got_eip8_ack;
      auth_ack = some (take ack.size ciphertext);
      remote_ephemeral_pubkey = some (take 64 ack.eph_pubkey);
      responder_nonce = some ack.nonce;
      remote_version = ack.version;
    })
    assert (s.ecc.is_valid_key (take 64 ack.eph_pubkey)) invalid_key_error
    pure (drop ack.size ciphertext)

module _ {A H : Type 0} (prim : Primitives A H) where
  -- the keys that a shared secret, the nonces and the two messages give
  unfoldable pub derive_keys : Bool → Bytes → Bytes → Bytes → Bytes → Bytes → Result (Keys A H)
  derive_keys is_initiator ecdhe responder_nonce initiator_nonce auth_init auth_ack =
      let shared_secret = prim.sha3 (ecdhe ++ prim.sha3 (responder_nonce ++ initiator_nonce)) in
      let aes_secret = prim.sha3 (ecdhe ++ shared_secret) in
      let mac_secret = prim.sha3 (ecdhe ++ aes_secret) in
      Prelude.◌>>=◌ (sxor mac_secret responder_nonce) (λ seed1.
        Prelude.◌>>=◌ (sxor mac_secret initiator_nonce) (λ seed2.
          let mac1 = prim.new_hash (seed1 ++ auth_init) in
          let mac2 = prim.new_hash (seed2 ++ auth_ack) in
          ok (record {
            token = prim.sha3 shared_secret;
            aes_secret = aes_secret;
            mac_secret = mac_secret;
            aes_enc = prim.new_encryptor aes_secret;
            aes_dec = prim.new_decryptor aes_secret;
            egress_mac = if is_initiator then mac1 else mac2;
            ingress_mac = if is_initiator then mac2 else mac1;
          })))

  unfoldable pub setup_cipher : Exec (RlpxSession A H) (Unit {0})
  unfolding ◌>>=◌ assert
  setup_cipher = do
    s ← gets (λ (s : RlpxSession A H). s)
    responder_nonce ← lift (present s.responder_nonce)
    initiator_nonce ← lift (present s.initiator_nonce)
    auth_init ← lift (present s.auth_init)
    auth_ack ← lift (present s.auth_ack)
    remote ← lift (present s.remote_ephemeral_pubkey)
    assert (s.ecc.is_valid_key remote) invalid_key_error
    ecdhe ← lift (s.ephemeral_ecc.get_ecdh_key remote)
    keys ←
        lift (derive_keys s.is_initiator ecdhe responder_nonce initiator_nonce auth_init auth_ack)
    modify (λ (s : RlpxSession A H). record s { keys = some keys })
