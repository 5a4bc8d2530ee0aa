-- ===== src/Rlpx/Session.antt =====
-- Class `RLPxSession` of pydevp2p/devp2p/rlpxcipher.py: its state, and the frames it encrypts and
-- decrypts. The ciphers and hashes of the third-party packages are an interface.
use structured_p2p_overlay_n.Prelude.{
  ℕ, ◌+◌, ◌%◌, Bool, false, Option, none, some, [], ◌∷◌, ◌++◌, length, take, drop, leb, ◌==◌,
  bit_xor, if◌then◌else◌, Result, ok, err, assertion_error, authentication_error, format_error,
}
use structured_p2p_overlay_n.Prelude.Bytes.{Bytes, bytes_eq}
use structured_p2p_overlay_n.Prelude.Exec.{Exec, pure, lift, gets, assert, ◌>>=◌, ◌>>◌}
use structured_p2p_overlay_n.Multiplexer.Frame.{ceil16}
use structured_p2p_overlay_n.Multiplexer.Cipher.{FrameCipher, header_body_size}

-- `A` is the state of a `pyelliptic.Cipher` and `H` that of a Keccak hash; `aes_ecb` is
-- `AES.new(secret, AES.MODE_ECB).encrypt`.
pub record Primitives (A H : Type 0) : Type 0 where
  pub new_encryptor : Bytes → A
  pub new_decryptor : Bytes → A
  pub aes_encrypt : A → Bytes → A × Bytes
  pub aes_decrypt : A → Bytes → A × Bytes
  pub aes_ecb : Bytes → Bytes → Bytes
  pub new_hash : Bytes → H
  pub update : H → Bytes → H
  pub digest : H → Bytes
  pub sha3 : Bytes → Bytes

-- What `setup_cipher` sets.
pub record Keys (A H : Type 0) : Type 0 where
  pub token : Bytes
  pub aes_secret : Bytes
  pub mac_secret : Bytes
  pub aes_enc : A
  pub aes_dec : A
  pub egress_mac : H
  pub ingress_mac : H

-- An `ECCx` key pair, of crypto.py, as far as the session uses it.
pub record Ecc : Type 0 where
  pub raw_pubkey : Bytes
  pub is_valid_key : Bytes → Bool
  pub get_ecdh_key : Bytes → Result Bytes
  pub sign : Bytes → Result Bytes
  pub ecies_encrypt : Bytes → Bytes → Bytes → Result Bytes
  pub ecies_decrypt : Bytes → Bytes → Result Bytes

-- A session is ready when it has its keys.
pub record RlpxSession (A H : Type 0) : Type 0 where
  pub ecc : Ecc
  pub ephemeral_ecc : Ecc
  pub is_initiator : Bool
  pub remote_ephemeral_pubkey : Option Bytes
  pub initiator_nonce : Option Bytes
  pub responder_nonce : Option Bytes
  pub auth_init : Option Bytes
  pub auth_ack : Option Bytes
  pub remote_pubkey : Option Bytes
  pub remote_version : ℕ
  pub got_eip8_auth : Bool
  pub got_eip8_ack : Bool
  pub keys : Option (Keys A H)

unfoldable pub new_session : {A H : Type 0} → Ecc → Bool → Ecc → RlpxSession A H
new_session ecc is_initiator ephemeral_ecc = record {
  ecc = ecc;
  ephemeral_ecc = ephemeral_ecc;
  is_initiator = is_initiator;
  remote_ephemeral_pubkey = none;
  initiator_nonce = none;
  responder_nonce = none;
  auth_init = none;
  auth_ack = none;
  remote_pubkey = none;
  remote_version = 0;
  got_eip8_auth = false;
  got_eip8_ack = false;
  keys = none;
}

unfoldable pub xor_bytes : Bytes → Bytes → Bytes
xor_bytes [] ys = []
xor_bytes (x ∷ xs) [] = []
xor_bytes (x ∷ xs) (y ∷ ys) = bit_xor x y ∷ xor_bytes xs ys

unfoldable pub sxor : Bytes → Bytes → Result Bytes
sxor a b = if length a == length b then ok (xor_bytes a b) else err assertion_error

module _ {A H : Type 0} (prim : Primitives A H) where
  -- `mac(data)`, on one of the two hashes
  unfoldable pub mac : Bytes → Exec H Bytes
  mac b h = (prim.update h b, ok (prim.digest (prim.update h b)))

  -- `mac(sxor(self.mac_enc(mac()[:16]), x))[:16]`
  unfoldable pub chained_mac : Bytes → Bytes → Exec H Bytes
  unfolding ◌>>=◌ mac
  chained_mac mac_secret x = do
    seed ← mac []
    y ← lift (sxor (prim.aes_ecb mac_secret (take 16 seed)) x)
    m ← mac y
    pure (take 16 m)

  -- the mac of a frame's ciphertext
  unfoldable pub frame_mac : Bytes → Bytes → Exec H Bytes
  unfolding ◌>>=◌ mac chained_mac
  frame_mac mac_secret ciphertext = do
    fmac_seed ← mac ciphertext
    chained_mac mac_secret (take 16 fmac_seed)

module _ {A H : Type 0} where
  unfoldable pub on_egress : {B : Type 0} → Exec H B → Exec (Keys A H) B
  on_egress m k = (record k { egress_mac = (m k.egress_mac).0 }, (m k.egress_mac).1)

  unfoldable pub on_ingress : {B : Type 0} → Exec H B → Exec (Keys A H) B
  on_ingress m k = (record k { ingress_mac = (m k.ingress_mac).0 }, (m k.ingress_mac).1)

  module _ (prim : Primitives A H) where
    unfoldable pub aes_out : Bytes → Exec (Keys A H) Bytes
    aes_out b k = (
      record k { aes_enc = (prim.aes_encrypt k.aes_enc b).0 },
      ok ((prim.aes_encrypt k.aes_enc b).1),
    )

    unfoldable pub aes_in : Bytes → Exec (Keys A H) Bytes
    aes_in b k = (
      record k { aes_dec = (prim.aes_decrypt k.aes_dec b).0 },
      ok ((prim.aes_decrypt k.aes_dec b).1),
    )

    unfoldable pub encrypt_with : Bytes → Bytes → Exec (Keys A H) Bytes
    unfolding ◌>>=◌ assert aes_out on_egress
    encrypt_with header frame = do
      assert (length header == 16) assertion_error
      assert (length frame % 16 == 0) assertion_error
      secret ← gets (λ (k : Keys A H). k.mac_secret)
      header_ciphertext ← aes_out header
      assert (length header_ciphertext == 16) assertion_error
      header_mac ← on_egress (chained_mac prim secret header_ciphertext)
      frame_ciphertext ← aes_out frame
      assert (length frame_ciphertext == length frame) assertion_error
      tag ← on_egress (frame_mac prim secret frame_ciphertext)
      pure (header_ciphertext ++ (header_mac ++ (frame_ciphertext ++ tag)))

    unfoldable pub decrypt_header_with : Bytes → Exec (Keys A H) Bytes
    unfolding ◌>>=◌ assert aes_in on_ingress
    decrypt_header_with bytes = do
      assert (length bytes == 32) assertion_error
      secret ← gets (λ (k : Keys A H). k.mac_secret)
      expected ← on_ingress (chained_mac prim secret (take 16 bytes))
      assert (bytes_eq expected (take 16 (drop 16 bytes))) authentication_error
      aes_in (take 16 bytes)

    unfoldable pub decrypt_body_with : Bytes → ℕ → Exec (Keys A H) Bytes
    unfolding ◌>>=◌ assert aes_in on_ingress
    decrypt_body_with bytes body_size = do
      let read_size = ceil16 body_size
      assert (leb (read_size + 16) (length bytes)) format_error
      let tag = take 16 (drop read_size bytes)
      assert (length tag == 16) assertion_error
      secret ← gets (λ (k : Keys A H). k.mac_secret)
      expected ← on_ingress (frame_mac prim secret (take read_size bytes))
      assert (bytes_eq tag expected) authentication_error
      plain ← aes_in (take read_size bytes)
      pure (take body_size plain)

  -- A method asserts first that the session is ready.
  unfoldable pub when_ready : {B : Type 0} → Exec (Keys A H) B → Exec (RlpxSession A H) B
  when_ready m s = elim (s.keys) [
    | none ↦ (s, err assertion_error)
    | some k ↦ (record s { keys = some (m k).0 }, (m k).1)
  ]

  module _ (prim : Primitives A H) where
    unfoldable pub encrypt : Bytes → Bytes → Exec (RlpxSession A H) Bytes
    unfolding when_ready
    encrypt header frame = when_ready (encrypt_with prim header frame)

    unfoldable pub decrypt_header : Bytes → Exec (RlpxSession A H) Bytes
    unfolding when_ready
    decrypt_header bytes = when_ready (decrypt_header_with prim bytes)

    unfoldable pub decrypt_body : Bytes → ℕ → Exec (RlpxSession A H) Bytes
    unfolding when_ready
    decrypt_body bytes body_size = when_ready (decrypt_body_with prim bytes body_size)

    -- `decrypt`: the header, the body and the number of bytes that they took
    unfoldable pub decrypt : Bytes → Exec (RlpxSession A H) (Bytes × Bytes × ℕ)
    unfolding ◌>>=◌ assert decrypt_header decrypt_body
    decrypt bytes = do
      header ← decrypt_header (take 32 bytes)
      let body_size = header_body_size header
      assert (leb (32 + ceil16 body_size + 16) (length bytes)) format_error
      frame ← decrypt_body (drop 32 bytes) body_size
      pure (header, frame, 32 + ceil16 (length frame) + 16)

    -- The session as the cipher of a multiplexer.
    abbrev pub rlpx_cipher : FrameCipher (RlpxSession A H)
    rlpx_cipher = record {
      encrypt = encrypt;
      decrypt_header = decrypt_header;
      decrypt_body = decrypt_body;
    }
