-- ===== src/Crypto/Ecies.antt =====
-- `ecies_encrypt` and `ecies_decrypt` of class ECCx in pydevp2p/devp2p/crypto.py.
use structured_p2p_overlay_n.Prelude.{
  ℕ, ◌+◌, ◌-◌, [], ◌∷◌, ◌++◌, length, take, drop, Bool, ◌==◌, Result, ok, check, ◌>>=◌, ◌>>◌,
  assertion_error, runtime_error,
}
use structured_p2p_overlay_n.Prelude.Bytes.{Bytes, bytes_eq}
use structured_p2p_overlay_n.Crypto.Kdf.{ecies_kdf}

-- The calls of third-party packages: `raw_get_ecdh_key` of a private key and the two halves of a
-- public one, `ciphering` of a `pyelliptic.Cipher` that is made with mode 1 or 0 from a key and an
-- iv, `pyelliptic.equals`, and the block size of the cipher.
pub record Primitives : Type 0 where
  pub raw_get_ecdh_key : Bytes → Bytes → Bytes → Result Bytes
  pub sha256 : Bytes → Bytes
  pub hmac_sha256 : Bytes → Bytes → Bytes
  pub encipher : Bytes → Bytes → Bytes → Bytes
  pub decipher : Bytes → Bytes → Bytes → Bytes
  pub equals : Bytes → Bytes → Bool
  pub blocksize : ℕ

-- a private key with its public key
pub record KeyPair : Type 0 where
  pub raw_privkey : Bytes
  pub raw_pubkey : Bytes

-- the keys for the cipher and the mac
pub record SharedKeys : Type 0 where
  pub key_enc : Bytes
  pub key_mac : Bytes

-- `data[-n:]` and `data[:-n]`
abbrev pub last_bytes : ℕ → Bytes → Bytes
last_bytes n b = drop (length b - n) b

abbrev pub without_last : ℕ → Bytes → Bytes
without_last n b = take (length b - n) b

module _ (prim : Primitives) where
  -- the keys of a private key and a public one, which both methods derive alike
  unfoldable pub shared_keys : Bytes → Bytes → Result SharedKeys
  shared_keys raw_privkey raw_pubkey =
      prim.raw_get_ecdh_key raw_privkey (take 32 raw_pubkey) (drop 32 raw_pubkey)
      >>= λ key_material.
          check (length key_material == 32) assertion_error
          >> (ecies_kdf prim.sha256 key_material 32 >>= λ key.
              check (length key == 32) assertion_error
              >> (check (length (prim.sha256 (drop 16 key)) == 32) assertion_error
                  >> ok (record { key_enc = take 16 key; key_mac = prim.sha256 (drop 16 key) })))

  -- the tag of what follows the ephemeral public key
  unfoldable pub ecies_tag : SharedKeys → Bytes → Bytes → Bytes
  ecies_tag keys body shared_mac_data = prim.hmac_sha256 keys.key_mac (body ++ shared_mac_data)

  -- The ephemeral key pair and the iv are random.
  unfoldable pub ecies_encrypt : KeyPair → Bytes → Bytes → Bytes → Bytes → Result Bytes
  unfolding shared_keys ecies_tag
  ecies_encrypt ephem iv message raw_pubkey shared_mac_data =
      shared_keys ephem.raw_privkey raw_pubkey >>= λ keys.
      check (length iv == 16) assertion_error
      >> (let ciphertext = prim.encipher keys.key_enc iv message in
          check (length ciphertext == length message) assertion_error
          >> (let msg = 4 ∷ (ephem.raw_pubkey ++ (iv ++ ciphertext)) in
              let tag = ecies_tag keys (drop 65 msg) shared_mac_data in
              check (length tag == 32) assertion_error
              >> (check (length (msg ++ tag) == 113 + length message) assertion_error
                  >> ok (msg ++ tag))))

  unfoldable pub ecies_decrypt : Bytes → Bytes → Bytes → Result Bytes
  unfolding shared_keys ecies_tag
  ecies_decrypt raw_privkey message shared_mac_data =
      check (bytes_eq (take 1 message) (4 ∷ [])) runtime_error
      >> (let shared = take 64 (drop 1 message) in
          shared_keys raw_privkey shared >>= λ keys.
          let tag = last_bytes 32 message in
          check (length tag == 32) assertion_error
          >> (check
                (prim.equals (ecies_tag keys (drop 65 (without_last 32 message)) shared_mac_data)
                  tag)
                runtime_error
              >> (let iv = take prim.blocksize (drop 65 message) in
                  check (length iv == 16) assertion_error
                  >> (let ciphertext = drop (65 + prim.blocksize) (without_last 32 message) in
                      check
                        (1 + length shared + length iv + length ciphertext + length tag
                          == length message)
                        assertion_error
                      >> ok (prim.decipher keys.key_enc iv ciphertext)))))
