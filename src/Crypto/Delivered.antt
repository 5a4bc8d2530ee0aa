-- ===== src/Crypto/Delivered.antt =====
-- `ecies_decrypt` of pydevp2p/devp2p/crypto.py on what `ecies_encrypt` makes.
use structured_p2p_overlay_n.Prelude.{
  ok-injective, ◌==◌, assertion_error, ◌↔◌, ℕ, ◌+◌, ◌≡◌, refl, ap, sym, ◌∙◌, arith, [], ◌∷◌, ◌++◌,
  length, take, drop, true, ok, check, length-append, take-length-append, drop-length-append,
  append_assoc,
}
use structured_p2p_overlay_n.Prelude.Bytes.{Bytes, bytes_eq_self}
use structured_p2p_overlay_n.Crypto.Kdf.{ecies_kdf, length-ecies_kdf}
use structured_p2p_overlay_n.Crypto.Ecies.{
  Primitives, KeyPair, SharedKeys, shared_keys, ecies_tag, ecies_encrypt, ecies_decrypt, last_bytes,
  without_last,
}

-- What the hash, the cipher and the comparison promise.
pub record IsPrimitives (prim : Primitives) : Type 0 where
  pub length-sha256 : (b : Bytes) → length (prim.sha256 b) ≡ 32
  pub length-hmac_sha256 : (k b : Bytes) → length (prim.hmac_sha256 k b) ≡ 32
  pub length-encipher : (k iv b : Bytes) → length (prim.encipher k iv b) ≡ length b
  pub decipher-encipher : (k iv b : Bytes) → prim.decipher k iv (prim.encipher k iv b) ≡ b
  pub equals_iff : (a b : Bytes) → (prim.equals a b ≡ true) ↔ (a ≡ b)
  pub blocksize_lem : prim.blocksize ≡ 16

-- Two key pairs agree on a secret of 32 bytes, each with its private key and the other's public one.
pub record Agree (prim : Primitives) (a b : KeyPair) : Type 0 where
  pub length-pubkey : length a.raw_pubkey ≡ 64
  pub secret : Bytes
  pub length-secret : length secret ≡ 32
  pub sender :
      prim.raw_get_ecdh_key a.raw_privkey (take 32 b.raw_pubkey) (drop 32 b.raw_pubkey) ≡ ok secret
  pub receiver :
      prim.raw_get_ecdh_key b.raw_privkey (take 32 a.raw_pubkey) (drop 32 a.raw_pubkey) ≡ ok secret

module _ (prim : Primitives) (laws : IsPrimitives prim) where
  shared_keys_lem :
      (priv pub_key secret : Bytes)
      → prim.raw_get_ecdh_key priv (take 32 pub_key) (drop 32 pub_key) ≡ ok secret
      → length secret ≡ 32
      → (key : Bytes) × (ecies_kdf prim.sha256 secret 32 ≡ ok key)
        × (shared_keys prim priv pub_key
            ≡ ok (record { key_enc = take 16 key; key_mac = prim.sha256 (drop 16 key) }))
  unfolding shared_keys
  shared_keys_lem priv pub_key secret agreed sized =
      let (key, derived, key_length) = length-ecies_kdf prim.sha256 laws.length-sha256 secret 32 in
      (
        key,
        derived,
        ground (arith, agreed, sized, derived, key_length, laws.length-sha256 (drop 16 key)),
      )

equal_passes : (a b : ℕ) → a ≡ b → check (a == b) assertion_error ≡ ok tt
equal_passes a b e = ground arith

abbrev pub front : Bytes → Bytes → Bytes → Bytes
front p iv text = 4 ∷ (p ++ (iv ++ text))

-- the parts of a message: a key, an iv, a text and a tag
module _ (p iv text tag : Bytes) (p64 : length p ≡ 64) (iv16 : length iv ≡ 16)
    (tag32 : length tag ≡ 32) where
  pub length-front : length ((front p iv text) ++ tag) ≡ 113 + length text
  length-front = omega (
    arith,
    length-append (front p iv text) tag,
    length-append p (iv ++ text),
    length-append iv text,
    p64,
    iv16,
    tag32,
  )

  pub last_tag : last_bytes 32 ((front p iv text) ++ tag) ≡ tag
  last_tag =
      drop-length-append (front p iv text) tag _
        (omega (arith, length-append (front p iv text) tag, tag32))

  pub without_tag : without_last 32 ((front p iv text) ++ tag) ≡ (front p iv text)
  without_tag =
      take-length-append (front p iv text) tag _
        (omega (arith, length-append (front p iv text) tag, tag32))

  pub drop_key : drop 65 (front p iv text) ≡ iv ++ text
  drop_key = drop-length-append p (iv ++ text) 64 (sym p64)

  pub drop_iv : drop 81 (front p iv text) ≡ text
  drop_iv =
      ap (drop 80) (sym (append_assoc p iv text))
      ∙ drop-length-append (p ++ iv) text 80 (omega (arith, length-append p iv, p64, iv16))

  pub take_key : take 64 (drop 1 ((front p iv text) ++ tag)) ≡ p
  take_key =
      ap (take 64) (append_assoc p (iv ++ text) tag)
      ∙ take-length-append p ((iv ++ text) ++ tag) 64 (sym p64)

  pub take_iv : take 16 (drop 65 ((front p iv text) ++ tag)) ≡ iv
  take_iv =
      ap (λ z. take 16 (drop 64 z)) (append_assoc p (iv ++ text) tag)
      ∙ ap (take 16) (drop-length-append p ((iv ++ text) ++ tag) 64 (sym p64))
      ∙ ap (take 16) (append_assoc iv text tag)
      ∙ take-length-append iv (text ++ tag) 16 (sym iv16)

module _ (prim : Primitives) (laws : IsPrimitives prim) where
  pub decrypt_returns :
      (priv message shared iv text tag shared_mac_data : Bytes) (keys : SharedKeys)
      → take 1 message ≡ 4 ∷ []
      → take 64 (drop 1 message) ≡ shared
      → shared_keys prim priv shared ≡ ok keys
      → last_bytes 32 message ≡ tag
      → ecies_tag prim keys (drop 65 (without_last 32 message)) shared_mac_data ≡ tag
      → take 16 (drop 65 message) ≡ iv
      → drop 81 (without_last 32 message) ≡ text
      → length shared ≡ 64
      → length iv ≡ 16
      → length tag ≡ 32
      → length message ≡ 113 + length text
      → ecies_decrypt prim priv message shared_mac_data ≡ ok (prim.decipher keys.key_enc iv text)
  unfolding ecies_decrypt
  decrypt_returns priv message shared iv text tag shared_mac_data keys h k derived t m i c s16 i16
        t32 l =
      rw
        (
          h,
          bytes_eq_self (4 ∷ []),
          k,
          derived,
          t,
          equal_passes (length tag) 32 t32,
          m,
          (laws.equals_iff tag tag).1 refl,
          laws.blocksize_lem,
          i,
          c,
          equal_passes (length iv) 16 i16,
          equal_passes (1 + length shared + length iv + length text + length tag) (length message)
              (omega (arith, s16, i16, t32, l)),
        )
        refl

  encrypt_returns :
      (ephem : KeyPair) (iv message raw_pubkey shared_mac_data tag : Bytes) (keys : SharedKeys)
      → shared_keys prim ephem.raw_privkey raw_pubkey ≡ ok keys
      → length iv ≡ 16
      → ecies_tag prim keys
          (drop 65 (front ephem.raw_pubkey iv (prim.encipher keys.key_enc iv message)))
          shared_mac_data
        ≡ tag
      → length tag ≡ 32
      → length (front ephem.raw_pubkey iv (prim.encipher keys.key_enc iv message) ++ tag)
        ≡ 113 + length message
      → ecies_encrypt prim ephem iv message raw_pubkey shared_mac_data
        ≡ ok (front ephem.raw_pubkey iv (prim.encipher keys.key_enc iv message) ++ tag)
  unfolding ecies_encrypt
  encrypt_returns ephem iv message raw_pubkey shared_mac_data tag keys derived i16 made t32 l =
      rw
        (
          derived,
          equal_passes (length iv) 16 i16,
          equal_passes (length (prim.encipher keys.key_enc iv message)) (length message)
              (laws.length-encipher keys.key_enc iv message),
          made,
          equal_passes (length tag) 32 t32,
          equal_passes _ (113 + length message) l,
        )
        refl

  tag_length :
      (keys : SharedKeys) (body shared_mac_data : Bytes)
      → length (ecies_tag prim keys body shared_mac_data) ≡ 32
  unfolding ecies_tag
  tag_length keys body shared_mac_data =
      laws.length-hmac_sha256 keys.key_mac (body ++ shared_mac_data)

  -- What is encrypted with a random key pair, an iv of 16 bytes and the public key of the receiver,
  -- where the two pairs agree on a secret, is 113 bytes longer than the message, and the receiver
  -- decrypts it to the message, with the same shared mac data.
  pub ecies_decrypt-encrypt :
      (ephem receiver : KeyPair) (iv message shared_mac_data : Bytes)
      → length iv ≡ 16
      → Agree prim ephem receiver
      → (sent : Bytes) × (ecies_encrypt prim ephem iv message receiver.raw_pubkey shared_mac_data
          ≡ ok sent)
        × (length sent ≡ 113 + length message)
        × (ecies_decrypt prim receiver.raw_privkey sent shared_mac_data ≡ ok message)
  ecies_decrypt-encrypt ephem receiver iv message shared_mac_data i16 agree =
      let (key, derived, there) =
        shared_keys_lem prim laws ephem.raw_privkey receiver.raw_pubkey agree.secret agree.sender
          agree.length-secret in
      let (key', derived', here) =
        shared_keys_lem prim laws receiver.raw_privkey ephem.raw_pubkey agree.secret agree.receiver
          agree.length-secret in
      let keys : SharedKeys = record {
        key_enc = take 16 key;
        key_mac = prim.sha256 (drop 16 key);
      } in
      let p = ephem.raw_pubkey in
      let text = prim.encipher keys.key_enc iv message in
      let tag = ecies_tag prim keys (drop 65 (front p iv text)) shared_mac_data in
      let p64 = agree.length-pubkey in
      let t32 = tag_length keys (drop 65 (front p iv text)) shared_mac_data in
      let sized = length-front p iv text tag p64 i16 t32 in
      let longer = laws.length-encipher keys.key_enc iv message in
      let same : key' ≡ key = ok-injective (sym derived' ∙ derived) in
      (
        front p iv text ++ tag,
        encrypt_returns ephem iv message receiver.raw_pubkey shared_mac_data tag keys there i16 refl
            t32 (omega (arith, sized, longer)),
        omega (arith, sized, longer),
        decrypt_returns receiver.raw_privkey (front p iv text ++ tag) p iv text tag shared_mac_data
              keys refl (take_key p iv text tag p64 i16 t32)
              (here
                ∙ ap (λ z. ok (record { key_enc = take 16 z; key_mac = prim.sha256 (drop 16 z) }))
                    same)
              (last_tag p iv text tag p64 i16 t32)
              (ap (λ z. ecies_tag prim keys (drop 65 z) shared_mac_data)
                (without_tag p iv text tag p64 i16 t32))
              (take_iv p iv text tag p64 i16 t32)
              (ap (drop 81) (without_tag p iv text tag p64 i16 t32)
                ∙ drop_iv p iv text tag p64 i16 t32)
              p64 i16 t32 sized
            ∙ ap ok (laws.decipher-encipher keys.key_enc iv message),
      )
