-- ===== src/Crypto/Keys.antt =====
-- Class ECCx and the signatures of pydevp2p/devp2p/crypto.py.
use structured_p2p_overlay_n.Prelude.{
  sym, subst, ap₂, ◌∙◌, ◌++◌, take-append-drop, Result-cases, is_ok, is_err, ℕ, ◌↔◌, ◌≡◌, ap, List,
  [], ◌∷◌, length, take, drop, Bool, true, false, not, ◌&&◌, ◌==◌, Option, none, some, Result, ok,
  err, check, ◌>>=◌, ◌>>◌, if◌then◌else◌, assertion_error, bare_exception, out_of_fuel, arith,
}
use structured_p2p_overlay_n.Prelude.Bytes.{Bytes, bytes_eq, bytes_eq_self, bytes_eq→eq}
use structured_p2p_overlay_n.Crypto.Ecies.{Primitives, KeyPair, ecies_encrypt, ecies_decrypt}
use structured_p2p_overlay_n.Rlpx.Session.{Ecc}

-- The calls of coincurve, pyelliptic and bitcoin: `sign_recoverable` of a private key,
-- `PublicKey.from_signature_and_message(...).format(compressed=False)`, `raw_check_key` with no
-- private key, the public key of a private one, and whether `get_privkey_format` knows the format.
pub record Curve : Type 0 where
  pub sign_recoverable : Bytes → Bytes → Result Bytes
  pub public_key_of : Bytes → Bytes → Result Bytes
  pub raw_check_key : Bytes → Bytes → Result ℕ
  pub privtopub : Bytes → Result Bytes
  pub has_privkey_format : Bytes → Bool

-- what a round of `pyelliptic.ECC.__init__` leaves in the object
pub record Candidate : Type 0 where
  pub raw_privkey : Option Bytes
  pub raw_pubkey : Bytes

unfoldable pub decode_pubkey : Bytes → Result (Bytes × Bytes)
decode_pubkey raw_pubkey =
    check (length raw_pubkey == 64) assertion_error >> ok (take 32 raw_pubkey, drop 32 raw_pubkey)

unfoldable pub get_ecdh_key : Primitives → Bytes → Bytes → Result Bytes
unfolding decode_pubkey
get_ecdh_key prim raw_privkey raw_pubkey = decode_pubkey raw_pubkey >>= λ xy.
    prim.raw_get_ecdh_key raw_privkey xy.0 xy.1 >>= λ key.
    check (length key == 32) assertion_error >> ok key

module _ (curve : Curve) where
  -- `is_valid_key` with a public key alone; whatever is raised makes the key invalid.
  unfoldable pub is_valid_key : Bytes → Bool
  is_valid_key raw_pubkey =
      elim (check (length raw_pubkey == 64) assertion_error
        >> curve.raw_check_key (take 32 raw_pubkey) (drop 32 raw_pubkey)) [
          | ok failed ↦ failed == 0
          | err e ↦ false
        ]

  unfoldable pub ecdsa_sign : Bytes → Bytes → Result Bytes
  ecdsa_sign msghash privkey = curve.sign_recoverable privkey msghash

  unfoldable pub ecdsa_verify : Bytes → Bytes → Bytes → Result Bool
  ecdsa_verify pubkey signature message =
      check (length pubkey == 64) assertion_error
      >> (curve.public_key_of signature message >>= λ pk. ok (bytes_eq pk (4 ∷ pubkey)))

  unfoldable pub ecdsa_recover : Bytes → Bytes → Result Bytes
  ecdsa_recover message signature =
      check (length signature == 65) assertion_error
      >> (curve.public_key_of signature message >>= λ pk. ok (drop 1 pk))

  unfoldable pub privtopub : Bytes → Result Bytes
  privtopub raw_privkey = curve.privtopub raw_privkey >>= λ raw_pubkey.
      check (length raw_pubkey == 64) assertion_error >> ok raw_pubkey

  -- `ECCx.sign` and `ECCx.verify`
  unfoldable pub sign : KeyPair → Bytes → Result Bytes
  unfolding ecdsa_sign
  sign pair message = ecdsa_sign message pair.raw_privkey >>= λ signature.
      check (length signature == 65) assertion_error >> ok signature

  unfoldable pub verify : KeyPair → Bytes → Bytes → Result Bool
  unfolding ecdsa_verify
  verify pair signature message =
      check (length signature == 65) assertion_error
      >> ecdsa_verify pair.raw_pubkey signature message

  unfoldable pub is_usable : Candidate → Bool
  is_usable c =
      length c.raw_pubkey == 64
      && elim (c.raw_privkey) [ none ↦ true | some priv ↦ curve.has_privkey_format priv ]

  -- a private key that is there and has not 32 bytes
  unfoldable pub is_odd : Candidate → Bool
  is_odd c = elim (c.raw_privkey) [ none ↦ false | some priv ↦ not (length priv == 32) ]

  -- `while True` of `ECCx.__init__`, with what its rounds make; `given`: a key was given.
  unfoldable pub init_loop : Bool → List Candidate → Result Candidate
  unfolding is_usable is_odd
  init_loop given [] = err out_of_fuel
  init_loop given (c ∷ cs) =
      let again = init_loop given cs in
      if is_odd c
      then again
      else if is_usable c
      then ok c
      else if given
      then err bare_exception
      else again

-- The public key of an object, and its methods, as the session of rlpxcipher.py uses them. The key
-- pair and the iv are the random ones of `ecies_encrypt`.
abbrev pub eccx : Primitives → Curve → KeyPair → KeyPair → Bytes → Ecc
eccx prim curve pair ephem iv = record {
  raw_pubkey = pair.raw_pubkey;
  is_valid_key = is_valid_key curve;
  get_ecdh_key = get_ecdh_key prim pair.raw_privkey;
  sign = sign curve pair;
  ecies_encrypt = ecies_encrypt prim ephem iv;
  ecies_decrypt = ecies_decrypt prim pair.raw_privkey;
}

formatted_iff :
    (pk pubkey : Bytes)
    → take 1 pk ≡ 4 ∷ []
    → (bytes_eq pk (4 ∷ pubkey) ≡ true) ↔ (drop 1 pk ≡ pubkey)
formatted_iff pk pubkey h = (
  λ same. ap (drop 1) (bytes_eq→eq pk (4 ∷ pubkey) same),
  λ rest.
      subst (λ z. bytes_eq z (4 ∷ pubkey) ≡ true)
        (sym (ap₂ (λ x y. x ++ y) h rest) ∙ take-append-drop 1 pk) (bytes_eq_self (4 ∷ pubkey)),
)

module _ (curve : Curve) where
  -- A signature of 65 bytes is verified for exactly the public key of 64 bytes that is recovered
  -- from it, if recovered keys are formatted with the byte 4 in front.
  pub ecdsa_verify-recover :
      (pubkey signature message : Bytes)
      → length pubkey ≡ 64
      → length signature ≡ 65
      → ((pk : Bytes) → curve.public_key_of signature message ≡ ok pk → take 1 pk ≡ 4 ∷ [])
      → (ecdsa_verify curve pubkey signature message ≡ ok true)
        ↔ (ecdsa_recover curve message signature ≡ ok pubkey)
  unfolding ecdsa_verify ecdsa_recover
  ecdsa_verify-recover pubkey signature message p64 s65 formatted =
      elim (Result-cases (curve.public_key_of signature message)) [
        | is_err e h ↦ (λ v. ground (arith, h), λ v. ground (arith, h))
        | is_ok pk h ↦
            let iff = formatted_iff pk pubkey (formatted pk h) in
            (λ v. ground (arith, h, iff.0), λ v. ground (arith, h, iff.1))
      ]
