-- ===== src/Crypto/Tests.antt =====
-- Runs of the theorems on crypto.py with a toy hash, a toy cipher and a toy curve.
use structured_p2p_overlay_n.Prelude.{
  ℕ, ◌+◌, ◌*◌, ◌/◌, min, ◌↔◌, ◌≡◌, true, [], ◌∷◌, ◌++◌, length, take, replicate, ok, refl, arith,
  length-take, length-append,
}
use structured_p2p_overlay_n.Prelude.Bytes.{Bytes, bytes_eq, bytes_eq_iff}
use structured_p2p_overlay_n.Crypto.Kdf.{ecies_kdf, length-ecies_kdf}
use structured_p2p_overlay_n.Crypto.Ecies.{Primitives, KeyPair, ecies_decrypt}
use structured_p2p_overlay_n.Crypto.Delivered.{IsPrimitives, Agree}
use structured_p2p_overlay_n.Crypto.Authentic.{Authentic, ecies_decrypt-Authentic}
use structured_p2p_overlay_n.Rlpx.Handshake.Messages.{Carries}
use structured_p2p_overlay_n.Crypto.Carried.{eccx-Carries}
use structured_p2p_overlay_n.Crypto.Keys.{
  Curve, eccx, ecdsa_verify, ecdsa_recover, ecdsa_verify-recover,
}

-- the first 32 bytes, filled up with zeros
abbrev toy_hash : Bytes → Bytes
toy_hash b = take 32 (b ++ replicate 32 0)

length-toy_hash : (b : Bytes) → length (toy_hash b) ≡ 32
length-toy_hash b =
    omega (arith, length-take 32 (b ++ replicate 32 0), length-append b (replicate 32 0))

abbrev toy : Primitives
toy = record {
  raw_get_ecdh_key = λ priv x y. ok (replicate 32 7);
  sha256 = toy_hash;
  hmac_sha256 = λ k b. toy_hash (b ++ k);
  encipher = λ k iv b. b;
  decipher = λ k iv b. b;
  equals = bytes_eq;
  blocksize = 16;
}

toy-IsPrimitives : IsPrimitives toy
toy-IsPrimitives = record {
  length-sha256 = length-toy_hash;
  length-hmac_sha256 = λ k b. length-toy_hash (b ++ k);
  length-encipher = λ k iv b. refl;
  decipher-encipher = λ k iv b. refl;
  equals_iff = bytes_eq_iff;
  blocksize_lem = refl;
}

abbrev pair : ℕ → KeyPair
pair n = record { raw_privkey = replicate 32 n; raw_pubkey = replicate 64 n }

pairs-Agree : Agree toy (pair 1) (pair 2)
pairs-Agree = record {
  length-pubkey = refl;
  secret = replicate 32 7;
  length-secret = refl;
  sender = refl;
  receiver = refl;
}

length-ecies_kdf_example :
    (key : Bytes) × (ecies_kdf toy_hash (replicate 32 7) 32 ≡ ok key)
    × (length key ≡ min 32 (32 * ((32 + 7) / 64 + 1)))
length-ecies_kdf_example = length-ecies_kdf toy_hash length-toy_hash (replicate 32 7) 32

-- the message with the bytes 5 and 6 from the first pair to the second
abbrev sealed : Bytes
sealed =
    4 ∷ (replicate 64 1 ++ (replicate 16 3 ++ (5 ∷ 6 ∷ (replicate 16 3 ++ 5 ∷ 6 ∷ replicate 14 7))))

ecies_decrypt-Authentic_example :
    (ecies_decrypt toy (replicate 32 2) sealed [] ≡ ok (5 ∷ 6 ∷ []))
    ↔ Authentic toy (replicate 32 2) sealed [] (5 ∷ 6 ∷ [])
ecies_decrypt-Authentic_example =
    ecies_decrypt-Authentic toy toy-IsPrimitives (replicate 32 2) sealed [] (5 ∷ 6 ∷ [])

-- every signature is that of the key of ones
abbrev toy_curve : Curve
toy_curve = record {
  sign_recoverable = λ priv b. ok (replicate 65 2);
  public_key_of = λ s b. ok (4 ∷ replicate 64 1);
  raw_check_key = λ x y. ok 0;
  privtopub = λ b. ok (replicate 64 1);
  has_privkey_format = λ b. true;
}

ecdsa_verify-recover_example :
    (ecdsa_verify toy_curve (replicate 64 1) (replicate 65 2) (9 ∷ []) ≡ ok true)
    ↔ (ecdsa_recover toy_curve (9 ∷ []) (replicate 65 2) ≡ ok (replicate 64 1))
ecdsa_verify-recover_example =
    ecdsa_verify-recover toy_curve (replicate 64 1) (replicate 65 2) (9 ∷ []) refl refl (λ pk h. cc)

eccx-Carries_example :
    Carries
      (eccx toy toy_curve (pair 4) (pair 1) (replicate 16 3))
      (eccx toy toy_curve (pair 2) (pair 5) (replicate 16 6))
eccx-Carries_example =
    eccx-Carries toy toy-IsPrimitives toy_curve (pair 4) (pair 1) (pair 2) (pair 5) (replicate 16 3)
      (replicate 16 6) refl pairs-Agree
