-- ===== src/Crypto/Kdf.antt =====
-- `eciesKDF` of pydevp2p/devp2p/crypto.py: a key from the hashes of a counter and a secret.
use structured_p2p_overlay_n.Prelude.{
  ℕ, zero, suc, ◌+◌, ◌*◌, ◌/◌, ◌≤◌, min, ◌≡◌, refl, arith, [], ◌++◌, length, take, leb,
  if◌then◌else◌, length-take, length-append, Result, ok, err, out_of_fuel, ◌>>=◌,
}
use structured_p2p_overlay_n.Prelude.Bytes.{Bytes, to_be}

abbrev pub hash_blocksize : ℕ
hash_blocksize = 64

module _ (sha256 : Bytes → Bytes) where
  -- the digest of `counter` and the secret
  unfoldable pub block : Bytes → ℕ → Bytes
  block key_material counter = sha256 (to_be 4 counter ++ key_material)

  -- `while counter <= reps`, on fuel; `reps` is not rounded, so both sides are multiplied by 512.
  unfoldable pub kdf_loop : ℕ → Bytes → ℕ → ℕ → Bytes → Result Bytes
  unfolding block
  kdf_loop zero key_material key_len counter key = err out_of_fuel
  kdf_loop (suc n) key_material key_len counter key =
      let rest =
        kdf_loop n key_material key_len (counter + 1) (key ++ block key_material (counter + 1)) in
      if leb (counter * (hash_blocksize * 8)) ((key_len + 7) * 8) then rest else ok key

  -- Each round adds one to the counter, so one round more than the last counter is enough.
  unfoldable pub ecies_kdf : Bytes → ℕ → Result Bytes
  unfolding kdf_loop
  ecies_kdf key_material key_len =
      kdf_loop ((key_len + 7) / 64 + 2) key_material key_len 0 [] >>= λ key. ok (take key_len key)

module _ (sha256 : Bytes → Bytes) (sized : (b : Bytes) → length (sha256 b) ≡ 32) where
  length-block :
      (key_material : Bytes) (counter : ℕ) → length (block sha256 key_material counter) ≡ 32
  unfolding block
  length-block key_material counter = sized (to_be 4 counter ++ key_material)

  -- the rounds that are left, and what they add
  length-kdf_loop :
      (n left : ℕ) (key_material : Bytes) (key_len counter : ℕ) (key : Bytes)
      → counter + left ≡ (key_len + 7) / 64 + 1
      → left + 1 ≤ n
      → (long : Bytes) × (kdf_loop sha256 n key_material key_len counter key ≡ ok long)
        × (length long ≡ length key + 32 * left)
  unfolding kdf_loop
  length-kdf_loop zero left key_material key_len counter key e enough =
      let impossible : ⊥ = omega arith in absurd impossible
  length-kdf_loop (suc n) zero key_material key_len counter key e enough =
      (key, ground arith, omega arith)
  length-kdf_loop (suc n) (suc left) key_material key_len counter key e enough =
      let next = block sha256 key_material (counter + 1) in
      let (long, returns, grown) =
        length-kdf_loop n left key_material key_len (counter + 1) (key ++ next) (omega arith)
          (omega arith) in
      (
        long,
        ground (arith, returns),
        omega (arith, grown, length-append key next, length-block key_material (counter + 1)),
      )

  -- With a hash of 32 bytes the key has the length asked for, or 32 bytes for each block of 64 in
  -- the length and 7 and one block more, whichever is less: the loop ends, and the key of a length
  -- from 33 to 56 is too short.
  pub length-ecies_kdf :
      (key_material : Bytes) (key_len : ℕ)
      → (key : Bytes) × (ecies_kdf sha256 key_material key_len ≡ ok key)
        × (length key ≡ min key_len (32 * ((key_len + 7) / 64 + 1)))
  unfolding ecies_kdf
  length-ecies_kdf key_material key_len =
      let (long, returns, grown) =
        length-kdf_loop ((key_len + 7) / 64 + 2) ((key_len + 7) / 64 + 1) key_material key_len 0 []
          (omega arith) (omega arith) in
      (take key_len long, rw returns refl, omega (arith, length-take key_len long, grown))
