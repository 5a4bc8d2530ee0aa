-- ===== src/Rlpx/Samples.antt =====
-- A toy cipher for sessions, which adds a running number to each byte.
use structured_p2p_overlay_n.Prelude.{
  ℕ, ◌+◌, ◌-◌, ◌≡◌, [], ◌∷◌, ◌++◌, map, length, take, replicate, refl, subst, arith, length-map,
  length-take, length-append,
}
use structured_p2p_overlay_n.Prelude.Bytes.{Bytes}
use structured_p2p_overlay_n.Rlpx.Session.{Primitives}
use structured_p2p_overlay_n.Rlpx.Frames.{IsCipher}

abbrev pub pad_32 : Bytes → Bytes
pad_32 b = take 32 (b ++ replicate 32 0)

abbrev pub toy : Primitives ℕ Bytes
toy = record {
  new_encryptor = λ k. 0;
  new_decryptor = λ k. 0;
  aes_encrypt = λ n b. (n + length b, map (λ x. x + n) b);
  aes_decrypt = λ n b. (n + length b, map (λ x. x - n) b);
  aes_ecb = λ k b. b;
  new_hash = λ b. b;
  update = λ h b. h ++ b;
  digest = pad_32;
  sha3 = pad_32;
}

abbrev pub SameCount : ℕ → ℕ → Type 0
SameCount e d = e ≡ d

pub length-pad_32 : (b : Bytes) → length (pad_32 b) ≡ 32
length-pad_32 b =
    omega (arith, length-take 32 (b ++ replicate 32 0), length-append b (replicate 32 0))

shift_back : (n : ℕ) (b : Bytes) → map (λ (x : ℕ). x - n) (map (λ (x : ℕ). x + n) b) ≡ b
shift_back n [] = refl
shift_back n (x ∷ b) = ground (arith, shift_back n b)

pub toy-IsCipher : IsCipher toy SameCount
toy-IsCipher = record {
  new-Paired = λ k. refl;
  length-aes_encrypt = λ n b. length-map (λ (x : ℕ). x + n) b;
  decrypt-encrypt = λ e d b h.
      subst (λ z. map (λ (x : ℕ). x - z) (map (λ (x : ℕ). x + e) b) ≡ b) h (shift_back e b);
  decrypt-Paired = λ e d b h. omega (arith, h, length-map (λ (x : ℕ). x + e) b);
  length-aes_ecb = λ k b h. h;
  length-digest = length-pad_32;
}
