-- ===== src/Rlp.antt =====
-- The calls of the third-party package `rlp` in pydevp2p/devp2p/multiplexer.py, as an interface.
use structured_p2p_overlay_n.Prelude.{
  ℕ, ◌^◌, ◌≤◌, ◌<◌, List, [], ◌∷◌, ◌++◌, length, replicate, Result, ok, ◌≡◌,
}
use structured_p2p_overlay_n.Prelude.Bytes.{Bytes}

-- `encode_list` and `decode_list` are `rlp.encode` and `rlp.decode` with `header_data_sedes`,
-- `encode_int` is `rlp.encode` with `big_endian_int`, and `consume_int` is `consume_item` from
-- offset 0 followed by `big_endian_int.deserialize`: the number and the offset of what follows.
pub record Rlp : Type 0 where
  pub encode_list : List ℕ → Bytes
  pub decode_list : Bytes → Result (List ℕ)
  pub encode_int : ℕ → Bytes
  pub consume_int : Bytes → Result (ℕ × ℕ)

-- the header data of a frame: two bytes for a protocol and a sequence id, four for a size
abbrev pub IsHeaderData : List ℕ → Type 0
IsHeaderData [] = ⊥
IsHeaderData (p ∷ []) = p < 2 ^ 16
IsHeaderData (p ∷ s ∷ []) = (p < 2 ^ 16) × (s < 2 ^ 16)
IsHeaderData (p ∷ s ∷ t ∷ []) = (p < 2 ^ 16) × (s < 2 ^ 16) × (t < 2 ^ 32)
IsHeaderData (p ∷ s ∷ t ∷ _ ∷ _) = ⊥

-- What the encoding guarantees: an item is read back whatever follows it, a list of the three small
-- numbers takes at most 13 bytes, and a byte one or two.
pub record IsRlp (rlp : Rlp) : Type 0 where
  pub decode-encode_list :
      (l : List ℕ) (n : ℕ)
      → IsHeaderData l
      → rlp.decode_list (rlp.encode_list l ++ replicate n 0) ≡ ok l
  pub length-encode_list : (l : List ℕ) → IsHeaderData l → length (rlp.encode_list l) ≤ 13
  pub consume-encode :
      (c : ℕ) (rest : Bytes)
      → c < 256
      → rlp.consume_int (rlp.encode_int c ++ rest) ≡ ok (c, length (rlp.encode_int c))
  pub length-encode_pos : (c : ℕ) → c < 256 → 1 ≤ length (rlp.encode_int c)
  pub length-encode_int : (c : ℕ) → c < 256 → length (rlp.encode_int c) ≤ 2
