-- ===== src/Multiplexer/Samples.antt =====
-- An encoding with the properties that the multiplexer expects of rlp, for the tests: numbers of
-- fixed width, and the number of them in front.
use structured_p2p_overlay_n.Prelude.{
  ℕ, zero, suc, ◌≤◌, List, [], ◌∷◌, ◌++◌, length, take, drop, replicate, Result, ok, err, rlp_error,
  ◌≡◌, refl, arith,
}
use structured_p2p_overlay_n.Prelude.Bytes.{Bytes, to_be, from_be}
use structured_p2p_overlay_n.Rlp.{Rlp, IsRlp, IsHeaderData}

abbrev write_list : List ℕ → Bytes
write_list [] = []
write_list (p ∷ []) = 1 ∷ to_be 2 p
write_list (p ∷ s ∷ []) = 2 ∷ (to_be 2 p ++ to_be 2 s)
write_list (p ∷ s ∷ t ∷ []) = 3 ∷ (to_be 2 p ++ (to_be 2 s ++ to_be 4 t))
write_list (p ∷ s ∷ t ∷ _ ∷ _) = []

abbrev read_list : Bytes → Result (List ℕ)
read_list (suc zero ∷ b) = ok (from_be 0 (take 2 b) ∷ [])
read_list (suc (suc zero) ∷ b) = ok (from_be 0 (take 2 b) ∷ from_be 0 (take 2 (drop 2 b)) ∷ [])
read_list (suc (suc (suc zero)) ∷ b) =
    ok (from_be 0 (take 2 b) ∷ from_be 0 (take 2 (drop 2 b)) ∷ from_be 0 (take 4 (drop 4 b)) ∷ [])
read_list _ = err rlp_error

abbrev read_int : Bytes → Result (ℕ × ℕ)
read_int [] = err rlp_error
read_int (b ∷ bs) = ok (b, 1)

abbrev pub fixed : Rlp
fixed = record {
  encode_list = write_list;
  decode_list = read_list;
  encode_int = λ c. c ∷ [];
  consume_int = read_int;
}

read_write :
    (l : List ℕ) (n : ℕ) → IsHeaderData l → read_list (write_list l ++ replicate n 0) ≡ ok l
unfolding to_be from_be
read_write [] n h = absurd h
read_write (p ∷ []) n h = ground arith
read_write (p ∷ s ∷ []) n h = ground arith
read_write (p ∷ s ∷ t ∷ []) n h = ground arith
read_write (p ∷ s ∷ t ∷ u ∷ l) n h = absurd h

short : (l : List ℕ) → IsHeaderData l → length (write_list l) ≤ 13
unfolding to_be
short [] h = absurd h
short (p ∷ []) h = omega arith
short (p ∷ s ∷ []) h = omega arith
short (p ∷ s ∷ t ∷ []) h = omega arith
short (p ∷ s ∷ t ∷ u ∷ l) h = absurd h

pub fixed-IsRlp : IsRlp fixed
fixed-IsRlp = record {
  decode-encode_list = read_write;
  length-encode_list = short;
  consume-encode = λ c rest h. refl;
  length-encode_pos = λ c h. omega arith;
  length-encode_int = λ c h. omega arith;
}
