-- ===== src/Multiplexer/Frame/Layout.antt =====
-- The bytes of a frame's header and body, pydevp2p/devp2p/multiplexer.py.
use structured_p2p_overlay_n.Prelude.{
  ℕ, ◌+◌, ◌-◌, ◌%◌, ◌^◌, ◌≤◌, ◌<◌, true, false, List, [], ◌∷◌, ◌++◌, length, drop, replicate, ok,
  ◌≡◌, refl, ap, ◌∙◌, arith, Bool-cases, inl, inr, length-append, length-replicate, append_assoc,
  take-length-append, drop-length-append, lt→ltb, ==_iff, ◌==◌, append-nil, sym,
}
use structured_p2p_overlay_n.Prelude.Bytes.{Bytes, to_be, from_be, length-to_be}
use structured_p2p_overlay_n.Rlp.{Rlp, IsRlp, IsHeaderData}
use structured_p2p_overlay_n.Multiplexer.Frame.{
  Frame, ceil16, rzpad16, header, header_list, body, plain_bytes, frame_size, padded_body_size,
  body_size, enc_cmd_id, sequence_id_fits, list_eq, mac_size,
}
use structured_p2p_overlay_n.Multiplexer.Cipher.{header_body_size}
use structured_p2p_overlay_n.Multiplexer.Frame.Chunks.{ceil16_bounds}

list_eq_self : (l : List ℕ) → list_eq l l ≡ true
unfolding list_eq
list_eq_self [] = refl
list_eq_self (x ∷ l) = ground (arith, list_eq_self l)

length_zeros : (n : ℕ) → length (replicate {A = ℕ} n 0) ≡ n
length_zeros n = length-replicate n 0

rzpad16_lem :
    (b : Bytes) → 0 < length b → length b ≤ 16 → rzpad16 b ≡ b ++ replicate (16 - length b) 0
unfolding rzpad16
rzpad16_lem b pos small = elim (Bool-cases (length b % 16 == 0)) [
  | inl e ↦
      let full : length b ≡ 16 = omega (arith, (==_iff (length b % 16) 0).0 e) in
      rw e (rw full (sym (append-nil b)))
  | inr e ↦ rw e (ap (λ k. b ++ replicate (16 - k) 0) (below e))
]
  where
    below : (length b % 16 == 0) ≡ false → length b % 16 ≡ length b
    below e = ground arith

pub from_be-to_be : (n : ℕ) → n < 256 ^ 3 → from_be 0 (to_be 3 n) ≡ n
unfolding from_be to_be
from_be-to_be n h = omega arith

-- the header of a frame with `size` bytes and the header data `l`
abbrev pub header_bytes : Rlp → ℕ → List ℕ → Bytes
header_bytes rlp size l =
    to_be 3 size ++ (rlp.encode_list l ++ replicate (13 - length (rlp.encode_list l)) 0)

-- A frame whose fields fit the header.
pub record IsSendable (rlp : Rlp) (f : Frame) (l : List ℕ) : Type 0 where
  pub protocol_fits : f.protocol_id < 2 ^ 16
  pub sequence_fits : sequence_id_fits f.sequence_id ≡ true
  pub listed : header_list f.protocol_id f.is_chunked_0 f.sequence_id f.total_payload_size ≡ ok l
  pub small : IsHeaderData l
  pub size_fits : body_size rlp f < 256 ^ 3

module _ (rlp : Rlp) (laws : IsRlp rlp) (f : Frame) (l : List ℕ) (v : IsSendable rlp f l) where
  decode_self : rlp.decode_list (rlp.encode_list l) ≡ ok l
  decode_self = rw (append-nil (rlp.encode_list l)) at (laws.decode-encode_list l 0 v.small)

  length-data :
      length (to_be 3 (body_size rlp f) ++ rlp.encode_list l) ≡ 3 + length (rlp.encode_list l)
  length-data = length-append _ _ ∙ ap (λ k. k + length (rlp.encode_list l)) (length-to_be 3 _)

  left_over :
      16 - length (to_be 3 (body_size rlp f) ++ rlp.encode_list l) ≡ 13 - length (rlp.encode_list l)
  left_over = omega (arith, length-data)

  padded :
      rzpad16 (to_be 3 (body_size rlp f) ++ rlp.encode_list l)
      ≡ header_bytes rlp (body_size rlp f) l
  padded =
      rzpad16_lem _ (omega (arith, length-data))
        (omega (arith, length-data, laws.length-encode_list l v.small))
      ∙ ap (λ k. (to_be 3 (body_size rlp f) ++ rlp.encode_list l) ++ replicate k 0) left_over
      ∙ append_assoc (to_be 3 (body_size rlp f)) (rlp.encode_list l)
          (replicate (13 - length (rlp.encode_list l)) 0)

  pub length-header_bytes : length (header_bytes rlp (body_size rlp f) l) ≡ 16
  length-header_bytes =
      length-append (to_be 3 (body_size rlp f)) _
      ∙ omega (
        arith,
        length-to_be 3 (body_size rlp f),
        length-append (rlp.encode_list l) (replicate (13 - length (rlp.encode_list l)) 0),
        length_zeros (13 - length (rlp.encode_list l)),
        laws.length-encode_list l v.small,
      )

  -- What `header` returns.
  pub header_lem : header rlp f ≡ ok (header_bytes rlp (body_size rlp f) l)
  unfolding header
  header_lem = rw (
    lt→ltb _ _ v.protocol_fits,
    v.sequence_fits,
    v.listed,
    decode_self,
    list_eq_self l,
    lt→ltb _ _ v.size_fits,
    padded,
    length-header_bytes,
  )

  pub length-body : length (body rlp f) ≡ ceil16 (body_size rlp f)
  unfolding body body_size
  length-body = omega (
    arith,
    length-append (enc_cmd_id rlp f)
        (f.payload ++ replicate (ceil16 (body_size rlp f) - body_size rlp f) 0),
    length-append f.payload (replicate (ceil16 (body_size rlp f) - body_size rlp f) 0),
    length_zeros (ceil16 (body_size rlp f) - body_size rlp f),
    ceil16_bounds (body_size rlp f),
  )

  -- What the receiver reads in the header: the size of the body, and the header data.
  pub header_body_size_lem :
      header_body_size (header_bytes rlp (body_size rlp f) l) ≡ body_size rlp f
  unfolding header_body_size
  header_body_size_lem =
      ap (from_be 0) (take-length-append (to_be 3 (body_size rlp f)) _ 3 (sym (length-to_be 3 _)))
      ∙ from_be-to_be (body_size rlp f) v.size_fits

  pub decode_list_lem : rlp.decode_list (drop 3 (header_bytes rlp (body_size rlp f) l)) ≡ ok l
  decode_list_lem =
      ap rlp.decode_list
        (drop-length-append (to_be 3 (body_size rlp f)) _ 3 (sym (length-to_be 3 _)))
      ∙ laws.decode-encode_list l _ v.small

  -- the bytes of the frame without a cipher
  abbrev pub message : Bytes
  message =
      header_bytes rlp (body_size rlp f) l
      ++ (replicate mac_size 0 ++ (body rlp f ++ replicate mac_size 0))

  pub length-message : length message ≡ frame_size rlp f
  unfolding frame_size padded_body_size
  length-message =
      length-append (header_bytes rlp (body_size rlp f) l) _
      ∙ omega (
        arith,
        length-header_bytes,
        length-append (replicate mac_size 0) (body rlp f ++ replicate mac_size 0),
        length-append (body rlp f) (replicate mac_size 0),
        length-body,
        length_zeros mac_size,
      )

  -- What `as_bytes` returns without a cipher.
  pub plain_bytes_lem : plain_bytes rlp f ≡ ok message
  unfolding plain_bytes padded_body_size
  plain_bytes_lem =
      rw
        (header_lem, length-header_bytes, (==_iff _ _).1 length-body, (==_iff _ _).1 length-message)
