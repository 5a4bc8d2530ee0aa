-- ===== src/Peer/Payloads.antt =====
-- The payload of a command of pydevp2p/devp2p/protocol.py from one end to the other.
use structured_p2p_overlay_n.Prelude.{
  ◌≡◌, refl, sym, ap, ◌∙◌, subst, arith, Bool, false, some, List, [], ◌∷◌, length, All, inl, inr,
  Bool-cases, ok, of_option, key_error, >>=-eq-ok, of_option-eq-ok, ok-injective, check, ◌==◌,
  assertion_error, if◌then◌else◌,
}
use structured_p2p_overlay_n.Prelude.Bytes.{Bytes, bytes_eq, bytes_eq→eq, bytes_eq_self}
use structured_p2p_overlay_n.Peer.Protocol.{Protocol}
use structured_p2p_overlay_n.Peer.Commands.{
  Sedes, fields, named, field, set_field, pick, as_dict, types, encode_payload, decode_payload,
}

module _ {V : Type 0} where
  field-set :
      (m n : Bytes) (v : V) (d : List (Bytes × V))
      → field m (set_field n v d) ≡ (if bytes_eq n m then some v else field m d)
  unfolding field set_field
  field-set m n v [] = refl
  field-set m n v ((k, w) ∷ d) = elim (Bool-cases (bytes_eq k n)) [
    | inl e ↦ ground (arith, e, ap (λ z. bytes_eq z m) (bytes_eq→eq k n e))
    | inr e ↦ elim (Bool-cases (bytes_eq n m)) [
      | inl same ↦
          let apart = subst (λ z. bytes_eq k z ≡ false) (bytes_eq→eq n m same) e in
          rw (e, same, apart) (field-set m n v d ∙ rw same refl)
      | inr other ↦ rw (e, other, field-set m n v d, other) refl
    ]
  ]

  -- Every field of the first dict is in the second one, with the same value.
  abbrev pub IsWithin : List (Bytes × V) → List (Bytes × V) → Type 0
  IsWithin d e = (n : Bytes) (v : V) → field n d ≡ some v → field n e ≡ some v

  nothing-IsWithin : (d : List (Bytes × V)) → IsWithin [] d
  unfolding field
  nothing-IsWithin d n v h = cc

  IsWithin-set :
      (n : Bytes) (v : V) (acc d : List (Bytes × V))
      → field n d ≡ some v
      → IsWithin acc d
      → IsWithin (set_field n v acc) d
  IsWithin-set n v acc d h within m w there = elim (Bool-cases (bytes_eq n m)) [
    | inl e ↦
        let same : some v ≡ some w = sym (field-set m n v acc ∙ rw e refl) ∙ there in
        subst (λ z. field z d ≡ some w) (bytes_eq→eq n m e) (h ∙ same)
    | inr e ↦ within m w (sym (field-set m n v acc ∙ rw e refl) ∙ there)
  ]

  IsWithin-keeps :
      (n : Bytes) (v : V) (acc d e : List (Bytes × V))
      → IsWithin acc d
      → field n d ≡ some v
      → IsWithin (set_field n v acc) e
      → IsWithin acc e
  IsWithin-keeps n v acc d e within h kept m w there = kept m w (
      field-set m n v acc ∙ elim (Bool-cases (bytes_eq n m)) [
        | inl same ↦
            rw same
              (sym (subst (λ z. field z d ≡ some v) (bytes_eq→eq n m same) h) ∙ within m w there)
        | inr other ↦ rw other there
      ])

module _ {V S : Type 0} where
  -- What was picked of a dict is read back with its values.
  picked :
      (fs : List (Bytes × S)) (d acc : List (Bytes × V)) (vs : List V)
      → pick fs d ≡ ok vs
      → IsWithin acc d
      → (e : List (Bytes × V)) × (as_dict fs vs acc ≡ ok e)
        × IsWithin acc e
        × All (λ f. field f.0 e ≡ field f.0 d) fs
  unfolding pick as_dict
  picked [] d acc [] h within = (acc, refl, (λ n v there. there), tt)
  picked [] d acc (v ∷ vs) h within = cc
  picked ((n, s) ∷ fs) d acc vs h within =
      let (v, found, h1) = >>=-eq-ok (of_option key_error (field n d)) _ h in
      let (ws, others, h2) = >>=-eq-ok (pick fs d) _ h1 in
      let there = of_option-eq-ok key_error (field n d) found in
      let (e, returns, kept, agree) =
        picked fs d (set_field n v acc) ws others (IsWithin-set n v acc d there within) in
      (
        e,
        subst (λ z. as_dict ((n, s) ∷ fs) z acc ≡ ok e) (ok-injective h2) returns,
        IsWithin-keeps n v acc d e within there kept,
        (kept n v (field-set n n v acc ∙ rw (bytes_eq_self n) refl) ∙ sym there, agree),
      )

-- What the serialization of a third-party package promises: what it has written it reads.
pub record IsSedes {V S : Type 0} (sedes : Sedes V S) : Type 0 where
  pub decode-encode_list :
      (strict : Bool) (ss : List S) (vs : List V) (b : Bytes)
      → sedes.encode_list ss vs ≡ ok b
      → sedes.decode_list strict ss b ≡ ok vs

module _ {V S : Type 0} (sedes : Sedes V S) (laws : IsSedes sedes) where
  -- A dict that is encoded for a command is decoded to a dict with the same value in each field of
  -- the command's structure.
  pub decode_payload-encode_payload :
      (strict : Bool) (fs : List (Bytes × S)) (d : List (Bytes × V)) (b : Bytes)
      → encode_payload sedes (fields fs) (named d) ≡ ok b
      → (e : List (Bytes × V)) × (decode_payload sedes strict (fields fs) b ≡ ok (named e))
        × All (λ f. field f.0 e ≡ field f.0 d) fs
  unfolding encode_payload decode_payload
  decode_payload-encode_payload strict fs d b h =
      let (vs, chosen, h1) = >>=-eq-ok (pick fs d) _ h in
      let (_, sized, written) = >>=-eq-ok (check (length vs == length fs) assertion_error) _ h1 in
      let (e, returns, kept, agree) = picked fs d [] vs chosen (nothing-IsWithin d) in
      (e, rw (laws.decode-encode_list strict (types fs) vs b written, returns) refl, agree)
