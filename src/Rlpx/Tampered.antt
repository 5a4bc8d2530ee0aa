-- ===== src/Rlpx/Tampered.antt =====
-- Tags that were changed on the way between two sessions, pydevp2p/devp2p/rlpxcipher.py.
use structured_p2p_overlay_n.Prelude.{
  ℕ, ◌+◌, subst, ◌≤◌, ◌%◌, ◌⊎◌, inl, inr, [], ◌++◌, length, take, drop, ok, err, ok-injective, ◌≡◌,
  ◌≢◌, sym, ap, ap₂, ◌∙◌, arith, Bool-cases, length-append, take-length-append, drop-length-append,
  authentication_error, append-nil,
}
use structured_p2p_overlay_n.Prelude.Bytes.{Bytes, bytes_eq, bytes_eq_iff}
use structured_p2p_overlay_n.Rlpx.Session.{
  Primitives, Keys, encrypt_with, decrypt_header_with, decrypt_body_with,
}
use structured_p2p_overlay_n.Rlpx.Frames.{
  IsCipher, mac_tag, frame_tag, header_out, header_tag, sealed, between, frame_out, length-mac_tag,
  encrypt_with_lem, decrypt_header_with_lem, decrypt_header_with-forged, decrypt_body_with_lem,
  decrypt_body_with-forged,
}
use structured_p2p_overlay_n.Rlpx.Channel.{
  InSync, after_header, behind, drop_32, reads_header, front_body, back_body, states,
}
use structured_p2p_overlay_n.Multiplexer.Frame.{ceil16}
use structured_p2p_overlay_n.Multiplexer.Frame.Chunks.{ceil16_bounds}

module _ {A H : Type 0} (prim : Primitives A H) {Paired : A → A → Type 0}
    (laws : IsCipher prim Paired) (k l : Keys A H) (sync : InSync Paired k l)
    (header frame sent tag : Bytes) (h16 : length header ≡ 16) (f16 : length frame % 16 ≡ 0)
    (t16 : length tag ≡ 16) (sends : (encrypt_with prim header frame k).1 ≡ ok sent) where
  abbrev cipher : Bytes
  cipher = header_out prim k header frame

  sent_lem : sent ≡ sealed prim k header frame
  sent_lem =
      ok-injective (sym sends ∙ ap (λ z. z.1) (encrypt_with_lem prim laws header frame k h16 f16))

  cipher16 : length cipher ≡ 16
  cipher16 = laws.length-aes_encrypt k.aes_enc header ∙ h16

  take-sent : take 16 sent ≡ cipher
  take-sent = ap (take 16) sent_lem ∙ take-length-append cipher _ 16 (sym cipher16)

  sent-tag : take 16 (drop 16 sent) ≡ header_tag prim k header frame
  sent-tag =
      ap (λ z. take 16 (drop 16 z)) sent_lem
      ∙ ap (take 16) (drop-length-append cipher _ 16 (sym cipher16))
      ∙ take-length-append (header_tag prim k header frame) _ 16
          (sym (length-mac_tag prim laws k.mac_secret cipher k.egress_mac))

  expected : take 16 (drop 16 sent) ≡ mac_tag prim l.mac_secret l.ingress_mac cipher
  expected = sent-tag ∙ ap₂ (λ z w. mac_tag prim z w cipher) sync.secrets sync.macs

  abbrev received : Bytes
  received = take 16 sent ++ tag

  front : take 16 received ≡ cipher
  front =
      take-length-append (take 16 sent) tag 16 (sym (ap length take-sent ∙ cipher16)) ∙ take-sent

  tag_behind : take 16 (drop 16 received) ≡ tag
  tag_behind =
      ap (take 16) (drop-length-append (take 16 sent) tag 16 (sym (ap length take-sent ∙ cipher16)))
      ∙ ap (take 16) (sym (append-nil tag))
      ∙ take-length-append tag [] 16 (sym t16)

  whole : length received ≡ 32
  whole = omega (arith, length-append (take 16 sent) tag, ap length take-sent, cipher16, t16)

  -- Between two sessions in sync, a header that was encrypted and whose tag of 16 bytes may have been
  -- replaced is decrypted to itself if the tag is still the sender's, and otherwise it is refused as
  -- not authentic, with the stream of the receiver where it was.
  pub decrypt_header-tampered :
      ((tag ≡ take 16 (drop 16 sent)) × ((decrypt_header_with prim received l).1 ≡ ok header))
      ⊎ ((tag ≢ take 16 (drop 16 sent))
          × ((decrypt_header_with prim received l).1 ≡ err authentication_error)
          × ((decrypt_header_with prim received l).0.aes_dec ≡ l.aes_dec))
  decrypt_header-tampered =
      let theirs = mac_tag prim l.mac_secret l.ingress_mac (take 16 received) in
      let same : theirs ≡ take 16 (drop 16 sent) =
        ap (mac_tag prim l.mac_secret l.ingress_mac) front ∙ sym expected in
      elim (Bool-cases (bytes_eq tag (take 16 (drop 16 sent)))) [
        | inl e ↦
            let equal = (bytes_eq_iff tag (take 16 (drop 16 sent))).0 e in
            inl (
              equal,
              ap (λ z. z.1)
                    (decrypt_header_with_lem prim laws received l whole
                      (tag_behind ∙ equal ∙ sym same))
                  ∙ ap (λ z. ok ((prim.aes_decrypt l.aes_dec z).1)) front
                  ∙ ap ok (laws.decrypt-encrypt k.aes_enc l.aes_dec header sync.streams),
            )
        | inr e ↦
            let apart : tag ≢ take 16 (drop 16 sent) =
              λ h. cc (e, (bytes_eq_iff tag (take 16 (drop 16 sent))).1 h) in
            let refused =
              decrypt_header_with-forged prim laws received l whole
                (λ h. apart (sym tag_behind ∙ h ∙ same)) in
            inr (apart, ap (λ z. z.1) refused, ap (λ z. z.0.aes_dec) refused)
      ]

module _ {A H : Type 0} (prim : Primitives A H) {Paired : A → A → Type 0}
    (laws : IsCipher prim Paired) (k l : Keys A H) (sync : InSync Paired k l)
    (header frame sent tag : Bytes) (size : ℕ) (h16 : length header ≡ 16)
    (padded : ceil16 size ≡ length frame) (t16 : length tag ≡ 16)
    (sends : (encrypt_with prim header frame k).1 ≡ ok sent) where
  sent_whole : sent ≡ sealed prim k header frame ++ []
  sent_whole =
      sent_lem prim laws k l sync header frame sent tag h16
        (omega (arith, padded, ceil16_bounds size)) t16 sends
      ∙ sym (append-nil (sealed prim k header frame))

  -- the receiver's keys behind the header
  abbrev behind_header : Keys A H
  behind_header = (decrypt_header_with prim (take 32 sent) l).0

  behind_header_lem : behind_header ≡ after_header prim laws k l sync header frame h16
  behind_header_lem =
      ap (λ z. (decrypt_header_with prim (take 32 z) l).0) sent_whole
      ∙ ap (λ z. z.0) (reads_header prim laws k l sync header frame h16 [])

  abbrev body_cipher : Bytes
  body_cipher = take (ceil16 size) (drop 32 sent)

  abbrev body_tag : Bytes
  body_tag = take 16 (drop (ceil16 size) (drop 32 sent))

  rest_lem : drop 32 sent ≡ behind prim laws k l sync header frame h16 []
  rest_lem = ap (drop 32) sent_whole ∙ drop_32 prim laws k l sync header frame h16 []

  body_cipher_lem : body_cipher ≡ frame_out prim k header frame
  body_cipher_lem =
      ap (take (ceil16 size)) rest_lem
      ∙ front_body prim laws k l sync header frame h16 size padded []

  length-body_cipher : length body_cipher ≡ ceil16 size
  length-body_cipher =
      ap length body_cipher_lem
      ∙ laws.length-aes_encrypt (between prim k header frame) frame
      ∙ sym padded

  body_tag_lem :
      body_tag
      ≡ frame_tag prim l.mac_secret
          (after_header prim laws k l sync header frame h16).ingress_mac
          body_cipher
  unfolding after_header
  body_tag_lem =
      ap (λ z. take 16 (drop (ceil16 size) z)) rest_lem
      ∙ back_body prim laws k l sync header frame h16 size padded []
      ∙ ap₂ (λ z w. frame_tag prim z w (frame_out prim k header frame)) sync.secrets
          (states prim laws k l sync header frame h16)
      ∙ ap
          (frame_tag prim l.mac_secret
            (after_header prim laws k l sync header frame h16).ingress_mac)
          (sym body_cipher_lem)

  abbrev altered : Bytes
  altered = body_cipher ++ tag

  altered_front : take (ceil16 size) altered ≡ body_cipher
  altered_front = take-length-append body_cipher tag (ceil16 size) (sym length-body_cipher)

  altered_back : take 16 (drop (ceil16 size) altered) ≡ tag
  altered_back =
      ap (take 16) (drop-length-append body_cipher tag (ceil16 size) (sym length-body_cipher))
      ∙ ap (take 16) (sym (append-nil tag))
      ∙ take-length-append tag [] 16 (sym t16)

  altered_size : ceil16 size + 16 ≤ length altered
  altered_size = omega (arith, length-append body_cipher tag, length-body_cipher, t16)

  abbrev ready : Keys A H
  ready = after_header prim laws k l sync header frame h16

  abbrev Outcomes : Keys A H → Type 0
  Outcomes r =
      ((tag ≡ body_tag) × ((decrypt_body_with prim altered size r).1 ≡ ok (take size frame)))
      ⊎ ((tag ≢ body_tag)
          × ((decrypt_body_with prim altered size r).1 ≡ err authentication_error)
          × ((decrypt_body_with prim altered size r).0.aes_dec ≡ r.aes_dec))

  expected_tag :
      body_tag ≡ frame_tag prim ready.mac_secret ready.ingress_mac (take (ceil16 size) altered)
  unfolding after_header
  expected_tag =
      body_tag_lem ∙ ap (frame_tag prim l.mac_secret ready.ingress_mac) (sym altered_front)

  decrypted : (prim.aes_decrypt ready.aes_dec (take (ceil16 size) altered)).1 ≡ frame
  unfolding after_header
  decrypted =
      ap (λ z. (prim.aes_decrypt ready.aes_dec z).1) (altered_front ∙ body_cipher_lem)
      ∙ laws.decrypt-encrypt (between prim k header frame) ready.aes_dec frame
          (laws.decrypt-Paired k.aes_enc l.aes_dec header sync.streams)

  outcomes : Outcomes ready
  outcomes = elim (Bool-cases (bytes_eq tag body_tag)) [
    | inl e ↦
        let equal = (bytes_eq_iff tag body_tag).0 e in
        inl (
          equal,
          ap (λ z. z.1)
                (decrypt_body_with_lem prim laws altered size ready altered_size
                  (altered_back ∙ equal ∙ expected_tag))
              ∙ ap (λ z. ok (take size z)) decrypted,
        )
    | inr e ↦
        let apart : tag ≢ body_tag = λ h. cc (e, (bytes_eq_iff tag body_tag).1 h) in
        let refused =
          decrypt_body_with-forged prim laws altered size ready altered_size
            (λ h. apart (sym altered_back ∙ h ∙ sym expected_tag)) in
        inr (apart, ap (λ z. z.1) refused, ap (λ z. z.0.aes_dec) refused)
  ]

  -- Between two sessions in sync, a body that was encrypted behind its header and whose tag of 16
  -- bytes may have been replaced is decrypted, with the keys that the header leaves, to the frame cut
  -- to its size if the tag is still the sender's, and otherwise it is refused as not authentic, with
  -- the stream of the receiver where it was.
  pub decrypt_body-tampered :
      ((tag ≡ body_tag)
        × ((decrypt_body_with prim altered size behind_header).1 ≡ ok (take size frame)))
      ⊎ ((tag ≢ body_tag)
          × ((decrypt_body_with prim altered size behind_header).1 ≡ err authentication_error)
          × ((decrypt_body_with prim altered size behind_header).0.aes_dec ≡ behind_header.aes_dec))
  decrypt_body-tampered = subst Outcomes (sym behind_header_lem) outcomes
