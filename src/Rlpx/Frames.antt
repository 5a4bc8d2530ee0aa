-- ===== src/Rlpx/Frames.antt =====
-- What `encrypt` makes of a frame and what `decrypt_header` and `decrypt_body` read of it,
-- pydevp2p/devp2p/rlpxcipher.py.
use structured_p2p_overlay_n.Prelude.{
  ℕ, ◌+◌, ◌%◌, ◌≤◌, [], ◌++◌, length, take, drop, ok, err, ◌≡◌, ◌≢◌, ◌∙◌, arith, length-take,
  length-drop, authentication_error,
}
use structured_p2p_overlay_n.Prelude.Bytes.{Bytes, bytes_eq_iff}
use structured_p2p_overlay_n.Multiplexer.Frame.{ceil16}
use structured_p2p_overlay_n.Rlpx.Session.{
  Primitives, Keys, sxor, xor_bytes, chained_mac, frame_mac, encrypt_with, decrypt_header_with,
  decrypt_body_with,
}

-- What the ciphers and the hash guarantee: a decryptor in step with an encryptor reads what that
-- writes and stays in step, nothing changes its length, and a digest has 32 bytes.
pub record IsCipher {A H : Type 0} (prim : Primitives A H) (Paired : A → A → Type 0) : Type 0 where
  pub new-Paired : (secret : Bytes) → Paired (prim.new_encryptor secret) (prim.new_decryptor secret)
  pub length-aes_encrypt : (e : A) (x : Bytes) → length ((prim.aes_encrypt e x).1) ≡ length x
  pub decrypt-encrypt :
      (e d : A) (x : Bytes) → Paired e d → (prim.aes_decrypt d ((prim.aes_encrypt e x).1)).1 ≡ x
  pub decrypt-Paired :
      (e d : A) (x : Bytes)
      → Paired e d
      → Paired ((prim.aes_encrypt e x).0) ((prim.aes_decrypt d ((prim.aes_encrypt e x).1)).0)
  pub length-aes_ecb : (secret x : Bytes) → length x ≡ 16 → length (prim.aes_ecb secret x) ≡ 16
  pub length-digest : (h : H) → length (prim.digest h) ≡ 32

module _ {A H : Type 0} (prim : Primitives A H) where
  -- the hash behind a chained mac of `x`, and the mac
  unfoldable pub mac_state : Bytes → H → Bytes → H
  mac_state secret h x =
      prim.update (prim.update h [])
        (xor_bytes (prim.aes_ecb secret (take 16 (prim.digest (prim.update h [])))) x)

  unfoldable pub mac_tag : Bytes → H → Bytes → Bytes
  mac_tag secret h x = take 16 (prim.digest (mac_state secret h x))

  -- the same behind the mac of a frame's ciphertext
  unfoldable pub frame_state : Bytes → H → Bytes → H
  frame_state secret h x =
      mac_state secret (prim.update h x) (take 16 (prim.digest (prim.update h x)))

  unfoldable pub frame_tag : Bytes → H → Bytes → Bytes
  frame_tag secret h x = mac_tag secret (prim.update h x) (take 16 (prim.digest (prim.update h x)))

module _ {A H : Type 0} (prim : Primitives A H) {Paired : A → A → Type 0}
    (laws : IsCipher prim Paired) where
  length-take_digest : (h : H) → length (take 16 (prim.digest h)) ≡ 16
  length-take_digest h = omega (arith, length-take 16 (prim.digest h), laws.length-digest h)

  chained_mac_lem :
      (secret x : Bytes) (h : H)
      → length x ≡ 16
      → chained_mac prim secret x h ≡ (mac_state prim secret h x, ok (mac_tag prim secret h x))
  unfolding chained_mac mac_state mac_tag sxor
  chained_mac_lem secret x h e = ground (
    arith,
    laws.length-aes_ecb secret (take 16 (prim.digest (prim.update h [])))
        (length-take_digest (prim.update h [])),
  )

  frame_mac_lem :
      (secret x : Bytes) (h : H)
      → frame_mac prim secret x h ≡ (frame_state prim secret h x, ok (frame_tag prim secret h x))
  unfolding frame_mac frame_state frame_tag
  frame_mac_lem secret x h =
      chained_mac_lem secret (take 16 (prim.digest (prim.update h x))) (prim.update h x)
        (length-take_digest (prim.update h x))

  pub length-mac_tag : (secret x : Bytes) (h : H) → length (mac_tag prim secret h x) ≡ 16
  unfolding mac_tag
  length-mac_tag secret x h = length-take_digest (mac_state prim secret h x)

  pub length-frame_tag : (secret x : Bytes) (h : H) → length (frame_tag prim secret h x) ≡ 16
  unfolding frame_tag
  length-frame_tag secret x h =
      length-mac_tag secret (take 16 (prim.digest (prim.update h x))) (prim.update h x)

-- The ciphertexts and the hashes of a frame that is encrypted with the keys `k`.
module _ {A H : Type 0} (prim : Primitives A H) (k : Keys A H) (header frame : Bytes) where
  abbrev pub header_out : Bytes
  header_out = (prim.aes_encrypt k.aes_enc header).1

  abbrev pub between : A
  between = (prim.aes_encrypt k.aes_enc header).0

  abbrev pub frame_out : Bytes
  frame_out = (prim.aes_encrypt between frame).1

  abbrev pub header_state : H
  header_state = mac_state prim k.mac_secret k.egress_mac header_out

  abbrev pub header_tag : Bytes
  header_tag = mac_tag prim k.mac_secret k.egress_mac header_out

  abbrev pub sealed : Bytes
  sealed =
      header_out
      ++ (header_tag ++ (frame_out ++ frame_tag prim k.mac_secret header_state frame_out))

  abbrev pub sealing : Keys A H
  sealing = record k {
    aes_enc = (prim.aes_encrypt between frame).0;
    egress_mac = frame_state prim k.mac_secret header_state frame_out;
  }

module _ {A H : Type 0} (prim : Primitives A H) {Paired : A → A → Type 0}
    (laws : IsCipher prim Paired) where
  pub encrypt_with_lem :
      (header frame : Bytes) (k : Keys A H)
      → length header ≡ 16
      → length frame % 16 ≡ 0
      → encrypt_with prim header frame k
        ≡ (sealing prim k header frame, ok (sealed prim k header frame))
  unfolding encrypt_with
  encrypt_with_lem header frame k e₁ e₂ = ground (
    arith,
    laws.length-aes_encrypt k.aes_enc header,
    laws.length-aes_encrypt (between prim k header frame) frame,
    chained_mac_lem prim laws k.mac_secret (header_out prim k header frame) k.egress_mac
        (laws.length-aes_encrypt k.aes_enc header ∙ e₁),
    frame_mac_lem prim laws k.mac_secret (frame_out prim k header frame)
        (header_state prim k header frame),
  )

  length-take_16 : (b : Bytes) → 16 ≤ length b → length (take 16 b) ≡ 16
  length-take_16 b h = omega (arith, length-take 16 b)

  -- A header is decrypted if its mac is the one that the session expects.
  pub decrypt_header_with_lem :
      (bytes : Bytes) (k : Keys A H)
      → length bytes ≡ 32
      → take 16 (drop 16 bytes) ≡ mac_tag prim k.mac_secret k.ingress_mac (take 16 bytes)
      → decrypt_header_with prim bytes k ≡ (
        record k {
          ingress_mac = mac_state prim k.mac_secret k.ingress_mac (take 16 bytes);
          aes_dec = (prim.aes_decrypt k.aes_dec (take 16 bytes)).0;
        },
        ok ((prim.aes_decrypt k.aes_dec (take 16 bytes)).1),
      )
  unfolding decrypt_header_with
  decrypt_header_with_lem bytes k e t = ground (
    arith,
    chained_mac_lem prim laws k.mac_secret (take 16 bytes) k.ingress_mac
        (length-take_16 bytes (omega arith)),
    bytes_eq_iff (mac_tag prim k.mac_secret k.ingress_mac (take 16 bytes))
        (take 16 (drop 16 bytes)),
  )

  -- A header of 32 bytes with any other mac is refused: nothing is decrypted, but the running hash
  -- has gone on.
  pub decrypt_header_with-forged :
      (bytes : Bytes) (k : Keys A H)
      → length bytes ≡ 32
      → take 16 (drop 16 bytes) ≢ mac_tag prim k.mac_secret k.ingress_mac (take 16 bytes)
      → decrypt_header_with prim bytes k ≡ (
        record k { ingress_mac = mac_state prim k.mac_secret k.ingress_mac (take 16 bytes) },
        err authentication_error,
      )
  unfolding decrypt_header_with
  decrypt_header_with-forged bytes k e t = ground (
    arith,
    chained_mac_lem prim laws k.mac_secret (take 16 bytes) k.ingress_mac
        (length-take_16 bytes (omega arith)),
    bytes_eq_iff (mac_tag prim k.mac_secret k.ingress_mac (take 16 bytes))
        (take 16 (drop 16 bytes)),
  )

  length-drop-take : (n : ℕ) (b : Bytes) → n + 16 ≤ length b → length (take 16 (drop n b)) ≡ 16
  length-drop-take n b h = omega (arith, length-take 16 (drop n b), length-drop n b)

  pub decrypt_body_with_lem :
      (bytes : Bytes) (size : ℕ) (k : Keys A H)
      → ceil16 size + 16 ≤ length bytes
      → take 16 (drop (ceil16 size) bytes)
        ≡ frame_tag prim k.mac_secret k.ingress_mac (take (ceil16 size) bytes)
      → decrypt_body_with prim bytes size k ≡ (
        record k {
          ingress_mac = frame_state prim k.mac_secret k.ingress_mac (take (ceil16 size) bytes);
          aes_dec = (prim.aes_decrypt k.aes_dec (take (ceil16 size) bytes)).0;
        },
        ok (take size ((prim.aes_decrypt k.aes_dec (take (ceil16 size) bytes)).1)),
      )
  unfolding decrypt_body_with
  decrypt_body_with_lem bytes size k e t = ground (
    arith,
    frame_mac_lem prim laws k.mac_secret (take (ceil16 size) bytes) k.ingress_mac,
    length-drop-take (ceil16 size) bytes e,
    bytes_eq_iff (take 16 (drop (ceil16 size) bytes))
        (frame_tag prim k.mac_secret k.ingress_mac (take (ceil16 size) bytes)),
  )

  -- A body that is long enough and whose mac is not the expected one is refused and not decrypted.
  pub decrypt_body_with-forged :
      (bytes : Bytes) (size : ℕ) (k : Keys A H)
      → ceil16 size + 16 ≤ length bytes
      → take 16 (drop (ceil16 size) bytes)
        ≢ frame_tag prim k.mac_secret k.ingress_mac (take (ceil16 size) bytes)
      → decrypt_body_with prim bytes size k ≡ (
        record k {
          ingress_mac = frame_state prim k.mac_secret k.ingress_mac (take (ceil16 size) bytes);
        },
        err authentication_error,
      )
  unfolding decrypt_body_with
  decrypt_body_with-forged bytes size k e t = ground (
    arith,
    frame_mac_lem prim laws k.mac_secret (take (ceil16 size) bytes) k.ingress_mac,
    length-drop-take (ceil16 size) bytes e,
    bytes_eq_iff (take 16 (drop (ceil16 size) bytes))
        (frame_tag prim k.mac_secret k.ingress_mac (take (ceil16 size) bytes)),
  )
