-- ===== src/Rlpx/Channel.antt =====
-- Two sessions as the ends of a channel: what `encrypt` makes of a frame is what the other end reads,
-- pydevp2p/devp2p/rlpxcipher.py and Frame.as_bytes of multiplexer.py.
use structured_p2p_overlay_n.Prelude.{
  ℕ, ◌+◌, ◌%◌, ◌≤◌, Option, some, [], ◌++◌, length, take, drop, ok, ◌≡◌, ap, ap₂, sym, ◌∙◌, arith,
  length-append, take-length-append, drop-length-append, append_assoc, append-nil,
}
use structured_p2p_overlay_n.Prelude.Bytes.{Bytes}
use structured_p2p_overlay_n.Multiplexer.Frame.{ceil16}
use structured_p2p_overlay_n.Rlpx.Session.{
  Primitives, Keys, RlpxSession, encrypt, decrypt_header_with, decrypt_body_with,
}
use structured_p2p_overlay_n.Rlpx.Frames.{
  IsCipher, mac_state, mac_tag, frame_state, frame_tag, header_out, between, frame_out,
  header_state, header_tag, sealed, sealing, length-mac_tag, length-frame_tag, encrypt_with_lem,
  decrypt_header_with_lem, decrypt_body_with_lem,
}

module _ {A H : Type 0} (Paired : A → A → Type 0) where
  -- What one end writes with the keys `k` the other end reads with the keys `l`.
  pub record InSync (k l : Keys A H) : Type 0 where
    pub secrets : k.mac_secret ≡ l.mac_secret
    pub macs : k.egress_mac ≡ l.ingress_mac
    pub streams : Paired k.aes_enc l.aes_dec

  -- two sessions that are ready and in sync
  pub data Synced : Option (RlpxSession A H) → Option (RlpxSession A H) → Type 0 where
    synced :
        (s r : RlpxSession A H) (k l : Keys A H)
        → s.keys ≡ some k
        → r.keys ≡ some l
        → InSync k l
        → Synced (some s) (some r)

module _ {A H : Type 0} (prim : Primitives A H) {Paired : A → A → Type 0}
    (laws : IsCipher prim Paired) where
  pub encrypt_lem :
      (h b : Bytes) (s : RlpxSession A H) (k : Keys A H)
      → s.keys ≡ some k
      → length h ≡ 16
      → length b % 16 ≡ 0
      → encrypt prim h b s ≡ (record s { keys = some (sealing prim k h b) }, ok (sealed prim k h b))
  unfolding encrypt
  encrypt_lem h b s k e e₁ e₂ = ground (arith, encrypt_with_lem prim laws h b k e₁ e₂)

  pub length-sealed :
      (h b : Bytes) (k : Keys A H) → length (sealed prim k h b) ≡ length h + (16 + (length b + 16))
  length-sealed h b k = omega (
    arith,
    length-append (header_out prim k h b) (
        header_tag prim k h b
        ++ (frame_out prim k h b
            ++ frame_tag prim k.mac_secret (header_state prim k h b) (frame_out prim k h b))),
    length-append (header_tag prim k h b) (
        frame_out prim k h b
        ++ frame_tag prim k.mac_secret (header_state prim k h b) (frame_out prim k h b)),
    length-append (frame_out prim k h b)
        (frame_tag prim k.mac_secret (header_state prim k h b) (frame_out prim k h b)),
    laws.length-aes_encrypt k.aes_enc h,
    laws.length-aes_encrypt (between prim k h b) b,
    length-mac_tag prim laws k.mac_secret (header_out prim k h b) k.egress_mac,
    length-frame_tag prim laws k.mac_secret (frame_out prim k h b) (header_state prim k h b),
  )

-- A header and a body that cross from the keys `k` to the keys `l`.
module _ {A H : Type 0} (prim : Primitives A H) {Paired : A → A → Type 0}
    (laws : IsCipher prim Paired) (k l : Keys A H) (sync : InSync Paired k l) (h b : Bytes)
    (h_size : length h ≡ 16) where
  -- the receiver's keys behind the header, and behind the body
  unfoldable pub after_header : Keys A H
  after_header = record l {
    ingress_mac = mac_state prim l.mac_secret l.ingress_mac (header_out prim k h b);
    aes_dec = (prim.aes_decrypt l.aes_dec (header_out prim k h b)).0;
  }

  pub after_body : Keys A H
  unfolding after_header
  after_body = record after_header {
    ingress_mac = frame_state prim l.mac_secret after_header.ingress_mac (frame_out prim k h b);
    aes_dec = (prim.aes_decrypt after_header.aes_dec (frame_out prim k h b)).0;
  }

  tags : header_tag prim k h b ≡ mac_tag prim l.mac_secret l.ingress_mac (header_out prim k h b)
  tags = ap₂ (λ z w. mac_tag prim z w (header_out prim k h b)) sync.secrets sync.macs

  pub states :
      header_state prim k h b ≡ mac_state prim l.mac_secret l.ingress_mac (header_out prim k h b)
  states = ap₂ (λ z w. mac_state prim z w (header_out prim k h b)) sync.secrets sync.macs

  pub after-InSync : InSync Paired (sealing prim k h b) after_body
  unfolding after_body
  after-InSync = record {
    secrets = sync.secrets;
    macs = ap₂ (λ z w. frame_state prim z w (frame_out prim k h b)) sync.secrets states;
    streams =
        laws.decrypt-Paired (between prim k h b) after_header.aes_dec b
          (laws.decrypt-Paired k.aes_enc l.aes_dec h sync.streams);
  }

  -- the bytes behind the header's ciphertext, and those behind its mac
  abbrev pub behind : Bytes → Bytes
  behind rest =
      frame_out prim k h b
      ++ (frame_tag prim k.mac_secret (header_state prim k h b) (frame_out prim k h b) ++ rest)

  at_front :
      (rest : Bytes)
      → sealed prim k h b ++ rest ≡ (header_out prim k h b ++ header_tag prim k h b) ++ behind rest
  at_front rest = simp append_assoc

  header_32 : 32 ≡ length (header_out prim k h b ++ header_tag prim k h b)
  header_32 = omega (
    arith,
    length-append (header_out prim k h b) (header_tag prim k h b),
    laws.length-aes_encrypt k.aes_enc h,
    length-mac_tag prim laws k.mac_secret (header_out prim k h b) k.egress_mac,
  )

  pub take_32 :
      (rest : Bytes)
      → take 32 (sealed prim k h b ++ rest) ≡ header_out prim k h b ++ header_tag prim k h b
  take_32 rest =
      ap (take 32) (at_front rest)
      ∙ take-length-append (header_out prim k h b ++ header_tag prim k h b) (behind rest) 32
          header_32

  pub drop_32 : (rest : Bytes) → drop 32 (sealed prim k h b ++ rest) ≡ behind rest
  drop_32 rest =
      ap (drop 32) (at_front rest)
      ∙ drop-length-append (header_out prim k h b ++ header_tag prim k h b) (behind rest) 32
          header_32

  front_16 : take 16 (header_out prim k h b ++ header_tag prim k h b) ≡ header_out prim k h b
  front_16 =
      take-length-append (header_out prim k h b) (header_tag prim k h b) 16
        (sym (laws.length-aes_encrypt k.aes_enc h ∙ h_size))

  back_16 :
      take 16 (drop 16 (header_out prim k h b ++ header_tag prim k h b)) ≡ header_tag prim k h b
  back_16 =
      ap (take 16) (
        drop-length-append (header_out prim k h b) (header_tag prim k h b) 16
          (sym (laws.length-aes_encrypt k.aes_enc h ∙ h_size))
        ∙ sym (append-nil (header_tag prim k h b)))
      ∙ take-length-append (header_tag prim k h b) [] 16
          (sym (length-mac_tag prim laws k.mac_secret (header_out prim k h b) k.egress_mac))

  pub reads_header :
      (rest : Bytes)
      → decrypt_header_with prim (take 32 (sealed prim k h b ++ rest)) l ≡ (after_header, ok h)
  unfolding after_header
  reads_header rest =
      ap (λ z. decrypt_header_with prim z l) (take_32 rest)
      ∙ decrypt_header_with_lem prim laws (header_out prim k h b ++ header_tag prim k h b) l
          (sym header_32)
          (back_16 ∙ tags ∙ ap (mac_tag prim l.mac_secret l.ingress_mac) (sym front_16))
      ∙ ap
          (λ z. (
            record l {
              ingress_mac = mac_state prim l.mac_secret l.ingress_mac z;
              aes_dec = (prim.aes_decrypt l.aes_dec z).0;
            },
            ok ((prim.aes_decrypt l.aes_dec z).1),
          ))
          front_16
      ∙ ap (λ z. (after_header, ok z)) (laws.decrypt-encrypt k.aes_enc l.aes_dec h sync.streams)

  module _ (size : ℕ) (b_size : ceil16 size ≡ length b) where
    pub front_body : (rest : Bytes) → take (ceil16 size) (behind rest) ≡ frame_out prim k h b
    front_body rest =
        take-length-append (frame_out prim k h b) _ (ceil16 size)
          (b_size ∙ sym (laws.length-aes_encrypt (between prim k h b) b))

    pub back_body :
        (rest : Bytes)
        → take 16 (drop (ceil16 size) (behind rest))
          ≡ frame_tag prim k.mac_secret (header_state prim k h b) (frame_out prim k h b)
    back_body rest =
        ap (take 16) (
          drop-length-append (frame_out prim k h b) _ (ceil16 size)
            (b_size ∙ sym (laws.length-aes_encrypt (between prim k h b) b)))
        ∙ take-length-append
            (frame_tag prim k.mac_secret (header_state prim k h b) (frame_out prim k h b)) rest 16
            (sym (
              length-frame_tag prim laws k.mac_secret (frame_out prim k h b)
                (header_state prim k h b)))

    long_enough : (rest : Bytes) → ceil16 size + 16 ≤ length (behind rest)
    long_enough rest = omega (
      arith,
      b_size,
      laws.length-aes_encrypt (between prim k h b) b,
      length-append (frame_out prim k h b)
          (frame_tag prim k.mac_secret (header_state prim k h b) (frame_out prim k h b) ++ rest),
      length-append (frame_tag prim k.mac_secret (header_state prim k h b) (frame_out prim k h b))
          rest,
      length-frame_tag prim laws k.mac_secret (frame_out prim k h b) (header_state prim k h b),
    )

    pub reads_body :
        (rest : Bytes)
        → decrypt_body_with prim (drop 32 (sealed prim k h b ++ rest)) size after_header
          ≡ (after_body, ok (take size b))
    unfolding after_body
    reads_body rest =
        ap (λ z. decrypt_body_with prim z size after_header) (drop_32 rest)
        ∙ decrypt_body_with_lem prim laws (behind rest) size after_header (long_enough rest) (
            back_body rest
            ∙ ap₂ (λ z w. frame_tag prim z w (frame_out prim k h b)) sync.secrets states
            ∙ ap (frame_tag prim l.mac_secret after_header.ingress_mac) (sym (front_body rest)))
        ∙ ap
            (λ z. (
              record after_header {
                ingress_mac = frame_state prim l.mac_secret after_header.ingress_mac z;
                aes_dec = (prim.aes_decrypt after_header.aes_dec z).0;
              },
              ok (take size ((prim.aes_decrypt after_header.aes_dec z).1)),
            ))
            (front_body rest)
        ∙ ap (λ z. (after_body, ok (take size z)))
            (laws.decrypt-encrypt (between prim k h b) after_header.aes_dec b
              (laws.decrypt-Paired k.aes_enc l.aes_dec h sync.streams))
