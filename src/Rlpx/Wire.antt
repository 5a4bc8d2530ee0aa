-- ===== src/Rlpx/Wire.antt =====
-- The frame cipher of pydevp2p/devp2p/rlpxcipher.py behind the multiplexer's interface.
use structured_p2p_overlay_n.Prelude.{
  ℕ, ◌-◌, ◌≤◌, false, Option, some, List, ◌++◌, length, take, drop, replicate, ok, ◌≡◌, refl, ap,
  sym, ◌∙◌, arith, length-append, take-length-append, append_assoc,
}
use structured_p2p_overlay_n.Prelude.Bytes.{Bytes}
use structured_p2p_overlay_n.Rlp.{Rlp, IsRlp}
use structured_p2p_overlay_n.Multiplexer.Frame.{
  Frame, ceil16, body, body_size, frame_size, padded_body_size, enc_cmd_id,
}
use structured_p2p_overlay_n.Multiplexer.Frame.Chunks.{ceil16_bounds}
use structured_p2p_overlay_n.Multiplexer.Frame.Layout.{
  IsSendable, header_bytes, header_lem, length-header_bytes, length-body,
}
use structured_p2p_overlay_n.Multiplexer.Cipher.{
  encrypt_frame, as_bytes, decode_header, read_body, decrypt_frame,
}
use structured_p2p_overlay_n.Multiplexer.Receive.{seen_header}
use structured_p2p_overlay_n.Multiplexer.Channel.{Delivery, IsChannel, content}
use structured_p2p_overlay_n.Rlpx.Session.{
  Primitives, Keys, RlpxSession, decrypt_header, decrypt_body, decrypt_body_with, rlpx_cipher,
}
use structured_p2p_overlay_n.Rlpx.Frames.{IsCipher, sealed, sealing}
use structured_p2p_overlay_n.Rlpx.Channel.{
  InSync, Synced, synced, encrypt_lem, length-sealed, after_header, after_body, after-InSync,
  reads_header, reads_body,
}

module _ {A H : Type 0} (prim : Primitives A H) {Paired : A → A → Type 0}
    (laws : IsCipher prim Paired) (rlp : Rlp) (rlp_laws : IsRlp rlp) (f : Frame) (list : List ℕ)
    (v : IsSendable rlp f list) (s r : RlpxSession A H) (k l : Keys A H) (s_keys : s.keys ≡ some k)
    (r_keys : r.keys ≡ some l) (sync : InSync Paired k l) where
  abbrev h : Bytes
  h = header_bytes rlp (body_size rlp f) list

  abbrev b : Bytes
  b = body rlp f

  h_size : length h ≡ 16
  h_size = length-header_bytes rlp rlp_laws f list v

  b_size : ceil16 (body_size rlp f) ≡ length b
  b_size = sym (length-body rlp rlp_laws f list v)

  size_sent : length (sealed prim k h b) ≡ frame_size rlp f
  unfolding frame_size padded_body_size
  size_sent = omega (arith, length-sealed prim laws h b k, h_size, b_size)

  encrypts :
      encrypt_frame rlp (rlpx_cipher prim) f s
      ≡ (record s { keys = some (sealing prim k h b) }, ok (sealed prim k h b))
  unfolding encrypt_frame
  encrypts = ground (
    arith,
    header_lem rlp rlp_laws f list v,
    encrypt_lem prim laws h b s k s_keys h_size
        (omega (arith, b_size, ceil16_bounds (body_size rlp f))),
    size_sent,
  )

  body_content : take (body_size rlp f) b ≡ content rlp f
  unfolding body body_size
  body_content =
      ap (take (body_size rlp f)) (
        sym (
          append_assoc (enc_cmd_id rlp f) f.payload
            (replicate (ceil16 (body_size rlp f) - body_size rlp f) 0)))
      ∙ take-length-append (content rlp f) _ (body_size rlp f)
          (sym (length-append (enc_cmd_id rlp f) f.payload))

  abbrev middle : Option (RlpxSession A H)
  middle = some (record r { keys = some (after_header prim laws k l sync h b h_size) })

  long : (rest : Bytes) → 48 ≤ length (sealed prim k h b ++ rest)
  unfolding frame_size
  long rest = omega (arith, size_sent, length-append (sealed prim k h b) rest)

  header_arrives :
      (rest : Bytes)
      → decode_header (rlpx_cipher prim) (sealed prim k h b ++ rest) (some r) ≡ (middle, ok h)
  unfolding decode_header decrypt_header
  header_arrives rest =
      ground (arith, long rest, r_keys, reads_header prim laws k l sync h b h_size rest)

  abbrev final : Option (RlpxSession A H)
  final = some (record r { keys = some (after_body prim laws k l sync h b h_size) })

  length-content : length (content rlp f) ≡ body_size rlp f
  unfolding body_size
  length-content = length-append (enc_cmd_id rlp f) f.payload

  body_decrypts :
      (rest : Bytes)
      → decrypt_body_with prim
          (drop 32 (sealed prim k h b ++ rest))
          (body_size rlp f)
          (after_header prim laws k l sync h b h_size)
        ≡ (after_body prim laws k l sync h b h_size, ok (content rlp f))
  body_decrypts rest =
      reads_body prim laws k l sync h b h_size (body_size rlp f) b_size rest
      ∙ ap (λ z. (after_body prim laws k l sync h b h_size, ok z)) body_content

  body_arrives :
      (rest : Bytes)
      → read_body (rlpx_cipher prim) (sealed prim k h b ++ rest) (body_size rlp f) middle
        ≡ (final, ok (content rlp f))
  unfolding read_body decrypt_body decrypt_frame
  body_arrives rest =
      ground (arith, body_decrypts rest, length-content, ceil16_bounds (length (content rlp f)))

  rlpx-Delivery :
      f.cipher_called ≡ false
      → Delivery rlp (rlpx_cipher prim) (Synced Paired) f h (some s) (some r)
  unfolding as_bytes seen_header
  rlpx-Delivery fresh = record {
    bytes = sealed prim k h b;
    sender = some (record s { keys = some (sealing prim k h b) });
    header_read = middle;
    receiver = final;
    sent = ground (arith, fresh, encrypts);
    sent_state = ground (arith, fresh, encrypts);
    length_sent = size_sent;
    reads_header = header_arrives;
    sees_header = λ rest. refl;
    reads_body = body_arrives;
    in_sync = synced _ _ _ _ refl refl (after-InSync prim laws k l sync h b h_size);
  }

-- Between two sessions that are ready and in sync, each frame that one encrypts the other decrypts,
-- header and body, whatever bytes follow, and they stay in sync.
pub rlpx_delivers :
    {A H : Type 0} (prim : Primitives A H) {Paired : A → A → Type 0}
    → IsCipher prim Paired
    → (rlp : Rlp) → IsRlp rlp
    → (f : Frame) (list : List ℕ) (s r : Option (RlpxSession A H)) → IsSendable rlp f list
    → f.cipher_called ≡ false
    → Synced Paired s r
    → Delivery rlp
        (rlpx_cipher prim)
        (Synced Paired)
        f
        (header_bytes rlp (body_size rlp f) list)
        s
        r
rlpx_delivers prim laws rlp rlp_laws f list s r v fresh (synced s' r' k l s_keys r_keys sync) =
    rlpx-Delivery prim laws rlp rlp_laws f list v s' r' k l s_keys r_keys sync fresh

pub rlpx-IsChannel :
    {A H : Type 0} (prim : Primitives A H) {Paired : A → A → Type 0}
    → IsCipher prim Paired
    → (rlp : Rlp) → IsRlp rlp
    → IsChannel rlp (rlpx_cipher prim) (Synced Paired)
rlpx-IsChannel prim laws rlp rlp_laws = record { deliver = rlpx_delivers prim laws rlp rlp_laws }
