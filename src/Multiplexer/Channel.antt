-- ===== src/Multiplexer/Channel.antt =====
-- What the multiplexer relies on in its frame cipher: the peer reads each frame as it was sent. The
-- two states of a channel are those of the sender's and of the receiver's cipher; no cipher at all is
-- a channel too. pydevp2p/devp2p/multiplexer.py, Frame.as_bytes, decode_header and decode_body.
use structured_p2p_overlay_n.Prelude.{
  ℕ, ◌+◌, ◌-◌, ◌≤◌, Bool, false, Option, none, List, ◌++◌, length, take, drop, replicate, ok, err,
  ◌≡◌, refl, ap, ◌∙◌, arith, length-append, append_assoc, assertion_error, take-length-append,
  drop-length-append, le→leb, ==_iff, if◌then◌else◌, sym,
}
use structured_p2p_overlay_n.Prelude.Bytes.{Bytes}
use structured_p2p_overlay_n.Rlp.{Rlp, IsRlp}
use structured_p2p_overlay_n.Multiplexer.Frame.{
  Frame, ceil16, body, frame_size, body_size, enc_cmd_id, plain_bytes, header_size, mac_size,
}
use structured_p2p_overlay_n.Multiplexer.Frame.Chunks.{ceil16_bounds}
use structured_p2p_overlay_n.Multiplexer.Frame.Layout.{
  IsSendable, header_bytes, message, plain_bytes_lem, length-message, length-header_bytes,
}
use structured_p2p_overlay_n.Multiplexer.Cipher.{
  FrameCipher, as_bytes, decode_header, read_body, read_plain, plain_body,
}
use structured_p2p_overlay_n.Multiplexer.Receive.{seen_header}

-- The body without its padding: what the receiver hands on.
abbrev pub content : Rlp → Frame → Bytes
content rlp f = enc_cmd_id rlp f ++ f.payload

module _ (rlp : Rlp) {K : Type 0} (cipher : FrameCipher K) where
  -- The frame `f` with the header `h`, sent in state `s` and read in state `r`.
  pub record Delivery (Sync : Option K → Option K → Type 0) (f : Frame) (h : Bytes) (s r : Option K)
      : Type 0 where
    pub bytes : Bytes
    pub sender : Option K
    pub header_read : Option K
    pub receiver : Option K
    pub sent : (as_bytes rlp cipher (f, s)).1 ≡ ok bytes
    pub sent_state : (as_bytes rlp cipher (f, s)).0.1 ≡ sender
    pub length_sent : length bytes ≡ frame_size rlp f
    pub reads_header : (rest : Bytes) → decode_header cipher (bytes ++ rest) r ≡ (header_read, ok h)
    pub sees_header : (rest : Bytes) → seen_header rlp header_read (bytes ++ rest) h ≡ h
    pub reads_body :
        (rest : Bytes)
        → read_body cipher (bytes ++ rest) (body_size rlp f) header_read
          ≡ (receiver, ok (content rlp f))
    pub in_sync : Sync sender receiver

  -- Ciphers in sync deliver each frame, whatever follows it, and stay in sync.
  pub record IsChannel (Sync : Option K → Option K → Type 0) : Type 0 where
    pub deliver :
        (f : Frame) (l : List ℕ) (s r : Option K)
        → IsSendable rlp f l
        → f.cipher_called ≡ false
        → Sync s r
        → Delivery Sync f (header_bytes rlp (body_size rlp f) l) s r

-- two multiplexers without ciphers
pub data Plain {K : Type 0} : Option K → Option K → Type 0 where
  plain : Plain none none

module _ (rlp : Rlp) (laws : IsRlp rlp) (f : Frame) (l : List ℕ) (v : IsSendable rlp f l)
    (rest : Bytes) where
  abbrev macs : Bytes
  macs = replicate mac_size 0

  -- the front of the receiver's buffer
  abbrev front : Bytes
  front = message rlp laws f l v ++ rest

  at_header :
      front ≡ header_bytes rlp (body_size rlp f) l ++ ((macs ++ (body rlp f ++ macs)) ++ rest)
  at_header =
      append_assoc (header_bytes rlp (body_size rlp f) l) (macs ++ (body rlp f ++ macs)) rest

  at_body :
      front
      ≡ (header_bytes rlp (body_size rlp f) l ++ macs)
        ++ (content rlp f
            ++ (replicate (ceil16 (body_size rlp f) - body_size rlp f) 0 ++ (macs ++ rest)))
  unfolding body
  at_body = simp append_assoc

  take_header : take header_size front ≡ header_bytes rlp (body_size rlp f) l
  take_header =
      ap (take header_size) at_header
      ∙ take-length-append (header_bytes rlp (body_size rlp f) l) _ 16
          (sym (length-header_bytes rlp laws f l v))

  length-head : 32 ≡ length (header_bytes rlp (body_size rlp f) l ++ macs)
  length-head = omega (
    arith,
    length-append (header_bytes rlp (body_size rlp f) l) macs,
    length-header_bytes rlp laws f l v,
  )

  length-content : body_size rlp f ≡ length (content rlp f)
  unfolding body_size
  length-content = sym (length-append (enc_cmd_id rlp f) f.payload)

  take_body : plain_body front (body_size rlp f) ≡ content rlp f
  unfolding plain_body
  take_body =
      ap (λ b. take (body_size rlp f) (drop (header_size + mac_size) b)) at_body
      ∙ ap (take (body_size rlp f))
          (drop-length-append (header_bytes rlp (body_size rlp f) l ++ macs) _ 32 length-head)
      ∙ take-length-append (content rlp f) _ (body_size rlp f) length-content

  long : 32 ≤ length front
  unfolding frame_size
  long = omega (arith, length-append (message rlp laws f l v) rest, length-message rlp laws f l v)

  reads : read_plain front (body_size rlp f) ≡ ok (content rlp f)
  unfolding read_plain
  reads = rw (
    take_body,
    (==_iff _ _).1 (sym length-content),
    (==_iff _ _).1 (ceil16_bounds (16 + 16 + body_size rlp f + 16)).2,
  )

module _ (rlp : Rlp) (laws : IsRlp rlp) {K : Type 0} (cipher : FrameCipher K) where
  Plain-Delivery :
      (f : Frame) (l : List ℕ)
      → IsSendable rlp f l
      → f.cipher_called ≡ false
      → Delivery rlp cipher Plain f (header_bytes rlp (body_size rlp f) l) none none
  unfolding as_bytes decode_header seen_header read_body
  Plain-Delivery f l v fresh = record {
    bytes = message rlp laws f l v;
    sender = none;
    header_read = none;
    receiver = none;
    sent =
        ap (λ (b : Bool). if b then err assertion_error else plain_bytes rlp f) fresh
        ∙ plain_bytes_lem rlp laws f l v;
    sent_state = refl;
    length_sent = length-message rlp laws f l v;
    reads_header =
        λ rest. rw (le→leb _ _ (long rlp laws f l v rest), take_header rlp laws f l v rest);
    sees_header = λ rest. take_header rlp laws f l v rest;
    reads_body = λ rest. ap (λ r. (none, r)) (reads rlp laws f l v rest);
    in_sync = plain;
  }

  -- No cipher is a channel.
  pub Plain-IsChannel : IsChannel rlp cipher Plain
  Plain-IsChannel = record { deliver = go }
    where
      go :
          (f : Frame) (l : List ℕ) (s r : Option K)
          → IsSendable rlp f l
          → f.cipher_called ≡ false
          → Plain s r
          → Delivery rlp cipher Plain f (header_bytes rlp (body_size rlp f) l) s r
      go f l s r v fresh plain = Plain-Delivery f l v fresh
