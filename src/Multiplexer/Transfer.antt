-- ===== src/Multiplexer/Transfer.antt =====
-- A packet sent by one multiplexer and decoded by another, pydevp2p/devp2p/multiplexer.py: what one
-- frame does to the receiver.
pub mod Packets
pub mod Delivered
use structured_p2p_overlay_n.Prelude.{
  ℕ, zero, suc, ◌+◌, ◌-◌, ◌%◌, ◌^◌, ◌≤◌, ◌<◌, Bool, true, false, Option, none, some, List, [], ◌∷◌,
  ◌++◌, length, drop, Result, ok, err, ◌≡◌, refl, ap, ◌∙◌, arith, length-append, ltb, leb, le→ltb,
  All, of_option, multiplexer_error, ◌>>=◌, >>=-eq-ok, ap₂, append_assoc, of_option-eq-ok,
  ok-injective, subst, le→leb, drop-length-append, sym,
}
use structured_p2p_overlay_n.Prelude.Bytes.{Bytes}
use structured_p2p_overlay_n.Prelude.Dict.{dict_get, dict_set}
use structured_p2p_overlay_n.Rlp.{Rlp, IsRlp}
use structured_p2p_overlay_n.Multiplexer.Frame.{
  Frame, ceil16, header_list, frame_size, body_size, padded_body_size, header_size, mac_size,
}
use structured_p2p_overlay_n.Multiplexer.Frame.Layout.{
  IsSendable, header_bytes, header_body_size_lem, decode_list_lem,
}
use structured_p2p_overlay_n.Multiplexer.Cipher.{
  FrameCipher, as_bytes, decode_header, read_body, header_body_size,
}
use structured_p2p_overlay_n.Multiplexer.State.{Multiplexer, Incomplete, Packet}
use structured_p2p_overlay_n.Multiplexer.Receive.{
  HeaderData, Progress, Buffers, consumed, waiting, seen_header, accept, read_header,
  read_header_data, required_len, decode_one, decode_all, found, cached, as_deserialization,
}
use structured_p2p_overlay_n.Multiplexer.Channel.{Delivery, IsChannel, content}
use structured_p2p_overlay_n.Multiplexer.Send.{join_bytes, frame_bytes}

-- A multiplexer between two frames: the state of its cipher, its buffers of incomplete packets and
-- the bytes that it has not read.
abbrev pub receiving :
    {K : Type 0} → Multiplexer K → Option K → List (ℕ × Buffers) → Bytes → Multiplexer K
receiving m r d buffer = record m {
  frame_cipher = r;
  chunked_buffers = d;
  decode_buffer = buffer;
  cached_decode_header = none;
}

-- What a frame does to the buffers of the receiver, without its bytes: the specification of the wire.
unfoldable pub receive_frame :
    Rlp → Frame → List (ℕ × Buffers) → Result (List (ℕ × Buffers) × Option Packet)
receive_frame rlp f d = do
  l ← header_list f.protocol_id f.is_chunked_0 f.sequence_id f.total_payload_size
  hd ← read_header_data l
  c ← of_option multiplexer_error (dict_get hd.protocol_id d)
  result ← accept rlp hd (content rlp f) c
  ok (dict_set hd.protocol_id result.0 d, result.1)

-- the packets that a list of frames completes
unfoldable pub receive_frames :
    Rlp → List Frame → List (ℕ × Buffers) → Result (List (ℕ × Buffers) × List Packet)
receive_frames rlp [] d = ok (d, [])
receive_frames rlp (f ∷ fs) d = do
  one ← receive_frame rlp f d
  others ← receive_frames rlp fs one.0
  ok (others.0, found one.1 ++ others.1)

-- `ps` come before what is still to be decoded
abbrev pub prepend :
    {K : Type 0}
    → List Packet
    → Multiplexer K × Result (List Packet)
    → Multiplexer K × Result (List Packet)
prepend ps (m, ok qs) = (m, ok (ps ++ qs))
prepend ps (m, err e) = (m, err e)

prepend_nil : {K : Type 0} (x : Multiplexer K × Result (List Packet)) → prepend [] x ≡ x
prepend_nil (m, ok qs) = refl
prepend_nil (m, err e) = refl

prepend-prepend :
    {K : Type 0} (ps qs : List Packet) (x : Multiplexer K × Result (List Packet))
    → prepend ps (prepend qs x) ≡ prepend (ps ++ qs) x
prepend-prepend ps qs (m, ok rs) = ap (λ z. (m, ok z)) (sym (append_assoc ps qs rs))
prepend-prepend ps qs (m, err e) = refl

add_suc : (a b : ℕ) → suc a + b ≡ suc (a + b)
add_suc a b = omega arith

zero-add : (n : ℕ) → 0 + n ≡ n
zero-add n = omega arith

-- A frame whose fields fit its header and that was not sent before.
pub record IsReady (rlp : Rlp) (f : Frame) : Type 0 where
  pub listed : List ℕ
  pub sendable : IsSendable rlp f listed
  pub fresh : f.cipher_called ≡ false

module _ (rlp : Rlp) {K : Type 0} (cipher : FrameCipher K) (m : Multiplexer K) where
  -- One frame is read from the front of the buffer.
  decode_one_lem :
      (r header_read receiver : Option K) (d : List (ℕ × Buffers)) (buffer rest h b : Bytes)
      (hd : HeaderData) (c c' : Buffers) (o : Option Packet)
      → ltb (length buffer) (header_size + mac_size) ≡ false
      → decode_header cipher buffer r ≡ (header_read, ok h)
      → leb (required_len h) (length buffer) ≡ true
      → read_body cipher buffer (header_body_size h) header_read ≡ (receiver, ok b)
      → seen_header rlp header_read buffer h ≡ h
      → read_header rlp h ≡ ok hd
      → dict_get hd.protocol_id d ≡ some c
      → accept rlp hd b c ≡ ok (c', o)
      → drop (required_len h) buffer ≡ rest
      → decode_one rlp cipher (receiving m r d buffer)
        ≡ (receiving m receiver (dict_set hd.protocol_id c' d) rest, ok (consumed o))
  unfolding decode_one cached
  decode_one_lem r header_read receiver d buffer rest h b hd c c' o e1 e2 e3 e4 e5 e6 e7 e8 e9 =
      ground arith

  decode_all-step :
      (s t : Multiplexer K) (o : Option Packet) (n : ℕ)
      → decode_one rlp cipher s ≡ (t, ok (consumed o))
      → decode_all rlp cipher (suc n) s ≡ prepend (found o) (decode_all rlp cipher n t)
  unfolding decode_all
  decode_all-step s t o n e = ground arith

module _ (rlp : Rlp) {K : Type 0} (cipher : FrameCipher K)
    (Sync : Option K → Option K → Type 0) where
  -- The frames `fs` go from a sender to a receiver with the buffers `d`: the bytes that the sender
  -- makes of them, and what the receiver makes of these bytes, whatever follows them.
  pub record Arrival (fs : List Frame) (d d' : List (ℕ × Buffers)) (ps : List Packet)
      (s r : Option K) : Type 0 where
    pub bytes : Bytes
    pub sender : Option K
    pub receiver : Option K
    pub joins :
        (m : Multiplexer K)
        → join_bytes rlp cipher fs (record m { frame_cipher = s })
          ≡ (record m { frame_cipher = sender }, ok bytes)
    pub in_sync : Sync sender receiver
    pub reads :
        (m : Multiplexer K) (rest : Bytes) (n : ℕ)
        → decode_all rlp cipher (length fs + n) (receiving m r d (bytes ++ rest))
          ≡ prepend ps (decode_all rlp cipher n (receiving m receiver d' rest))

-- The parts of a frame that is received.
record Received (rlp : Rlp) (f : Frame) (d d' : List (ℕ × Buffers)) (o : Option Packet)
    : Type 0 where
  list : List ℕ
  header : HeaderData
  buffers : Buffers
  buffers' : Buffers
  listed : header_list f.protocol_id f.is_chunked_0 f.sequence_id f.total_payload_size ≡ ok list
  fields : read_header_data list ≡ ok header
  stored : dict_get header.protocol_id d ≡ some buffers
  accepted : accept rlp header (content rlp f) buffers ≡ ok (buffers', o)
  result : dict_set header.protocol_id buffers' d ≡ d'

receive_frame-Received :
    (rlp : Rlp) (f : Frame) (d d' : List (ℕ × Buffers)) (o : Option Packet)
    → receive_frame rlp f d ≡ ok (d', o)
    → Received rlp f d d' o
unfolding receive_frame
receive_frame-Received rlp f d d' o h =
    let (l', listed, h1) =
      >>=-eq-ok (header_list f.protocol_id f.is_chunked_0 f.sequence_id f.total_payload_size) _ h in
    let (hd, fields, h2) = >>=-eq-ok (read_header_data l') _ h1 in
    let (c, stored, h3) =
      >>=-eq-ok (of_option multiplexer_error (dict_get hd.protocol_id d)) _ h2 in
    let (result, accepted, h4) = >>=-eq-ok (accept rlp hd (content rlp f) c) _ h3 in
    record {
      list = l';
      header = hd;
      buffers = c;
      buffers' = result.0;
      listed = listed;
      fields = fields;
      stored = of_option-eq-ok multiplexer_error (dict_get hd.protocol_id d) stored;
      accepted =
          subst (λ z. accept rlp hd (content rlp f) c ≡ ok (result.0, z))
            (ap (λ z. z.1) (ok-injective h4)) accepted;
      result = ap (λ z. z.0) (ok-injective h4);
    }

module _ (rlp : Rlp) (laws : IsRlp rlp) (f : Frame) (l : List ℕ) (v : IsSendable rlp f l) where
  read_header_lem :
      {d d' : List (ℕ × Buffers)} {o : Option Packet} (p : Received rlp f d d' o)
      → read_header rlp (header_bytes rlp (body_size rlp f) l) ≡ ok p.header
  unfolding read_header as_deserialization
  read_header_lem p = rw (decode_list_lem rlp laws f l v) (
      subst (λ z. read_header_data z ≡ ok p.header) (ok-injective (sym p.listed ∙ v.listed))
        p.fields)

  required_len_lem :
      (b : Bytes)
      → length b ≡ frame_size rlp f
      → required_len (header_bytes rlp (body_size rlp f) l) ≡ length b
  unfolding required_len frame_size padded_body_size
  required_len_lem b e =
      ap (λ n. 16 + 16 + ceil16 n + 16) (header_body_size_lem rlp laws f l v) ∙ sym e

frame_size_ge : (rlp : Rlp) (f : Frame) → 48 ≤ frame_size rlp f
unfolding frame_size
frame_size_ge rlp f = omega arith

module _ (rlp : Rlp) (laws : IsRlp rlp) {K : Type 0} (cipher : FrameCipher K)
    {Sync : Option K → Option K → Type 0} (channel : IsChannel rlp cipher Sync) where
  frame_arrives :
      (f : Frame) (l : List ℕ) (s r : Option K) (v : IsSendable rlp f l)
      → (a : Delivery rlp cipher Sync f (header_bytes rlp (body_size rlp f) l) s r)
      → (m : Multiplexer K) (d d' : List (ℕ × Buffers)) (rest : Bytes) (o : Option Packet)
      → receive_frame rlp f d ≡ ok (d', o)
      → decode_one rlp cipher (receiving m r d (a.bytes ++ rest))
        ≡ (receiving m a.receiver d' rest, ok (consumed o))
  frame_arrives f l s r v a m d d' rest o h =
      let p = receive_frame-Received rlp f d d' o h in
      let hb : Bytes = header_bytes rlp (body_size rlp f) l in
      let whole = length-append a.bytes rest in
      let needed = required_len_lem rlp laws f l v a.bytes a.length_sent in
      let at_least = frame_size_ge rlp f in
      decode_one_lem rlp cipher m r a.header_read a.receiver d (a.bytes ++ rest) rest hb
        (content rlp f) p.header p.buffers p.buffers' o
        (le→ltb _ _ (omega (arith, whole, a.length_sent, at_least))) (a.reads_header rest)
        (le→leb _ _ (omega (arith, needed, whole)))
        (rw (header_body_size_lem rlp laws f l v) (a.reads_body rest)) (a.sees_header rest)
        (read_header_lem rlp laws f l v p) p.stored p.accepted
        (drop-length-append a.bytes rest _ needed)
      ∙ ap (λ z. (receiving m a.receiver z rest, ok (consumed o))) p.result

  none_arrive :
      (d : List (ℕ × Buffers)) (s r : Option K) → Sync s r → Arrival rlp cipher Sync [] d d [] s r
  unfolding join_bytes
  none_arrive d s r k = record {
    bytes = [];
    sender = s;
    receiver = r;
    joins = λ m. refl;
    in_sync = k;
    reads = λ m rest n.
        rw (zero-add n) (sym (prepend_nil (decode_all rlp cipher n (receiving m r d rest))));
  }

  one_more :
      (f : Frame) (l : List ℕ) (fs : List Frame) (d d₁ d₂ : List (ℕ × Buffers)) (o : Option Packet)
      (ps : List Packet) (s r : Option K) (v : IsSendable rlp f l)
      → receive_frame rlp f d ≡ ok (d₁, o)
      → (a : Delivery rlp cipher Sync f (header_bytes rlp (body_size rlp f) l) s r)
      → Arrival rlp cipher Sync fs d₁ d₂ ps a.sender a.receiver
      → Arrival rlp cipher Sync (f ∷ fs) d d₂ (found o ++ ps) s r
  unfolding join_bytes frame_bytes
  one_more f l fs d d₁ d₂ o ps s r v e a b = record {
    bytes = a.bytes ++ b.bytes;
    sender = b.sender;
    receiver = b.receiver;
    joins = λ m. ground (arith, b.joins m, a.sent, a.sent_state);
    in_sync = b.in_sync;
    reads = λ m rest n.
        ap₂ (λ k z. decode_all rlp cipher k (receiving m r d z)) (add_suc (length fs) n)
          (append_assoc a.bytes b.bytes rest)
        ∙ decode_all-step rlp cipher m _ _ o (length fs + n)
            (frame_arrives f l s r v a m d d₁ (b.bytes ++ rest) o e)
        ∙ ap (prepend (found o)) (b.reads m rest n)
        ∙ prepend-prepend (found o) ps (decode_all rlp cipher n (receiving m b.receiver d₂ rest));
  }

  -- The bytes of frames that are ready do to the receiver what the frames do.
  pub frames_arrive :
      (fs : List Frame) (d d' : List (ℕ × Buffers)) (ps : List Packet) (s r : Option K)
      → All (IsReady rlp) fs
      → Sync s r
      → receive_frames rlp fs d ≡ ok (d', ps)
      → Arrival rlp cipher Sync fs d d' ps s r
  unfolding receive_frames
  frames_arrive [] d d' ps s r h k e =
      subst (λ (z : List (ℕ × Buffers) × List Packet). Arrival rlp cipher Sync [] d z.0 z.1 s r)
        (ok-injective e) (none_arrive d s r k)
  frames_arrive (f ∷ fs) d d' ps s r h k e =
      let (one, e₁, h₁) = >>=-eq-ok (receive_frame rlp f d) _ e in
      let (others, e₂, h₂) = >>=-eq-ok (receive_frames rlp fs one.0) _ h₁ in
      let a = channel.deliver f h.0.listed s r h.0.sendable h.0.fresh k in
      subst
        (λ (z : List (ℕ × Buffers) × List Packet). Arrival rlp cipher Sync (f ∷ fs) d z.0 z.1 s r)
        (ok-injective h₂)
        (one_more f h.0.listed fs d one.0 others.0 one.1 others.1 s r h.0.sendable e₁ a
          (frames_arrive fs one.0 others.0 others.1 a.sender a.receiver h.1 a.in_sync e₂))
