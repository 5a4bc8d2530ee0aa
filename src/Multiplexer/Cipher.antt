-- ===== src/Multiplexer/Cipher.antt =====
-- The interface between class `Multiplexer` and its frame cipher, in pydevp2p/devp2p/multiplexer.py:
-- `Frame.as_bytes`, `Multiplexer.decode_header` and the reading of a body in `decode_body`, with the
-- cipher or without. Class `RLPxSession` of rlpxcipher.py implements the interface.
use structured_p2p_overlay_n.Prelude.{
  ℕ, ◌+◌, ◌%◌, true, Option, none, some, length, take, drop, leb, ◌==◌, if◌then◌else◌, Result, ok,
  err, assertion_error,
}
use structured_p2p_overlay_n.Prelude.Bytes.{Bytes, from_be}
use structured_p2p_overlay_n.Prelude.Exec.{Exec, pure, lift, assert, ◌>>=◌, ◌>>◌}
use structured_p2p_overlay_n.Rlp.{Rlp}
use structured_p2p_overlay_n.Multiplexer.Frame.{
  Frame, header_size, mac_size, padding, ceil16, header, body, frame_size, plain_bytes,
}

-- `encrypt(header, frame)`, `decrypt_header(data)` and `decrypt_body(data, body_size)`, which may
-- raise, and change the state `K` of the cipher.
pub record FrameCipher (K : Type 0) : Type 0 where
  pub encrypt : Bytes → Bytes → Exec K Bytes
  pub decrypt_header : Bytes → Exec K Bytes
  pub decrypt_body : Bytes → ℕ → Exec K Bytes

-- a method of the cipher, as a method of what holds it
unfoldable pub on_cipher : {K A : Type 0} → Exec K A → K → Option K × Result A
on_cipher m k = (some (m k).0, (m k).1)

-- `struct.unpack('>I', b'\x00' + header[:3])[0]`
unfoldable pub header_body_size : Bytes → ℕ
header_body_size h = from_be 0 (take 3 h)

-- the body in a buffer that begins with a frame, without a cipher
unfoldable pub plain_body : Bytes → ℕ → Bytes
plain_body buffer size = take size (drop (header_size + mac_size) buffer)

unfoldable pub read_plain : Bytes → ℕ → Result Bytes
read_plain buffer size =
    if length (plain_body buffer size) == size
    then (if ceil16 (header_size + mac_size + size + mac_size) % padding == 0
        then ok (plain_body buffer size)
        else err assertion_error)
    else err assertion_error

module _ (rlp : Rlp) {K : Type 0} (cipher : FrameCipher K) where
  unfoldable pub encrypt_frame : Frame → Exec K Bytes
  unfolding ◌>>=◌ assert
  encrypt_frame f = do
    h ← lift (header rlp f)
    e ← cipher.encrypt h (body rlp f)
    assert (length e == frame_size rlp f) assertion_error
    pure e

  -- A frame is sent at most once if there is a cipher.
  unfoldable pub as_bytes : Exec (Frame × Option K) Bytes
  as_bytes (f, none) =
      ((f, none), if f.cipher_called then err assertion_error else plain_bytes rlp f)
  as_bytes (f, some k) =
      let sent = encrypt_frame f k in
      if f.cipher_called
      then ((f, some k), err assertion_error)
      else ((record f { cipher_called = true }, some sent.0), sent.1)

module _ {K : Type 0} (cipher : FrameCipher K) where
  unfoldable pub decode_header : Bytes → Exec (Option K) Bytes
  unfolding on_cipher
  decode_header buffer none =
      (none, if leb 32 (length buffer) then ok (take header_size buffer) else err assertion_error)
  decode_header buffer (some k) =
      if leb 32 (length buffer)
      then on_cipher (cipher.decrypt_header (take (header_size + mac_size) buffer)) k
      else (some k, err assertion_error)

  unfoldable pub decrypt_frame : Bytes → ℕ → Exec K Bytes
  unfolding ◌>>=◌ assert
  decrypt_frame buffer size = do
    b ← cipher.decrypt_body (drop (header_size + mac_size) buffer) size
    assert (length b == size) assertion_error
    -- `bytes_read` is computed from the length of the body
    assert ((header_size + mac_size + ceil16 (length b) + mac_size) % padding == 0) assertion_error
    pure b

  -- the body of the frame at the front of the buffer, of the size that its header gives
  unfoldable pub read_body : Bytes → ℕ → Exec (Option K) Bytes
  unfolding on_cipher plain_body
  read_body buffer size none = (none, read_plain buffer size)
  read_body buffer size (some k) = on_cipher (decrypt_frame buffer size) k
