-- ===== src/MuxSession/Steps.antt =====
-- The calls of an RLPx session that make up the handshake of pydevp2p/devp2p/muxsession.py.
use structured_p2p_overlay_n.Prelude.Bytes.{Bytes}
use structured_p2p_overlay_n.Prelude.Exec.{Exec, pure, ◌>>=◌}
use structured_p2p_overlay_n.Rlpx.Session.{Primitives, RlpxSession}
use structured_p2p_overlay_n.Rlpx.Handshake.{
  Codec, create_auth_message, encrypt_auth_message, decode_authentication, create_auth_ack_message,
  encrypt_auth_ack_message,
}

module _ {A H : Type 0} (prim : Primitives A H) (codec : Codec) where
  -- `_send_init_msg`, on the session
  unfoldable pub open_session : Bytes → Bytes → Exec (RlpxSession A H) Bytes
  unfolding ◌>>=◌
  open_session remote nonce = do
    auth_msg ← create_auth_message prim codec remote nonce
    encrypt_auth_message prim codec auth_msg

  -- the answer of a responder: the ack and what is left of the message
  unfoldable pub acknowledge : Bytes → Bytes → Bytes → Exec (RlpxSession A H) (Bytes × Bytes)
  unfolding ◌>>=◌
  acknowledge nonce pad msg = do
    rest ← decode_authentication prim codec msg
    auth_ack_msg ← create_auth_ack_message prim codec nonce pad
    ack ← encrypt_auth_ack_message prim codec auth_ack_msg
    pure (ack, rest)
