-- ===== src/MuxSession.antt =====
-- Class MultiplexedSession of pydevp2p/devp2p/muxsession.py: the handshake and the packets of one
-- connection, over a multiplexer whose cipher is an RLPx session. Random nonces and padding are
-- arguments; the queues of gevent are lists.
pub mod Steps
pub mod Exchange
mod Tests
use structured_p2p_overlay_n.Prelude.{
  ℕ, Bool, true, false, not, Option, none, some, List, [], ◌∷◌, ◌++◌, Result, ok, err,
  if◌then◌else◌, assertion_error,
}
use structured_p2p_overlay_n.Prelude.Bytes.{Bytes}
use structured_p2p_overlay_n.Prelude.Exec.{
  Exec, pure, lift, gets, modify, assert, when, for_each, ◌>>=◌, ◌>>◌,
}
use structured_p2p_overlay_n.Rlp.{Rlp}
use structured_p2p_overlay_n.Multiplexer.Frame.{Frame}
use structured_p2p_overlay_n.Multiplexer.State.{Packet, Multiplexer, new_multiplexer}
use structured_p2p_overlay_n.Multiplexer.State
use structured_p2p_overlay_n.Multiplexer.Send.{pop_all_frames, frame_bytes}
use structured_p2p_overlay_n.Multiplexer.Receive.{decode}
use structured_p2p_overlay_n.Rlpx.Session.{Primitives, Ecc, RlpxSession, new_session, rlpx_cipher}
use structured_p2p_overlay_n.Rlpx.Handshake.{Codec, setup_cipher, decode_auth_ack_message}
use Steps.{open_session, acknowledge}

pub record MuxSession (A H : Type 0) : Type 0 where
  pub mux : Multiplexer (RlpxSession A H)
  pub is_initiator : Bool
  pub hello_packet : Packet
  pub remote_pubkey : Option Bytes
  pub message_queue : List Bytes
  pub packet_queue : List Packet
  pub handshaken : Bool

-- what is drawn at random: the two nonces and the padding of an ack
pub record Random : Type 0 where
  pub initiator_nonce : Bytes
  pub responder_nonce : Bytes
  pub pad : Bytes

-- `bool(remote_pubkey)`
unfoldable pub is_known : Option Bytes → Bool
is_known none = false
is_known (some []) = false
is_known (some (x ∷ xs)) = true

unfoldable pub is_empty : Bytes → Bool
is_empty [] = true
is_empty (x ∷ xs) = false

module _ {A H : Type 0} where
  -- `rlpx_session.is_ready`: the session has its keys
  unfoldable pub session_ready : Option (RlpxSession A H) → Bool
  session_ready none = false
  session_ready (some s) = elim (s.keys) [ none ↦ false | some k ↦ true ]

  unfoldable pub is_ready : MuxSession A H → Bool
  unfolding session_ready
  is_ready m = session_ready m.mux.frame_cipher

  -- a call of the session, which is the cipher of the multiplexer; there always is one
  unfoldable pub on_session : {B : Type 0} → Exec (RlpxSession A H) B → Exec (MuxSession A H) B
  on_session a m = elim (m.mux.frame_cipher) [
    | none ↦ (m, err assertion_error)
    | some s ↦ (record m { mux = record m.mux { frame_cipher = some (a s).0 } }, (a s).1)
  ]

  -- a call of a method of Multiplexer
  unfoldable pub on_mux :
      {B : Type 0} → Exec (Multiplexer (RlpxSession A H)) B → Exec (MuxSession A H) B
  on_mux a m = (record m { mux = (a m.mux).0 }, (a m.mux).1)

  -- `message_queue.put` and `packet_queue.put`
  unfoldable pub put_message : Bytes → Exec (MuxSession A H) (Unit {0})
  put_message b =
      modify (λ (m : MuxSession A H). record m { message_queue = m.message_queue ++ b ∷ [] })

  unfoldable pub put_packets : List Packet → Exec (MuxSession A H) (Unit {0})
  put_packets ps = modify (λ (m : MuxSession A H). record m { packet_queue = m.packet_queue ++ ps })

  module _ (prim : Primitives A H) (codec : Codec) (rlp : Rlp) where
    unfoldable pub send_frame : Frame → Exec (MuxSession A H) (Unit {0})
    unfolding ◌>>=◌ on_mux put_message
    send_frame f = do b ← on_mux (frame_bytes rlp (rlpx_cipher prim) f); put_message b

    unfoldable pub add_session_packet : Packet → Exec (MuxSession A H) (Unit {0})
    unfolding ◌>>=◌ assert on_mux send_frame for_each
    add_session_packet packet = do
      m ← gets (λ (m : MuxSession A H). m)
      assert (is_ready m) assertion_error
      on_mux (State.add_packet rlp packet)
      fs ← on_mux (pop_all_frames rlp)
      for_each fs send_frame

    -- `_add_message_post_handshake`
    unfoldable pub add_message_post_handshake : Bytes → Exec (MuxSession A H) (Unit {0})
    unfolding ◌>>=◌ on_mux put_packets
    add_message_post_handshake msg = do
      ps ← on_mux (decode rlp (rlpx_cipher prim) msg)
      put_packets ps

    module _ (random : Random) where
      unfoldable pub send_init_msg : Bytes → Exec (MuxSession A H) (Unit {0})
      unfolding ◌>>=◌ on_session put_message
      send_init_msg remote = do
        auth ← on_session (open_session prim codec remote random.initiator_nonce)
        put_message auth

      -- the branches of `_add_message_during_handshake`, up to the keys: what is left of the message
      unfoldable pub take_ack : Bytes → Exec (MuxSession A H) Bytes
      unfolding ◌>>=◌ on_session
      take_ack msg = do
        rest ← on_session (decode_auth_ack_message prim codec msg)
        on_session (setup_cipher prim)
        pure rest

      unfoldable pub take_auth : Bytes → Exec (MuxSession A H) Bytes
      unfolding ◌>>=◌ on_session put_message
      take_auth msg = do
        ack ← on_session (acknowledge prim codec random.responder_nonce random.pad msg)
        put_message ack.0
        on_session (setup_cipher prim)
        pure ack.1

      unfoldable pub shake_hands : Bytes → Exec (MuxSession A H) Bytes
      unfolding ◌>>=◌ take_ack take_auth
      shake_hands msg = do
        m ← gets (λ (m : MuxSession A H). m)
        if m.is_initiator then take_ack msg else take_auth msg

      unfoldable pub add_message_during_handshake : Bytes → Exec (MuxSession A H) (Unit {0})
      unfolding ◌>>=◌ assert when shake_hands add_message_post_handshake add_session_packet
      add_message_during_handshake msg = do
        m ← gets (λ (m : MuxSession A H). m)
        assert (not (is_ready m)) assertion_error
        rest ← shake_hands msg
        when (not (is_empty rest)) (add_message_post_handshake rest)
        modify (λ (m : MuxSession A H). record m { handshaken = true })
        m ← gets (λ (m : MuxSession A H). m)
        assert (is_ready m) assertion_error
        add_session_packet m.hello_packet

      -- `add_message`, which is set to the second method behind the handshake
      unfoldable pub add_message : Bytes → Exec (MuxSession A H) (Unit {0})
      unfolding ◌>>=◌ add_message_during_handshake add_message_post_handshake
      add_message msg = do
        m ← gets (λ (m : MuxSession A H). m)
        if m.handshaken then add_message_post_handshake msg else add_message_during_handshake msg

      -- `__init__`, with the keys of the session
      unfoldable pub new_mux_session :
          Ecc → Ecc → Packet → Option Bytes → MuxSession A H × Result (Unit {0})
      unfolding send_init_msg
      new_mux_session ecc ephemeral_ecc hello_packet remote_pubkey =
          let blank : MuxSession A H = record {
            mux = new_multiplexer (some (new_session ecc (is_known remote_pubkey) ephemeral_ecc));
            is_initiator = is_known remote_pubkey;
            hello_packet = hello_packet;
            remote_pubkey = remote_pubkey;
            message_queue = [];
            packet_queue = [];
            handshaken = false;
          } in
          elim remote_pubkey [
            | none ↦ (blank, ok tt)
            | some remote ↦ if is_empty remote then (blank, ok tt) else send_init_msg remote blank
          ]
