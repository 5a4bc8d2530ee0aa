-- ===== src/Multiplexer/State.antt =====
-- Classes `Packet` and `Multiplexer` of pydevp2p/devp2p/multiplexer.py: the state, the active
-- protocols and their window, and `add_packet`.
use structured_p2p_overlay_n.Prelude.{
  ℕ, ◌+◌, ◌-◌, ◌*◌, ◌/◌, ◌%◌, ◌^◌, max, Bool, true, false, not, ◌&&◌, Option, none, some, List, [],
  ◌∷◌, ◌++◌, length, leb, ◌==◌, if◌then◌else◌, Result, ok, err, of_option, assertion_error,
  key_error,
}
use structured_p2p_overlay_n.Prelude.Bytes.{Bytes}
use structured_p2p_overlay_n.Prelude.Dict.{dict_get, dict_set}
use structured_p2p_overlay_n.Prelude.Exec.{Exec, lift, gets, modify, assert, ◌>>=◌, ◌>>◌}
use structured_p2p_overlay_n.Rlp.{Rlp}
use structured_p2p_overlay_n.Multiplexer.Frame.{Frame, frame_size, new_frames}

pub record Packet : Type 0 where
  pub protocol_id : ℕ
  pub cmd_id : ℕ
  pub payload : Bytes
  pub prioritize : Bool

pub record Queues : Type 0 where
  pub normal : List Frame
  pub chunked : List Frame
  pub priority : List Frame

-- A packet of which chunks have been received, with the attribute that `decode_body` gives it.
pub record Incomplete : Type 0 where
  pub packet : Packet
  pub total_payload_size : ℕ

pub record Multiplexer (K : Type 0) : Type 0 where
  pub frame_cipher : Option K
  pub queues : List (ℕ × Queues)
  pub sequence_id : List (ℕ × ℕ)
  pub last_protocol : Option ℕ
  pub chunked_buffers : List (ℕ × List (ℕ × Incomplete))
  pub decode_buffer : Bytes
  pub cached_decode_header : Option Bytes

abbrev pub max_window_size : ℕ
max_window_size = 8 * 1024

abbrev pub max_priority_frame_size : ℕ
max_priority_frame_size = 1024

unfoldable pub new_multiplexer : {K : Type 0} → Option K → Multiplexer K
new_multiplexer cipher = record {
  frame_cipher = cipher;
  queues = [];
  sequence_id = [];
  last_protocol = none;
  chunked_buffers = [];
  decode_buffer = [];
  cached_decode_header = none;
}

unfoldable pub qsizes : Queues → ℕ
qsizes q = length q.normal + length q.chunked + length q.priority

unfoldable pub is_active : Queues → Bool
is_active q = not (qsizes q == 0)

unfoldable pub count_active : List (ℕ × Queues) → ℕ
count_active [] = 0
count_active ((p, q) ∷ d) = (if is_active q then 1 else 0) + count_active d

-- `s - s % 16`, for `s` the share of the window
unfoldable pub whole_blocks : ℕ → ℕ
whole_blocks s = s - s % 16

-- `protocol_window_size()`, with no argument
unfoldable pub window_size : List (ℕ × Queues) → ℕ
window_size d = whole_blocks (max_window_size / max 1 (count_active d))

-- `protocol_window_size(protocol_id)`, for a protocol with the queues `q`. A protocol id 0 is false.
unfoldable pub window_size_for : ℕ → Queues → List (ℕ × Queues) → ℕ
window_size_for p q d =
    if not (p == 0) && not (is_active q)
    then whole_blocks (max_window_size / (1 + count_active d))
    else window_size d

unfoldable pub put_frames : List Frame → Queues → Queues
put_frames [] q = q
put_frames (f ∷ []) q = record q { normal = q.normal ++ f ∷ [] }
put_frames (f ∷ g ∷ fs) q = record q { chunked = q.chunked ++ (f ∷ g ∷ fs) }

module _ (rlp : Rlp) where
  unfoldable pub put_priority : List Frame → Queues → Result Queues
  put_priority [] q = err assertion_error
  put_priority (f ∷ []) q =
      if leb (frame_size rlp f) max_priority_frame_size
      then ok (record q { priority = q.priority ++ f ∷ [] })
      else err assertion_error
  put_priority (f ∷ g ∷ fs) q = err assertion_error

  -- the frames go to one of the three queues of the protocol
  unfoldable pub enqueue : Bool → List Frame → Queues → Result Queues
  unfolding put_priority put_frames
  enqueue prioritize fs q = if prioritize then put_priority fs q else ok (put_frames fs q)

module _ {K : Type 0} where
  unfoldable pub add_protocol : ℕ → Exec (Multiplexer K) (Unit {0})
  unfolding ◌>>=◌ assert
  add_protocol p = do
    known ← gets (λ (m : Multiplexer K). dict_get p m.queues)
    assert (elim known [ none ↦ true | some _ ↦ false ]) assertion_error
    modify (λ (m : Multiplexer K). record m {
      queues = dict_set p (record { normal = []; chunked = []; priority = [] }) m.queues;
      sequence_id = dict_set p 0 m.sequence_id;
      chunked_buffers = dict_set p [] m.chunked_buffers;
      last_protocol = some p;
    })

  unfoldable pub set_queues : ℕ → Queues → Exec (Multiplexer K) (Unit {0})
  set_queues p q = modify (λ (m : Multiplexer K). record m { queues = dict_set p q m.queues })

  module _ (rlp : Rlp) where
    -- The sequence id is used up whether or not the packet can be framed.
    unfoldable pub add_packet : Packet → Exec (Multiplexer K) (Unit {0})
    unfolding ◌>>=◌ set_queues
    add_packet packet = do
      let p = packet.protocol_id
      sids ← gets (λ (m : Multiplexer K). m.sequence_id)
      sid ← lift (of_option key_error (dict_get p sids))
      modify (λ (m : Multiplexer K). record m {
        sequence_id = dict_set p ((sid + 1) % 2 ^ 16) m.sequence_id;
      })
      all ← gets (λ (m : Multiplexer K). m.queues)
      q ← lift (of_option key_error (dict_get p all))
      fs ← lift (new_frames rlp p packet.cmd_id packet.payload (some sid) (window_size_for p q all))
      q' ← lift (enqueue rlp packet.prioritize fs q)
      set_queues p q'
