-- ===== src/Multiplexer/Send.antt =====
-- The sending half of class `Multiplexer` in pydevp2p/devp2p/multiplexer.py: the round robin over the
-- protocols and the queues.
use structured_p2p_overlay_n.Prelude.{
  ℕ, zero, suc, ◌+◌, Option, none, some, List, [], ◌∷◌, ◌++◌, take, drop, get_elem?, ltb, leb, ◌==◌,
  if◌then◌else◌, Result, ok, err, of_option, key_error, index_error, value_error, out_of_fuel,
}
use structured_p2p_overlay_n.Prelude.Bytes.{Bytes}
use structured_p2p_overlay_n.Prelude.Dict.{dict_get, dict_keys}
use structured_p2p_overlay_n.Prelude.Exec.{Exec, pure, lift, gets, modify, ◌>>=◌, ◌>>◌}
use structured_p2p_overlay_n.Rlp.{Rlp}
use structured_p2p_overlay_n.Multiplexer.Frame.{Frame, frame_size}
use structured_p2p_overlay_n.Multiplexer.Cipher.{FrameCipher, as_bytes}
use structured_p2p_overlay_n.Multiplexer.State.{
  Queues, Multiplexer, qsizes, window_size, set_queues,
}

pub data QueueName : Type 0 where
  priority normal chunked : QueueName

unfoldable pub queue : QueueName → Queues → List Frame
queue priority q = q.priority
queue normal q = q.normal
queue chunked q = q.chunked

unfoldable pub set_queue : QueueName → List Frame → Queues → Queues
set_queue priority l q = record q { priority = l }
set_queue normal l q = record q { normal = l }
set_queue chunked l q = record q { chunked = l }

-- the variables of the loops in `pop_frames_for_protocol`
pub record Round : Type 0 where
  pub queues : Queues
  pub frames : List Frame
  pub size : ℕ
  pub frames_added : ℕ

module _ (rlp : Rlp) where
  unfoldable pub pop_from : ℕ → QueueName → List Frame → Round → Round
  pop_from pws qn [] r = r
  pop_from pws qn (f ∷ l) r =
      if leb (r.size + frame_size rlp f) pws
      then record {
        queues = set_queue qn l r.queues;
        frames = r.frames ++ f ∷ [];
        size = r.size + frame_size rlp f;
        frames_added = r.frames_added + 1;
      }
      else r

  -- one pass of the inner loop, which a second frame ends
  unfoldable pub visit : ℕ → QueueName → Round → Round
  unfolding pop_from queue
  visit pws qn r = if r.frames_added == 2 then r else pop_from pws qn (queue qn r.queues) r

  unfoldable pub one_round : ℕ → Round → Round
  one_round pws r =
      visit pws chunked (visit pws normal (visit pws priority (record r { frames_added = 0 })))

  -- `while size < pws`, on fuel
  unfoldable pub rounds : ℕ → ℕ → Round → Result Round
  rounds zero pws r = err out_of_fuel
  rounds (suc n) pws r =
      let s = one_round pws r in
      let rest = rounds n pws s in
      if ltb r.size pws then (if s.frames_added == 0 then ok s else rest) else ok r

  unfoldable pub pop_queues : ℕ → Queues → Result Round
  pop_queues pws q =
      rounds (qsizes q + 1) pws (record { queues = q; frames = []; size = 0; frames_added = 0 })

-- `protocols.index(p)`
unfoldable pub index_of : ℕ → List ℕ → Result ℕ
index_of p [] = err value_error
index_of p (q ∷ l) =
    if q == p then ok 0 else elim (index_of p l) [ ok i ↦ ok (suc i) | err e ↦ err e ]

-- `protocols[-1]`
unfoldable pub last : List ℕ → Result ℕ
last [] = err index_error
last (p ∷ []) = ok p
last (p ∷ q ∷ l) = last (q ∷ l)

-- the protocol behind `l` in the list, or the first one
unfoldable pub following : Option ℕ → List ℕ → Result ℕ
following none [] = err index_error
following none (q ∷ l) = err value_error
following (some p) l = elim (last l) [
  | err e ↦ err e
  | ok z ↦ if z == p then of_option index_error (get_elem? l 0) else (elim (index_of p l) [
    | err e ↦ err e
    | ok i ↦ of_option index_error (get_elem? l (i + 1))
  ])
]

unfoldable pub queued : List (ℕ × Queues) → ℕ
queued [] = 0
queued ((p, q) ∷ d) = qsizes q + queued d

module _ {K : Type 0} where
  unfoldable pub next_protocol : Exec (Multiplexer K) ℕ
  unfolding ◌>>=◌
  next_protocol = do
    protocols ← gets (λ (m : Multiplexer K). dict_keys m.queues)
    from ← gets (λ (m : Multiplexer K). m.last_protocol)
    p ← lift (following from protocols)
    modify (λ (m : Multiplexer K). record m { last_protocol = some p })
    pure p

  module _ (rlp : Rlp) where
    unfoldable pub pop_frames_for_protocol : ℕ → Exec (Multiplexer K) (List Frame)
    unfolding ◌>>=◌ set_queues
    pop_frames_for_protocol p = do
      all ← gets (λ (m : Multiplexer K). m.queues)
      q ← lift (of_option key_error (dict_get p all))
      r ← lift (pop_queues rlp (window_size all) q)
      set_queues p r.queues
      pure r.frames

    -- `for p in protocols`, up to the first that has frames to send
    unfoldable pub first_frames : List ℕ → Exec (Multiplexer K) (List Frame)
    unfolding ◌>>=◌
    first_frames [] = pure []
    first_frames (p ∷ l) = do
      fs ← pop_frames_for_protocol p
      elim fs [ [] ↦ first_frames l | f ∷ rest ↦ pure (f ∷ rest) ]

    unfoldable pub pop_frames : Exec (Multiplexer K) (List Frame)
    unfolding ◌>>=◌
    pop_frames = do
      protocols ← gets (λ (m : Multiplexer K). dict_keys m.queues)
      p ← next_protocol
      i ← lift (index_of p protocols)
      first_frames (drop i protocols ++ take i protocols)

    -- `while True`, on fuel
    unfoldable pub pop_until_empty : ℕ → Exec (Multiplexer K) (List Frame)
    unfolding ◌>>=◌
    pop_until_empty zero = lift (err out_of_fuel)
    pop_until_empty (suc n) = do
      r ← pop_frames
      elim r [ [] ↦ pure [] | f ∷ fs ↦ (do rest ← pop_until_empty n; pure ((f ∷ fs) ++ rest)) ]

    unfoldable pub pop_all_frames : Exec (Multiplexer K) (List Frame)
    unfolding ◌>>=◌
    pop_all_frames = do
      all ← gets (λ (m : Multiplexer K). m.queues)
      pop_until_empty (queued all + 1)

    module _ (cipher : FrameCipher K) where
      -- the bytes of one frame, with the cipher of the multiplexer
      unfoldable pub frame_bytes : Frame → Exec (Multiplexer K) Bytes
      frame_bytes f m =
          let s = as_bytes rlp cipher (f, m.frame_cipher) in
          (record m { frame_cipher = s.0.1 }, s.1)

      unfoldable pub join_bytes : List Frame → Exec (Multiplexer K) Bytes
      unfolding ◌>>=◌
      join_bytes [] = pure []
      join_bytes (f ∷ fs) = do b ← frame_bytes f; rest ← join_bytes fs; pure (b ++ rest)

      unfoldable pub pop_all_frames_as_bytes : Exec (Multiplexer K) Bytes
      unfolding ◌>>=◌
      pop_all_frames_as_bytes = do fs ← pop_all_frames; join_bytes fs
