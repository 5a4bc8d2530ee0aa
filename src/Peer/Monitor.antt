-- ===== src/Peer/Monitor.antt =====
-- Class ConnectionMonitor of pydevp2p/devp2p/p2p_protocol.py: the pings of a connection and their
-- answers. Times are whole milliseconds.
use structured_p2p_overlay_n.Prelude.{
  All, ◌⊎◌, ℕ, suc, ◌+◌, ◌*◌, ◌≤◌, ◌<◌, ◌≡◌, refl, arith, Bool, true, false, List, [], ◌∷◌, length,
  take, ltb, if◌then◌else◌, Bool-cases, inl, inr, ltb→le,
}

abbrev pub ping_interval : ℕ
ping_interval = 15000

abbrev pub response_delay_threshold : ℕ
response_delay_threshold = 120000

abbrev pub max_samples : ℕ
max_samples = 1000

-- A sample is kept as the times of the answer and of the ping, whose difference it is.
pub record Monitor : Type 0 where
  pub samples : List (ℕ × ℕ)
  pub last_response : ℕ
  pub last_request : ℕ

-- `__init__` at a time
unfoldable pub new_monitor : ℕ → Monitor
new_monitor now = record { samples = []; last_response = now; last_request = now }

unfoldable pub track_response : ℕ → Monitor → Monitor
track_response now m = record m {
  last_response = now;
  samples = take max_samples ((now, m.last_request) ∷ m.samples);
}

-- A round of `_run`: the time of its ping, and those of the pongs that come while it sleeps.
pub record MonitorRound : Type 0 where
  pub now : ℕ
  pub pongs : List ℕ

unfoldable pub track_responses : List ℕ → Monitor → Monitor
unfolding track_response
track_responses [] m = m
track_responses (t ∷ ts) m = track_responses ts (track_response t m)

unfoldable pub sleep_round : MonitorRound → Monitor → Monitor
unfolding track_responses
sleep_round r m = track_responses r.pongs (record m { last_request = r.now })

-- `now - self.last_response > self.response_delay_threshold`
unfoldable pub is_late : ℕ → Monitor → Bool
is_late now m = ltb (m.last_response + response_delay_threshold) now

-- `_run` for some rounds: the monitor, and whether it gave up
unfoldable pub monitor_run : List MonitorRound → Monitor → Monitor × Bool
unfolding sleep_round is_late
monitor_run [] m = (m, false)
monitor_run (r ∷ rs) m =
    let slept = sleep_round r m in
    let rest = monitor_run rs slept in if is_late r.now slept then (slept, true) else rest

-- no pong, and the pings at least an interval apart, from a time on
abbrev pub IsSilent : ℕ → List MonitorRound → Type 0
IsSilent from [] = Unit
IsSilent from (r ∷ rs) = (from ≤ r.now) × (r.pongs ≡ []) × IsSilent (r.now + ping_interval) rs

-- Each ping is answered: while the monitor sleeps behind it pongs come, none before it.
abbrev pub IsAnswered : List MonitorRound → Type 0
IsAnswered [] = Unit
IsAnswered (r ∷ rs) = ((1 ≤ length r.pongs) × All (λ t. r.now ≤ t) r.pongs) × IsAnswered rs

track_responses-late :
    (ts : List ℕ) (now : ℕ) (m : Monitor)
    → ((1 ≤ length ts) ⊎ (now ≤ m.last_response))
    → All (λ t. now ≤ t) ts
    → now ≤ (track_responses ts m).last_response
unfolding track_responses track_response
track_responses-late [] now m (inl h) k = let impossible : ⊥ = omega arith in absurd impossible
track_responses-late [] now m (inr h) k = h
track_responses-late (t ∷ ts) now m h k =
    track_responses-late ts now (track_response t m) (inr k.0) k.1

-- A monitor whose pings are all answered before the next one never gives up, however far apart they
-- are.
pub monitor_run-answered :
    (rs : List MonitorRound) (m : Monitor) → IsAnswered rs → (monitor_run rs m).1 ≡ false
unfolding monitor_run is_late sleep_round
monitor_run-answered [] m h = refl
monitor_run-answered (r ∷ rs) m ((some_pong, behind), rest) =
    let slept : Monitor = record m { last_request = r.now } in
    ground (
      arith,
      track_responses-late r.pongs r.now slept (inl some_pong) behind,
      monitor_run-answered rs (track_responses r.pongs slept) rest,
    )

-- after `k` silent rounds
gives_up :
    (k from : ℕ) (rs : List MonitorRound) (m : Monitor)
    → m.last_response + k * ping_interval ≤ from
    → k < 10
    → 10 ≤ k + length rs
    → IsSilent from rs
    → (monitor_run rs m).1 ≡ true
unfolding monitor_run is_late sleep_round track_responses
gives_up k from [] m late few enough silent = let impossible : ⊥ = omega arith in absurd impossible
gives_up k from (r ∷ rs) m late few enough (later, silent, rest) =
    let slept : Monitor = record m { last_request = r.now } in
    rw silent (elim (Bool-cases (ltb (m.last_response + response_delay_threshold) r.now)) [
      | inl e ↦ rw e refl
      | inr e ↦
          let soon = ltb→le _ _ e in
          rw e (
            gives_up (suc k) (r.now + ping_interval) rs slept (omega (arith, soon))
              (omega (arith, soon)) (omega arith) rest)
    ])

-- A monitor that is at least ten rounds without a pong, the pings at least 15 seconds apart, gives
-- up.
pub monitor_run-silent :
    (rs : List MonitorRound) (m : Monitor)
    → 10 ≤ length rs
    → IsSilent m.last_response rs
    → (monitor_run rs m).1 ≡ true
monitor_run-silent rs m enough silent =
    gives_up 0 m.last_response rs m (omega arith) (omega arith) (omega arith) silent
