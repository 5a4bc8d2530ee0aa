-- ===== src/Peer/Runs.antt =====
-- Peers over any sequence of events, pydevp2p/devp2p/peer.py and peermanager.py.
use structured_p2p_overlay_n.Prelude.{
  out_of_fuel, zero, suc, get_elem?, ℕ, ◌+◌, ◌≡◌, sym, subst, arith, true, false, Option, none,
  some, [], length,
}
use structured_p2p_overlay_n.Prelude.Bytes.{Bytes}
use structured_p2p_overlay_n.Prelude.Exec.{
  pure, ◌>>◌, Keeps, Keeps-modify, Keeps-pure, Keeps-raise, Keeps-bind, Keeps-gets,
}
use structured_p2p_overlay_n.Peer.Protocol.{Protocol}
use structured_p2p_overlay_n.Peer.State.{
  Report, connection_timeout, connection_error, Hello, Manager, Act, stop_peer,
}
use structured_p2p_overlay_n.Peer.Handlers.{
  hello_in, disconnect_in, ping_in, handle, check_if_dumb_remote, unresponsive, start_peer,
  learn_key,
}
use structured_p2p_overlay_n.Peer.Search.{
  Contact, Outcome, created, timed_out, failed, note_failure, connect,
}
use structured_p2p_overlay_n.Peer.Shutdown.{stop_from, stop_all}
use structured_p2p_overlay_n.Peer.Marks.{IsSound}
use structured_p2p_overlay_n.Peer.Invariant.{marks, IsValid, stop_peer-IsValid}
use structured_p2p_overlay_n.Peer.Handled.{
  hello_in-IsValid, disconnect_in-IsValid, ping_in-IsValid, handle-IsValid,
  check_if_dumb_remote-IsValid, unresponsive-IsValid, start_peer-IsValid, learn_key-IsValid,
}

module _ {A : Type 0} where
  Keeps-found :
      {B : Type 0} (o : Option B) (m : Act A) (f : B → Act A)
      → Keeps IsValid m
      → ((b : B) → Keeps IsValid (f b))
      → Keeps IsValid (elim o [ none ↦ m | some b ↦ f b ])
  Keeps-found none m f h k = h
  Keeps-found (some b) m f h k = k b

note_failure-IsValid : (address : ℕ) (report : Report) → Keeps IsValid (note_failure address report)
unfolding note_failure
note_failure-IsValid address report = Keeps-modify _ (λ m v. v)

connect-IsValid :
    (p2p : Protocol) (c : Contact) (outcome : Outcome) → Keeps IsValid (connect p2p c outcome)
unfolding connect
connect-IsValid p2p c created =
    Keeps-bind _ _ (start_peer-IsValid c.address (some c.pubkey) p2p) (λ _. Keeps-pure true)
connect-IsValid p2p c timed_out =
    Keeps-bind _ _ (note_failure-IsValid c.address connection_timeout) (λ _. Keeps-pure false)
connect-IsValid p2p c failed =
    Keeps-bind _ _ (note_failure-IsValid c.address connection_error) (λ _. Keeps-pure false)

stop_from-IsValid : (n i : ℕ) → Keeps IsValid (stop_from n i)
unfolding stop_from
stop_from-IsValid zero i = Keeps-raise out_of_fuel
stop_from-IsValid (suc n) i = Keeps-bind _ _ (Keeps-gets (λ (m : Manager). m)) (λ m.
    Keeps-found (get_elem? m.peers i) _ _ (Keeps-pure tt)
      (λ e. Keeps-bind _ _ (stop_peer-IsValid e.0) (λ _. stop_from-IsValid n (i + 1))))

stop_all-IsValid : Keeps IsValid stop_all
unfolding stop_all
stop_all-IsValid =
    Keeps-bind _ _ (Keeps-gets (λ (m : Manager). m)) (λ m. stop_from-IsValid (length m.peers + 1) 0)

-- What happens to the peers of a manager, from the network, the clock and the program.
pub data Event : Type 0 where
  hello_event : ℕ → Hello → Event
  disconnect_event : ℕ → ℕ → Event
  ping_event : ℕ → Event
  stop_event : ℕ → Event
  dumb_event : ℕ → Event
  unresponsive_event : ℕ → Event
  start_event : ℕ → Option Bytes → Protocol → Event
  key_event : ℕ → Bytes → Event
  connect_event : Protocol → Contact → Outcome → Event
  shutdown_event : Event

unfoldable pub perform_event : Event → Act (Unit {0})
perform_event (hello_event i hello) = handle i (hello_in i hello)
perform_event (disconnect_event i reason) = handle i (disconnect_in i reason)
perform_event (ping_event i) = handle i (ping_in i)
perform_event (stop_event i) = stop_peer i
perform_event (dumb_event i) = check_if_dumb_remote i
perform_event (unresponsive_event i) = unresponsive i
perform_event (start_event address key p2p) = start_peer address key p2p
perform_event (key_event i key) = learn_key i key
perform_event (connect_event p2p c outcome) = connect p2p c outcome >> pure tt
perform_event shutdown_event = stop_all

pub data Reach (m : Manager) : Manager → Type 0 where
  here : Reach m m
  next : {n : Manager} (e : Event) → Reach m n → Reach m (perform_event e n).0

perform_event-IsValid : (e : Event) → Keeps IsValid (perform_event e)
unfolding perform_event
perform_event-IsValid (hello_event i hello) = handle-IsValid i _ (hello_in-IsValid i hello)
perform_event-IsValid (disconnect_event i reason) =
    handle-IsValid i _ (disconnect_in-IsValid i reason)
perform_event-IsValid (ping_event i) = handle-IsValid i _ (ping_in-IsValid i)
perform_event-IsValid (stop_event i) = stop_peer-IsValid i
perform_event-IsValid (dumb_event i) = check_if_dumb_remote-IsValid i
perform_event-IsValid (unresponsive_event i) = unresponsive-IsValid i
perform_event-IsValid (start_event address key p2p) = start_peer-IsValid address key p2p
perform_event-IsValid (key_event i key) = learn_key-IsValid i key
perform_event-IsValid (connect_event p2p c outcome) =
    Keeps-bind _ _ (connect-IsValid p2p c outcome) (λ _. Keeps-pure tt)
perform_event-IsValid shutdown_event = stop_all-IsValid

-- In every state that a manager without peers can come to, by any events in any order, at most
-- `max_peers` of the peers have had their hello accepted, these have public keys of 64 bytes, no
-- two the same one, and no two peers share an identity.
pub Reach-IsSound :
    (start : Manager) {m : Manager}
    → start.peers ≡ []
    → Reach start m
    → IsSound m.max_peers m.next_peer (marks m.peers)
Reach-IsSound start without here =
    subst (λ l. IsSound start.max_peers start.next_peer (marks l)) (sym without)
      (record { ids = tt; apart = tt; keyed = tt; few = omega arith })
Reach-IsSound start without (next {n} e r) =
    (perform_event-IsValid e).at n (Reach-IsSound start without r)
