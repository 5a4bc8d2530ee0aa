-- ===== src/Peer/Handled.antt =====
-- What each handler of pydevp2p/devp2p/peer.py does to the invariant of the manager.
use structured_p2p_overlay_n.Prelude.{
  Fault, ℕ, ◌+◌, ◌≤◌, ◌≡◌, refl, sym, ap, subst, arith, Bool, true, false, Option, none, some, List,
  [], length, ==_iff, Result, ok, err, inl, inr, Option-cases, assertion_error, if◌then◌else◌,
}
use structured_p2p_overlay_n.Prelude.Bytes.{Bytes}
use structured_p2p_overlay_n.Prelude.Dict.{dict_get, dict_set}
use structured_p2p_overlay_n.Prelude.Exec.{
  lift, Keeps-lift, raise, Keeps, Keeps-modify, Keeps-pure, Keeps-bind, Keeps-bind_eq, Keeps-gets,
  Keeps-when, Keeps-assert, Keeps-for_each, pure, gets, modify, assert, when, ◌>>=◌,
}
use structured_p2p_overlay_n.Peer.Protocol.{Protocol}
use structured_p2p_overlay_n.Peer.State.{
  connected_to_self, incompatible_p2p_version, Hello, Service, Peer, Manager, Act, change,
  on_hello_received, has_key, wrong_version, pong, no_hello, not_responding, disconnected,
}
use structured_p2p_overlay_n.Peer.Capabilities.{group_services, versions_of}
use structured_p2p_overlay_n.Peer.Handlers.{
  recover, connect_service, offer_service, offer_versions, note_version, accept_hello, register,
  receive_hello, hello_in, disconnect_in, ping_in, handle, check_if_dumb_remote, unresponsive,
  start_peer, learn_key, sorted_services,
}
use structured_p2p_overlay_n.Peer.Marks.{IsSound, set-IsSound, append-IsSound}
use structured_p2p_overlay_n.Peer.Invariant.{
  mark, marks, IsValid, marks-set, marks-get, marks-append, length-marks, change-IsValid,
  with_peer-IsValid, report_error-IsValid, stop_peer-IsValid, send_command-IsValid,
  send_disconnect-IsValid, on_hello_received-IsValid, on_hello_received-Agreed, new_key,
}

Keeps-if :
    {A : Type 0} (b : Bool) (m n : Act A)
    → Keeps IsValid m
    → Keeps IsValid n
    → Keeps IsValid (if b then m else n)
Keeps-if true m n h k = h
Keeps-if false m n h k = k

connect_service-IsValid : (i : ℕ) (service : Service) → Keeps IsValid (connect_service i service)
unfolding connect_service
connect_service-IsValid i service = with_peer-IsValid i _ (λ p.
    Keeps-bind _ _ (Keeps-assert _ assertion_error)
      (λ _. Keeps-bind _ _ (change-IsValid i _ (λ q. refl)) (λ _. Keeps-assert _ assertion_error)))

offer_versions-IsValid :
    (i : ℕ) (service : Service) (o : Option (List ℕ)) → Keeps IsValid (offer_versions i service o)
unfolding offer_versions
offer_versions-IsValid i service none = Keeps-pure tt
offer_versions-IsValid i service (some vs) =
    Keeps-if _ _ _ (Keeps-when _ _ (λ _. connect_service-IsValid i service))
      (report_error-IsValid i wrong_version)

offer_service-IsValid :
    (i : ℕ) (remote : List (Bytes × List ℕ)) (service : Service)
    → Keeps IsValid (offer_service i remote service)
unfolding offer_service
offer_service-IsValid i remote service =
    offer_versions-IsValid i service (versions_of service.wire_protocol.name remote)

note_version-IsValid : (i version : ℕ) → Keeps IsValid (note_version i version)
unfolding note_version
note_version-IsValid i version =
    Keeps-if _ _ _ (change-IsValid i _ (λ q. refl))
      (send_disconnect-IsValid i incompatible_p2p_version)

change-none :
    (i : ℕ) (f : Peer → Peer) (m : Manager) → dict_get i m.peers ≡ none → (change i f m).0 ≡ m
unfolding change modify
change-none i f m e =
    ap (λ o. record m { peers = elim o [ none ↦ m.peers | some p ↦ dict_set i (f p) m.peers ] }) e

change-some :
    (i : ℕ) (f : Peer → Peer) (m : Manager) (p : Peer)
    → dict_get i m.peers ≡ some p
    → (change i f m).0 ≡ record m { peers = dict_set i (f p) m.peers }
unfolding change modify
change-some i f m p e =
    ap (λ o. record m { peers = elim o [ none ↦ m.peers | some q ↦ dict_set i (f q) m.peers ] }) e

-- An accepted hello: there is room, and no other peer has the key.
accept_hello-IsValid :
    (i : ℕ) (hello : Hello) (m : Manager)
    → length hello.pubkey ≡ 64
    → length m.peers ≤ m.max_peers
    → has_key i hello.pubkey m.peers ≡ false
    → IsValid m
    → IsValid (accept_hello i hello m).0
unfolding accept_hello
accept_hello-IsValid i hello m sized short is_new v = elim (Option-cases (dict_get i m.peers)) [
  | inl e ↦ subst IsValid (sym (change-none i _ m e)) v
  | inr (p, e) ↦ subst IsValid (sym (change-some i _ m p e)) (
      subst (IsSound m.max_peers m.next_peer) (sym (marks-set i _ m.peers)) (
        set-IsSound m.max_peers m.next_peer i hello.pubkey (mark p) (marks m.peers)
          (marks-get i p m.peers e) (omega (arith, length-marks m.peers, short)) sized
          (new_key i hello.pubkey m.peers is_new v.keyed) v))
]

register-IsValid :
    (i : ℕ) (hello : Hello) (m : Manager)
    → length hello.pubkey ≡ 64
    → length m.peers ≤ m.max_peers
    → has_key i hello.pubkey m.peers ≡ false
    → IsValid m
    → IsValid (register i hello m).0
unfolding register ◌>>=◌ accept_hello change modify
register-IsValid i hello m sized short is_new v =
    (Keeps-bind (lift (group_services [] hello.capabilities)) _ (Keeps-lift _) (λ remote.
        Keeps-bind (gets (λ (m : Manager). m.services)) _ (Keeps-gets _) (λ services.
          Keeps-for_each (sorted_services services) _ (offer_service-IsValid i remote)))).at
      (accept_hello i hello m).0 (accept_hello-IsValid i hello m sized short is_new v)

-- what the answer of the manager leads to
answered-IsValid :
    (i : ℕ) (hello : Hello) (m : Manager) (agree : Bool)
    → length hello.pubkey ≡ 64
    → (on_hello_received i hello.pubkey m).1 ≡ ok agree
    → IsValid (on_hello_received i hello.pubkey m).0
    → IsValid (when agree (register i hello) (on_hello_received i hello.pubkey m).0).0
unfolding when pure
answered-IsValid i hello m false sized returned v = v
answered-IsValid i hello m true sized returned v =
    let a = on_hello_received-Agreed i hello.pubkey m returned in
    subst (λ z. IsValid (register i hello z).0) (sym a.unchanged)
      (register-IsValid i hello m sized a.short a.is_new (subst IsValid a.unchanged v))

assert-eq-ok :
    (b : Bool) (e : Fault) (m : Manager) {t : Unit {0}} → (assert b e m).1 ≡ ok t → b ≡ true
unfolding assert raise
assert-eq-ok true e m h = refl
assert-eq-ok false e m h = cc

pub receive_hello-IsValid : (i : ℕ) (hello : Hello) → Keeps IsValid (receive_hello i hello)
unfolding receive_hello
receive_hello-IsValid i hello = with_peer-IsValid i _ (λ p.
    Keeps-bind_eq _ _ (Keeps-assert _ assertion_error) (λ s t sized.
      (Keeps-bind _ _ (Keeps-when _ _ (λ _. Keeps-assert _ assertion_error)) (λ _.
          Keeps-bind _ _ (change-IsValid i _ (λ q. refl)) (λ _.
            Keeps-bind _ _ (note_version-IsValid i hello.version) (λ _.
              Keeps-bind_eq _ _ (on_hello_received-IsValid i hello.pubkey) (λ m agree.
                answered-IsValid i hello m agree
                  ((==_iff (length hello.pubkey) 64).0 (assert-eq-ok _ _ s sized))))))).at
        _))

pub hello_in-IsValid : (i : ℕ) (hello : Hello) → Keeps IsValid (hello_in i hello)
unfolding hello_in
hello_in-IsValid i hello = Keeps-bind _ _ (Keeps-gets _) (λ m.
    Keeps-if _ _ _ (send_disconnect-IsValid i connected_to_self) (receive_hello-IsValid i hello))

pub disconnect_in-IsValid : (i reason : ℕ) → Keeps IsValid (disconnect_in i reason)
unfolding disconnect_in
disconnect_in-IsValid i reason =
    Keeps-bind _ _ (report_error-IsValid i (disconnected reason)) (λ _. stop_peer-IsValid i)

pub ping_in-IsValid : (i : ℕ) → Keeps IsValid (ping_in i)
unfolding ping_in
ping_in-IsValid i = send_command-IsValid i pong

pub check_if_dumb_remote-IsValid : (i : ℕ) → Keeps IsValid (check_if_dumb_remote i)
unfolding check_if_dumb_remote
check_if_dumb_remote-IsValid i = with_peer-IsValid i _ (λ p.
    Keeps-when _ _
      (λ _. Keeps-bind _ _ (report_error-IsValid i no_hello) (λ _. stop_peer-IsValid i)))

pub unresponsive-IsValid : (i : ℕ) → Keeps IsValid (unresponsive i)
unfolding unresponsive
unresponsive-IsValid i =
    Keeps-bind _ _ (report_error-IsValid i not_responding) (λ _. stop_peer-IsValid i)

pub learn_key-IsValid : (i : ℕ) (key : Bytes) → Keeps IsValid (learn_key i key)
unfolding learn_key
learn_key-IsValid i key = change-IsValid i _ (λ q. refl)

pub start_peer-IsValid :
    (address : ℕ) (key : Option Bytes) (p2p : Protocol) → Keeps IsValid (start_peer address key p2p)
unfolding start_peer
start_peer-IsValid address key p2p = Keeps-modify _ (λ m v.
    subst (IsSound m.max_peers (m.next_peer + 1)) (sym (marks-append m.peers m.next_peer _))
      (append-IsSound m.max_peers m.next_peer key (marks m.peers) v))

recover-IsValid : (i : ℕ) (r : Result (Unit {0})) → Keeps IsValid (recover i r)
unfolding recover
recover-IsValid i (ok t) = Keeps-pure tt
recover-IsValid i (err e) = Keeps-if _ _ _ (Keeps-pure tt) (stop_peer-IsValid i)

pub handle-IsValid :
    (i : ℕ) (act : Act (Unit {0})) → Keeps IsValid act → Keeps IsValid (handle i act)
unfolding handle
handle-IsValid i act k = record {
  at = λ m v. (recover-IsValid i (act m).1).at (act m).0 (k.at m v);
}
