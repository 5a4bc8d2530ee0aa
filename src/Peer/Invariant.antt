-- ===== src/Peer/Invariant.antt =====
-- The invariant of the manager of peers, pydevp2p/devp2p/peermanager.py: how many peers are accepted,
-- and that no two of them have the same key.
use structured_p2p_overlay_n.Prelude.{
  Result-cases, is_ok, is_err, ◌≢◌, ℕ, ◌≤◌, ◌≡◌, refl, sym, ap, ◌∙◌, subst, arith, Bool, true,
  false, Option, none, some, List, [], ◌∷◌, ◌++◌, length, All, ltb, ◌==◌, ok, inl, inr, Bool-cases,
  Option-cases, ltb→le,
}
use structured_p2p_overlay_n.Prelude.Bytes.{Bytes}
use structured_p2p_overlay_n.Prelude.Dict.{dict_get, dict_set, dict_del, dict_set-get}
use structured_p2p_overlay_n.Prelude.Exec.{
  Keeps, Keeps-modify, Keeps-pure, Keeps-bind, pure, ◌>>=◌, ◌>>◌,
}
use structured_p2p_overlay_n.Peer.State.{
  Reason, too_many_peers, useless_peer, sending_disconnect, disconnect, P2pCommand, Report, Peer,
  Manager, Act, change, with_peer, report_error, stop_peer, send_command, send_disconnect,
  on_hello_received, has_key, is_key, or_key, remote_pubkey,
}
use structured_p2p_overlay_n.Peer.Marks.{bytes_eq_sym, Mark, clash, IsKeyed, IsSound, del-IsSound}

-- A peer is accepted when it has capabilities.
abbrev pub mark : Peer → Mark
mark p = (elim (p.remote_capabilities) [ none ↦ false | some _ ↦ true ], p.mux_pubkey)

abbrev pub marks : List (ℕ × Peer) → List (ℕ × Mark)
marks [] = []
marks ((i, p) ∷ l) = (i, mark p) ∷ marks l

-- The identities are distinct, the accepted peers have keys of 64 bytes, no two the same one, and are
-- no more than `max_peers`.
abbrev pub IsValid : Manager → Type 0
IsValid m = IsSound m.max_peers m.next_peer (marks m.peers)

pub marks-set :
    (i : ℕ) (p : Peer) (l : List (ℕ × Peer))
    → marks (dict_set i p l) ≡ dict_set i (mark p) (marks l)
unfolding dict_set
marks-set i p [] = refl
marks-set i p ((j, q) ∷ l) = ground (arith, marks-set i p l)

marks-del : (i : ℕ) (l : List (ℕ × Peer)) → marks (dict_del i l) ≡ dict_del i (marks l)
unfolding dict_del
marks-del i [] = refl
marks-del i ((j, q) ∷ l) = ground (arith, marks-del i l)

pub marks-get :
    (i : ℕ) (p : Peer) (l : List (ℕ × Peer))
    → dict_get i l ≡ some p
    → dict_get i (marks l) ≡ some (mark p)
unfolding dict_get
marks-get i p [] h = cc
marks-get i p ((j, q) ∷ l) h = ground (arith, marks-get i p l)

pub marks-append :
    (l : List (ℕ × Peer)) (i : ℕ) (p : Peer)
    → marks (l ++ (i, p) ∷ []) ≡ marks l ++ (i, mark p) ∷ []
marks-append [] i p = refl
marks-append ((j, q) ∷ l) i p = ap (λ z. (j, mark q) ∷ z) (marks-append l i p)

pub length-marks : (l : List (ℕ × Peer)) → length (marks l) ≡ length l
length-marks [] = refl
length-marks ((j, q) ∷ l) = omega (arith, length-marks l)

-- A change that leaves capabilities and key alone leaves the marks alone.
marks-change :
    (i : ℕ) (f : Peer → Peer) (l : List (ℕ × Peer))
    → ((p : Peer) → mark (f p) ≡ mark p)
    → marks (elim (dict_get i l) [ none ↦ l | some p ↦ dict_set i (f p) l ]) ≡ marks l
marks-change i f l same = elim (Option-cases (dict_get i l)) [
  | inl e ↦ rw e refl
  | inr (p, e) ↦ rw e (
      marks-set i (f p) l
      ∙ ap (λ z. dict_set i z (marks l)) (same p)
      ∙ dict_set-get i (mark p) (marks l) (marks-get i p l e))
]

pub change-IsValid :
    (i : ℕ) (f : Peer → Peer) → ((p : Peer) → mark (f p) ≡ mark p) → Keeps IsValid (change i f)
unfolding change
change-IsValid i f same =
    Keeps-modify _
      (λ m v. subst (IsSound m.max_peers m.next_peer) (sym (marks-change i f m.peers same)) v)

pub with_peer-none :
    (i : ℕ) (f : Peer → Act (Unit {0})) (m : Manager)
    → dict_get i m.peers ≡ none
    → with_peer i f m ≡ (m, ok tt)
unfolding with_peer pure
with_peer-none i f m e = ground arith

pub with_peer-some :
    (i : ℕ) (f : Peer → Act (Unit {0})) (m : Manager) (p : Peer)
    → dict_get i m.peers ≡ some p
    → with_peer i f m ≡ f p m
unfolding with_peer
with_peer-some i f m p e = ground arith

pub with_peer-IsValid :
    (i : ℕ) (f : Peer → Act (Unit {0}))
    → ((p : Peer) → Keeps IsValid (f p))
    → Keeps IsValid (with_peer i f)
with_peer-IsValid i f k = record {
  at = λ m v. elim (Option-cases (dict_get i m.peers)) [
    | inl e ↦ subst (λ z. IsValid z.0) (sym (with_peer-none i f m e)) v
    | inr q ↦ subst (λ z. IsValid z.0) (sym (with_peer-some i f m q.0 q.1)) ((k q.0).at m v)
  ];
}

pub report_error-IsValid : (i : ℕ) (report : Report) → Keeps IsValid (report_error i report)
unfolding report_error
report_error-IsValid i report = with_peer-IsValid i _ (λ p. Keeps-modify _ (λ m v. v))

pub stop_peer-IsValid : (i : ℕ) → Keeps IsValid (stop_peer i)
unfolding stop_peer
stop_peer-IsValid i = Keeps-modify _ (λ m v.
    subst (IsSound m.max_peers m.next_peer) (sym (marks-del i m.peers))
      (del-IsSound m.max_peers m.next_peer i (marks m.peers) v))

pub send_command-IsValid : (i : ℕ) (message : P2pCommand) → Keeps IsValid (send_command i message)
unfolding send_command
send_command-IsValid i message = change-IsValid i _ (λ p. refl)

pub send_disconnect-IsValid : (i : ℕ) (reason : Reason) → Keeps IsValid (send_disconnect i reason)
unfolding send_disconnect
send_disconnect-IsValid i reason =
    Keeps-bind _ _ (report_error-IsValid i (sending_disconnect reason))
      (λ _. send_command-IsValid i (disconnect reason))

-- the three branches of `on_hello_received`
module _ (i : ℕ) (key : Bytes) (m : Manager) where
  on_hello_received-full :
      ltb m.max_peers (length m.peers) ≡ true
      → on_hello_received i key m ≡ (send_disconnect i too_many_peers >> pure false) m
  unfolding on_hello_received
  on_hello_received-full e = ground arith

  on_hello_received-known :
      ltb m.max_peers (length m.peers) ≡ false
      → has_key i key m.peers ≡ true
      → on_hello_received i key m ≡ (send_disconnect i useless_peer >> pure false) m
  unfolding on_hello_received
  on_hello_received-known e h = ground arith

  on_hello_received-new :
      ltb m.max_peers (length m.peers) ≡ false
      → has_key i key m.peers ≡ false
      → on_hello_received i key m ≡ (m, ok true)
  unfolding on_hello_received pure
  on_hello_received-new e h = ground arith

-- Both refusals keep the invariant, and do not return true.
refused-IsValid : (i : ℕ) (reason : Reason) → Keeps IsValid (send_disconnect i reason >> pure false)
refused-IsValid i reason = Keeps-bind _ _ (send_disconnect-IsValid i reason) (λ _. Keeps-pure false)

refused-false :
    (i : ℕ) (reason : Reason) (m : Manager)
    → ((send_disconnect i reason >> pure false) m).1 ≢ ok true
unfolding ◌>>=◌ pure
refused-false i reason m = λ h. elim (Result-cases ((send_disconnect i reason m).1)) [
  | is_ok t e ↦ ground (arith, e, h)
  | is_err x e ↦ ground (arith, e, h)
]

pub on_hello_received-IsValid : (i : ℕ) (key : Bytes) → Keeps IsValid (on_hello_received i key)
on_hello_received-IsValid i key = record {
  at = λ m v. elim (Bool-cases (ltb m.max_peers (length m.peers))) [
    | inl e ↦
        subst (λ z. IsValid z.0) (sym (on_hello_received-full i key m e))
          ((refused-IsValid i too_many_peers).at m v)
    | inr e ↦ elim (Bool-cases (has_key i key m.peers)) [
      | inl h ↦
          subst (λ z. IsValid z.0) (sym (on_hello_received-known i key m e h))
            ((refused-IsValid i useless_peer).at m v)
      | inr h ↦ subst (λ z. IsValid z.0) (sym (on_hello_received-new i key m e h)) v
    ]
  ];
}

-- A hello that the manager agrees to leaves the manager as it was.
pub record Agreed (i : ℕ) (key : Bytes) (m : Manager) : Type 0 where
  pub unchanged : (on_hello_received i key m).0 ≡ m
  pub short : length m.peers ≤ m.max_peers
  pub is_new : has_key i key m.peers ≡ false

pub on_hello_received-Agreed :
    (i : ℕ) (key : Bytes) (m : Manager) → (on_hello_received i key m).1 ≡ ok true → Agreed i key m
unfolding on_hello_received
on_hello_received-Agreed i key m agree = elim (Bool-cases (ltb m.max_peers (length m.peers))) [
  | inl e ↦ absurd (
      refused-false i too_many_peers m
        (ap (λ z. z.1) (sym (on_hello_received-full i key m e)) ∙ agree))
  | inr e ↦ elim (Bool-cases (has_key i key m.peers)) [
    | inl h ↦ absurd (
        refused-false i useless_peer m
          (ap (λ z. z.1) (sym (on_hello_received-known i key m e h)) ∙ agree))
    | inr h ↦ record {
      unchanged = ap (λ z. z.0) (on_hello_received-new i key m e h);
      short = ltb→le m.max_peers (length m.peers) e;
      is_new = h;
    }
  ]
]

-- The key of an accepted peer is the one of the multiplexed session.
no_clash :
    (key : Bytes) (a : Bool) (k session : Option Bytes)
    → IsKeyed (a, k)
    → is_key (or_key k session) key ≡ false
    → clash (true, some key) (a, k) ≡ false
unfolding is_key or_key
no_clash key a none session keyed other = refl
no_clash key false (some k) session keyed other = refl
no_clash key true (some []) session keyed other =
    let impossible : ⊥ = omega (arith, keyed) in absurd impossible
no_clash key true (some (x ∷ xs)) session keyed other = bytes_eq_sym (x ∷ xs) key other

-- the keys of the other peers against a key that none of them has
pub new_key :
    (i : ℕ) (key : Bytes) (l : List (ℕ × Peer))
    → has_key i key l ≡ false
    → All (λ e. IsKeyed e.1) (marks l)
    → All (λ d. (d.0 == i) ≡ false → clash (true, some key) d.1 ≡ false) (marks l)
unfolding has_key remote_pubkey
new_key i key [] h keyed = tt
new_key i key ((j, p) ∷ l) h keyed = (
  λ e. no_clash key (mark p).0 p.mux_pubkey p.session_pubkey keyed.0 (ground (arith, e)),
  new_key i key l (ground arith) keyed.1,
)
