-- ===== src/Peer/Shutdown.antt =====
-- `stop` of class PeerManager, pydevp2p/devp2p/peermanager.py: its loop goes over the list that each
-- stopped peer takes itself out of. Nothing else happens to the peers while it runs.
use structured_p2p_overlay_n.Prelude.{
  ℕ, zero, suc, ◌+◌, ◌≤◌, ◌≡◌, refl, sym, ap, subst, ◌∙◌, arith, false, none, some, List, [], ◌∷◌,
  ◌++◌, length, length-append, append_assoc, append-nil, All, ◌==◌, get_elem?, ok, out_of_fuel,
}
use structured_p2p_overlay_n.Prelude.Dict.{dict_del}
use structured_p2p_overlay_n.Prelude.Exec.{pure, raise, gets, modify, ◌>>=◌, ◌>>◌}
use structured_p2p_overlay_n.Peer.State.{Peer, Manager, Act, stop_peer}
use structured_p2p_overlay_n.Peer.Marks.{Ids, IsSound}
use structured_p2p_overlay_n.Peer.Invariant.{marks}

-- `for peer in self.peers` from an index on: Python takes the peer at the index as the list is then.
unfoldable pub stop_from : ℕ → ℕ → Act (Unit {0})
unfolding ◌>>=◌ stop_peer
stop_from zero i = raise out_of_fuel
stop_from (suc n) i = do
  m ← gets (λ (m : Manager). m)
  elim (get_elem? m.peers i) [ none ↦ pure tt | some e ↦ (stop_peer e.0 >> stop_from n (i + 1)) ]

-- Each round goes one further, so one round more than there are peers is enough.
unfoldable pub stop_all : Act (Unit {0})
unfolding stop_from
stop_all = do m ← gets (λ (m : Manager). m); stop_from (length m.peers + 1) 0

-- the second, the fourth, and so on
abbrev pub every_other : {A : Type 0} → List A → List A
every_other [] = []
every_other (a ∷ []) = []
every_other (a ∷ b ∷ l) = b ∷ every_other l

module _ {V : Type 0} where
  abbrev Distinct : List (ℕ × V) → Type 0
  Distinct [] = Unit
  Distinct (e ∷ l) = All (λ d. (d.0 == e.0) ≡ false) l × Distinct l

  All-middle :
      (P : ℕ × V → Type 0) (front : List (ℕ × V)) (a : ℕ × V) (rest : List (ℕ × V))
      → All P (front ++ a ∷ rest)
      → P a × All P (front ++ rest)
  All-middle P [] a rest h = h
  All-middle P (e ∷ front) a rest h =
      let (here, others) = All-middle P front a rest h.1 in (here, (h.0, others))

  del_middle :
      (front : List (ℕ × V)) (a : ℕ × V) (rest : List (ℕ × V))
      → Distinct (front ++ a ∷ rest)
      → (dict_del a.0 (front ++ a ∷ rest) ≡ front ++ rest) × Distinct (front ++ rest)
  unfolding dict_del
  del_middle [] a rest h = (ground arith, h.1)
  del_middle (e ∷ front) a rest h =
      let (apart, others) = All-middle (λ d. (d.0 == e.0) ≡ false) front a rest h.0 in
      let (deleted, distinct) = del_middle front a rest h.1 in
      (ground (arith, apart, deleted), (others, distinct))

  nth-middle :
      (front : List (ℕ × V)) (a : ℕ × V) (rest : List (ℕ × V))
      → get_elem? (front ++ a ∷ rest) (length front) ≡ some a
  nth-middle [] a rest = refl
  nth-middle (e ∷ front) a rest = nth-middle front a rest

  nth-past : (front : List (ℕ × V)) (k : ℕ) → length front ≤ k → get_elem? front k ≡ none
  nth-past [] zero h = refl
  nth-past [] (suc k) h = refl
  nth-past (e ∷ front) zero h = let impossible : ⊥ = omega arith in absurd impossible
  nth-past (e ∷ front) (suc k) h = nth-past front k (omega arith)

module _ (n i : ℕ) (m : Manager) where
  stop_from-end : get_elem? m.peers i ≡ none → stop_from (suc n) i m ≡ (m, ok tt)
  unfolding stop_from ◌>>=◌ gets pure
  stop_from-end h = ground (arith, h)

  stop_from-next :
      (e : ℕ × Peer)
      → get_elem? m.peers i ≡ some e
      → stop_from (suc n) i m ≡ stop_from n (i + 1) (record m { peers = dict_del e.0 m.peers })
  unfolding stop_from ◌>>=◌ gets stop_peer modify
  stop_from-next e h = ground (arith, h)

-- the manager with other peers
abbrev having : Manager → List (ℕ × Peer) → Manager
having m l = record m { peers = l }

ends :
    (n i : ℕ) (front : List (ℕ × Peer)) (m : Manager)
    → length front ≤ i
    → 1 ≤ n
    → stop_from n i (having m (front ++ [])) ≡ (having m (front ++ []), ok tt)
ends zero i front m past enough = let impossible : ⊥ = omega arith in absurd impossible
ends (suc n) i front m past enough =
    stop_from-end n i (having m (front ++ []))
      (ap (λ l. get_elem? l i) (append-nil front) ∙ nth-past front i past)

stops :
    (n i : ℕ) (front rest : List (ℕ × Peer)) (m : Manager)
    → length front ≡ i
    → Distinct (front ++ rest)
    → length rest + 1 ≤ n
    → stop_from n i (having m (front ++ rest)) ≡ (having m (front ++ every_other rest), ok tt)
stops zero i front rest m at distinct enough = let impossible : ⊥ = omega arith in absurd impossible
stops (suc n) i front [] m at distinct enough =
    ends (suc n) i front m (omega (arith, at)) (omega arith)
stops (suc n) i front (a ∷ []) m at distinct enough =
    let (deleted, others) = del_middle front a [] distinct in
    stop_from-next n i (having m (front ++ a ∷ [])) a
      (ap (get_elem? (front ++ a ∷ [])) (sym at) ∙ nth-middle front a [])
    ∙ ap (λ l. stop_from n (i + 1) (having m l)) deleted
    ∙ ends n (i + 1) front m (omega (arith, at)) (omega arith)
stops (suc n) i front (a ∷ b ∷ rest) m at distinct enough =
    let (deleted, others) = del_middle front a (b ∷ rest) distinct in
    let shift = append_assoc front (b ∷ []) rest in
    stop_from-next n i (having m (front ++ a ∷ b ∷ rest)) a
      (ap (get_elem? (front ++ a ∷ b ∷ rest)) (sym at) ∙ nth-middle front a (b ∷ rest))
    ∙ ap (λ l. stop_from n (i + 1) (having m l)) (deleted ∙ sym shift)
    ∙ stops n (i + 1) (front ++ b ∷ []) rest m (omega (arith, length-append front (b ∷ []), at))
        (subst Distinct (sym shift) others) (omega arith)
    ∙ ap (λ l. (having m l, ok tt)) (append_assoc front (b ∷ []) (every_other rest))

unmark :
    (i : ℕ) (l : List (ℕ × Peer))
    → All (λ d. (d.0 == i) ≡ false) (marks l)
    → All (λ d. (d.0 == i) ≡ false) l
unmark i [] h = tt
unmark i (e ∷ l) h = (h.0, unmark i l h.1)

marked-Distinct : (n : ℕ) (l : List (ℕ × Peer)) → Ids n (marks l) → Distinct l
marked-Distinct n [] h = tt
marked-Distinct n (e ∷ l) h = (unmark e.0 l h.1, marked-Distinct n l h.2)

-- Stopping a manager that meets the invariant ends, and leaves every other peer, from the second one
-- on, in the list.
pub stop_all-every_other :
    (m : Manager)
    → IsSound m.max_peers m.next_peer (marks m.peers)
    → stop_all m ≡ (record m { peers = every_other m.peers }, ok tt)
unfolding stop_all
stop_all-every_other m sound =
    stops (length m.peers + 1) 0 [] m.peers m refl (marked-Distinct m.next_peer m.peers (sound.ids))
      (omega arith)
