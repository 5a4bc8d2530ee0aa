-- ===== src/Peer/Marks.antt =====
-- What the manager of peers has to keep apart: of each peer whether its hello was accepted, and its
-- public key.
use structured_p2p_overlay_n.Prelude.{
  All-append, subst, ℕ, ◌+◌, ◌≤◌, ◌<◌, ◌≡◌, refl, sym, arith, Bool, true, false, ◌&&◌, Option, none,
  some, List, [], ◌∷◌, ◌++◌, length, All, ◌==◌, ==_iff, if◌then◌else◌, inl, inr, Bool-cases,
}
use structured_p2p_overlay_n.Prelude.Bytes.{Bytes, bytes_eq, bytes_eq_iff}
use structured_p2p_overlay_n.Prelude.Dict.{dict_get, dict_set, dict_del}

abbrev pub Mark : Type 0
Mark = Bool × Option Bytes

-- both accepted, with the same key
abbrev pub clash : Mark → Mark → Bool
clash (a, none) m = false
clash (a, some k) (b, none) = false
clash (a, some k) (b, some l) = a && (b && bytes_eq k l)

abbrev pub Ids : ℕ → List (ℕ × Mark) → Type 0
Ids n [] = Unit
Ids n (e ∷ l) = (e.0 < n) × All (λ d. (d.0 == e.0) ≡ false) l × Ids n l

abbrev pub Apart : List (ℕ × Mark) → Type 0
Apart [] = Unit
Apart (e ∷ l) = All (λ d. clash e.1 d.1 ≡ false) l × Apart l

-- An accepted peer has a key of 64 bytes.
abbrev pub IsKeyed : Mark → Type 0
IsKeyed (false, k) = Unit
IsKeyed (true, none) = ⊥
IsKeyed (true, some k) = length k ≡ 64

abbrev pub accepted : List (ℕ × Mark) → ℕ
accepted [] = 0
accepted ((i, (a, k)) ∷ l) = (if a then 1 else 0) + accepted l

pub record IsSound (limit next_peer : ℕ) (l : List (ℕ × Mark)) : Type 0 where
  pub ids : Ids next_peer l
  pub apart : Apart l
  pub keyed : All (λ e. IsKeyed e.1) l
  pub few : accepted l ≤ limit

accepted-le-length : (l : List (ℕ × Mark)) → accepted l ≤ length l
accepted-le-length [] = omega arith
accepted-le-length ((i, (a, k)) ∷ l) = ground (arith, accepted-le-length l)

pub bytes_eq_sym : (a b : Bytes) → bytes_eq a b ≡ false → bytes_eq b a ≡ false
bytes_eq_sym a b h = elim (Bool-cases (bytes_eq b a)) [
  | inl e ↦ ground (arith, (bytes_eq_iff a b).1 (sym ((bytes_eq_iff b a).0 e)))
  | inr e ↦ e
]

clash_sym : (m n : Mark) → clash m n ≡ false → clash n m ≡ false
clash_sym (a, none) (b, none) h = refl
clash_sym (a, none) (b, some l) h = refl
clash_sym (a, some k) (b, none) h = refl
clash_sym (true, some k) (true, some l) h = bytes_eq_sym k l h
clash_sym (true, some k) (false, some l) h = refl
clash_sym (false, some k) (true, some l) h = refl
clash_sym (false, some k) (false, some l) h = refl

module _ (P : ℕ × Mark → Type 0) where
  All-del : (i : ℕ) (l : List (ℕ × Mark)) → All P l → All P (dict_del i l)
  unfolding dict_del
  All-del i [] h = tt
  All-del i ((j, m) ∷ l) h = elim (Bool-cases (j == i)) [
    | inl e ↦ rw e h.1
    | inr e ↦ rw e (h.0, All-del i l h.1)
  ]

  All-set : (i : ℕ) (m : Mark) (l : List (ℕ × Mark)) → P (i, m) → All P l → All P (dict_set i m l)
  unfolding dict_set
  All-set i m [] p h = (p, tt)
  All-set i m ((j, n) ∷ l) p h = elim (Bool-cases (j == i)) [
    | inl e ↦ rw e (subst (λ z. P (z, m)) (sym ((==_iff j i).0 e)) p, h.1)
    | inr e ↦ rw e (h.0, All-set i m l p h.1)
  ]

accepted-del : (i : ℕ) (l : List (ℕ × Mark)) → accepted (dict_del i l) ≤ accepted l
unfolding dict_del
accepted-del i [] = omega arith
accepted-del i ((j, (a, k)) ∷ l) = ground (arith, accepted-del i l)

Ids-del : (n i : ℕ) (l : List (ℕ × Mark)) → Ids n l → Ids n (dict_del i l)
unfolding dict_del
Ids-del n i [] h = tt
Ids-del n i ((j, m) ∷ l) h = elim (Bool-cases (j == i)) [
  | inl e ↦ rw e h.2
  | inr e ↦ rw e (h.0, All-del (λ d. (d.0 == j) ≡ false) i l h.1, Ids-del n i l h.2)
]

Apart-del : (i : ℕ) (l : List (ℕ × Mark)) → Apart l → Apart (dict_del i l)
unfolding dict_del
Apart-del i [] h = tt
Apart-del i ((j, m) ∷ l) h = elim (Bool-cases (j == i)) [
  | inl e ↦ rw e h.1
  | inr e ↦ rw e (All-del (λ d. clash m d.1 ≡ false) i l h.0, Apart-del i l h.1)
]

pub del-IsSound :
    (limit n i : ℕ) (l : List (ℕ × Mark)) → IsSound limit n l → IsSound limit n (dict_del i l)
del-IsSound limit n i l s = record {
  ids = Ids-del n i l s.ids;
  apart = Apart-del i l s.apart;
  keyed = All-del (λ e. IsKeyed e.1) i l s.keyed;
  few = let f = s.few in omega (arith, accepted-del i l, f);
}

-- Entry `i` is there and gets another mark.
module _ (i : ℕ) (m : Mark) where
  length-set :
      (old : Mark) (l : List (ℕ × Mark))
      → dict_get i l ≡ some old
      → length (dict_set i m l) ≡ length l
  unfolding dict_get dict_set
  length-set old [] h = cc
  length-set old ((j, n) ∷ l) h = ground (arith, length-set old l)

  Ids-set :
      (next_peer : ℕ) (old : Mark) (l : List (ℕ × Mark))
      → dict_get i l ≡ some old
      → Ids next_peer l
      → Ids next_peer (dict_set i m l)
  unfolding dict_get dict_set
  Ids-set next_peer old [] h ids = cc
  Ids-set next_peer old ((j, n) ∷ l) h ids = elim (Bool-cases (j == i)) [
    | inl e ↦ rw e ids
    | inr e ↦ rw e (
      ids.0,
      All-set (λ d. (d.0 == j) ≡ false) i m l (ground (arith, e)) ids.1,
      Ids-set next_peer old l (rw e at h) ids.2,
    )
  ]

  apart_from :
      (j : ℕ) (l : List (ℕ × Mark))
      → j ≡ i
      → All (λ d. (d.0 == j) ≡ false) l
      → All (λ d. (d.0 == i) ≡ false → clash m d.1 ≡ false) l
      → All (λ d. clash m d.1 ≡ false) l
  apart_from j [] same ids new = tt
  apart_from j (d ∷ l) same ids new = (new.0 (rw same at ids.0), apart_from j l same ids.1 new.1)

  Apart-set :
      (next_peer : ℕ) (l : List (ℕ × Mark))
      → Ids next_peer l
      → All (λ d. (d.0 == i) ≡ false → clash m d.1 ≡ false) l
      → Apart l
      → Apart (dict_set i m l)
  unfolding dict_set
  Apart-set next_peer [] ids new h = (tt, tt)
  Apart-set next_peer ((j, n) ∷ l) ids new h = elim (Bool-cases (j == i)) [
    | inl e ↦ rw e (apart_from j l ((==_iff j i).0 e) ids.1 new.1, h.1)
    | inr e ↦ rw e (
      All-set (λ d. clash n d.1 ≡ false) i m l (clash_sym m n (new.0 e)) h.0,
      Apart-set next_peer l ids.2 new.1 h.1,
    )
  ]

pub set-IsSound :
    (limit next_peer i : ℕ) (key : Bytes) (old : Mark) (l : List (ℕ × Mark))
    → dict_get i l ≡ some old
    → length l ≤ limit
    → length key ≡ 64
    → All (λ d. (d.0 == i) ≡ false → clash (true, some key) d.1 ≡ false) l
    → IsSound limit next_peer l
    → IsSound limit next_peer (dict_set i (true, some key) l)
set-IsSound limit next_peer i key old l found short sized new s = record {
  ids = Ids-set i (true, some key) next_peer old l found s.ids;
  apart = Apart-set i (true, some key) next_peer l s.ids new s.apart;
  keyed = All-set (λ e. IsKeyed e.1) i (true, some key) l sized s.keyed;
  few = omega (
    arith,
    accepted-le-length (dict_set i (true, some key) l),
    length-set i (true, some key) old l found,
    short,
  );
}

-- A peer that is new stands at the end.
Ids-append : (n : ℕ) (m : Mark) (l : List (ℕ × Mark)) → Ids n l → Ids (n + 1) (l ++ (n, m) ∷ [])
Ids-append n m [] h = (omega arith, tt, tt)
Ids-append n m (e ∷ l) h = (
  omega (arith, h.0),
  All-append (λ d. (d.0 == e.0) ≡ false) l ((n, m) ∷ []) h.1 (ground (arith, h.0), tt),
  Ids-append n m l h.2,
)

clash-unaccepted : (m : Mark) (k : Option Bytes) → clash m (false, k) ≡ false
clash-unaccepted (a, none) k = refl
clash-unaccepted (a, some l) none = refl
clash-unaccepted (true, some l) (some k) = refl
clash-unaccepted (false, some l) (some k) = refl

Apart-append :
    (n : ℕ) (k : Option Bytes) (l : List (ℕ × Mark)) → Apart l → Apart (l ++ (n, (false, k)) ∷ [])
Apart-append n k [] h = (tt, tt)
Apart-append n k (e ∷ l) h = (
  All-append (λ d. clash e.1 d.1 ≡ false) l ((n, (false, k)) ∷ []) h.0 (clash-unaccepted e.1 k, tt),
  Apart-append n k l h.1,
)

accepted-append :
    (n : ℕ) (k : Option Bytes) (l : List (ℕ × Mark))
    → accepted (l ++ (n, (false, k)) ∷ []) ≡ accepted l
accepted-append n k [] = refl
accepted-append n k ((i, (a, b)) ∷ l) = omega (arith, accepted-append n k l)

pub append-IsSound :
    (limit n : ℕ) (k : Option Bytes) (l : List (ℕ × Mark))
    → IsSound limit n l
    → IsSound limit (n + 1) (l ++ (n, (false, k)) ∷ [])
append-IsSound limit n k l s = record {
  ids = Ids-append n (false, k) l s.ids;
  apart = Apart-append n k l s.apart;
  keyed = All-append (λ e. IsKeyed e.1) l ((n, (false, k)) ∷ []) s.keyed (tt, tt);
  few = let f = s.few in omega (arith, accepted-append n k l, f);
}
