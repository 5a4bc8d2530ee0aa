-- ===== src/Prelude/Exec.antt =====
-- Methods that change an object and may raise: what was written before a raise stays written.
use structured_p2p_overlay_n.Prelude.Results.{Fault, Result, ok, err}
use mathlib.Core.Path.{◌≡◌, refl, sym, subst}
use mathlib.Core.Bool.{Bool, true, false}
use mathlib.Core.List.{List, [], ◌∷◌}

abbrev pub Exec : Type 0 → Type 0 → Type 0
Exec S A = S → S × Result A

module _ {S A : Type 0} where
  unfoldable pub pure : A → Exec S A
  pure a s = (s, ok a)

  unfoldable pub raise : Fault → Exec S A
  raise e s = (s, err e)

  -- a result computed without touching the object
  unfoldable pub lift : Result A → Exec S A
  lift r s = (s, r)

  unfoldable pub gets : (S → A) → Exec S A
  gets f s = (s, ok (f s))

module _ {S : Type 0} where
  unfoldable pub modify : (S → S) → Exec S (Unit {0})
  modify f s = (f s, ok tt)

module _ {S A B : Type 0} where
  abbrev pub continue : S → Result A → (A → Exec S B) → S × Result B
  continue s (ok a) f = f a s
  continue s (err e) f = (s, err e)

  infixl 5 ◌>>=◌ ◌>>◌
  -- opening this opens the simple actions too
  unfoldable pub ◌>>=◌ : Exec S A → (A → Exec S B) → Exec S B
  unfolding pure raise lift gets modify
  ◌>>=◌ m f s = continue (m s).0 (m s).1 f

  abbrev pub ◌>>◌ : Exec S A → Exec S B → Exec S B
  m >> k = m >>= λ _. k

module _ {S : Type 0} where
  unfoldable pub when : Bool → Exec S (Unit {0}) → Exec S (Unit {0})
  unfolding pure
  when true m = m
  when false m = pure tt

  unfoldable pub assert : Bool → Fault → Exec S (Unit {0})
  unfolding pure raise
  assert true e = pure tt
  assert false e = raise e

-- `for a in l: body(a)`
unfoldable pub for_each : {S A : Type 0} → List A → (A → Exec S (Unit {0})) → Exec S (Unit {0})
unfolding ◌>>=◌
for_each [] body = pure tt
for_each (a ∷ l) body = body a >> for_each l body

-- `m` keeps `P`, whether it returns or raises.
pub record Keeps {S A : Type 0} (P : S → Type 0) (m : Exec S A) : Type 0 where
  pub at : (s : S) → P s → P (m s).0

module _ {S : Type 0} {P : S → Type 0} where
  pub Keeps-modify : (f : S → S) → ((s : S) → P s → P (f s)) → Keeps P (modify f)
  unfolding modify
  Keeps-modify f k = record { at = k }

module _ {S A : Type 0} {P : S → Type 0} where
  -- an action that leaves the object as it is
  unwritten : (m : Exec S A) → ((s : S) → (m s).0 ≡ s) → Keeps P m
  unwritten m same = record { at = λ s. subst P (sym (same s)) }

  pub Keeps-gets : (f : S → A) → Keeps P (gets f)
  Keeps-gets f = unwritten (gets f) (λ s. unfold gets in refl)

  pub Keeps-lift : (r : Result A) → Keeps P (lift r)
  Keeps-lift r = unwritten (lift r) (λ s. unfold lift in refl)

  pub Keeps-pure : (a : A) → Keeps P (pure a)
  Keeps-pure a = unwritten (pure a) (λ s. unfold pure in refl)

  pub Keeps-raise : (e : Fault) → Keeps P (raise {A = A} e)
  Keeps-raise e = unwritten (raise e) (λ s. unfold raise in refl)

module _ {S : Type 0} {P : S → Type 0} where
  pub Keeps-assert : (b : Bool) (e : Fault) → Keeps P (assert b e)
  unfolding assert
  Keeps-assert true e = Keeps-pure tt
  Keeps-assert false e = Keeps-raise e

  pub Keeps-when : (b : Bool) (m : Exec S (Unit {0})) → (b ≡ true → Keeps P m) → Keeps P (when b m)
  unfolding when
  Keeps-when true m k = k refl
  Keeps-when false m k = Keeps-pure tt

module _ {S A B : Type 0} {P : S → Type 0} where
  -- The rest may use that the first action did not raise.
  pub Keeps-bind_eq :
      (m : Exec S A) (f : A → Exec S B)
      → Keeps P m
      → ((s : S) (a : A) → (m s).1 ≡ ok a → P (m s).0 → P (f a (m s).0).0)
      → Keeps P (m >>= f)
  unfolding ◌>>=◌
  Keeps-bind_eq m f km kf = record { at = λ s h. go s (m s).1 refl (km.at s h) }
    where
      go : (s : S) (r : Result A) → (m s).1 ≡ r → P (m s).0 → P (continue (m s).0 r f).0
      go s (ok a) e h = kf s a e h
      go s (err x) e h = h

  pub Keeps-bind :
      (m : Exec S A) (f : A → Exec S B) → Keeps P m → ((a : A) → Keeps P (f a)) → Keeps P (m >>= f)
  Keeps-bind m f km kf = Keeps-bind_eq m f km (λ s a _ h. (kf a).at (m s).0 h)

module _ {S A : Type 0} {P : S → Type 0} where
  pub Keeps-for_each :
      (l : List A) (body : A → Exec S (Unit {0}))
      → ((a : A) → Keeps P (body a))
      → Keeps P (for_each l body)
  unfolding for_each
  Keeps-for_each [] body k = Keeps-pure tt
  Keeps-for_each (a ∷ l) body k =
      Keeps-bind (body a) (λ _. for_each l body) (k a) (λ _. Keeps-for_each l body k)

pub ruleset keeps_rules = (
  Keeps-pure, Keeps-raise, Keeps-lift, Keeps-gets, Keeps-modify, Keeps-when, Keeps-assert,
  Keeps-bind, Keeps-for_each,
)
