-- ===== src/Prelude/Dict.antt =====
-- Python's `dict` with numbers for keys, in the order of insertion.
use structured_p2p_overlay_n.Prelude.Tests.{◌==◌, if◌then◌else◌}
use Prim.Native.Nat.{ℕ}
use mathlib.Core.Path.{◌≡◌, refl}
use mathlib.Core.Option.{Option, none, some}
use mathlib.Core.List.{List, [], ◌∷◌}
use native.Mathlib.Omega.{arith}

module _ {V : Type 0} where
  -- `d.get(k)`
  unfoldable pub dict_get : ℕ → List (ℕ × V) → Option V
  dict_get k [] = none
  dict_get k ((j, v) ∷ d) = if j == k then some v else dict_get k d

  -- `d[k] = v`
  unfoldable pub dict_set : ℕ → V → List (ℕ × V) → List (ℕ × V)
  dict_set k v [] = (k, v) ∷ []
  dict_set k v ((j, w) ∷ d) = if j == k then (j, v) ∷ d else (j, w) ∷ dict_set k v d

  -- `del d[k]`
  unfoldable pub dict_del : ℕ → List (ℕ × V) → List (ℕ × V)
  dict_del k [] = []
  dict_del k ((j, w) ∷ d) = if j == k then d else (j, w) ∷ dict_del k d

  -- `d.keys()`
  unfoldable pub dict_keys : List (ℕ × V) → List ℕ
  dict_keys [] = []
  dict_keys ((j, w) ∷ d) = j ∷ dict_keys d

  pub dict_get-set :
      (k j : ℕ) (v : V) (d : List (ℕ × V))
      → dict_get j (dict_set k v d) ≡ (if k == j then some v else dict_get j d)
  unfolding dict_get dict_set
  dict_get-set k j v [] = refl
  dict_get-set k j v ((i, w) ∷ d) = ground (arith, dict_get-set k j v d)

  pub dict_set-set :
      (k : ℕ) (v w : V) (d : List (ℕ × V)) → dict_set k v (dict_set k w d) ≡ dict_set k v d
  unfolding dict_set
  dict_set-set k v w [] = ground arith
  dict_set-set k v w ((i, u) ∷ d) = ground (arith, dict_set-set k v w d)

  pub dict_set-get : (k : ℕ) (v : V) (d : List (ℕ × V)) → dict_get k d ≡ some v → dict_set k v d ≡ d
  unfolding dict_set dict_get
  dict_set-get k v [] h = cc
  dict_set-get k v ((i, u) ∷ d) h = ground (arith, dict_set-get k v d)

  pub dict_del-set :
      (k : ℕ) (v : V) (d : List (ℕ × V)) → dict_get k d ≡ none → dict_del k (dict_set k v d) ≡ d
  unfolding dict_set dict_get dict_del
  dict_del-set k v [] h = ground arith
  dict_del-set k v ((i, u) ∷ d) h = ground (arith, dict_del-set k v d)

  pub dict_get-set_self : (k : ℕ) (v : V) (d : List (ℕ × V)) → dict_get k (dict_set k v d) ≡ some v
  dict_get-set_self k v d = ground (arith, dict_get-set k k v d)
