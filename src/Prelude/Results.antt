-- ===== src/Prelude/Results.antt =====
-- Exceptions: a function that may raise returns a `Result`.
use mathlib.Core.Path.{◌≡◌, refl}
use mathlib.Core.Bool.{Bool, true, false}
use mathlib.Core.Option.{Option, none, some}

-- `assertion_error` is a failed `assert`, `bare_exception` is `raise Exception`, `type_error` is
-- also AttributeError, a value of a type that has not what is asked for, and `out_of_fuel`
-- is no exception of the program: the model's bound on a recursion was met.
pub data Fault : Type 0 where
  assertion_error bare_exception key_error index_error value_error : Fault
  wrong_mac packet_expired multiplexer_error deserialization_error : Fault
  authentication_error format_error invalid_key_error unknown_command rlp_error : Fault
  runtime_error struct_error type_error out_of_fuel : Fault

pub data Result {ℓ} (A : Type ℓ) : Type ℓ where
  ok : A → Result A
  err : Fault → Result A

-- `assert b`, and `if not b: raise e`
abbrev pub check : Bool → Fault → Result (Unit {0})
check false fault = err fault
check true _ = ok tt

infixl 5 ◌>>=◌
abbrev pub ◌>>=◌ {ℓ κ} :
    {A : Type ℓ} {B : Type κ} (first : Result A) (next : A → Result B) → Result B
err fault >>= next = err fault
ok value >>= next = next value

abbrev pub of_option {ℓ} : {A : Type ℓ} → Fault → Option A → Result A
of_option e none = err e
of_option e (some a) = ok a

infixl 5 ◌>>◌
abbrev pub ◌>>◌ {ℓ} : {A : Type ℓ} (first : Result (Unit {0})) (second : Result A) → Result A
first >> second = first >>= λ _. second

-- What a sequence that returned says of its two parts.
pub >>=-eq-ok {ℓ κ} :
    {A : Type ℓ} {B : Type κ} (first : Result A) (next : A → Result B) {result : B}
    → (first >>= next) ≡ ok result
    → (value : A) × (first ≡ ok value) × (next value ≡ ok result)
>>=-eq-ok (err fault) next returned = cc
>>=-eq-ok (ok value) next returned = (value, refl, returned)

-- To split on a computed result and keep the equation.
pub data ResultCase {ℓ} {A : Type ℓ} (r : Result A) : Type ℓ where
  is_ok : (a : A) → r ≡ ok a → ResultCase r
  is_err : (e : Fault) → r ≡ err e → ResultCase r

pub Result-cases {ℓ} : {A : Type ℓ} (r : Result A) → ResultCase r
Result-cases (ok a) = is_ok a refl
Result-cases (err e) = is_err e refl

pub ok-injective {ℓ} : {A : Type ℓ} {a b : A} → ok a ≡ ok b → a ≡ b
ok-injective h = cc

pub of_option-eq-ok {ℓ} :
    {A : Type ℓ} {a : A} (e : Fault) (o : Option A) → of_option e o ≡ ok a → o ≡ some a
of_option-eq-ok e none h = cc
of_option-eq-ok e (some b) h = cc

pub check-eq-ok : (b : Bool) (e : Fault) {t : Unit {0}} → check b e ≡ ok t → b ≡ true
check-eq-ok true e h = refl
check-eq-ok false e h = cc
