-- ===== src/Prelude/Results.antt =====
-- Exceptions, failed assertions and out-of-range reads as values; a message is dropped. `out_of_fuel`
-- is no error of the program: a loop of the model that met its bound.
use mathlib.Core.Path.{◌≡◌, refl}
use mathlib.Core.Bool.{Bool, true, false}

pub data Error : Type 0 where
  invalid_argument parse_error assertion_failed out_of_bounds out_of_fuel : Error

pub data Result {κ} (T : Type κ) : Type κ where
  err : Error → Result T
  ok : T → Result T

infixl 5 ◌>>◌ ◌>>=◌
abbrev pub ◌>>=◌ {κ μ} : {S : Type κ} {T : Type μ} → Result S → (S → Result T) → Result T
err failure >>= next = err failure
ok value >>= next = next value

abbrev pub ◌>>◌ {κ} : {T : Type κ} → Result (Unit {0}) → Result T → Result T
first >> rest = first >>= λ done. rest

-- `assert(b)`
abbrev pub assert : Bool → Result (Unit {0})
assert true = ok tt
assert false = err Error.assertion_failed

-- `P` holds of the value; a failure satisfies it too.
abbrev pub Returns {ℓ κ} : {A : Type ℓ} → (A → Type κ) → Result A → Type κ
Returns P (ok a) = P a
Returns P (err e) = Unit

pub Returns-bind {ℓ κ μ ν} :
    {A : Type ℓ} {B : Type κ} (P : A → Type μ) (Q : B → Type ν) (m : Result A) (f : A → Result B)
    → Returns P m
    → ((a : A) → P a → Returns Q (f a))
    → Returns Q (m >>= f)
Returns-bind P Q (ok a) f h k = k a h
Returns-bind P Q (err e) f h k = tt

pub Returns-ok {ℓ κ} :
    {A : Type ℓ} (P : A → Type κ) (m : Result A) {a : A} → Returns P m → m ≡ ok a → P a
Returns-ok P m h e = mathlib.Core.Path.subst (Returns P) e h

-- The code returns.
abbrev pub IsOk {ℓ} : {A : Type ℓ} → Result A → Type ℓ
IsOk {A} m = (a : A) × (m ≡ ok a)

pub Returns-bind_eq {ℓ κ ν} :
    {A : Type ℓ} {B : Type κ} (Q : B → Type ν) (m : Result A) (f : A → Result B)
    → ((a : A) → m ≡ ok a → Returns Q (f a))
    → Returns Q (m >>= f)
Returns-bind_eq Q (ok a) f k = k a refl
Returns-bind_eq Q (err e) f k = tt

pub Returns-each {ℓ κ} :
    {A : Type ℓ} (P : A → Type κ) (m : Result A) → ((a : A) → m ≡ ok a → P a) → Returns P m
Returns-each P (ok a) k = k a refl
Returns-each P (err e) k = tt

-- Both parts of a sequence return.
pub IsOk-bind_parts {ℓ κ} :
    {A : Type ℓ} {B : Type κ} (m : Result A) (f : A → Result B)
    → IsOk (m >>= f)
    → (a : A) × (m ≡ ok a) × IsOk (f a)
IsOk-bind_parts (ok a) f h = (a, refl, h)
IsOk-bind_parts (err e) f h = cc h.1

pub IsOk-bind {ℓ κ} :
    {A : Type ℓ} {B : Type κ} (m : Result A) (f : A → Result B)
    → IsOk m
    → ((a : A) → m ≡ ok a → IsOk (f a))
    → IsOk (m >>= f)
IsOk-bind (ok a) f h k = k a refl
IsOk-bind (err e) f h k = cc h.1
