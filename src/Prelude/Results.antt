-- ===== src/Prelude/Results.antt =====
-- The exceptions of the program as values.
use Prim.Native.String.{String}
use mathlib.Core.Path.{◌≡◌, refl, subst}
use mathlib.Core.Logic.{◌⊎◌, inl, inr}
use mathlib.Core.Bool.{Bool, true, false}

-- The exception classes that the modelled code raises, with their messages.
pub data Error : Type 0 where
  value_error : String → Error
  permission_error : String → Error
  runtime_error : String → Error
  type_error : String → Error

pub data Result {ℓ} (A : Type ℓ) : Type ℓ where
  ok : A → Result A
  err : Error → Result A

-- `if b: raise e`
abbrev pub raise_if : Bool → Error → Result (Unit {0})
raise_if true e = err e
raise_if false e = ok tt

-- The call goes on with the result, unless an exception has been raised.
infixl 5 ◌>>=◌ ◌>>◌
abbrev pub ◌>>=◌ {ℓ κ} : {A : Type ℓ} {B : Type κ} → Result A → (A → Result B) → Result B
err raised >>= body = err raised
ok value >>= body = body value

abbrev pub ◌>>◌ {ℓ} : {B : Type ℓ} → Result (Unit {0}) → Result B → Result B
first >> body = first >>= λ _. body

pub Result-cases {ℓ} :
    {A : Type ℓ} (r : Result A) → ((e : Error) × (r ≡ err e)) ⊎ ((a : A) × (r ≡ ok a))
Result-cases (ok a) = inr (a, refl)
Result-cases (err e) = inl (e, refl)

-- What holds of every result that a call returns; an exception has none.
pub record Returns {ℓ κ} {A : Type ℓ} (Q : A → Type κ) (r : Result A) : Type (ℓ ⊔ κ) where
  pub result : (a : A) → r ≡ ok a → Q a

ok_eq {ℓ} : {A : Type ℓ} (a b : A) → ok a ≡ ok b → a ≡ b
ok_eq a b h = cc

pub Returns-ok {ℓ κ} : {A : Type ℓ} (Q : A → Type κ) (a : A) → Q a → Returns Q (ok a)
Returns-ok Q a q = record { result = λ b h. subst Q (ok_eq a b h) q }

pub Returns-bind {ℓ κ μ ν} :
    {A : Type ℓ} {B : Type κ} (P : A → Type μ) (Q : B → Type ν) (r : Result A) (f : A → Result B)
    → Returns P r
    → ((a : A) → P a → Returns Q (f a))
    → Returns Q (r >>= f)
Returns-bind P Q (err e) f p q = record { result = λ b h. cc }
Returns-bind P Q (ok a) f p q = q a (p.result a refl)

-- the first call may return anything
pub Returns-after {ℓ κ ν} :
    {A : Type ℓ} {B : Type κ} (Q : B → Type ν) (r : Result A) (f : A → Result B)
    → ((a : A) → Returns Q (f a))
    → Returns Q (r >>= f)
Returns-after Q (err e) f q = record { result = λ b h. cc }
Returns-after Q (ok a) f q = q a

pub Returns-guard {ℓ κ} :
    {A : Type ℓ} (Q : A → Type κ) (b : Bool) (e : Error) (r : Result A)
    → (b ≡ false → Returns Q r)
    → Returns Q (raise_if b e >> r)
Returns-guard Q true e r q = record { result = λ a h. cc }
Returns-guard Q false e r q = q refl
