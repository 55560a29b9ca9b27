-- ===== src/Base/Errors.antt =====
-- Errors as values. An error keeps the format of the source and its arguments; one that wraps
-- another (`%w`) keeps that too. An error of code outside the repository is opaque.
use Prim.Native.String.{String}
use mathlib.Core.Path.{◌≡◌, refl}
use mathlib.Core.Logic.{◌⊎◌, ◌≢◌, inl, inr}
use mathlib.Core.List.{List}

pub data Error : Type 0 where
  external : String → Error
  errorf : String → List String → Error
  wrapf : String → List String → Error → Error

pub data Result {ℓ} (A : Type ℓ) : Type ℓ where
  ok : A → Result A
  err : Error → Result A

infixl 5 ◌>>=◌
abbrev pub ◌>>=◌ {ℓ κ} : {A : Type ℓ} {B : Type κ} → Result A → (A → Result B) → Result B
ok a >>= f = f a
err e >>= f = err e

-- `if err != nil { return fmt.Errorf(format, args..., err) }`
abbrev pub wrap {ℓ} : {A : Type ℓ} → String → List String → Result A → Result A
wrap format args (ok a) = ok a
wrap format args (err e) = err (wrapf format args e)

pub Result-cases {ℓ} :
    {A : Type ℓ} (result : Result A)
    → ((a : A) × (result ≡ ok a)) ⊎ ((e : Error) × (result ≡ err e))
Result-cases (ok value) = inl (value, refl)
Result-cases (err error) = inr (error, refl)

abbrev pub Result_map {ℓ κ} : {A : Type ℓ} {B : Type κ} → (A → B) → Result A → Result B
Result_map f (ok a) = ok (f a)
Result_map f (err e) = err e

pub ok≢err {ℓ} : {A : Type ℓ} {a : A} {e : Error} → ok a ≢ err e
ok≢err h = cc

abbrev pub IsErr {ℓ} : {A : Type ℓ} → Result A → Type 0
IsErr (ok a) = ⊥
IsErr (err e) = Unit

pub IsErr-ne_ok {ℓ} : {A : Type ℓ} (r : Result A) {a : A} → IsErr r → r ≢ ok a
IsErr-ne_ok (ok b) h e = absurd h
IsErr-ne_ok (err b) h e = cc

pub ok-injective {ℓ} : {A : Type ℓ} {a b : A} → ok a ≡ ok b → a ≡ b
ok-injective h = cc
