-- ===== src/Prelude/Outcomes.antt =====
-- Errors as values, and panics, which no caller of the program recovers from.
use Prim.Native.String.{String}
use mathlib.Core.Path.{◌≡◌, refl}
use mathlib.Core.Bool.{Bool}

-- An error of a called library, with what the program asks of it: `apierrors.IsNotFound(err)`.
pub record ForeignError : Type 0 where
  pub is_not_found : Bool
  pub text : String

pub data Error : Type 0 where
  -- errors.New, or fmt.Errorf of a text
  message : String → Error
  -- fmt.Errorf of a text and an error
  context : String → Error → Error
  foreign : ForeignError → Error

pub data Outcome {ℓ} (A : Type ℓ) : Type ℓ where
  ok : A → Outcome A
  err : Error → Outcome A
  panic : String → Outcome A

-- The next step, on what the first returns, if it returns.
infixl 5 ◌>>◌ ◌>>=◌
abbrev pub ◌>>=◌ {ℓ κ} : {A : Type ℓ} → {B : Type κ} → Outcome A → (A → Outcome B) → Outcome B
ok a >>= f = f a
err e >>= f = err e
panic p >>= f = panic p

abbrev pub ◌>>◌ {ℓ} : {B : Type ℓ} → Outcome (Unit {0}) → Outcome B → Outcome B
m >> k = m >>= λ _. k

pub ok-injective {ℓ} : {A : Type ℓ} {a b : A} → ok a ≡ ok b → a ≡ b
ok-injective h = cc

-- A chain that succeeds went through a first step that succeeded.
pub >>=-eq-ok {ℓ κ} :
    {A : Type ℓ} {B : Type κ} (first : Outcome A) (next : A → Outcome B) {result : B}
    → (first >>= next) ≡ ok result
    → (a : A) × (first ≡ ok a) × (next a ≡ ok result)
>>=-eq-ok (panic p) next same = cc
>>=-eq-ok (err e) next same = cc
>>=-eq-ok (ok a) next same = (a, refl, same)
