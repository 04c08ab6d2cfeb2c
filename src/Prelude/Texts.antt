-- ===== src/Prelude/Texts.antt =====
-- The functions of Go's `strings` that the program calls, over native texts.
use Prim.Native.Nat.{ℕ, zero, suc, ◌/◌, ◌%◌}
use Prim.Native.Char.{Char, code}
use Prim.Native.String.{String}
use Prim.Native.String
use mathlib.Core.Path.{◌≡◌, refl}
use mathlib.Core.Bool.{Bool, true, false, ◌||◌}
use mathlib.Core.Logic.{inl, inr}
use mathlib.Core.List.{List, [], ◌∷◌}
use native.Mathlib.Omega.{arith}
use text.Mathlib.Text.{◌==◌}
use text.Mathlib.TextEquality.{eq_iff}
use ror_agent.Prelude.Tests.{Bool-cases, eqb, ltb, if◌then◌else◌}

-- A character put before the first part.
abbrev onto_first : Char → List String → List String
onto_first c [] = String.◌∷◌ c String.[] ∷ []
onto_first c (p ∷ ps) = String.◌∷◌ c p ∷ ps

-- strings.Split(s, sep) for a separator of one character, given by its code point.
unfoldable pub split : ℕ → String → List String
split sep String.[] = String.[] ∷ []
split sep (String.◌∷◌ c s) =
    let rest = split sep s in if eqb (code c) sep then String.[] ∷ rest else onto_first c rest

-- The last part: `parts[len(parts)-1]`; `Split` returns at least one part.
unfoldable pub last_or : String → List String → String
last_or d [] = d
last_or d (p ∷ ps) = last_or p ps

-- s + t
infixr 65 ◌<>◌
abbrev pub ◌<>◌ : String → String → String
s <> t = String.◌++◌ s t

abbrev digit_text : ℕ → String
digit_text n = at n ("0" ∷ "1" ∷ "2" ∷ "3" ∷ "4" ∷ "5" ∷ "6" ∷ "7" ∷ "8" ∷ "9" ∷ [])
  where
    at : ℕ → List String → String
    at n [] = ""
    at zero (t ∷ ts) = t
    at (suc n) (t ∷ ts) = at n ts

show_digits : ℕ → ℕ → String
show_digits zero n = ""
show_digits (suc rounds) n =
    let rest = show_digits rounds (n / 10) in
    if ltb n 10 then digit_text n else rest <> digit_text (n % 10)

-- fmt.Sprint of an `int32` that is not negative, which has ten digits at most.
unfoldable pub sprint : ℕ → String
unfolding show_digits
sprint n = show_digits 10 n

-- The text has a character of the code point.
unfoldable pub has : ℕ → String → Bool
has c String.[] = false
has c (String.◌∷◌ x s) = eqb (code x) c || has c s

-- A text with no separator is its only part.
pub split_whole : (sep : ℕ) (s : String) → has sep s ≡ false → split sep s ≡ s ∷ []
unfolding has split
split_whole sep String.[] h = refl
split_whole sep (String.◌∷◌ x s) h = ground (arith, split_whole sep s)

-- There is always a part.
split_some : (sep : ℕ) (s : String) → (p : String) × (rest : List String) × (split sep s ≡ p ∷ rest)
unfolding split
split_some sep String.[] = ("", [], refl)
split_some sep (String.◌∷◌ c s) = elim (Bool-cases (eqb (code c) sep)) [
  | inl e ↦ ("", split sep s, ground arith)
  | inr e ↦ let (p, rest, eq) = split_some sep s in (String.◌∷◌ c p, rest, ground arith)
]

-- A text with the separator is split in two parts at least, the first without it.
pub split_many :
    (sep : ℕ) (s : String)
    → has sep s ≡ true
    → (p q : String) × (rest : List String) × (split sep s ≡ p ∷ q ∷ rest) × (has sep p ≡ false)
unfolding split has
split_many sep String.[] h = absurd (cc h)
split_many sep (String.◌∷◌ c s) h = elim (Bool-cases (eqb (code c) sep)) [
  | inl e ↦ let (p, rest, eq) = split_some sep s in ("", p, rest, ground arith, refl)
  | inr e ↦
      let (p, q, rest, eq, a) = split_many sep s (ground arith) in
      (String.◌∷◌ c p, q, rest, ground arith, ground arith)
]

-- A text with a first character is not empty.
pub cons-eq-empty : (c : Char) (s : String) → (String.◌∷◌ c s == "") ≡ false
cons-eq-empty c s = elim (Bool-cases (String.◌∷◌ c s == "")) [
  | inl e ↦ cc ((eq_iff (String.◌∷◌ c s) "").0 e)
  | inr e ↦ e
]
