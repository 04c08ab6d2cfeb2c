-- ===== src/Prelude/Maps.antt =====
-- `map[string]V` as an association list.
use Prim.Native.String.{String}
use mathlib.Core.Path.{◌≡◌, refl}
use mathlib.Core.Option.{Option, none, some}
use mathlib.Core.List.{List, [], ◌∷◌}
use native.Mathlib.Omega.{arith}
use text.Mathlib.Text.{◌==◌}
use text.Mathlib.TextEquality.{eq_iff}
use ror_agent.Prelude.Tests.{if◌then◌else◌}

abbrev pub Assoc {κ} : Type κ → Type κ
Assoc V = List (String × V)

module _ {κ} {V : Type κ} where
  -- v, ok := m[key]
  unfoldable pub lookup : String → Assoc V → Option V
  lookup key [] = none
  lookup key (entry ∷ m) = if entry.0 == key then some entry.1 else lookup key m

  -- m[key] = v
  unfoldable pub insert : String → V → Assoc V → Assoc V
  insert key v [] = (key, v) ∷ []
  insert key v (entry ∷ m) =
      let rest = insert key v m in if entry.0 == key then (key, v) ∷ m else entry ∷ rest

  -- delete(m, key)
  unfoldable pub erase : String → Assoc V → Assoc V
  erase key [] = []
  erase key (entry ∷ m) = let rest = erase key m in if entry.0 == key then rest else entry ∷ rest

  pub lookup-insert :
      (key asked : String) (v : V) (m : Assoc V)
      → lookup asked (insert key v m) ≡ (if key == asked then some v else lookup asked m)
  unfolding lookup insert
  lookup-insert key asked v [] = refl
  lookup-insert key asked v (entry ∷ m) = ground (
    arith,
    lookup-insert key asked v m,
    eq_iff entry.0 key,
    eq_iff entry.0 asked,
    eq_iff key asked,
  )

  pub lookup-erase :
      (key asked : String) (m : Assoc V)
      → lookup asked (erase key m) ≡ (if key == asked then none else lookup asked m)
  unfolding lookup erase
  lookup-erase key asked [] = ground arith
  lookup-erase key asked (entry ∷ m) =
      ground (
        arith,
        lookup-erase key asked m,
        eq_iff entry.0 key,
        eq_iff entry.0 asked,
        eq_iff key asked,
      )

-- m[k] where a missing key reads as "".
unfoldable pub text_at : String → Assoc String → String
text_at k m = elim (lookup k m) [ none ↦ "" | some v ↦ v ]
