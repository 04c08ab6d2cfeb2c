-- ===== src/Prelude/Shuffles.antt =====
-- Orders of a list, and of a map that a program ranges over.
use Prim.Native.String.{String}
use mathlib.Core.Path.{◌≡◌, refl, ◌∙◌}
use mathlib.Core.Logic.{inl, inr}
use mathlib.Core.Bool.{false}
use mathlib.Core.List.{List, [], ◌∷◌}
use native.Mathlib.Omega.{arith}
use text.Mathlib.Text.{◌==◌}
use text.Mathlib.TextEquality.{eq_iff}
use ror_agent.Prelude.Lists.{All}
use ror_agent.Prelude.Maps.{Assoc, lookup, insert}
use ror_agent.Prelude.Tests.{Bool-cases}

-- The same elements, as often, in any order.
pub data Shuffle {ℓ} {A : Type ℓ} : List A → List A → Type ℓ where
  nothing : Shuffle [] []
  front : (x : A) {xs ys : List A} → Shuffle xs ys → Shuffle (x ∷ xs) (x ∷ ys)
  swapped : (x y : A) (xs : List A) → Shuffle (x ∷ y ∷ xs) (y ∷ x ∷ xs)
  followed : {xs ys zs : List A} → Shuffle xs ys → Shuffle ys zs → Shuffle xs zs

module _ {ℓ} {A : Type ℓ} where
  pub unshuffled : (xs : List A) → Shuffle xs xs
  unshuffled [] = nothing
  unshuffled (x ∷ xs) = front x (unshuffled xs)

  All-Shuffle {κ} : (P : A → Type κ) {xs ys : List A} → Shuffle xs ys → All P xs → All P ys
  All-Shuffle P nothing h = h
  All-Shuffle P (front x s) h = (h.0, All-Shuffle P s h.1)
  All-Shuffle P (swapped x y xs) h = (h.1.0, (h.0, h.1.1))
  All-Shuffle P (followed s t) h = All-Shuffle P t (All-Shuffle P s h)

module _ {ℓ} {V : Type ℓ} where
  -- No entry has the key.
  abbrev pub NoKey : String → Assoc V → Type 0
  NoKey k = All (λ (e : String × V). (e.0 == k) ≡ false)

  -- No two entries have one key.
  abbrev pub DistinctKeys : Assoc V → Type 0
  DistinctKeys [] = Unit
  DistinctKeys (e ∷ m) = NoKey e.0 m × DistinctKeys m

  pub NoKey-insert :
      (k j : String) (v : V) (m : Assoc V) → (k == j) ≡ false → NoKey j m → NoKey j (insert k v m)
  unfolding insert
  NoKey-insert k j v [] h n = (h, tt)
  NoKey-insert k j v (e ∷ m) h n = elim (Bool-cases (e.0 == k)) [
    | inl same ↦ rw same (h, n.1)
    | inr other ↦ rw other (n.0, NoKey-insert k j v m h n.1)
  ]

  pub insert-DistinctKeys :
      (k : String) (v : V) (m : Assoc V) → DistinctKeys m → DistinctKeys (insert k v m)
  unfolding insert
  insert-DistinctKeys k v [] d = (tt, tt)
  insert-DistinctKeys k v (e ∷ m) d = elim (Bool-cases (e.0 == k)) [
    | inl same ↦ rw same (rw (← (eq_iff e.0 k).0 same) d.0, d.1)
    | inr other ↦ rw other (
      NoKey-insert k e.0 v m (ground (arith, eq_iff k e.0, eq_iff e.0 k)) d.0,
      insert-DistinctKeys k v m d.1,
    )
  ]

  -- A map reads alike in every order of its entries.
  pub lookup-Shuffle :
      {m m' : Assoc V}
      → Shuffle m m'
      → DistinctKeys m
      → DistinctKeys m' × ((k : String) → lookup k m' ≡ lookup k m)
  unfolding lookup
  lookup-Shuffle nothing d = (tt, λ k. refl)
  lookup-Shuffle (front x s) d =
      let (d', same) = lookup-Shuffle s d.1 in
      ((All-Shuffle (λ (e : String × V). (e.0 == x.0) ≡ false) s d.0, d'), λ k. rw (same k))
  lookup-Shuffle (swapped x y xs) d = (
    ((ground (arith, eq_iff x.0 y.0, eq_iff y.0 x.0, d.0.0), d.1.0), (d.0.1, d.1.1)),
    λ k. ground (arith, eq_iff x.0 k, eq_iff y.0 k, eq_iff y.0 x.0, d.0.0),
  )
  lookup-Shuffle (followed s t) d =
      let (d', same) = lookup-Shuffle s d in
      let (d'', same') = lookup-Shuffle t d' in (d'', λ k. same' k ∙ same k)
