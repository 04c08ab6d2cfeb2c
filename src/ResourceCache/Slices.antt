-- ===== src/ResourceCache/Slices.antt =====
-- A slice of Go in the memory that goroutines share: an array and a length, where `append` writes a spare
-- cell of the array in place, or else a new array.
use ror_agent.Prelude.{
  ℕ, suc, zero, ◌+◌, ◌≡◌, refl, ap, List, [], ◌∷◌, ◌++◌, length, set, ltb, eqb, if◌then◌else◌, true,
  false, arith, length-append, set-length,
}

-- The first `n` items.
unfoldable pub take {ℓ} : {A : Type ℓ} → ℕ → List A → List A
take zero xs = []
take (suc n) [] = []
take (suc n) (x ∷ xs) = x ∷ take n xs

-- A slice from the first cell of an array, by the array and the length.
pub record Slice : Type 0 where
  pub array : ℕ
  pub len : ℕ

-- The cells of each array, as many as its capacity, and the array that is made next. A cell behind each
-- length is never read, so it holds any value.
pub record Memory (A : Type 0) : Type 0 where
  pub cells : ℕ → List A
  pub next : ℕ

module _ {A : Type 0} where
  abbrev pub with_cells : ℕ → List A → Memory A → Memory A
  with_cells a xs m = record m { cells = λ b. if eqb b a then xs else m.cells b }

  -- The items of a slice.
  unfoldable pub items : Slice → Memory A → List A
  unfolding take
  items s m = take s.len (m.cells s.array)

  -- `append(s, x)`, where `spare` is what the runtime leaves free in a new array: the slice it returns, and
  -- the memory. The slice `s` itself stays as it is.
  unfoldable pub append : List A → A → Slice → Memory A → Slice × Memory A
  unfolding take
  append spare x s m =
      if ltb s.len (length (m.cells s.array))
      then (record s { len = suc s.len }, with_cells s.array (set (m.cells s.array) s.len x) m)
      else (
        record { array = m.next; len = suc s.len },
        record (with_cells m.next (take s.len (m.cells s.array) ++ x ∷ spare) m) {
          next = m.next + 1;
        },
      )

  pub take-length : (xs ys : List A) → take (length xs) (xs ++ ys) ≡ xs
  unfolding take
  take-length [] ys = refl
  take-length (x ∷ xs) ys = ap (λ t. x ∷ t) (take-length xs ys)

  pub take-length_one :
      (xs : List A) (y : A) (ys : List A) → take (suc (length xs)) (xs ++ y ∷ ys) ≡ xs ++ y ∷ []
  unfolding take
  take-length_one [] y ys = refl
  take-length_one (x ∷ xs) y ys = ap (λ t. x ∷ t) (take-length_one xs y ys)

  ltb-length_full : (xs : List A) → ltb (length xs) (length (xs ++ [])) ≡ false
  ltb-length_full xs = ground (arith, length-append {A = A} xs [])

  ltb-length : (xs : List A) (y : A) (ys : List A) → ltb (length xs) (length (xs ++ y ∷ ys)) ≡ true
  ltb-length xs y ys = ground (arith, length-append xs (y ∷ ys))

  -- A slice of `xs` in the first array, which has the cells `rest` to spare.
  abbrev pub slice_of : List A → Slice
  slice_of xs = record { array = 0; len = length xs }

  abbrev pub memory_of : List A → List A → Memory A
  memory_of xs rest = record { cells = λ a. if eqb a 0 then xs ++ rest else []; next = 1 }

  pub items-slice_of : (xs rest : List A) → items (slice_of xs) (memory_of xs rest) ≡ xs
  unfolding items
  items-slice_of xs rest = take-length xs rest

  -- Two appends to one slice: the slice that the second returns does not have the first value.
  pub items-append_twice :
      (spare : List A) (x y : A) (xs rest : List A)
      → items
          (append spare y (slice_of xs) (append spare x (slice_of xs) (memory_of xs rest)).1).0
          (append spare y (slice_of xs) (append spare x (slice_of xs) (memory_of xs rest)).1).1
        ≡ xs ++ y ∷ []
  unfolding items append
  items-append_twice spare x y xs [] =
      rw (ltb-length_full xs, ltb-length_full xs, take-length xs []) (take-length_one xs y spare)
  items-append_twice spare x y xs (c ∷ cs) =
      rw (ltb-length xs c cs, set-length xs c x cs, ltb-length xs x cs, set-length xs x y cs)
        (take-length_one xs y cs)
