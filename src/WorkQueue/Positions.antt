-- ===== src/WorkQueue/Positions.antt =====
-- Where `GetByUid` finds an item.
use ror_agent.Prelude.{
  ℕ, ◌+◌, String, ◌≡◌, refl, ap, ◌⊎◌, inl, inr, true, false, [], ◌∷◌, ◌++◌, none, some, arith, ◌==◌,
  length, All, Bool-cases,
}
use ror_agent.WorkQueue.{Item, Queue, get_from, get_by_uid}

module _ {P : Type 0} where
  -- No item of the queue has the uid.
  abbrev pub Absent : String → Queue P → Type 0
  Absent uid = All (λ (x : Item P). (x.update.uid == uid) ≡ false)

  -- The queue around its first item with the uid.
  pub record Split (uid : String) (m : Queue P) : Type 0 where
    pub before : Queue P
    pub item : Item P
    pub after : Queue P
    pub whole : m ≡ before ++ item ∷ after
    pub fits : (item.update.uid == uid) ≡ true
    pub first : Absent uid before

  pub Split-cases : (uid : String) (m : Queue P) → Absent uid m ⊎ Split uid m
  Split-cases uid [] = inl tt
  Split-cases uid (x ∷ xs) = go (Bool-cases (x.update.uid == uid)) (Split-cases uid xs)
    where
      go :
          ((x.update.uid == uid) ≡ true) ⊎ ((x.update.uid == uid) ≡ false)
          → Absent uid xs ⊎ Split uid xs
          → Absent uid (x ∷ xs) ⊎ Split uid (x ∷ xs)
      go (inl e) r =
          inr (record { before = []; item = x; after = xs; whole = refl; fits = e; first = tt })
      go (inr e) (inl a) = inl (e, a)
      go (inr e) (inr s) = inr (record {
        before = x ∷ s.before;
        item = s.item;
        after = s.after;
        whole = ap (λ t. x ∷ t) s.whole;
        fits = s.fits;
        first = (e, s.first);
      })

  get_from-Absent :
      (i : ℕ) (uid : String) (m : Queue P) → Absent uid m → get_from i uid m ≡ (none, 0)
  unfolding get_from
  get_from-Absent i uid [] h = refl
  get_from-Absent i uid (x ∷ xs) h = rw h.0 (get_from-Absent (i + 1) uid xs h.1)

  get_from_first :
      (i : ℕ) (uid : String) (before : Queue P) (x : Item P) (after : Queue P)
      → Absent uid before
      → (x.update.uid == uid) ≡ true
      → get_from i uid (before ++ x ∷ after) ≡ (some x, i + length before)
  unfolding get_from
  get_from_first i uid [] x after a h = rw h (ground arith)
  get_from_first i uid (y ∷ ys) x after a h =
      rw a.0 (ground (arith, get_from_first (i + 1) uid ys x after a.1 h))

  pub get_by_uid-Absent : (uid : String) (m : Queue P) → Absent uid m → get_by_uid uid m ≡ (none, 0)
  unfolding get_by_uid
  get_by_uid-Absent uid m h = get_from-Absent 0 uid m h

  -- If no item before an item with a uid has that uid, GetByUid returns that item and its index.
  pub get_by_uid_first :
      (uid : String) (before : Queue P) (x : Item P) (after : Queue P)
      → Absent uid before
      → (x.update.uid == uid) ≡ true
      → get_by_uid uid (before ++ x ∷ after) ≡ (some x, length before)
  unfolding get_by_uid
  get_by_uid_first uid before x after a h = ground (arith, get_from_first 0 uid before x after a h)
