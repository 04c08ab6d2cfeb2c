-- ===== src/WorkQueue/Delete.antt =====
-- What `DeleteByUid` does to the queue.
use ror_agent.Prelude.{
  ℕ, suc, ◌+◌, ◌<◌, String, ◌≡◌, refl, true, false, [], ◌∷◌, ◌++◌, arith, ◌==◌, length,
}
use ror_agent.WorkQueue.{Item, Queue, delete_by_uid, keep_but}
use ror_agent.WorkQueue.Positions.{Absent, get_by_uid-Absent, get_by_uid_first}

module _ {P : Type 0} where
  keep_but_past : (i id : ℕ) (m : Queue P) → id < i → keep_but i id m ≡ m
  unfolding keep_but
  keep_but_past i id [] h = refl
  keep_but_past i id (x ∷ xs) h = ground (arith, keep_but_past (i + 1) id xs)

  keep_but_at :
      (i : ℕ) (before : Queue P) (x : Item P) (after : Queue P)
      → keep_but i (i + length before) (before ++ x ∷ after) ≡ before ++ after
  unfolding keep_but
  keep_but_at i [] x after = ground (arith, keep_but_past (i + 1) (i + 0) after)
  keep_but_at i (y ∷ ys) x after =
      let e : i + suc (length ys) ≡ i + 1 + length ys = omega arith in
      rw e (ground (arith, keep_but_at (i + 1) ys x after))

  pub delete_by_uid_empty : (m : Queue P) → delete_by_uid "" m ≡ m
  unfolding delete_by_uid
  delete_by_uid_empty m = refl

  -- DeleteByUid of a uid that is not empty removes the first item with the uid, and leaves the
  -- others in their order.
  pub delete_by_uid_first :
      (uid : String) (before : Queue P) (x : Item P) (after : Queue P)
      → (uid == "") ≡ false
      → Absent uid before
      → (x.update.uid == uid) ≡ true
      → delete_by_uid uid (before ++ x ∷ after) ≡ before ++ after
  unfolding delete_by_uid
  delete_by_uid_first uid before x after n a h =
      rw (n, get_by_uid_first uid before x after a h) (ground (arith, keep_but_at 0 before x after))

  -- DeleteByUid of a uid that is not empty and that no item of a queue has removes the head of
  -- the queue, if there is one.
  pub delete_by_uid-Absent :
      (uid : String) (x : Item P) (m : Queue P)
      → (uid == "") ≡ false
      → Absent uid (x ∷ m)
      → delete_by_uid uid (x ∷ m) ≡ m
  unfolding delete_by_uid
  delete_by_uid-Absent uid x m n a = rw (n, get_by_uid-Absent uid (x ∷ m) a) (keep_but_at 0 [] x m)
