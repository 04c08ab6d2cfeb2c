-- ===== src/WorkQueue/Pending.antt =====
-- Which uids are pending after `Add` and `DeleteByUid`, and how the queue grows.
use ror_agent.Prelude.{
  ℕ, ◌+◌, String, ◌≡◌, refl, ap, sym, ◌∙◌, Bool, true, false, ◌||◌, List, [], ◌∷◌, ◌++◌, arith,
  ◌==◌, eq_iff, length, length-append, All,
}
use ror_agent.WorkQueue.{Item, Queue, Update, enqueue, fresh}
use ror_agent.WorkQueue.Enqueue.{
  appended, replaced, enqueue-Enqueued, retried, enqueue-Absent, enqueue_head,
}

module _ {P : Type 0} where
  -- The queue has an item with the uid.
  unfoldable pub pending : String → Queue P → Bool
  pending j [] = false
  pending j (x ∷ xs) = (x.update.uid == j) || pending j xs

  pub pending-append :
      (j : String) (xs ys : Queue P) → pending j (xs ++ ys) ≡ (pending j xs || pending j ys)
  unfolding pending
  pending-append j [] ys = refl
  pending-append j (x ∷ xs) ys = ground (arith, pending-append j xs ys)

  pending-appended :
      (now : ℕ) (u : Update P) (j : String) (m : Queue P)
      → pending j (m ++ fresh now u ∷ []) ≡ (u.uid == j || pending j m)
  unfolding pending
  pending-appended now u j m = ground (arith, pending-append j m (fresh now u ∷ []))

  pending-replaced :
      (now : ℕ) (u : Update P) (j : String) (b : Queue P) (x : Item P) (after : Queue P)
      → (x.update.uid == u.uid) ≡ true
      → pending j (b ++ retried now u x ∷ after) ≡ (u.uid == j || pending j (b ++ x ∷ after))
  unfolding pending
  pending-replaced now u j b x after h = ground (
    arith,
    pending-append j b (retried now u x ∷ after),
    pending-append j b (x ∷ after),
    eq_iff x.update.uid u.uid,
    eq_iff x.update.uid j,
    eq_iff u.uid j,
  )

  -- After Add, the uids in the queue are those from before and the uid of the update.
  pub pending-enqueue :
      (now : ℕ) (u : Update P) (m : Queue P) (j : String)
      → pending j (enqueue now u m) ≡ (u.uid == j || pending j m)
  pending-enqueue now u m j = elim (enqueue-Enqueued now u m) [
    | appended c e ↦ rw e (pending-appended now u j m)
    | replaced y b x after a h e e' ↦
        ap (pending j) e'
        ∙ pending-replaced now u j (y ∷ b) x after h
        ∙ ap (λ t. u.uid == j || pending j t) (sym e)
  ]

  -- `Add` n times, with one uid, of whatever updates.
  unfoldable pub enqueue_all : List (ℕ × Update P) → Queue P → Queue P
  enqueue_all [] m = m
  enqueue_all ((now, u) ∷ us) m = enqueue_all us (enqueue now u m)

  abbrev pub SameUid : String → List (ℕ × Update P) → Type 0
  SameUid uid = All (λ (e : ℕ × Update P). (uid == e.1.uid) ≡ true)

  length-enqueue_all :
      (us : List (ℕ × Update P)) (x : Item P) (m : Queue P)
      → SameUid x.update.uid us
      → length (enqueue_all us (x ∷ m)) ≡ length (x ∷ m) + length us
  unfolding enqueue_all
  length-enqueue_all [] x m h = omega arith
  length-enqueue_all ((now, u) ∷ us) x m h = rw (enqueue_head now u x m h.0) (
      omega (
        arith,
        length-enqueue_all us x (m ++ fresh now u ∷ []) h.1,
        length-append m (fresh now u ∷ []),
      ))

  -- Updates that all have one uid, added one after another to an empty queue, make as many items
  -- as there are updates.
  pub length-enqueue_all_of_empty :
      (uid : String) (us : List (ℕ × Update P))
      → SameUid uid us
      → length (enqueue_all us []) ≡ length us
  unfolding enqueue_all
  length-enqueue_all_of_empty uid [] h = refl
  length-enqueue_all_of_empty uid ((now, u) ∷ us) h =
      rw (enqueue-Absent now u [] tt)
        (omega (arith, length-enqueue_all us (fresh now u) [] (same us h.1)))
    where
      same : (vs : List (ℕ × Update P)) → SameUid uid vs → SameUid u.uid vs
      same [] k = tt
      same ((t, v) ∷ vs) k = (
        ground (arith, eq_iff uid u.uid, eq_iff uid v.uid, eq_iff u.uid v.uid, h.0, k.0),
        same vs k.1,
      )
