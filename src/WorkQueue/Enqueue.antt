-- ===== src/WorkQueue/Enqueue.antt =====
-- What `Add` does to the queue.
use ror_agent.Prelude.{set-length, ℕ, ◌≡◌, ◌⊎◌, inl, inr, true, [], ◌∷◌, ◌++◌, arith, ◌==◌, add64}
use ror_agent.WorkQueue.{Item, Queue, Update, enqueue, fresh}
use ror_agent.WorkQueue.Positions.{Absent, Split, Split-cases, get_by_uid-Absent, get_by_uid_first}

module _ {P : Type 0} (now : ℕ) (u : Update P) where
  pub enqueue-Absent : (m : Queue P) → Absent u.uid m → enqueue now u m ≡ m ++ fresh now u ∷ []
  unfolding enqueue
  enqueue-Absent m h = rw (get_by_uid-Absent u.uid m h)

  -- An update whose uid the head of the queue has is appended as a second item.
  pub enqueue_head :
      (x : Item P) (m : Queue P)
      → (x.update.uid == u.uid) ≡ true
      → enqueue now u (x ∷ m) ≡ x ∷ (m ++ fresh now u ∷ [])
  unfolding enqueue
  enqueue_head x m h = rw (get_by_uid_first u.uid [] x m tt h)

  -- The item that takes the place of `x`: the retry count of `x` plus one.
  abbrev pub retried : Item P → Item P
  retried x = record (fresh now u) { retry_count = add64 x.retry_count 1 }

  -- Behind the head, the first item with the uid is replaced where it stands, with one retry more.
  pub enqueue_behind :
      (y : Item P) (before : Queue P) (x : Item P) (after : Queue P)
      → Absent u.uid (y ∷ before)
      → (x.update.uid == u.uid) ≡ true
      → enqueue now u (y ∷ before ++ x ∷ after) ≡ y ∷ before ++ retried x ∷ after
  unfolding enqueue
  enqueue_behind y before x after a h =
      rw (get_by_uid_first u.uid (y ∷ before) x after a h)
        (ground (arith, set-length before x (retried x) after))

  -- The two outcomes of `Add`: the update appended, if no item or the head has its uid; or put in
  -- the place of the first item with its uid, behind the head.
  pub data Enqueued (m m' : Queue P) : Type 0 where
    appended :
        (Absent u.uid m
          ⊎ ((x : Item P) × (xs : Queue P) × (m ≡ x ∷ xs) × ((x.update.uid == u.uid) ≡ true)))
        → m' ≡ m ++ fresh now u ∷ []
        → Enqueued m m'
    replaced :
        (y : Item P) (before : Queue P) (x : Item P) (after : Queue P)
        → Absent u.uid (y ∷ before)
        → (x.update.uid == u.uid) ≡ true
        → m ≡ y ∷ before ++ x ∷ after
        → m' ≡ y ∷ before ++ retried x ∷ after
        → Enqueued m m'

  enqueue-Split : (m : Queue P) (s : Split u.uid m) → Enqueued m (enqueue now u m)
  enqueue-Split m s = go s.before s.whole s.first
    where
      go : (b : Queue P) → m ≡ b ++ s.item ∷ s.after → Absent u.uid b → Enqueued m (enqueue now u m)
      go [] e a =
          appended (inr (s.item, s.after, e, s.fits)) (rw e (enqueue_head s.item s.after s.fits))
      go (y ∷ b) e a =
          replaced y b s.item s.after a s.fits e (rw e (enqueue_behind y b s.item s.after a s.fits))

  -- Add either appends the update as a fresh item, where no item or the head of the queue has its
  -- uid, or puts it, with one retry more, in the place of the first item with its uid, which is
  -- behind the head.
  pub enqueue-Enqueued : (m : Queue P) → Enqueued m (enqueue now u m)
  enqueue-Enqueued m = elim (Split-cases u.uid m) [
    | inl a ↦ appended (inl a) (enqueue-Absent m a)
    | inr s ↦ enqueue-Split m s
  ]
