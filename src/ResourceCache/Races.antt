-- ===== src/ResourceCache/Races.antt =====
-- `Add` of internal/services/resourceupdate/workqueue.go in several goroutines: SendResource calls it in
-- the goroutine of a watcher (common/pkg/clients/dynamicclient), on the one queue, without a lock.
use ror_agent.Prelude.{
  ℕ, String, ◌==◌, ◌≡◌, ◌≢◌, refl, true, false, eqb, ltb, add64, arith, if◌then◌else◌, List, [],
  ◌∷◌, ◌++◌, Option, none, set,
}
use ror_agent.WorkQueue.{Update, Queue, Item, fresh, retries_of, get_by_uid}
use ror_agent.WorkQueue.Pending.{pending, pending-append}
use ror_agent.WorkQueue.Positions.{Absent, get_by_uid-Absent}
use ror_agent.ResourceCache.Slices.{
  Slice, Memory, with_cells, items, append, slice_of, memory_of, items-slice_of, items-append_twice,
}

-- How far a goroutine is in its call: what GetByUid returned, the slice that `append` gets, and the
-- slice that it returned. An index out of range ends the program.
pub data Call (P : Type 0) : Type 0 where
  waiting : Call P
  has_found : Option (Item P) × ℕ → Call P
  appending : Slice → Call P
  storing : Slice → Call P
  done failed : Call P

-- The variable of the queue, the memory and the call of each goroutine.
pub record Shared (P : Type 0) : Type 0 where
  pub queue : Slice
  pub memory : Memory (Item P)
  pub calls : ℕ → Call P

module _ {P : Type 0} where
  abbrev pub with_call : ℕ → Call P → (ℕ → Call P) → ℕ → Call P
  with_call i c calls k = if eqb k i then c else calls k

  -- No goroutine is in its call. The queue has the items `q`, and its array the cells `rest` to spare.
  abbrev pub before : Queue P → List (Item P) → Shared P
  before q rest = record { queue = slice_of q; memory = memory_of q rest; calls = λ i. waiting }

module _ {P : Type 0} (clock : ℕ → ℕ) (updates : ℕ → Update P) (spare : List (Item P)) where
  -- One step of one goroutine. GetByUid gets a copy of the slice, and its loop is one step here.
  pub data Step : Shared P → Shared P → Type 0 where
    finds :
        (i : ℕ) (s : Shared P)
        → s.calls i ≡ waiting
        → Step s (record s {
          calls =
              with_call i (has_found (get_by_uid (updates i).uid (items s.queue s.memory))) s.calls;
        })
    -- `(*m)[currentId] = resourceUpdateObject` writes the cell, and not the variable of the queue.
    replaces :
        (i : ℕ) (s : Shared P) (found : Option (Item P)) (id : ℕ)
        → s.calls i ≡ has_found (found, id)
        → ltb 0 id ≡ true
        → ltb id s.queue.len ≡ true
        → Step s (record s {
          memory =
              with_cells s.queue.array
                (set (s.memory.cells s.queue.array) id (record (fresh (clock i) (updates i)) {
                  retry_count = add64 (retries_of found) 1;
                }))
                s.memory;
          calls = with_call i done s.calls;
        })
    fails :
        (i : ℕ) (s : Shared P) (found : Option (Item P)) (id : ℕ)
        → s.calls i ≡ has_found (found, id)
        → ltb 0 id ≡ true
        → ltb id s.queue.len ≡ false
        → Step s (record s { calls = with_call i failed s.calls })
    -- `*m = append(*m, resourceUpdateObject)` reads the variable, appends, and writes the variable.
    loads :
        (i : ℕ) (s : Shared P) (found : Option (Item P)) (id : ℕ)
        → s.calls i ≡ has_found (found, id)
        → ltb 0 id ≡ false
        → Step s (record s { calls = with_call i (appending s.queue) s.calls })
    appends :
        (i : ℕ) (s : Shared P) (h : Slice)
        → s.calls i ≡ appending h
        → Step s (record s {
          memory = (append spare (fresh (clock i) (updates i)) h s.memory).1;
          calls =
              with_call i
                (storing (append spare (fresh (clock i) (updates i)) h s.memory).0)
                s.calls;
        })
    stores :
        (i : ℕ) (s : Shared P) (h : Slice)
        → s.calls i ≡ storing h
        → Step s (record s { queue = h; calls = with_call i done s.calls })

  pub data Steps : Shared P → Shared P → Type 0 where
    here : {s : Shared P} → Steps s s
    next : {s t r : Shared P} → Steps s t → Step t r → Steps s r

  -- A run after which both goroutines are done, and the queue has got the update of the second alone.
  abbrev pub Lost : Queue P → List (Item P) → ℕ → ℕ → Type 0
  Lost q rest i j =
      (s : Shared P) × Steps (before q rest) s
      × (s.calls i ≡ done)
      × (s.calls j ≡ done)
      × (items s.queue s.memory ≡ q ++ fresh (clock j) (updates j) ∷ [])
      × (pending (updates i).uid (items s.queue s.memory) ≡ false)

  finds_none :
      (i : ℕ) (q : Queue P) (rest : List (Item P)) (calls : ℕ → Call P)
      → Absent (updates i).uid q
      → calls i ≡ waiting
      → Step
          (record (before q rest) { calls = calls })
          (record (before q rest) { calls = with_call i (has_found (none, 0)) calls })
  finds_none i q rest calls a w =
      rw (items-slice_of q rest, get_by_uid-Absent (updates i).uid q a) at
        (finds i (record (before q rest) { calls = calls }) w)

  pending-Absent : (k : String) (q : Queue P) → Absent k q → pending k q ≡ false
  unfolding pending
  pending-Absent k [] h = refl
  pending-Absent k (x ∷ xs) h = rw h.0 (pending-Absent k xs h.1)

  pending-appended_other :
      (q : Queue P) (i j : ℕ)
      → Absent (updates i).uid q
      → ((updates j).uid == (updates i).uid) ≡ false
      → pending (updates i).uid (q ++ fresh (clock j) (updates j) ∷ []) ≡ false
  unfolding pending
  pending-appended_other q i j a d =
      rw
        (
          pending-append (updates i).uid q (fresh (clock j) (updates j) ∷ []),
          pending-Absent (updates i).uid q a,
          d,
        )
        refl

  -- For any queue, whatever its array has to spare, and any two goroutines whose updates have
  -- different uids, neither of which is in the queue, there is a run of the steps of both calls
  -- of Add after which both are done, and the queue is the one before with the update of the
  -- second alone at its end, so the uid of the first is not in it.
  pub before-Lost :
      (q : Queue P) (rest : List (Item P)) (i j : ℕ)
      → i ≢ j
      → ((updates j).uid == (updates i).uid) ≡ false
      → Absent (updates i).uid q
      → Absent (updates j).uid q
      → Lost q rest i j
  before-Lost q rest i j n d ai aj =
      let a = append spare (fresh (clock i) (updates i)) (slice_of q) (memory_of q rest) in
      let b = append spare (fresh (clock j) (updates j)) (slice_of q) a.1 in
      let c0 = with_call i (has_found (none, 0)) (λ k. waiting) in
      let c1 = with_call j (has_found (none, 0)) c0 in
      let c2 = with_call i (appending (slice_of q)) c1 in
      let c3 = with_call j (appending (slice_of q)) c2 in
      let c4 = with_call i (storing a.0) c3 in
      let c5 = with_call j (storing b.0) c4 in
      let c6 = with_call i done c5 in
      let s1 = finds_none i q rest (λ k. waiting) ai refl in
      let s2 = finds_none j q rest c0 aj (ground arith) in
      let s3 = loads i (record (before q rest) { calls = c1 }) none 0 (ground arith) refl in
      let s4 = loads j (record (before q rest) { calls = c2 }) none 0 (ground arith) refl in
      let s5 = appends i (record (before q rest) { calls = c3 }) (slice_of q) (ground arith) in
      let s6 =
        appends j (record (before q rest) { memory = a.1; calls = c4 }) (slice_of q)
          (ground arith) in
      let s7 = stores i (record (before q rest) { memory = b.1; calls = c5 }) a.0 (ground arith) in
      let s8 =
        stores j (record (before q rest) { queue = a.0; memory = b.1; calls = c6 }) b.0
          (ground arith) in
      let e =
        items-append_twice spare (fresh (clock i) (updates i)) (fresh (clock j) (updates j)) q
          rest in
      (
        record { queue = b.0; memory = b.1; calls = with_call j done c6 },
        next (next (next (next (next (next (next (next here s1) s2) s3) s4) s5) s6) s7) s8,
        ground arith,
        ground arith,
        e,
        rw e (pending-appended_other q i j ai d),
      )
