-- ===== src/Watcher/Backoff.antt =====
-- How long the watcher sleeps.
use ror_agent.Prelude.{
  ℕ, String, ◌≡◌, ◌⊎◌, inl, inr, ◌==◌, Bool, true, false, List, [], ◌∷◌, ◌++◌, Option, none, some,
  map, All, All-append, Bool-cases, if◌then◌else◌,
}
use ror_agent.Watcher.{
  Call, listed, watched, added, updated, deleted, slept, stopped_watch, forced_gc, Answer,
  stop_list, list_failed, page, Signal, stop_watch, closed, event, State, Ending, waiting, failed,
  relist, at_version, Status, running, ended, increase_backoff, after_failure, after_page,
  no_cache_initial_list, handle, watch_events, no_cache_watch, Pass, after_watch, watch_from,
  continue_with, pass, passes, run_no_cache_watcher,
}

-- A power of two, from 1 to 32.
pub data IsBackoff : ℕ → Type 0 where
  one : IsBackoff 1
  two : IsBackoff 2
  four : IsBackoff 4
  eight : IsBackoff 8
  sixteen : IsBackoff 16
  thirty_two : IsBackoff 32

increase_backoff-IsBackoff : (b : ℕ) → IsBackoff b → IsBackoff (increase_backoff b)
unfolding increase_backoff
increase_backoff-IsBackoff _ one = two
increase_backoff-IsBackoff _ two = four
increase_backoff-IsBackoff _ four = eight
increase_backoff-IsBackoff _ eight = sixteen
increase_backoff-IsBackoff _ sixteen = thirty_two
increase_backoff-IsBackoff _ thirty_two = thirty_two

module _ {A : Type 0} where
  -- A sleep is of a length that is a backoff.
  abbrev pub SleepsWell : Call A → Type 0
  SleepsWell (slept b) = IsBackoff b
  SleepsWell _ = Unit

  pub record IsPatient (s : State A) : Type 0 where
    pub backoff : IsBackoff s.backoff
    pub calls : All SleepsWell s.calls

  after_call :
      (s : State A) (c : Call A)
      → SleepsWell c
      → IsPatient s
      → IsPatient (record s { calls = s.calls ++ c ∷ [] })
  after_call s c h v = record {
    backoff = v.backoff;
    calls = All-append SleepsWell s.calls (c ∷ []) v.calls (h, tt);
  }

  -- Of two results, the one that a test takes.
  either-IsPatient {ℓ} :
      {R : Type ℓ} (b : Bool) (x y : R × State A)
      → IsPatient x.1
      → IsPatient y.1
      → IsPatient (if b then x else y).1
  either-IsPatient true x y v w = v
  either-IsPatient false x y v w = w

  added-SleepsWell : (items : List A) → All SleepsWell (map added items)
  added-SleepsWell [] = tt
  added-SleepsWell (x ∷ xs) = (tt, added-SleepsWell xs)

module _ {A : Type 0} (version : A → String) where
  failure-IsPatient : (s : State A) → IsPatient s → IsPatient (after_failure version s)
  unfolding after_failure
  failure-IsPatient s v = record {
    backoff = increase_backoff-IsBackoff s.backoff v.backoff;
    calls = All-append SleepsWell s.calls (slept s.backoff ∷ []) v.calls (v.backoff, tt);
  }

  page-IsPatient :
      (items : List A) (s : State A) → IsPatient s → IsPatient (after_page version items s)
  unfolding after_page
  page-IsPatient items s v = record {
    backoff = one;
    calls = All-append SleepsWell s.calls (map added items) v.calls (added-SleepsWell items);
  }

  list-IsPatient :
      (answers : List (Answer A)) (cont : String) (s : State A)
      → IsPatient s
      → IsPatient (no_cache_initial_list version answers cont s).1
  unfolding no_cache_initial_list
  list-IsPatient [] cont s v = v
  list-IsPatient (stop_list ∷ rest) cont s v = v
  list-IsPatient (list_failed ∷ rest) cont s v =
      failure-IsPatient _ (after_call s (listed cont) tt v)
  list-IsPatient (page items rv next ∷ rest) cont s v =
      let s' = after_page version items (record s { calls = s.calls ++ listed cont ∷ [] }) in
      let paged = page-IsPatient items _ (after_call s (listed cont) tt v) in
      either-IsPatient (next == "")
        (at_version rv, record s' { calls = s'.calls ++ forced_gc ∷ [] })
        (no_cache_initial_list version rest next s') (after_call s' forced_gc tt paged)
        (list-IsPatient rest next s' paged)

  handle-SleepsWell :
      (type : String) (u : A)
      → (handle version type u ≡ none)
        ⊎ ((calls : List (Call A)) × (handle version type u ≡ some calls) × All SleepsWell calls)
  unfolding handle
  handle-SleepsWell type u = elim (Bool-cases (type == "ADDED")) [
    | inl e ↦ inr (added u ∷ [], rw e, (tt, tt))
    | inr e ↦ elim (Bool-cases (type == "MODIFIED")) [
      | inl e' ↦ inr (updated u ∷ [], rw (e, e'), (tt, tt))
      | inr e' ↦ elim (Bool-cases (type == "DELETED")) [
        | inl e'' ↦ inr (deleted u ∷ [], rw (e, e', e''), (tt, tt))
        | inr e'' ↦ elim (Bool-cases (type == "ERROR")) [
          | inl f ↦ inl (rw (e, e', e'', f))
          | inr f ↦ inr ([], rw (e, e', e'', f), tt)
        ]
      ]
    ]
  ]

  watch_events-IsPatient :
      (signals : List (Signal A)) (rv : String) (s : State A)
      → IsPatient s
      → IsPatient (watch_events version signals rv s).1
  unfolding watch_events
  watch_events-IsPatient [] rv s v = v
  watch_events-IsPatient (stop_watch ∷ rest) rv s v = after_call s stopped_watch tt v
  watch_events-IsPatient (closed ∷ rest) rv s v = after_call s stopped_watch tt v
  watch_events-IsPatient (event type none ∷ rest) rv s v =
      either-IsPatient (type == "ERROR")
        (relist, record s { calls = s.calls ++ stopped_watch ∷ [] })
        (watch_events version rest rv s) (after_call s stopped_watch tt v)
        (watch_events-IsPatient rest rv s v)
  watch_events-IsPatient (event type (some u) ∷ rest) rv s v = elim (handle-SleepsWell type u) [
    | inl e ↦ rw e (after_call s stopped_watch tt v)
    | inr (calls, e, h) ↦ rw e (
        watch_events-IsPatient rest _ (record s { calls = s.calls ++ calls })
          (record { backoff = v.backoff; calls = All-append SleepsWell s.calls calls v.calls h }))
  ]

  no_cache_watch-IsPatient :
      (watch : Option (List (Signal A))) (rv : String) (s : State A)
      → IsPatient s
      → IsPatient (no_cache_watch version watch rv s).1
  unfolding no_cache_watch
  no_cache_watch-IsPatient none rv s v = failure-IsPatient _ (after_call s (watched rv) tt v)
  no_cache_watch-IsPatient (some signals) rv s v =
      watch_events-IsPatient signals rv _
        (record { backoff = one; calls = (after_call s (watched rv) tt v).calls })

  after_watch-IsPatient :
      (stop : Bool) (r : Ending × State A)
      → IsPatient r.1
      → IsPatient (after_watch version stop r).1
  after_watch-IsPatient true r v = v
  after_watch-IsPatient false (waiting, s) v = v
  after_watch-IsPatient false (failed, s) v = v
  after_watch-IsPatient false (relist, s) v = v
  after_watch-IsPatient false (at_version rv, s) v = v

  watch_from-IsPatient :
      (p : Pass version) (r : Ending × State A)
      → IsPatient r.1
      → IsPatient (watch_from version p r).1
  watch_from-IsPatient p (waiting, s) v = v
  watch_from-IsPatient p (failed, s) v = v
  watch_from-IsPatient p (relist, s) v = v
  watch_from-IsPatient p (at_version rv, s) v =
      after_watch-IsPatient p.stop_after (no_cache_watch version p.watch rv s)
        (no_cache_watch-IsPatient p.watch rv s v)

  pass-IsPatient :
      (p : Pass version) (rv : String) (s : State A)
      → IsPatient s
      → IsPatient (pass version p rv s).1
  unfolding pass
  pass-IsPatient p rv s v =
      let first =
        if rv == "" then no_cache_initial_list version p.answers "" s else (at_version rv, s) in
      either-IsPatient p.stop_before (ended, s) (watch_from version p first) v
        (watch_from-IsPatient p first (
          either-IsPatient (rv == "") (no_cache_initial_list version p.answers "" s)
            (at_version rv, s) (list-IsPatient p.answers "" s v) v))

  passes-IsPatient :
      (ps : List (Pass version)) (rv : String) (s : State A)
      → IsPatient s
      → IsPatient (passes version ps rv s).1
  unfolding passes
  passes-IsPatient [] rv s v = v
  passes-IsPatient (p ∷ ps) rv s v =
      go (pass version p rv s) (pass-IsPatient p rv s v) (passes-IsPatient ps)
    where
      go :
          (r : Status version × State A)
          → IsPatient r.1
          → ((rv' : String) (s' : State A) → IsPatient s' → IsPatient (passes version ps rv' s').1)
          → IsPatient (continue_with version r (passes version ps)).1
      go (running rv', s') v' h = h rv' s' v'
      go (ended, s') v' h = v'

-- Whatever the cluster answers, the backoff of the watcher is a power of two from 1 to 32 seconds
-- after any number of passes, and so is the length of every sleep.
pub run_no_cache_watcher-IsPatient :
    {A : Type 0} (version : A → String) (ps : List (Pass version))
    → IsPatient (run_no_cache_watcher version ps).1
unfolding run_no_cache_watcher
run_no_cache_watcher-IsPatient version ps =
    passes-IsPatient version ps "" _ (record { backoff = one; calls = tt })
