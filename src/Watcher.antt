-- ===== src/Watcher.antt =====
-- `runNoCacheWatcher` of common/pkg/controllers/dynamiccontroller/dynamicController.go: a paged list and
-- then a watch, without a store. What the cluster answers is the input: one `Answer` for each pass of
-- the loop over pages, one `Signal` for each pass of the loop over events. Where the input ends, the
-- loop waits. What the watcher does is the list of its calls.
pub mod Backoff
pub mod Calls
pub mod Controller
use ror_agent.Prelude.{
  ℕ, ◌*◌, String, ◌==◌, Bool, true, false, List, [], ◌∷◌, ◌++◌, Option, none, some, map, ltb,
  if◌then◌else◌,
}

pub data Call (A : Type 0) : Type 0 where
  -- List with a continue token, and Watch from a resource version
  listed watched : String → Call A
  -- AddFunc, UpdateFunc and DeleteFunc of the handler
  added updated deleted : A → Call A
  -- time.Sleep, in seconds
  slept : ℕ → Call A
  -- w.Stop()
  stopped_watch : Call A
  -- maybeForceGCAfterInitialList
  forced_gc : Call A

-- One pass of the loop over the pages: the stop channel is closed; the list fails; or there is a page,
-- with its resource version and its continue token.
pub data Answer (A : Type 0) : Type 0 where
  stop_list list_failed : Answer A
  page : List A → String → String → Answer A

-- One pass of the loop over the events: the stop channel is closed; the result channel is closed; or
-- there is an event of a type with an object, `none` if it is no resource.
pub data Signal (A : Type 0) : Type 0 where
  stop_watch closed : Signal A
  event : String → Option A → Signal A

pub record State (A : Type 0) : Type 0 where
  -- in seconds
  pub backoff : ℕ
  pub calls : List (Call A)

-- How a loop ends, if the input suffices.
pub data Ending : Type 0 where
  waiting failed relist : Ending
  at_version : String → Ending

unfoldable pub increase_backoff : ℕ → ℕ
increase_backoff backoff = if ltb backoff 30 then backoff * 2 else backoff

module _ {A : Type 0} (version : A → String) where
  abbrev pub called : Call A → State A → State A
  called c s = record s { calls = s.calls ++ c ∷ [] }

  -- What follows a failed call: a sleep, and a longer backoff.
  unfoldable pub after_failure : State A → State A
  unfolding increase_backoff
  after_failure s = record {
    backoff = increase_backoff s.backoff;
    calls = s.calls ++ slept s.backoff ∷ [];
  }

  -- A page that is read: the backoff is reset, and the items are added.
  unfoldable pub after_page : List A → State A → State A
  after_page items s = record { backoff = 1; calls = s.calls ++ map added items }

  -- noCacheInitialList from a continue token.
  unfoldable pub no_cache_initial_list : List (Answer A) → String → State A → Ending × State A
  unfolding after_failure after_page
  no_cache_initial_list [] cont s = (waiting, s)
  no_cache_initial_list (stop_list ∷ rest) cont s = (failed, s)
  no_cache_initial_list (list_failed ∷ rest) cont s =
      (failed, after_failure (called (listed cont) s))
  no_cache_initial_list (page items rv next ∷ rest) cont s =
      let s' = after_page items (called (listed cont) s) in
      let more = no_cache_initial_list rest next s' in
      if next == "" then (at_version rv, called forced_gc s') else more

  abbrev newer : String → String → String
  newer rv old = if rv == "" then old else rv

  -- The call of the handler for a type of event; `none` is the error event, which ends the watch.
  unfoldable pub handle : String → A → Option (List (Call A))
  handle type u =
      if type == "ADDED"
      then some (added u ∷ [])
      else if type == "MODIFIED"
      then some (updated u ∷ [])
      else if type == "DELETED"
      then some (deleted u ∷ [])
      else if type == "ERROR"
      then none
      else some []

  abbrev handled :
      Option (List (Call A)) → (State A → Ending × State A) → State A → Ending × State A
  handled none next s = (relist, called stopped_watch s)
  handled (some calls) next s = next (record s { calls = s.calls ++ calls })

  -- The loop of noCacheWatch.
  unfoldable pub watch_events : List (Signal A) → String → State A → Ending × State A
  unfolding handle
  watch_events [] rv s = (waiting, s)
  watch_events (stop_watch ∷ rest) rv s = (at_version rv, called stopped_watch s)
  watch_events (closed ∷ rest) rv s = (at_version rv, called stopped_watch s)
  watch_events (event type none ∷ rest) rv s =
      let more = watch_events rest rv s in
      if type == "ERROR" then (relist, called stopped_watch s) else more
  watch_events (event type (some u) ∷ rest) rv s =
      handled (handle type u) (watch_events rest (newer (version u) rv)) s

  -- noCacheWatch: the watch fails, which is `none`, or delivers signals.
  unfoldable pub no_cache_watch : Option (List (Signal A)) → String → State A → Ending × State A
  unfolding after_failure watch_events
  no_cache_watch none rv s = (at_version rv, after_failure (called (watched rv) s))
  no_cache_watch (some signals) rv s =
      watch_events signals rv (record { backoff = 1; calls = s.calls ++ watched rv ∷ [] })

  -- One pass of the loop of runNoCacheWatcher: whether the stop channel is closed before and after, the
  -- answers to the list, if it is made, and the watch.
  pub record Pass : Type 0 where
    pub stop_before : Bool
    pub answers : List (Answer A)
    pub watch : Option (List (Signal A))
    pub stop_after : Bool

  -- What a pass leaves: the loop goes on with a resource version, or it has returned or waits.
  pub data Status : Type 0 where
    running : String → Status
    ended : Status

  abbrev pub after_watch : Bool → Ending × State A → Status × State A
  after_watch true (e, s) = (ended, s)
  after_watch false (waiting, s) = (ended, s)
  after_watch false (failed, s) = (ended, s)
  after_watch false (relist, s) = (running "", s)
  after_watch false (at_version rv, s) = (running rv, s)

  abbrev pub watch_from : Pass → Ending × State A → Status × State A
  watch_from p (waiting, s) = (ended, s)
  watch_from p (failed, s) = (running "", s)
  watch_from p (relist, s) = (running "", s)
  watch_from p (at_version rv, s) = after_watch p.stop_after (no_cache_watch p.watch rv s)

  unfoldable pub pass : Pass → String → State A → Status × State A
  unfolding no_cache_initial_list no_cache_watch
  pass p rv s =
      if p.stop_before
      then (ended, s)
      else watch_from p
          (if rv == "" then no_cache_initial_list p.answers "" s else (at_version rv, s))

  abbrev pub continue_with :
      Status × State A → (String → State A → Status × State A) → Status × State A
  continue_with (running rv, s) next = next rv s
  continue_with (ended, s) next = (ended, s)

  unfoldable pub passes : List Pass → String → State A → Status × State A
  unfolding pass
  passes [] rv s = (running rv, s)
  passes (p ∷ ps) rv s = continue_with (pass p rv s) (passes ps)

  unfoldable pub run_no_cache_watcher : List Pass → Status × State A
  unfolding passes
  run_no_cache_watcher ps = passes ps "" (record { backoff = 1; calls = [] })
