-- ===== src/Handlers/Delivery.antt =====
-- The calls of the watcher without a cache, made on the handlers of internal/handlers/dynamichandler.
use ror_agent.Prelude.{
  arith, ℕ, suc, ◌≡◌, refl, Option, none, some, Outcome, ok, err, panic, List, [], ◌∷◌, ◌++◌,
}
use ror_agent.WorkQueue.{Action, add, update, delete}
use ror_agent.Resource.{Libraries, new_from_unstructured, new_resource_update_model}
use ror_agent.Resource.Json.{Members}
use ror_agent.ResourceCache.{
  Services, Cache, System, Event, resource, step, run, create_ownerref, send_resource,
}
use ror_agent.Watcher.{
  Call, listed, watched, added, updated, deleted, slept, stopped_watch, forced_gc,
}
use ror_agent.Handlers.{nil_object, unstructured}
use ror_agent.Handlers.Direct.{add_resource, update_resource, delete_resource, asserted}

module _ {P W H : Type 0} (libs : Libraries P) (services : Services (Option P) W H) where
  -- The watcher hands on pointers that are not nil; it gives nil for the old object.
  unfoldable pub deliver :
      ℕ
      → Call (Option Members)
      → Cache (Option P) H × W
      → Outcome (Unit {0}) × (Cache (Option P) H × W)
  unfolding add_resource update_resource delete_resource
  deliver now (added u) s = add_resource libs services now (unstructured (some u)) s
  deliver now (updated u) s = update_resource libs services now nil_object (unstructured (some u)) s
  deliver now (deleted u) s = delete_resource libs services now (unstructured (some u)) s
  deliver now (listed cont) s = (ok tt, s)
  deliver now (watched rv) s = (ok tt, s)
  deliver now (slept n) s = (ok tt, s)
  deliver now stopped_watch s = (ok tt, s)
  deliver now forced_gc s = (ok tt, s)

  abbrev delivered :
      Outcome (Unit {0}) × (Cache (Option P) H × W)
      → (Cache (Option P) H × W → Outcome (Unit {0}) × (Cache (Option P) H × W))
      → Outcome (Unit {0}) × (Cache (Option P) H × W)
  delivered (ok u, s) rest = rest s
  delivered (err e, s) rest = (err e, s)
  delivered (panic m, s) rest = (panic m, s)

  -- The calls in their order; the clock gives the time of each.
  unfoldable pub deliver_all :
      (ℕ → ℕ)
      → List (Call (Option Members))
      → Cache (Option P) H × W
      → Outcome (Unit {0}) × (Cache (Option P) H × W)
  unfolding deliver
  deliver_all clock [] s = (ok tt, s)
  deliver_all clock (c ∷ cs) s =
      delivered (deliver (clock 0) c s) (deliver_all (λ i. clock (suc i)) cs)

  -- The event of the system that a change of an object is; an object that cannot be read is none.
  abbrev pub seen : ℕ → Action → Option Members → List (Event services)
  seen now action u =
      let (r, failed) = new_from_unstructured libs (some u) in
      elim failed [
        | some e ↦ []
        | none ↦ resource now (new_resource_update_model r (create_ownerref services) action) ∷ []
      ]

  unfoldable pub event_of : ℕ → Call (Option Members) → List (Event services)
  event_of now (added u) = seen now add u
  event_of now (updated u) = seen now update u
  event_of now (deleted u) = seen now delete u
  event_of now (listed cont) = []
  event_of now (watched rv) = []
  event_of now (slept n) = []
  event_of now stopped_watch = []
  event_of now forced_gc = []

  unfoldable pub events_of : (ℕ → ℕ) → List (Call (Option Members)) → List (Event services)
  unfolding event_of
  events_of clock [] = []
  events_of clock (c ∷ cs) = event_of (clock 0) c ++ events_of (λ i. clock (suc i)) cs

  abbrev pub sides : System services → Cache (Option P) H × W
  sides s = (s.live, s.api)

  pub run-append :
      (s : System services) (es fs : List (Event services))
      → run services none s (es ++ fs) ≡ run services none (run services none s es) fs
  unfolding run
  run-append s [] fs = refl
  run-append s (e ∷ es) fs = run-append (step services none s e) es fs

  asserted-run :
      (now : ℕ) (action : Action) (u : Option Members) (s : System services)
      → asserted libs services now action (unstructured (some u)) (sides s)
        ≡ (ok tt, sides (run services none s (seen now action u)))
  unfolding asserted send_resource run step
  asserted-run now action u s = ground arith

  deliver-run :
      (now : ℕ) (c : Call (Option Members)) (s : System services)
      → deliver now c (sides s) ≡ (ok tt, sides (run services none s (event_of now c)))
  unfolding deliver event_of add_resource update_resource delete_resource run
  deliver-run now (added u) s = asserted-run now add u s
  deliver-run now (updated u) s = asserted-run now update u s
  deliver-run now (deleted u) s = asserted-run now delete u s
  deliver-run now (listed cont) s = refl
  deliver-run now (watched rv) s = refl
  deliver-run now (slept n) s = refl
  deliver-run now stopped_watch s = refl
  deliver-run now forced_gc s = refl

  -- Delivering any calls of the watcher, at any times, to the handlers never panics, and leaves
  -- the cache and the API as the events of these calls leave them in the system of the cache,
  -- where an object that cannot be read is no event.
  pub deliver_all-run :
      (clock : ℕ → ℕ) (cs : List (Call (Option Members))) (s : System services)
      → deliver_all clock cs (s.live, s.api)
        ≡ (ok tt, sides (run services none s (events_of clock cs)))
  unfolding deliver_all events_of run
  deliver_all-run clock [] s = refl
  deliver_all-run clock (c ∷ cs) s =
      rw
        (
          deliver-run (clock 0) c s,
          run-append s (event_of (clock 0) c) (events_of (λ i. clock (suc i)) cs),
        )
        (deliver_all-run (λ i. clock (suc i)) cs (run services none s (event_of (clock 0) c)))
