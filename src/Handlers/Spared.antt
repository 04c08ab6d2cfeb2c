-- ===== src/Handlers/Spared.antt =====
-- The watcher, the handlers and the cleanup together: what the watcher delivers is not cleaned up.
use ror_agent.Prelude.{
  ℕ, suc, ◌≡◌, ◌≢◌, sym, subst, Bool, true, false, String, Option, none, some, ok, List, [], ◌∷◌,
  ◌++◌, arith, if◌then◌else◌,
}
use ror_agent.WorkQueue.{Action, add, update, delete, Update}
use ror_agent.Resource.{Libraries, new_from_unstructured, new_resource_update_model}
use ror_agent.Resource.Json.{Members}
use ror_agent.ResourceCache.{
  Services, System, Event, resource, cleanup_tick, step, run, create_ownerref, send_update,
  send_if_needed,
}
use ror_agent.ResourceCache.Schedule.{deletions}
use ror_agent.ResourceCache.Active.{lists, ActiveLaws, cleanup_spares}
use ror_agent.Watcher.{
  Call, listed, watched, added, updated, deleted, slept, stopped_watch, forced_gc,
}
use ror_agent.Handlers.Delivery.{
  deliver_all, seen, event_of, events_of, run-append, deliver_all-run,
}

module _ {P W H : Type 0} (libs : Libraries P) (services : Services (Option P) W H) where
  abbrev Running : System services → Type 0
  Running s = s.live.cleanup_running ≡ true

  resource-Running :
      (s : System services) (now : ℕ) (u : Update (Option P))
      → Running s
      → Running (step services none s (resource now u))
  unfolding step send_update send_if_needed
  resource-Running s now u h = ground arith

  seen-Running :
      (s : System services) (now : ℕ) (a : Action) (u : Option Members)
      → Running s
      → Running (run services none s (seen libs services now a u))
  unfolding run
  seen-Running s now a u h =
      elim (new_from_unstructured libs (some u)).1
        as (λ e. Running (
          run services none s (elim e [
            | some e' ↦ []
            | none ↦
                resource now (
                  new_resource_update_model (new_from_unstructured libs (some u)).0
                    (create_ownerref services) a)
                ∷ []
          ]))) [ some e ↦ h | none ↦ resource-Running s now _ h ]

  event_of-Running :
      (s : System services) (now : ℕ) (c : Call (Option Members))
      → Running s
      → Running (run services none s (event_of libs services now c))
  unfolding event_of run
  event_of-Running s now (added u) h = seen-Running s now add u h
  event_of-Running s now (updated u) h = seen-Running s now update u h
  event_of-Running s now (deleted u) h = seen-Running s now delete u h
  event_of-Running s now (listed cont) h = h
  event_of-Running s now (watched rv) h = h
  event_of-Running s now (slept n) h = h
  event_of-Running s now stopped_watch h = h
  event_of-Running s now forced_gc h = h

  events_of-Running :
      (clock : ℕ → ℕ) (cs : List (Call (Option Members))) (s : System services)
      → Running s
      → Running (run services none s (events_of libs services clock cs))
  unfolding events_of run
  events_of-Running clock [] s h = h
  events_of-Running clock (c ∷ cs) s h =
      rw
        (run-append libs services s (event_of libs services (clock 0) c)
          (events_of libs services (λ i. clock (suc i)) cs))
        (events_of-Running (λ i. clock (suc i)) cs
          (run services none s (event_of libs services (clock 0) c))
          (event_of-Running s (clock 0) c h))

  -- A cleanup in this state deletes what the hash list calls inactive, and the uid is not among it.
  abbrev pub Spares : String → System services → Type 0
  Spares uid t =
      let uids = services.get_inactive_uid t.live.hash_list in
      ((step services none t cleanup_tick).api ≡ deletions services none uids t.api)
      × (lists uid uids ≡ false)

  abbrev SparesIf : String → System services → Bool → Type 0
  SparesIf uid t running =
      let uids = if running then services.get_inactive_uid t.live.hash_list else [] in
      ((step services none t cleanup_tick).api ≡ deletions services none uids t.api)
      × (lists uid uids ≡ false)

  first-Spares :
      (now : ℕ) (m : Update (Option P)) (es : List (Event services)) (s : System services)
      → ActiveLaws services none
      → m.action ≢ delete
      → Running s
      → Running (run services none s (resource now m ∷ es))
      → Spares m.uid (run services none s (resource now m ∷ es))
  first-Spares now m es s laws nd h h' =
      subst (SparesIf m.uid (run services none s (resource now m ∷ es))) h'
        (cleanup_spares services none s now m es laws h nd)

  model_of : Option Members → Action → Update (Option P)
  model_of u a =
      new_resource_update_model (new_from_unstructured libs (some u)).0 (create_ownerref services) a

  seen_readable :
      (now : ℕ) (a : Action) (u : Option Members)
      → (new_from_unstructured libs (some u)).1 ≡ none
      → seen libs services now a u ≡ resource now (model_of u a) ∷ []
  unfolding model_of
  seen_readable now a u readable = ground arith

  events-Spares :
      (clock : ℕ → ℕ) (before after : List (Call (Option Members))) (u : Option Members)
      (s : System services)
      → ActiveLaws services none
      → (new_from_unstructured libs (some u)).1 ≡ none
      → Running s
      → Spares
          (new_from_unstructured libs (some u)).0.uid
          (run services none s (events_of libs services clock (before ++ added u ∷ after)))
  unfolding events_of event_of new_resource_update_model model_of run
  events-Spares clock [] after u s laws readable h =
      let m = model_of u add in
      let es = events_of libs services (λ i. clock (suc i)) after in
      subst
        (λ es'.
          Spares (new_from_unstructured libs (some u)).0.uid (run services none s (es' ++ es)))
        (sym (seen_readable (clock 0) add u readable))
        (first-Spares (clock 0) m es s laws (λ e. cc) h
          (events_of-Running (λ i. clock (suc i)) after
            (step services none s (resource (clock 0) m)) (resource-Running s (clock 0) m h)))
  events-Spares clock (c ∷ before) after u s laws readable h =
      rw
        (run-append libs services s (event_of libs services (clock 0) c)
          (events_of libs services (λ i. clock (suc i)) (before ++ added u ∷ after)))
        (events-Spares (λ i. clock (suc i)) before after u
          (run services none s (event_of libs services (clock 0) c)) laws readable
          (event_of-Running s (clock 0) c h))

  -- If a mark makes a uid active and no operation of the hash list makes an active uid inactive,
  -- an object can be read, and the cleanup is running, then: delivering any calls of the watcher,
  -- one of which adds the object, to the handlers succeeds, and gives the state of the cache and
  -- of the API after the events of these calls; a cleanup in that state deletes what the hash
  -- list calls inactive, and the uid of the object is not among it.
  pub listed_spared :
      (clock : ℕ → ℕ) (before after : List (Call (Option Members))) (u : Option Members)
      (s : System services)
      → ActiveLaws services none
      → (new_from_unstructured libs (some u)).1 ≡ none
      → s.live.cleanup_running ≡ true
      → let cs = before ++ added u ∷ after in
        let t = run services none s (events_of libs services clock cs) in
        (deliver_all libs services clock cs (s.live, s.api) ≡ (ok tt, (t.live, t.api)))
        × Spares (new_from_unstructured libs (some u)).0.uid t
  listed_spared clock before after u s laws readable h = (
    deliver_all-run libs services clock (before ++ added u ∷ after) s,
    events-Spares clock before after u s laws readable h,
  )
