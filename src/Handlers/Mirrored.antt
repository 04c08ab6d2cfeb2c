-- ===== src/Handlers/Mirrored.antt =====
-- The watcher, the handlers and the cache together: what the ROR API holds of what the watcher
-- delivered since the start of internal/services/resourceupdate.
use ror_agent.Prelude.{
  ℕ, suc, String, ◌≡◌, refl, sym, subst, ◌⊎◌, true, Option, none, some, Outcome, ok, List, [], ◌∷◌,
  ◌++◌,
}
use ror_agent.WorkQueue.{Action, add, update, delete, need_to_run}
use ror_agent.WorkQueue.Pending.{pending}
use ror_agent.Resource.{Libraries, new_from_unstructured, new_resource_update_model}
use ror_agent.Resource.Json.{Members}
use ror_agent.ResourceCache.{Services, Cache, System, Event, resource, must_init, create_ownerref}
use ror_agent.ResourceCache.Mirror.{MirrorLaws, mirror, Orderly, Spared}
use ror_agent.ResourceCache.Mirror.Run.{run-Mirrored}
use ror_agent.Watcher.{
  Call, listed, watched, added, updated, deleted, slept, stopped_watch, forced_gc,
}
use ror_agent.Handlers.Delivery.{deliver_all, seen, event_of, events_of, deliver_all-run}

module _ {P W H : Type 0} (libs : Libraries P) (services : Services (Option P) W H)
    (j : String) where
  -- Whatever the state before it, the history has no cleanup that deletes the uid.
  abbrev SparedAlways : List (Event services) → Type 0
  SparedAlways es = (s : System services) → Spared services none j s es

  seen-Spared :
      (now : ℕ) (a : Action) (u : Option Members) (es : List (Event services))
      → SparedAlways es
      → SparedAlways (seen libs services now a u ++ es)
  seen-Spared now a u es h =
      elim (new_from_unstructured libs (some u)).1
        as (λ e. SparedAlways (
          elim e [
            | some e' ↦ []
            | none ↦
                resource now (
                  new_resource_update_model (new_from_unstructured libs (some u)).0
                    (create_ownerref services) a)
                ∷ []
          ]
          ++ es)) [ some e ↦ h | none ↦ λ s. (tt, h _) ]

  event_of-Spared :
      (now : ℕ) (c : Call (Option Members)) (es : List (Event services))
      → SparedAlways es
      → SparedAlways (event_of libs services now c ++ es)
  unfolding event_of
  event_of-Spared now (added u) es h = seen-Spared now add u es h
  event_of-Spared now (updated u) es h = seen-Spared now update u es h
  event_of-Spared now (deleted u) es h = seen-Spared now delete u es h
  event_of-Spared now (listed cont) es h = h
  event_of-Spared now (watched rv) es h = h
  event_of-Spared now (slept n) es h = h
  event_of-Spared now stopped_watch es h = h
  event_of-Spared now forced_gc es h = h

  events_of-Spared :
      (clock : ℕ → ℕ) (cs : List (Call (Option Members)))
      → SparedAlways (events_of libs services clock cs)
  unfolding events_of
  events_of-Spared clock [] = λ s. tt
  events_of-Spared clock (c ∷ cs) =
      event_of-Spared (clock 0) c (events_of libs services (λ i. clock (suc i)) cs)
        (events_of-Spared (λ i. clock (suc i)) cs)

  -- If the API and the hash list keep to their laws, the hash list has no other hash of the uid
  -- than the API holds, and the uid is added, updated and deleted only and not seen again once it
  -- is deleted, then since MustInit delivering any calls of the watcher to the handlers succeeds,
  -- and after it the uid waits in the queue, or the API holds what the calls tell of it.
  pub deliver_all-Mirrored :
      (stored : String → W → Option String) (known : String → H → Option String) (clock : ℕ → ℕ)
      (cs : List (Call (Option Members))) (h : H) (w : W)
      → MirrorLaws services stored known
      → ((x : String) → known j h ≡ some x → stored j w ≡ some x)
      → Orderly services j (events_of libs services clock cs)
      → let s = must_init services h w in
        let (result, (c, w')) = deliver_all libs services clock cs (s.live, s.api) in
        (result ≡ ok tt)
        × ((pending j c.workqueue ≡ true)
            ⊎ (stored j w' ≡ mirror services j (events_of libs services clock cs) (stored j w)))
  deliver_all-Mirrored stored known clock cs h w laws sound o =
      subst
        (λ (r : Outcome (Unit {0}) × (Cache (Option P) H × W)).
          (r.0 ≡ ok tt)
          × ((pending j r.1.0.workqueue ≡ true)
              ⊎ (stored j r.1.1
                  ≡ mirror services j (events_of libs services clock cs) (stored j w))))
        (sym (deliver_all-run libs services clock cs (must_init services h w)))
        (
          refl,
          unfold must_init need_to_run in
              run-Mirrored services none stored known laws j (must_init services h w)
                (events_of libs services clock cs) sound refl
                (events_of-Spared clock cs (must_init services h w)) o,
        )
