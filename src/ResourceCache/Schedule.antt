-- ===== src/ResourceCache/Schedule.antt =====
-- What the scheduled jobs do over any history of the agent.
use ror_agent.Prelude.{ℕ, String, ◌≡◌, refl, ◌∙◌, true, false, List, [], ◌∷◌, arith}
use ror_agent.WorkQueue.{Update, need_to_run}
use ror_agent.WorkQueue.Pending.{pending, pending-enqueue}
use ror_agent.ResourceCache.{
  Services, Cache, System, Event, resource, queue_tick, cleanup_tick, must_init, step, run,
  send_update, send_if_needed, run_workque_scheduler, finnish_cleanup, delete_all,
  send_resource_update_to_ror,
}

module _ {P W H : Type 0} (services : Services P W H) (nothing : P) where
  pub job-step :
      (s : System services) (e : Event services) → (step services nothing s e).job ≡ s.job
  unfolding step
  job-step s (resource now u) = refl
  job-step s (queue_tick now) = refl
  job-step s cleanup_tick = refl

  job-run :
      (s : System services) (es : List (Event services)) → (run services nothing s es).job ≡ s.job
  unfolding run
  job-run s [] = refl
  job-run s (e ∷ es) = job-run (step services nothing s e) es ∙ job-step s e

  -- After any history of resources and scheduled jobs since MustInit, a tick of the job that is
  -- to send the queued updates again changes nothing and sends nothing.
  pub queue_tick_idle :
      (h : H) (w : W) (es : List (Event services)) (now : ℕ)
      → let s = run services nothing (must_init services h w) es in
        step services nothing s (queue_tick now) ≡ s
  unfolding step run_workque_scheduler need_to_run must_init
  queue_tick_idle h w es now = ground (arith, job-run (must_init services h w) es)

  pending-send_update :
      (j : String) (now : ℕ) (u : Update P) (c : Cache P H) (w : W)
      → pending j c.workqueue ≡ true
      → pending j (send_update services now u (c, w)).0.workqueue ≡ true
  unfolding send_update send_if_needed
  pending-send_update j now u c w h = ground (arith, pending-enqueue now u c.workqueue j)

  pub pending-step :
      (j : String) (s : System services) (e : Event services)
      → pending j s.live.workqueue ≡ true
      → pending j (step services nothing s e).live.workqueue ≡ true
  unfolding step finnish_cleanup
  pending-step j s (resource now u) h = pending-send_update j now u s.live s.api h
  pending-step j s (queue_tick now) h = h
  pending-step j s cleanup_tick h = ground arith

  -- A uid that is in the queue of the cache stays in it through any history of resources and
  -- scheduled jobs.
  pub pending-run :
      (j : String) (s : System services) (es : List (Event services))
      → pending j s.live.workqueue ≡ true
      → pending j (run services nothing s es).live.workqueue ≡ true
  unfolding run
  pending-run j s [] h = h
  pending-run j s (e ∷ es) h = pending-run j (step services nothing s e) es (pending-step j s e h)

  -- The API calls of a cleanup: a deletion of each uid, in this order.
  abbrev pub deletions : List String → W → W
  deletions = elim [ [] ↦ λ w. w | uid ∷ (uids → rest) ↦ λ w. rest (services.api_delete uid w).1 ]

  delete_all-deletions :
      (uids : List String) (w : W) → delete_all services nothing uids w ≡ deletions uids w
  unfolding delete_all send_resource_update_to_ror
  delete_all-deletions [] w = refl
  delete_all-deletions (uid ∷ uids) w = delete_all-deletions uids (services.api_delete uid w).1

  idle-step :
      (s : System services) (e : Event services)
      → s.live.cleanup_running ≡ false
      → (step services nothing s e).live.cleanup_running ≡ false
  unfolding step send_update send_if_needed finnish_cleanup
  idle-step s (resource now u) h = ground arith
  idle-step s (queue_tick now) h = h
  idle-step s cleanup_tick h = ground arith

  idle-run :
      (s : System services) (es : List (Event services))
      → s.live.cleanup_running ≡ false
      → (run services nothing s es).live.cleanup_running ≡ false
  unfolding run
  idle-run s [] h = h
  idle-run s (e ∷ es) h = idle-run (step services nothing s e) es (idle-step s e h)

  cleanup_stops :
      (s : System services) → (step services nothing s cleanup_tick).live.cleanup_running ≡ false
  unfolding step finnish_cleanup
  cleanup_stops s = ground arith

  pub cleanup_idle :
      (s : System services)
      → s.live.cleanup_running ≡ false
      → step services nothing s cleanup_tick ≡ s
  unfolding step finnish_cleanup
  cleanup_idle s h = ground arith

  -- If the cleanup is running, its job calls the API to delete each uid that the hash list calls
  -- inactive, in its order, and leaves the queue and the hash list; after any later history a
  -- further tick of the job changes nothing.
  pub cleanup_once :
      (s : System services) (es : List (Event services))
      → s.live.cleanup_running ≡ true
      → let t = step services nothing s cleanup_tick in
        (t.api ≡ deletions (services.get_inactive_uid s.live.hash_list) s.api)
        × (t.live.workqueue ≡ s.live.workqueue)
        × (t.live.hash_list ≡ s.live.hash_list)
        × (step services nothing (run services nothing t es) cleanup_tick
            ≡ run services nothing t es)
  cleanup_once s es h =
      (first_api, first_queue, first_hashes, cleanup_idle _ (idle-run _ es (cleanup_stops s)))
    where
      first_api :
          (step services nothing s cleanup_tick).api
          ≡ deletions (services.get_inactive_uid s.live.hash_list) s.api
      first_api =
          unfold step finnish_cleanup in
          rw h (delete_all-deletions (services.get_inactive_uid s.live.hash_list) s.api)

      first_queue : (step services nothing s cleanup_tick).live.workqueue ≡ s.live.workqueue
      first_queue = unfold step finnish_cleanup in rw h

      first_hashes : (step services nothing s cleanup_tick).live.hash_list ≡ s.live.hash_list
      first_hashes = unfold step finnish_cleanup in rw h
