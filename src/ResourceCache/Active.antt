-- ===== src/ResourceCache/Active.antt =====
-- What the cleanup of internal/services/resourceupdate/resourcecache.go spares.
use ror_agent.Prelude.{
  ℕ, String, ◌==◌, ◌≡◌, ◌≢◌, refl, ap, Bool, true, false, ◌||◌, List, [], ◌∷◌, arith, if◌then◌else◌,
}
use ror_agent.WorkQueue.{Action, add, update, delete, other, Update}
use ror_agent.ResourceCache.{
  Services, Cache, System, Event, resource, queue_tick, cleanup_tick, step, run, send_update,
  send_if_needed, marked, finnish_cleanup, send_or_queue, by_action,
}
use ror_agent.ResourceCache.Schedule.{deletions, cleanup_once, cleanup_idle}

abbrev pub lists : String → List String → Bool
lists uid = elim [ [] ↦ false | j ∷ (js → rest) ↦ j == uid || rest ]

module _ {P W H : Type 0} (services : Services P W H) (nothing : P) where
  open services use {check_update_needed, mark_active, update_hash, get_inactive_uid}

  abbrev pub inactive : String → H → Bool
  inactive uid h = lists uid (get_inactive_uid h)

  -- What the agent relies on of the hash list: a mark makes a uid active, and no operation makes an
  -- active uid inactive.
  pub record ActiveLaws : Type 0 where
    pub marks : (uid : String) (h : H) → inactive uid (mark_active uid h) ≡ false
    pub mark :
        (uid j : String) (h : H) → inactive uid h ≡ false → inactive uid (mark_active j h) ≡ false
    pub check :
        (uid j hash : String) (h : H)
        → inactive uid h ≡ false
        → inactive uid (check_update_needed j hash h).1 ≡ false
    pub store :
        (uid j hash : String) (h : H)
        → inactive uid h ≡ false
        → inactive uid (update_hash j hash h) ≡ false

  module _ (laws : ActiveLaws) where
    marked-active :
        (uid : String) (u : Update P) (c : Cache P H)
        → inactive uid c.hash_list ≡ false
        → inactive uid (marked services u c).hash_list ≡ false
    marked-active uid u c h = ground (arith, laws.mark uid u.uid c.hash_list)

    send_or_queue-active :
        (uid : String) (stores : Bool) (now : ℕ) (u : Update P) (c : Cache P H) (w : W)
        → inactive uid c.hash_list ≡ false
        → inactive uid (send_or_queue services stores now u c w).0.hash_list ≡ false
    send_or_queue-active uid stores now u c w h =
        ground (arith, laws.store uid u.uid u.hash c.hash_list)

    send_if_needed-active :
        (uid : String) (now : ℕ) (u : Update P) (c : Cache P H) (w : W)
        → inactive uid (marked services u c).hash_list ≡ false
        → inactive uid (send_if_needed services now u c w).0.hash_list ≡ false
    unfolding send_if_needed
    send_if_needed-active uid now u c w h =
        needed_active r.0 c'' (laws.check uid u.uid u.hash c'.hash_list h)
      where
        c' : Cache P H
        c' = marked services u c

        r : Bool × H
        r = check_update_needed u.uid u.hash c'.hash_list

        c'' : Cache P H
        c'' = record c' { hash_list = r.1 }

        needed_active :
            (needed : Bool) (d : Cache P H)
            → inactive uid d.hash_list ≡ false
            → inactive uid
                (if needed then send_or_queue services true now u d w else (d, w)).0.hash_list
              ≡ false
        needed_active true d k = send_or_queue-active uid true now u d w k
        needed_active false d k = k

    by_action-active :
        (uid : String) (a : Action) (now : ℕ) (u : Update P) (c : Cache P H) (w : W)
        → inactive uid c.hash_list ≡ false
        → inactive uid (by_action services a now u c w).0.hash_list ≡ false
    by_action-active uid delete now u c w h = send_or_queue-active uid false now u c w h
    by_action-active uid add now u c w h =
        send_if_needed-active uid now u c w (marked-active uid u c h)
    by_action-active uid update now u c w h =
        send_if_needed-active uid now u c w (marked-active uid u c h)
    by_action-active uid (other a) now u c w h =
        send_if_needed-active uid now u c w (marked-active uid u c h)

    pub active-step :
        (uid : String) (s : System services) (e : Event services)
        → inactive uid s.live.hash_list ≡ false
        → inactive uid (step services nothing s e).live.hash_list ≡ false
    unfolding step send_update finnish_cleanup
    active-step uid s (resource now u) h = by_action-active uid u.action now u s.live s.api h
    active-step uid s (queue_tick now) h = h
    active-step uid s cleanup_tick h = ground arith

    active-run :
        (uid : String) (s : System services) (es : List (Event services))
        → inactive uid s.live.hash_list ≡ false
        → inactive uid (run services nothing s es).live.hash_list ≡ false
    unfolding run
    active-run uid s [] h = h
    active-run uid s (e ∷ es) h =
        active-run uid (step services nothing s e) es (active-step uid s e h)

    -- An update that is no deletion makes its uid active while the cleanup runs.
    pub seen_active :
        (s : System services) (now : ℕ) (u : Update P)
        → s.live.cleanup_running ≡ true
        → u.action ≢ delete
        → inactive u.uid (step services nothing s (resource now u)).live.hash_list ≡ false
    unfolding step send_update
    seen_active s now u running nd = not_deleted u.action nd
      where
        now_active : inactive u.uid (marked services u s.live).hash_list ≡ false
        now_active = rw running (laws.marks u.uid s.live.hash_list)

        not_deleted :
            (a : Action)
            → a ≢ delete
            → inactive u.uid (by_action services a now u s.live s.api).0.hash_list ≡ false
        not_deleted add n = send_if_needed-active u.uid now u s.live s.api now_active
        not_deleted update n = send_if_needed-active u.uid now u s.live s.api now_active
        not_deleted delete n = elim (n refl) [ ]
        not_deleted (other a) n = send_if_needed-active u.uid now u s.live s.api now_active

  -- If a mark makes a uid active, no operation of the hash list makes an active uid inactive, the
  -- cleanup is running and an update that is no deletion arrives, then after any later history a
  -- tick of the cleanup deletes the uids that the hash list calls inactive, or none if the
  -- cleanup has run, and the uid of the update is not among them.
  pub cleanup_spares :
      (s : System services) (now : ℕ) (u : Update P) (es : List (Event services))
      → ActiveLaws
      → s.live.cleanup_running ≡ true
      → u.action ≢ delete
      → let t = run services nothing s (resource now u ∷ es) in
        let uids = if t.live.cleanup_running then get_inactive_uid t.live.hash_list else [] in
        ((step services nothing t cleanup_tick).api ≡ deletions services nothing uids t.api)
        × (lists u.uid uids ≡ false)
  unfolding run
  cleanup_spares s now u es laws running nd =
      let t = run services nothing (step services nothing s (resource now u)) es in
      swept t t.live.cleanup_running refl (
        active-run laws u.uid (step services nothing s (resource now u)) es
          (seen_active laws s now u running nd))
    where
      Spared : System services → Bool → Type 0
      Spared t running' =
          let uids = if running' then get_inactive_uid t.live.hash_list else [] in
          ((step services nothing t cleanup_tick).api ≡ deletions services nothing uids t.api)
          × (lists u.uid uids ≡ false)

      swept :
          (t : System services) (running' : Bool)
          → t.live.cleanup_running ≡ running'
          → inactive u.uid t.live.hash_list ≡ false
          → Spared t running'
      swept t true e h = ((cleanup_once services nothing t [] e).0, h)
      swept t false e h =
          (ap (λ (x : System services). x.api) (cleanup_idle services nothing t e), refl)
