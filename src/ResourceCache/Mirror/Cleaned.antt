-- ===== src/ResourceCache/Mirror/Cleaned.antt =====
-- A uid that the cleanup of internal/services/resourceupdate deletes before the agent sees its resource.
use ror_agent.Prelude.{
  ℕ, String, eq_iff, ◌≡◌, ◌≢◌, refl, sym, ◌∙◌, ap, subst, ◌⊎◌, inl, inr, true, false, Option, none,
  some, List, [], ◌∷◌, arith, Bool-cases,
}
use ror_agent.WorkQueue.{Action, add, update, delete, other, Update}
use ror_agent.ResourceCache.{
  Services, Cache, System, resource, cleanup_tick, step, run, send_update, send_if_needed,
  by_action, finnish_cleanup, delete_all, send_resource_update_to_ror,
}
use ror_agent.ResourceCache.Active.{lists, inactive}
use ror_agent.ResourceCache.Mirror.{MirrorLaws}
use ror_agent.ResourceCache.Mirror.Sends.{delete_all-Kept}

module _ {P W H : Type 0} (services : Services P W H) (nothing : P)
    (stored : String → W → Option String) (known : String → H → Option String)
    (laws : MirrorLaws services stored known) where
  delete_all-listed :
      (j : String) (uids : List String) (w : W)
      → ((w' : W) → (services.api_delete j w').0 ≡ none)
      → lists j uids ≡ true
      → stored j (delete_all services nothing uids w) ≡ none
  unfolding delete_all send_resource_update_to_ror
  delete_all-listed j [] w done h = cc
  delete_all-listed j (uid ∷ uids) w done h =
      rest (Bool-cases (lists j uids)) (delete_all-listed j uids (services.api_delete uid w).1 done)
    where
      w' : W
      w' = (services.api_delete uid w).1

      rest :
          (lists j uids ≡ true) ⊎ (lists j uids ≡ false)
          → (lists j uids ≡ true → stored j (delete_all services nothing uids w') ≡ none)
          → stored j (delete_all services nothing uids w') ≡ none
      rest (inl e) later = later e
      rest (inr e) later =
          delete_all-Kept services stored known laws j nothing uids w' e
          ∙ subst (λ k. stored k (services.api_delete uid w).1 ≡ none) same
              (laws.deletes uid w
                (subst (λ k. (services.api_delete k w).0 ≡ none) (sym same) (done w)))
        where
          same : uid ≡ j
          same = (eq_iff uid j).0 (ground (arith, h, e))

  -- Nothing is sent of an update whose hash the hash list knows.
  abbrev pub KnowsAll : Type 0
  KnowsAll =
      (uid hash : String) (h : H)
      → known uid h ≡ some hash
      → (services.check_update_needed uid hash h).0 ≡ false

  known-unsent :
      (now : ℕ) (u : Update P) (c : Cache P H) (w : W)
      → KnowsAll
      → c.cleanup_running ≡ false
      → known u.uid c.hash_list ≡ some u.hash
      → ((send_if_needed services now u c w).1 ≡ w)
        × ((send_if_needed services now u c w).0.workqueue ≡ c.workqueue)
  unfolding send_if_needed
  known-unsent now u c w knows idle k = rw (idle, knows u.uid u.hash c.hash_list k) (refl, refl)

  -- If a call of the API without an error is done and no call changes another uid, the hash list
  -- knows of a uid the hash that was last stored for it, whatever else is done with the list, and
  -- asks for an update exactly if it does not know the same hash, the deletion of a uid never
  -- fails, the cleanup is running, the hash list calls the uid inactive and knows the hash of an
  -- update of it that is no deletion, then after a cleanup and then that update the API holds
  -- nothing of the uid, and the queue is as before both.
  pub cleaned_unsent :
      (s : System services) (now : ℕ) (u : Update P)
      → KnowsAll
      → ((w : W) → (services.api_delete u.uid w).0 ≡ none)
      → s.live.cleanup_running ≡ true
      → inactive services nothing u.uid s.live.hash_list ≡ true
      → known u.uid s.live.hash_list ≡ some u.hash
      → u.action ≢ delete
      → let t = run services nothing s (cleanup_tick ∷ resource now u ∷ []) in
        (stored u.uid t.api ≡ none) × (t.live.workqueue ≡ s.live.workqueue)
  unfolding run step send_update finnish_cleanup
  cleaned_unsent s now u knows done running listed k nd = rw running (by_kind u.action nd)
    where
      c : Cache P H
      c = record s.live { cleanup_running = false }

      w : W
      w = delete_all services nothing (services.get_inactive_uid s.live.hash_list) s.api

      Unsent : Cache P H × W → Type 0
      Unsent (c', w') = (stored u.uid w' ≡ none) × (c'.workqueue ≡ c.workqueue)

      unsent : Unsent (send_if_needed services now u c w)
      unsent =
          let (api, queue) = known-unsent now u c w knows refl k in
          (ap (stored u.uid) api ∙ delete_all-listed u.uid _ s.api done listed, queue)

      by_kind : (a : Action) → a ≢ delete → Unsent (by_action services a now u c w)
      by_kind add n = unsent
      by_kind update n = unsent
      by_kind delete n = elim (n refl) [ ]
      by_kind (other a) n = unsent
