-- ===== src/ResourceCache/Mirror/Holds.antt =====
-- That each step of internal/services/resourceupdate keeps what the ROR API holds of a uid in line with
-- what the history tells of it.
use ror_agent.Prelude.{
  ℕ, String, ◌==◌, eq_iff, ◌≡◌, refl, sym, ◌∙◌, subst, ◌⊎◌, inl, inr, Bool, true, false, Option,
  none, some, List, ◌∷◌, arith, if◌then◌else◌,
}
use ror_agent.WorkQueue.{Action, add, update, delete, other, Update}
use ror_agent.WorkQueue.Pending.{pending}
use ror_agent.ResourceCache.{
  Services, Cache, System, Event, resource, queue_tick, cleanup_tick, step, send_update, by_action,
  finnish_cleanup, run_workque_scheduler,
}
use ror_agent.ResourceCache.Schedule.{pending-step}
use ror_agent.ResourceCache.Active.{inactive}
use ror_agent.ResourceCache.Mirror.{MirrorLaws, told, Follows, Orderly, Idle, Gone, IsSight}
use ror_agent.ResourceCache.Mirror.Sends.{
  Sound, Seen, Kept, send_if_needed-Seen, send_if_needed-Kept, send_or_queue-Kept, delete_all-Kept,
  deleted_Gone,
}

module _ {P W H : Type 0} (services : Services P W H) (nothing : P)
    (stored : String → W → Option String) (known : String → H → Option String)
    (laws : MirrorLaws services stored known) (j : String) where
  abbrev pub IsSound : System services → Type 0
  IsSound s = Sound services stored known laws j (s.live, s.api)

  -- The uid waits in the queue; or the API holds what the history told, and the hash list is right
  -- or will not be asked.
  abbrev pub Holds : System services → Option String → List (Event services) → Type 0
  Holds s m es =
      (pending j s.live.workqueue ≡ true)
      ⊎ ((stored j s.api ≡ m) × ((IsSound s × Orderly services j es) ⊎ Gone services j es))

  resource-Kept :
      (s : System services) (now : ℕ) (u : Update P)
      → (u.uid == j) ≡ false
      → let t = step services nothing s (resource now u) in
        Kept services stored known laws j (s.live, s.api) (t.live, t.api)
  unfolding step send_update
  resource-Kept s now u n = by_kind u.action
    where
      by_kind :
          (a : Action)
          → Kept services stored known laws j
              (s.live, s.api)
              (by_action services a now u s.live s.api)
      by_kind add = send_if_needed-Kept services stored known laws j now u s.live s.api n
      by_kind update = send_if_needed-Kept services stored known laws j now u s.live s.api n
      by_kind delete = send_or_queue-Kept services stored known laws j false now u s.live s.api n
      by_kind (other a) = send_if_needed-Kept services stored known laws j now u s.live s.api n

  pub cleanup-Kept :
      (s : System services)
      → inactive services nothing j s.live.hash_list ≡ false
      → let t = step services nothing s cleanup_tick in
        Kept services stored known laws j (s.live, s.api) (t.live, t.api)
  unfolding step finnish_cleanup
  cleanup-Kept s h = ground (
    arith,
    delete_all-Kept services stored known laws j nothing
        (services.get_inactive_uid s.live.hash_list) s.api h,
  )

  pub queue_tick_same :
      (s : System services) (now : ℕ)
      → Idle services s
      → step services nothing s (queue_tick now) ≡ s
  unfolding step run_workque_scheduler
  queue_tick_same s now h = rw h

  pub Kept-Holds :
      (s t : System services) (m : Option String) (es : List (Event services))
      → Kept services stored known laws j (s.live, s.api) (t.live, t.api)
      → Holds s m es
      → Holds t m es
  Kept-Holds s t m es k (inl p) = inl (k.2 ∙ p)
  Kept-Holds s t m es k (inr (e, inl (sound, o))) =
      inr (k.0 ∙ e, inl ((λ x q. k.0 ∙ sound x (sym k.1 ∙ q)), o))
  Kept-Holds s t m es k (inr (e, inr g)) = inr (k.0 ∙ e, inr g)

  -- A sight of the uid.
  sight-Holds :
      (s : System services) (now : ℕ) (u : Update P) (es : List (Event services))
      → u.uid ≡ j
      → IsSight u.action
      → IsSound s
      → Orderly services j es
      → Holds (step services nothing s (resource now u)) (some u.hash) es
  unfolding step send_update
  sight-Holds s now u es p h sound o = at_uid (by_kind u.action h)
    where
      after : Cache P H × W
      after = by_action services u.action now u s.live s.api

      before_sound : Sound services stored known laws u.uid (s.live, s.api)
      before_sound = subst (λ k. Sound services stored known laws k (s.live, s.api)) (sym p) sound

      by_kind :
          (a : Action)
          → IsSight a
          → Seen services stored known laws u (by_action services a now u s.live s.api)
      by_kind add k =
          send_if_needed-Seen services stored known laws now u s.live s.api h before_sound
      by_kind update k =
          send_if_needed-Seen services stored known laws now u s.live s.api h before_sound
      by_kind delete k = elim k [ ]
      by_kind (other a) k = elim k [ ]

      at_uid :
          Seen services stored known laws u after
          → Holds (record s { live = after.0; api = after.1 }) (some u.hash) es
      at_uid (inl q) = inl (subst (λ k. pending k after.0.workqueue ≡ true) p q)
      at_uid (inr (held, sound')) = inr (
        subst (λ k. stored k after.1 ≡ some u.hash) p held,
        inl (subst (λ k. Sound services stored known laws k after) p sound', o),
      )

  deleted-Holds :
      (s : System services) (now : ℕ) (u : Update P) (es : List (Event services))
      → u.uid ≡ j
      → u.action ≡ delete
      → Gone services j es
      → Holds (step services nothing s (resource now u)) none es
  unfolding step send_update
  deleted-Holds s now u es p e g =
      at_uid (subst Sent (sym e) (deleted_Gone services stored known laws now u s.live s.api e))
    where
      after : Cache P H × W
      after = by_action services u.action now u s.live s.api

      Sent : Action → Type 0
      Sent a =
          let r = by_action services a now u s.live s.api in
          (pending u.uid r.0.workqueue ≡ true) ⊎ (stored u.uid r.1 ≡ none)

      at_uid :
          (pending u.uid after.0.workqueue ≡ true) ⊎ (stored u.uid after.1 ≡ none)
          → Holds (record s { live = after.0; api = after.1 }) none es
      at_uid (inl q) = inl (subst (λ k. pending k after.0.workqueue ≡ true) p q)
      at_uid (inr q) = inr (subst (λ k. stored k after.1 ≡ none) p q, inr g)

  -- An event of a resource: what it tells, and whether it is of the uid.
  pub resource-Holds :
      (s : System services) (m : Option String) (now : ℕ) (u : Update P)
      (es : List (Event services))
      → Holds s m (resource now u ∷ es)
      → Holds
          (step services nothing s (resource now u))
          (if u.uid == j then told u.action u.hash else m)
          es
  unfolding Orderly Gone
  resource-Holds s m now u es (inl q) = inl (pending-step services nothing j s (resource now u) q)
  resource-Holds s m now u es (inr (held, o)) = by_uid (u.uid == j) refl u.action refl o
    where
      t : System services
      t = step services nothing s (resource now u)

      of_uid :
          (a : Action)
          → u.action ≡ a
          → u.uid ≡ j
          → (IsSound s × Follows true a (Gone services j es) (Orderly services j es))
            ⊎ (((true ≡ true) → a ≡ delete) × Gone services j es)
          → Holds t (told a u.hash) es
      of_uid add e p (inl (sound, k)) = sight-Holds s now u es p (rw e tt) sound k
      of_uid update e p (inl (sound, k)) = sight-Holds s now u es p (rw e tt) sound k
      of_uid delete e p (inl (sound, k)) = deleted-Holds s now u es p e k
      of_uid (other a) e p (inl (sound, k)) = elim k [ ]
      of_uid a e p (inr (d, g)) = rw (d refl) (deleted-Holds s now u es p (e ∙ d refl) g)

      by_uid :
          (b : Bool)
          → (u.uid == j) ≡ b
          → (a : Action) → u.action ≡ a
          → (IsSound s × Follows b a (Gone services j es) (Orderly services j es))
            ⊎ ((b ≡ true → a ≡ delete) × Gone services j es)
          → Holds t (if b then told a u.hash else m) es
      by_uid true q a e k = of_uid a e ((eq_iff u.uid j).0 q) k
      by_uid false q a e (inl (sound, k)) =
          Kept-Holds s t m es (resource-Kept s now u q) (inr (held, inl (sound, k)))
      by_uid false q a e (inr (d, g)) =
          Kept-Holds s t m es (resource-Kept s now u q) (inr (held, inr g))
