-- ===== src/ResourceCache/Mirror/Run.antt =====
-- What the ROR API holds of a uid after any history, against what the history tells of it.
use ror_agent.Prelude.{ℕ, String, ◌≡◌, refl, sym, subst, inl, inr, false, Option, List, [], ◌∷◌}
use ror_agent.ResourceCache.{Services, System, Event, resource, queue_tick, cleanup_tick, step, run}
use ror_agent.ResourceCache.Schedule.{job-step}
use ror_agent.ResourceCache.Active.{inactive, ActiveLaws, active-step}
use ror_agent.ResourceCache.Mirror.{MirrorLaws, mirror, Orderly, Gone, Idle, Spared, Mirrored}
use ror_agent.ResourceCache.Mirror.Holds.{
  IsSound, Holds, resource-Holds, queue_tick_same, Kept-Holds, cleanup-Kept,
}

module _ {P W H : Type 0} (services : Services P W H) (nothing : P)
    (stored : String → W → Option String) (known : String → H → Option String)
    (laws : MirrorLaws services stored known) (j : String) where
  Idle-step :
      (s : System services) (e : Event services)
      → Idle services s
      → Idle services (step services nothing s e)
  Idle-step s e h = rw (job-step services nothing s e) h

  queue_tick-Holds :
      (s : System services) (m : Option String) (now : ℕ) (es : List (Event services))
      → Holds services nothing stored known laws j s m (queue_tick now ∷ es)
      → Holds services nothing stored known laws j s m es
  unfolding Orderly Gone
  queue_tick-Holds s m now es (inl p) = inl p
  queue_tick-Holds s m now es (inr (e, inl k)) = inr (e, inl k)
  queue_tick-Holds s m now es (inr (e, inr g)) = inr (e, inr g.1)

  cleanup_tick-Holds :
      (s : System services) (m : Option String) (es : List (Event services))
      → Holds services nothing stored known laws j s m (cleanup_tick ∷ es)
      → Holds services nothing stored known laws j s m es
  unfolding Orderly Gone
  cleanup_tick-Holds s m es (inl p) = inl p
  cleanup_tick-Holds s m es (inr (e, inl k)) = inr (e, inl k)
  cleanup_tick-Holds s m es (inr (e, inr g)) = inr (e, inr g.1)

  pub Holds-run :
      (s : System services) (m : Option String) (es : List (Event services))
      → Idle services s
      → Spared services nothing j s es
      → Holds services nothing stored known laws j s m es
      → Mirrored services stored j (run services nothing s es) (mirror services j es m)
  unfolding run mirror
  Holds-run s m [] h sp (inl p) = inl p
  Holds-run s m [] h sp (inr k) = inr k.0
  Holds-run s m (resource now u ∷ es) h sp k =
      Holds-run (step services nothing s (resource now u)) _ es (Idle-step s (resource now u) h)
        sp.1 (resource-Holds services nothing stored known laws j s m now u es k)
  Holds-run s m (queue_tick now ∷ es) h sp k =
      Holds-run (step services nothing s (queue_tick now)) m es (Idle-step s (queue_tick now) h)
        sp.1
        (subst (λ t. Holds services nothing stored known laws j t m es)
          (sym (queue_tick_same services nothing stored known laws j s now h))
          (queue_tick-Holds s m now es k))
  Holds-run s m (cleanup_tick ∷ es) h sp k =
      Holds-run (step services nothing s cleanup_tick) m es (Idle-step s cleanup_tick h) sp.1 (
        Kept-Holds services nothing stored known laws j s (step services nothing s cleanup_tick) m
          es (cleanup-Kept services nothing stored known laws j s sp.0)
          (cleanup_tick-Holds s m es k))

  pub Active-Spared :
      (es : List (Event services)) (s : System services)
      → ActiveLaws services nothing
      → inactive services nothing j s.live.hash_list ≡ false
      → Spared services nothing j s es
  Active-Spared [] s marks h = tt
  Active-Spared (resource now u ∷ es) s marks h =
      (tt, Active-Spared es _ marks (active-step services nothing marks j s (resource now u) h))
  Active-Spared (queue_tick now ∷ es) s marks h =
      (tt, Active-Spared es _ marks (active-step services nothing marks j s (queue_tick now) h))
  Active-Spared (cleanup_tick ∷ es) s marks h =
      (h, Active-Spared es _ marks (active-step services nothing marks j s cleanup_tick h))

  pub run-Mirrored :
      (s : System services) (es : List (Event services))
      → IsSound services nothing stored known laws j s
      → Idle services s
      → Spared services nothing j s es
      → Orderly services j es
      → Mirrored services stored j
          (run services nothing s es)
          (mirror services j es (stored j s.api))
  run-Mirrored s es sound h spared o =
      Holds-run s (stored j s.api) es h spared (inr (refl, inl (sound, o)))
