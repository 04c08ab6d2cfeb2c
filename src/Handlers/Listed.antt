-- ===== src/Handlers/Listed.antt =====
-- The first list of the watcher, the handlers and the cache together: what the ROR API holds of an
-- object that was listed.
use ror_agent.Prelude.{
  ℕ, suc, String, ◌==◌, eq_refl, ◌≡◌, refl, ap, sym, ◌∙◌, ◌⊎◌, inl, inr, Bool, true, false, Option,
  none, some, Error, ok, List, [], ◌∷◌, ◌++◌, All, if◌then◌else◌,
}
use ror_agent.WorkQueue.{add, Update}
use ror_agent.WorkQueue.Pending.{pending}
use ror_agent.Resource.{Libraries, RorResource, new_from_unstructured, new_resource_update_model}
use ror_agent.Resource.Json.{Members}
use ror_agent.ResourceCache.{Services, Event, resource, must_init, create_ownerref}
use ror_agent.ResourceCache.Mirror.{MirrorLaws, mirror, Orderly, Follows, Gone}
use ror_agent.Watcher.{
  Call, listed, watched, added, updated, deleted, slept, stopped_watch, forced_gc,
}
use ror_agent.Handlers.Delivery.{deliver_all, seen, event_of, events_of}
use ror_agent.Handlers.Mirrored.{deliver_all-Mirrored}

module _ {P W H : Type 0} (libs : Libraries P) (services : Services (Option P) W H)
    (j x : String) where
  abbrev read : Option Members → RorResource P
  read u = (new_from_unstructured libs (some u)).0

  -- A call of a first list, in which an object with the uid has the hash.
  abbrev pub Agrees : Call (Option Members) → Type 0
  Agrees (listed cont) = Unit {0}
  Agrees (added u) =
      (new_from_unstructured libs (some u)).1 ≡ none
      → ((read u).uid == j) ≡ true
      → (read u).hash ≡ x
  Agrees (updated u) = ⊥
  Agrees (deleted u) = ⊥
  Agrees (watched rv) = ⊥
  Agrees (slept n) = ⊥
  Agrees stopped_watch = ⊥
  Agrees forced_gc = Unit {0}

  -- The history tells of the uid nothing but the hash.
  abbrev Told : List (Event services) → Type 0
  Told es = Orderly services j es × (mirror services j es (some x) ≡ some x)

  abbrev model_of : Option Members → Update (Option P)
  model_of u = new_resource_update_model (read u) (create_ownerref services) add

  resource-Told :
      (now : ℕ) (u : Option Members) (es : List (Event services))
      → (((read u).uid == j) ≡ true → (read u).hash ≡ x)
      → Told es
      → Told (resource now (model_of u) ∷ es)
  unfolding mirror Orderly new_resource_update_model
  resource-Told now u es agrees (o, m) = by_uid ((read u).uid == j) refl
    where
      by_uid :
          (b : Bool)
          → ((read u).uid == j) ≡ b
          → Follows b add (Gone services j es) (Orderly services j es)
            × (mirror services j es (if b then some (read u).hash else some x) ≡ some x)
      by_uid true q = (o, ap (λ t. mirror services j es (some t)) (agrees q) ∙ m)
      by_uid false q = (o, m)

  -- What holds of the event of an object that can be read, and without it if it cannot.
  by_read :
      (Q : List (Event services) → Type 0) (now : ℕ) (u : Option Members)
      (es : List (Event services))
      → ((new_from_unstructured libs (some u)).1 ≡ none → Q (resource now (model_of u) ∷ es))
      → ((e : Error) → (new_from_unstructured libs (some u)).1 ≡ some e → Q es)
      → Q (seen libs services now add u ++ es)
  by_read Q now u es readable unreadable = go (new_from_unstructured libs (some u)).1 refl
    where
      go :
          (e : Option Error)
          → (new_from_unstructured libs (some u)).1 ≡ e
          → Q (elim e [ some e' ↦ [] | none ↦ resource now (model_of u) ∷ [] ] ++ es)
      go (some e) q = unreadable e q
      go none q = readable q

  seen-Told :
      (now : ℕ) (u : Option Members) (es : List (Event services))
      → Agrees (added u)
      → Told es
      → Told (seen libs services now add u ++ es)
  seen-Told now u es agrees h =
      by_read Told now u es (λ q. resource-Told now u es (agrees q) h) (λ e q. h)

  event_of-Told :
      (now : ℕ) (c : Call (Option Members)) (es : List (Event services))
      → Agrees c
      → Told es
      → Told (event_of libs services now c ++ es)
  unfolding event_of
  event_of-Told now (added u) es agrees h = seen-Told now u es agrees h
  event_of-Told now (listed cont) es agrees h = h
  event_of-Told now (updated u) es agrees h = elim agrees [ ]
  event_of-Told now (deleted u) es agrees h = elim agrees [ ]
  event_of-Told now (watched rv) es agrees h = elim agrees [ ]
  event_of-Told now (slept n) es agrees h = elim agrees [ ]
  event_of-Told now stopped_watch es agrees h = elim agrees [ ]
  event_of-Told now forced_gc es agrees h = h

  events_of-Told :
      (clock : ℕ → ℕ) (cs : List (Call (Option Members)))
      → All Agrees cs
      → Told (events_of libs services clock cs)
  unfolding events_of mirror Orderly
  events_of-Told clock [] h = (tt, refl)
  events_of-Told clock (c ∷ cs) (agrees, h) =
      event_of-Told (clock 0) c (events_of libs services (λ i. clock (suc i)) cs) agrees
        (events_of-Told (λ i. clock (suc i)) cs h)

  -- The history tells the hash, whatever the API holds before it.
  abbrev TellsAnew : List (Event services) → Type 0
  TellsAnew es = (m : Option String) → mirror services j es m ≡ some x

  own-TellsAnew :
      (now : ℕ) (u : Option Members) (es : List (Event services))
      → (new_from_unstructured libs (some u)).1 ≡ none
      → ((read u).uid == j) ≡ true
      → (read u).hash ≡ x
      → mirror services j es (some x) ≡ some x
      → TellsAnew (seen libs services now add u ++ es)
  unfolding mirror new_resource_update_model
  own-TellsAnew now u es readable own same h =
      by_read TellsAnew now u es (λ q m. rw (own, same) h)
        (λ e q. elim (no_error e (sym readable ∙ q)) [ ])
    where
      no_error : (e : Error) → ◌≡◌ {A = Option Error} none (some e) → ⊥
      no_error e q = cc

  event_of-TellsAnew :
      (now : ℕ) (c : Call (Option Members)) (es : List (Event services))
      → Agrees c
      → TellsAnew es
      → TellsAnew (event_of libs services now c ++ es)
  unfolding event_of mirror
  event_of-TellsAnew now (added u) es agrees h = by_read TellsAnew now u es (λ q m. h _) (λ e q. h)
  event_of-TellsAnew now (listed cont) es agrees h = h
  event_of-TellsAnew now (updated u) es agrees h = elim agrees [ ]
  event_of-TellsAnew now (deleted u) es agrees h = elim agrees [ ]
  event_of-TellsAnew now (watched rv) es agrees h = elim agrees [ ]
  event_of-TellsAnew now (slept n) es agrees h = elim agrees [ ]
  event_of-TellsAnew now stopped_watch es agrees h = elim agrees [ ]
  event_of-TellsAnew now forced_gc es agrees h = h

  events_of-TellsAnew :
      (clock : ℕ → ℕ) (before after : List (Call (Option Members))) (u : Option Members)
      → (new_from_unstructured libs (some u)).1 ≡ none
      → ((read u).uid == j) ≡ true
      → (read u).hash ≡ x
      → All Agrees (before ++ added u ∷ after)
      → TellsAnew (events_of libs services clock (before ++ added u ∷ after))
  unfolding events_of event_of
  events_of-TellsAnew clock [] after u readable own same (agrees, h) =
      own-TellsAnew (clock 0) u (events_of libs services (λ i. clock (suc i)) after) readable own
        same (events_of-Told (λ i. clock (suc i)) after h).1
  events_of-TellsAnew clock (c ∷ before) after u readable own same (agrees, h) =
      event_of-TellsAnew (clock 0) c
        (events_of libs services (λ i. clock (suc i)) (before ++ added u ∷ after)) agrees
        (events_of-TellsAnew (λ i. clock (suc i)) before after u readable own same h)

module _ {P W H : Type 0} (libs : Libraries P) (services : Services (Option P) W H)
    (stored : String → W → Option String) (known : String → H → Option String) where
  -- If a call of the API without an error is done and no call changes another uid, the hash list
  -- knows of a uid the hash that was last stored for it, whatever else is done with the list, and
  -- asks for an update unless it knows the same hash, and the hash list given to MustInit has no
  -- other hash of the uid of an object than the API holds; then delivering calls that only list,
  -- add and ask for the garbage collection, one of which adds the object, which can be read, and
  -- in which every readable object of its uid has its hash, succeeds, and after it the uid waits
  -- in the queue, or the API holds the hash of the object.
  pub listed-Mirrored :
      (clock : ℕ → ℕ) (before after : List (Call (Option Members))) (u : Option Members) (h : H)
      (w : W)
      → MirrorLaws services stored known
      → let r = (new_from_unstructured libs (some u)).0 in
        ((x : String) → known r.uid h ≡ some x → stored r.uid w ≡ some x)
        → (new_from_unstructured libs (some u)).1 ≡ none
        → All (Agrees libs services r.uid r.hash) (before ++ added u ∷ after)
        → let s = must_init services h w in
          let (result, (c, w')) =
            deliver_all libs services clock (before ++ added u ∷ after) (s.live, s.api) in
          (result ≡ ok tt) × ((pending r.uid c.workqueue ≡ true) ⊎ (stored r.uid w' ≡ some r.hash))
  listed-Mirrored clock before after u h w laws sound readable agrees =
      let r = (new_from_unstructured libs (some u)).0 in
      let cs = before ++ added u ∷ after in
      let (done, held) =
        deliver_all-Mirrored libs services r.uid stored known clock cs h w laws sound
          (events_of-Told libs services r.uid r.hash clock cs agrees).0 in
      let told =
        events_of-TellsAnew libs services r.uid r.hash clock before after u readable (eq_refl r.uid)
          refl agrees (stored r.uid w) in
      (done, elim held [ inl p ↦ inl p | inr e ↦ inr (e ∙ told) ])
