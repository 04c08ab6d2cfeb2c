-- ===== src/Handlers/HandedOn.antt =====
-- The calls of the watcher without a cache, made on the handlers of v2/internal/handlers/dynamicclienthandler:
-- what these hand to the cache of ror/pkg.
pub mod Given
use ror_agent.Prelude.{
  String, ◌≡◌, refl, true, false, Bool, Option, none, some, Outcome, ok, err, panic, List, [], ◌∷◌,
  ◌++◌, ◌⊎◌, inl, inr, if◌then◌else◌, ◌||◌, ◌&&◌, not, arith,
}
use ror_agent.WorkQueue.{Action, add, update, delete}
use ror_agent.Resource.Json.{Members}
use ror_agent.Watcher.{
  Call, listed, watched, added, updated, deleted, slept, stopped_watch, forced_gc,
}
use ror_agent.Handlers.{nil_object, unstructured}
use ror_agent.Handlers.Cached.{
  CacheServices, is_delete, offer, with_meta, send_resource, guarded, add_resource, update_resource,
  delete_resource,
}

-- The change of an object that a call is.
abbrev pub change_of : Call (Option Members) → Option (Action × Option Members)
change_of (added u) = some (add, u)
change_of (updated u) = some (update, u)
change_of (deleted u) = some (delete, u)
change_of _ = none

module _ {E R C : Type 0} (services : CacheServices E R C) where
  -- The watcher hands on pointers that are not nil; it gives nil for the old object.
  unfoldable pub hand_on : Call (Option Members) → C → Outcome (Unit {0}) × C
  unfolding add_resource update_resource delete_resource
  hand_on (added u) c = add_resource services (unstructured (some u)) c
  hand_on (updated u) c = update_resource services nil_object (unstructured (some u)) c
  hand_on (deleted u) c = delete_resource services (unstructured (some u)) c
  hand_on (listed cont) c = (ok tt, c)
  hand_on (watched rv) c = (ok tt, c)
  hand_on (slept n) c = (ok tt, c)
  hand_on stopped_watch c = (ok tt, c)
  hand_on forced_gc c = (ok tt, c)

  abbrev handed : Outcome (Unit {0}) × C → (C → Outcome (Unit {0}) × C) → Outcome (Unit {0}) × C
  handed (ok u, c) rest = rest c
  handed (err e, c) rest = (err e, c)
  handed (panic m, c) rest = (panic m, c)

  unfoldable pub hand_on_all : List (Call (Option Members)) → C → Outcome (Unit {0}) × C
  hand_on_all [] c = (ok tt, c)
  hand_on_all (x ∷ xs) c = handed (hand_on x c) (hand_on_all xs)

  -- What the cache keeps: a resource that it was given counts as given from then on.
  pub record HandLaws (IsGiven : R → C → Type 0) : Type 0 where
    pub given : (r : R) (c : C) → IsGiven r (services.add_resource r c)
    pub keeps_add : (r q : R) (c : C) → IsGiven r c → IsGiven r (services.add_resource q c)
    pub keeps_mark :
        (r : R) (uid : String) (c : C) → IsGiven r c → IsGiven r (services.mark_active uid c)
    pub keeps_check :
        (r : R) (uid hash : String) (c : C)
        → IsGiven r c
        → IsGiven r (services.check_update_needed uid hash c).1

  -- The resource of an object, by SetRorMeta for the owner of the cache and GenRorHash.
  abbrev pub meta_of : Action → Option Members → C → Option E × R
  meta_of action u c =
      services.set_ror_meta "v2" (services.get_ownerref c) action (services.new_resource u)

  -- The hash list, behind a mark if a cleanup runs, knows the hash of the resource.
  abbrev pub IsKnown : R → C → Type 0
  IsKnown r c =
      (services.check_update_needed (services.get_uid r) (services.get_ror_hash r)
        (if services.cleanup_running c then services.mark_active (services.get_uid r) c else c)).0
      ≡ false

  -- The calls have run, and the cache has the resource that a change in the state `c` makes, or it is no
  -- deletion and its hash was known.
  abbrev pub HandedOn :
      (R → C → Type 0) → Action → Option Members → C → Outcome (Unit {0}) × C → Type 0
  HandedOn IsGiven action u c result =
      let r = services.gen_ror_hash (meta_of action u c).1 in
      (result.0 ≡ ok tt) × (IsGiven r result.1 ⊎ ((is_delete action ≡ false) × IsKnown r c))

  hand_on-ok : (x : Call (Option Members)) (c : C) → (hand_on x c).0 ≡ ok tt
  unfolding hand_on add_resource update_resource delete_resource guarded
  hand_on-ok (added u) c = refl
  hand_on-ok (updated u) c = refl
  hand_on-ok (deleted u) c = refl
  hand_on-ok (listed cont) c = refl
  hand_on-ok (watched rv) c = refl
  hand_on-ok (slept n) c = refl
  hand_on-ok stopped_watch c = refl
  hand_on-ok forced_gc c = refl

  handed-ok :
      (p : Outcome (Unit {0}) × C) (rest : C → Outcome (Unit {0}) × C)
      → p.0 ≡ ok tt
      → handed p rest ≡ rest p.1
  handed-ok (ok u, c) rest h = refl
  handed-ok (err e, c) rest h = cc
  handed-ok (panic m, c) rest h = cc

  pub hand_on-handed :
      (x : Call (Option Members)) (c : C) (rest : C → Outcome (Unit {0}) × C)
      → handed (hand_on x c) rest ≡ rest (hand_on x c).1
  hand_on-handed x c rest = handed-ok (hand_on x c) rest (hand_on-ok x c)

  pub hand_on_all-ok : (xs : List (Call (Option Members))) (c : C) → (hand_on_all xs c).0 ≡ ok tt
  unfolding hand_on_all
  hand_on_all-ok [] c = refl
  hand_on_all-ok (x ∷ xs) c =
      rw (hand_on-handed x c (hand_on_all xs)) (hand_on_all-ok xs (hand_on x c).1)

  pub hand_on_all-append :
      (xs ys : List (Call (Option Members))) (c : C)
      → hand_on_all (xs ++ ys) c ≡ hand_on_all ys (hand_on_all xs c).1
  unfolding hand_on_all
  hand_on_all-append [] ys c = refl
  hand_on_all-append (x ∷ xs) ys c =
      rw (hand_on-handed x c (hand_on_all (xs ++ ys)), hand_on-handed x c (hand_on_all xs))
        (hand_on_all-append xs ys (hand_on x c).1)
