-- ===== src/Handlers/HandedOn/Given.antt =====
-- What the handlers of version 2 do with a change: the cache is given the resource, or knows its hash.
use ror_agent.Prelude.{
  ◌≡◌, refl, true, false, Bool, Option, none, some, List, [], ◌∷◌, ◌++◌, ◌⊎◌, inl, inr,
  if◌then◌else◌, ◌||◌, ◌&&◌, not,
}
use ror_agent.WorkQueue.{Action, add, update, delete}
use ror_agent.Resource.Json.{Members}
use ror_agent.Watcher.{
  Call, listed, watched, added, updated, deleted, slept, stopped_watch, forced_gc,
}
use ror_agent.Handlers.Cached.{
  CacheServices, is_delete, offer, with_meta, send_resource, guarded, add_resource, update_resource,
  delete_resource,
}
use ror_agent.Handlers.HandedOn.{
  hand_on, hand_on_all, change_of, HandLaws, meta_of, IsKnown, HandedOn, hand_on-handed,
  hand_on_all-ok, hand_on_all-append,
}

module _ {E R C : Type 0} (services : CacheServices E R C) (IsGiven : R → C → Type 0)
    (laws : HandLaws services IsGiven) where
  if-holds : (P : C → Type 0) (b : Bool) {x y : C} → P x → P y → P (if b then x else y)
  if-holds P true h k = h
  if-holds P false h k = k

  if-holds_or :
      (P : C → Type 0) (b d : Bool) (x y : C)
      → P x
      → P (if b || d then x else y) ⊎ ((d ≡ false) × (b ≡ false))
  if-holds_or P true d x y h = inl h
  if-holds_or P false true x y h = inl h
  if-holds_or P false false x y h = inr (refl, refl)

  offer-given :
      (action : Action) (r q : R) (c : C) → IsGiven q c → IsGiven q (offer services action r c)
  unfolding offer
  offer-given action r q c h =
      let marked =
        if-holds (IsGiven q) (not (is_delete action) && services.cleanup_running c)
          (laws.keeps_mark q (services.get_uid r) c h) h in
      let asked = laws.keeps_check q (services.get_uid r) (services.get_ror_hash r) _ marked in
      if-holds (IsGiven q) _ (laws.keeps_add q r _ asked) asked

  offer-Given :
      (action : Action) (r : R) (c : C)
      → IsGiven r (offer services action r c) ⊎ ((is_delete action ≡ false) × IsKnown services r c)
  unfolding offer
  offer-Given action r c =
      elim (if-holds_or (IsGiven r) _ (is_delete action) (services.add_resource r _) _
        (laws.given r _)) [ inl h ↦ inl h | inr (d, k) ↦ inr (d, rw d at k) ]

  send-given :
      (action : Action) (u : Option Members) (q : R) (c : C)
      → IsGiven q c
      → IsGiven q (send_resource services action u c)
  unfolding send_resource
  send-given action u q c h = sent (meta_of services action u c)
    where
      sent : (m : Option E × R) → IsGiven q (with_meta services action m c)
      sent (some e, r) = h
      sent (none, r) = offer-given action (services.gen_ror_hash r) q c h

  send-Given :
      (action : Action) (u : Option Members) (c : C)
      → (meta_of services action u c).0 ≡ none
      → let r = services.gen_ror_hash (meta_of services action u c).1 in
        IsGiven r (send_resource services action u c)
        ⊎ ((is_delete action ≡ false) × IsKnown services r c)
  unfolding send_resource
  send-Given action u c e = sent (meta_of services action u c) e
    where
      sent :
          (m : Option E × R)
          → m.0 ≡ none
          → let r = services.gen_ror_hash m.1 in
            IsGiven r (with_meta services action m c)
            ⊎ ((is_delete action ≡ false) × IsKnown services r c)
      sent (some f, r) h = cc
      sent (none, r) h = offer-Given action (services.gen_ror_hash r) c

  hand_on-given :
      (x : Call (Option Members)) (q : R) (c : C) → IsGiven q c → IsGiven q (hand_on services x c).1
  unfolding hand_on add_resource update_resource delete_resource guarded
  hand_on-given (added u) q c h = send-given add u q c h
  hand_on-given (updated u) q c h = send-given update u q c h
  hand_on-given (deleted u) q c h = send-given delete u q c h
  hand_on-given (listed cont) q c h = h
  hand_on-given (watched rv) q c h = h
  hand_on-given (slept n) q c h = h
  hand_on-given stopped_watch q c h = h
  hand_on-given forced_gc q c h = h

  hand_on_all-given :
      (xs : List (Call (Option Members))) (q : R) (c : C)
      → IsGiven q c
      → IsGiven q (hand_on_all services xs c).1
  unfolding hand_on_all
  hand_on_all-given [] q c h = h
  hand_on_all-given (x ∷ xs) q c h =
      rw (hand_on-handed services x c (hand_on_all services xs))
        (hand_on_all-given xs q (hand_on services x c).1 (hand_on-given x q c h))

  send-Given_as :
      (a action : Action) (v u : Option Members) (c : C)
      → a ≡ action
      → v ≡ u
      → (meta_of services action u c).0 ≡ none
      → let r = services.gen_ror_hash (meta_of services action u c).1 in
        IsGiven r (send_resource services a v c)
        ⊎ ((is_delete action ≡ false) × IsKnown services r c)
  send-Given_as a action v u c e e' h = rw (e, e') (send-Given action u c h)

  hand_on-Given :
      (x : Call (Option Members)) (action : Action) (u : Option Members) (c : C)
      → change_of x ≡ some (action, u)
      → (meta_of services action u c).0 ≡ none
      → let r = services.gen_ror_hash (meta_of services action u c).1 in
        IsGiven r (hand_on services x c).1 ⊎ ((is_delete action ≡ false) × IsKnown services r c)
  unfolding hand_on add_resource update_resource delete_resource guarded
  hand_on-Given (added v) action u c e h = send-Given_as add action v u c (cc) (cc) h
  hand_on-Given (updated v) action u c e h = send-Given_as update action v u c (cc) (cc) h
  hand_on-Given (deleted v) action u c e h = send-Given_as delete action v u c (cc) (cc) h
  hand_on-Given (listed cont) action u c e h = cc
  hand_on-Given (watched rv) action u c e h = cc
  hand_on-Given (slept n) action u c e h = cc
  hand_on-Given stopped_watch action u c e h = cc
  hand_on-Given forced_gc action u c e h = cc

  -- Whatever the cache of version 2 is, if a resource that it was given counts as given and stays
  -- so under a mark, a question to the hash list and a further resource, SetRorMeta for the owner
  -- of the cache does not fail on the resource of an object, and a call of the watcher adds,
  -- updates or deletes that object, then making the calls before it, the call and any calls after
  -- it on the handlers does not panic, and in the end the cache was given the resource with its
  -- hash, or the call is no deletion and the hash list, behind a mark if the cleanup was running,
  -- said that no update was needed.
  pub hand_on_all-HandedOn :
      (xs ys : List (Call (Option Members))) (x : Call (Option Members)) (action : Action)
      (u : Option Members) (c : C)
      → change_of x ≡ some (action, u)
      → (meta_of services action u (hand_on_all services xs c).1).0 ≡ none
      → HandedOn services IsGiven action u
          (hand_on_all services xs c).1
          (hand_on_all services (xs ++ x ∷ ys) c)
  unfolding hand_on_all
  hand_on_all-HandedOn xs ys x action u c e h = (
    hand_on_all-ok services (xs ++ x ∷ ys) c,
    rw
        (
          hand_on_all-append services xs (x ∷ ys) c,
          hand_on-handed services x (hand_on_all services xs c).1 (hand_on_all services ys),
        )
        (elim (hand_on-Given x action u (hand_on_all services xs c).1 e h) [
          | inl g ↦ inl (hand_on_all-given ys _ _ g)
          | inr k ↦ inr k
        ]),
  )
