-- ===== src/ResourceCache/Mirror.antt =====
-- internal/services/resourceupdate as a whole: what a history of the agent tells of a uid, and what the
-- agent relies on of the ROR API and of the hash list to keep the API so.
pub mod Sends
pub mod Holds
pub mod Run
pub mod Seen
pub mod Cleaned
use ror_agent.Prelude.{
  String, ◌==◌, ◌≡◌, ◌⊎◌, Bool, true, false, Option, none, some, List, [], ◌∷◌, if◌then◌else◌,
}
use ror_agent.WorkQueue.{need_to_run, Action, add, update, delete, other, Update}
use ror_agent.WorkQueue.Pending.{pending}
use ror_agent.ResourceCache.{Services, System, Event, resource, queue_tick, cleanup_tick, step}
use ror_agent.ResourceCache.Active.{inactive}

-- What an update tells of its uid.
abbrev pub told : Action → String → Option String
told delete hash = none
told _ hash = some hash

-- The actions for an object that is there.
abbrev pub IsSight : Action → Type 0
IsSight add = Unit {0}
IsSight update = Unit {0}
IsSight delete = ⊥
IsSight (other a) = ⊥

-- What may follow an update: of another uid anything, after a deletion of the uid no sight of it.
abbrev pub Follows : Bool → Action → Type 0 → Type 0 → Type 0
Follows false a gone orderly = orderly
Follows true delete gone orderly = gone
Follows true add gone orderly = orderly
Follows true update gone orderly = orderly
Follows true (other a) gone orderly = ⊥

module _ {P W H : Type 0} (services : Services P W H) where
  -- What a history tells of a uid: gone after a deletion, else the hash of its last update.
  unfoldable pub mirror : String → List (Event services) → Option String → Option String
  mirror j [] m = m
  mirror j (resource now u ∷ es) m = mirror j es (if u.uid == j then told u.action u.hash else m)
  mirror j (queue_tick now ∷ es) m = mirror j es m
  mirror j (cleanup_tick ∷ es) m = mirror j es m

  -- An event of the uid is a deletion.
  abbrev pub IsGone : String → Event services → Type 0
  IsGone j (resource now u) = (u.uid == j) ≡ true → u.action ≡ delete
  IsGone j (queue_tick now) = Unit {0}
  IsGone j cleanup_tick = Unit {0}

  unfoldable pub Gone : String → List (Event services) → Type 0
  Gone j [] = Unit {0}
  Gone j (e ∷ es) = IsGone j e × Gone j es

  -- The uid is added, updated and deleted only, and not seen again once it is deleted.
  unfoldable pub Orderly : String → List (Event services) → Type 0
  unfolding Gone
  Orderly j [] = Unit {0}
  Orderly j (resource now u ∷ es) = Follows (u.uid == j) u.action (Gone j es) (Orderly j es)
  Orderly j (queue_tick now ∷ es) = Orderly j es
  Orderly j (cleanup_tick ∷ es) = Orderly j es

  -- What the agent relies on of the API and of the hash list: `stored` is the hash of the resource
  -- the API holds for a uid, `known` the one the hash list holds. A call without an error is done,
  -- and no call changes another uid; one with an error may have been done or not.
  pub record MirrorLaws (stored : String → W → Option String) (known : String → H → Option String)
      : Type 0 where
    pub updates :
        (u : Update P) (w : W)
        → (services.api_update u w).0 ≡ none
        → stored u.uid (services.api_update u w).1 ≡ some u.hash
    pub creates :
        (u : Update P) (w : W)
        → (services.api_create u w).0 ≡ none
        → stored u.uid (services.api_create u w).1 ≡ some u.hash
    pub deletes :
        (uid : String) (w : W)
        → (services.api_delete uid w).0 ≡ none
        → stored uid (services.api_delete uid w).1 ≡ none
    pub update_other :
        (j : String) (u : Update P) (w : W)
        → (u.uid == j) ≡ false
        → stored j (services.api_update u w).1 ≡ stored j w
    pub create_other :
        (j : String) (u : Update P) (w : W)
        → (u.uid == j) ≡ false
        → stored j (services.api_create u w).1 ≡ stored j w
    pub delete_other :
        (j uid : String) (w : W)
        → (uid == j) ≡ false
        → stored j (services.api_delete uid w).1 ≡ stored j w
    pub check :
        (uid hash : String) (h : H)
        → (services.check_update_needed uid hash h).0 ≡ false
        → known uid h ≡ some hash
    pub check_keeps :
        (j uid hash : String) (h : H)
        → known j (services.check_update_needed uid hash h).1 ≡ known j h
    pub mark_keeps : (j uid : String) (h : H) → known j (services.mark_active uid h) ≡ known j h
    pub store :
        (uid hash : String) (h : H) → known uid (services.update_hash uid hash h) ≡ some hash
    pub store_other :
        (j uid hash : String) (h : H)
        → (uid == j) ≡ false
        → known j (services.update_hash uid hash h) ≡ known j h

  -- The scheduled job has nothing to send again.
  abbrev pub Idle : System services → Type 0
  Idle s = need_to_run s.job.workqueue ≡ false

  -- The event does not delete the uid as one that the hash list calls inactive.
  abbrev SparedBy : P → String → System services → Event services → Type 0
  SparedBy nothing j s (resource now u) = Unit {0}
  SparedBy nothing j s (queue_tick now) = Unit {0}
  SparedBy nothing j s cleanup_tick = inactive services nothing j s.live.hash_list ≡ false

  -- No event of the history does.
  abbrev pub Spared : P → String → System services → List (Event services) → Type 0
  Spared nothing j s es =
      elim es as (λ x. System services → Type 0) [
        | [] ↦ λ t. Unit {0}
        | e ∷ (xs → rest) ↦ λ t. SparedBy nothing j t e × rest (step services nothing t e)
      ]
        s

  -- The uid waits in the queue, or the API holds `m`.
  abbrev pub Mirrored :
      (String → W → Option String) → String → System services → Option String → Type 0
  Mirrored stored j s m = (pending j s.live.workqueue ≡ true) ⊎ (stored j s.api ≡ m)
