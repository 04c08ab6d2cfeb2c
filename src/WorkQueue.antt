-- ===== src/WorkQueue.antt =====
-- internal/services/resourceupdate/workqueue.go: the queue of resource updates to send again.
pub mod Positions
pub mod Enqueue
pub mod Pending
pub mod Delete
use ror_agent.Prelude.{
  ℕ, ◌+◌, String, Bool, List, [], ◌∷◌, ◌++◌, Option, none, some, ◌==◌, length, set, ltb, eqb,
  if◌then◌else◌, add64,
}

-- The actions of `apiresourcecontracts.ResourceAction`, a text that the program compares.
pub data Action : Type 0 where
  add update delete : Action
  other : String → Action

-- aclmodels.Acl2Scope and the subject it is for
pub record OwnerReference : Type 0 where
  pub scope : String
  pub subject : String

-- apiresourcecontracts.ResourceUpdateModel, its payload of type `P`
pub record Update (P : Type 0) : Type 0 where
  pub owner : OwnerReference
  pub api_version : String
  pub kind : String
  pub uid : String
  pub action : Action
  pub hash : String
  pub resource : P

-- ResourceCacheWorkqueueObject; the pointer to the update is never nil in a queue
pub record Item (P : Type 0) : Type 0 where
  pub submitted : ℕ
  pub retry_count : ℕ
  pub update : Update P

abbrev pub Queue : Type 0 → Type 0
Queue P = List (Item P)

module _ {P : Type 0} where
  unfoldable pub need_to_run : Queue P → Bool
  need_to_run m = ltb 0 (length m)

  unfoldable pub item_count : Queue P → ℕ
  item_count m = length m

  -- The loop of `GetByUid` at index `i`; `none` is the empty response.
  unfoldable pub get_from : ℕ → String → Queue P → Option (Item P) × ℕ
  get_from i uid [] = (none, 0)
  get_from i uid (x ∷ xs) = if x.update.uid == uid then (some x, i) else get_from (i + 1) uid xs

  unfoldable pub get_by_uid : String → Queue P → Option (Item P) × ℕ
  unfolding get_from
  get_by_uid uid m = get_from 0 uid m

  -- `cacheResource.RetryCount`; the empty response has 0
  abbrev pub retries_of : Option (Item P) → ℕ
  retries_of none = 0
  retries_of (some x) = x.retry_count

  abbrev pub fresh : ℕ → Update P → Item P
  fresh now u = record { submitted = now; retry_count = 0; update = u }

  -- `now` is `time.Now()`.
  unfoldable pub enqueue : ℕ → Update P → Queue P → Queue P
  enqueue now u m =
      let (found, id) = get_by_uid u.uid m in
      if ltb 0 id
      then set m id (record (fresh now u) { retry_count = add64 (retries_of found) 1 })
      else m ++ fresh now u ∷ []

  -- The loop of `DeleteByUid` at index `i`: all but the item at `id`.
  unfoldable pub keep_but : ℕ → ℕ → Queue P → Queue P
  keep_but i id [] = []
  keep_but i id (x ∷ xs) = let rest = keep_but (i + 1) id xs in if eqb i id then rest else x ∷ rest

  unfoldable pub delete_by_uid : String → Queue P → Queue P
  unfolding keep_but
  delete_by_uid uid m = if uid == "" then m else keep_but 0 (get_by_uid uid m).1 m
