-- ===== src/ResourceCache.antt =====
-- internal/services/resourceupdate/resourcecache.go and resourceupdate.go, with
-- internal/services/authservice/authservice.go: what the agent sends to the ROR API of the resources
-- it sees, what it queues for a retry, and the scheduled jobs.
--
-- The calls run one after another; the source has no lock. `now` is `time.Now()`.
pub mod Sending
pub mod Retries
pub mod Schedule
pub mod Active
pub mod Mirror
pub mod Slices
pub mod Races
use ror_agent.Prelude.{
  ℕ, String, Bool, true, false, List, [], ◌∷◌, Option, none, some, Error, Outcome, ok, err, panic,
  if◌then◌else◌,
}
use ror_agent.WorkQueue.{
  Action, add, update, delete, other, OwnerReference, Update, Item, Queue, need_to_run, enqueue,
  delete_by_uid,
}
use ror_agent.Resource.{Libraries, new_from_unstructured, new_resource_update_model}
use ror_agent.Resource.Json.{Members}

-- What the cache calls: the three operations of the ROR API on a world `W`, and the hash list of
-- ror/pkg/helpers/resourcecache, a value of type `H`.
pub record Services (P W H : Type 0) : Type 0 where
  pub api_update : Update P → W → Option Error × W
  pub api_create : Update P → W → Option Error × W
  pub api_delete : String → W → Option Error × W
  pub mark_active : String → H → H
  pub check_update_needed : String → String → H → Bool × H
  pub update_hash : String → String → H → H
  pub get_inactive_uid : H → List String
  -- rorconfig.GetString(configconsts.CLUSTER_ID)
  pub cluster_id : String
  -- aclmodels.Acl2ScopeCluster
  pub scope_cluster : String

-- `resourcecache`, less its client and its scheduler.
pub record Cache (P H : Type 0) : Type 0 where
  pub hash_list : H
  pub workqueue : Queue P
  pub cleanup_running : Bool

module _ {P W H : Type 0} (services : Services P W H) where
  open services use {
    api_update, api_create, api_delete, mark_active, check_update_needed, update_hash,
    get_inactive_uid,
  }

  unfoldable pub create_ownerref : OwnerReference
  create_ownerref = record { scope = services.scope_cluster; subject = services.cluster_id }

  -- An action that is none of the three is logged, and reported as sent.
  abbrev pub dispatch : Action → Update P → W → Option Error × W
  dispatch update u w = api_update u w
  dispatch add u w = api_create u w
  dispatch delete u w = api_delete u.uid w
  dispatch (other a) u w = (none, w)

  unfoldable pub send_resource_update_to_ror : Update P → W → Option Error × W
  send_resource_update_to_ror u w = dispatch u.action u w

  abbrev pub queued : ℕ → Update P → Cache P H → Cache P H
  queued now u c = record c { workqueue = enqueue now u c.workqueue }

  abbrev pub resent : Update P → Cache P H → Cache P H
  resent u c = record c {
    workqueue = delete_by_uid u.uid c.workqueue;
    hash_list = update_hash u.uid u.hash c.hash_list;
  }

  -- The loop of `RunWorkQue`, over the queue as it was when the loop began.
  unfoldable pub run_items : ℕ → List (Item P) → Cache P H × W → Cache P H × W
  run_items now [] s = s
  run_items now (x ∷ xs) (c, w) =
      let (failed, w') = send_resource_update_to_ror x.update w in
      let rest = run_items now xs (resent x.update c, w') in
      elim failed [ some e ↦ (queued now x.update c, w') | none ↦ rest ]

  unfoldable pub run_work_que : ℕ → Cache P H × W → Cache P H × W
  unfolding run_items
  run_work_que now (c, w) = run_items now c.workqueue (c, w)

  -- A send, and the queue if it failed; `updates_hash` is whether the hash is stored if it did not.
  abbrev pub send_or_queue : Bool → ℕ → Update P → Cache P H → W → Cache P H × W
  send_or_queue updates_hash now u c w =
      let (failed, w') = send_resource_update_to_ror u w in
      elim failed [
        | some e ↦ (queued now u c, w')
        | none ↦
            if updates_hash
            then (record c { hash_list = update_hash u.uid u.hash c.hash_list }, w')
            else (c, w')
      ]

  abbrev pub marked : Update P → Cache P H → Cache P H
  marked u c =
      if c.cleanup_running then record c { hash_list = mark_active u.uid c.hash_list } else c

  -- The branch of `SendResource` for an action other than a deletion.
  unfoldable pub send_if_needed : ℕ → Update P → Cache P H → W → Cache P H × W
  send_if_needed now u c w =
      let c' = marked u c in
      let (needed, h) = check_update_needed u.uid u.hash c'.hash_list in
      let c'' : Cache P H = record c' { hash_list = h } in
      if needed then send_or_queue true now u c'' w else (c'', w)

  abbrev pub by_action : Action → ℕ → Update P → Cache P H → W → Cache P H × W
  by_action delete now u c w = send_or_queue false now u c w
  by_action _ now u c w = send_if_needed now u c w

  unfoldable pub send_update : ℕ → Update P → Cache P H × W → Cache P H × W
  send_update now u (c, w) = by_action u.action now u c w

  deleted_model : P → String → Update P
  unfolding create_ownerref
  deleted_model nothing uid = record {
    owner = create_ownerref;
    api_version = "";
    kind = "";
    uid = uid;
    action = delete;
    hash = "";
    resource = nothing;
  }

  -- The loop of `finnishCleanup`, whose errors are dropped; `nothing` is the nil payload.
  unfoldable pub delete_all : P → List String → W → W
  unfolding deleted_model
  delete_all nothing [] w = w
  delete_all nothing (uid ∷ uids) w =
      delete_all nothing uids (send_resource_update_to_ror (deleted_model nothing uid) w).1

  unfoldable pub finnish_cleanup : P → Cache P H × W → Cache P H × W
  unfolding delete_all
  finnish_cleanup nothing (c, w) =
      if c.cleanup_running
      then (
        record c { cleanup_running = false },
        delete_all nothing (get_inactive_uid c.hash_list) w,
      )
      else (c, w)

  -- `MustInit` binds the method value `rc.runWorkqueScheduler`, whose receiver is a value: the job
  -- holds a copy of the cache as it was then.
  pub record System : Type 0 where
    pub live : Cache P H
    pub job : Cache P H
    pub api : W

  -- `MustInit` with the hash list got from the API; the scheduler starts the jobs.
  unfoldable pub must_init : H → W → System
  must_init hashes w =
      let c : Cache P H = record { hash_list = hashes; workqueue = []; cleanup_running = false } in
      record { live = record c { cleanup_running = true }; job = c; api = w }

  -- The scheduled job works on a copy of its copy, whose changes are lost.
  unfoldable pub run_workque_scheduler : ℕ → Cache P H → W → W
  unfolding run_work_que
  run_workque_scheduler now copy w =
      if need_to_run copy.workqueue then (run_work_que now (copy, w)).1 else w

  pub data Event : Type 0 where
    -- a resource is seen, or gone: `SendResource`, past the reading of its input
    resource : ℕ → Update P → Event
    queue_tick : ℕ → Event
    cleanup_tick : Event

  unfoldable pub step : P → System → Event → System
  unfolding send_update run_workque_scheduler finnish_cleanup
  step nothing s (resource now u) =
      let (c, w) = send_update now u (s.live, s.api) in record s { live = c; api = w }
  step nothing s (queue_tick now) = record s { api = run_workque_scheduler now s.job s.api }
  step nothing s cleanup_tick =
      let (c, w) = finnish_cleanup nothing (s.live, s.api) in record s { live = c; api = w }

  unfoldable pub run : P → System → List Event → System
  unfolding step
  run nothing s [] = s
  run nothing s (e ∷ es) = run nothing (step nothing s e) es

module _ {P W H : Type 0} (libs : Libraries P) (services : Services (Option P) W H) where
  -- `SendResource`: an input that cannot be read is dropped.
  unfoldable pub send_resource :
      ℕ → Action → Option (Option Members) → Cache (Option P) H × W → Cache (Option P) H × W
  send_resource now action input s =
      let (r, failed) = new_from_unstructured libs input in
      let u = new_resource_update_model r (create_ownerref services) action in
      elim failed [ some e ↦ s | none ↦ send_update services now u s ]
