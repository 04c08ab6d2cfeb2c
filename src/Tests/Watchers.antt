-- ===== src/Tests/Watchers.antt =====
-- Runs of the handlers, of the cleanup and of the shutdown. The hash list is the list of the inactive
-- uids, every update is needed, and the API keeps a log of uids.
use ror_agent.Prelude.{
  ℕ, String, ◌≡◌, ◌≢◌, ◌↔◌, ◌+◌, ◌<◌, refl, true, false, not, List, [], ◌∷◌, ◌++◌, keep, Option,
  none, some, ok, arith, ◌==◌,
}
use ror_agent.WorkQueue.{update, delete, Update}
use ror_agent.Resource.{
  new_from_unstructured, remove_unnecessary_data_from_object, calculate_hash_from_object,
  get_resource_from_object, hash_object,
}
use ror_agent.Resource.Kinds.{payload_type}
use ror_agent.Resource.Json.{Members, find, put, remove, is_empty}
use ror_agent.ResourceCache
use ror_agent.ResourceCache.{Services, Cache, System, Event, resource, cleanup_tick, step, run}
use ror_agent.ResourceCache.Schedule.{deletions}
use ror_agent.ResourceCache.Active.{lists, ActiveLaws, cleanup_spares}
use ror_agent.Watcher.{Call, listed, watched, added, deleted}
use ror_agent.Handlers.Delivery.{deliver_all, events_of, deliver_all-run, sides}
use ror_agent.Handlers.Spared.{listed_spared, Spares}
use ror_agent.DynamicClient.Shutdown.{
  Agent, begun, delivered, received, main_stops, Steps, here, next, CanEnd, can_end_lem, begun_lost,
}
use ror_agent.Tests.Objects.{libraries, at_version}

abbrev Log : Type 0
Log = List String

abbrev services : Services (Option ℕ) Log (List String)
services = record {
  api_update = λ u w. (none, u.uid ∷ w);
  api_create = λ u w. (none, u.uid ∷ w);
  api_delete = λ uid w. (none, uid ∷ w);
  mark_active = λ uid h. keep (λ j. not (j == uid)) h;
  check_update_needed = λ uid hash h. (true, h);
  update_hash = λ uid hash h. h;
  get_inactive_uid = λ h. h;
  cluster_id = "c1";
  scope_cluster = "cluster";
}

pub lists-keep :
    (uid j : String) (h : List String)
    → lists uid h ≡ false
    → lists uid (keep (λ k. not (k == j)) h) ≡ false
lists-keep uid j [] e = refl
lists-keep uid j (k ∷ h) e = ground (arith, lists-keep uid j h)

pub lists-keep_same :
    (uid : String) (h : List String) → lists uid (keep (λ k. not (k == uid)) h) ≡ false
lists-keep_same uid [] = refl
lists-keep_same uid (k ∷ h) = ground (arith, lists-keep_same uid h)

laws : ActiveLaws services none
laws = record {
  marks = lists-keep_same;
  mark = lists-keep;
  check = λ uid j hash h e. e;
  store = λ uid j hash h e. e;
}

abbrev cleaning : System services
cleaning = record {
  live = record { hash_list = "u1" ∷ "old" ∷ []; workqueue = []; cleanup_running = true };
  job = record { hash_list = []; workqueue = []; cleanup_running = false };
  api = [];
}

abbrev seen_update : Update (Option ℕ)
seen_update = record {
  owner = record { scope = "cluster"; subject = "c1" };
  api_version = "v1";
  kind = "Pod";
  uid = "u1";
  action = update;
  hash = "h";
  resource = some 1;
}

update_is_no_delete : update ≢ delete
update_is_no_delete e = cc

cleanup_spares_example :
    ((step services none
        (run services none cleaning (resource 1 seen_update ∷ []))
        cleanup_tick).api
      ≡ deletions services none ("old" ∷ []) ("u1" ∷ []))
    × (lists "u1" ("old" ∷ []) ≡ false)
unfolding run ResourceCache.send_if_needed ResourceCache.send_resource_update_to_ror
cleanup_spares_example =
    cleanup_spares services none cleaning 1 seen_update [] laws refl update_is_no_delete

abbrev pub pod : Option Members
pod = some (at_version "7")

abbrev calls : List (Call (Option Members))
calls = listed "" ∷ added pod ∷ watched "7" ∷ deleted none ∷ []

deliver_all-run_example :
    deliver_all libraries services (λ i. i) calls (cleaning.live, cleaning.api) ≡ (
      ok tt,
      sides libraries services
          (run services none cleaning (events_of libraries services (λ i. i) calls)),
    )
deliver_all-run_example = deliver_all-run libraries services (λ i. i) calls cleaning

is_read : (new_from_unstructured libraries (some pod)).1 ≡ none
unfolding new_from_unstructured remove_unnecessary_data_from_object calculate_hash_from_object
    get_resource_from_object hash_object payload_type find put remove is_empty
is_read = refl

listed_spared_example :
    let cs = (listed "" ∷ []) ++ added pod ∷ watched "7" ∷ [] in
    let t = run services none cleaning (events_of libraries services (λ i. i) cs) in
    (deliver_all libraries services (λ i. i) cs (cleaning.live, cleaning.api)
      ≡ (ok tt, (t.live, t.api)))
    × Spares libraries services (new_from_unstructured libraries (some pod)).0.uid t
listed_spared_example =
    listed_spared libraries services (λ i. i) (listed "" ∷ []) (watched "7" ∷ []) pod cleaning laws
      is_read refl

-- One signal, which main receives.
abbrev ended : Agent
ended = record { listening = 1; sending = 0; watching = 2; pending = false; ended = true }

to_ended : Steps (begun 2) ended
to_ended =
    next
      (next (next here (delivered (begun 2) refl))
        (received (record (begun 2) { pending = true }) refl refl (omega arith)))
      (main_stops (record (begun 2) { listening = 1; sending = 1 }) refl (omega arith))

can_end_lem_example : CanEnd (begun 2) ↔ (0 < 2 + 0)
can_end_lem_example = can_end_lem (begun 2) refl

begun_lost_example :
    (t : Agent) × Steps (begun 3) t × (t.watching ≡ 3) × (t.ended ≡ false) × ¬ CanEnd t
begun_lost_example = begun_lost 2
