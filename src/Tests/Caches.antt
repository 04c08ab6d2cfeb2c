-- ===== src/Tests/Caches.antt =====
-- Runs of internal/services/resourceupdate/resourcecache.go and resourceupdate.go, against an API
-- that keeps a log of uids and is down for the uid "bad", and a hash list that is a map.
use ror_agent.Prelude.{
  ℕ, String, ◌≡◌, ◌≢◌, refl, Bool, true, false, not, List, [], ◌∷◌, Option, none, some, Error,
  message, Assoc, lookup, insert, lookup-insert, arith, ◌==◌, eq_refl, if◌then◌else◌,
}
use ror_agent.WorkQueue.{update, delete, fresh}
use ror_agent.WorkQueue.Pending.{pending}
use ror_agent.ResourceCache.{
  Services, Cache, System, Event, resource, queue_tick, cleanup_tick, must_init, step, run,
  run_work_que, send_update, send_resource_update_to_ror,
}
use ror_agent.ResourceCache.Sending.{checked, HashListLaws, send_update_unneeded}
use ror_agent.ResourceCache.Retries.{run_work_que_failed}
use ror_agent.ResourceCache.Schedule.{queue_tick_idle}
use ror_agent.Tests.Queues.{update_of, item_of}

abbrev Log : Type 0
Log = List String

abbrev call : String → Log → Option Error × Log
call uid w = if uid == "bad" then (some (message "down"), w) else (none, uid ∷ w)

abbrev differs : Option String → String → Bool
differs none hash = true
differs (some h) hash = not (h == hash)

abbrev services : Services ℕ Log (Assoc String)
services = record {
  api_update = λ u w. call u.uid w;
  api_create = λ u w. call u.uid w;
  api_delete = call;
  mark_active = λ uid h. h;
  check_update_needed = λ uid hash h. (differs (lookup uid h) hash, h);
  update_hash = insert;
  get_inactive_uid = λ h. "old" ∷ "older" ∷ [];
  cluster_id = "c1";
  scope_cluster = "cluster";
}

stored_is_known :
    (uid hash : String) (h : Assoc String) → differs (lookup uid (insert uid hash h)) hash ≡ false
stored_is_known uid hash h = ground (arith, lookup-insert uid uid hash h, eq_refl uid, eq_refl hash)

laws : HashListLaws services
laws = record { stored = stored_is_known; stored_marked = stored_is_known }

abbrev cache : Cache ℕ (Assoc String)
cache = record {
  hash_list = [];
  workqueue = item_of "a" ∷ item_of "bad" ∷ [];
  cleanup_running = false;
}

update_is_no_delete : update ≢ delete
update_is_no_delete e = cc

abbrev known : Cache ℕ (Assoc String)
known = record cache { hash_list = ("b", "h") ∷ [] }

send_update_unneeded_example :
    ((send_update services 5 (update_of "b") (known, [])).1 ≡ [])
    × ((send_update services 5 (update_of "b") (known, [])).0.workqueue ≡ cache.workqueue)
send_update_unneeded_example =
    send_update_unneeded services 5 (update_of "b") known [] update_is_no_delete
      (unfold lookup in refl)

needed : (checked services (update_of "bad") cache).0 ≡ true
unfolding lookup
needed = refl

is_down : send_resource_update_to_ror services (update_of "bad") [] ≡ (some (message "down"), [])
unfolding send_resource_update_to_ror
is_down = refl

is_sent : send_resource_update_to_ror services (update_of "b") [] ≡ (none, "b" ∷ [])
unfolding send_resource_update_to_ror
is_sent = refl

new_hash : (checked services (update_of "b") cache).0 ≡ true
unfolding lookup
new_hash = refl

abbrev sendable : Cache ℕ (Assoc String)
sendable = record cache { workqueue = item_of "a" ∷ item_of "b" ∷ [] }

a_is_sent : (w : Log) → send_resource_update_to_ror services (update_of "a") w ≡ (none, "a" ∷ w)
unfolding send_resource_update_to_ror
a_is_sent w = refl

b_is_sent : (w : Log) → send_resource_update_to_ror services (update_of "b") w ≡ (none, "b" ∷ w)
unfolding send_resource_update_to_ror
b_is_sent w = refl

bad_is_down :
    send_resource_update_to_ror services (update_of "bad") ("a" ∷ [])
    ≡ (some (message "down"), "a" ∷ [])
unfolding send_resource_update_to_ror
bad_is_down = refl

run_work_que_failed_example : run_work_que services 9 (cache, []) ≡ (
  record cache {
    workqueue = item_of "bad" ∷ fresh 9 (update_of "bad") ∷ [];
    hash_list = insert "a" "h" [];
  },
  "a" ∷ [],
)
run_work_que_failed_example =
    run_work_que_failed services 9 cache (item_of "a" ∷ []) (item_of "bad") [] [] ("a" ∷ [])
      ("a" ∷ []) (message "down") refl (refl, tt) ("a" ∷ [], a_is_sent [], refl) bad_is_down

abbrev history : List (Event services)
history = resource 1 (update_of "bad") ∷ queue_tick 2 ∷ cleanup_tick ∷ queue_tick 3 ∷ []

queue_tick_idle_example :
    step services 0 (run services 0 (must_init services [] []) history) (queue_tick 4)
    ≡ run services 0 (must_init services [] []) history
queue_tick_idle_example = queue_tick_idle services 0 [] [] history 4

abbrev holding : System services
holding = record { live = cache; job = record cache { workqueue = [] }; api = [] }

bad_is_pending : pending "bad" cache.workqueue ≡ true
unfolding pending
bad_is_pending = refl

abbrev cleaning : System services
cleaning = record holding { live = record cache { cleanup_running = true } }
