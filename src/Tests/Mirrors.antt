-- ===== src/Tests/Mirrors.antt =====
-- Runs against an API that keeps the hash of each uid and refuses updates of one kind.
use ror_agent.Prelude.{
  message, ℕ, String, ◌==◌, eq_iff, eq_refl, ◌≡◌, ◌≢◌, refl, Bool, true, false, not, Option, none,
  some, Error, List, [], ◌∷◌, keep, arith, if◌then◌else◌,
}
use ror_agent.WorkQueue.{update, delete, Action, Update, need_to_run}
use ror_agent.Resource.Json.{Members}
use ror_agent.ResourceCache.{Services, System, Event, resource, queue_tick, cleanup_tick, run}
use ror_agent.ResourceCache.Active.{ActiveLaws}
use ror_agent.ResourceCache.Mirror.{MirrorLaws, Orderly, mirror, Mirrored}
use ror_agent.ResourceCache.Mirror.Seen.{seen-Mirrored}
use ror_agent.ResourceCache.Mirror.Cleaned.{KnowsAll, cleaned_unsent}
use ror_agent.Watcher.{Call, listed, added, updated, watched}
use ror_agent.Tests.Watchers.{pod, lists-keep, lists-keep_same}

abbrev pub Held : Type 0
Held = String → Option String

abbrev with_value : String → Option String → Held → Held
with_value uid value held j = if uid == j then value else held j

-- The uids that are inactive, and the hash of each uid.
abbrev pub Hashes : Type 0
Hashes = List String × Held

abbrev refused : Error
refused = message "refused"

abbrev is_known : String → Option String → Bool
is_known hash none = false
is_known hash (some known) = known == hash

abbrev pub services : Services (Option ℕ) Held Hashes
services = record {
  api_update = λ u w.
      if u.kind == "Broken" then (some refused, w) else (none, with_value u.uid (some u.hash) w);
  api_create = λ u w. (none, with_value u.uid (some u.hash) w);
  api_delete = λ uid w. (none, with_value uid none w);
  mark_active = λ uid h. (keep (λ j. not (j == uid)) h.0, h.1);
  check_update_needed = λ uid hash h. (not (is_known hash (h.1 uid)), h);
  update_hash = λ uid hash h. (h.0, with_value uid (some hash) h.1);
  get_inactive_uid = λ h. h.0;
  cluster_id = "c1";
  scope_cluster = "cluster";
}

abbrev pub stored : String → Held → Option String
stored uid w = w uid

abbrev pub known : String → Hashes → Option String
known uid h = h.1 uid

is_known-some : (hash : String) (v : Option String) → not (is_known hash v) ≡ false → v ≡ some hash
is_known-some hash none e = cc
is_known-some hash (some v) e = ground (arith, eq_iff v hash)

with_value-same :
    (uid : String) (value : Option String) (w : Held) → with_value uid value w uid ≡ value
with_value-same uid value w = rw (eq_refl uid)

with_value-other :
    (j uid : String) (value : Option String) (w : Held)
    → (uid == j) ≡ false
    → with_value uid value w j ≡ w j
with_value-other j uid value w n = rw n

pub laws : MirrorLaws services stored known
laws = record {
  updates = λ u w e. ground (arith, with_value-same u.uid (some u.hash) w);
  creates = λ u w e. with_value-same u.uid (some u.hash) w;
  deletes = λ uid w e. with_value-same uid none w;
  update_other = λ j u w n. ground (arith, with_value-other j u.uid (some u.hash) w n);
  create_other = λ j u w n. with_value-other j u.uid (some u.hash) w n;
  delete_other = λ j uid w n. with_value-other j uid none w n;
  check = λ uid hash h e. is_known-some hash (h.1 uid) e;
  check_keeps = λ j uid hash h. refl;
  mark_keeps = λ j uid h. refl;
  store = λ uid hash h. with_value-same uid (some hash) h.1;
  store_other = λ j uid hash h n. with_value-other j uid (some hash) h.1 n;
}

marks : ActiveLaws services none
marks = record {
  marks = λ uid h. lists-keep_same uid h.0;
  mark = λ uid j h. lists-keep uid j h.0;
  check = λ uid j hash h e. e;
  store = λ uid j hash h e. e;
}

-- The API holds "u1" with the hash that the hash list has, which calls it inactive.
abbrev cleaning : System services
cleaning = record {
  live = record {
    hash_list = ("u1" ∷ "old" ∷ [], with_value "u1" (some "a") (λ uid. none));
    workqueue = [];
    cleanup_running = true;
  };
  job = record { hash_list = ([], λ uid. none); workqueue = []; cleanup_running = false };
  api = with_value "u1" (some "a") (λ uid. none);
}

abbrev update_of : String → String → Action → Update (Option ℕ)
update_of uid hash action = record {
  owner = record { scope = "cluster"; subject = "c1" };
  api_version = "v1";
  kind = "Pod";
  uid = uid;
  action = action;
  hash = hash;
  resource = some 1;
}

update_is_no_delete : update ≢ delete
update_is_no_delete e = cc

abbrev history : List (Event services)
history =
    cleanup_tick
    ∷ resource 2 (update_of "u2" "c" update)
    ∷ queue_tick 3
    ∷ resource 4 (update_of "u1" "b" update)
    ∷ []

history-Orderly : Orderly services "u1" (resource 1 (update_of "u1" "a" update) ∷ history)
unfolding Orderly
history-Orderly = tt

is_sound :
    (x : String) → known "u1" cleaning.live.hash_list ≡ some x → stored "u1" cleaning.api ≡ some x
is_sound x e = e

seen-Mirrored_example :
    Mirrored services stored "u1"
      (run services none cleaning (resource 1 (update_of "u1" "a" update) ∷ history))
      (some "b")
unfolding mirror need_to_run
seen-Mirrored_example =
    seen-Mirrored services none stored known cleaning 1 (update_of "u1" "a" update) history laws
      marks is_sound refl refl update_is_no_delete history-Orderly

known_is_known : (hash : String) (v : Option String) → v ≡ some hash → not (is_known hash v) ≡ false
known_is_known hash none e = cc
known_is_known hash (some v) e = ground (arith, e, eq_iff v hash)

knows_all : KnowsAll services none stored known laws
knows_all uid hash h e = known_is_known hash (h.1 uid) e

cleaned_unsent_example :
    let u = update_of "u1" "a" update in
    let t = run services none cleaning (cleanup_tick ∷ resource 1 u ∷ []) in
    (stored "u1" t.api ≡ none) × (t.live.workqueue ≡ [])
cleaned_unsent_example =
    cleaned_unsent services none stored known laws cleaning 1 (update_of "u1" "a" update) knows_all
      (λ w. refl) refl refl refl update_is_no_delete

abbrev pub calls : List (Call (Option Members))
calls = listed "" ∷ added pod ∷ watched "7" ∷ updated pod ∷ []

abbrev pub hashes : Hashes
hashes = ("u1" ∷ [], with_value "u1" (some "Pod") (λ uid. none))

abbrev pub held : Held
held = with_value "u1" (some "Pod") (λ uid. none)
