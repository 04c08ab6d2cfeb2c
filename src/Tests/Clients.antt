-- ===== src/Tests/Clients.antt =====
-- Runs of the client of the agent, against a cluster without a secret, and of the watcher.
use ror_agent.Prelude.{
  ℕ, String, ◌==◌, ◌≡◌, refl, true, false, [], ◌∷◌, Assoc, Option, none, some, ForeignError, ok,
  panic, ◌⊎◌, inl, inr, lookup, text_at, insert, if◌then◌else◌,
}
use ror_agent.AgentClient.{
  Config, Secret, Api, Agent, updated_secret, kubernetes_update_or_create_api_key_secret,
}
use ror_agent.AgentClient.Startup.{init_ror_agent_client_setup}
use ror_agent.AgentClient.Setup.{KnownAnswers, IsReady, init_ror_agent_client_setup-IsReady}
use ror_agent.AgentClient.EmptySecret.{HasNoData, nil_map, init_ror_agent_client_setup_panic}
use ror_agent.AgentClient.Egress.{Response, Egress, client_egress_ip, trim_space}
use ror_agent.Watcher.{
  Call, State, event, closed, page, list_failed, Pass, running, run_no_cache_watcher,
  no_cache_initial_list, at_version,
}
use ror_agent.Watcher.Backoff.{IsPatient, run_no_cache_watcher-IsPatient}
use ror_agent.Watcher.Calls.{Pages, last_page, next_page, answers, reads, no_cache_initial_list_lem}

abbrev missing : ForeignError
missing = record { is_not_found = true; text = "not found" }

-- The world is the secret, if there is one.
abbrev pub World : Type 0
World = Option (Assoc String)

abbrev secret_in : World → ForeignError ⊎ Secret
secret_in none = inl missing
secret_in (some m) = inr (record { fields = some m })

abbrev world_of : Secret → World
world_of s = s.fields

abbrev pub api : Api World
api = record {
  get_namespace = λ n w. (none, w);
  get_secret = λ n s w. (secret_in w, w);
  create_secret = λ n s w. (none, some s.string_data);
  set_secret = λ n s w. (none, world_of s);
  check_connection = λ k w. (none, w);
  self = λ k w. (inr (record { identity_type = "cluster"; user_name = "c-1"; user_uid = "" }), w);
  version = λ k w. (none, w);
  register_agent = λ id w. (inr (record { cluster_id = "c-1"; api_key = "k-1" }), w);
  get_identifier = λ name w. ("c-0", w);
  clientset = none;
  provider_known = true;
  interregator_id = "unknown";
  interregator_name = "c";
  unknown_interregator_id = "unknown";
  identity_type_cluster = "cluster";
}

abbrev pub config : Config
config = record {
  role = "agent";
  namespace = "ror";
  api_endpoint = "https://api";
  api_key_secret = "ror-key";
}

abbrev pub agent : Agent World
agent = record {
  identifier = "c-1";
  api_key = "k-1";
  config_cluster_id = "";
  config_api_key = "";
  config_cluster_uid = "";
  owner = none;
  world = none;
}

abbrev ready : Agent World
ready = record agent {
  config_cluster_id = "c-1";
  config_api_key = "k-1";
  world = some (("APIKEY", "k-1") ∷ ("CLUSTER_ID", "c-1") ∷ []);
}

set_up : init_ror_agent_client_setup api config agent ≡ (ok tt, ready)
unfolding init_ror_agent_client_setup kubernetes_update_or_create_api_key_secret insert lookup
    text_at
set_up = refl

known_answers : KnownAnswers World api
known_answers = record { made = λ n w. refl; registered = λ id w. (refl, refl) }

init_ror_agent_client_setup-IsReady_example : IsReady ready
init_ror_agent_client_setup-IsReady_example =
    init_ror_agent_client_setup-IsReady api config agent ready known_answers set_up

abbrev old_secret : Secret
old_secret = record { fields = some (("CLUSTER_ID", "c-0") ∷ ("note", "n") ∷ []) }

abbrev new_secret : Secret
new_secret = record {
  fields = some (("CLUSTER_ID", "c-1") ∷ ("note", "n") ∷ ("APIKEY", "k-1") ∷ []);
}

updates : updated_secret agent old_secret ≡ ok (new_secret, true)
unfolding updated_secret insert lookup text_at
updates = refl

-- A secret that was created without data.
nil_data : updated_secret agent (record { fields = none }) ≡ panic "assignment to entry in nil map"
unfolding updated_secret
nil_data = refl

trimmed : trim_space " 10.0.0.1\n" ≡ "10.0.0.1"
unfolding trim_space
trimmed = refl

-- The first host is down; the world counts requests.
abbrev get : String → ℕ → (ForeignError ⊎ Response) × ℕ
get url w = (
  if url == "http://ip.nhn.no"
      then inl missing
      else inr (record { status = 200; body = inr "10.0.0.1" }),
  ℕ.suc w,
)

abbrev never_asked : Egress get
never_asked = record { asked = false; ip = "" }

asks_twice :
    client_egress_ip get never_asked 0 ≡ ("10.0.0.1", (record { asked = true; ip = "10.0.0.1" }, 2))
unfolding client_egress_ip trim_space
asks_twice = refl

-- An object is its resource version.
abbrev pub version : String → String
version s = s

abbrev first_pass : Pass version
first_pass = record {
  stop_before = false;
  answers = list_failed ∷ [];
  watch = none;
  stop_after = false;
}

abbrev failing_pass : Pass version
failing_pass = record { stop_before = false; answers = []; watch = none; stop_after = false }

abbrev second_pass : Pass version
second_pass = record {
  stop_before = false;
  answers = page ("1" ∷ []) "2" "" ∷ [];
  watch = some (event "DELETED" (some "3") ∷ event "BOOKMARK" (some "4") ∷ closed ∷ []);
  stop_after = false;
}

two_passes : run_no_cache_watcher version (first_pass ∷ second_pass ∷ []) ≡ (
  running "4",
  record {
    backoff = 1;
    calls =
        Call.listed ""
        ∷ Call.slept 1
        ∷ Call.listed ""
        ∷ Call.added "1"
        ∷ Call.forced_gc
        ∷ Call.watched "2"
        ∷ Call.deleted "3"
        ∷ Call.stopped_watch
        ∷ [];
  },
)
unfolding run_no_cache_watcher
two_passes = refl

run_no_cache_watcher-IsPatient_example :
    IsPatient (run_no_cache_watcher version (first_pass ∷ second_pass ∷ [])).1
run_no_cache_watcher-IsPatient_example =
    run_no_cache_watcher-IsPatient version (first_pass ∷ second_pass ∷ [])

abbrev pub pages : Pages String
pages = next_page ("1" ∷ "2" ∷ []) "9" "t" refl (last_page ("3" ∷ []) "9")

abbrev start : State String
start = record { backoff = 4; calls = [] }

no_cache_initial_list_lem_example :
    no_cache_initial_list version (answers pages) "" start
    ≡ (at_version "9", record { backoff = 1; calls = reads "" pages })
no_cache_initial_list_lem_example = no_cache_initial_list_lem version pages "" start

-- A cluster whose interregator knows the identifier, with a secret that has no data.
abbrev empty_api : Api World
empty_api = record api {
  get_secret = λ n s w. (inr (record { fields = none }), w);
  interregator_id = "c-2";
}

has_no_data : HasNoData empty_api config
has_no_data = record { namespace = λ w. refl; secret = λ w. refl }

init_ror_agent_client_setup_panic_example :
    (init_ror_agent_client_setup empty_api config agent).0 ≡ panic nil_map
init_ror_agent_client_setup_panic_example =
    init_ror_agent_client_setup_panic empty_api config agent has_no_data refl refl refl
