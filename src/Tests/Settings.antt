-- ===== src/Tests/Settings.antt =====
-- A store of settings, and what the agents read of it where the environment sets the endpoint alone.
use ror_agent.Prelude.{
  String, ◌==◌, eqb, ◌≡◌, ◌↔◌, refl, Bool, true, false, [], ◌∷◌, Option, none, some, panic, arith,
  if◌then◌else◌,
}
use ror_agent.Configuration.{
  RorConfig, ConfigConsts, Setting, role, health_endpoint, pod_namespace, api_key_secret, api_key,
  api_endpoint, enable_pprof, dynamic_watch_no_cache, force_gc_after_initial_list,
  force_gc_after_initial_list_free_os_memory, name_of, Value, text, may_start_pprof,
}
use ror_agent.AgentClient.{validate, unknown_api_key}
use ror_agent.AgentClient.Defaults.{get_default_ror_agent_client_config}
use ror_agent.Watcher.Controller.{gc, run, no_cache_watcher, new_dynamic_controller}
use ror_agent.Programs.{must_init_new_ror_agent_client}
use ror_agent.Programs.Options.Unset.{unset_endpoint_fatal}
use ror_agent.Tests.Clients.{api, agent, version, pages}
use ror_agent.Watcher.{no_cache_initial_list}
use ror_agent.Watcher.Calls.{answers}
use ror_agent.Watcher.Controller.Collections.{collections}
use ror_agent.Programs.Options.{
  string_of, bool_of, v1, v2, code, AreDistinct, StoreLaws, NotEmptied, initial,
}
use ror_agent.Programs.Options.Start.{get_default_ror_agent_client_config_lem, initial_options}

abbrev consts : ConfigConsts
consts = record {
  role = "ROLE";
  health_endpoint = "HEALTH_ENDPOINT";
  pod_namespace = "POD_NAMESPACE";
  api_key_secret = "API_KEY_SECRET";
  api_key = "API_KEY";
  api_endpoint = "API_ENDPOINT";
  enable_pprof = "ENABLE_PPROF";
}

every :
    (p : Setting → Type 0)
    → p role
    → p health_endpoint
    → p pod_namespace
    → p api_key_secret
    → p api_key
    → p api_endpoint
    → p enable_pprof
    → p dynamic_watch_no_cache
    → p force_gc_after_initial_list
    → p force_gc_after_initial_list_free_os_memory
    → (k : Setting) → p k
every p h0 h1 h2 h3 h4 h5 h6 h7 h8 h9 = elim [
  | role ↦ h0
  | health_endpoint ↦ h1
  | pod_namespace ↦ h2
  | api_key_secret ↦ h3
  | api_key ↦ h4
  | api_endpoint ↦ h5
  | enable_pprof ↦ h6
  | dynamic_watch_no_cache ↦ h7
  | force_gc_after_initial_list ↦ h8
  | force_gc_after_initial_list_free_os_memory ↦ h9
]

-- All pairs of names compared.
names_differ : AreDistinct consts
names_differ =
    every (λ a. (b : Setting) → (name_of consts a == name_of consts b) ≡ eqb (code a) (code b))
      (every (λ b. (name_of consts role == name_of consts b) ≡ eqb (code role) (code b)) refl refl
        refl refl refl refl refl refl refl refl)
      (every
        (λ b.
          (name_of consts health_endpoint == name_of consts b)
          ≡ eqb (code health_endpoint) (code b))
        refl refl refl refl refl refl refl refl refl refl)
      (every
        (λ b.
          (name_of consts pod_namespace == name_of consts b) ≡ eqb (code pod_namespace) (code b))
        refl refl refl refl refl refl refl refl refl refl)
      (every
        (λ b.
          (name_of consts api_key_secret == name_of consts b) ≡ eqb (code api_key_secret) (code b))
        refl refl refl refl refl refl refl refl refl refl)
      (every (λ b. (name_of consts api_key == name_of consts b) ≡ eqb (code api_key) (code b)) refl
        refl refl refl refl refl refl refl refl refl)
      (every
        (λ b. (name_of consts api_endpoint == name_of consts b) ≡ eqb (code api_endpoint) (code b))
        refl refl refl refl refl refl refl refl refl refl)
      (every
        (λ b. (name_of consts enable_pprof == name_of consts b) ≡ eqb (code enable_pprof) (code b))
        refl refl refl refl refl refl refl refl refl refl)
      (every
        (λ b.
          (name_of consts dynamic_watch_no_cache == name_of consts b)
          ≡ eqb (code dynamic_watch_no_cache) (code b))
        refl refl refl refl refl refl refl refl refl refl)
      (every
        (λ b.
          (name_of consts force_gc_after_initial_list == name_of consts b)
          ≡ eqb (code force_gc_after_initial_list) (code b))
        refl refl refl refl refl refl refl refl refl refl)
      (every
        (λ b.
          (name_of consts force_gc_after_initial_list_free_os_memory == name_of consts b)
          ≡ eqb (code force_gc_after_initial_list_free_os_memory) (code b))
        refl refl refl refl refl refl refl refl refl refl)

-- The defaults, and whether the environment is read.
abbrev Store : Type 0
Store = (String → Option Value) × Bool

abbrev environment : String → Option String
environment k = if k == "API_ENDPOINT" then some "https://api" else none

abbrev read_string : String → Store → String
read_string k s = string_of (if s.1 then environment k else none) (s.0 k)

abbrev ror_config : RorConfig Store
ror_config = record {
  init_config = λ s. s;
  set_default = λ k v s. ((λ j. if k == j then some v else s.0 j), s.1);
  automatic_env = λ s. (s.0, true);
  get_string = read_string;
  get_bool = λ k s. bool_of (s.0 k);
}

abbrev empty_store : Store
empty_store = ((λ k. none), false)

abbrev default_of : String → Store → Option Value
default_of k s = s.0 k

abbrev reads : Store → Bool
reads s = s.1

laws : StoreLaws ror_config consts environment default_of reads
laws = record {
  begins = λ k s. refl;
  sets = λ k j v s. refl;
  set_reads = λ k v s. refl;
  keeps = λ k s. refl;
  starts_to_read = λ s. refl;
  string = λ k s h. ground (arith, h);
  bool = λ k s h e. refl;
}

role-NotEmptied : NotEmptied ror_config consts environment role
role-NotEmptied e h = cc

namespace-NotEmptied : NotEmptied ror_config consts environment pod_namespace
namespace-NotEmptied e h = cc

secret-NotEmptied : NotEmptied ror_config consts environment api_key_secret
secret-NotEmptied e h = cc

get_default_ror_agent_client_config_lem_example :
    let ((config, key), s) =
      get_default_ror_agent_client_config ror_config consts
        (initial ror_config consts environment v2 empty_store) in
    (validate config ≡ none ↔ (string_of (environment "API_ENDPOINT") none == "") ≡ false)
    × (key ≡ string_of (environment "API_KEY") (some (text unknown_api_key)))
get_default_ror_agent_client_config_lem_example =
    get_default_ror_agent_client_config_lem ror_config consts environment default_of reads v2
      empty_store laws names_differ (λ j. refl) role-NotEmptied namespace-NotEmptied
      secret-NotEmptied

initial_options_example :
    let s = initial ror_config consts environment v1 empty_store in
    (run (new_dynamic_controller ror_config consts none s) ≡ no_cache_watcher)
    × (collections ror_config consts s
          (no_cache_initial_list version
            (answers pages)
            ""
            (record { backoff = 1; calls = [] })).1.calls
        ≡ gc ∷ [])
    × (may_start_pprof ror_config consts s ≡ false)
initial_options_example =
    initial_options ror_config consts environment default_of reads version pages v1 empty_store none
      laws names_differ (λ j. refl) refl refl refl refl

-- The same, where the environment sets nothing.
abbrev nothing_set : String → Option String
nothing_set k = none

abbrev unset_config : RorConfig Store
unset_config = record ror_config { get_string = λ k s. string_of none (s.0 k) }

unset_laws : StoreLaws unset_config consts nothing_set default_of reads
unset_laws = record {
  begins = λ k s. refl;
  sets = λ k j v s. refl;
  set_reads = λ k v s. refl;
  keeps = λ k s. refl;
  starts_to_read = λ s. refl;
  string = λ k s h. refl;
  bool = λ k s h e. refl;
}

unset_endpoint_fatal_example :
    let ((config, key), s) =
      get_default_ror_agent_client_config unset_config consts
        (initial unset_config consts nothing_set v1 empty_store) in
    must_init_new_ror_agent_client api config agent
    ≡ (panic "failed to initialize RorAgentClient", agent)
unset_endpoint_fatal_example =
    unset_endpoint_fatal api unset_config consts nothing_set default_of reads v1 empty_store agent
      unset_laws names_differ (λ j. refl) (λ e h. cc) (λ e h. cc) (λ e h. cc) refl
