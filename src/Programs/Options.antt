-- ===== src/Programs/Options.antt =====
-- What both agents find in their configuration, behind the Init of internal/config or of
-- v2/internal/agentconfig.
pub mod Defaults
pub mod Start
pub mod Unset
use ror_agent.Prelude.{
  ℕ, eqb, String, ◌==◌, ◌≡◌, ◌↔◌, ◌⊎◌, refl, ap, sym, ◌∙◌, Bool, true, false, ◌&&◌, not, List, [],
  ◌∷◌, Option, none, some, Error, ForeignError, message, arith, if◌then◌else◌,
}
use ror_agent.Configuration.{
  RorConfig, ConfigConsts, Setting, role, health_endpoint, pod_namespace, api_key_secret, api_key,
  api_endpoint, enable_pprof, dynamic_watch_no_cache, force_gc_after_initial_list,
  force_gc_after_initial_list_free_os_memory, name_of, Value, text, flag, set_defaults,
  config_defaults, agentconfig_defaults, config_init, agentconfig_init, may_start_pprof,
}
use ror_agent.AgentClient.{validate, unknown_api_key}
use ror_agent.AgentClient.Defaults.{get_default_ror_agent_client_config}
use ror_agent.Watcher.Controller.{
  gc, run, no_cache_watcher, new_dynamic_controller, maybe_force_gc_after_initial_list,
}

-- What is read of a setting as a text: the environment, else the default.
abbrev pub string_of : Option String → Option Value → String
string_of (some e) default = e
string_of none (some (text t)) = t
string_of none (some (flag b)) = ""
string_of none none = ""

-- What is read of a setting that the environment does not set, as a Boolean.
abbrev pub bool_of : Option Value → Bool
bool_of (some (flag b)) = b
bool_of (some (text t)) = false
bool_of none = false

abbrev pub code : Setting → ℕ
code role = 0
code health_endpoint = 1
code pod_namespace = 2
code api_key_secret = 3
code api_key = 4
code api_endpoint = 5
code enable_pprof = 6
code dynamic_watch_no_cache = 7
code force_gc_after_initial_list = 8
code force_gc_after_initial_list_free_os_memory = 9

-- The two agents: cmd/agent and v2/cmd/agent.
pub data Version : Type 0 where
  v1 v2 : Version

abbrev pub role_text : Version → String
role_text v1 = "ror-agent"
role_text v2 = "ClusterAgent"

-- Two settings have one name only if they are one.
abbrev pub AreDistinct : ConfigConsts → Type 0
AreDistinct consts =
    (a b : Setting) → (name_of consts a == name_of consts b) ≡ eqb (code a) (code b)

module _ {C : Type 0} (ror_config : RorConfig C) (consts : ConfigConsts)
    (environment : String → Option String) where
  open ror_config use {init_config, set_default, automatic_env, get_string, get_bool}

  -- What the agents rely on of the store: `default_of` is the default of a name, and a state reads the
  -- environment once `AutomaticEnv` was called.
  pub record StoreLaws (default_of : String → C → Option Value) (reads : C → Bool) : Type 0 where
    pub begins : (k : String) (c : C) → default_of k (init_config c) ≡ default_of k c
    pub sets :
        (k j : String) (v : Value) (c : C)
        → default_of j (set_default k v c) ≡ (if k == j then some v else default_of j c)
    pub set_reads : (k : String) (v : Value) (c : C) → reads (set_default k v c) ≡ reads c
    pub keeps : (k : String) (c : C) → default_of k (automatic_env c) ≡ default_of k c
    pub starts_to_read : (c : C) → reads (automatic_env c) ≡ true
    pub string :
        (k : String) (c : C)
        → reads c ≡ true
        → get_string k c ≡ string_of (environment k) (default_of k c)
    pub bool :
        (k : String) (c : C)
        → reads c ≡ true
        → environment k ≡ none
        → get_bool k c ≡ bool_of (default_of k c)

  -- The defaults of an agent, by its role.
  pub record HasDefaults (role_name : String) (default : Setting → Option Value) : Type 0 where
    pub of_role : default role ≡ some (text role_name)
    pub of_namespace : default pod_namespace ≡ some (text "ror")
    pub of_secret : default api_key_secret ≡ some (text "ror-apikey")
    pub of_endpoint : default api_endpoint ≡ none
    pub of_pprof : default enable_pprof ≡ some (flag false)
    pub of_no_cache : default dynamic_watch_no_cache ≡ some (flag true)
    pub of_gc : default force_gc_after_initial_list ≡ some (flag true)
    pub of_free : default force_gc_after_initial_list_free_os_memory ≡ none

  -- The environment does not set the setting to the empty text.
  abbrev pub NotEmptied : Setting → Type 0
  NotEmptied k = (e : String) → environment (name_of consts k) ≡ some e → (e == "") ≡ false

  -- The configuration of each agent, behind its Init.
  abbrev pub initial : Version → C → C
  initial v1 c = config_init ror_config consts c
  initial v2 c = agentconfig_init ror_config consts c
