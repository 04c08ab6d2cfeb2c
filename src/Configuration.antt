-- ===== src/Configuration.antt =====
-- internal/config/variables.go and v2/internal/agentconfig/variables.go: the defaults that each agent
-- gives its settings, with the names of common/pkg/config/agentconsts/agentconst.go and the switch of
-- common/pkg/services/pprofservice/pprofservice.go.
--
-- The store of the settings is ror/pkg/config/rorconfig, a record of operations on a state `C`.
use ror_agent.Prelude.{ℕ, suc, String, Bool, true, false, List, [], ◌∷◌}

-- What a default is set to.
pub data Value : Type 0 where
  text : String → Value
  flag : Bool → Value

pub record RorConfig (C : Type 0) : Type 0 where
  pub init_config : C → C
  pub set_default : String → Value → C → C
  pub automatic_env : C → C
  pub get_string : String → C → String
  pub get_bool : String → C → Bool

-- The names of ror/pkg/config/configconsts.
pub record ConfigConsts : Type 0 where
  pub role : String
  pub health_endpoint : String
  pub pod_namespace : String
  pub api_key_secret : String
  pub api_key : String
  pub api_endpoint : String
  pub enable_pprof : String

-- The settings that the agents give a default or read at their start.
pub data Setting : Type 0 where
  role health_endpoint pod_namespace api_key_secret api_key api_endpoint : Setting
  enable_pprof dynamic_watch_no_cache force_gc_after_initial_list : Setting
  force_gc_after_initial_list_free_os_memory : Setting

-- The names of the settings; the last three are those of agentconsts.
abbrev pub name_of : ConfigConsts → Setting → String
name_of consts role = consts.role
name_of consts health_endpoint = consts.health_endpoint
name_of consts pod_namespace = consts.pod_namespace
name_of consts api_key_secret = consts.api_key_secret
name_of consts api_key = consts.api_key
name_of consts api_endpoint = consts.api_endpoint
name_of consts enable_pprof = consts.enable_pprof
name_of consts dynamic_watch_no_cache = "ROR_DYNAMIC_WATCH_NO_CACHE"
name_of consts force_gc_after_initial_list = "ROR_FORCE_GC_AFTER_INITIAL_LIST"
name_of consts force_gc_after_initial_list_free_os_memory =
    "ROR_FORCE_GC_AFTER_INITIAL_LIST_FREE_OS_MEMORY"

-- `IncreaseErrorCount` and `ResetErrorCount` on the counter
unfoldable pub increase_error_count : ℕ → ℕ
increase_error_count count = suc count

unfoldable pub reset_error_count : ℕ → ℕ
reset_error_count count = 0

abbrev pub config_defaults : List (Setting × Value)
config_defaults =
    (health_endpoint, text ":8100")
    ∷ (pod_namespace, text "ror")
    ∷ (api_key_secret, text "ror-apikey")
    ∷ (enable_pprof, flag false)
    ∷ (dynamic_watch_no_cache, flag true)
    ∷ (force_gc_after_initial_list, flag true)
    ∷ (role, text "ror-agent")
    ∷ []

abbrev pub agentconfig_defaults : List (Setting × Value)
agentconfig_defaults =
    (role, text "ClusterAgent")
    ∷ (pod_namespace, text "ror")
    ∷ (api_key_secret, text "ror-apikey")
    ∷ (health_endpoint, text ":9998")
    ∷ (enable_pprof, flag false)
    ∷ (dynamic_watch_no_cache, flag true)
    ∷ (force_gc_after_initial_list, flag true)
    ∷ []

module _ {C : Type 0} (ror_config : RorConfig C) (consts : ConfigConsts) where
  open ror_config use {init_config, set_default, automatic_env, get_bool}

  unfoldable pub set_defaults : List (Setting × Value) → C → C
  set_defaults [] c = c
  set_defaults ((key, value) ∷ rest) c =
      set_defaults rest (set_default (name_of consts key) value c)

  -- `Init` of internal/config
  unfoldable pub config_init : C → C
  unfolding set_defaults
  config_init c = automatic_env (set_defaults config_defaults (init_config c))

  -- `Init` of v2/internal/agentconfig
  unfoldable pub agentconfig_init : C → C
  unfolding set_defaults
  agentconfig_init c = automatic_env (set_defaults agentconfig_defaults c)

  -- `MayStartPprof`: whether the server of net/http/pprof is started
  unfoldable pub may_start_pprof : C → Bool
  may_start_pprof c = get_bool (name_of consts enable_pprof) c
