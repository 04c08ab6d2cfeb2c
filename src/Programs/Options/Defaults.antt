-- ===== src/Programs/Options/Defaults.antt =====
-- The defaults that each Init leaves in the store of the settings.
use ror_agent.Prelude.{
  eqb, String, ◌≡◌, refl, ap, ◌∙◌, Bool, true, List, [], ◌∷◌, Option, none, some, if◌then◌else◌,
}
use ror_agent.Configuration.{
  RorConfig, ConfigConsts, Setting, role, pod_namespace, api_key_secret, api_endpoint, enable_pprof,
  dynamic_watch_no_cache, force_gc_after_initial_list, force_gc_after_initial_list_free_os_memory,
  name_of, Value, set_defaults, config_defaults, agentconfig_defaults, config_init,
  agentconfig_init,
}
use ror_agent.Programs.Options.{
  Version, v1, v2, role_text, code, AreDistinct, StoreLaws, HasDefaults, initial,
}

module _ {C : Type 0} (ror_config : RorConfig C) (consts : ConfigConsts)
    (environment : String → Option String) (default_of : String → C → Option Value)
    (reads : C → Bool) (laws : StoreLaws ror_config consts environment default_of reads)
    (different : AreDistinct consts) where
  open ror_config use {init_config, set_default, automatic_env, get_string, get_bool}

  abbrev last_value : Setting → List (Setting × Value) → Option Value → Option Value
  last_value k = elim [
    | [] ↦ λ v. v
    | e ∷ (es → rest) ↦ λ v. rest (if eqb (code e.0) (code k) then some e.1 else v)
  ]

  default_of-set_defaults :
      (k : Setting) (ds : List (Setting × Value)) (c : C)
      → default_of (name_of consts k) (set_defaults ror_config consts ds c)
        ≡ last_value k ds (default_of (name_of consts k) c)
  unfolding set_defaults
  default_of-set_defaults k [] c = refl
  default_of-set_defaults k ((i, v) ∷ ds) c =
      default_of-set_defaults k ds (set_default (name_of consts i) v c)
      ∙ ap (last_value k ds) (
          laws.sets (name_of consts i) (name_of consts k) v c
          ∙ ap (λ b. if b then some v else default_of (name_of consts k) c) (different i k))

  config_init_reads :
      (k : Setting) (c : C)
      → ((j : String) → default_of j c ≡ none)
      → default_of (name_of consts k) (config_init ror_config consts c)
        ≡ last_value k config_defaults none
  unfolding config_init
  config_init_reads k c empty =
      laws.keeps (name_of consts k) _
      ∙ default_of-set_defaults k config_defaults (init_config c)
      ∙ ap (last_value k config_defaults)
          (laws.begins (name_of consts k) c ∙ empty (name_of consts k))

  config_init-HasDefaults :
      (c : C)
      → ((j : String) → default_of j c ≡ none)
      → HasDefaults ror_config consts environment "ror-agent"
          (λ k. default_of (name_of consts k) (config_init ror_config consts c))
  config_init-HasDefaults c empty = record {
    of_role = config_init_reads role c empty;
    of_namespace = config_init_reads pod_namespace c empty;
    of_secret = config_init_reads api_key_secret c empty;
    of_endpoint = config_init_reads api_endpoint c empty;
    of_pprof = config_init_reads enable_pprof c empty;
    of_no_cache = config_init_reads dynamic_watch_no_cache c empty;
    of_gc = config_init_reads force_gc_after_initial_list c empty;
    of_free = config_init_reads force_gc_after_initial_list_free_os_memory c empty;
  }

  agentconfig_init_reads :
      (k : Setting) (c : C)
      → ((j : String) → default_of j c ≡ none)
      → default_of (name_of consts k) (agentconfig_init ror_config consts c)
        ≡ last_value k agentconfig_defaults none
  unfolding agentconfig_init
  agentconfig_init_reads k c empty =
      laws.keeps (name_of consts k) _
      ∙ default_of-set_defaults k agentconfig_defaults c
      ∙ ap (last_value k agentconfig_defaults) (empty (name_of consts k))

  agentconfig_init-HasDefaults :
      (c : C)
      → ((j : String) → default_of j c ≡ none)
      → HasDefaults ror_config consts environment "ClusterAgent"
          (λ k. default_of (name_of consts k) (agentconfig_init ror_config consts c))
  agentconfig_init-HasDefaults c empty = record {
    of_role = agentconfig_init_reads role c empty;
    of_namespace = agentconfig_init_reads pod_namespace c empty;
    of_secret = agentconfig_init_reads api_key_secret c empty;
    of_endpoint = agentconfig_init_reads api_endpoint c empty;
    of_pprof = agentconfig_init_reads enable_pprof c empty;
    of_no_cache = agentconfig_init_reads dynamic_watch_no_cache c empty;
    of_gc = agentconfig_init_reads force_gc_after_initial_list c empty;
    of_free = agentconfig_init_reads force_gc_after_initial_list_free_os_memory c empty;
  }

  pub initial-HasDefaults :
      (v : Version) (c : C)
      → ((j : String) → default_of j c ≡ none)
      → HasDefaults ror_config consts environment
          (role_text v)
          (λ k. default_of (name_of consts k) (initial ror_config consts environment v c))
  initial-HasDefaults v1 c empty = config_init-HasDefaults c empty
  initial-HasDefaults v2 c empty = agentconfig_init-HasDefaults c empty

  pub initial_reads :
      (v : Version) (c : C) → reads (initial ror_config consts environment v c) ≡ true
  unfolding config_init agentconfig_init
  initial_reads v1 c = laws.starts_to_read _
  initial_reads v2 c = laws.starts_to_read _
