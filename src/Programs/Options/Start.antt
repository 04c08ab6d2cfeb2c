-- ===== src/Programs/Options/Start.antt =====
-- What both agents read of their configuration at their start.
use ror_agent.Prelude.{
  eqb, String, ◌==◌, ◌≡◌, ◌↔◌, refl, ap, ◌∙◌, Bool, true, false, [], ◌∷◌, Option, none, some, Error,
  ForeignError, message, if◌then◌else◌,
}
use ror_agent.Configuration.{
  RorConfig, ConfigConsts, Setting, role, pod_namespace, api_key_secret, api_key, api_endpoint,
  enable_pprof, dynamic_watch_no_cache, force_gc_after_initial_list,
  force_gc_after_initial_list_free_os_memory, name_of, Value, text, flag, may_start_pprof,
}
use ror_agent.AgentClient.{validate, unknown_api_key}
use ror_agent.AgentClient.Defaults.{get_default_ror_agent_client_config}
use ror_agent.Watcher.Controller.{
  gc, run, no_cache_watcher, new_dynamic_controller, maybe_force_gc_after_initial_list,
}
use ror_agent.Programs.Options.{
  string_of, bool_of, Version, v1, v2, role_text, code, AreDistinct, StoreLaws, HasDefaults,
  NotEmptied, initial,
}
use ror_agent.Watcher.{no_cache_initial_list}
use ror_agent.Watcher.Calls.{Pages, answers, no_cache_initial_list_lem}
use ror_agent.Watcher.Controller.Collections.{collections, collections-reads}
use ror_agent.Programs.Options.Defaults.{initial-HasDefaults, initial_reads}

module _ {C : Type 0} (ror_config : RorConfig C) (consts : ConfigConsts)
    (environment : String → Option String) (default_of : String → C → Option Value)
    (reads : C → Bool) (laws : StoreLaws ror_config consts environment default_of reads)
    (different : AreDistinct consts) where
  open ror_config use {init_config, set_default, automatic_env, get_string, get_bool}

  -- The text of a setting after the default of the key is set.
  behind_api_key :
      (k : Setting) (c : C) (v : Option Value)
      → reads c ≡ true
      → default_of (name_of consts k) c ≡ v
      → get_string
          (name_of consts k)
          (set_default (name_of consts api_key) (text unknown_api_key) c)
        ≡ string_of
            (environment (name_of consts k))
            (if eqb (code api_key) (code k) then some (text unknown_api_key) else v)
  behind_api_key k c v on e =
      laws.string (name_of consts k) _ (laws.set_reads (name_of consts api_key) _ c ∙ on)
      ∙ ap (string_of (environment (name_of consts k))) (
          laws.sets (name_of consts api_key) (name_of consts k) (text unknown_api_key) c
          ∙ ap (λ b. if b then some (text unknown_api_key) else default_of (name_of consts k) c)
              (different api_key k)
          ∙ ap (λ d. if eqb (code api_key) (code k) then some (text unknown_api_key) else d) e)

  not_empty :
      (k : Setting) (t : String)
      → NotEmptied ror_config consts environment k
      → (t == "") ≡ false
      → (string_of (environment (name_of consts k)) (some (text t)) == "") ≡ false
  not_empty k t given h = go (environment (name_of consts k)) refl
    where
      go :
          (e : Option String)
          → environment (name_of consts k) ≡ e
          → (string_of e (some (text t)) == "") ≡ false
      go none q = h
      go (some e) q = given e q

  abbrev pub endpoint : String
  endpoint = string_of (environment (name_of consts api_endpoint)) none

  only_none : (e : Error) (b : Bool) → ((if b then some e else none) ≡ none ↔ b ≡ false)
  only_none e true = ((λ h. cc), (λ h. cc))
  only_none e false = ((λ h. refl), (λ h. refl))

  default_config :
      (role_name : String) (c : C)
      → (role_name == "") ≡ false
      → reads c ≡ true
      → HasDefaults ror_config consts environment role_name (λ k. default_of (name_of consts k) c)
      → NotEmptied ror_config consts environment role
      → NotEmptied ror_config consts environment pod_namespace
      → NotEmptied ror_config consts environment api_key_secret
      → let ((config, key), c') = get_default_ror_agent_client_config ror_config consts c in
        (validate config ≡ none ↔ (endpoint == "") ≡ false)
        × (key ≡ string_of (environment (name_of consts api_key)) (some (text unknown_api_key)))
  unfolding get_default_ror_agent_client_config validate
  default_config role_name c filled on d r n s =
      rw
        (
          behind_api_key role c _ on d.of_role,
          behind_api_key pod_namespace c _ on d.of_namespace,
          behind_api_key api_key_secret c _ on d.of_secret,
          behind_api_key api_endpoint c _ on d.of_endpoint,
          behind_api_key api_key c _ on refl,
        )
        (rw
          (
            not_empty role role_name r filled,
            not_empty pod_namespace "ror" n refl,
            not_empty api_key_secret "ror-apikey" s refl,
          )
          (only_none endpoint_error (endpoint == ""), refl))
    where
      endpoint_error : Error
      endpoint_error = message "apiEndpoint cannot be empty"

module _ {C : Type 0} (ror_config : RorConfig C) (consts : ConfigConsts)
    (environment : String → Option String) (default_of : String → C → Option Value)
    (reads : C → Bool) where
  open ror_config use {get_bool}

  role_text-filled : (v : Version) → (role_text v == "") ≡ false
  role_text-filled v1 = refl
  role_text-filled v2 = refl

  -- If the store of the settings keeps the defaults it is given and reads a setting from the
  -- environment or else its default, the names of the settings differ, nothing has a default
  -- before, and the environment does not set the role, the namespace or the name of the secret to
  -- the empty text, then behind the Init of either agent the default configuration of the client
  -- is valid exactly if the environment sets the endpoint of the API to a text that is not empty,
  -- and its key is that of the environment, or else the text for an unknown key.
  pub get_default_ror_agent_client_config_lem :
      (v : Version) (c : C)
      → StoreLaws ror_config consts environment default_of reads
      → AreDistinct consts
      → ((j : String) → default_of j c ≡ none)
      → NotEmptied ror_config consts environment role
      → NotEmptied ror_config consts environment pod_namespace
      → NotEmptied ror_config consts environment api_key_secret
      → let ((config, key), c') =
          get_default_ror_agent_client_config ror_config consts
            (initial ror_config consts environment v c) in
        (validate config ≡ none
          ↔ (string_of (environment (name_of consts api_endpoint)) none == "") ≡ false)
        × (key ≡ string_of (environment (name_of consts api_key)) (some (text unknown_api_key)))
  get_default_ror_agent_client_config_lem v c laws different empty r n s =
      default_config ror_config consts environment default_of reads laws different (role_text v)
        (initial ror_config consts environment v c) (role_text-filled v)
        (initial_reads ror_config consts environment default_of reads laws different v c)
        (initial-HasDefaults ror_config consts environment default_of reads laws different v c
          empty)
        r n s

  -- If the store of the settings keeps the defaults it is given and reads a setting from the
  -- environment or else its default, the names of the settings differ, nothing has a default
  -- before, and the environment sets none of the four options, then behind the Init of either
  -- agent a controller runs the watcher without a cache, a first list of which every page is read
  -- makes exactly one garbage collection and does not free memory of the operating system, and no
  -- profiling server starts.
  pub initial_options :
      {A : Type 0} (version : A → String) (ps : Pages A)
      → (v : Version) (c : C) (failed : Option ForeignError)
      → StoreLaws ror_config consts environment default_of reads
      → AreDistinct consts
      → ((j : String) → default_of j c ≡ none)
      → environment (name_of consts dynamic_watch_no_cache) ≡ none
      → environment (name_of consts force_gc_after_initial_list) ≡ none
      → environment (name_of consts force_gc_after_initial_list_free_os_memory) ≡ none
      → environment (name_of consts enable_pprof) ≡ none
      → (run (
            new_dynamic_controller ror_config consts failed
              (initial ror_config consts environment v c))
          ≡ no_cache_watcher)
        × (collections ror_config consts
              (initial ror_config consts environment v c)
              (no_cache_initial_list version
                (answers ps)
                ""
                (record { backoff = 1; calls = [] })).1.calls
            ≡ gc ∷ [])
        × (may_start_pprof ror_config consts (initial ror_config consts environment v c) ≡ false)
  unfolding run new_dynamic_controller may_start_pprof
  initial_options version ps v c failed laws different empty e0 e1 e2 e3 = (
    rw (option dynamic_watch_no_cache true e0 d.of_no_cache) refl,
    ap (λ r. collections ror_config consts (initial ror_config consts environment v c) r.1.calls)
          (no_cache_initial_list_lem version ps "" (record { backoff = 1; calls = [] }))
        ∙ collections-reads ror_config consts (initial ror_config consts environment v c) "" ps
        ∙ collected,
    option enable_pprof false e3 d.of_pprof,
  )
    where
      d :
          HasDefaults ror_config consts environment
            (role_text v)
            (λ k. default_of (name_of consts k) (initial ror_config consts environment v c))
      d =
          initial-HasDefaults ror_config consts environment default_of reads laws different v c
            empty

      option :
          (k : Setting) (b : Bool)
          → environment (name_of consts k) ≡ none
          → default_of (name_of consts k) (initial ror_config consts environment v c)
            ≡ some (flag b)
          → get_bool (name_of consts k) (initial ror_config consts environment v c) ≡ b
      option k b e h =
          laws.bool (name_of consts k) _
            (initial_reads ror_config consts environment default_of reads laws different v c) e
          ∙ ap bool_of h

      unset :
          (k : Setting)
          → environment (name_of consts k) ≡ none
          → default_of (name_of consts k) (initial ror_config consts environment v c) ≡ none
          → get_bool (name_of consts k) (initial ror_config consts environment v c) ≡ false
      unset k e h =
          laws.bool (name_of consts k) _
            (initial_reads ror_config consts environment default_of reads laws different v c) e
          ∙ ap bool_of h

      collected :
          maybe_force_gc_after_initial_list ror_config consts
            (initial ror_config consts environment v c)
          ≡ gc ∷ []
      collected =
          unfold maybe_force_gc_after_initial_list in
          rw
            (
              option force_gc_after_initial_list true e1 d.of_gc,
              unset force_gc_after_initial_list_free_os_memory e2 d.of_free,
            )
            refl
