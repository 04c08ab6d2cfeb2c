-- ===== src/Programs/Options/Unset.antt =====
-- The start of both agents without an endpoint of the API.
use ror_agent.Prelude.{
  String, ◌==◌, ◌≡◌, refl, ap, sym, ◌∙◌, Bool, true, false, Option, none, some, Error, panic,
}
use ror_agent.Configuration.{
  RorConfig, ConfigConsts, Value, role, pod_namespace, api_key_secret, api_endpoint, name_of,
}
use ror_agent.AgentClient.{Config, Api, Agent, validate}
use ror_agent.AgentClient.Startup.{new_ror_agent_client}
use ror_agent.AgentClient.Defaults.{get_default_ror_agent_client_config}
use ror_agent.Programs.{must_init_new_ror_agent_client}
use ror_agent.Programs.Options.{string_of, Version, AreDistinct, StoreLaws, NotEmptied, initial}
use ror_agent.Programs.Options.Start.{get_default_ror_agent_client_config_lem}

module _ {W : Type 0} (api : Api W) where
  clash : true ≡ false → ⊥
  clash e = cc

  invalid_fatal :
      (config : Config) (a : Agent W) (r : Option Error)
      → validate config ≡ r
      → (r ≡ none → ⊥)
      → must_init_new_ror_agent_client api config a
        ≡ (panic "failed to initialize RorAgentClient", a)
  unfolding must_init_new_ror_agent_client new_ror_agent_client
  invalid_fatal config a none e n = elim (n refl) [ ]
  invalid_fatal config a (some r) e n = rw e

  module _ {C : Type 0} (ror_config : RorConfig C) (consts : ConfigConsts)
      (environment : String → Option String) (default_of : String → C → Option Value)
      (reads : C → Bool) where
    -- If the store of the settings keeps the defaults it is given and reads a setting from the
    -- environment or else its default, the names of the settings differ, nothing has a default
    -- before, the environment does not set the endpoint of the API, and it does not set the role,
    -- the namespace or the name of the secret to the empty text, then behind the Init of either
    -- agent MustInitNewRorAgentClient with the default configuration is fatal and leaves the
    -- agent and the world as they were.
    pub unset_endpoint_fatal :
        (v : Version) (c : C) (a : Agent W)
        → StoreLaws ror_config consts environment default_of reads
        → AreDistinct consts
        → ((j : String) → default_of j c ≡ none)
        → NotEmptied ror_config consts environment role
        → NotEmptied ror_config consts environment pod_namespace
        → NotEmptied ror_config consts environment api_key_secret
        → environment (name_of consts api_endpoint) ≡ none
        → let ((config, key), c') =
            get_default_ror_agent_client_config ror_config consts
              (initial ror_config consts environment v c) in
          must_init_new_ror_agent_client api config a
          ≡ (panic "failed to initialize RorAgentClient", a)
    unset_endpoint_fatal v c a laws different empty r n s unset = invalid_fatal _ a _ refl (λ valid.
        clash (
          ap (λ e. string_of e none == "") (sym unset)
          ∙ (get_default_ror_agent_client_config_lem ror_config consts environment default_of reads
                v c laws different empty r n s).0.0
              valid))
