-- ===== src/Programs/Entry.antt =====
-- `main` of cmd/agent/main.go and of v2/cmd/agent/main.go from its first line: the settings, the server for
-- profiling and, in version 1, the egress address come before the client, which gets the default configuration.
use ror_agent.Prelude.{String, Bool, List, Option, ForeignError, Outcome, ◌⊎◌}
use ror_agent.Configuration.{
  RorConfig, ConfigConsts, config_init, agentconfig_init, may_start_pprof,
}
use ror_agent.ResourceCache.{Services}
use ror_agent.AgentClient.{Agent, Api, Config}
use ror_agent.AgentClient.Defaults.{get_default_ror_agent_client_config, unset_agent}
use ror_agent.AgentClient.Egress.{Response}
use ror_agent.Operator.EgressIp.{get_egress_ip}
use ror_agent.ClusterHandler.Update.{AgentView, Registry, Moment, ClusterState}
use ror_agent.Programs
use ror_agent.Programs.First

-- A program as it waits, or as it failed: whether the server for profiling was started, and the rest.
pub record Run (R : Type 0) : Type 0 where
  pub profiling : Bool
  pub rest : R

module _ {C W : Type 0} (ror_config : RorConfig C) (consts : ConfigConsts) (api : Api W) where
  -- The configuration that the client gets, and the key that it keeps beside it.
  abbrev pub defaults : C → Config × String
  defaults c = (get_default_ror_agent_client_config ror_config consts c).0

  module _ {P S H : Type 0} (get : String → W → (ForeignError ⊎ Response) × W)
      (lookup : Option ForeignError) (services : Services P W H)
      (setting : First.Setting S W H) where
    -- The goroutine that GetEgressIp starts, on the world as it is when it runs, beside the rest.
    pub record FirstRun (config : Config) : Type 0 where
      pub egress : W → String × W
      pub waiting : Outcome (First.Waiting services api config setting)

    -- `main` of version 1, where `ip` is the value of the variable EgressIp
    unfoldable pub first_program :
        (c : C) → String → Agent W → Run (FirstRun (defaults (config_init ror_config consts c)).0)
    first_program c ip a =
        let c' = config_init ror_config consts c in
        let (config, key) = defaults c' in
        record {
          profiling = may_start_pprof ror_config consts c';
          rest = record {
            egress = get_egress_ip get lookup ip;
            waiting =
                First.main services api config setting (unset_agent api ror_config consts key a);
          };
        }

  module _ {Q S : Type 0} (registry : Registry Q W) (view : AgentView Q) (now : Moment)
      (setting : Programs.Setting S W) where
    -- `main` of version 2
    unfoldable pub program : C → Agent W → Run (Outcome (List S) × ClusterState W)
    program c a =
        let c' = agentconfig_init ror_config consts c in
        let (config, key) = defaults c' in
        record {
          profiling = may_start_pprof ror_config consts c';
          rest =
              Programs.main api config registry view now setting
                (unset_agent api ror_config consts key a);
        }
