-- ===== src/Programs/First.antt =====
-- cmd/agent/main.go: the client, the resource cache, the watchers, the jobs and the health server, in
-- this order, with internal/scheduler/setup.go. A fatal error ends the program, and is a panic here.
pub mod Mirrored
use ror_agent.Prelude.{
  String, Bool, List, [], Option, none, some, ForeignError, Outcome, ok, err, panic, ◌>>=◌, ◌>>◌,
  ◌⊎◌, inl, inr,
}
use ror_agent.AgentClient.{Agent, Api, Config}
use ror_agent.ResourceCache.{Services, System, must_init}
use ror_agent.AgentClient.Startup.{new_ror_agent_client}
use ror_agent.DynamicClient.{must_start}
use ror_agent.Programs.{fatal, health_must_start, must_init_new_ror_agent_client}

-- What the program asks for beside the API: the hash list of the owner, the clients of the watchers by
-- their errors, the discovery of a schema, and the errors of gocron and of the health server.
pub record Setting (S W H : Type 0) : Type 0 where
  pub get_hash_list : W → (ForeignError ⊎ H) × W
  pub dynamic_client : Option ForeignError
  pub discovery_client : Option ForeignError
  pub is_enabled : S → ForeignError ⊎ Bool
  pub schemas : List S
  pub heartbeat_job : Option ForeignError
  pub health_server : Option ForeignError

-- `scheduler.MustStart`, by the error of `Do`
unfoldable pub scheduler_must_start : Option ForeignError → Outcome (Unit {0})
scheduler_must_start failed = fatal "Failed to setup heartbeat schedule" failed

module _ {P S W H : Type 0} (services : Services P W H) (api : Api W) (config : Config)
    (setting : Setting S W H) where
  -- What the cache calls, for the cluster that the client has written to the configuration.
  abbrev pub services_of : Agent W → Services P W H
  services_of a = record services { cluster_id = a.config_cluster_id }

  -- The program waits on the stop channel.
  pub record Waiting : Type 0 where
    pub client : Agent W
    pub system : System (services_of client)
    pub watchers : List S

  abbrev pub with_hash_list :
      (a : Agent W) → (ForeignError ⊎ H) × W → Outcome (System (services_of a))
  with_hash_list a (inl e, w) = panic "could not get hashlist for clusterid"
  with_hash_list a (inr h, w) = ok (must_init (services_of a) h w)

  abbrev pub new_client : Outcome (Unit {0}) × Agent W → Outcome (Agent W)
  new_client (ok u, a) = ok a
  new_client (err e, a) = panic "failed to initialize cluster agent client for resource cache"
  new_client (panic m, a) = panic m

  -- The client of the cache: the one it is given, or one that it makes of the agent as it is.
  unfoldable pub cache_client : Option (Agent W) → Agent W → Outcome (Agent W)
  cache_client none a = new_client (new_ror_agent_client api config a)
  cache_client (some client) a = ok client

  -- `ResourceCache.MustInit` on its client
  unfoldable pub cache_must_init : (a : Agent W) → Outcome (System (services_of a))
  cache_must_init a = with_hash_list a (setting.get_hash_list a.world)

  -- What follows the client.
  unfoldable pub start : Agent W → Outcome Waiting
  unfolding cache_client cache_must_init scheduler_must_start health_must_start
  start a = cache_client (some a) a >>= λ client. cache_must_init client >>= λ s.
      must_start setting.is_enabled setting.dynamic_client setting.discovery_client []
        setting.schemas
      >>= λ schemas.
          scheduler_must_start setting.heartbeat_job
          >> health_must_start setting.health_server
          >> ok (record { client = client; system = s; watchers = schemas })

  unfoldable pub after_client : Outcome (Unit {0}) × Agent W → Outcome Waiting
  unfolding start
  after_client (ok u, a) = start a
  after_client (err e, a) = err e
  after_client (panic m, a) = panic m

  -- Up to the receive from the stop channel.
  unfoldable pub main : Agent W → Outcome Waiting
  unfolding must_init_new_ror_agent_client after_client
  main a = after_client (must_init_new_ror_agent_client api config a)
