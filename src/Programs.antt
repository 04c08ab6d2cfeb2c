-- ===== src/Programs.antt =====
-- v2/cmd/agent/main.go: the client, the cache, the cluster handler, the watchers, the jobs and the health
-- server, in this order, with v2/internal/scheduler/setup.go and
-- common/pkg/services/healthservice/healthserver.go. A fatal error ends the program, and is a panic here.
pub mod Order
pub mod First
pub mod Options
pub mod Entry
use ror_agent.Prelude.{
  String, Bool, List, Option, none, some, ForeignError, Outcome, ok, err, panic, ◌>>=◌, ◌>>◌, ◌⊎◌,
  [], ◌≡◌, refl,
}
use ror_agent.WorkQueue.{OwnerReference}
use ror_agent.AgentClient
use ror_agent.AgentClient.{Agent, Api, Config}
use ror_agent.AgentClient.Startup.{new_ror_agent_client}
use ror_agent.ClusterHandler.Update.{
  AgentView, Registry, Moment, ClusterState, update_cluster_resource,
}
use ror_agent.DynamicClient.{must_start}

-- What the program starts with beside the API: the cache of ror/pkg by its error, the clients of the
-- watchers by theirs, and the discovery of a schema.
pub record Setting (S W : Type 0) : Type 0 where
  pub new_cache : W → Option ForeignError × W
  pub dynamic_client : Option ForeignError
  pub discovery_client : Option ForeignError
  pub is_enabled : S → ForeignError ⊎ Bool
  pub schemas : List S
  -- the errors of gocron and of the health server
  pub node_exporter_job : Option ForeignError
  pub health_server : Option ForeignError

-- The error of a call that must succeed is fatal.
abbrev pub fatal : String → Option ForeignError → Outcome (Unit {0})
fatal text none = ok tt
fatal text (some e) = panic text

pub fatal-eq-ok :
    (text : String) (e : Option ForeignError) (u : Unit {0}) → fatal text e ≡ ok u → e ≡ none
fatal-eq-ok text none u h = refl
fatal-eq-ok text (some e) u h = cc

-- `healthservice.MustStart`, by the error of the server
unfoldable pub health_must_start : Option ForeignError → Outcome (Unit {0})
health_must_start failed = fatal "could not start health server" failed

-- `SetUpScheduler`, by the error of `Do`, which is only logged
unfoldable pub set_up_scheduler : Option ForeignError → Outcome (Unit {0})
set_up_scheduler failed = ok tt

abbrev pub subject_of : Option String → String
subject_of none = ""
subject_of (some s) = s

-- The error of a call that must succeed is fatal.
abbrev pub must :
    {W : Type 0} → String → Outcome (Unit {0}) × Agent W → Outcome (Unit {0}) × Agent W
must text (ok u, a) = (ok u, a)
must text (err e, a) = (panic text, a)
must text (panic m, a) = (panic m, a)

-- `MustInitNewRorAgentClient`
unfoldable pub must_init_new_ror_agent_client :
    {W : Type 0} → Api W → Config → Agent W → Outcome (Unit {0}) × Agent W
must_init_new_ror_agent_client api config a =
    must "failed to initialize RorAgentClient" (new_ror_agent_client api config a)

module _ {Q S W : Type 0} (api : Api W) (config : Config) (registry : Registry Q W)
    (view : AgentView Q) (now : Moment) (setting : Setting S W) where
  -- What the cluster handler finds: the owner that NewRorAgentClient set, and the uid of the configuration.
  abbrev pub entry : Agent W → ClusterState W
  entry a = record {
    client_owner = record { scope = registry.scope_cluster; subject = subject_of a.owner };
    config_cluster_uid = a.config_cluster_uid;
    world = a.world;
  }

  unfoldable pub after_start :
      Outcome (Unit {0}) × ClusterState W → Outcome (List S) × ClusterState W
  unfolding set_up_scheduler health_must_start
  after_start (ok u, s) = (
    must_start setting.is_enabled setting.dynamic_client setting.discovery_client [] setting.schemas
        >>= λ watchers.
            set_up_scheduler setting.node_exporter_job
            >> health_must_start setting.health_server
            >> ok watchers,
    s,
  )
  after_start (err e, s) = (panic "could not start cluster handler", s)
  after_start (panic m, s) = (panic m, s)

  unfoldable pub after_cache :
      Option ForeignError × W → ClusterState W → Outcome (List S) × ClusterState W
  unfolding after_start
  after_cache (some e, w) s = (panic "could not make the resource cache", record s { world = w })
  after_cache (none, w) s =
      after_start (update_cluster_resource registry view now (record s { world = w }))

  unfoldable pub after_client : Outcome (Unit {0}) × Agent W → Outcome (List S) × ClusterState W
  unfolding after_cache
  after_client (ok u, a) = after_cache (setting.new_cache a.world) (entry a)
  after_client (err e, a) = (err e, entry a)
  after_client (panic m, a) = (panic m, entry a)

  -- Up to the receive from the stop channel; it returns the schemas that are watched.
  unfoldable pub main : Agent W → Outcome (List S) × ClusterState W
  unfolding must_init_new_ror_agent_client after_client
  main a = after_client (must_init_new_ror_agent_client api config a)
