-- ===== src/Lib.antt =====
-- The ROR agent: what it reads of a Kubernetes cluster, and what it sends to the ROR API.
--
-- The repository holds two agents, cmd/agent (v1) and v2/cmd/agent, that share common/pkg. An agent
-- starts as a client of the API, watches the resources of the cluster, sends each change with its
-- hash, queues what could not be sent, and reports on the cluster at an interval (the heartbeat). The
-- parts and the files that model them:
--
--   * Prelude, with Tests, Lists, Texts, Maps, Shuffles and Outcomes: Boolean tests, lists, the functions
--     of Go's `strings`, maps as association lists, orders of a map, and errors and panics as values
--     (`Outcome`).
--   * WorkQueue: internal/services/resourceupdate/workqueue.go. The queue is a list of items; `enqueue`
--     is `Add`, `delete_by_uid` is `DeleteByUid`.
--   * Resource: internal/models/rorResources. `new_from_unstructured` takes the last applied
--     configuration off an object, hashes the rest without its volatile metadata, and casts it to a
--     payload model (Resource/Kinds is the dispatch).
--   * ResourceCache: internal/services/resourceupdate/resourcecache.go and resourceupdate.go. `System` is
--     the live cache, the copy of it that the scheduled job holds, and the API; `step` is one event. Mirror
--     compares what the API holds of a uid with what a history tells of it, also after a cleanup. Races
--     has the calls of `Add` in several goroutines, which share the queue as a slice (Slices).
--   * Ingress: internal/utils/ingress.go. Health is `GetIngressHealth`, Service is `GetIngressService`,
--     Details is `GetIngressDetails` with its cache of services.
--   * NodeService: internal/kubernetes/nodeservice/node_service.go.
--   * Heartbeat: internal/services/heartbeat.go. NodePools sorts nodes into the control plane and pools,
--     Sources collects the certificate, the version, the ingresses and the endpoint, and Report is
--     `GetHeartbeatReport`. It uses NodeService, Ingress, AccessGroups and Tooling.
--   * AccessGroups: the access groups of internal/services/heartbeat.go.
--   * Tooling: internal/services/nhntooling.go; Argo has the structs of internal/models/argomodels.
--   * AgentClient: common/pkg/clients/clusteragentclient/clusteragentclient.go. Startup is the setup of
--     the identifier and the key, whose state is `Agent`; Egress is the egress address, and Defaults the
--     default configuration with the getters.
--   * Watcher: the list and watch loop of
--     common/pkg/controllers/dynamiccontroller/dynamicController.go; Controller is the choice between it
--     and an informer.
--   * ClusterHandler: v2/internal/handlers/clusterhandler/clusterhandler.go. Update is
--     `updateClusterResource` over a `ClusterState` (the owner of the client, the uid of the
--     configuration and the world), Update/Ticks is `Start`; Nodes, Urls and Environment make the parts
--     of the status.
--   * Handlers: what a change in the cluster makes the agent do. Direct is
--     internal/handlers/dynamichandler, which sends at once by ResourceCache; Cached is
--     v2/internal/handlers/dynamicclienthandler, over the cache of ror/pkg; Delivery makes the calls of
--     Watcher on Direct, and Spared, Mirrored and Listed follow them into ResourceCache; HandedOn makes
--     them on Cached.
--   * DynamicClient: common/pkg/clients/dynamicclient/dynamicclient.go. Shutdown is the step relation of
--     its goroutines, the channels of the client and the last receive of cmd/agent/main.go.
--   * NodeExporter: v2/internal/scheduler/nodeexporter.go. Prometheus is `queryPrometheus`.
--   * Scheduler: internal/scheduler/heartbeat.go, which sends the report of Heartbeat, and metrics.go.
--   * Operator: internal/kubernetes/operator/initialize and internal/services/initial_service.go.
--   * Configuration: internal/config/variables.go and v2/internal/agentconfig/variables.go, over the store
--     of the settings of ror/pkg.
--   * Programs: v2/cmd/agent/main.go, which puts AgentClient, ClusterHandler and DynamicClient together;
--     First is cmd/agent/main.go, which puts AgentClient, ResourceCache, Handlers and DynamicClient
--     together. Entry has both from their first line, with the settings, the profiling server and the
--     egress address; Options is what both read of their configuration.
--   * Tests: runs on small inputs.
--
-- Calls of Kubernetes, of the ROR API and of other libraries are fields of records (`Libraries`,
-- `Services`, `Client`, `NodeSource`, `IngressSource`, `EndpointSource`, `Pod`, `ToolingSource`, `Api`,
-- `Registry`, `AgentView`, `CacheServices`, `Web`, `Decoding`, `RorConfig`); where their effects matter they act on a
-- world `W`. A loop over a map takes its order as a parameter. Logging is left out. An `int64` is its bit
-- pattern, a number below 2 ^ 64, and its sums wrap; quantities are not negative. `sprint` has ten rounds,
-- as many as an `int32` has digits. No other function has fuel: the loops of Watcher read their input
-- from a list and wait where it ends. The source runs handlers and jobs from several goroutines without
-- a lock; the model runs one call after another, but for DynamicClient/Shutdown and ResourceCache/Races,
-- whose steps interleave.
--
-- Not modelled: the informers, which run in client-go; what gocron and the servers for health and profiling
-- do once they are started; the structs of internal/models/operatormodels, which the agents do not
-- use; the generator, which is no part of them; and what only prints or logs.
pub mod Prelude
pub mod WorkQueue
pub mod Resource
pub mod ResourceCache
pub mod Ingress
pub mod Heartbeat
pub mod NodeService
pub mod AccessGroups
pub mod Tooling
pub mod Watcher
pub mod AgentClient
pub mod ClusterHandler
pub mod Handlers
pub mod DynamicClient
pub mod NodeExporter
pub mod Scheduler
pub mod Operator
pub mod Programs
pub mod Configuration
mod Tests
