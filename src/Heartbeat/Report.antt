-- ===== src/Heartbeat/Report.antt =====
-- `GetHeartbeatReport` of internal/services/heartbeat.go.
pub mod Sums
use ror_agent.Prelude.{
  ℕ, String, ◌==◌, Bool, true, false, List, [], ◌∷◌, Option, none, some, Error, foreign,
  ForeignError, Outcome, ok, err, panic, ◌>>=◌, ◌⊎◌, inl, inr, length, add64, if◌then◌else◌,
}
use ror_agent.Ingress.Types.{Ingress}
use ror_agent.Tooling.{ToolingSource, get_nhn_tooling_metadata}
use ror_agent.NodeService.{NodeSource, get_nodes}
use ror_agent.Heartbeat.Nodes.{ControlPlane, NodePool, Metrics, no_metrics}
use ror_agent.Heartbeat.NodePools.{sort_nodes}
use ror_agent.Heartbeat.Sources.{
  Pod, get_ca_certificate_from_pod, get_kubernetes_server_version, IngressSource, get_ingresses,
  EndpointSource, get_control_plane_endpoint,
}

-- What the interregation report says of the cluster.
pub record Interregation : Type 0 where
  pub cluster_name : String
  pub workspace : String
  pub datacenter : String
  pub kubernetes_provider : String
  pub region : String
  pub country : String

-- All that the report is made of: the sources, the configuration and the version of the agent. A time
-- is a number, and the zero time 0.
pub record Env (W : Type 0) : Type 1 where
  pub clientset : Option ForeignError
  pub tooling : ToolingSource
  pub server_version : ForeignError ⊎ Option String
  pub nodes : NodeSource
  -- GetInterregationReport: its error, and the report, `none` if it is nil
  pub interregation : Option ForeignError × Option Interregation
  pub endpoint : EndpointSource
  pub pod : Pod
  pub ingresses : IngressSource W
  pub agent_version : String
  pub agent_sha : String
  pub kube_system_created : ForeignError ⊎ ℕ
  pub cluster_id : String
  pub cluster_uid : String
  pub new_uid : String
  pub egress_ip : String

-- apicontracts.NhnTooling
pub record ToolingVersion : Type 0 where
  pub version : String
  pub branch : String
  pub environment : String

-- apicontracts.Cluster
pub record Cluster : Type 0 where
  pub access_groups : List String
  pub environment : String
  pub cluster_id : String
  pub uid : String
  pub cluster_name : String
  pub ingresses : List Ingress
  pub created : ℕ
  pub control_plane_endpoint : String
  pub egress_ip : String
  pub control_plane : ControlPlane
  pub node_pools : List NodePool
  pub kubernetes_version : String
  pub tooling : ToolingVersion
  pub agent_version : String
  pub agent_sha : String
  pub metrics : Metrics
  pub interregation : Interregation
  pub kube_api_endpoint : String
  pub certificate : String

-- The loop that sums up the pools, in the fields of a `Metrics`.
unfoldable pub sum_pools : List NodePool → Metrics → Metrics
sum_pools [] m = m
sum_pools (p ∷ ps) m = sum_pools ps (record m {
  node_count = add64 m.node_count p.metrics.node_count;
  cpu = add64 m.cpu p.metrics.cpu;
  cpu_consumed = add64 m.cpu_consumed p.metrics.cpu_consumed;
  memory = add64 m.memory p.metrics.memory;
  memory_consumed = add64 m.memory_consumed p.metrics.memory_consumed;
})

unfoldable pub cluster_metrics : List NodePool → Metrics
unfolding sum_pools
cluster_metrics pools = record (sum_pools pools no_metrics) {
  node_pool_count = length pools;
  cluster_count = 1;
}

abbrev text_or_empty : Outcome String → String
text_or_empty (ok s) = s
text_or_empty _ = ""

abbrev time_or_zero : (ForeignError ⊎ ℕ) → ℕ
time_or_zero (inl e) = 0
time_or_zero (inr t) = t

-- Neither a control plane nor a pool yet.
abbrev pub nothing_sorted : ControlPlane × List NodePool
nothing_sorted = (record { nodes = []; metrics = no_metrics }, [])

module _ {W : Type 0} (env : Env W) where
  report_of : Interregation → ControlPlane × List NodePool → List Ingress → String → Cluster
  report_of interregation (plane, pools) ingresses certificate =
      let tooling = (get_nhn_tooling_metadata env.tooling).0 in
      record {
        access_groups = tooling.access_groups;
        environment = tooling.environment;
        cluster_id = env.cluster_id;
        uid = if env.cluster_uid == "" then env.new_uid else env.cluster_uid;
        cluster_name = interregation.cluster_name;
        ingresses = ingresses;
        created = time_or_zero env.kube_system_created;
        control_plane_endpoint = text_or_empty (get_control_plane_endpoint env.endpoint);
        egress_ip = env.egress_ip;
        control_plane = plane;
        node_pools = pools;
        kubernetes_version = get_kubernetes_server_version env.server_version;
        tooling = record {
          version = tooling.version;
          branch = tooling.branch;
          environment = tooling.environment;
        };
        agent_version = env.agent_version;
        agent_sha = env.agent_sha;
        metrics = cluster_metrics pools;
        interregation = interregation;
        kube_api_endpoint = text_or_empty (get_control_plane_endpoint env.endpoint);
        certificate = certificate;
      }

  abbrev with_ingresses :
      Interregation
      → ControlPlane × List NodePool
      → String × Bool
      → (List Ingress × Option Error) × W
      → Outcome ((Cluster × Bool) × W)
  with_ingresses interregation sorted (certificate, alerted) ((ingresses, e), w) =
      ok ((report_of interregation sorted ingresses certificate, alerted), w)

  -- The first read of the interregation report, whose error is ignored.
  abbrev interregated : Option ForeignError × Option Interregation → Outcome Interregation
  interregated (e, none) = panic "nil pointer dereference"
  interregated (e, some r) = ok r

  -- What follows the sorting of the nodes.
  abbrev finish_report : Bool → W → ControlPlane × List NodePool → Outcome ((Cluster × Bool) × W)
  finish_report alerted w sorted = interregated env.interregation >>= λ interregation.
      get_ingresses env.ingresses w
      >>= with_ingresses interregation sorted (get_ca_certificate_from_pod env.pod alerted)

  abbrev unless_failed :
      Option ForeignError → Outcome ((Cluster × Bool) × W) → Outcome ((Cluster × Bool) × W)
  unless_failed (some e) rest = err (foreign e)
  unless_failed none rest = rest

  -- The report and the new value of `caCertAlerted`, with the world that the ingresses leave.
  unfoldable pub get_heartbeat_report : Bool → W → Outcome ((Cluster × Bool) × W)
  unfolding report_of
  get_heartbeat_report alerted w =
      unless_failed env.clientset
        (sort_nodes (get_nodes env.nodes).0 nothing_sorted >>= finish_report alerted w)
