-- ===== src/Heartbeat/Nodes.antt =====
-- The types of the heartbeat's nodes: internal/kubernetes/k8smodels/k8s_models.go, and the structs of
-- `apicontracts` that internal/services/heartbeat.go fills. A time is a number of nanoseconds; an
-- `int64` is its bit pattern.
use ror_agent.Prelude.{ℕ, String, List, Assoc}

-- providermodels.ProviderType, a text that the program compares with two constants
pub data Provider : Type 0 where
  talos aks : Provider
  other_provider : String → Provider

-- apicontracts.NodeResources: allocated and consumed
pub record Resources : Type 0 where
  pub cpu : ℕ
  pub memory_bytes : ℕ
  pub cpu_milli_consumed : ℕ
  pub memory_bytes_consumed : ℕ

-- What the agent copies of a node's status.
pub record NodeInfo : Type 0 where
  pub os_image : String
  pub architecture : String
  pub container_runtime_version : String
  pub kernel_version : String
  pub kube_proxy_version : String
  pub kubelet_version : String
  pub operating_system : String

-- k8smodels.Node
pub record Node : Type 0 where
  pub name : String
  pub created : ℕ
  pub info : NodeInfo
  pub cluster_name : String
  pub workspace : String
  pub datacenter : String
  pub machine_name : String
  pub labels : Assoc String
  pub annotations : Assoc String
  pub resources : Resources
  pub provider : Provider

-- apicontracts.Metrics
pub record Metrics : Type 0 where
  pub node_count : ℕ
  pub node_pool_count : ℕ
  pub cpu : ℕ
  pub memory : ℕ
  pub cpu_consumed : ℕ
  pub memory_consumed : ℕ
  pub cluster_count : ℕ

-- apicontracts.Node
pub record ApiNode : Type 0 where
  pub name : String
  pub role : String
  pub created : ℕ
  pub info : NodeInfo
  pub machine_name : String
  pub metrics : Metrics

pub record ControlPlane : Type 0 where
  pub nodes : List ApiNode
  pub metrics : Metrics

pub record NodePool : Type 0 where
  pub name : String
  pub nodes : List ApiNode
  pub metrics : Metrics

abbrev pub no_metrics : Metrics
no_metrics = record {
  node_count = 0;
  node_pool_count = 0;
  cpu = 0;
  memory = 0;
  cpu_consumed = 0;
  memory_consumed = 0;
  cluster_count = 0;
}
