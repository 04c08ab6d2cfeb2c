-- ===== src/NodeService.antt =====
-- internal/kubernetes/nodeservice/node_service.go: the nodes of the cluster, with their metrics.
pub mod Machines
pub mod Named
use ror_agent.Prelude.{
  ℕ, ◌+◌, ◌/◌, String, ◌==◌, List, [], ◌∷◌, ◌++◌, Assoc, text_at, Option, none, some, Error,
  foreign, ForeignError, ◌⊎◌, inl, inr, eqb, if◌then◌else◌,
}
use ror_agent.Heartbeat.Nodes.{Node, NodeInfo, Provider, Resources}

-- A `resource.Quantity`, by what the program reads of it: AsInt64, the digits of AsDec (which are not
-- negative), MilliValue and Value.
pub record Quantity : Type 0 where
  pub as_int64 : ℕ
  pub unscaled : ℕ
  pub milli_value : ℕ
  pub value : ℕ

-- A node as the interregator returns it, and its usage as the metrics client does.
pub record K8sNode : Type 0 where
  pub name : String
  pub creation : ℕ
  pub labels : Assoc String
  pub annotations : Assoc String
  pub info : NodeInfo
  pub allocatable_cpu : Quantity
  pub allocatable_memory : Quantity

pub record Usage : Type 0 where
  pub cpu : Quantity
  pub memory : Quantity

-- math.Round(float64(n) / 1000): halves round up.
abbrev pub round_thousandth : ℕ → ℕ
round_thousandth n = (n + 500) / 1000

unfoldable pub allocated_cpu : Quantity → ℕ
allocated_cpu q = if eqb q.as_int64 0 then round_thousandth q.unscaled else q.as_int64

abbrev pub no_resources : Resources
no_resources = record {
  cpu = 0;
  memory_bytes = 0;
  cpu_milli_consumed = 0;
  memory_bytes_consumed = 0;
}

unfoldable pub resources_of : K8sNode → (ForeignError ⊎ Usage) → Resources
unfolding allocated_cpu
resources_of node (inl e) = no_resources
resources_of node (inr usage) = record {
  cpu = allocated_cpu node.allocatable_cpu;
  memory_bytes = node.allocatable_memory.value;
  cpu_milli_consumed = usage.cpu.milli_value;
  memory_bytes_consumed = usage.memory.as_int64;
}

unfoldable pub machine_name : K8sNode → String
machine_name node =
    let host = text_at "kubernetes.io/hostname" node.labels in
    if host == "" then node.name else host

unfoldable pub node_of : Provider → K8sNode → (ForeignError ⊎ Usage) → Node
unfolding resources_of machine_name
node_of provider node usage = record {
  name = node.name;
  created = node.creation;
  info = node.info;
  cluster_name = "";
  workspace = "";
  datacenter = "";
  machine_name = machine_name node;
  labels = node.labels;
  annotations = node.annotations;
  resources = resources_of node usage;
  provider = provider;
}

-- What `GetNodes` asks: the metrics client and its answer for a node, the machine provider and the
-- nodes.
pub record NodeSource : Type 0 where
  pub metrics_client : Option ForeignError
  pub node_metrics : String → ForeignError ⊎ Usage
  pub machine_provider : Provider
  pub nodes : List K8sNode

-- The loop of `GetNodes`.
unfoldable pub add_nodes : NodeSource → List K8sNode → List Node → List Node
unfolding node_of
add_nodes source [] out = out
add_nodes source (node ∷ rest) out =
    add_nodes source rest
      (out ++ node_of source.machine_provider node (source.node_metrics node.name) ∷ [])

abbrev unless_failed : Option ForeignError → List Node → List Node × Option Error
unless_failed (some e) nodes = ([], some (foreign e))
unless_failed none nodes = (nodes, none)

unfoldable pub get_nodes : NodeSource → List Node × Option Error
unfolding add_nodes
get_nodes source = unless_failed source.metrics_client (add_nodes source source.nodes [])
