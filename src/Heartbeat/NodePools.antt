-- ===== src/Heartbeat/NodePools.antt =====
-- `appendNodeToControlePlane` and `appendNodeToNodePools` of internal/services/heartbeat.go, and the
-- loop of `GetHeartbeatReport` that calls them.
pub mod Totals
pub mod Names
use ror_agent.Prelude.{
  ℕ, ◌+◌, String, Bool, true, false, ◌==◌, List, [], ◌∷◌, ◌++◌, Option, none, some, Outcome, ok,
  err, panic, ◌>>=◌, lookup, text_at, split, length, set, get_elem?, add64, if◌then◌else◌,
}
use ror_agent.Heartbeat.Nodes.{
  Node, Provider, talos, aks, other_provider, ApiNode, ControlPlane, NodePool, Metrics, no_metrics,
}

unfoldable pub api_node : String → Node → ApiNode
api_node role node = record {
  name = node.name;
  role = role;
  created = node.created;
  info = node.info;
  machine_name = node.machine_name;
  metrics = record no_metrics {
    cpu = node.resources.cpu;
    memory = node.resources.memory_bytes;
    cpu_consumed = node.resources.cpu_milli_consumed;
    memory_consumed = node.resources.memory_bytes_consumed;
  };
}

-- The metrics of a node added to those of its group, which now counts `n` nodes.
abbrev pub add_metrics : ℕ → Metrics → Metrics → Metrics
add_metrics n group node = record group {
  node_count = n;
  cpu = add64 group.cpu node.cpu;
  memory = add64 group.memory node.memory;
  cpu_consumed = add64 group.cpu_consumed node.cpu_consumed;
  memory_consumed = add64 group.memory_consumed node.memory_consumed;
}

unfoldable pub append_node_to_control_plane : Node → ControlPlane → ControlPlane
unfolding api_node
append_node_to_control_plane node plane =
    let n = api_node "control-plane" node in
    let nodes = plane.nodes ++ n ∷ [] in
    record { nodes = nodes; metrics = add_metrics (length nodes) plane.metrics n.metrics }

abbrev part : Option String → Outcome String
part none = panic "index out of range"
part (some s) = ok s

abbrev pub worker_name_of : Provider → Node → Outcome String
worker_name_of talos node = ok (text_at "ror.io/node-pool" node.annotations)
worker_name_of aks node = part (get_elem? (split b'-' node.machine_name) 1)
worker_name_of (other_provider p) node =
    part (get_elem? (split b'-' node.machine_name) (length (split b'-' node.cluster_name)))

unfoldable pub worker_name : Node → Outcome String
worker_name node = worker_name_of node.provider node

-- The loop that looks for the pool: the last one of the name, from index `i`.
unfoldable pub find_pool :
    String → ℕ → List NodePool → Option (ℕ × NodePool) → Option (ℕ × NodePool)
find_pool name i [] found = found
find_pool name i (p ∷ ps) found =
    find_pool name (i + 1) ps (if p.name == name then some (i, p) else found)

abbrev pub new_pool : String → ApiNode → NodePool
new_pool name n = record {
  name = name;
  nodes = n ∷ [];
  metrics = record n.metrics { node_count = 1; node_pool_count = 0; cluster_count = 0 };
}

abbrev pub grown : NodePool → ApiNode → NodePool
grown pool n =
    let nodes = pool.nodes ++ n ∷ [] in
    record pool { nodes = nodes; metrics = add_metrics (length nodes) pool.metrics n.metrics }

abbrev pub place : Option (ℕ × NodePool) → String → ApiNode → List NodePool → List NodePool
place none name n pools = pools ++ new_pool name n ∷ []
place (some (i, pool)) name n pools = set pools i (grown pool n)

-- The pools with a node added to the pool of the name.
unfoldable pub add_to_pool : String → ApiNode → List NodePool → List NodePool
unfolding find_pool
add_to_pool name n pools = place (find_pool name 0 pools none) name n pools

unfoldable pub append_node_to_node_pools : Node → List NodePool → Outcome (List NodePool)
unfolding api_node worker_name add_to_pool
append_node_to_node_pools node pools =
    worker_name node >>= λ name. ok (add_to_pool name (api_node "worker" node) pools)

abbrev pub has_label : Option String → Bool
has_label none = false
has_label (some v) = true

unfoldable pub is_control_plane : Node → Bool
is_control_plane node = has_label (lookup "node-role.kubernetes.io/control-plane" node.labels)

-- The loop over the nodes.
unfoldable pub sort_nodes :
    List Node → ControlPlane × List NodePool → Outcome (ControlPlane × List NodePool)
unfolding is_control_plane append_node_to_control_plane append_node_to_node_pools
sort_nodes [] s = ok s
sort_nodes (node ∷ nodes) (plane, pools) =
    let on_plane = sort_nodes nodes (append_node_to_control_plane node plane, pools) in
    let on_pool =
      append_node_to_node_pools node pools >>= λ pools'. sort_nodes nodes (plane, pools') in
    if is_control_plane node then on_plane else on_pool
