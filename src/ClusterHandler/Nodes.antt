-- ===== src/ClusterHandler/Nodes.antt =====
-- `getNodes` of v2/internal/handlers/clusterhandler/clusterhandler.go: the nodes of the cluster in the control
-- plane and in pools. A quantity is of any type `Q`.
pub mod Pools
use ror_agent.Prelude.{
  String, ◌==◌, Bool, true, false, List, [], ◌∷◌, ◌++◌, map, Assoc, lookup, insert, text_at, Option,
  none, some, ForeignError, ◌⊎◌, inl, inr, if◌then◌else◌,
}

-- A node as the interregator returns it; `capacity` is the map of its status.
pub record ClusterNode (Q : Type 0) : Type 0 where
  pub name : String
  pub capacity : Assoc Q
  pub architecture : String
  pub kubelet_version : String
  pub labels : Assoc String

-- nodeMetricsUsage
pub record NodeUsage (Q : Type 0) : Type 0 where
  pub cpu : Q
  pub memory : Q

-- The nodes, and the metrics client with its list; `zero_quantity` is the zero value.
pub record NodeQuery (Q : Type 0) : Type 0 where
  pub nodes : List (ClusterNode Q)
  pub metrics_client : Option ForeignError
  pub node_metrics : ForeignError ⊎ List (String × NodeUsage Q)
  pub zero_quantity : Q

-- rortypes.KubernetesClusterAgentStatusNodesNodepoolsNodes
pub record NodeInfo (Q : Type 0) : Type 0 where
  pub name : String
  pub cpu_capacity : Q
  pub cpu_used : Q
  pub memory_capacity : Q
  pub memory_used : Q
  pub architecture : String
  pub kubernetes_version : String

-- rortypes.KubernetesClusterAgentStatusNodes
pub record StatusNodes (Q : Type 0) : Type 0 where
  pub control_plane : List (NodeInfo Q)
  pub nodepools : List (String × List (NodeInfo Q))

abbrev has_label : Option String → Bool
has_label none = false
has_label (some v) = true

abbrev label_or : String → Option String → String
label_or zone none = zone
label_or zone (some pool) = pool

module _ {Q : Type 0} where
  abbrev quantity_at : Q → Option Q → Q
  quantity_at zero none = zero
  quantity_at zero (some q) = q

  -- The loop over the metrics: a later item of one name takes the place of an earlier.
  unfoldable pub add_metrics :
      List (String × NodeUsage Q) → Assoc (NodeUsage Q) → Assoc (NodeUsage Q)
  add_metrics [] m = m
  add_metrics ((name, usage) ∷ rest) m = add_metrics rest (insert name usage m)

  abbrev metrics_of : (ForeignError ⊎ List (String × NodeUsage Q)) → Assoc (NodeUsage Q)
  metrics_of (inl e) = []
  metrics_of (inr items) = add_metrics items []

  abbrev unless_failed : Option ForeignError → Assoc (NodeUsage Q) → Assoc (NodeUsage Q)
  unless_failed (some e) m = []
  unless_failed none m = m

  unfoldable pub get_node_metrics_map : NodeQuery Q → Assoc (NodeUsage Q)
  unfolding add_metrics
  get_node_metrics_map query = unless_failed query.metrics_client (metrics_of query.node_metrics)

  abbrev with_usage : Option (NodeUsage Q) → NodeInfo Q → NodeInfo Q
  with_usage none info = info
  with_usage (some u) info = record info { cpu_used = u.cpu; memory_used = u.memory }

  unfoldable pub node_info : Q → Assoc (NodeUsage Q) → ClusterNode Q → NodeInfo Q
  node_info zero metrics node = with_usage (lookup node.name metrics) (record {
    name = node.name;
    cpu_capacity = quantity_at zero (lookup "cpu" node.capacity);
    cpu_used = zero;
    memory_capacity = quantity_at zero (lookup "memory" node.capacity);
    memory_used = zero;
    architecture = node.architecture;
    kubernetes_version = node.kubelet_version;
  })

  unfoldable pub is_control_plane : ClusterNode Q → Bool
  is_control_plane node = has_label (lookup "node-role.kubernetes.io/control-plane" node.labels)

  unfoldable pub pool_name : ClusterNode Q → String
  pool_name node =
      let name =
        label_or (text_at "topology.kubernetes.io/zone" node.labels)
          (lookup "node.kubernetes.io/nodepool" node.labels) in
      if name == "" then "default" else name

  abbrev pub members : Option (List (NodeInfo Q)) → List (NodeInfo Q)
  members none = []
  members (some infos) = infos

  -- nodepoolMap[name] = append(nodepoolMap[name], info)
  unfoldable pub append_to_pool :
      String → NodeInfo Q → Assoc (List (NodeInfo Q)) → Assoc (List (NodeInfo Q))
  append_to_pool name info pools = insert name (members (lookup name pools) ++ info ∷ []) pools

  -- The loop over the nodes.
  unfoldable pub group_nodes :
      Q
      → Assoc (NodeUsage Q)
      → List (ClusterNode Q)
      → List (NodeInfo Q) × Assoc (List (NodeInfo Q))
      → List (NodeInfo Q) × Assoc (List (NodeInfo Q))
  group_nodes zero metrics [] s = s
  group_nodes zero metrics (node ∷ nodes) (plane, pools) =
      let info = node_info zero metrics node in
      group_nodes zero metrics nodes (
        if is_control_plane node
        then (plane ++ info ∷ [], pools)
        else (plane, append_to_pool (pool_name node) info pools))

  -- `order` is the order in which the program ranges over the map of pools.
  unfoldable pub get_nodes :
      NodeQuery Q → (Assoc (List (NodeInfo Q)) → List (String × List (NodeInfo Q))) → StatusNodes Q
  get_nodes query order =
      let (plane, pools) =
        group_nodes query.zero_quantity (get_node_metrics_map query) query.nodes ([], []) in
      record { control_plane = plane; nodepools = order pools }
