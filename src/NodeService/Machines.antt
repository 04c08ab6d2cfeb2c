-- ===== src/NodeService/Machines.antt =====
-- The nodes that `GetNodes` returns, and what the heartbeat makes of a worker whose machine name has
-- no dash.
use ror_agent.Prelude.{
  String, ◌≡◌, refl, ap, sym, ◌∙◌, ◌⊎◌, inl, inr, Bool, true, false, ◌||◌, ◌&&◌, not, List, [], ◌∷◌,
  ◌++◌, map, Option, none, some, ok, panic, arith, Bool-cases, length, get_elem?, split, has,
  split_whole, lookup,
}
use mathlib.Core.List.{append-nil, append_assoc}
use ror_agent.Heartbeat.Nodes.{Node, Provider, talos, aks, other_provider, ControlPlane, NodePool}
use ror_agent.Heartbeat.NodePools.{
  worker_name_of, append_node_to_node_pools, append_node_to_control_plane, is_control_plane,
  has_label, sort_nodes, add_to_pool, api_node,
}
use ror_agent.NodeService.{K8sNode, NodeSource, node_of, add_nodes, get_nodes, machine_name}

abbrev pub node_at : NodeSource → K8sNode → Node
node_at source node = node_of source.machine_provider node (source.node_metrics node.name)

add_nodes-map :
    (source : NodeSource) (nodes : List K8sNode) (out : List Node)
    → add_nodes source nodes out ≡ out ++ map (node_at source) nodes
unfolding add_nodes
add_nodes-map source [] out = sym (append-nil out)
add_nodes-map source (node ∷ rest) out =
    add_nodes-map source rest (out ++ node_at source node ∷ [])
    ∙ append_assoc out (node_at source node ∷ []) (map (node_at source) rest)

-- If the metrics client can be made, GetNodes returns each node of the cluster, in order, whether
-- or not its metrics can be read, and no error.
pub get_nodes-map :
    (source : NodeSource)
    → source.metrics_client ≡ none
    → get_nodes source ≡ (map (node_at source) source.nodes, none)
unfolding get_nodes
get_nodes-map source h = rw h (ap (λ ns. (ns, none)) (add_nodes-map source source.nodes []))

abbrev pub out_of_range : String
out_of_range = "index out of range"

-- A worker whose pool is read from its machine name, which has no dash.
unfoldable pub is_nameless : K8sNode → Bool
is_nameless node =
    not (has_label (lookup "node-role.kubernetes.io/control-plane" node.labels))
    && not (has b'-' (machine_name node))

unfoldable pub any_nameless : List K8sNode → Bool
unfolding is_nameless
any_nameless [] = false
any_nameless (n ∷ ns) = is_nameless n || any_nameless ns

abbrev pub ReadsMachineName : Provider → Type 0
ReadsMachineName talos = ⊥
ReadsMachineName aks = Unit
ReadsMachineName (other_provider p) = Unit

split_empty : split b'-' "" ≡ "" ∷ []
unfolding split
split_empty = refl

nameless_worker :
    (provider : Provider) (node : Node)
    → ReadsMachineName provider
    → node.cluster_name ≡ ""
    → has b'-' node.machine_name ≡ false
    → worker_name_of provider node ≡ panic out_of_range
nameless_worker talos node r c h = absurd r
nameless_worker aks node r c h = rw (split_whole b'-' node.machine_name h)
nameless_worker (other_provider p) node r c h =
    rw (c, split_empty, split_whole b'-' node.machine_name h)

worker_name_cases :
    (provider : Provider) (node : Node)
    → ((name : String) × (worker_name_of provider node ≡ ok name))
      ⊎ (worker_name_of provider node ≡ panic out_of_range)
worker_name_cases talos node = inl (_, refl)
worker_name_cases aks node = go (get_elem? (split b'-' node.machine_name) 1) refl
  where
    go :
        (o : Option String)
        → get_elem? (split b'-' node.machine_name) 1 ≡ o
        → ((name : String) × (worker_name_of aks node ≡ ok name))
          ⊎ (worker_name_of aks node ≡ panic out_of_range)
    go none e = inr (rw e)
    go (some s) e = inl (s, rw e)
worker_name_cases (other_provider p) node =
    go (get_elem? (split b'-' node.machine_name) (length (split b'-' node.cluster_name))) refl
  where
    go :
        (o : Option String)
        → get_elem? (split b'-' node.machine_name) (length (split b'-' node.cluster_name)) ≡ o
        → ((name : String) × (worker_name_of (other_provider p) node ≡ ok name))
          ⊎ (worker_name_of (other_provider p) node ≡ panic out_of_range)
    go none e = inr (rw e)
    go (some s) e = inl (s, rw e)

module _ (source : NodeSource) (reads : ReadsMachineName source.machine_provider) where
  nameless_fails :
      (n : K8sNode) (pools : List NodePool)
      → has b'-' (machine_name n) ≡ false
      → append_node_to_node_pools (node_at source n) pools ≡ panic out_of_range
  unfolding append_node_to_node_pools node_of
  nameless_fails n pools h =
      rw (nameless_worker source.machine_provider (node_at source n) reads refl h)

  pools_or_panic :
      (node : Node) (pools : List NodePool)
      → ((ps : List NodePool) × (append_node_to_node_pools node pools ≡ ok ps))
        ⊎ (append_node_to_node_pools node pools ≡ panic out_of_range)
  unfolding append_node_to_node_pools
  pools_or_panic node pools = elim (worker_name_cases node.provider node) [
    | inl (name, e) ↦ inl (add_to_pool name (api_node "worker" node) pools, rw e)
    | inr e ↦ inr (rw e)
  ]

  sort_nodes_panic :
      (ns : List K8sNode) (plane : ControlPlane) (pools : List NodePool)
      → any_nameless ns ≡ true
      → sort_nodes (map (node_at source) ns) (plane, pools) ≡ panic out_of_range
  unfolding sort_nodes any_nameless node_of
  sort_nodes_panic [] plane pools h = cc
  sort_nodes_panic (n ∷ ns) plane pools h =
      elim (Bool-cases (is_control_plane (node_at source n))) [
        | inl c ↦ rw c (
            sort_nodes_panic ns (append_node_to_control_plane (node_at source n) plane) pools
              (ground arith))
        | inr c ↦ elim (Bool-cases (has b'-' (machine_name n))) [
          | inr d ↦ rw (c, nameless_fails n pools d)
          | inl d ↦ elim (pools_or_panic (node_at source n) pools) [
            | inl (ps, e) ↦ rw (c, e) (sort_nodes_panic ns plane ps (ground arith))
            | inr e ↦ rw (c, e)
          ]
        ]
      ]

-- If the machine provider is not Talos, the metrics client can be made, and a node that is no
-- control plane has a machine name without a dash, then sorting the nodes that GetNodes returns
-- panics with an index out of range.
pub get_nodes-sort_nodes_panic :
    (source : NodeSource) (plane : ControlPlane) (pools : List NodePool)
    → ReadsMachineName source.machine_provider
    → source.metrics_client ≡ none
    → any_nameless source.nodes ≡ true
    → sort_nodes (get_nodes source).0 (plane, pools) ≡ panic out_of_range
get_nodes-sort_nodes_panic source plane pools reads m h =
    rw (get_nodes-map source m) (sort_nodes_panic source reads source.nodes plane pools h)
