-- ===== src/NodeService/Named.antt =====
-- Nodes whose machine names suffice for the heartbeat to sort them.
use ror_agent.Prelude.{
  String, ◌≡◌, refl, inl, inr, true, false, List, [], ◌∷◌, map, none, ok, arith, Bool-cases, split,
  has, split_many,
}
use ror_agent.Heartbeat.Nodes.{Node, Provider, talos, aks, other_provider, ControlPlane, NodePool}
use ror_agent.Heartbeat.NodePools.{
  worker_name_of, append_node_to_node_pools, append_node_to_control_plane, is_control_plane,
  sort_nodes, add_to_pool, api_node,
}
use ror_agent.NodeService.{K8sNode, NodeSource, node_of, get_nodes}
use ror_agent.NodeService.Machines.{node_at, get_nodes-map, is_nameless, any_nameless}

-- Talos needs no machine name; on any other provider no worker is nameless.
abbrev pub HasNames : Provider → List K8sNode → Type 0
HasNames talos nodes = Unit
HasNames aks nodes = any_nameless nodes ≡ false
HasNames (other_provider p) nodes = any_nameless nodes ≡ false

split_empty : split b'-' "" ≡ "" ∷ []
unfolding split
split_empty = refl

-- A worker is named, if the provider is Talos or its machine name has a dash.
abbrev IsNamed : Provider → Node → Type 0
IsNamed talos node = Unit
IsNamed aks node = has b'-' node.machine_name ≡ true
IsNamed (other_provider p) node = has b'-' node.machine_name ≡ true

worker_name_named :
    (provider : Provider) (node : Node)
    → node.cluster_name ≡ ""
    → IsNamed provider node
    → (name : String) × (worker_name_of provider node ≡ ok name)
worker_name_named talos node c h = (_, refl)
worker_name_named aks node c h =
    let (p, q, rest, e, a) = split_many b'-' node.machine_name h in (q, rw e)
worker_name_named (other_provider p') node c h =
    let (p, q, rest, e, a) = split_many b'-' node.machine_name h in (q, rw (c, split_empty, e))

module _ (source : NodeSource) where
  -- The first node, if it is a worker, and the others.
  HasNames-parts :
      (provider : Provider) (n : K8sNode) (ns : List K8sNode)
      → provider ≡ source.machine_provider
      → HasNames provider (n ∷ ns)
      → HasNames provider ns
        × (is_control_plane (node_at source n) ≡ false → IsNamed provider (node_at source n))
  unfolding any_nameless is_nameless is_control_plane node_of
  HasNames-parts talos n ns e h = (tt, λ c. tt)
  HasNames-parts aks n ns e h = (ground arith, λ c. ground arith)
  HasNames-parts (other_provider p) n ns e h = (ground arith, λ c. ground arith)

  named_works :
      (n : K8sNode) (pools : List NodePool)
      → IsNamed source.machine_provider (node_at source n)
      → (ps : List NodePool) × (append_node_to_node_pools (node_at source n) pools ≡ ok ps)
  unfolding append_node_to_node_pools node_of
  named_works n pools h =
      let (name, e) = worker_name_named source.machine_provider (node_at source n) refl h in
      (add_to_pool name (api_node "worker" (node_at source n)) pools, rw e)

  sort_nodes_ok :
      (ns : List K8sNode) (plane : ControlPlane) (pools : List NodePool)
      → HasNames source.machine_provider ns
      → (t : ControlPlane × List NodePool) × (sort_nodes (map (node_at source) ns) (plane, pools)
          ≡ ok t)
  unfolding sort_nodes
  sort_nodes_ok [] plane pools h = ((plane, pools), refl)
  sort_nodes_ok (n ∷ ns) plane pools h =
      let (more, named) = HasNames-parts source.machine_provider n ns refl h in
      elim (Bool-cases (is_control_plane (node_at source n))) [
        | inl c ↦
            let (t, e) =
              sort_nodes_ok ns (append_node_to_control_plane (node_at source n) plane) pools more in
            (t, rw (c, e))
        | inr c ↦
            let (ps, e) = named_works n pools (named c) in
            let (t, e') = sort_nodes_ok ns plane ps more in (t, rw (c, e, e'))
      ]

-- If the metrics client can be made, and the machine provider is Talos or every node that is no
-- control plane has a machine name with a dash, then sorting the nodes that GetNodes returns
-- succeeds.
pub get_nodes-sort_nodes_ok :
    (source : NodeSource) (plane : ControlPlane) (pools : List NodePool)
    → source.metrics_client ≡ none
    → HasNames source.machine_provider source.nodes
    → (t : ControlPlane × List NodePool) × (sort_nodes (get_nodes source).0 (plane, pools) ≡ ok t)
get_nodes-sort_nodes_ok source plane pools m h =
    let (t, e) = sort_nodes_ok source source.nodes plane pools h in
    (t, rw (get_nodes-map source m, e))
