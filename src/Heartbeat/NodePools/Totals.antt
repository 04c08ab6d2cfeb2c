-- ===== src/Heartbeat/NodePools/Totals.antt =====
-- The metrics that the loop over the nodes keeps of the control plane and of each pool.
use ror_agent.Prelude.{
  All-parts, ℕ, ◌+◌, ◌%◌, ◌^◌, ◌<◌, String, ◌≡◌, refl, ap, sym, subst, inl, inr, List, [], ◌∷◌,
  ◌++◌, ok, ok-injective, >>=-eq-ok, arith, All, All-append, Bool-cases, length, length-append,
}
use ror_agent.Heartbeat.Nodes.{Node, ApiNode, ControlPlane, NodePool, Metrics, Resources}
use ror_agent.Heartbeat.NodePools.Names.{
  opened, joined, add_to_pool-Placed, DistinctNames, add_to_pool-DistinctNames,
}
use ror_agent.Heartbeat.NodePools.{
  api_node, append_node_to_control_plane, worker_name, add_to_pool, new_pool, grown,
  append_node_to_node_pools, is_control_plane, sort_nodes, add_metrics,
}

-- The sum of a metric over nodes.
unfoldable pub sum_of : (Metrics → ℕ) → List ApiNode → ℕ
sum_of f [] = 0
sum_of f (n ∷ ns) = f n.metrics + sum_of f ns

-- The metrics of a group are those of its nodes.
pub record Adds (m : Metrics) (nodes : List ApiNode) : Type 0 where
  pub count : m.node_count ≡ length nodes
  pub cpu : m.cpu ≡ sum_of (λ x. x.cpu) nodes % 2 ^ 64
  pub memory : m.memory ≡ sum_of (λ x. x.memory) nodes % 2 ^ 64
  pub cpu_consumed : m.cpu_consumed ≡ sum_of (λ x. x.cpu_consumed) nodes % 2 ^ 64
  pub memory_consumed : m.memory_consumed ≡ sum_of (λ x. x.memory_consumed) nodes % 2 ^ 64

-- The values of a node are `int64`.
pub record IsInt64 (r : Resources) : Type 0 where
  pub cpu : r.cpu < 2 ^ 64
  pub memory : r.memory_bytes < 2 ^ 64
  pub cpu_consumed : r.cpu_milli_consumed < 2 ^ 64
  pub memory_consumed : r.memory_bytes_consumed < 2 ^ 64

abbrev pub PoolAdds : NodePool → Type 0
PoolAdds p = Adds p.metrics p.nodes

sum_of-append :
    (f : Metrics → ℕ) (ns : List ApiNode) (n : ApiNode)
    → sum_of f (ns ++ n ∷ []) ≡ sum_of f ns + f n.metrics
unfolding sum_of
sum_of-append f [] n = omega arith
sum_of-append f (x ∷ xs) n = omega (arith, sum_of-append f xs n)

add_metrics-Adds :
    (m : Metrics) (ns : List ApiNode) (n : ApiNode)
    → Adds m ns
    → Adds (add_metrics (length (ns ++ n ∷ [])) m n.metrics) (ns ++ n ∷ [])
add_metrics-Adds m ns n a = record {
  count = refl;
  cpu = omega (arith, a.cpu, sum_of-append (λ x. x.cpu) ns n);
  memory = omega (arith, a.memory, sum_of-append (λ x. x.memory) ns n);
  cpu_consumed = omega (arith, a.cpu_consumed, sum_of-append (λ x. x.cpu_consumed) ns n);
  memory_consumed = omega (arith, a.memory_consumed, sum_of-append (λ x. x.memory_consumed) ns n);
}

grown-Adds : (p : NodePool) (n : ApiNode) → PoolAdds p → PoolAdds (grown p n)
grown-Adds p n a = add_metrics-Adds p.metrics p.nodes n a

new_pool-Adds :
    (name role : String) (node : Node)
    → IsInt64 node.resources
    → PoolAdds (new_pool name (api_node role node))
unfolding api_node sum_of
new_pool-Adds name role node r = record {
  count = refl;
  cpu = omega (arith, r.cpu);
  memory = omega (arith, r.memory);
  cpu_consumed = omega (arith, r.cpu_consumed);
  memory_consumed = omega (arith, r.memory_consumed);
}

add_to_pool-Adds :
    (name : String) (n : ApiNode) (pools : List NodePool)
    → PoolAdds (new_pool name n)
    → All PoolAdds pools
    → All PoolAdds (add_to_pool name n pools)
add_to_pool-Adds name n pools new h = elim (add_to_pool-Placed name n pools) [
  | opened a e ↦ rw e (All-append PoolAdds pools (new_pool name n ∷ []) h (new, tt))
  | joined before p after fits e e' ↦
      let (b, (q, a)) = All-parts PoolAdds before (p ∷ after) (rw e at h) in
      rw e' (All-append PoolAdds before (grown p n ∷ after) b (grown-Adds p n q, a))
]

-- The number of nodes in all pools.
unfoldable pub pooled : List NodePool → ℕ
pooled [] = 0
pooled (p ∷ ps) = length p.nodes + pooled ps

pooled-append : (ps qs : List NodePool) → pooled (ps ++ qs) ≡ pooled ps + pooled qs
unfolding pooled
pooled-append [] qs = omega arith
pooled-append (p ∷ ps) qs = omega (arith, pooled-append ps qs)

pooled-add_to_pool :
    (name : String) (n : ApiNode) (pools : List NodePool)
    → pooled (add_to_pool name n pools) ≡ pooled pools + 1
unfolding pooled
pooled-add_to_pool name n pools = elim (add_to_pool-Placed name n pools) [
  | opened a e ↦ rw e (omega (arith, pooled-append pools (new_pool name n ∷ [])))
  | joined before p after fits e e' ↦ omega (
    arith,
    ap pooled e,
    ap pooled e',
    pooled-append before (p ∷ after),
    pooled-append before (grown p n ∷ after),
    length-append p.nodes (n ∷ []),
  )
]

-- What holds of the control plane and the pools.
pub record IsTally (s : ControlPlane × List NodePool) : Type 0 where
  pub plane : Adds s.0.metrics s.0.nodes
  pub pools : All PoolAdds s.1
  pub names : DistinctNames s.1

append_node_to_control_plane-Adds :
    (node : Node) (plane : ControlPlane)
    → Adds plane.metrics plane.nodes
    → let t = append_node_to_control_plane node plane in Adds t.metrics t.nodes
unfolding append_node_to_control_plane
append_node_to_control_plane-Adds node plane a =
    add_metrics-Adds plane.metrics plane.nodes (api_node "control-plane" node) a

abbrev pub NodesAreInt64 : List Node → Type 0
NodesAreInt64 = All (λ (n : Node). IsInt64 n.resources)

unfoldable pub counted : ControlPlane × List NodePool → ℕ
unfolding pooled
counted s = length s.0.nodes + pooled s.1

on_plane :
    (node : Node) (plane : ControlPlane) (pools : List NodePool)
    → IsTally (plane, pools)
    → IsTally (append_node_to_control_plane node plane, pools)
on_plane node plane pools v = record {
  plane = append_node_to_control_plane-Adds node plane v.plane;
  pools = v.pools;
  names = v.names;
}

on_pool :
    (name : String) (node : Node) (plane : ControlPlane) (pools : List NodePool)
    → IsInt64 node.resources
    → IsTally (plane, pools)
    → IsTally (plane, add_to_pool name (api_node "worker" node) pools)
on_pool name node plane pools r v = record {
  plane = v.plane;
  pools =
      add_to_pool-Adds name (api_node "worker" node) pools (new_pool-Adds name "worker" node r)
        v.pools;
  names = add_to_pool-DistinctNames name (api_node "worker" node) pools v.names;
}

length-plane :
    (node : Node) (plane : ControlPlane)
    → length (append_node_to_control_plane node plane).nodes ≡ length plane.nodes + 1
unfolding append_node_to_control_plane
length-plane node plane =
    omega (arith, length-append plane.nodes (api_node "control-plane" node ∷ []))

added_to_pool :
    (node : Node) (pools ps : List NodePool)
    → append_node_to_node_pools node pools ≡ ok ps
    → (name : String) × (ps ≡ add_to_pool name (api_node "worker" node) pools)
unfolding append_node_to_node_pools
added_to_pool node pools ps e =
    let (name, named, h) =
      >>=-eq-ok (worker_name node) (λ name. ok (add_to_pool name (api_node "worker" node) pools))
        e in
    (name, sym (ok-injective h))

-- If the resource values of the nodes are below 2 ^ 64, a control plane and pools are tallied
-- (their metrics are the number and the sums, modulo 2 ^ 64, of their nodes, and no two pools
-- have one name), and sorting the nodes into them succeeds, then the result is tallied, and its
-- nodes are as many as those from before and the nodes sorted.
pub sort_nodes-IsTally :
    (nodes : List Node) (plane : ControlPlane) (pools : List NodePool)
    (t : ControlPlane × List NodePool)
    → NodesAreInt64 nodes
    → IsTally (plane, pools)
    → sort_nodes nodes (plane, pools) ≡ ok t
    → IsTally t × (counted t ≡ counted (plane, pools) + length nodes)
unfolding sort_nodes counted
sort_nodes-IsTally [] plane pools t r v e =
    let same = ok-injective e in (subst IsTally same v, ground (arith, ap counted same))
sort_nodes-IsTally (node ∷ nodes) plane pools t r v e = elim (Bool-cases (is_control_plane node)) [
  | inl c ↦
      let next = append_node_to_control_plane node plane in
      let (v', n) =
        sort_nodes-IsTally nodes next pools t r.1 (on_plane node plane pools v) (ground arith) in
      (v', omega (arith, n, length-plane node plane))
  | inr c ↦
      let after = λ (ps : List NodePool). sort_nodes nodes (plane, ps) in
      let (ps, added, rest) = >>=-eq-ok (append_node_to_node_pools node pools) after (rw c at e) in
      let (name, same) = added_to_pool node pools ps added in
      let v' = subst (λ qs. IsTally (plane, qs)) (sym same) (on_pool name node plane pools r.0 v) in
      let (v'', n) = sort_nodes-IsTally nodes plane ps t r.1 v' rest in
      (
        v'',
        omega (arith, n, ap pooled same, pooled-add_to_pool name (api_node "worker" node) pools),
      )
]
