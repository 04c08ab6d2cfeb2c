-- ===== src/Heartbeat/Report/Sums.antt =====
-- The metrics of the report of `GetHeartbeatReport`, and the nodes they are about.
use ror_agent.Prelude.{
  ℕ, ◌+◌, ◌%◌, ◌^◌, ◌<◌, ◌≡◌, refl, ap, sym, subst, ◌∙◌, Bool, List, [], ◌∷◌, ok, ◌>>=◌, inl, inr,
  Option-cases, >>=-eq-ok, ok-injective, arith, All, length, add64,
}
use ror_agent.NodeService.{get_nodes}
use ror_agent.Heartbeat.Nodes.{Node, ControlPlane, NodePool, Metrics, no_metrics}
use ror_agent.Heartbeat.NodePools.{sort_nodes}
use ror_agent.Heartbeat.NodePools.Totals.{
  PoolAdds, IsTally, NodesAreInt64, sum_of, pooled, counted, sort_nodes-IsTally,
}
use ror_agent.Heartbeat.Sources.{get_ca_certificate_from_pod, get_ingresses}
use ror_agent.Heartbeat.Report.{
  Env, Cluster, finish_report, with_ingresses, interregated, unless_failed, nothing_sorted,
  sum_pools, cluster_metrics, get_heartbeat_report,
}

-- The sum of a metric over the nodes of all pools.
unfoldable pub pooled_sum : (Metrics → ℕ) → List NodePool → ℕ
pooled_sum f [] = 0
pooled_sum f (p ∷ ps) = sum_of f p.nodes + pooled_sum f ps

-- The metrics are below 2 ^ 64.
record IsInt64 (m : Metrics) : Type 0 where
  node_count : m.node_count < 2 ^ 64
  cpu : m.cpu < 2 ^ 64
  memory : m.memory < 2 ^ 64
  cpu_consumed : m.cpu_consumed < 2 ^ 64
  memory_consumed : m.memory_consumed < 2 ^ 64

-- The metrics `t` are those of `m` and of all the nodes of the pools.
pub record SumsUp (m : Metrics) (pools : List NodePool) (t : Metrics) : Type 0 where
  pub node_count : t.node_count ≡ (m.node_count + pooled pools) % 2 ^ 64
  pub cpu : t.cpu ≡ (m.cpu + pooled_sum (λ x. x.cpu) pools) % 2 ^ 64
  pub memory : t.memory ≡ (m.memory + pooled_sum (λ x. x.memory) pools) % 2 ^ 64
  pub cpu_consumed :
      t.cpu_consumed ≡ (m.cpu_consumed + pooled_sum (λ x. x.cpu_consumed) pools) % 2 ^ 64
  pub memory_consumed :
      t.memory_consumed ≡ (m.memory_consumed + pooled_sum (λ x. x.memory_consumed) pools) % 2 ^ 64

sum_pools-SumsUp :
    (pools : List NodePool) (m : Metrics)
    → IsInt64 m
    → All PoolAdds pools
    → SumsUp m pools (sum_pools pools m)
unfolding sum_pools pooled pooled_sum
sum_pools-SumsUp [] m r h = omega arith
sum_pools-SumsUp (p ∷ ps) m r h =
    let next : Metrics = record m {
      node_count = add64 m.node_count p.metrics.node_count;
      cpu = add64 m.cpu p.metrics.cpu;
      cpu_consumed = add64 m.cpu_consumed p.metrics.cpu_consumed;
      memory = add64 m.memory p.metrics.memory;
      memory_consumed = add64 m.memory_consumed p.metrics.memory_consumed;
    } in
    let rest = sum_pools-SumsUp ps next (omega arith) h.1 in
    record {
      node_count = omega (arith, rest.node_count, h.0.count);
      cpu = omega (arith, rest.cpu, h.0.cpu);
      memory = omega (arith, rest.memory, h.0.memory);
      cpu_consumed = omega (arith, rest.cpu_consumed, h.0.cpu_consumed);
      memory_consumed = omega (arith, rest.memory_consumed, h.0.memory_consumed);
    }

-- What the report says of the nodes.
pub record Accounts (nodes : List Node) (c : Cluster) : Type 0 where
  pub tally : IsTally (c.control_plane, c.node_pools)
  pub all : length c.control_plane.nodes + pooled c.node_pools ≡ length nodes
  pub sums : SumsUp no_metrics c.node_pools c.metrics
  pub pools : c.metrics.node_pool_count ≡ length c.node_pools
  pub clusters : c.metrics.cluster_count ≡ 1

nothing : IsTally nothing_sorted
unfolding sum_of
nothing = record {
  plane = record {
    count = refl;
    cpu = refl;
    memory = refl;
    cpu_consumed = refl;
    memory_consumed = refl;
  };
  pools = tt;
  names = tt;
}

cluster_metrics-SumsUp :
    (pools : List NodePool) → All PoolAdds pools → SumsUp no_metrics pools (cluster_metrics pools)
unfolding cluster_metrics
cluster_metrics-SumsUp pools h =
    let s = sum_pools-SumsUp pools no_metrics (omega arith) h in
    record {
      node_count = s.node_count;
      cpu = s.cpu;
      memory = s.memory;
      cpu_consumed = s.cpu_consumed;
      memory_consumed = s.memory_consumed;
    }

cluster_metrics-counts :
    (pools : List NodePool)
    → ((cluster_metrics pools).node_pool_count ≡ length pools)
      × ((cluster_metrics pools).cluster_count ≡ 1)
unfolding cluster_metrics
cluster_metrics-counts pools = (refl, refl)

-- A cluster with a control plane and pools that are tallied, and their metrics.
accounted :
    (c : Cluster) (t : ControlPlane × List NodePool) (nodes : List Node)
    → IsTally t
    → counted t ≡ length nodes
    → c.control_plane ≡ t.0
    → c.node_pools ≡ t.1
    → c.metrics ≡ cluster_metrics t.1
    → Accounts nodes c
accounted c (plane, pools) nodes v n e e' e'' = record {
  tally =
      subst (λ x. IsTally (x, c.node_pools)) (sym e) (subst (λ y. IsTally (plane, y)) (sym e') v);
  all = unfold counted in omega (arith, n, ap (λ x. length x.nodes) e, ap pooled e');
  sums = subst (SumsUp no_metrics c.node_pools) (sym e'') (
      subst (λ ps. SumsUp no_metrics ps (cluster_metrics pools)) (sym e')
        (cluster_metrics-SumsUp pools v.pools));
  pools = ap (λ m. m.node_pool_count) e'' ∙ (cluster_metrics-counts pools).0 ∙ ap length (sym e');
  clusters = ap (λ m. m.cluster_count) e'' ∙ (cluster_metrics-counts pools).1;
}

module _ {W : Type 0} (env : Env W) (alerted : Bool) (w : W) where
  -- A report that is returned went through the sorting of the nodes.
  report_parts :
      (c : Cluster) (alerted' : Bool) (w' : W)
      → get_heartbeat_report env alerted w ≡ ok ((c, alerted'), w')
      → (t : ControlPlane × List NodePool) × (sort_nodes (get_nodes env.nodes).0 nothing_sorted
          ≡ ok t)
        × (c.control_plane ≡ t.0)
        × (c.node_pools ≡ t.1)
        × (c.metrics ≡ cluster_metrics t.1)
  unfolding get_heartbeat_report
  report_parts c alerted' w' e = elim (Option-cases env.clientset) [
    | inr (x, f) ↦ absurd (
        cc (
          ap
            (λ o.
              unless_failed env o
                (sort_nodes (get_nodes env.nodes).0 nothing_sorted >>= finish_report env alerted w))
            f))
    | inl f ↦
        let (t, sorted, rest) =
          >>=-eq-ok (sort_nodes (get_nodes env.nodes).0 nothing_sorted)
            (finish_report env alerted w) (rw f at e) in
        let certificate = get_ca_certificate_from_pod env.pod alerted in
        let (i, known, rest') = >>=-eq-ok (interregated env env.interregation) _ rest in
        let (r, got, h) =
          >>=-eq-ok (get_ingresses env.ingresses w) (with_ingresses env i t certificate) rest' in
        let same = sym (ok-injective h) in
        (
          t,
          sorted,
          ap (λ x. x.0.0.control_plane) same,
          ap (λ x. x.0.0.node_pools) same,
          ap (λ x. x.0.0.metrics) same,
        )
  ]

-- If GetHeartbeatReport returns a report and the resource values of all nodes are below 2 ^ 64,
-- then: the metrics of the control plane and of every pool are the number and the sums, modulo 2
-- ^ 64, of their nodes; no two pools have one name; the nodes of the control plane and of the
-- pools are as many as the nodes of the cluster; the metrics of the report are the number and the
-- sums, modulo 2 ^ 64, over the nodes of all pools; the pool count is the number of pools, and
-- the cluster count is 1.
pub get_heartbeat_report-Accounts :
    {W : Type 0} (env : Env W) (alerted : Bool) (w : W) (c : Cluster) (alerted' : Bool) (w' : W)
    → NodesAreInt64 (get_nodes env.nodes).0
    → get_heartbeat_report env alerted w ≡ ok ((c, alerted'), w')
    → Accounts (get_nodes env.nodes).0 c
get_heartbeat_report-Accounts env alerted w c alerted' w' r e =
    let (t, sorted, plane, pools, metrics) = report_parts env alerted w c alerted' w' e in
    let (tally, n) =
      sort_nodes-IsTally (get_nodes env.nodes).0 nothing_sorted.0 nothing_sorted.1 t r nothing
        sorted in
    accounted c t (get_nodes env.nodes).0 tally (unfold counted pooled in omega (arith, n)) plane
      pools metrics
