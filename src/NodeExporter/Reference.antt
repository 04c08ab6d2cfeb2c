-- ===== src/NodeExporter/Reference.antt =====
-- What `collectNodeExporterMetrics` of v2/internal/scheduler/nodeexporter.go reports, node by node.
use ror_agent.Prelude.{
  ℕ, String, ◌==◌, ◌≡◌, refl, ap, ◌∙◌, Bool, true, false, ◌||◌, List, [], ◌∷◌, map, All, Assoc,
  lookup, insert, lookup-insert, Option, none, some, Outcome, eq_iff, arith, if◌then◌else◌, inl,
  inr, Bool-cases, Shuffle, NoKey, DistinctKeys, insert-DistinctKeys, lookup-Shuffle,
}
use ror_agent.NodeExporter.{
  Floats, NodeMetric, Orders, queries, value_in, get_val, node_metric, gather, add_instances,
  instances_of, collect_node_exporter_metrics,
}
use ror_agent.NodeExporter.Prometheus.{Web, query_prometheus}
use ror_agent.NodeExporter.Results.{
  is_some, has_key, answer_to, holds, named, lookup-gather, holds-gather, named-Shuffle,
}

true_if : Bool → Option Bool → Option Bool
true_if b before = if b then some true else before

distinct_queries : DistinctKeys queries
distinct_queries = ground arith

module _ {F : Type 0} where
  lookup-add_instances :
      (inst : String) (values : Assoc F) (seen : Assoc Bool)
      → lookup inst (add_instances values seen) ≡ true_if (has_key inst values) (lookup inst seen)
  unfolding add_instances lookup true_if
  lookup-add_instances inst [] seen = refl
  lookup-add_instances inst ((i, v) ∷ rest) seen =
      rw (lookup-add_instances inst rest (insert i true seen), lookup-insert i inst true seen)
        (ground arith)

  lookup-instances_of :
      (inst : String) (results : Assoc (Assoc F)) (seen : Assoc Bool)
      → lookup inst (instances_of results seen) ≡ true_if (holds inst results) (lookup inst seen)
  unfolding instances_of true_if
  lookup-instances_of inst [] seen = refl
  lookup-instances_of inst ((name, values) ∷ rest) seen =
      rw
        (
          lookup-instances_of inst rest (add_instances values seen),
          lookup-add_instances inst values seen,
        )
        (ground arith)

  add_instances-DistinctKeys :
      (values : Assoc F) (seen : Assoc Bool)
      → DistinctKeys seen
      → DistinctKeys (add_instances values seen)
  unfolding add_instances
  add_instances-DistinctKeys [] seen d = d
  add_instances-DistinctKeys ((i, v) ∷ rest) seen d =
      add_instances-DistinctKeys rest (insert i true seen) (insert-DistinctKeys i true seen d)

  instances_of-DistinctKeys :
      (results : Assoc (Assoc F)) (seen : Assoc Bool)
      → DistinctKeys seen
      → DistinctKeys (instances_of results seen)
  unfolding instances_of
  instances_of-DistinctKeys [] seen d = d
  instances_of-DistinctKeys ((name, values) ∷ rest) seen d =
      instances_of-DistinctKeys rest (add_instances values seen)
        (add_instances-DistinctKeys values seen d)

abbrev pub by_name : {F : Type 0} → List (NodeMetric F) → Assoc (NodeMetric F)
by_name = map (λ m. (m.name, m))

module _ {F : Type 0} (floats : Floats F) (now : ℕ) (val : String → String → F) where
  metrics_of : Assoc Bool → List (NodeMetric F)
  metrics_of = map (λ (i : String × Bool). node_metric floats now (λ metric. val metric i.0) i.0)

  lookup-metrics_of :
      (inst : String) (is : Assoc Bool)
      → lookup inst (by_name (metrics_of is)) ≡ (
          if has_key inst is
          then some (node_metric floats now (λ metric. val metric inst) inst)
          else none)
  unfolding metrics_of node_metric lookup
  lookup-metrics_of inst [] = refl
  lookup-metrics_of inst (i ∷ is) = elim (Bool-cases (i.0 == inst)) [
    | inl same ↦ rw same (
        ap (λ x. some (node_metric floats now (λ metric. val metric x) x))
          ((eq_iff i.0 inst).0 same))
    | inr other ↦ rw other (lookup-metrics_of inst is)
  ]

  metrics_of-NoKey : (k : String) (is : Assoc Bool) → NoKey k is → NoKey k (by_name (metrics_of is))
  unfolding metrics_of node_metric
  metrics_of-NoKey k [] n = tt
  metrics_of-NoKey k (i ∷ is) n = (n.0, metrics_of-NoKey k is n.1)

  metrics_of-DistinctKeys :
      (is : Assoc Bool) → DistinctKeys is → DistinctKeys (by_name (metrics_of is))
  unfolding metrics_of node_metric
  metrics_of-DistinctKeys [] d = tt
  metrics_of-DistinctKeys (i ∷ is) d = (metrics_of-NoKey i.0 is d.0, metrics_of-DistinctKeys is d.1)

-- The metrics have each instance once, and each instance that some query names, with the values that the
-- queries have for it.
pub record Reported {F : Type 0} (floats : Floats F) (ask : String → Outcome (Assoc F)) (now : ℕ)
    (metrics : List (NodeMetric F)) : Type 0 where
  pub once : DistinctKeys (by_name metrics)
  pub each :
      (inst : String)
      → lookup inst (by_name metrics) ≡ (
          if named ask inst queries
          then some (
              node_metric floats now
                (λ metric. value_in floats (answer_to ask (lookup metric queries) none) inst)
                inst)
          else none)

module _ {F U : Type 0} (floats : Floats F) (web : Web F U) (orders : Orders) (now : ℕ)
    (url : String) where
  abbrev results : Assoc (Assoc F)
  results = gather (query_prometheus web url) (orders.of_queries queries) []

  get_val-answer_to :
      (metric inst : String)
      → Shuffle queries (orders.of_queries queries)
      → get_val floats results metric inst
        ≡ value_in floats (answer_to (query_prometheus web url) (lookup metric queries) none) inst
  unfolding get_val lookup
  get_val-answer_to metric inst s =
      let (d, same) = lookup-Shuffle s distinct_queries in
      ap (λ m. value_in floats m inst)
        (lookup-gather (query_prometheus web url) (orders.of_queries queries) [] metric d
          ∙ ap (λ q. answer_to (query_prometheus web url) q none) (same metric))

  same_values :
      (inst : String)
      → Shuffle queries (orders.of_queries queries)
      → ◌≡◌ {A = String → F}
          (λ metric. get_val floats results metric inst)
          (λ metric.
            value_in floats
              (answer_to (query_prometheus web url) (lookup metric queries) none)
              inst)
  same_values inst s i metric = get_val-answer_to metric inst s i

  has_key-instances_of :
      (inst : String)
      → Shuffle queries (orders.of_queries queries)
      → ((m : Assoc Bool) → Shuffle m (orders.of_instances m))
      → has_key inst (orders.of_instances (instances_of results []))
        ≡ named (query_prometheus web url) inst queries
  unfolding lookup true_if
  has_key-instances_of inst s t =
      let (d, same) = lookup-Shuffle s distinct_queries in
      let (d', same') =
        lookup-Shuffle (t (instances_of results [])) (instances_of-DistinctKeys results [] tt) in
      ap is_some (same' inst ∙ lookup-instances_of inst results [])
      ∙ only_if (holds inst results)
      ∙ holds-gather (query_prometheus web url) inst (orders.of_queries queries) [] d
          (all_new (orders.of_queries queries))
      ∙ or_false (named (query_prometheus web url) inst (orders.of_queries queries))
      ∙ named-Shuffle (query_prometheus web url) inst s
    where
      only_if : (b : Bool) → is_some (true_if b none) ≡ b
      only_if true = refl
      only_if false = refl

      or_false : (b : Bool) → (b || false) ≡ b
      or_false true = refl
      or_false false = refl

      all_new : (qs : Assoc String) → All (λ (q : String × String). NoKey {V = Assoc F} q.0 []) qs
      all_new [] = tt
      all_new (q ∷ qs) = (tt, all_new qs)

  -- If the loops over the map of the queries and over that of the instances range over all
  -- entries in any order, collectNodeExporterMetrics reports each instance once, and exactly
  -- those that the answer to some query names, each with the values that the answers to the
  -- twelve queries have for it, zero where a query failed or has none.
  pub collect_node_exporter_metrics-Reported :
      Shuffle queries (orders.of_queries queries)
      → ((m : Assoc Bool) → Shuffle m (orders.of_instances m))
      → Reported floats
          (query_prometheus web url)
          now
          (collect_node_exporter_metrics floats web orders now url)
  unfolding collect_node_exporter_metrics metrics_of
  collect_node_exporter_metrics-Reported s t = record {
    once =
        metrics_of-DistinctKeys floats now (get_val floats results)
          (orders.of_instances (instances_of results []))
          (lookup-Shuffle (t (instances_of results []))
            (instances_of-DistinctKeys results [] tt)).0;
    each = λ inst.
        lookup-metrics_of floats now (get_val floats results) inst
          (orders.of_instances (instances_of results []))
        ∙ ap
            (λ b.
              if b
              then some (node_metric floats now (λ metric. get_val floats results metric inst) inst)
              else none)
            (has_key-instances_of inst s t)
        ∙ ap
            (λ val.
              if named (query_prometheus web url) inst queries
              then some (node_metric floats now val inst)
              else none)
            (same_values inst s);
  }
