-- ===== src/NodeExporter/Outage.antt =====
-- `NodeExporterReporting` of v2/internal/scheduler/nodeexporter.go while Prometheus does not answer.
use ror_agent.Prelude.{
  ℕ, String, ◌==◌, ◌≡◌, refl, Bool, true, false, List, [], ◌∷◌, Assoc, lookup, Option, none, Error,
  ForeignError, Outcome, ok, err, eq_refl, arith, if◌then◌else◌, Shuffle,
}
use ror_agent.WorkQueue.{OwnerReference}
use ror_agent.NodeExporter.{
  Floats, NodeMetric, MetricsReport, Orders, queries, collect_node_exporter_metrics,
  node_exporter_reporting,
}
use ror_agent.NodeExporter.Prometheus.{Web, query_prometheus}
use ror_agent.NodeExporter.Results.{named}
use ror_agent.NodeExporter.Reference.{by_name, collect_node_exporter_metrics-Reported}

either : {A : Type 0} (b : Bool) (a : A) → (if b then a else a) ≡ a
either true a = refl
either false a = refl

module _ {F : Type 0} where
  named_none :
      (ask : String → Outcome (Assoc F)) (inst : String) (qs : Assoc String)
      → ((query : String) → (e : Error) × (ask query ≡ err e))
      → named ask inst qs ≡ false
  named_none ask inst [] h = refl
  named_none ask inst (q ∷ qs) h = rw ((h q.1).1, named_none ask inst qs h) refl

  no_metrics :
      (ms : List (NodeMetric F)) → ((inst : String) → lookup inst (by_name ms) ≡ none) → ms ≡ []
  unfolding lookup
  no_metrics [] h = refl
  no_metrics (m ∷ ms) h = ground (arith, h m.name, eq_refl m.name)

-- If every query to Prometheus fails, and the loops range over all entries of their maps in any
-- order, NodeExporterReporting posts nothing and returns no error.
pub node_exporter_reporting_silent :
    {F U W : Type 0} (floats : Floats F) (web : Web F U) (orders : Orders)
    (post_report : MetricsReport F → W → Option ForeignError × W) (now : ℕ) (url : String)
    (owner : OwnerReference) (w : W)
    → Shuffle queries (orders.of_queries queries)
    → ((m : Assoc Bool) → Shuffle m (orders.of_instances m))
    → ((query : String) → (e : Error) × (query_prometheus web url query ≡ err e))
    → node_exporter_reporting floats web orders post_report now url owner w ≡ (ok tt, w)
unfolding node_exporter_reporting
node_exporter_reporting_silent floats web orders post_report now url owner w s t h =
    rw
      (no_metrics (collect_node_exporter_metrics floats web orders now url) (λ inst.
        rw
          (
            (collect_node_exporter_metrics-Reported floats web orders now url s t).each inst,
            named_none (query_prometheus web url) inst queries h,
          )
          refl))
      (either (url == "") (ok tt, w))
