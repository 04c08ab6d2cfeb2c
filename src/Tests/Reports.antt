-- ===== src/Tests/Reports.antt =====
-- Runs of the reports and of the requests of the agent. A float64 is a number, and Prometheus answers
-- every query alike.
use ror_agent.Prelude.{
  ℕ, ◌*◌, ◌/◌, String, ◌≡◌, refl, true, false, [], ◌∷◌, Option, none, Error, foreign, ForeignError,
  ok, err, inl, inr, ◌⊎◌, ltb, ◌==◌, insert, text_at, lookup, unshuffled, if◌then◌else◌,
}
use ror_agent.WorkQueue.{OwnerReference}
use ror_agent.NodeExporter.{Floats, Orders, collect_node_exporter_metrics}
use ror_agent.NodeExporter.Prometheus.{Web, Reply, Sample, query_prometheus}
use ror_agent.NodeExporter.Reference.{Reported, collect_node_exporter_metrics-Reported}
use ror_agent.NodeExporter.Samples.{Queried, query_prometheus-Queried}
use ror_agent.Scheduler.Metrics.{
  Decoding, NodeMetricsListItem, metrics_reporting, all_or_none, read_all, metrics_reporting_lem,
}
use ror_agent.AgentClient.Egress.{Response}
use ror_agent.Operator.{AgentApiKeyModel, ClusterInfo}

abbrev down : ForeignError
down = record { is_not_found = false; text = "down" }

abbrev floats : Floats ℕ
floats = record {
  zero = 0;
  hundred = 100;
  thousand = 1000;
  is_positive = ltb 0;
  div = λ x y. x / y;
  mul = λ x y. x * y;
  int64 = λ x. x;
}

abbrev sample : String → ForeignError ⊎ String → Sample
sample inst value = record { metric = ("instance", inst) ∷ []; value = value }

abbrev web : ForeignError ⊎ Reply → Web ℕ String
web reply = record {
  parse = λ url. inr url;
  with_query = λ path query url. query;
  new_request = λ u. none;
  do_request = λ u. reply;
  unmarshal = λ body. inr (record {
    status = "success";
    result = sample "node1:9100" (inr "7") ∷ sample "node2:9100" (inl down) ∷ [];
  });
  split_host_port = λ s. if s == "node1:9100" then inr "node1" else inl down;
  scan = λ s. inr 7;
}

abbrev orders : Orders
orders = record { of_queries = λ m. m; of_instances = λ m. m }

abbrev good : ForeignError ⊎ Reply
good = inr (record { status_code = 200; body = inr "{}" })

collect_node_exporter_metrics-Reported_example :
    Reported floats
      (query_prometheus (web good) "http://p")
      3
      (collect_node_exporter_metrics floats (web good) orders 3 "http://p")
collect_node_exporter_metrics-Reported_example =
    collect_node_exporter_metrics-Reported floats (web good) orders 3 "http://p" (unshuffled _)
      unshuffled

answered : query_prometheus (web good) "http://p" "node_load1" ≡ ok (("node1", 7) ∷ [])
unfolding query_prometheus insert text_at lookup
answered = refl

query_prometheus-Queried_example : Queried (web good) "http://p" "node_load1" (("node1", 7) ∷ [])
query_prometheus-Queried_example =
    query_prometheus-Queried (web good) "http://p" "node_load1" (("node1", 7) ∷ []) answered

abbrev owner : OwnerReference
owner = record { scope = "cluster"; subject = "c1" }

unanswered :
    (query : String) → (e : Error) × (query_prometheus (web (inl down)) "http://p" query ≡ err e)
unfolding query_prometheus insert text_at lookup
unanswered query = (foreign down, refl)

abbrev post : {A : Type 0} → A → ℕ → Option ForeignError × ℕ
post report w = (none, 1)

abbrev item : String → NodeMetricsListItem
item cpu = record { name = "n1"; timestamp = 4; usage_cpu = cpu; usage_memory = "1" }

abbrev decoding : Decoding ℕ
decoding = record {
  parse_quantity = λ s. if s == "bad" then inl down else inr 1;
  milli_value = λ q. q * 1000;
  as_int64 = λ q. (q, true);
  unmarshal = λ s. inr (item "1" ∷ item "bad" ∷ []);
}

metrics_reporting_lem_example :
    metrics_reporting decoding post none owner (inr "{}") 0
    ≡ all_or_none decoding post owner (read_all decoding (item "1" ∷ item "bad" ∷ [])) 0
metrics_reporting_lem_example =
    metrics_reporting_lem decoding post owner "{}" (item "1" ∷ item "bad" ∷ []) 0 refl

abbrev register : String → AgentApiKeyModel → ForeignError ⊎ Response
register url model = inr (record { status = 200; body = inr "key" })

abbrev info : ClusterInfo
info = record {
  cluster_name = "one";
  datacenter = "dc1";
  cluster_workspace = "w1";
  provider = "talos";
}
