-- ===== src/NodeExporter.antt =====
-- v2/internal/scheduler/nodeexporter.go: what Prometheus says of each node, reported to the ROR API.
--
-- A float64 is of any type `F`, an int64 its bit pattern; the web and the decoding of a reply are
-- parameters. The orders of the two loops over maps are parameters too.
pub mod Prometheus
pub mod Samples
pub mod Results
pub mod Reference
pub mod Outage
use ror_agent.Prelude.{
  ℕ, ◌*◌, ◌%◌, ◌^◌, String, ◌==◌, Bool, true, false, List, [], ◌∷◌, map, Assoc, lookup, insert,
  Option, none, some, Error, foreign, ForeignError, Outcome, ok, err, panic, if◌then◌else◌,
}
use ror_agent.WorkQueue.{OwnerReference}
use Prometheus.{Web, query_prometheus}

pub record Floats (F : Type 0) : Type 0 where
  pub zero : F
  pub hundred : F
  pub thousand : F
  pub is_positive : F → Bool
  pub div : F → F → F
  pub mul : F → F → F
  -- int64(x)
  pub int64 : F → ℕ

-- apicontracts.NodeMetric
pub record NodeMetric (F : Type 0) : Type 0 where
  pub name : String
  pub time_stamp : ℕ
  pub cpu_usage : ℕ
  pub cpu_allocated : ℕ
  pub cpu_percentage : F
  pub memory_usage : ℕ
  pub memory_allocated : ℕ
  pub memory_percentage : F
  pub disk_usage_bytes : ℕ
  pub disk_total_bytes : ℕ
  pub disk_percent : F
  pub network_rx_bytes : F
  pub network_tx_bytes : F
  pub load1 : F
  pub load5 : F
  pub load15 : F

abbrev pub queries : Assoc String
queries =
    ("cpu", "100 - (avg by (instance) (rate(node_cpu_seconds_total{mode=\"idle\"}[5m])) * 100)")
    ∷ ("cpu_cores", "count by (instance) (node_cpu_seconds_total{mode=\"idle\"})")
    ∷ ("cpu_used", "sum by (instance) (rate(node_cpu_seconds_total{mode!=\"idle\"}[5m]))")
    ∷ ("mem_used", "node_memory_MemTotal_bytes - node_memory_MemAvailable_bytes")
    ∷ ("mem_total", "node_memory_MemTotal_bytes")
    ∷ (
      "disk_used",
      "sum by (instance) (node_filesystem_size_bytes{fstype!~\"tmpfs|overlay\"} - node_filesystem_avail_bytes{fstype!~\"tmpfs|overlay\"})",
    )
    ∷ ("disk_total", "sum by (instance) (node_filesystem_size_bytes{fstype!~\"tmpfs|overlay\"})")
    ∷ (
      "net_rx",
      "sum by (instance) (rate(node_network_receive_bytes_total{device!~\"lo|veth.*|cali.*|flannel.*\"}[5m]))",
    )
    ∷ (
      "net_tx",
      "sum by (instance) (rate(node_network_transmit_bytes_total{device!~\"lo|veth.*|cali.*|flannel.*\"}[5m]))",
    )
    ∷ ("load1", "node_load1")
    ∷ ("load5", "node_load5")
    ∷ ("load15", "node_load15")
    ∷ []

module _ {F : Type 0} (floats : Floats F) where
  abbrev pub or_zero : Option F → F
  or_zero none = floats.zero
  or_zero (some v) = v

  abbrev pub value_in : Option (Assoc F) → String → F
  value_in none inst = floats.zero
  value_in (some m) inst = or_zero (lookup inst m)

  unfoldable pub get_val : Assoc (Assoc F) → String → String → F
  get_val results metric inst = value_in (lookup metric results) inst

  unfoldable pub percent : F → F → F
  percent used total =
      if floats.is_positive total
      then floats.mul (floats.div used total) floats.hundred
      else floats.zero

  -- The metric of a node, from the value that each query has for it.
  unfoldable pub node_metric : ℕ → (String → F) → String → NodeMetric F
  unfolding percent
  node_metric now val inst = record {
    name = inst;
    time_stamp = now;
    cpu_usage = floats.int64 (floats.mul (val "cpu_used") floats.thousand);
    cpu_allocated = (floats.int64 (val "cpu_cores") * 1000) % 2 ^ 64;
    cpu_percentage = val "cpu";
    memory_usage = floats.int64 (val "mem_used");
    memory_allocated = floats.int64 (val "mem_total");
    memory_percentage = percent (val "mem_used") (val "mem_total");
    disk_usage_bytes = floats.int64 (val "disk_used");
    disk_total_bytes = floats.int64 (val "disk_total");
    disk_percent = percent (val "disk_used") (val "disk_total");
    network_rx_bytes = val "net_rx";
    network_tx_bytes = val "net_tx";
    load1 = val "load1";
    load5 = val "load5";
    load15 = val "load15";
  }

module _ {F : Type 0} (ask : String → Outcome (Assoc F)) where
  abbrev pub stored : String → Outcome (Assoc F) → Assoc (Assoc F) → Assoc (Assoc F)
  stored name (ok values) results = insert name values results
  stored name (err e) results = results
  stored name (panic m) results = results

  -- The loop over the queries; one that fails is logged.
  unfoldable pub gather : Assoc String → Assoc (Assoc F) → Assoc (Assoc F)
  gather [] results = results
  gather ((name, query) ∷ rest) results = gather rest (stored name (ask query) results)

module _ {F : Type 0} where
  unfoldable pub add_instances : Assoc F → Assoc Bool → Assoc Bool
  add_instances [] seen = seen
  add_instances ((inst, v) ∷ rest) seen = add_instances rest (insert inst true seen)

  unfoldable pub instances_of : Assoc (Assoc F) → Assoc Bool → Assoc Bool
  unfolding add_instances
  instances_of [] seen = seen
  instances_of ((name, values) ∷ rest) seen = instances_of rest (add_instances values seen)

-- The orders in which the map of the queries and that of the instances are ranged over.
pub record Orders : Type 0 where
  pub of_queries : Assoc String → Assoc String
  pub of_instances : Assoc Bool → Assoc Bool

module _ {F U : Type 0} (floats : Floats F) (web : Web F U) (orders : Orders) where
  unfoldable pub collect_node_exporter_metrics : ℕ → String → List (NodeMetric F)
  unfolding gather instances_of get_val node_metric
  collect_node_exporter_metrics now url =
      let results = gather (query_prometheus web url) (orders.of_queries queries) [] in
      map
        (λ (i : String × Bool).
          node_metric floats now (λ metric. get_val floats results metric i.0) i.0)
        (orders.of_instances (instances_of results []))

-- apicontracts.MetricsReport
pub record MetricsReport (F : Type 0) : Type 0 where
  pub owner : OwnerReference
  pub nodes : List (NodeMetric F)

module _ {F U W : Type 0} (floats : Floats F) (web : Web F U) (orders : Orders)
    (post_report : MetricsReport F → W → Option ForeignError × W) where
  abbrev answered : Option ForeignError × W → Outcome (Unit {0}) × W
  answered (none, w) = (ok tt, w)
  answered (some e, w) = (err (foreign e), w)

  abbrev posted : OwnerReference → List (NodeMetric F) → W → Outcome (Unit {0}) × W
  posted owner [] w = (ok tt, w)
  posted owner (n ∷ ns) w = answered (post_report (record { owner = owner; nodes = n ∷ ns }) w)

  unfoldable pub node_exporter_reporting : ℕ → String → OwnerReference → W → Outcome (Unit {0}) × W
  unfolding collect_node_exporter_metrics
  node_exporter_reporting now url owner w =
      if url == ""
      then (ok tt, w)
      else posted owner (collect_node_exporter_metrics floats web orders now url) w
