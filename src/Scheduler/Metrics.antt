-- ===== src/Scheduler/Metrics.antt =====
-- internal/scheduler/metrics.go: the usage of the nodes, as the metrics API has it.
use ror_agent.Prelude.{
  ℕ, String, ◌≡◌, refl, ap, Bool, List, [], ◌∷◌, Option, none, some, Error, foreign, ForeignError,
  Outcome, ok, err, panic, ◌>>=◌, ◌⊎◌, inl, inr,
}
use ror_agent.WorkQueue.{OwnerReference}

-- apicontracts.NodeMetricsListItem, by the fields that are read
pub record NodeMetricsListItem : Type 0 where
  pub name : String
  pub timestamp : ℕ
  pub usage_cpu : String
  pub usage_memory : String

-- apicontracts.NodeMetric, by the fields that are set
pub record NodeMetric : Type 0 where
  pub name : String
  pub time_stamp : ℕ
  pub cpu_usage : ℕ
  pub memory_usage : ℕ

-- apicontracts.MetricsReport
pub record MetricsReport : Type 0 where
  pub owner : OwnerReference
  pub nodes : List NodeMetric

-- ParseQuantity with MilliValue and AsInt64 of a quantity, and encoding/json.
pub record Decoding (Q : Type 0) : Type 0 where
  pub parse_quantity : String → ForeignError ⊎ Q
  pub milli_value : Q → ℕ
  pub as_int64 : Q → ℕ × Bool
  pub unmarshal : String → ForeignError ⊎ List NodeMetricsListItem

module _ {Q : Type 0} (decoding : Decoding Q) where
  open decoding use {parse_quantity, milli_value, as_int64, unmarshal}

  abbrev with_quantities :
      NodeMetricsListItem → ForeignError ⊎ Q → ForeignError ⊎ Q → Outcome NodeMetric
  with_quantities node (inl e) memory = err (foreign e)
  with_quantities node (inr cpu) (inl e) = err (foreign e)
  with_quantities node (inr cpu) (inr memory) = ok (record {
    name = node.name;
    time_stamp = node.timestamp;
    cpu_usage = milli_value cpu;
    memory_usage = (as_int64 memory).0;
  })

  unfoldable pub create_node_metrics : NodeMetricsListItem → Outcome NodeMetric
  create_node_metrics node =
      with_quantities node (parse_quantity node.usage_cpu) (parse_quantity node.usage_memory)

  abbrev appended :
      Outcome NodeMetric → List NodeMetric × Option Error → List NodeMetric × Option Error
  appended (ok m) (ms, e) = (m ∷ ms, e)
  appended (err e) rest = ([], some e)
  appended (panic m) rest = ([], none)

  -- The loop over the items, which ends at the first that cannot be read.
  unfoldable pub create_all : List NodeMetricsListItem → List NodeMetric × Option Error
  unfolding create_node_metrics
  create_all [] = ([], none)
  create_all (node ∷ nodes) =
      let rest = create_all nodes in appended (create_node_metrics node) rest

  abbrev listed : ForeignError ⊎ List NodeMetricsListItem → List NodeMetric × Option Error
  listed (inl e) = ([], some (foreign e))
  listed (inr items) = create_all items

  abbrev answered : ForeignError ⊎ String → List NodeMetric × Option Error
  answered (inl e) = ([], some (foreign e))
  answered (inr data') = listed (unmarshal data')

  -- `data` is the answer of the metrics API.
  unfoldable pub create_node_metrics_list : ForeignError ⊎ String → List NodeMetric × Option Error
  unfolding create_all
  create_node_metrics_list data' = answered data'

  module _ {W : Type 0} (post_report : MetricsReport → W → Option ForeignError × W) where
    abbrev posted : Option ForeignError × W → Outcome (Unit {0}) × W
    posted (none, w) = (ok tt, w)
    posted (some e, w) = (err (foreign e), w)

    abbrev reported : OwnerReference → List NodeMetric × Option Error → W → Outcome (Unit {0}) × W
    reported owner (nodes, some e) w = (err e, w)
    reported owner (nodes, none) w =
        posted (post_report (record { owner = owner; nodes = nodes }) w)

    unfoldable pub metrics_reporting :
        Option ForeignError → OwnerReference → ForeignError ⊎ String → W → Outcome (Unit {0}) × W
    unfolding create_node_metrics_list
    metrics_reporting (some e) owner data' w = (err (foreign e), w)
    metrics_reporting none owner data' w = reported owner (create_node_metrics_list data') w

  -- Every item, or the first error.
  unfoldable pub read_all : List NodeMetricsListItem → Outcome (List NodeMetric)
  read_all [] = ok []
  read_all (node ∷ nodes) =
      let rest = read_all nodes in create_node_metrics node >>= λ m. rest >>= λ ms. ok (m ∷ ms)

  abbrev Agree : List NodeMetric × Option Error → Outcome (List NodeMetric) → Type 0
  Agree (ms, none) (ok ms') = ms ≡ ms'
  Agree (ms, some e) (err e') = e ≡ e'
  Agree (ms, none) (err e) = ⊥
  Agree (ms, some e) (ok ms') = ⊥
  Agree (ms, e) (panic m) = ⊥

  IsRead : Outcome NodeMetric → Type 0
  IsRead (ok m) = Unit
  IsRead (err e) = Unit
  IsRead (panic m) = ⊥

  create_node_metrics-IsRead : (node : NodeMetricsListItem) → IsRead (create_node_metrics node)
  unfolding create_node_metrics IsRead
  create_node_metrics-IsRead node =
      all_read (parse_quantity node.usage_cpu) (parse_quantity node.usage_memory)
    where
      all_read : (cpu memory : ForeignError ⊎ Q) → IsRead (with_quantities node cpu memory)
      all_read (inl e) memory = tt
      all_read (inr cpu) (inl e) = tt
      all_read (inr cpu) (inr memory) = tt

  appended-Agree :
      (o : Outcome NodeMetric) (r : List NodeMetric × Option Error)
      (rest : Outcome (List NodeMetric))
      → IsRead o
      → Agree r rest
      → Agree (appended o r) (o >>= λ m. rest >>= λ ms. ok (m ∷ ms))
  unfolding IsRead
  appended-Agree (ok m) (ms, none) (ok ms') i h = ap (λ xs. m ∷ xs) h
  appended-Agree (ok m) (ms, none) (err e) i h = h
  appended-Agree (ok m) (ms, none) (panic p) i h = h
  appended-Agree (ok m) (ms, some e) (ok ms') i h = h
  appended-Agree (ok m) (ms, some e) (err e') i h = h
  appended-Agree (ok m) (ms, some e) (panic p) i h = h
  appended-Agree (err e) r rest i h = refl
  appended-Agree (panic p) r rest i h = i

  create_all-Agree : (nodes : List NodeMetricsListItem) → Agree (create_all nodes) (read_all nodes)
  unfolding create_all read_all
  create_all-Agree [] = refl
  create_all-Agree (node ∷ nodes) =
      appended-Agree (create_node_metrics node) (create_all nodes) (read_all nodes)
        (create_node_metrics-IsRead node) (create_all-Agree nodes)

module _ {Q W : Type 0} (decoding : Decoding Q)
    (post_report : MetricsReport → W → Option ForeignError × W) where
  -- A report of all the metrics, or the error and no report.
  abbrev pub all_or_none : OwnerReference → Outcome (List NodeMetric) → W → Outcome (Unit {0}) × W
  all_or_none owner (ok nodes) w =
      posted decoding post_report (post_report (record { owner = owner; nodes = nodes }) w)
  all_or_none owner (err e) w = (err e, w)
  all_or_none owner (panic m) w = (panic m, w)

  reported-Agree :
      (owner : OwnerReference) (w : W) (r : List NodeMetric × Option Error)
      (o : Outcome (List NodeMetric))
      → Agree decoding r o
      → reported decoding post_report owner r w ≡ all_or_none owner o w
  reported-Agree owner w (ms, none) (ok ms') h =
      ap
        (λ nodes.
          posted decoding post_report (post_report (record { owner = owner; nodes = nodes }) w))
        h
  reported-Agree owner w (ms, some e) (err e') h = rw h refl
  reported-Agree owner w (ms, none) (err e) h = elim h [ ]
  reported-Agree owner w (ms, some e) (ok ms') h = elim h [ ]
  reported-Agree owner w (ms, none) (panic m) h = elim h [ ]
  reported-Agree owner w (ms, some e) (panic m) h = elim h [ ]

  -- If the clientset can be made and the answer of the metrics API can be decoded,
  -- MetricsReporting posts the metrics of all its items, in order, or, if a quantity of one
  -- cannot be parsed, posts nothing and returns the error of the first such item.
  pub metrics_reporting_lem :
      (owner : OwnerReference) (data' : String) (items : List NodeMetricsListItem) (w : W)
      → decoding.unmarshal data' ≡ inr items
      → metrics_reporting decoding post_report none owner (inr data') w
        ≡ all_or_none owner (read_all decoding items) w
  unfolding metrics_reporting
  metrics_reporting_lem owner data' items w h = rw h (
      reported-Agree owner w (create_all decoding items) (read_all decoding items)
        (create_all-Agree decoding items))
