-- ===== src/NodeExporter/Prometheus.antt =====
-- `queryPrometheus` and `stripPort` of v2/internal/scheduler/nodeexporter.go. The packages net/url,
-- net/http, encoding/json, net and fmt are parameters.
use ror_agent.Prelude.{
  ℕ, String, ◌==◌, ◌<>◌, sprint, List, [], ◌∷◌, Assoc, text_at, insert, Option, none, some, message,
  context, foreign, ForeignError, Outcome, ok, err, ◌>>=◌, ◌⊎◌, inl, inr, eqb, if◌then◌else◌,
}

-- A result: its labels, and the second part of its value as a text, or that it is none.
pub record Sample : Type 0 where
  pub metric : Assoc String
  pub value : ForeignError ⊎ String

-- prometheusQueryResult
pub record QueryResult : Type 0 where
  pub status : String
  pub result : List Sample

-- The reply to a request: its status code, and its body up to 1 MB.
pub record Reply : Type 0 where
  pub status_code : ℕ
  pub body : ForeignError ⊎ String

pub record Web (F U : Type 0) : Type 0 where
  pub parse : String → ForeignError ⊎ U
  -- the URL with the path and the query of a request
  pub with_query : String → String → U → U
  pub new_request : U → Option ForeignError
  pub do_request : U → ForeignError ⊎ Reply
  pub unmarshal : String → ForeignError ⊎ QueryResult
  pub split_host_port : String → ForeignError ⊎ String
  -- fmt.Sscanf with %f
  pub scan : String → ForeignError ⊎ F

module _ {F U : Type 0} (web : Web F U) where
  unfoldable pub strip_port : String → ForeignError ⊎ String
  strip_port hostport = web.split_host_port hostport

  abbrev pub host_or : String → ForeignError ⊎ String → String
  host_or instance' (inl e) = instance'
  host_or instance' (inr host) = host

  abbrev pub scanned : String → ForeignError ⊎ F → Assoc F → Assoc F
  scanned inst (inl e) values = values
  scanned inst (inr v) values = insert inst v values

  abbrev pub read : String → ForeignError ⊎ String → Assoc F → Assoc F
  read inst (inl e) values = values
  read inst (inr text) values = scanned inst (web.scan text) values

  -- The loop over the results; a value that cannot be read is passed over.
  unfoldable pub add_samples : List Sample → Assoc F → Assoc F
  unfolding strip_port
  add_samples [] values = values
  add_samples (r ∷ rest) values =
      let inst = text_at "instance" r.metric in
      add_samples rest (read (host_or inst (strip_port inst)) r.value values)

  abbrev pub failed : {A : Type 0} → ForeignError ⊎ A → Outcome A
  failed (inl e) = err (foreign e)
  failed (inr a) = ok a

  abbrev pub requested : Option ForeignError → U → Outcome Reply
  requested (some e) u = err (foreign e)
  requested none u = failed (web.do_request u)

  abbrev pub parsed : ForeignError ⊎ U → Outcome U
  parsed (inl e) = err (context "invalid prometheus url" (foreign e))
  parsed (inr u) = ok u

  abbrev pub body_of : Reply → Outcome String
  body_of r =
      if eqb r.status_code 200
      then failed r.body
      else err (message ("prometheus returned status " <> sprint r.status_code))

  abbrev pub values_of : QueryResult → Outcome (Assoc F)
  values_of q =
      if q.status == "success"
      then ok (add_samples q.result [])
      else err (message ("prometheus query status: " <> q.status))

  unfoldable pub query_prometheus : String → String → Outcome (Assoc F)
  unfolding add_samples
  query_prometheus base_url query = parsed (web.parse base_url) >>= λ u.
      let u' = web.with_query "/api/v1/query" query u in
      requested (web.new_request u') u' >>= λ r.
      body_of r >>= λ body. failed (web.unmarshal body) >>= λ q. values_of q
