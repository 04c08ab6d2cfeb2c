-- ===== src/Tests/Ingresses.antt =====
-- Runs of internal/utils/ingress.go, against a cluster that has a service "web" and no other.
use ror_agent.Prelude.{
  ℕ, String, ◌≡◌, refl, ◌⊎◌, inl, inr, true, List, [], ◌∷◌, map, Option, none, some, Error,
  ForeignError, ok, panic, arith, ◌==◌, if◌then◌else◌,
}
use ror_agent.Ingress.Types.{
  Service, Client, Ingress, K8sIngress, K8sRule, K8sPath, K8sEndpoint, K8sService,
}
use ror_agent.Ingress.Health.{get_ingress_health, get_ingress_health_lem, is_healthy, contains}
use ror_agent.Ingress.Service.{get_ingress_service, collect_slices, address, key}
use ror_agent.Ingress.Service.Dedup.{collect_slices_lem, keys, distinct, all_addresses}
use ror_agent.Ingress.Details.{get_ingress_details}
use ror_agent.Ingress.Details.Reference.{IsSteady, plain_rule, get_ingress_details_lem}
use ror_agent.Ingress.Details.Resources.{get_ingress_details_panic, any_resource_rule, nil_pointer}

abbrev missing : ForeignError
missing = record { is_not_found = true; text = "not found" }

abbrev endpoint : String → K8sEndpoint
endpoint pod = record { node_name = some "n1"; target_ref = some pod }

abbrev slices : List (List K8sEndpoint)
slices = (endpoint "p1" ∷ endpoint "p2" ∷ []) ∷ (endpoint "p1" ∷ []) ∷ []

abbrev web : K8sService
web = record { service_type = "NodePort"; selector = []; ports = [] }

abbrev find_service : String → ForeignError ⊎ K8sService
find_service name = if name == "web" then inr web else inl missing

-- The world counts the calls.
abbrev cluster : Client ℕ
cluster = record {
  get_service = λ namespace name w. (find_service name, ℕ.suc w);
  list_slices = λ namespace name w. (inr slices, ℕ.suc w);
  get_endpoints = λ namespace name w. (inl missing, ℕ.suc w);
}

fetch : String → Service × Option Error
fetch name = (get_ingress_service cluster "ns" name 0).0

cluster-IsSteady : IsSteady cluster "ns" fetch
unfolding fetch get_ingress_service
cluster-IsSteady name w = ground arith

abbrev path_to : String → K8sPath
path_to name = record { path = "/"; backend_service = some name }

abbrev rules : List K8sRule
rules =
    record { host = "h1"; http = some (path_to "web" ∷ path_to "gone" ∷ path_to "web" ∷ []) }
    ∷ record { host = "h2"; http = none }
    ∷ []

abbrev ingress_of : List K8sRule → K8sIngress
ingress_of rs = record {
  uid = "u";
  name = "i";
  namespace = "ns";
  class_name = some "nginx-internett";
  rules = some rs;
  load_balancer = some (record { hostname = "h1"; ip = "10.0.0.1" } ∷ []);
}

abbrev reported : List K8sRule → Ingress
reported rs = record {
  uid = "u";
  health = 1;
  name = "i";
  namespace = "ns";
  class = "nginx-internett";
  rules = map (plain_rule cluster "ns" fetch (ingress_of rs).load_balancer) rs;
}

get_ingress_details_lem_example :
    (w' : ℕ) × (get_ingress_details (some cluster) (ingress_of rules) 0
      ≡ ok (get_ingress_health (reported rules), w'))
get_ingress_details_lem_example =
    get_ingress_details_lem cluster fetch (ingress_of rules) rules 0 cluster-IsSteady refl
      ((("web", refl), (("gone", refl), (("web", refl), tt))), (tt, tt))

get_ingress_health_lem_example :
    get_ingress_health (reported rules)
    ≡ record (reported rules) { health = if is_healthy (reported rules) then 1 else 3 }
get_ingress_health_lem_example = get_ingress_health_lem (reported rules)

collect_slices_lem_example :
    let found = keys (collect_slices slices ([], [])).1 in
    (distinct found ≡ true)
    × (contains found "n1|p1" ≡ contains (keys (all_addresses slices)) "n1|p1")
collect_slices_lem_example = collect_slices_lem slices "n1|p1"

two_endpoints :
    (collect_slices slices ([], [])).1 ≡ address (endpoint "p1") ∷ address (endpoint "p2") ∷ []
unfolding collect_slices contains address key
two_endpoints = refl

abbrev to_resource : List K8sRule
to_resource =
    record {
      host = "h1";
      http = some (path_to "web" ∷ record { path = "/"; backend_service = none } ∷ []);
    }
    ∷ []

get_ingress_details_panic_example :
    get_ingress_details (some cluster) (ingress_of to_resource) 0 ≡ panic nil_pointer
get_ingress_details_panic_example =
    get_ingress_details_panic cluster (ingress_of to_resource) to_resource 0 refl
      (unfold any_resource_rule in refl)
