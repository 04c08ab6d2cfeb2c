-- ===== src/Tests/Clusters.antt =====
-- Runs of v2/internal/handlers/clusterhandler/clusterhandler.go, against an API that holds the list of its
-- resources. A quantity is a number.
use ror_agent.Prelude.{
  ℕ, String, ◌≡◌, refl, true, false, List, [], ◌∷◌, none, some, ForeignError, inl, inr, unshuffled,
}
use ror_agent.WorkQueue.{add, OwnerReference}
use ror_agent.ClusterHandler.Urls.{
  RouteSource, get_url, get_url_from_ingress, get_url_from_http_route, ingress_url, rule_url,
}
use ror_agent.ClusterHandler.Urls.Candidates.{first_url, candidates, get_url_lem}
use ror_agent.ClusterHandler.Nodes.{ClusterNode, NodeQuery, get_nodes}
use ror_agent.ClusterHandler.Nodes.Pools.{Grouped, get_nodes-Grouped}
use ror_agent.ClusterHandler.Environment.{HintSource}
use ror_agent.ClusterHandler.Update.{
  AgentStatus, AgentView, ClusterResource, Registry, Moment, ClusterState, first_resource,
  reported_resource, update_cluster_resource,
}
use ror_agent.ClusterHandler.Update.Again.{Registers, Requeues, update_cluster_resource-Requeues}
use ror_agent.ClusterHandler.Update.Ticks.{start, Keeps, Settled, Answers, start-Settled}

abbrev down : ForeignError
down = record { is_not_found = false; text = "down" }

abbrev routes : RouteSource
routes = record {
  discovery_client = none;
  ingress_kinds = inr ("Ingress" ∷ []);
  route_kinds = inl down;
  clientset = none;
  ingress = λ namespace name. inr (record { tls = [] ∷ []; rule_hosts = "" ∷ "argo.example" ∷ [] });
  dynamic_client = none;
  route = λ namespace name. inl down;
}

get_url_lem_example :
    get_url routes "argocd" "argocd-server" true false
    ≡ first_url (candidates routes "argocd" "argocd-server" true false)
get_url_lem_example = get_url_lem routes "argocd" "argocd-server" true false

argo_url : get_url routes "argocd" "argocd-server" true false ≡ "https://argo.example"
unfolding get_url get_url_from_ingress get_url_from_http_route ingress_url rule_url
argo_url = refl

abbrev worker : String → String → ClusterNode ℕ
worker name pool = record {
  name = name;
  capacity = ("cpu", 4) ∷ [];
  architecture = "amd64";
  kubelet_version = "1.30";
  labels = ("node.kubernetes.io/nodepool", pool) ∷ [];
}

abbrev cluster : NodeQuery ℕ
cluster = record {
  nodes = worker "n1" "a" ∷ worker "n2" "b" ∷ worker "n3" "a" ∷ [];
  metrics_client = none;
  node_metrics = inr (("n1", record { cpu = 1; memory = 2 }) ∷ []);
  zero_quantity = 0;
}

get_nodes-Grouped_example : Grouped cluster (get_nodes cluster (λ m. m))
get_nodes-Grouped_example = get_nodes-Grouped cluster (λ m. m) unshuffled

abbrev hints : HintSource
hints = record {
  clientset = none;
  config_map = inr (some (("environment", "prod") ∷ []));
  interregator_environment = "undefined";
  cluster_name = "d-one";
  agent_version = "2.0";
  unknown_undefined = "undefined";
  unknown_environment = "unknown";
}

abbrev pub view : AgentView ℕ
view = record {
  cluster_id = "c1";
  cluster_name = "d-one";
  kubernetes_provider = "talos";
  az = "az1";
  region = "r1";
  country = "no";
  workspace = "w1";
  datacenter = "dc1";
  api_server = "https://api";
  ca_cert = "cert";
  egress_ip = "10.0.0.1";
  clientset = none;
  kube_system_created = inr 5;
  routes = routes;
  hints = hints;
  nodes = cluster;
  pool_order = λ m. m;
}

abbrev blank_status : AgentStatus ℕ
blank_status = record {
  cluster_id = "";
  cluster_name = "";
  kubernetes_provider = "";
  az = "";
  region = "";
  country = "";
  workspace = "";
  datacenter = "";
  environment = "";
  versions = [];
  nodes = record { control_plane = []; nodepools = [] };
  api_server = "";
  ca_cert = "";
  egress_ip = "";
  last_seen = 0;
  created_at = 0;
  urls = [];
}

abbrev pub client : OwnerReference
client = record { scope = "cluster"; subject = "c1" }

abbrev pub blank : ClusterResource ℕ
blank = record {
  uid = "";
  name = "";
  created = 0;
  meta = record { version = ""; owner = client; action = add; last_reported = 0; hash = "" };
  status = some blank_status;
}

-- The world is what the API holds; the cache hands an update on at once.
abbrev registry : Registry ℕ (List (ClusterResource ℕ))
registry = record {
  get_resources = λ w. (inr w, w);
  update_resource = λ r w. (none, r ∷ []);
  add_resource = λ r w. r ∷ [];
  cache_owner = client;
  new_resource = blank;
  from_struct = λ r. r;
  meta_error = λ m. none;
  ror_hash = λ r. r.uid;
  scope_cluster = "cluster";
}

abbrev pub now : Moment
now = record { new_uid = "u1"; created = 10; reported = 11; seen = 12 }

abbrev later : Moment
later = record { new_uid = "u2"; created = 20; reported = 21; seen = 22 }

abbrev fresh_state : ClusterState (List (ClusterResource ℕ))
fresh_state = record { client_owner = client; config_cluster_uid = ""; world = [] }

abbrev first : ClusterResource ℕ
first = reported_resource registry view now true blank_status (first_resource registry view now)

registers : Registers registry view now fresh_state blank_status [] (first ∷ [])
registers = record { empty = refl; meta = refl; blank = refl; taken = refl }

update_cluster_resource-Requeues_example : Requeues registry view view now later (first ∷ []) (
    update_cluster_resource registry view later
      (update_cluster_resource registry view now fresh_state).1)
update_cluster_resource-Requeues_example =
    update_cluster_resource-Requeues registry view view now later fresh_state blank_status []
      (first ∷ []) (first ∷ []) registers refl (λ r. refl)

-- The API holds a resource of the uid.
Holds : List (ClusterResource ℕ) → Type 0
Holds [] = ⊥
Holds (r ∷ rs) = r.uid ≡ "u1"

get-Holds : (w : List (ClusterResource ℕ)) → Holds w → Answers registry "u1" Holds (inr w, w)
unfolding Holds
get-Holds [] h = h
get-Holds (r ∷ rs) h = (h, h)

keeps : Keeps registry "u1" Holds
unfolding Holds
keeps = record { get = get-Holds; put = λ r w e h. e }

first-Holds : Holds (first ∷ [])
unfolding Holds reported_resource
first-Holds = refl

start-Settled_example :
    Settled registry "u1" Holds (start registry view now ((view, later) ∷ []) fresh_state).1
start-Settled_example =
    start-Settled registry Holds view now ((view, later) ∷ []) fresh_state blank_status []
      (first ∷ []) keeps registers first-Holds
