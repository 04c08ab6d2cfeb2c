-- ===== src/ClusterHandler/Update.antt =====
-- `updateClusterResource` of v2/internal/handlers/clusterhandler/clusterhandler.go: the cluster resource is
-- registered at once when the API has none, and queued as an update from then on.
--
-- The operations of the API and of the cache of ror/pkg act on a world `W`; a time is a number.
pub mod Again
pub mod Owner
pub mod Ticks
use ror_agent.Prelude.{
  ℕ, String, ◌==◌, Bool, true, false, ◌||◌, not, List, [], ◌∷◌, Assoc, text_at, Option, none, some,
  Error, context, foreign, ForeignError, Outcome, ok, err, panic, ◌⊎◌, inl, inr, if◌then◌else◌,
}
use ror_agent.WorkQueue.{Action, add, update, OwnerReference}
use ror_agent.ClusterHandler.Urls.{RouteSource, get_urls}
use ror_agent.ClusterHandler.Nodes.{NodeQuery, NodeInfo, StatusNodes, get_nodes}
use ror_agent.ClusterHandler.Environment.{
  HintSource, get_hints_config_map, get_versions, get_environment,
}

-- rortypes.KubernetesClusterAgentStatus
pub record AgentStatus (Q : Type 0) : Type 0 where
  pub cluster_id : String
  pub cluster_name : String
  pub kubernetes_provider : String
  pub az : String
  pub region : String
  pub country : String
  pub workspace : String
  pub datacenter : String
  pub environment : String
  pub versions : Assoc String
  pub nodes : StatusNodes Q
  pub api_server : String
  pub ca_cert : String
  pub egress_ip : String
  pub last_seen : ℕ
  pub created_at : ℕ
  pub urls : Assoc String

-- rortypes.ResourceRorMeta
pub record RorMeta : Type 0 where
  pub version : String
  pub owner : OwnerReference
  pub action : Action
  pub last_reported : ℕ
  pub hash : String

-- rorresources.Resource, of the kind KubernetesCluster; its struct is a pointer, and nil is `none`.
pub record ClusterResource (Q : Type 0) : Type 0 where
  pub uid : String
  pub name : String
  pub created : ℕ
  pub meta : RorMeta
  pub status : Option (AgentStatus Q)

-- What the client of the agent answers: the interregator, the namespace kube-system and the sources of
-- the status.
pub record AgentView (Q : Type 0) : Type 0 where
  pub cluster_id : String
  pub cluster_name : String
  pub kubernetes_provider : String
  pub az : String
  pub region : String
  pub country : String
  pub workspace : String
  pub datacenter : String
  pub api_server : String
  pub ca_cert : String
  pub egress_ip : String
  pub clientset : Option ForeignError
  pub kube_system_created : ForeignError ⊎ ℕ
  pub routes : RouteSource
  pub hints : HintSource
  pub nodes : NodeQuery Q
  pub pool_order : Assoc (List (NodeInfo Q)) → List (String × List (NodeInfo Q))

-- The API by its resources of the kind, the cache by its queue and its owner, and what a new resource
-- is: `NewRorKubernetesClusterResource`, `NewResourceFromStruct`, `SetRorMeta` by its error, `GenRorHash` by the hash.
pub record Registry (Q W : Type 0) : Type 0 where
  pub get_resources : W → (ForeignError ⊎ List (ClusterResource Q)) × W
  pub update_resource : ClusterResource Q → W → Option ForeignError × W
  pub add_resource : ClusterResource Q → W → W
  pub cache_owner : OwnerReference
  pub new_resource : ClusterResource Q
  pub from_struct : ClusterResource Q → ClusterResource Q
  pub meta_error : RorMeta → Option ForeignError
  pub ror_hash : ClusterResource Q → String
  -- aclmodels.Acl2ScopeCluster
  pub scope_cluster : String

-- The values of `uuid.NewString` and `time.Now` in one call.
pub record Moment : Type 0 where
  pub new_uid : String
  pub created : ℕ
  pub reported : ℕ
  pub seen : ℕ

-- The owner of the client of the API, the CLUSTER_UID of `rorconfig`, and the world.
pub record ClusterState (W : Type 0) : Type 0 where
  pub client_owner : OwnerReference
  pub config_cluster_uid : String
  pub world : W

abbrev pub Result : Type 0 → Type 0
Result W = Outcome (Unit {0}) × ClusterState W

abbrev pub created_of : Option ForeignError → (ForeignError ⊎ ℕ) → ℕ
created_of (some e) r = 0
created_of none (inl e) = 0
created_of none (inr t) = t

module _ {Q : Type 0} (view : AgentView Q) (now : Moment) where
  unfoldable pub full_status : Option (Assoc String) → AgentStatus Q
  full_status hints = record {
    cluster_id = view.cluster_id;
    cluster_name = view.cluster_name;
    kubernetes_provider = view.kubernetes_provider;
    az = view.az;
    region = view.region;
    country = view.country;
    workspace = view.workspace;
    datacenter = view.datacenter;
    environment = get_environment view.hints hints;
    versions = get_versions view.hints hints;
    nodes = get_nodes view.nodes view.pool_order;
    api_server = view.api_server;
    ca_cert = view.ca_cert;
    egress_ip = view.egress_ip;
    last_seen = now.seen;
    created_at = created_of view.clientset view.kube_system_created;
    urls = get_urls view.routes;
  }

  unfoldable pub partial_status : Option (Assoc String) → AgentStatus Q → AgentStatus Q
  partial_status hints status = record status {
    last_seen = now.seen;
    versions = get_versions view.hints hints;
    urls = get_urls view.routes;
    nodes = get_nodes view.nodes view.pool_order;
  }

  unfoldable pub status_of : Bool → AgentStatus Q → AgentStatus Q
  unfolding full_status partial_status
  status_of is_new status =
      let hints = get_hints_config_map view.hints in
      if is_new || not (text_at "RorAgent" status.versions == view.hints.agent_version)
      then full_status hints
      else partial_status hints status

abbrev pub registered : {W : Type 0} → Option ForeignError × W → ClusterState W → Result W
registered (some e, w) s = (
  err (context "failed to synchronously register KubernetesCluster resource" (foreign e)),
  record s { world = w },
)
registered (none, w) s = (ok tt, record s { world = w })

module _ {Q W : Type 0} (registry : Registry Q W) where
  abbrev pub cluster_owner : String → OwnerReference
  cluster_owner uid = record { scope = registry.scope_cluster; subject = uid }

  -- GenRorHash sets the hash.
  abbrev pub hashed : ClusterResource Q → ClusterResource Q
  hashed r = record r { meta = record r.meta { hash = registry.ror_hash r } }

  abbrev pub new_meta : RorMeta
  new_meta = record {
    version = "v2";
    owner = registry.cache_owner;
    action = add;
    last_reported = 0;
    hash = "";
  }

  -- The resource as it is sent from the second time on.
  abbrev pub known_resource : ClusterResource Q → ClusterResource Q
  known_resource r = record r {
    meta = record r.meta { action = update; owner = cluster_owner r.uid };
  }

module _ {Q W : Type 0} (registry : Registry Q W) (view : AgentView Q) (now : Moment) where
  unfoldable pub reported_resource : Bool → AgentStatus Q → ClusterResource Q → ClusterResource Q
  reported_resource is_new status r = hashed registry (record r {
    name = view.cluster_id;
    meta = record r.meta { last_reported = now.reported };
    status = some (status_of view now is_new status);
  })

  abbrev pub handed_on : Bool → ClusterResource Q → ClusterState W → Result W
  handed_on true r s = registered (registry.update_resource r s.world) s
  handed_on false r s = (ok tt, record s { world = registry.add_resource r s.world })

  -- What follows the look for the resource; a resource of another kind has no status to read.
  abbrev pub with_status :
      Bool → Option (AgentStatus Q) → ClusterResource Q → ClusterState W → Result W
  with_status is_new none r s = (panic "nil pointer dereference", s)
  with_status is_new (some status) r s = handed_on is_new (reported_resource is_new status r) s

  unfoldable pub report_resource : Bool → ClusterResource Q → ClusterState W → Result W
  unfolding reported_resource
  report_resource is_new r s =
      with_status is_new r.status r
        (record s { client_owner = cluster_owner registry r.uid; config_cluster_uid = r.uid })

  -- The resource that is made if the API has none.
  abbrev pub first_resource : ClusterResource Q
  first_resource = record registry.new_resource {
    uid = now.new_uid;
    created = now.created;
    meta = new_meta registry;
  }

  abbrev pub made : Option ForeignError → ClusterState W → Result W
  made (some e) s = (err (foreign e), s)
  made none s = report_resource true first_resource s

  abbrev pub found : (ForeignError ⊎ List (ClusterResource Q)) → ClusterState W → Result W
  found (inl e) s =
      (err (context "error fetching existing resources for cluster handler" (foreign e)), s)
  found (inr []) s = made (registry.meta_error (new_meta registry)) s
  found (inr (r ∷ rs)) s =
      report_resource false (known_resource registry (registry.from_struct r)) s

  unfoldable pub update_cluster_resource : ClusterState W → Result W
  unfolding report_resource
  update_cluster_resource s =
      let (r, w) = registry.get_resources s.world in found r (record s { world = w })
