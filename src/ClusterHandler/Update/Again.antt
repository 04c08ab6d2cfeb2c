-- ===== src/ClusterHandler/Update/Again.antt =====
-- The first and the second call of `updateClusterResource`.
use ror_agent.Prelude.{
  String, ◌≡◌, refl, ap, inr, true, false, List, [], ◌∷◌, text_at, lookup, none, some, Outcome, ok,
  ◌==◌, if◌then◌else◌, Bool-cases, inl, Option, Assoc,
}
use ror_agent.WorkQueue.{update}
use ror_agent.ClusterHandler.Environment.{
  HintSource, get_hints_config_map, get_versions, get_environment,
}
use ror_agent.ClusterHandler.Nodes.{get_nodes}
use ror_agent.ClusterHandler.Urls.{get_urls}
use ror_agent.ClusterHandler.Update.{
  AgentStatus, created_of, ClusterResource, AgentView, Registry, Moment, ClusterState, full_status,
  partial_status, status_of, cluster_owner, reported_resource, new_meta, first_resource,
  known_resource, update_cluster_resource,
}

-- The state behind a call that found or made the resource of a uid.
abbrev pub owned_by : {Q W : Type 0} → Registry Q W → String → W → ClusterState W
owned_by registry uid w = record {
  client_owner = cluster_owner registry uid;
  config_cluster_uid = uid;
  world = w;
}

module _ {Q W : Type 0} (registry : Registry Q W) (view : AgentView Q) (now : Moment) where
  -- A call that registers: the API has no resource, and takes the new one.
  pub record Registers (s : ClusterState W) (status : AgentStatus Q) (w w' : W) : Type 0 where
    pub empty : registry.get_resources s.world ≡ (inr [], w)
    pub meta : registry.meta_error (new_meta registry) ≡ none
    pub blank : registry.new_resource.status ≡ some status
    pub taken :
        registry.update_resource
          (reported_resource registry view now true status (first_resource registry view now))
          w
        ≡ (none, w')

  pub update_cluster_resource_new :
      (s : ClusterState W) (status : AgentStatus Q) (w w' : W)
      → Registers s status w w'
      → update_cluster_resource registry view now s ≡ (ok tt, owned_by registry now.new_uid w')
  unfolding update_cluster_resource
  update_cluster_resource_new s status w w' h = rw (h.empty, h.meta, h.blank, h.taken)

  update_cluster_resource_known :
      (s : ClusterState W) (r : ClusterResource Q) (rs : List (ClusterResource Q))
      (status : AgentStatus Q) (w : W)
      → registry.get_resources s.world ≡ (inr (r ∷ rs), w)
      → registry.from_struct r ≡ r
      → r.status ≡ some status
      → update_cluster_resource registry view now s ≡ (
        ok tt,
        owned_by registry r.uid (
            registry.add_resource
              (reported_resource registry view now false status (known_resource registry r))
              w),
      )
  unfolding update_cluster_resource
  update_cluster_resource_known s r rs status w e f h = rw (e, f, h)

-- The status that a view and a moment give in full.
abbrev pub whole_status : {Q : Type 0} → AgentView Q → Moment → AgentStatus Q
whole_status view now = record {
  cluster_id = view.cluster_id;
  cluster_name = view.cluster_name;
  kubernetes_provider = view.kubernetes_provider;
  az = view.az;
  region = view.region;
  country = view.country;
  workspace = view.workspace;
  datacenter = view.datacenter;
  environment = get_environment view.hints (get_hints_config_map view.hints);
  versions = get_versions view.hints (get_hints_config_map view.hints);
  nodes = get_nodes view.nodes view.pool_order;
  api_server = view.api_server;
  ca_cert = view.ca_cert;
  egress_ip = view.egress_ip;
  last_seen = now.seen;
  created_at = created_of view.clientset view.kube_system_created;
  urls = get_urls view.routes;
}

-- The status where a later view and moment renew the versions, the nodes, the time and the urls.
abbrev pub renewed_status :
    {Q : Type 0} → AgentView Q → Moment → AgentView Q → Moment → AgentStatus Q
renewed_status view now view' later = record {
  cluster_id = view.cluster_id;
  cluster_name = view.cluster_name;
  kubernetes_provider = view.kubernetes_provider;
  az = view.az;
  region = view.region;
  country = view.country;
  workspace = view.workspace;
  datacenter = view.datacenter;
  environment = get_environment view.hints (get_hints_config_map view.hints);
  versions = get_versions view'.hints (get_hints_config_map view'.hints);
  nodes = get_nodes view'.nodes view'.pool_order;
  api_server = view.api_server;
  ca_cert = view.ca_cert;
  egress_ip = view.egress_ip;
  last_seen = later.seen;
  created_at = created_of view.clientset view.kube_system_created;
  urls = get_urls view'.routes;
}

ror_agent-version :
    (source : HintSource) (hints : Option (Assoc String))
    → text_at "RorAgent" (get_versions source hints) ≡ source.agent_version
unfolding get_versions text_at lookup
ror_agent-version source hints = refl

status_of-twice :
    {Q : Type 0} (view view' : AgentView Q) (now later : Moment) (status : AgentStatus Q)
    → status_of view' later false (status_of view now true status) ≡ (
        if view.hints.agent_version == view'.hints.agent_version
        then renewed_status view now view' later
        else whole_status view' later)
unfolding status_of full_status partial_status
status_of-twice view view' now later status =
    let hints = get_hints_config_map view.hints in
    elim (Bool-cases (view.hints.agent_version == view'.hints.agent_version)) [
      | inl y ↦ rw (ror_agent-version view.hints hints, y) refl
      | inr n ↦ rw (ror_agent-version view.hints hints, n) refl
    ]

-- What the second call does: it queues an update of the resource that the first call registered.
pub record Requeues {Q W : Type 0} (registry : Registry Q W) (view view' : AgentView Q)
    (now later : Moment) (w : W) (result : Outcome (Unit {0}) × ClusterState W) : Type 0 where
  pub queued : ClusterResource Q
  pub same : result ≡ (ok tt, owned_by registry now.new_uid (registry.add_resource queued w))
  pub uid : queued.uid ≡ now.new_uid
  pub created : queued.created ≡ now.created
  pub action : queued.meta.action ≡ update
  pub owner : queued.meta.owner ≡ cluster_owner registry now.new_uid
  pub name : queued.name ≡ view'.cluster_id
  pub reported : queued.meta.last_reported ≡ later.reported
  pub status :
      queued.status
      ≡ some (
          if view.hints.agent_version == view'.hints.agent_version
          then renewed_status view now view' later
          else whole_status view' later)

-- If a first call of updateClusterResource finds no resource, makes one and registers it, the API
-- then answers with that resource alone, and a resource made from a struct is the struct, then
-- the second call queues an update with the uid and the creation time of the first, the cluster
-- of that uid as its owner, the identifier of the cluster at the second call as its name and the
-- time of the second call as its last report; its status is that of the first with the versions,
-- the nodes, the urls and the time of the second if the version of the agent is the same, and
-- else each field is that of the second.
pub update_cluster_resource-Requeues :
    {Q W : Type 0} (registry : Registry Q W) (view view' : AgentView Q) (now later : Moment)
    (s : ClusterState W) (status : AgentStatus Q) (w w' w'' : W)
    → Registers registry view now s status w w'
    → registry.get_resources w' ≡ (
      inr (reported_resource registry view now true status (first_resource registry view now) ∷ []),
      w'',
    )
    → ((r : ClusterResource Q) → registry.from_struct r ≡ r)
    → Requeues registry view view' now later w'' (
        update_cluster_resource registry view' later
          (update_cluster_resource registry view now s).1)
unfolding reported_resource
update_cluster_resource-Requeues registry view view' now later s status w w' w'' h kept copied =
    let r = reported_resource registry view now true status (first_resource registry view now) in
    let again = known_resource registry r in
    record {
      queued = reported_resource registry view' later false (status_of view now true status) again;
      same = rw (update_cluster_resource_new registry view now s status w w' h) (
          update_cluster_resource_known registry view' later (owned_by registry now.new_uid w') r []
            (status_of view now true status) w'' kept (copied r) refl);
      uid = refl;
      created = refl;
      action = refl;
      owner = refl;
      name = refl;
      reported = refl;
      status = ap some (status_of-twice view view' now later status);
    }
