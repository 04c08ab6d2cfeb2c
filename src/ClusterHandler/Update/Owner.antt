-- ===== src/ClusterHandler/Update/Owner.antt =====
-- Whom the client of the API speaks for behind `updateClusterResource`.
use ror_agent.Prelude.{
  ◌≡◌, refl, Bool, true, false, List, [], ◌∷◌, Option, none, some, ForeignError, ◌⊎◌, inl, inr,
}
use ror_agent.ClusterHandler.Update.{
  AgentStatus, ClusterResource, AgentView, Registry, Moment, ClusterState, cluster_owner, new_meta,
  reported_resource, registered, handed_on, with_status, report_resource, made, found,
  update_cluster_resource,
}

module _ {Q W : Type 0} (registry : Registry Q W) where
  -- The client speaks for the cluster of the configuration.
  abbrev pub OwnerMatches : ClusterState W → Type 0
  OwnerMatches s = s.client_owner ≡ cluster_owner registry s.config_cluster_uid

module _ {Q W : Type 0} (registry : Registry Q W) (view : AgentView Q) (now : Moment) where
  registered-OwnerMatches :
      (r : Option ForeignError × W) (s : ClusterState W)
      → OwnerMatches registry s
      → OwnerMatches registry (registered r s).1
  registered-OwnerMatches (some e, w) s h = h
  registered-OwnerMatches (none, w) s h = h

  handed_on-OwnerMatches :
      (is_new : Bool) (r : ClusterResource Q) (s : ClusterState W)
      → OwnerMatches registry s
      → OwnerMatches registry (handed_on registry view now is_new r s).1
  handed_on-OwnerMatches true r s h =
      registered-OwnerMatches (registry.update_resource r s.world) s h
  handed_on-OwnerMatches false r s h = h

  with_status-OwnerMatches :
      (is_new : Bool) (status : Option (AgentStatus Q)) (r : ClusterResource Q) (s : ClusterState W)
      → OwnerMatches registry s
      → OwnerMatches registry (with_status registry view now is_new status r s).1
  with_status-OwnerMatches is_new none r s h = h
  with_status-OwnerMatches is_new (some status) r s h =
      handed_on-OwnerMatches is_new (reported_resource registry view now is_new status r) s h

  pub report_resource-OwnerMatches :
      (is_new : Bool) (r : ClusterResource Q) (s : ClusterState W)
      → OwnerMatches registry (report_resource registry view now is_new r s).1
  unfolding report_resource
  report_resource-OwnerMatches is_new r s =
      with_status-OwnerMatches is_new r.status r
        (record s { client_owner = cluster_owner registry r.uid; config_cluster_uid = r.uid }) refl

  made-OwnerMatches :
      (failed : Option ForeignError) (s : ClusterState W)
      → OwnerMatches registry s
      → OwnerMatches registry (made registry view now failed s).1
  made-OwnerMatches (some e) s h = h
  made-OwnerMatches none s h = report_resource-OwnerMatches true _ s

  found-OwnerMatches :
      (r : ForeignError ⊎ List (ClusterResource Q)) (s : ClusterState W)
      → OwnerMatches registry s
      → OwnerMatches registry (found registry view now r s).1
  found-OwnerMatches (inl e) s h = h
  found-OwnerMatches (inr []) s h = made-OwnerMatches (registry.meta_error (new_meta registry)) s h
  found-OwnerMatches (inr (r ∷ rs)) s h = report_resource-OwnerMatches false _ s

  -- If the client speaks for the cluster of the configuration, it does so after updateClusterResource,
  -- whatever the API answers.
  pub update_cluster_resource-OwnerMatches :
      (s : ClusterState W)
      → OwnerMatches registry s
      → OwnerMatches registry (update_cluster_resource registry view now s).1
  unfolding update_cluster_resource
  update_cluster_resource-OwnerMatches s h =
      let (r, w) = registry.get_resources s.world in found-OwnerMatches r (record s { world = w }) h
