-- ===== src/Programs/Order.antt =====
-- What has been done when the watchers of v2/cmd/agent/main.go start.
use ror_agent.Prelude.{
  ◌≡◌, refl, ap, subst, true, false, List, [], ◌∷◌, Option, none, some, ForeignError, Outcome, ok,
  err, panic, ◌⊎◌, inl, inr, >>=-eq-ok, ◌>>◌, ok-injective,
}
use ror_agent.AgentClient.{Agent, Api, Config}
use ror_agent.AgentClient.Startup.{new_ror_agent_client}
use ror_agent.ClusterHandler.Update.{
  AgentView, ClusterResource, Registry, Moment, ClusterState, cluster_owner, new_meta,
  known_resource, first_resource, made, found, update_cluster_resource,
}
use ror_agent.ClusterHandler.Update.Owner.{OwnerMatches, report_resource-OwnerMatches}
use ror_agent.DynamicClient.{must_start}
use ror_agent.Programs.{
  Setting, entry, after_start, after_cache, after_client, must, main, fatal-eq-ok, set_up_scheduler,
  health_must_start, must_init_new_ror_agent_client,
}

module _ {Q W : Type 0} (registry : Registry Q W) (view : AgentView Q) (now : Moment) where
  made-OwnerMatches :
      (failed : Option ForeignError) (s : ClusterState W)
      → (made registry view now failed s).0 ≡ ok tt
      → OwnerMatches registry (made registry view now failed s).1
  made-OwnerMatches (some e) s h = cc
  made-OwnerMatches none s h =
      report_resource-OwnerMatches registry view now true (first_resource registry view now) s

  found-OwnerMatches :
      (r : ForeignError ⊎ List (ClusterResource Q)) (s : ClusterState W)
      → (found registry view now r s).0 ≡ ok tt
      → OwnerMatches registry (found registry view now r s).1
  found-OwnerMatches (inl e) s h = cc
  found-OwnerMatches (inr []) s h = made-OwnerMatches (registry.meta_error (new_meta registry)) s h
  found-OwnerMatches (inr (r ∷ rs)) s h =
      report_resource-OwnerMatches registry view now false
        (known_resource registry (registry.from_struct r)) s

  update_cluster_resource_speaks :
      (s : ClusterState W)
      → (update_cluster_resource registry view now s).0 ≡ ok tt
      → OwnerMatches registry (update_cluster_resource registry view now s).1
  unfolding update_cluster_resource
  update_cluster_resource_speaks s h =
      let (r, w) = registry.get_resources s.world in found-OwnerMatches r (record s { world = w }) h

module _ {Q S W : Type 0} (api : Api W) (config : Config) (registry : Registry Q W)
    (view : AgentView Q) (now : Moment) (setting : Setting S W) where
  -- The watchers have been started, and this is the state.
  pub record Started (a : Agent W) (watchers : List S) (s : ClusterState W) : Type 0 where
    pub client : Agent W
    pub connected : new_ror_agent_client api config a ≡ (ok tt, client)
    pub before : ClusterState W
    pub reported : update_cluster_resource registry view now before ≡ (ok tt, s)
    pub owner : s.client_owner ≡ cluster_owner registry s.config_cluster_uid
    pub server : setting.health_server ≡ none
    pub enabled :
        must_start setting.is_enabled setting.dynamic_client setting.discovery_client []
          setting.schemas
        ≡ ok watchers

  after_start-Started :
      (a client : Agent W) (before s : ClusterState W) (watchers : List S)
      (r : Outcome (Unit {0}) × ClusterState W)
      → new_ror_agent_client api config a ≡ (ok tt, client)
      → update_cluster_resource registry view now before ≡ r
      → after_start api config registry view now setting r ≡ (ok watchers, s)
      → Started a watchers s
  unfolding after_start set_up_scheduler health_must_start
  after_start-Started a client before s watchers (ok u', t) c u h =
      let (schemas, enabled, h1) =
        >>=-eq-ok
          (must_start setting.is_enabled setting.dynamic_client setting.discovery_client []
            setting.schemas)
          _ (ap (λ (x : Outcome (List S) × ClusterState W). x.0) h) in
      let (v, served, h2) =
        >>=-eq-ok
          (set_up_scheduler setting.node_exporter_job >> health_must_start setting.health_server) _
          h1 in
      subst (Started a watchers) (ap (λ (x : Outcome (List S) × ClusterState W). x.1) h) (record {
        client = client;
        connected = c;
        before = before;
        reported = u;
        owner =
            subst (λ (x : Outcome (Unit {0}) × ClusterState W). OwnerMatches registry x.1) u
              (update_cluster_resource_speaks registry view now before
                (ap (λ (x : Outcome (Unit {0}) × ClusterState W). x.0) u));
        server = fatal-eq-ok _ setting.health_server v served;
        enabled =
            subst
              (λ l.
                must_start setting.is_enabled setting.dynamic_client setting.discovery_client []
                  setting.schemas
                ≡ ok l)
              (ok-injective h2) enabled;
      })
  after_start-Started a client before s watchers (err e, t) c u h = cc
  after_start-Started a client before s watchers (panic m, t) c u h = cc

  after_cache-Started :
      (a client : Agent W) (before s : ClusterState W) (watchers : List S)
      (r : Option ForeignError × W)
      → new_ror_agent_client api config a ≡ (ok tt, client)
      → after_cache api config registry view now setting r before ≡ (ok watchers, s)
      → Started a watchers s
  unfolding after_cache
  after_cache-Started a client before s watchers (some e, w) c h = cc
  after_cache-Started a client before s watchers (none, w) c h =
      after_start-Started a client (record before { world = w }) s watchers
        (update_cluster_resource registry view now (record before { world = w })) c refl h

  after_client-Started :
      (a : Agent W) (s : ClusterState W) (watchers : List S) (r : Outcome (Unit {0}) × Agent W)
      → new_ror_agent_client api config a ≡ r
      → after_client api config registry view now setting
          (must "failed to initialize RorAgentClient" r)
        ≡ (ok watchers, s)
      → Started a watchers s
  unfolding after_client
  after_client-Started a s watchers (ok u, b) c h =
      after_cache-Started a b (entry api config registry view now setting b) s watchers
        (setting.new_cache b.world) c h
  after_client-Started a s watchers (err e, b) c h = cc
  after_client-Started a s watchers (panic m, b) c h = cc

  -- If main of version 2 comes to wait, then the client of the agent was made, a call of
  -- updateClusterResource has just succeeded, the client speaks for the cluster of the uid in the
  -- configuration, the watchers are those that MustStart starts, and the health server has
  -- started.
  pub main-Started :
      (a : Agent W) (watchers : List S) (s : ClusterState W)
      → main api config registry view now setting a ≡ (ok watchers, s)
      → Started a watchers s
  unfolding main must_init_new_ror_agent_client
  main-Started a watchers s h =
      after_client-Started a s watchers (new_ror_agent_client api config a) refl h
