-- ===== src/Programs/First/Mirrored.antt =====
-- What has been done when cmd/agent/main.go waits, and what its watchers then make of the ROR API.
use ror_agent.Prelude.{
  ℕ, String, ◌≡◌, refl, sym, subst, ◌⊎◌, inl, inr, true, List, [], Option, none, some, ForeignError,
  Outcome, ok, err, panic, ok-injective, >>=-eq-ok, ◌>>◌,
}
use ror_agent.WorkQueue.Pending.{pending}
use ror_agent.Resource.{Libraries}
use ror_agent.Resource.Json.{Members}
use ror_agent.ResourceCache.{Services, System, must_init}
use ror_agent.ResourceCache.Mirror.{MirrorLaws, mirror, Orderly}
use ror_agent.AgentClient.{Agent, Api, Config}
use ror_agent.AgentClient.Startup.{new_ror_agent_client}
use ror_agent.DynamicClient.{must_start}
use ror_agent.Watcher.{Call}
use ror_agent.Handlers.Delivery.{deliver_all, events_of}
use ror_agent.Handlers.Mirrored.{deliver_all-Mirrored}
use ror_agent.Programs.{fatal-eq-ok, health_must_start, must, must_init_new_ror_agent_client}
use ror_agent.Programs.First.{
  Setting, Waiting, services_of, with_hash_list, cache_client, start, after_client,
  scheduler_must_start, cache_must_init, main,
}

module _ {P S W H : Type 0} (services : Services P W H) (api : Api W) (config : Config)
    (setting : Setting S W H) where
  -- The program waits, and this has been done.
  pub record Begun (a : Agent W) (s : Waiting services api config setting) : Type 0 where
    pub connected : new_ror_agent_client api config a ≡ (ok tt, s.client)
    pub hashes : H
    pub world : W
    pub listed : setting.get_hash_list s.client.world ≡ (inr hashes, world)
    pub system :
        s.system ≡ must_init (services_of services api config setting s.client) hashes world
    pub enabled :
        must_start setting.is_enabled setting.dynamic_client setting.discovery_client []
          setting.schemas
        ≡ ok s.watchers
    pub job : setting.heartbeat_job ≡ none
    pub server : setting.health_server ≡ none

  with_hash_list_listed :
      (a : Agent W) (r : (ForeignError ⊎ H) × W)
      (s : System (services_of services api config setting a))
      → with_hash_list services api config setting a r ≡ ok s
      → (h : H) × (w : W) × (r ≡ (inr h, w))
        × (s ≡ must_init (services_of services api config setting a) h w)
  with_hash_list_listed a (inl e, w) s h = cc
  with_hash_list_listed a (inr hs, w) s h = (hs, w, refl, sym (ok-injective h))

  start-Begun :
      (a b : Agent W) (s : Waiting services api config setting)
      → new_ror_agent_client api config a ≡ (ok tt, b)
      → start services api config setting b ≡ ok s
      → Begun a s
  unfolding start cache_client cache_must_init scheduler_must_start health_must_start
  start-Begun a b s c h =
      let (t, cached, h1) = >>=-eq-ok (cache_must_init services api config setting b) _ h in
      let (schemas, enabled, h2) =
        >>=-eq-ok
          (must_start setting.is_enabled setting.dynamic_client setting.discovery_client []
            setting.schemas)
          _ h1 in
      let (v, both, h3) =
        >>=-eq-ok
          (scheduler_must_start setting.heartbeat_job >> health_must_start setting.health_server) _
          h2 in
      let (u, job, server) = >>=-eq-ok (scheduler_must_start setting.heartbeat_job) _ both in
      let (hs, w, listed, made) =
        with_hash_list_listed b (setting.get_hash_list b.world) t cached in
      subst (Begun a) (ok-injective h3) (record {
        connected = c;
        hashes = hs;
        world = w;
        listed = listed;
        system = made;
        enabled = enabled;
        job = fatal-eq-ok _ setting.heartbeat_job u job;
        server = fatal-eq-ok _ setting.health_server v server;
      })

  after_client-Begun :
      (a : Agent W) (s : Waiting services api config setting) (r : Outcome (Unit {0}) × Agent W)
      → new_ror_agent_client api config a ≡ r
      → after_client services api config setting (must "failed to initialize RorAgentClient" r)
        ≡ ok s
      → Begun a s
  unfolding after_client
  after_client-Begun a s (ok u, b) c h = start-Begun a b s c h
  after_client-Begun a s (err e, b) c h = cc
  after_client-Begun a s (panic m, b) c h = cc

  pub main-Begun :
      (a : Agent W) (s : Waiting services api config setting)
      → main services api config setting a ≡ ok s
      → Begun a s
  unfolding main must_init_new_ror_agent_client
  main-Begun a s h = after_client-Begun a s (new_ror_agent_client api config a) refl h

module _ {P S W H : Type 0} (libs : Libraries P) (services : Services (Option P) W H) (api : Api W)
    (config : Config) (setting : Setting S W H) (j : String) (stored : String → W → Option String)
    (known : String → H → Option String) where
  laws_of :
      (a : Agent W)
      → MirrorLaws services stored known
      → MirrorLaws (services_of services api config setting a) stored known
  laws_of a laws = record {
    updates = laws.updates;
    creates = laws.creates;
    deletes = laws.deletes;
    update_other = laws.update_other;
    create_other = laws.create_other;
    delete_other = laws.delete_other;
    check = laws.check;
    check_keeps = laws.check_keeps;
    mark_keeps = laws.mark_keeps;
    store = laws.store;
    store_other = laws.store_other;
  }

  -- If main of version 1 comes to wait, and: a call of the API without an error is done and no
  -- call changes another uid, the hash list knows of a uid the hash that was last stored for it,
  -- whatever else is done with the list, and asks for an update unless it knows the same hash,
  -- the hash list that the API returns has no other hash of the uid than the API holds, and the
  -- uid is added, updated and deleted only and not seen again once it is deleted; then delivering
  -- any calls of the watcher to the handlers succeeds, and after it the uid waits in the queue,
  -- or the API holds what the calls tell of it: the hash of its last change, nothing if it was
  -- deleted, and what it held before if it was not seen.
  pub main-Mirrored :
      (a : Agent W) (s : Waiting services api config setting) (clock : ℕ → ℕ)
      (cs : List (Call (Option Members)))
      → MirrorLaws services stored known
      → ((w w' : W) (h : H) (x : String)
          → setting.get_hash_list w ≡ (inr h, w')
          → known j h ≡ some x
          → stored j w' ≡ some x)
      → main services api config setting a ≡ ok s
      → Orderly
          (services_of services api config setting s.client)
          j
          (events_of libs (services_of services api config setting s.client) clock cs)
      → let services' = services_of services api config setting s.client in
        let (result, (c, w)) = deliver_all libs services' clock cs (s.system.live, s.system.api) in
        (result ≡ ok tt)
        × ((pending j c.workqueue ≡ true)
            ⊎ (stored j w
                ≡ mirror services' j (events_of libs services' clock cs) (stored j s.system.api)))
  main-Mirrored a s clock cs laws truthful h o = subst Outcome_of (sym begun.system) (
      unfold must_init in
      (deliver_all-Mirrored libs services' j stored known clock cs begun.hashes begun.world
        (laws_of s.client laws)
        (λ x. truthful s.client.world begun.world begun.hashes x begun.listed) o))
    where
      services' : Services (Option P) W H
      services' = services_of services api config setting s.client

      begun : Begun services api config setting a s
      begun = main-Begun services api config setting a s h

      Outcome_of : System services' → Type 0
      Outcome_of t =
          let (result, (c, w)) = deliver_all libs services' clock cs (t.live, t.api) in
          (result ≡ ok tt)
          × ((pending j c.workqueue ≡ true)
              ⊎ (stored j w
                  ≡ mirror services' j (events_of libs services' clock cs) (stored j t.api)))
