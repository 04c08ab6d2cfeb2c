-- ===== src/ClusterHandler/Update/Ticks.antt =====
-- `Start` and `MustStart` of v2/internal/handlers/clusterhandler/clusterhandler.go: one call that must
-- succeed, and then one call a minute, whose error is only logged.
--
-- A tick is what the client answers and the clocks say in its minute.
use ror_agent.Prelude.{
  String, ◌≡◌, refl, ap, false, List, [], ◌∷◌, Option, none, some, ForeignError, ok, err, panic,
  ◌⊎◌, inl, inr,
}
use ror_agent.ClusterHandler.Update.{
  AgentStatus, ClusterResource, AgentView, Registry, Moment, ClusterState, Result, cluster_owner,
  known_resource, reported_resource, with_status, report_resource, found, update_cluster_resource,
}
use ror_agent.ClusterHandler.Update.Again.{Registers, owned_by, update_cluster_resource_new}

module _ {Q W : Type 0} (registry : Registry Q W) where
  -- An error is logged; a panic in the goroutine ends the program.
  abbrev pub next_tick : Result W → (ClusterState W → Result W) → Result W
  next_tick (ok u, s) rest = rest s
  next_tick (err e, s) rest = rest s
  next_tick (panic m, s) rest = (panic m, s)

  unfoldable pub ticks : List (AgentView Q × Moment) → ClusterState W → Result W
  ticks [] s = (ok tt, s)
  ticks ((view, now) ∷ rest) s =
      next_tick (update_cluster_resource registry view now s) (ticks rest)

  -- A fatal error ends the program, as a panic does.
  abbrev pub started : Result W → (ClusterState W → Result W) → Result W
  started (ok u, s) rest = rest s
  started (err e, s) rest = (err e, s)
  started (panic m, s) rest = (panic m, s)

  unfoldable pub start :
      AgentView Q → Moment → List (AgentView Q × Moment) → ClusterState W → Result W
  start view now rest s = started (update_cluster_resource registry view now s) (ticks rest)

  -- The API answers with the resource of a uid as long as `P` holds of the world, and an update of that
  -- resource leaves `P`.
  abbrev pub Answers :
      String → (W → Type 0) → (ForeignError ⊎ List (ClusterResource Q)) × W → Type 0
  Answers uid P (inl e, w) = P w
  Answers uid P (inr [], w) = ⊥
  Answers uid P (inr (r ∷ rs), w) = ((registry.from_struct r).uid ≡ uid) × P w

  pub record Keeps (uid : String) (P : W → Type 0) : Type 0 where
    pub get : (w : W) → P w → Answers uid P (registry.get_resources w)
    pub put : (r : ClusterResource Q) (w : W) → r.uid ≡ uid → P w → P (registry.add_resource r w)

  pub record Settled (uid : String) (P : W → Type 0) (s : ClusterState W) : Type 0 where
    pub client : s.client_owner ≡ cluster_owner registry uid
    pub config : s.config_cluster_uid ≡ uid
    pub kept : P s.world

module _ {Q W : Type 0} (registry : Registry Q W) (uid : String) (P : W → Type 0)
    (keeps : Keeps registry uid P) where
  reported-Settled :
      (view : AgentView Q) (now : Moment) (status : Option (AgentStatus Q)) (r : ClusterResource Q)
      (s : ClusterState W)
      → r.uid ≡ uid
      → Settled registry uid P s
      → Settled registry uid P (with_status registry view now false status r s).1
  unfolding reported_resource
  reported-Settled view now none r s e h = h
  reported-Settled view now (some status) r s e h = record {
    client = h.client;
    config = h.config;
    kept = keeps.put (reported_resource registry view now false status r) s.world e h.kept;
  }

  found-Settled :
      (view : AgentView Q) (now : Moment) (answer : (ForeignError ⊎ List (ClusterResource Q)) × W)
      (s : ClusterState W)
      → Answers registry uid P answer
      → Settled registry uid P s
      → Settled registry uid P (found registry view now answer.0 (record s { world = answer.1 })).1
  unfolding report_resource
  found-Settled view now (inl e, w) s a h = record {
    client = h.client;
    config = h.config;
    kept = a;
  }
  found-Settled view now (inr [], w) s a h = elim a [ ]
  found-Settled view now (inr (r ∷ rs), w) s (e, a) h =
      let known = known_resource registry (registry.from_struct r) in
      reported-Settled view now known.status known
        (record {
          client_owner = cluster_owner registry known.uid;
          config_cluster_uid = known.uid;
          world = w;
        })
        e (record { client = ap (cluster_owner registry) e; config = e; kept = a })

  update_cluster_resource-Settled :
      (view : AgentView Q) (now : Moment) (s : ClusterState W)
      → Settled registry uid P s
      → Settled registry uid P (update_cluster_resource registry view now s).1
  unfolding update_cluster_resource
  update_cluster_resource-Settled view now s h =
      found-Settled view now (registry.get_resources s.world) s (keeps.get s.world h.kept) h

  next_tick-Settled :
      (r : Result W) (rest : ClusterState W → Result W)
      → Settled registry uid P r.1
      → ((s : ClusterState W) → Settled registry uid P s → Settled registry uid P (rest s).1)
      → Settled registry uid P (next_tick registry r rest).1
  next_tick-Settled (ok u, s) rest h f = f s h
  next_tick-Settled (err e, s) rest h f = f s h
  next_tick-Settled (panic m, s) rest h f = h

  ticks-Settled :
      (ts : List (AgentView Q × Moment)) (s : ClusterState W)
      → Settled registry uid P s
      → Settled registry uid P (ticks registry ts s).1
  unfolding ticks
  ticks-Settled [] s h = h
  ticks-Settled ((view, now) ∷ rest) s h =
      next_tick-Settled (update_cluster_resource registry view now s) (ticks registry rest)
        (update_cluster_resource-Settled view now s h) (ticks-Settled rest)

-- If the first call of updateClusterResource finds no resource, makes one and registers it, and
-- from then on the API answers with an error or with the resource of that uid first, also after
-- an update of it, then after Start and any number of ticks the client speaks for the cluster of
-- that uid and the configuration has the uid.
pub start-Settled :
    {Q W : Type 0} (registry : Registry Q W) (P : W → Type 0) (view : AgentView Q) (now : Moment)
    (ts : List (AgentView Q × Moment)) (s : ClusterState W) (status : AgentStatus Q) (w w' : W)
    → Keeps registry now.new_uid P
    → Registers registry view now s status w w'
    → P w'
    → Settled registry now.new_uid P (start registry view now ts s).1
unfolding start
start-Settled registry P view now ts s status w w' keeps h p =
    rw (update_cluster_resource_new registry view now s status w w' h) (
      ticks-Settled registry now.new_uid P keeps ts (owned_by registry now.new_uid w')
        (record { client = refl; config = refl; kept = p }))
