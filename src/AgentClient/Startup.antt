-- ===== src/AgentClient/Startup.antt =====
-- `initRorAgentClientSetup`, `NewRorAgentClient` and `initAuthorizedRorClient` of
-- common/pkg/clients/clusteragentclient/clusteragentclient.go. The signal channels
-- and the registration of the health check are left out.
use ror_agent.Prelude.{
  String, ◌==◌, ◌&&◌, not, Option, none, some, Error, message, context, foreign, ForeignError, ok,
  err, ◌⊎◌, inl, inr, if◌then◌else◌,
}
use ror_agent.AgentClient.{
  Config, SelfData, Registration, Api, Agent, Result, unknown_cluster_id, unknown_api_key, validate,
  and_then, explained, unless_error, kubernetes_update_or_create_api_key_secret,
  get_cluster_auth_from_secret,
}

module _ {W : Type 0} (api : Api W) (config : Config) where
  unfoldable pub init_authorized_ror_client : Agent W → Result W
  init_authorized_ror_client a =
      if a.api_key == unknown_api_key
      then (err (message "API_KEY is not set in the configuration"), a)
      else explained "failed to ping RorClient"
          (unless_error (api.check_connection a.api_key a.world) a)

  -- Write the secret, in the setup.
  abbrev pub store : String → Agent W → Result W
  store text a = explained text (kubernetes_update_or_create_api_key_secret api config a)

  abbrev pub id_failure : String
  id_failure = "failed to update api key secret with cluster id"

  -- What follows the answer about the owner of the key; `next` takes it if it is a cluster.
  abbrev pub own_data :
      (ForeignError ⊎ SelfData) → (SelfData → Agent W → Result W) → Agent W → Result W
  own_data (inl e) next a = (err (foreign e), a)
  own_data (inr self_data) next a =
      if self_data.identity_type == api.identity_type_cluster
      then next self_data a
      else (err (message "wrong type of apikey in secret"), a)

  abbrev pub asked_self : (SelfData → Agent W → Result W) → Agent W → Result W
  asked_self next a =
      let (r, w) = api.self a.api_key a.world in own_data r next (record a { world = w })

  abbrev pub named_by_api : SelfData → Agent W → Result W
  named_by_api self_data a = store id_failure (record a { identifier = self_data.user_name })

  -- The identifier is known neither to the secret nor to the interregator, but there is a key.
  unfoldable pub use_api_id : Agent W → Result W
  unfolding init_authorized_ror_client
  use_api_id a =
      if a.identifier == unknown_cluster_id
        && (api.interregator_id == api.unknown_interregator_id)
        && not (a.api_key == unknown_api_key)
      then and_then (init_authorized_ror_client a) (asked_self named_by_api)
      else (ok tt, a)

  unfoldable pub use_interregator_id : Agent W → Result W
  use_interregator_id a =
      if a.identifier == unknown_cluster_id
        && not (api.interregator_id == api.unknown_interregator_id)
      then store id_failure (record a { identifier = api.interregator_id })
      else (ok tt, a)

  abbrev pub generated : String × W → Agent W → Result W
  generated (id, w) a = store id_failure (record a { identifier = id; world = w })

  unfoldable pub generate_id : Agent W → Result W
  generate_id a =
      if a.identifier == unknown_cluster_id
      then (if api.interregator_name == ""
          then (err (message "Could not get clustername, failing"), a)
          else generated (api.get_identifier api.interregator_name a.world) a)
      else (ok tt, a)

  abbrev pub registered : (ForeignError ⊎ Registration) → Agent W → Result W
  registered (inl e) a = (err (context "failed to register cluster" (foreign e)), a)
  registered (inr r) a =
      store "failed to create api key secret"
        (record a { identifier = r.cluster_id; api_key = r.api_key })

  unfoldable pub register_key : Agent W → Result W
  register_key a =
      let (r, w) = api.register_agent a.identifier a.world in
      if a.api_key == unknown_api_key then registered r (record a { world = w }) else (ok tt, a)

  unfoldable pub export_values : Agent W → Result W
  export_values a =
      (ok tt, record a { config_cluster_id = a.identifier; config_api_key = a.api_key })

  -- The steps of the setup, once the secret is read.
  unfoldable pub settle : Agent W → Result W
  unfolding use_api_id use_interregator_id generate_id register_key export_values
  settle a =
      and_then
        (and_then (and_then (and_then (use_api_id a) use_interregator_id) generate_id) register_key)
        export_values

  unfoldable pub init_ror_agent_client_setup : Agent W → Result W
  unfolding get_cluster_auth_from_secret settle
  init_ror_agent_client_setup a =
      and_then
        (and_then
          (explained "failed to get namespace"
            (unless_error (api.get_namespace config.namespace a.world) a))
          (λ b.
            explained "Could not get cluster auth from secret"
              (get_cluster_auth_from_secret api config b)))
        settle

  -- initInterregator
  unfoldable pub init_interregator : Agent W → Result W
  init_interregator a = elim api.clientset [
    | some e ↦ (err (foreign e), a)
    | none ↦
        if api.provider_known
        then (ok tt, a)
        else (err (message "could not determine provider type"), a)
  ]

  -- A failure of the last update of the secret is ignored.
  abbrev pub ignored : Result W → Result W
  ignored (err e, a) = (ok tt, a)
  ignored r = r

  abbrev pub owned : SelfData → Agent W → Result W
  owned self_data a =
      let b = record a {
        config_cluster_id = self_data.user_name;
        owner = some self_data.user_name;
      } in
      if self_data.user_uid == ""
      then (ok tt, b)
      else ignored (
          kubernetes_update_or_create_api_key_secret api config
            (record b { config_cluster_uid = self_data.user_uid }))

  -- The rest of `NewRorAgentClient` behind the setup.
  unfoldable pub connect : Agent W → Result W
  unfolding init_authorized_ror_client
  connect a =
      and_then
        (and_then (init_authorized_ror_client a)
          (λ b. unless_error (api.version b.api_key b.world) b))
        (asked_self owned)

  abbrev validated : Option Error → Result W → Agent W → Result W
  validated (some e) rest a = (err e, a)
  validated none rest a = rest

  unfoldable pub new_ror_agent_client : Agent W → Result W
  unfolding validate init_interregator init_ror_agent_client_setup connect
  new_ror_agent_client a =
      validated (validate config)
        (and_then (and_then (init_interregator a) init_ror_agent_client_setup) connect) a
