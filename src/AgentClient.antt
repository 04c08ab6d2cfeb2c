-- ===== src/AgentClient.antt =====
-- common/pkg/clients/clusteragentclient/clusteragentclient.go: how the agent learns its cluster id and
-- its API key, and keeps them in a secret.
--
-- The calls of Kubernetes and of the ROR API act on a world `W`. An operation returns its outcome and
-- the state, also when it fails.
pub mod Secrets
pub mod Startup
pub mod Setup
pub mod EmptySecret
pub mod Egress
pub mod Defaults
use ror_agent.Prelude.{
  String, ◌==◌, Bool, true, false, ◌&&◌, not, Assoc, text_at, insert, List, [], ◌∷◌, Option, none,
  some, Error, message, context, foreign, ForeignError, Outcome, ok, err, panic, ◌>>=◌, ◌⊎◌, inl,
  inr, if◌then◌else◌,
}

abbrev pub unknown_cluster_id : String
unknown_cluster_id = "___unknown_cluster_id___"

abbrev pub unknown_api_key : String
unknown_api_key = "___unknown_api_key___"

-- The fields of `RorAgentClientConfig` that do not change.
pub record Config : Type 0 where
  pub role : String
  pub namespace : String
  pub api_endpoint : String
  pub api_key_secret : String

-- corev1.Secret by its data; a nil map is `none`.
pub record Secret : Type 0 where
  pub fields : Option (Assoc String)

-- The secret that is created: its type is Opaque, and the data is written as `StringData`.
pub record NewSecret : Type 0 where
  pub name : String
  pub namespace : String
  pub string_data : Assoc String

pub record SelfData : Type 0 where
  pub identity_type : String
  pub user_name : String
  pub user_uid : String

pub record Registration : Type 0 where
  pub cluster_id : String
  pub api_key : String

pub record Api (W : Type 0) : Type 0 where
  pub get_namespace : String → W → Option ForeignError × W
  pub get_secret : String → String → W → (ForeignError ⊎ Secret) × W
  pub create_secret : String → NewSecret → W → Option ForeignError × W
  pub set_secret : String → Secret → W → Option ForeignError × W
  -- CheckConnection of a client with an API key
  pub check_connection : String → W → Option ForeignError × W
  -- V2().Self().Get with the key, and Info().GetVersion
  pub self : String → W → (ForeignError ⊎ SelfData) × W
  pub version : String → W → Option ForeignError × W
  pub register_agent : String → W → (ForeignError ⊎ Registration) × W
  -- idhelper.GetIdentifier
  pub get_identifier : String → W → String × W
  -- the interregator, or the error that it cannot be made
  pub clientset : Option ForeignError
  pub provider_known : Bool
  pub interregator_id : String
  pub interregator_name : String
  -- providermodels.UNKNOWN_CLUSTER_ID and identitymodels.IdentityTypeCluster
  pub unknown_interregator_id : String
  pub identity_type_cluster : String

-- What changes: the identifier and the key of the client, the three values of `rorconfig` that the
-- client writes, the owner reference of the client of the API, and the world.
pub record Agent (W : Type 0) : Type 0 where
  pub identifier : String
  pub api_key : String
  pub config_cluster_id : String
  pub config_api_key : String
  pub config_cluster_uid : String
  -- the subject of SetOwnerref
  pub owner : Option String
  pub world : W

unfoldable pub validate : Config → Option Error
validate c =
    if c.role == ""
    then some (message "role cannot be empty")
    else if c.namespace == ""
    then some (message "namespace cannot be empty")
    else if c.api_endpoint == ""
    then some (message "apiEndpoint cannot be empty")
    else if c.api_key_secret == ""
    then some (message "apiKeySecret cannot be empty")
    else none

-- string(secret.Data[k])
unfoldable pub field : String → Secret → String
field k secret = elim secret.fields [ none ↦ "" | some m ↦ text_at k m ]

-- secret.Data[k] = []byte(v)
unfoldable pub put_field : String → String → Secret → Outcome Secret
put_field k v secret = elim secret.fields [
  | none ↦ panic "assignment to entry in nil map"
  | some m ↦ ok (record { fields = some (insert k v m) })
]

-- One of the updates of a field: whether its value is known, and `hasChanged`.
unfoldable pub update_field : String → String → Bool → Secret × Bool → Outcome (Secret × Bool)
unfolding field put_field
update_field k v known (secret, changed) =
    if known && not (field k secret == v)
    then (put_field k v secret >>= λ s. ok (s, true))
    else ok (secret, changed)

abbrev pub Result : Type 0 → Type 0
Result W = Outcome (Unit {0}) × Agent W

module _ {W : Type 0} where
  unfoldable pub updated_secret : Agent W → Secret → Outcome (Secret × Bool)
  unfolding update_field
  updated_secret a secret =
      update_field "APIKEY" a.api_key (not (a.api_key == unknown_api_key)) (secret, false)
      >>= update_field "CLUSTER_ID" a.identifier (not (a.identifier == unknown_cluster_id))
      >>= update_field "CLUSTER_UID" a.config_cluster_uid (not (a.config_cluster_uid == ""))

  -- The next operation, if the one before succeeded.
  abbrev pub and_then : Result W → (Agent W → Result W) → Result W
  and_then (ok t, a) next = next a
  and_then (err e, a) next = (err e, a)
  and_then (panic p, a) next = (panic p, a)

  abbrev pub explained : String → Result W → Result W
  explained text (ok t, a) = (ok t, a)
  explained text (err e, a) = (err (context text e), a)
  explained text (panic p, a) = (panic p, a)

  abbrev pub unless_error : Option ForeignError × W → Agent W → Result W
  unless_error (none, w) a = (ok tt, record a { world = w })
  unless_error (some e, w) a = (err (foreign e), record a { world = w })

module _ {W : Type 0} (api : Api W) (config : Config) where
  unfoldable pub kubernetes_create_api_key_secret : Agent W → Result W
  kubernetes_create_api_key_secret a =
      unless_error
        (api.create_secret config.namespace
          (record {
            name = config.api_key_secret;
            namespace = config.namespace;
            string_data = ("APIKEY", a.api_key) ∷ ("CLUSTER_ID", a.identifier) ∷ [];
          })
          a.world)
        a

  abbrev pub saved : Outcome (Secret × Bool) → Agent W → Result W
  saved (ok (secret, true)) a = unless_error (api.set_secret config.namespace secret a.world) a
  saved (ok (secret, false)) a = (ok tt, a)
  saved (err e) a = (err e, a)
  saved (panic p) a = (panic p, a)

  abbrev pub updated : (ForeignError ⊎ Secret) → Agent W → Result W
  updated (inl e) a =
      if e.is_not_found then kubernetes_create_api_key_secret a else (err (foreign e), a)
  updated (inr secret) a = saved (updated_secret a secret) a

  unfoldable pub kubernetes_update_or_create_api_key_secret : Agent W → Result W
  unfolding updated_secret kubernetes_create_api_key_secret
  kubernetes_update_or_create_api_key_secret a =
      let (r, w) = api.get_secret config.namespace config.api_key_secret a.world in
      updated r (record a { world = w })

  abbrev pub or_else : String → String → String
  or_else text default = if text == "" then default else text

  abbrev pub read_secret : (ForeignError ⊎ Secret) → Agent W → Result W
  read_secret (inl e) a =
      if e.is_not_found
      then (ok tt, record a { identifier = unknown_cluster_id; api_key = unknown_api_key })
      else (err (foreign e), a)
  read_secret (inr secret) a = (
    ok tt,
    record a {
      identifier = or_else (field "CLUSTER_ID" secret) unknown_cluster_id;
      api_key = or_else (field "APIKEY" secret) unknown_api_key;
      config_cluster_uid = or_else (field "CLUSTER_UID" secret) a.config_cluster_uid;
    },
  )

  unfoldable pub get_cluster_auth_from_secret : Agent W → Result W
  unfolding field
  get_cluster_auth_from_secret a =
      let (r, w) = api.get_secret config.namespace config.api_key_secret a.world in
      read_secret r (record a { world = w })
