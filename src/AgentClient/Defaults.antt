-- ===== src/AgentClient/Defaults.antt =====
-- `GetDefaultRorAgentClientConfig`, the getters and `PingRorAPI` of
-- common/pkg/clients/clusteragentclient/clusteragentclient.go.
use ror_agent.Prelude.{String, Bool, Option, none, some, message, Outcome, ok, err, if◌then◌else◌}
use ror_agent.Configuration.{
  RorConfig, ConfigConsts, text, name_of, role, pod_namespace, api_key_secret, api_key,
  api_endpoint,
}
use ror_agent.AgentClient.{Config, Api, Agent, Result, unknown_api_key}
use ror_agent.AgentClient.Startup.{new_ror_agent_client}

module _ {C : Type 0} (ror_config : RorConfig C) (consts : ConfigConsts) where
  open ror_config use {get_string, set_default}

  -- The configuration, and the key, which the client keeps beside it.
  unfoldable pub get_default_ror_agent_client_config : C → (Config × String) × C
  get_default_ror_agent_client_config c =
      let c' = set_default (name_of consts api_key) (text unknown_api_key) c in
      (
        (
          record {
            role = get_string (name_of consts role) c';
            namespace = get_string (name_of consts pod_namespace) c';
            api_endpoint = get_string (name_of consts api_endpoint) c';
            api_key_secret = get_string (name_of consts api_key_secret) c';
          },
          get_string (name_of consts api_key) c',
        ),
        c',
      )

-- interregatortypes.ClusterInterregator by its answers; `P` is a type of provider, `N` a report on the nodes.
pub record Interregator (P N : Type 0) : Type 0 where
  pub cluster_id : String
  pub provider : P
  pub cluster_name : String
  pub cluster_workspace : String
  pub az : String
  pub datacenter : String
  pub region : String
  pub machine_provider : P
  pub kubernetes_provider : P
  pub country : String
  pub nodes : N
  pub environment : String
  pub kubernetes_api_server : String
  pub kubernetes_ca : String

-- The client as an interregator: its own identifier, and else the answers of the interregator.
unfoldable pub as_interregator : {P N : Type 0} → String → Interregator P N → Interregator P N
as_interregator identifier i = record {
  cluster_id = identifier;
  provider = i.provider;
  cluster_name = i.cluster_name;
  cluster_workspace = i.cluster_workspace;
  az = i.az;
  datacenter = i.datacenter;
  region = i.region;
  machine_provider = i.machine_provider;
  kubernetes_provider = i.kubernetes_provider;
  country = i.country;
  nodes = i.nodes;
  environment = i.environment;
  kubernetes_api_server = i.kubernetes_api_server;
  kubernetes_ca = i.kubernetes_ca;
}

-- A client of the API by what its transport is made of; one without a key has no `auth`.
pub record RorClient : Type 0 where
  pub base_url : String
  pub auth : Option String
  pub role : String

module _ {W : Type 0} (ping : RorClient → W → Bool × W) (config : Config) where
  -- `initUnathorizedRorClient`
  unfoldable pub unauthorized_ror_client : RorClient
  unauthorized_ror_client = record {
    base_url = config.api_endpoint;
    auth = none;
    role = config.role;
  }

  abbrev pub client_or_unauthorized : Option RorClient → RorClient
  client_or_unauthorized none = unauthorized_ror_client
  client_or_unauthorized (some c) = c

  abbrev pub answered : Bool × W → Outcome (Unit {0}) × W
  answered (alive, w) = (if alive then ok tt else err (message "could not ping ror-api"), w)

  -- `PingRorAPI`, on the client of the API, if there is one, and with the client that is kept
  unfoldable pub ping_ror_api : Option RorClient → W → Outcome (Unit {0}) × (RorClient × W)
  unfolding unauthorized_ror_client
  ping_ror_api client w =
      let c = client_or_unauthorized client in let (r, w') = answered (ping c w) in (r, (c, w'))

module _ {W : Type 0} (api : Api W) where
  -- `NewRorAgentClient` of a pointer, which may be nil
  unfoldable pub new_ror_agent_client_of : Option Config → Agent W → Result W
  new_ror_agent_client_of none a = (
    err (
        message
          "config cannot be nil, please use NewRorAgentClientWithDefaults if no custom config is needed"),
    a,
  )
  new_ror_agent_client_of (some config) a = new_ror_agent_client api config a

  module _ {C : Type 0} (ror_config : RorConfig C) (consts : ConfigConsts) where
    -- The client before its setup: no identifier, and the key of the configuration.
    abbrev pub unset_agent : String → Agent W → Agent W
    unset_agent key a = record a { identifier = ""; api_key = key }

    -- `NewRorAgentClientWithDefaults`
    unfoldable pub new_ror_agent_client_with_defaults : C → Agent W → Result W
    unfolding get_default_ror_agent_client_config new_ror_agent_client_of
    new_ror_agent_client_with_defaults c a =
        let ((config, key), c') = get_default_ror_agent_client_config ror_config consts c in
        new_ror_agent_client_of (some config) (unset_agent key a)
