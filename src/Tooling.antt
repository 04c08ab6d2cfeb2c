-- ===== src/Tooling.antt =====
-- internal/services/nhntooling.go: what the agent reports of the cluster's NHN tooling. The structs
-- are those of internal/kubernetes/k8smodels/k8s_models.go; Argo has those of argomodels.
pub mod Argo
pub mod Reported
use Prim.Native.String.{len}
use ror_agent.Prelude.{
  String, ◌<>◌, ◌==◌, List, [], Assoc, text_at, Option, none, some, Error, message, foreign,
  ForeignError, ◌⊎◌, inl, inr, ltb, if◌then◌else◌,
}
use ror_agent.Tooling.Argo.{Application}
use ror_agent.AccessGroups.{new_access_groups_from_data, string_array}

-- k8smodels.NhnTooling
pub record NhnTooling : Type 0 where
  pub version : String
  pub branch : String
  pub environment : String
  pub access_groups : List String

-- The clients and their answers; `decode` takes the application through JSON, and a nil map of the
-- config map is `none`.
pub record ToolingSource : Type 1 where
  pub Raw : Type 0
  -- metav1.ObjectMeta, with its field Name
  pub Meta : Type 0
  pub meta_name : Meta → String
  pub clientset : Option ForeignError
  pub dynamic_client : Option ForeignError
  pub namespace : String
  pub config_map : ForeignError ⊎ Option (Assoc String)
  pub application : ForeignError ⊎ Raw
  pub marshal : Raw → ForeignError ⊎ String
  pub unmarshal : String → ForeignError ⊎ Application Meta

module _ (source : ToolingSource) where
  open source use {Meta, Raw, meta_name, marshal, unmarshal}

  abbrev named : Application Meta → Error ⊎ Application Meta
  named app =
      if meta_name app.metadata == ""
      then inl (message "could not find nhn-tooling application")
      else inr app

  abbrev unmarshalled : (ForeignError ⊎ Application Meta) → Error ⊎ Application Meta
  unmarshalled (inl e) = inl (foreign e)
  unmarshalled (inr app) = named app

  abbrev marshalled : (ForeignError ⊎ String) → Error ⊎ Application Meta
  marshalled (inl e) = inl (foreign e)
  marshalled (inr bytes) = unmarshalled (unmarshal bytes)

  abbrev fetched : (ForeignError ⊎ Raw) → Error ⊎ Application Meta
  fetched (inl e) = inl (foreign e)
  fetched (inr raw) = marshalled (marshal raw)

  unfoldable pub get_nhn_tooling_info : Error ⊎ Application Meta
  get_nhn_tooling_info = fetched source.application

abbrev pub default_tooling : NhnTooling
default_tooling = record {
  version = "Missing ...";
  branch = "Missing ...";
  environment = "dev";
  access_groups = [];
}

abbrev pub or_default : String → String → String
or_default text default = if text == "" then default else text

-- The version and the branch, as the application changes them.
abbrev pub versioned : {M : Type 0} → String → (Error ⊎ Application M) → String × String
versioned version (inl e) = (version, "Missing ...")
versioned version (inr app) = (
  if ltb (len app.status.sync.revision) 20 then app.status.sync.revision else version,
  app.spec.source.target_revision,
)

abbrev pub from_data : ToolingSource → Assoc String → NhnTooling
from_data source config =
    let (version, branch) =
      versioned (or_default (text_at "toolingVersion" config) "Missing ...")
        (get_nhn_tooling_info source) in
    record {
      version = version;
      branch = branch;
      environment = or_default (text_at "environment" config) "dev";
      access_groups = string_array (new_access_groups_from_data (some config));
    }

abbrev pub from_config_map :
    ToolingSource → (ForeignError ⊎ Option (Assoc String)) → NhnTooling × Option Error
from_config_map source (inl e) = (
  default_tooling,
  some
      (message ("could not find config map nhn-tooling for ror in namespace " <> source.namespace)),
)
from_config_map source (inr none) =
    (default_tooling, some (message "no data in config map for ror"))
from_config_map source (inr (some config)) = (from_data source config, none)

abbrev pub with_client : Option ForeignError → NhnTooling × Option Error → NhnTooling × Option Error
with_client (some e) rest = (default_tooling, some (foreign e))
with_client none rest = rest

unfoldable pub get_nhn_tooling_metadata : ToolingSource → NhnTooling × Option Error
unfolding get_nhn_tooling_info
get_nhn_tooling_metadata source =
    with_client source.clientset
      (with_client source.dynamic_client (from_config_map source source.config_map))
