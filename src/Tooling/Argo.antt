-- ===== src/Tooling/Argo.antt =====
-- internal/models/argomodels/argo.go: the application of Argo CD that reports the tooling, with all the
-- fields of its structs. `M` is the metadata of the Kubernetes library.
use ror_agent.Prelude.{String, Bool, List}

pub record ApplicationDestination : Type 0 where
  pub name : String
  pub namespace : String
  pub server : String

pub record ApplicationInfo : Type 0 where
  pub name : String
  pub value : String

pub record ApplicationSourceDirectory : Type 0 where
  pub exclude : String
  pub include : String
  pub recurse : Bool

-- ApplicationSource; the struct of its field Helm is empty.
pub record ApplicationSource : Type 0 where
  pub chart : String
  pub directory : ApplicationSourceDirectory
  pub helm : Unit {0}
  pub path : String
  pub ref : String
  pub repo_url : String
  pub target_revision : String

pub record ApplicationSpec : Type 0 where
  pub destination : ApplicationDestination
  pub ignored_differences : List String
  pub info : List ApplicationInfo
  pub source : ApplicationSource

pub record ApplicationStatusSummary : Type 0 where
  pub external_urls : List String
  pub images : List String

pub record ApplicationStatusSync : Type 0 where
  pub revision : String
  pub revisions : List String
  pub status : String

pub record ApplicationStatus : Type 0 where
  pub controller_namespace : String
  pub observed_at : String
  pub reconciled_at : String
  pub resource_health_source : String
  pub source_type : String
  pub summary : ApplicationStatusSummary
  pub sync : ApplicationStatusSync

pub record Application (M : Type 0) : Type 0 where
  pub api_version : String
  pub kind : String
  pub metadata : M
  pub spec : ApplicationSpec
  pub status : ApplicationStatus

pub record Applications (M : Type 0) : Type 0 where
  pub items : List (Application M)
