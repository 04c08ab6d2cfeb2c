-- ===== src/Ingress/Types.antt =====
-- The types of internal/utils/ingress.go: what the Kubernetes client returns, as far as the program
-- reads it, and the structs of `apicontracts` that it fills.
use ror_agent.Prelude.{ℕ, String, List, Option, Assoc, ForeignError, ◌⊎◌}

-- `apicontracts`
pub record ServicePort : Type 0 where
  pub name : String
  pub node_port : String
  pub protocol : String

pub record EndpointAddress : Type 0 where
  pub node_name : String
  pub pod_name : String

pub record Service : Type 0 where
  pub name : String
  pub service_type : String
  pub selector : String
  pub ports : List ServicePort
  pub endpoints : List EndpointAddress

pub record IngressPath : Type 0 where
  pub path : String
  pub service : Service

pub record IngressRule : Type 0 where
  pub hostname : String
  pub ip_addresses : List String
  pub paths : List IngressPath

pub record Ingress : Type 0 where
  pub uid : String
  pub health : ℕ
  pub name : String
  pub namespace : String
  pub class : String
  pub rules : List IngressRule

-- `k8s.io/api`; a pointer or a slice that the program compares with nil is an `Option`.
pub record K8sPort : Type 0 where
  pub name : String
  pub node_port : ℕ
  pub protocol : String

pub record K8sService : Type 0 where
  pub service_type : String
  pub selector : Assoc String
  pub ports : List K8sPort

-- An address of a subset of an `Endpoints`, or an endpoint of an `EndpointSlice`: its node name and
-- the name of its target.
pub record K8sEndpoint : Type 0 where
  pub node_name : Option String
  pub target_ref : Option String

-- `Backend.Service` is nil for a backend that is a resource.
pub record K8sPath : Type 0 where
  pub path : String
  pub backend_service : Option String

pub record K8sRule : Type 0 where
  pub host : String
  pub http : Option (List K8sPath)

pub record K8sAddress : Type 0 where
  pub hostname : String
  pub ip : String

pub record K8sIngress : Type 0 where
  pub uid : String
  pub name : String
  pub namespace : String
  pub class_name : Option String
  pub rules : Option (List K8sRule)
  pub load_balancer : Option (List K8sAddress)

-- The calls of the Kubernetes client: a service, the endpoint slices of a service, and its
-- endpoints as a list of subsets, each by namespace and name.
pub record Client (W : Type 0) : Type 0 where
  pub get_service : String → String → W → (ForeignError ⊎ K8sService) × W
  pub list_slices : String → String → W → (ForeignError ⊎ List (List K8sEndpoint)) × W
  pub get_endpoints : String → String → W → (ForeignError ⊎ List (List K8sEndpoint)) × W
