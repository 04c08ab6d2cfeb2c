-- ===== src/Heartbeat/Sources.antt =====
-- What `GetHeartbeatReport` of internal/services/heartbeat.go collects: the CA certificate, the
-- server version, the ingresses and the endpoint of the control plane.
pub mod Laws
use ror_agent.Prelude.{
  ℕ, ◌<◌, ◌<>◌, String, ◌==◌, Bool, true, false, List, [], ◌∷◌, ◌++◌, Assoc, lookup, text_at,
  Option, none, some, Error, message, foreign, ForeignError, Outcome, ok, err, panic, ◌>>=◌, ◌⊎◌,
  inl, inr, split, length, ltb, if◌then◌else◌,
}
use ror_agent.Ingress.Types.{Client, Ingress, K8sIngress}
use ror_agent.Ingress.Details.{get_ingress_details}

abbrev pub missing_const : String
missing_const = "Missing ..."

-- The REST configuration of a pod, and the calls by which the certificate is read: `encode` is
-- base64.StdEncoding.EncodeToString.
pub record RestConfig : Type 0 where
  pub ca_data : List ℕ
  pub ca_file : String

pub record Pod : Type 0 where
  pub read_file : String → ForeignError ⊎ List ℕ
  pub in_cluster_config : ForeignError ⊎ RestConfig
  pub encode : List ℕ → String

abbrev pub ca_cert_path : String
ca_cert_path = "/var/run/secrets/kubernetes.io/serviceaccount/ca.crt"

abbrev encoded : Pod → (ForeignError ⊎ List ℕ) → String
encoded pod (inl e) = ""
encoded pod (inr bytes) = pod.encode bytes

abbrev from_config : Pod → (ForeignError ⊎ RestConfig) → Bool → String × Bool
from_config pod (inl e) alerted = ("", true)
from_config pod (inr config) alerted = (
  (if ltb 0 (length config.ca_data)
      then pod.encode config.ca_data
      else if config.ca_file == ""
      then ""
      else encoded pod (pod.read_file config.ca_file)),
  alerted,
)

abbrev from_file : Pod → (ForeignError ⊎ List ℕ) → Bool → String × Bool
from_file pod (inr bytes) alerted = (pod.encode bytes, alerted)
from_file pod (inl e) alerted = from_config pod pod.in_cluster_config alerted

-- The certificate, and the new value of `caCertAlerted`.
unfoldable pub get_ca_certificate_from_pod : Pod → Bool → String × Bool
get_ca_certificate_from_pod pod alerted = from_file pod (pod.read_file ca_cert_path) alerted

abbrev or_missing : Option String → String
or_missing none = missing_const
or_missing (some v) = v

abbrev first_of_many : String → List String → String
first_of_many version (p ∷ q ∷ rest) = p
first_of_many version _ = version

-- The discovery client or its error, and the version that it returns, whose pointer may be nil.
unfoldable pub get_kubernetes_server_version : ForeignError ⊎ Option String → String
get_kubernetes_server_version (inl e) = missing_const
get_kubernetes_server_version (inr v) =
    let version = or_missing v in first_of_many version (split b'+' version)

-- The calls of `getIngresses`: the namespaces, and the ingresses of one.
pub record IngressSource (W : Type 0) : Type 0 where
  pub client : Client W
  pub list_namespaces : W → (ForeignError ⊎ List String) × W
  pub list_ingresses : String → W → (ForeignError ⊎ List K8sIngress) × W

module _ {W : Type 0} (source : IngressSource W) where
  abbrev keep : Outcome (Ingress × W) → List Ingress → W → Outcome (List Ingress × W)
  keep (ok (ing, w')) out w = ok (out ++ ing ∷ [], w')
  keep (err e) out w = ok (out, w)
  keep (panic p) out w = panic p

  -- The loop over the ingresses of a namespace; one that fails is left out.
  unfoldable pub add_ingresses : List K8sIngress → List Ingress × W → Outcome (List Ingress × W)
  add_ingresses [] s = ok s
  add_ingresses (ing ∷ rest) (out, w) =
      keep (get_ingress_details (some source.client) ing w) out w >>= add_ingresses rest

  abbrev listed : (ForeignError ⊎ List K8sIngress) → List Ingress × W → Outcome (List Ingress × W)
  listed (inl e) s = ok s
  listed (inr ings) s = add_ingresses ings s

  -- The loop over the namespaces; one that cannot be listed is left out.
  unfoldable pub add_namespaces : List String → List Ingress × W → Outcome (List Ingress × W)
  unfolding add_ingresses
  add_namespaces [] s = ok s
  add_namespaces (n ∷ ns) (out, w) =
      let (r, w') = source.list_ingresses n w in listed r (out, w') >>= add_namespaces ns

  abbrev in_namespaces :
      (ForeignError ⊎ List String) → W → Outcome ((List Ingress × Option Error) × W)
  in_namespaces (inl e) w = ok (([], some (message "could not fetch namespaces from cluster")), w)
  in_namespaces (inr ns) w = add_namespaces ns ([], w) >>= λ s. ok ((s.0, none), s.1)

  unfoldable pub get_ingresses : W → Outcome ((List Ingress × Option Error) × W)
  unfolding add_namespaces
  get_ingresses w = let (r, w') = source.list_namespaces w in in_namespaces r w'

-- The metadata of a node that may name the endpoint: metadatahelper.GetAnnotationOrLabel by its key.
pub record EndpointNode : Type 0 where
  pub annotation_or_label : String → Option String

-- The calls of `getControlPlaneEndpoint`; a nil config map is `none`, and `endpoint_of` is the YAML
-- decoder of `K8sClusterConfiguration`.
pub record EndpointSource : Type 0 where
  pub list_nodes : ForeignError ⊎ List EndpointNode
  pub kubeadm_config : ForeignError ⊎ Option (Assoc String)
  pub endpoint_of : String → ForeignError ⊎ String
  -- vitiv1alpha1.K8sEndpointAnnotation
  pub k8s_endpoint_annotation : String

abbrev pub first_some : Option String → Option String → Option String
first_some (some v) o = some v
first_some none o = o

-- The loop over the nodes.
unfoldable pub endpoint_in : String → List EndpointNode → Option String
endpoint_in annotation [] = none
endpoint_in annotation (n ∷ ns) =
    let rest = endpoint_in annotation ns in
    first_some (n.annotation_or_label annotation)
      (first_some (n.annotation_or_label "ror.io/api-endpoint-addr") rest)

abbrev endpoint_error : String → Outcome String
endpoint_error text = err (message ("getControlPlaneEndpoint: " <> text))

abbrev decoded : (ForeignError ⊎ String) → Outcome String
decoded (inl e) = endpoint_error "Could not parse yaml string to stuct"
decoded (inr endpoint) =
    if endpoint == ""
    then endpoint_error "ControlPlaneEndpoint is empty in configmap"
    else ok endpoint

abbrev from_kubeadm : EndpointSource → (ForeignError ⊎ Option (Assoc String)) → Outcome String
from_kubeadm source (inl e) =
    endpoint_error "Could not get cluster config from kube-system/kubeadm-config, check rbac"
from_kubeadm source (inr none) = endpoint_error "get value 'ControlPlaneEndpoint' from yaml"
from_kubeadm source (inr (some config)) =
    decoded (source.endpoint_of (text_at "ClusterConfiguration" config))

abbrev from_nodes : EndpointSource → Option String → Outcome String
from_nodes source (some endpoint) = ok endpoint
from_nodes source none = from_kubeadm source source.kubeadm_config

abbrev of_list : EndpointSource → (ForeignError ⊎ List EndpointNode) → Outcome String
of_list source (inl e) = endpoint_error "Could not get nodes from k8s"
of_list source (inr nodes) = from_nodes source (endpoint_in source.k8s_endpoint_annotation nodes)

unfoldable pub get_control_plane_endpoint : EndpointSource → Outcome String
unfolding endpoint_in
get_control_plane_endpoint source = of_list source source.list_nodes
