-- ===== src/Resource/Kinds/Table.antt =====
-- The ladder of `getResourceFromObject` against a table of the kinds that the agent reports.
use ror_agent.Prelude.{
  String, ◌≡◌, ◌↔◌, refl, sym, ◌∙◌, ◌&&◌, List, [], ◌∷◌, Option, none, some, arith, ◌==◌, eq_iff,
  if◌then◌else◌,
}
use ror_agent.Resource.Kinds.{PayloadType, payload_type}
use ror_agent.Resource.Kinds.{
  namespace, node, persistent_volume_claim, deployment, storage_class, policy_report, application,
  app_project, certificate, service, pod, replica_set, stateful_set, daemon_set, ingress,
  ingress_class, vulnerability_report, exposed_secret_report, config_audit_report,
  rbac_assessment_report, cluster_compliance_report, endpoints, network_policy,
}

-- The API version and the kind that each payload model is for.
unfoldable pub gvk : PayloadType → String × String
gvk namespace = ("v1", "Namespace")
gvk node = ("v1", "Node")
gvk persistent_volume_claim = ("v1", "PersistentVolumeClaim")
gvk deployment = ("apps/v1", "Deployment")
gvk storage_class = ("storage.k8s.io/v1", "StorageClass")
gvk policy_report = ("wgpolicyk8s.io/v1alpha2", "PolicyReport")
gvk application = ("argoproj.io/v1alpha1", "Application")
gvk app_project = ("argoproj.io/v1alpha1", "AppProject")
gvk certificate = ("cert-manager.io/v1", "Certificate")
gvk service = ("v1", "Service")
gvk pod = ("v1", "Pod")
gvk replica_set = ("apps/v1", "ReplicaSet")
gvk stateful_set = ("apps/v1", "StatefulSet")
gvk daemon_set = ("apps/v1", "DaemonSet")
gvk ingress = ("networking.k8s.io/v1", "Ingress")
gvk ingress_class = ("networking.k8s.io/v1", "IngressClass")
gvk vulnerability_report = ("aquasecurity.github.io/v1alpha1", "VulnerabilityReport")
gvk exposed_secret_report = ("aquasecurity.github.io/v1alpha1", "ExposedSecretReport")
gvk config_audit_report = ("aquasecurity.github.io/v1alpha1", "ConfigAuditReport")
gvk rbac_assessment_report = ("aquasecurity.github.io/v1alpha1", "RbacAssessmentReport")
gvk cluster_compliance_report = ("aquasecurity.github.io/v1alpha1", "ClusterComplianceReport")
gvk endpoints = ("v1", "Endpoints")
gvk network_policy = ("networking.k8s.io/v1", "NetworkPolicy")

-- Each payload model is reached: its own API version and kind lead to it.
pub payload_type-gvk : (t : PayloadType) → payload_type (gvk t).0 (gvk t).1 ≡ some t
unfolding payload_type gvk
payload_type-gvk namespace = refl
payload_type-gvk node = refl
payload_type-gvk persistent_volume_claim = refl
payload_type-gvk deployment = refl
payload_type-gvk storage_class = refl
payload_type-gvk policy_report = refl
payload_type-gvk application = refl
payload_type-gvk app_project = refl
payload_type-gvk certificate = refl
payload_type-gvk service = refl
payload_type-gvk pod = refl
payload_type-gvk replica_set = refl
payload_type-gvk stateful_set = refl
payload_type-gvk daemon_set = refl
payload_type-gvk ingress = refl
payload_type-gvk ingress_class = refl
payload_type-gvk vulnerability_report = refl
payload_type-gvk exposed_secret_report = refl
payload_type-gvk config_audit_report = refl
payload_type-gvk rbac_assessment_report = refl
payload_type-gvk cluster_compliance_report = refl
payload_type-gvk endpoints = refl
payload_type-gvk network_policy = refl

-- Every payload model, in the order of the tests.
abbrev pub every_type : List PayloadType
every_type =
    namespace ∷ node ∷ persistent_volume_claim ∷ deployment ∷ storage_class ∷ policy_report
    ∷ application ∷ app_project ∷ certificate ∷ service ∷ pod ∷ replica_set ∷ stateful_set
    ∷ daemon_set ∷ ingress ∷ ingress_class ∷ vulnerability_report ∷ exposed_secret_report
    ∷ config_audit_report ∷ rbac_assessment_report ∷ cluster_compliance_report ∷ endpoints
    ∷ network_policy ∷ []

-- The first of the models whose API version and kind are these.
first_match : String → String → List PayloadType → Option PayloadType
first_match a k [] = none
first_match a k (t ∷ ts) = if a == (gvk t).0 && k == (gvk t).1 then some t else first_match a k ts

payload_type-first_match : (a k : String) → payload_type a k ≡ first_match a k every_type
unfolding payload_type first_match gvk
payload_type-first_match a k = refl

first_match_sound :
    (a k : String) (ts : List PayloadType) (t : PayloadType)
    → first_match a k ts ≡ some t
    → ((gvk t).0 ≡ a) × ((gvk t).1 ≡ k)
unfolding first_match
first_match_sound a k [] t h = cc
first_match_sound a k (x ∷ xs) t h =
    ground (arith, first_match_sound a k xs t, eq_iff a (gvk x).0, eq_iff k (gvk x).1)

-- getResourceFromObject casts a resource to a payload model exactly if the resource has the API
-- version and the kind of that model.
pub payload_type_iff :
    (a k : String) (t : PayloadType)
    → (payload_type a k ≡ some t) ↔ (((gvk t).0 ≡ a) × ((gvk t).1 ≡ k))
payload_type_iff a k t = (
  λ h. first_match_sound a k every_type t (sym (payload_type-first_match a k) ∙ h),
  λ h. rw (← h.0, ← h.1) (payload_type-gvk t),
)
