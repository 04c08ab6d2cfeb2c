-- ===== src/Resource/Kinds.antt =====
-- internal/models/rorResources/extractResource.go: which payload model a resource is cast to.
pub mod Table
use ror_agent.Prelude.{String, Option, none, some, ◌==◌, ◌&&◌, if◌then◌else◌}

-- The type argument of `prepareResourcePayloadFromObject`: the struct `apiresourcecontracts.Resource…`.
pub data PayloadType : Type 0 where
  namespace node persistent_volume_claim deployment storage_class policy_report application :
      PayloadType
  app_project certificate service pod replica_set stateful_set daemon_set ingress : PayloadType
  ingress_class vulnerability_report exposed_secret_report config_audit_report : PayloadType
  rbac_assessment_report cluster_compliance_report endpoints network_policy : PayloadType

-- The ladder of tests of `getResourceFromObject`; `none` is "no handler found".
unfoldable pub payload_type : String → String → Option PayloadType
payload_type api_version kind =
    if api_version == "v1" && kind == "Namespace"
    then some namespace
    else if api_version == "v1" && kind == "Node"
    then some node
    else if api_version == "v1" && kind == "PersistentVolumeClaim"
    then some persistent_volume_claim
    else if api_version == "apps/v1" && kind == "Deployment"
    then some deployment
    else if api_version == "storage.k8s.io/v1" && kind == "StorageClass"
    then some storage_class
    else if api_version == "wgpolicyk8s.io/v1alpha2" && kind == "PolicyReport"
    then some policy_report
    else if api_version == "argoproj.io/v1alpha1" && kind == "Application"
    then some application
    else if api_version == "argoproj.io/v1alpha1" && kind == "AppProject"
    then some app_project
    else if api_version == "cert-manager.io/v1" && kind == "Certificate"
    then some certificate
    else if api_version == "v1" && kind == "Service"
    then some service
    else if api_version == "v1" && kind == "Pod"
    then some pod
    else if api_version == "apps/v1" && kind == "ReplicaSet"
    then some replica_set
    else if api_version == "apps/v1" && kind == "StatefulSet"
    then some stateful_set
    else if api_version == "apps/v1" && kind == "DaemonSet"
    then some daemon_set
    else if api_version == "networking.k8s.io/v1" && kind == "Ingress"
    then some ingress
    else if api_version == "networking.k8s.io/v1" && kind == "IngressClass"
    then some ingress_class
    else if api_version == "aquasecurity.github.io/v1alpha1" && kind == "VulnerabilityReport"
    then some vulnerability_report
    else if api_version == "aquasecurity.github.io/v1alpha1" && kind == "ExposedSecretReport"
    then some exposed_secret_report
    else if api_version == "aquasecurity.github.io/v1alpha1" && kind == "ConfigAuditReport"
    then some config_audit_report
    else if api_version == "aquasecurity.github.io/v1alpha1" && kind == "RbacAssessmentReport"
    then some rbac_assessment_report
    else if api_version == "aquasecurity.github.io/v1alpha1" && kind == "ClusterComplianceReport"
    then some cluster_compliance_report
    else if api_version == "v1" && kind == "Endpoints"
    then some endpoints
    else if api_version == "networking.k8s.io/v1" && kind == "NetworkPolicy"
    then some network_policy
    else none
