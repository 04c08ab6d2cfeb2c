-- ===== src/Ingress/Details.antt =====
-- `GetIngressDetails`, with its cache of services.
pub mod Reference
pub mod Resources
use ror_agent.Prelude.{
  ℕ, String, ◌<>◌, ◌⊎◌, inl, inr, Bool, true, false, List, [], ◌∷◌, ◌++◌, map, Option, none, some,
  Error, message, Outcome, ok, err, panic, ◌>>=◌, Assoc, lookup, insert, ◌==◌, if◌then◌else◌,
}
use ror_agent.Ingress.Types.{
  Service, EndpointAddress, Client, Ingress, IngressRule, IngressPath, K8sIngress, K8sRule, K8sPath,
  K8sAddress,
}
use ror_agent.Ingress.Health.{get_ingress_health}
use ror_agent.Ingress.Service.{get_ingress_service, empty_service}

-- The loop over `Status.LoadBalancer.Ingress` for the host of a rule.
unfoldable pub addresses_for : String → List K8sAddress → List String → List String
addresses_for host [] out = out
addresses_for host (a ∷ rest) out =
    addresses_for host rest (if a.hostname == host then out ++ a.ip ∷ [] else out)

unfoldable pub ip_addresses : String → Option (List K8sAddress) → List String
unfolding addresses_for
ip_addresses host none = []
ip_addresses host (some as') = addresses_for host as' []

module _ {W : Type 0} (client : Client W) (namespace : String) where
  -- The service of a path from the cache, or from the cluster, which stores it in the cache unless
  -- it fails; a failure reads as the empty service.
  unfoldable pub cached_service : String → Assoc Service × W → Service × (Assoc Service × W)
  cached_service name (cache, w) = elim (lookup name cache) [
    | some s ↦ (s, (cache, w))
    | none ↦
        let ((s, e), w') = get_ingress_service client namespace name w in
        elim e [ some _ ↦ (empty_service, (cache, w')) | none ↦ (s, (insert name s cache, w')) ]
  ]

  -- The loop over the paths of a rule. A backend that is no service is a nil pointer.
  unfoldable pub add_paths :
      List K8sPath
      → List IngressPath
      → Assoc Service × W
      → Outcome (List IngressPath × (Assoc Service × W))
  unfolding cached_service
  add_paths [] out s = ok (out, s)
  add_paths (p ∷ ps) out s = elim p.backend_service [
    | none ↦ panic "nil pointer dereference"
    | some name ↦
        let (service, s') = cached_service name s in
        add_paths ps (out ++ record { path = p.path; service = service } ∷ []) s'
  ]

  abbrev http_paths :
      Option (List K8sPath) → Assoc Service × W → Outcome (List IngressPath × (Assoc Service × W))
  http_paths none s = ok ([], s)
  http_paths (some ps) s = add_paths ps [] s

  -- The loop over the rules of the ingress.
  unfoldable pub add_rules :
      Option (List K8sAddress)
      → List K8sRule
      → List IngressRule
      → Assoc Service × W
      → Outcome (List IngressRule × (Assoc Service × W))
  unfolding add_paths
  add_rules lb [] out s = ok (out, s)
  add_rules lb (r ∷ rs) out s = http_paths r.http s >>= λ t.
      add_rules lb rs
        (out
          ++ record { hostname = r.host; ip_addresses = ip_addresses r.host lb; paths = t.0 } ∷ [])
        t.1

abbrev or_text : Option String → String
or_text none = ""
or_text (some s) = s

-- `k8sClient` is a pointer, and nil is `none`.
unfoldable pub get_ingress_details :
    {W : Type 0} → Option (Client W) → K8sIngress → W → Outcome (Ingress × W)
get_ingress_details none ing w = err (message "k8sClient is nil")
get_ingress_details (some client) ing w = elim ing.rules [
  | none ↦ err (message "invalid ingress - missing rules")
  | some rules ↦ add_rules client ing.namespace ing.load_balancer rules [] ([], w) >>= λ t. ok (
    get_ingress_health (record {
      uid = ing.uid;
      health = 1;
      name = ing.name;
      namespace = ing.namespace;
      class = or_text ing.class_name;
      rules = t.0;
    }),
    t.1.1,
  )
]
