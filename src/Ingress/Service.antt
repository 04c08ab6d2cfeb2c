-- ===== src/Ingress/Service.antt =====
-- `GetIngressService`: a service with its ports and its endpoints.
pub mod Dedup
use ror_agent.Prelude.{
  ℕ, String, ◌<>◌, ◌⊎◌, inl, inr, Bool, true, false, List, [], ◌∷◌, ◌++◌, map, Option, none, some,
  Error, message, context, foreign, ForeignError, sprint, text_at, if◌then◌else◌,
}
use ror_agent.Ingress.Types.{
  Service, ServicePort, EndpointAddress, K8sService, K8sPort, K8sEndpoint, Client,
}
use ror_agent.Ingress.Health.{contains}

abbrev pub empty_service : Service
empty_service = record { name = ""; service_type = ""; selector = ""; ports = []; endpoints = [] }

abbrev pub or_none : Option String → String
or_none none = "None"
or_none (some s) = s

unfoldable pub address : K8sEndpoint → EndpointAddress
address e = record { node_name = or_none e.node_name; pod_name = or_none e.target_ref }

unfoldable pub service_port : K8sPort → ServicePort
service_port p = record { name = p.name; node_port = sprint p.node_port; protocol = p.protocol }

unfoldable pub key : EndpointAddress → String
key a = a.node_name <> "|" <> a.pod_name

-- The loop over the endpoints of a slice; `seen` holds the keys of the map `seen`.
unfoldable pub collect_endpoints :
    List K8sEndpoint → List String × List EndpointAddress → List String × List EndpointAddress
unfolding address
collect_endpoints [] s = s
collect_endpoints (e ∷ es) (seen, out) =
    let a = address e in
    collect_endpoints es
      (if contains seen (key a) then (seen, out) else (key a ∷ seen, out ++ a ∷ []))

unfoldable pub collect_slices :
    List (List K8sEndpoint)
    → List String × List EndpointAddress
    → List String × List EndpointAddress
unfolding collect_endpoints
collect_slices [] s = s
collect_slices (slice ∷ slices) s = collect_slices slices (collect_endpoints slice s)

-- The loops over the subsets of an `Endpoints` object and their addresses.
unfoldable pub collect_subsets :
    List (List K8sEndpoint) → List EndpointAddress → List EndpointAddress
unfolding address
collect_subsets [] out = out
collect_subsets (subset ∷ subsets) out = collect_subsets subsets (out ++ map address subset)

module _ {W : Type 0} (client : Client W) (namespace service_name : String) where
  abbrev failed : String → ForeignError → Error
  failed what e = context (what <> namespace <> "/" <> service_name) (foreign e)

  -- Endpoint slices are not served: the fallback to the `Endpoints` object.
  abbrev from_endpoints :
      Service → (ForeignError ⊎ List (List K8sEndpoint)) → Service × Option Error
  from_endpoints service (inl e) =
      if e.is_not_found
      then (service, none)
      else (service, some (failed "failed to get endpoints " e))
  from_endpoints service (inr subsets) =
      (record service { endpoints = collect_subsets subsets [] }, none)

  abbrev from_slices :
      Service → (ForeignError ⊎ List (List K8sEndpoint)) → W → (Service × Option Error) × W
  from_slices service (inr slices) w =
      ((record service { endpoints = (collect_slices slices ([], [])).1 }, none), w)
  from_slices service (inl e) w =
      if e.is_not_found
      then (let (r, w') = client.get_endpoints namespace service_name w in
          (from_endpoints service r, w'))
      else ((service, some (failed "failed to list endpoint slices " e)), w)

  abbrev described : K8sService → Service
  described svc = record {
    name = service_name;
    service_type = svc.service_type;
    selector = text_at "app.kubernetes.io/name" svc.selector;
    ports = map service_port svc.ports;
    endpoints = [];
  }

  abbrev from_service : (ForeignError ⊎ K8sService) → W → (Service × Option Error) × W
  from_service (inl e) w =
      if e.is_not_found
      then ((record empty_service { name = service_name }, none), w)
      else ((empty_service, some (failed "failed to get service " e)), w)
  from_service (inr svc) w =
      let (r, w') = client.list_slices namespace service_name w in from_slices (described svc) r w'

  unfoldable pub get_ingress_service : W → (Service × Option Error) × W
  get_ingress_service w =
      let (r, w') = client.get_service namespace service_name w in from_service r w'
