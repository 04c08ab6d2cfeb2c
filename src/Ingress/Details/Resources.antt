-- ===== src/Ingress/Details/Resources.antt =====
-- `GetIngressDetails` of an ingress that has a backend which is no service.
use ror_agent.Prelude.{
  String, ◌≡◌, refl, inl, inr, Bool, true, false, ◌||◌, List, [], ◌∷◌, ◌++◌, Option, none, some, ok,
  panic, Assoc, arith, Option-cases, Bool-cases,
}
use ror_agent.Ingress.Types.{
  Service, Client, IngressRule, IngressPath, K8sIngress, K8sRule, K8sPath, K8sAddress,
}
use ror_agent.Ingress.Details.{
  cached_service, add_paths, http_paths, add_rules, get_ingress_details,
}

abbrev is_none : Option String → Bool
is_none none = true
is_none (some s) = false

-- One of the paths has a backend that is no service.
unfoldable pub any_resource_path : List K8sPath → Bool
any_resource_path [] = false
any_resource_path (p ∷ ps) = is_none p.backend_service || any_resource_path ps

abbrev of_http : Option (List K8sPath) → Bool
of_http none = false
of_http (some ps) = any_resource_path ps

unfoldable pub any_resource_rule : List K8sRule → Bool
unfolding any_resource_path
any_resource_rule [] = false
any_resource_rule (r ∷ rs) = of_http r.http || any_resource_rule rs

abbrev pub nil_pointer : String
nil_pointer = "nil pointer dereference"

module _ {W : Type 0} (client : Client W) (namespace : String) where
  add_paths_panic :
      (ps : List K8sPath) (out : List IngressPath) (s : Assoc Service × W)
      → any_resource_path ps ≡ true
      → add_paths client namespace ps out s ≡ panic nil_pointer
  unfolding add_paths any_resource_path
  add_paths_panic [] out s h = cc
  add_paths_panic (p ∷ ps) out s h = elim (Option-cases p.backend_service) [
    | inl e ↦ ground arith
    | inr (name, e) ↦
        let (service, s') = cached_service client namespace name s in
        ground
          (arith, add_paths_panic ps (out ++ record { path = p.path; service = service } ∷ []) s')
  ]

  -- The loop over paths panics exactly so.
  add_paths_cases :
      (ps : List K8sPath) (out : List IngressPath) (s : Assoc Service × W)
      → any_resource_path ps ≡ false
      → (t : List IngressPath × (Assoc Service × W)) × (add_paths client namespace ps out s ≡ ok t)
  unfolding add_paths any_resource_path
  add_paths_cases [] out s h = ((out, s), refl)
  add_paths_cases (p ∷ ps) out s h = elim (Option-cases p.backend_service) [
    | inl e ↦ absurd (ground arith)
    | inr (name, e) ↦
        let (service, s') = cached_service client namespace name s in
        let (t, eq) =
          add_paths_cases ps (out ++ record { path = p.path; service = service } ∷ []) s'
            (ground arith) in
        (t, ground arith)
  ]

  http_paths_cases :
      (o : Option (List K8sPath)) (s : Assoc Service × W)
      → of_http o ≡ false
      → (t : List IngressPath × (Assoc Service × W)) × (http_paths client namespace o s ≡ ok t)
  http_paths_cases none s h = (([], s), refl)
  http_paths_cases (some ps) s h = add_paths_cases ps [] s h

  http_paths_panic :
      (o : Option (List K8sPath)) (s : Assoc Service × W)
      → of_http o ≡ true
      → http_paths client namespace o s ≡ panic nil_pointer
  http_paths_panic none s h = cc
  http_paths_panic (some ps) s h = add_paths_panic ps [] s h

  add_rules_panic :
      (lb : Option (List K8sAddress)) (rs : List K8sRule) (out : List IngressRule)
      (s : Assoc Service × W)
      → any_resource_rule rs ≡ true
      → add_rules client namespace lb rs out s ≡ panic nil_pointer
  unfolding add_rules any_resource_rule
  add_rules_panic lb [] out s h = cc
  add_rules_panic lb (r ∷ rs) out s h = elim (Bool-cases (of_http r.http)) [
    | inl e ↦ rw (http_paths_panic r.http s e)
    | inr e ↦
        let (t, eq) = http_paths_cases r.http s e in
        rw eq (add_rules_panic lb rs _ t.1 (ground arith))
  ]

-- If an ingress has rules and one of their paths has a backend that is no service,
-- GetIngressDetails panics with a nil pointer, whatever the cluster answers.
pub get_ingress_details_panic :
    {W : Type 0} (client : Client W) (ing : K8sIngress) (rules : List K8sRule) (w : W)
    → ing.rules ≡ some rules
    → any_resource_rule rules ≡ true
    → get_ingress_details (some client) ing w ≡ panic nil_pointer
unfolding get_ingress_details
get_ingress_details_panic client ing rules w e h =
    rw e (rw (add_rules_panic client ing.namespace ing.load_balancer rules [] ([], w) h))
