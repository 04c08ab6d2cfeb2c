-- ===== src/Ingress/Details/Reference.antt =====
-- `GetIngressDetails` against a description with no cache, for a cluster that answers steadily.
use ror_agent.Prelude.{
  String, ◌≡◌, refl, ap, ◌∙◌, inl, inr, List, [], ◌∷◌, ◌++◌, map, Option, none, some, Error, ok,
  Assoc, lookup, lookup-insert, arith, eq_iff, All, Option-cases,
}
use mathlib.Core.List.{append-nil, append_assoc}
use ror_agent.Ingress.Types.{
  Service, Client, IngressRule, IngressPath, K8sIngress, K8sRule, K8sPath, K8sAddress,
}
use ror_agent.Ingress.Health.{get_ingress_health}
use ror_agent.Ingress.Service.{get_ingress_service, empty_service}
use ror_agent.Ingress.Details.{
  cached_service, add_paths, http_paths, add_rules, ip_addresses, get_ingress_details, or_text,
}

-- What a path reports of its service: the empty service if it cannot be read.
abbrev pub settled : Service × Option Error → Service
settled (s, none) = s
settled (s, some e) = empty_service

module _ {W : Type 0} (client : Client W) (namespace : String)
    (fetch : String → Service × Option Error) where
  -- The cluster answers the calls about a service of the namespace always alike.
  abbrev pub IsSteady : Type 0
  IsSteady = (name : String) (w : W) → (get_ingress_service client namespace name w).0 ≡ fetch name

  -- The services in the cache are those that the cluster has.
  abbrev IsFaithful : Assoc Service → Type 0
  IsFaithful cache =
      (name : String) (s : Service) → lookup name cache ≡ some s → fetch name ≡ (s, none)

  abbrev pub HasService : K8sPath → Type 0
  HasService p = (name : String) × (p.backend_service ≡ some name)

  abbrev named : Option String → Service
  named none = empty_service
  named (some name) = settled (fetch name)

  abbrev plain_path : K8sPath → IngressPath
  plain_path p = record { path = p.path; service = named p.backend_service }

  abbrev plain_paths : Option (List K8sPath) → List IngressPath
  plain_paths none = []
  plain_paths (some ps) = map plain_path ps

  abbrev AllServices : Option (List K8sPath) → Type 0
  AllServices none = Unit
  AllServices (some ps) = All HasService ps

  -- Every path of the rule leads to a service.
  abbrev pub RuleHasServices : K8sRule → Type 0
  RuleHasServices r = AllServices r.http

  -- A rule with each of its services read from the cluster.
  abbrev pub plain_rule : Option (List K8sAddress) → K8sRule → IngressRule
  plain_rule lb r = record {
    hostname = r.host;
    ip_addresses = ip_addresses r.host lb;
    paths = plain_paths r.http;
  }

  cached_service-settled :
      (name : String) (cache : Assoc Service) (w : W)
      → IsSteady
      → IsFaithful cache
      → (cached_service client namespace name (cache, w)).0 ≡ settled (fetch name)
  unfolding cached_service
  cached_service-settled name cache w st f = elim (Option-cases (lookup name cache)) [
    | inl e ↦ ground (arith, st name w)
    | inr (s, e) ↦ ground (arith, f name s e)
  ]

  cached_service-IsFaithful :
      (name : String) (cache : Assoc Service) (w : W)
      → IsSteady
      → IsFaithful cache
      → IsFaithful (cached_service client namespace name (cache, w)).1.0
  unfolding cached_service
  cached_service-IsFaithful name cache w st f j t = elim (Option-cases (lookup name cache)) [
    | inl e ↦ λ h. ground (
      arith,
      st name w,
      f j t,
      lookup-insert name j (get_ingress_service client namespace name w).0.0 cache,
      eq_iff name j,
    )
    | inr (s, e) ↦ λ h. ground (arith, f j t)
  ]

  add_paths_lem :
      (ps : List K8sPath) (out : List IngressPath) (cache : Assoc Service) (w : W)
      → IsSteady
      → IsFaithful cache
      → All HasService ps
      → (s : Assoc Service × W) × (add_paths client namespace ps out (cache, w)
          ≡ ok (out ++ map plain_path ps, s))
        × IsFaithful s.0
  unfolding add_paths
  add_paths_lem [] out cache w st f h = ((cache, w), ground (arith, append-nil out), f)
  add_paths_lem (p ∷ ps) out cache w st f ((name, e), h) =
      let next = (cached_service client namespace name (cache, w)).1 in
      let new : IngressPath = record { path = p.path; service = settled (fetch name) } in
      let (s, eq, f') =
        add_paths_lem ps (out ++ new ∷ []) next.0 next.1 st
          (cached_service-IsFaithful name cache w st f) h in
      (
        s,
        ground (
          arith,
          cached_service-settled name cache w st f,
          append_assoc out (new ∷ []) (map plain_path ps),
          eq,
        ),
        f',
      )

  http_paths_lem :
      (o : Option (List K8sPath)) (cache : Assoc Service) (w : W)
      → IsSteady
      → IsFaithful cache
      → AllServices o
      → (s : Assoc Service × W) × (http_paths client namespace o (cache, w) ≡ ok (plain_paths o, s))
        × IsFaithful s.0
  http_paths_lem none cache w st f h = ((cache, w), refl, f)
  http_paths_lem (some ps) cache w st f h = add_paths_lem ps [] cache w st f h

  add_rules_lem :
      (lb : Option (List K8sAddress)) (rs : List K8sRule) (out : List IngressRule)
      (cache : Assoc Service) (w : W)
      → IsSteady
      → IsFaithful cache
      → All RuleHasServices rs
      → (s : Assoc Service × W) × (add_rules client namespace lb rs out (cache, w)
          ≡ ok (out ++ map (plain_rule lb) rs, s))
  unfolding add_rules
  add_rules_lem lb [] out cache w st f h = ((cache, w), ground (arith, append-nil out))
  add_rules_lem lb (r ∷ rs) out cache w st f h =
      let ((cache', w'), eq, f') = http_paths_lem r.http cache w st f h.0 in
      let (s, eq') = add_rules_lem lb rs (out ++ plain_rule lb r ∷ []) cache' w' st f' h.1 in
      (
        s,
        rw eq (
            eq'
            ∙ ap (λ t. ok (t, s))
                (append_assoc out (plain_rule lb r ∷ []) (map (plain_rule lb) rs))),
      )

-- If the cluster answers every call about a service of the namespace always alike, the ingress
-- has rules, and every path leads to a service, then GetIngressDetails returns, with no error,
-- the health check of the ingress whose rules are read one by one with each service asked for
-- anew: its cache of services changes nothing.
pub get_ingress_details_lem :
    {W : Type 0} (client : Client W) (fetch : String → Service × Option Error) (ing : K8sIngress)
    (rules : List K8sRule) (w : W)
    → IsSteady client ing.namespace fetch
    → ing.rules ≡ some rules
    → All (RuleHasServices client ing.namespace fetch) rules
    → (w' : W) × (get_ingress_details (some client) ing w
        ≡ ok (
          get_ingress_health (record {
            uid = ing.uid;
            health = 1;
            name = ing.name;
            namespace = ing.namespace;
            class = or_text ing.class_name;
            rules = map (plain_rule client ing.namespace fetch ing.load_balancer) rules;
          }),
          w',
        ))
unfolding get_ingress_details
get_ingress_details_lem client fetch ing rules w st e h =
    let (s, eq) =
      add_rules_lem client ing.namespace fetch ing.load_balancer rules [] [] w st
        (λ name t k. empty_cache name t k) h in
    (s.1, rw e (rw eq))
  where
    empty_cache : (name : String) (t : Service) → lookup name [] ≡ some t → fetch name ≡ (t, none)
    empty_cache name t k = unfold lookup in cc
