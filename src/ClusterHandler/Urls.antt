-- ===== src/ClusterHandler/Urls.antt =====
-- `getUrls` of v2/internal/handlers/clusterhandler/clusterhandler.go: the addresses of two tools, read from
-- an ingress or from a route of the gateway API.
pub mod Candidates
use ror_agent.Prelude.{
  String, ◌<>◌, ◌==◌, Bool, true, false, ◌||◌, List, [], ◌∷◌, Assoc, Option, none, some,
  ForeignError, ◌⊎◌, inl, inr, if◌then◌else◌,
}

-- An ingress by the hosts of each TLS entry and the host of each rule.
pub record RouteIngress : Type 0 where
  pub tls : List (List String)
  pub rule_hosts : List String

-- The clients and their answers: the kinds of the two API groups, an ingress and a route by namespace
-- and name. A route is what `NestedStringSlice` makes of its host names, `none` if it finds none.
pub record RouteSource : Type 0 where
  pub discovery_client : Option ForeignError
  pub ingress_kinds : ForeignError ⊎ List String
  pub route_kinds : ForeignError ⊎ List String
  pub clientset : Option ForeignError
  pub ingress : String → String → ForeignError ⊎ RouteIngress
  pub dynamic_client : Option ForeignError
  pub route : String → String → ForeignError ⊎ (ForeignError ⊎ Option (List String))

-- The loop over the API resources.
unfoldable pub has_kind : String → List String → Bool
has_kind kind [] = false
has_kind kind (k ∷ ks) = k == kind || has_kind kind ks

abbrev listed : String → (ForeignError ⊎ List String) → Bool
listed kind (inl e) = false
listed kind (inr kinds) = has_kind kind kinds

abbrev discovered : RouteSource → Option ForeignError → Bool × Bool
discovered source (some e) = (false, false)
discovered source none =
    (listed "Ingress" source.ingress_kinds, listed "HTTPRoute" source.route_kinds)

unfoldable pub discover_route_apis : RouteSource → Bool × Bool
unfolding has_kind
discover_route_apis source = discovered source source.discovery_client

abbrev pub https : String → String
https host = "https://" <> host

-- The loop over the rules: the first host that is not empty.
unfoldable pub rule_url : List String → String
rule_url [] = ""
rule_url (h ∷ hs) = let rest = rule_url hs in if h == "" then rest else https h

-- The loop over the TLS entries: the first host of the first entry that has one.
unfoldable pub ingress_url : List (List String) → List String → String
unfolding rule_url
ingress_url [] rules = rule_url rules
ingress_url ([] ∷ tls) rules = ingress_url tls rules
ingress_url ((h ∷ hs) ∷ tls) rules = https h

abbrev pub of_ingress : (ForeignError ⊎ RouteIngress) → String
of_ingress (inl e) = ""
of_ingress (inr i) = ingress_url i.tls i.rule_hosts

abbrev pub unless_failed : Option ForeignError → String → String
unless_failed (some e) url = ""
unless_failed none url = url

unfoldable pub get_url_from_ingress : RouteSource → String → String → String
unfolding ingress_url
get_url_from_ingress source namespace name =
    unless_failed source.clientset (of_ingress (source.ingress namespace name))

abbrev pub of_hostnames : (ForeignError ⊎ Option (List String)) → String
of_hostnames (inl e) = ""
of_hostnames (inr none) = ""
of_hostnames (inr (some [])) = ""
of_hostnames (inr (some (h ∷ hs))) = https h

abbrev pub of_route : (ForeignError ⊎ (ForeignError ⊎ Option (List String))) → String
of_route (inl e) = ""
of_route (inr hostnames) = of_hostnames hostnames

unfoldable pub get_url_from_http_route : RouteSource → String → String → String
get_url_from_http_route source namespace name =
    unless_failed source.dynamic_client (of_route (source.route namespace name))

abbrev pub or_else : String → String → String
or_else url next = if url == "" then next else url

abbrev pub when : Bool → String → String
when has_api url = if has_api then url else ""

unfoldable pub get_url : RouteSource → String → String → Bool → Bool → String
unfolding get_url_from_ingress get_url_from_http_route
get_url source namespace name has_ingress has_http_route =
    or_else (when has_ingress (get_url_from_ingress source namespace name))
      (when has_http_route (get_url_from_http_route source namespace name))

unfoldable pub get_urls : RouteSource → Assoc String
unfolding discover_route_apis get_url
get_urls source =
    let (has_ingress, has_http_route) = discover_route_apis source in
    ("Argocd", get_url source "argocd" "argocd-server" has_ingress has_http_route)
    ∷ (
      "Grafana",
      get_url source "prometheus-operator" "grafana-helsenett" has_ingress has_http_route,
    )
    ∷ []
