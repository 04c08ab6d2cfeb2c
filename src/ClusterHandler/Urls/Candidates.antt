-- ===== src/ClusterHandler/Urls/Candidates.antt =====
-- `getUrl` against the list of all the hosts that it may choose from.
use text.Mathlib.TextLemmas.{cons-append}
use ror_agent.Prelude.{
  String, ◌<>◌, ◌==◌, ◌≡◌, refl, ap, ◌∙◌, inl, inr, ◌⊎◌, Bool, true, false, List, [], ◌∷◌, ◌++◌,
  Option, none, some, ForeignError, arith, cons-eq-empty, if◌then◌else◌,
}
use ror_agent.ClusterHandler.Urls.{
  RouteIngress, RouteSource, rule_url, ingress_url, get_url_from_ingress, get_url_from_http_route,
  get_url, of_ingress, of_route, unless_failed, https, or_else, when,
}

-- The first host of each entry.
abbrev firsts : List (List String) → List String
firsts [] = []
firsts ([] ∷ rest) = firsts rest
firsts ((h ∷ hs) ∷ rest) = h ∷ firsts rest

abbrev filled : List String → List String
filled [] = []
filled (h ∷ hs) = let rest = filled hs in if h == "" then rest else h ∷ rest

-- The hosts of the ingress, if it can be read: those of its TLS entries, then those of its rules.
abbrev pub ingress_hosts : Option ForeignError → (ForeignError ⊎ RouteIngress) → List String
ingress_hosts (some e) r = []
ingress_hosts none (inl e) = []
ingress_hosts none (inr i) = firsts i.tls ++ filled i.rule_hosts

-- The hosts of the route, if it can be read.
abbrev pub route_hosts :
    Option ForeignError → (ForeignError ⊎ (ForeignError ⊎ Option (List String))) → List String
route_hosts (some e) r = []
route_hosts none (inl e) = []
route_hosts none (inr (inl e)) = []
route_hosts none (inr (inr none)) = []
route_hosts none (inr (inr (some hs))) = hs

abbrev only_if : Bool → List String → List String
only_if has_api hosts = if has_api then hosts else []

-- The address of the first host, "" if there is none.
abbrev pub first_url : List String → String
first_url [] = ""
first_url (h ∷ hs) = https h

-- All hosts, in the order of preference.
abbrev pub candidates : RouteSource → String → String → Bool → Bool → List String
candidates source namespace name has_ingress has_http_route =
    only_if has_ingress (ingress_hosts source.clientset (source.ingress namespace name))
    ++ only_if has_http_route (route_hosts source.dynamic_client (source.route namespace name))

https_filled : (h : String) → (https h == "") ≡ false
https_filled h =
    ap (λ s. s == "") (cons-append "h" "ttps://" h) ∙ cons-eq-empty "h" ("ttps://" <> h)

rule_url_lem : (hs : List String) → rule_url hs ≡ first_url (filled hs)
unfolding rule_url
rule_url_lem [] = refl
rule_url_lem (h ∷ hs) = ground (arith, rule_url_lem hs)

ingress_url_lem :
    (tls : List (List String)) (hs : List String)
    → ingress_url tls hs ≡ first_url (firsts tls ++ filled hs)
unfolding ingress_url
ingress_url_lem [] hs = rule_url_lem hs
ingress_url_lem ([] ∷ tls) hs = ingress_url_lem tls hs
ingress_url_lem ((h ∷ t) ∷ tls) hs = refl

of_ingress_lem :
    (failed : Option ForeignError) (r : ForeignError ⊎ RouteIngress)
    → unless_failed failed (of_ingress r) ≡ first_url (ingress_hosts failed r)
of_ingress_lem (some e) r = refl
of_ingress_lem none (inl e) = refl
of_ingress_lem none (inr i) = ingress_url_lem i.tls i.rule_hosts

of_route_lem :
    (failed : Option ForeignError) (r : ForeignError ⊎ (ForeignError ⊎ Option (List String)))
    → unless_failed failed (of_route r) ≡ first_url (route_hosts failed r)
of_route_lem (some e) r = refl
of_route_lem none (inl e) = refl
of_route_lem none (inr (inl e)) = refl
of_route_lem none (inr (inr none)) = refl
of_route_lem none (inr (inr (some []))) = refl
of_route_lem none (inr (inr (some (h ∷ hs)))) = refl

when_lem : (b : Bool) (hosts : List String) → when b (first_url hosts) ≡ first_url (only_if b hosts)
when_lem true hosts = refl
when_lem false hosts = refl

or_else_lem : (xs ys : List String) → or_else (first_url xs) (first_url ys) ≡ first_url (xs ++ ys)
or_else_lem [] ys = refl
or_else_lem (h ∷ hs) ys = rw (https_filled h)

-- getUrl gives the address of the first of these hosts, or the empty text if there is none: of
-- the ingress, the first host of each TLS entry that has one and then the rule hosts that are not
-- empty, and then the host names of the route; the hosts of each of the two count only if its API
-- is there and it can be read.
pub get_url_lem :
    (source : RouteSource) (namespace name : String) (has_ingress has_http_route : Bool)
    → get_url source namespace name has_ingress has_http_route
      ≡ first_url (candidates source namespace name has_ingress has_http_route)
unfolding get_url get_url_from_ingress get_url_from_http_route
get_url_lem source namespace name has_ingress has_http_route =
    let i = ingress_hosts source.clientset (source.ingress namespace name) in
    let r = route_hosts source.dynamic_client (source.route namespace name) in
    simp (
      of_ingress_lem source.clientset (source.ingress namespace name),
      of_route_lem source.dynamic_client (source.route namespace name),
      when_lem,
      or_else_lem,
    )
