-- ===== src/Ingress/Health.antt =====
-- `GetIngressHealth`: the criteria for the health of an ingress.
use ror_agent.Prelude.{
  ℕ, String, ◌≡◌, refl, Bool, true, false, ◌||◌, ◌&&◌, List, [], ◌∷◌, arith, ◌==◌, length, split,
  last_or, eqb, ltb, if◌then◌else◌,
}
use ror_agent.Ingress.Types.{Ingress, IngressRule, IngressPath}

-- slices.Contains
unfoldable pub contains : List String → String → Bool
contains [] s = false
contains (x ∷ xs) s = x == s || contains xs s

abbrev pub ingress_classes : List String
ingress_classes = "internett" ∷ "helsenett" ∷ "datacenter" ∷ []

-- The part of the class behind its last dash.
unfoldable pub class_suffix : String → String
class_suffix class = last_or "" (split b'-' class)

abbrev pub unhealthy : ℕ
unhealthy = 3

-- The loops of the function carry the health; each test may set it.
unfoldable pub check_paths : List IngressPath → ℕ → ℕ
check_paths [] health = health
check_paths (p ∷ ps) health = check_paths ps (
    let h = if p.service.service_type == "NodePort" then health else unhealthy in
    if eqb (length p.service.endpoints) 0 then unhealthy else h)

unfoldable pub check_rules : List IngressRule → ℕ → ℕ
unfolding check_paths
check_rules [] health = health
check_rules (r ∷ rs) health = check_rules rs (
    let h = if ltb (length r.ip_addresses) 1 then unhealthy else health in
    if ltb (length r.paths) 1 then unhealthy else check_paths r.paths h)

unfoldable pub get_ingress_health : Ingress → Ingress
unfolding contains class_suffix check_rules
get_ingress_health ing =
    let h = if contains ingress_classes (class_suffix ing.class) then ing.health else unhealthy in
    record ing { health = if ltb (length ing.rules) 1 then unhealthy else check_rules ing.rules h }

-- The criteria, as a test of their own.
unfoldable pub path_is_healthy : IngressPath → Bool
path_is_healthy p = p.service.service_type == "NodePort" && ltb 0 (length p.service.endpoints)

unfoldable pub all_paths : List IngressPath → Bool
all_paths [] = true
all_paths (p ∷ ps) = path_is_healthy p && all_paths ps

unfoldable pub rule_is_healthy : IngressRule → Bool
rule_is_healthy r = ltb 0 (length r.ip_addresses) && (ltb 0 (length r.paths) && all_paths r.paths)

unfoldable pub all_rules : List IngressRule → Bool
all_rules [] = true
all_rules (r ∷ rs) = rule_is_healthy r && all_rules rs

-- A class with one of the three suffixes; at least one rule; and of each rule at least one address
-- and one path, each path to a service of type NodePort that has endpoints.
unfoldable pub is_healthy : Ingress → Bool
is_healthy ing =
    contains ingress_classes (class_suffix ing.class)
    && (ltb 0 (length ing.rules) && all_rules ing.rules)

check_paths_lem :
    (ps : List IngressPath) (h : ℕ) → check_paths ps h ≡ (if all_paths ps then h else unhealthy)
unfolding check_paths all_paths path_is_healthy
check_paths_lem [] h = refl
check_paths_lem (p ∷ ps) h = ground (arith, check_paths_lem ps h, check_paths_lem ps unhealthy)

check_rules_lem :
    (rs : List IngressRule) (h : ℕ) → check_rules rs h ≡ (if all_rules rs then h else unhealthy)
unfolding check_rules all_rules rule_is_healthy
check_rules_lem [] h = refl
check_rules_lem (r ∷ rs) h = ground (
  arith,
  check_paths_lem r.paths h,
  check_paths_lem r.paths unhealthy,
  check_rules_lem rs h,
  check_rules_lem rs unhealthy,
)

-- GetIngressHealth keeps the health of an ingress if its class has one of the known suffixes, it
-- has a rule, and every rule has an address and a path, each path to a service of type NodePort
-- that has endpoints; otherwise the health is 3. All else of the ingress stays.
pub get_ingress_health_lem :
    (ing : Ingress)
    → get_ingress_health ing ≡ record ing { health = if is_healthy ing then ing.health else 3 }
unfolding get_ingress_health is_healthy
get_ingress_health_lem ing =
    ground (arith, check_rules_lem ing.rules ing.health, check_rules_lem ing.rules unhealthy)
