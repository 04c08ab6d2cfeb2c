-- ===== src/AccessGroups.antt =====
-- The access groups of internal/services/heartbeat.go: read from a config map, and reported as a list
-- of roles.
pub mod Roles
pub mod RoundTrip
use ror_agent.Prelude.{
  String, ◌<>◌, ◌==◌, List, [], ◌∷◌, ◌++◌, Assoc, text_at, Option, none, some, split, if◌then◌else◌,
}

pub record AccessGroups : Type 0 where
  pub access_groups : List String
  pub read_only_access_groups : List String
  pub grafana_admin_groups : List String
  pub grafana_read_only_groups : List String
  pub argocd_admin_groups : List String
  pub argocd_read_only_groups : List String

-- The loop over the groups of one field: an empty group is left out.
unfoldable pub add_roles : String → List String → List String → List String
add_roles role [] result = result
add_roles role (group ∷ groups) result =
    add_roles role groups (if group == "" then result else result ++ (role <> " - " <> group) ∷ [])

unfoldable pub string_array : AccessGroups → List String
unfolding add_roles
string_array a =
    let r1 = add_roles "Cluster Operator" a.access_groups [] in
    let r2 = add_roles "Cluster ReadOnly" a.read_only_access_groups r1 in
    let r3 = add_roles "Grafana Operator" a.grafana_admin_groups r2 in
    let r4 = add_roles "Grafana ReadOnly" a.grafana_read_only_groups r3 in
    let r5 = add_roles "ArgoCD Operator" a.argocd_admin_groups r4 in
    add_roles "ArgoCD ReadOnly" a.argocd_read_only_groups r5

abbrev pub no_groups : AccessGroups
no_groups = record {
  access_groups = [];
  read_only_access_groups = [];
  grafana_admin_groups = [];
  grafana_read_only_groups = [];
  argocd_admin_groups = [];
  argocd_read_only_groups = [];
}

-- A nil map is `none`.
unfoldable pub new_access_groups_from_data : Option (Assoc String) → AccessGroups
new_access_groups_from_data none = no_groups
new_access_groups_from_data (some m) = record {
  access_groups = split b';' (text_at "accessGroups" m);
  read_only_access_groups = split b';' (text_at "readOnlyAccessGroups" m);
  grafana_admin_groups = split b';' (text_at "grafanaAdminGroups" m);
  grafana_read_only_groups = split b';' (text_at "grafanaReadOnlyGroups" m);
  argocd_admin_groups = split b';' (text_at "argocdAdminGroups" m);
  argocd_read_only_groups = split b';' (text_at "argocdReadOnlyGroups" m);
}
