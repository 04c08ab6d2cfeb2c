-- ===== src/AccessGroups/Roles.antt =====
-- The roles that `StringArray` reports.
use ror_agent.Prelude.{
  inl, inr, String, ◌<>◌, ◌≡◌, sym, ◌∙◌, ◌==◌, List, [], ◌∷◌, ◌++◌, map, Bool-cases, if◌then◌else◌,
}
use mathlib.Core.List.{append-nil, append_assoc}
use ror_agent.AccessGroups.{AccessGroups, add_roles, string_array}

-- The groups that are not empty.
unfoldable pub non_empty : List String → List String
non_empty [] = []
non_empty (g ∷ gs) = if g == "" then non_empty gs else g ∷ non_empty gs

abbrev pub role_of : String → String → String
role_of role group = role <> " - " <> group

-- The roles of one field.
abbrev pub roles : String → List String → List String
roles role gs = map (role_of role) (non_empty gs)

add_roles_lem :
    (role : String) (gs result : List String) → add_roles role gs result ≡ result ++ roles role gs
unfolding add_roles non_empty
add_roles_lem role [] result = sym (append-nil result)
add_roles_lem role (g ∷ gs) result = elim (Bool-cases (g == "")) [
  | inl e ↦ rw e (add_roles_lem role gs result)
  | inr e ↦ rw e (
      add_roles_lem role gs (result ++ role_of role g ∷ [])
      ∙ append_assoc result (role_of role g ∷ []) (roles role gs))
]

-- StringArray lists the roles of the six fields one after another, each with the groups of its
-- field in order and without the empty ones.
pub string_array_lem :
    (a : AccessGroups)
    → string_array a
      ≡ roles "Cluster Operator" a.access_groups
        ++ (roles "Cluster ReadOnly" a.read_only_access_groups
            ++ (roles "Grafana Operator" a.grafana_admin_groups
                ++ (roles "Grafana ReadOnly" a.grafana_read_only_groups
                    ++ (roles "ArgoCD Operator" a.argocd_admin_groups
                        ++ roles "ArgoCD ReadOnly" a.argocd_read_only_groups))))
unfolding string_array
string_array_lem a = simp (add_roles_lem, append_assoc)
