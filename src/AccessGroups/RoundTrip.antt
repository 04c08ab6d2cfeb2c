-- ===== src/AccessGroups/RoundTrip.antt =====
-- Groups joined with semicolons, and `newAccessGroupsFromData`.
use Prim.Native.Char.{Char, code}
use text.Mathlib.TextLemmas.{nil-append, cons-append}
use ror_agent.Prelude.{
  String, ◌<>◌, ◌≡◌, refl, ap, ◌∙◌, false, List, [], ◌∷◌, some, Assoc, lookup, text_at, arith, All,
  split, has, split_whole, eqb,
}
use ror_agent.AccessGroups.{AccessGroups, new_access_groups_from_data}

-- strings.Join(parts, ";")
unfoldable pub join : List String → String
join [] = ""
join (p ∷ []) = p
join (p ∷ q ∷ ps) = p <> ";" <> join (q ∷ ps)

semicolon : (rest : String) → ";" <> rest ≡ String.◌∷◌ ";" rest
semicolon rest = cons-append ";" "" rest ∙ ap (String.◌∷◌ ";") (nil-append rest)

split_semicolon : (rest : String) → split b';' (String.◌∷◌ ";" rest) ≡ "" ∷ split b';' rest
unfolding split
split_semicolon rest = refl

split_letter :
    (c : Char) (s p : String) (rest : List String)
    → eqb (code c) b';' ≡ false
    → split b';' s ≡ p ∷ rest
    → split b';' (String.◌∷◌ c s) ≡ String.◌∷◌ c p ∷ rest
unfolding split
split_letter c s p rest h e = ground arith

has_tail : (c : Char) (s : String) → has b';' (String.◌∷◌ c s) ≡ false → has b';' s ≡ false
unfolding has
has_tail c s h = ground arith

has_head : (c : Char) (s : String) → has b';' (String.◌∷◌ c s) ≡ false → eqb (code c) b';' ≡ false
unfolding has
has_head c s h = ground arith

split_part :
    (p rest : String) → has b';' p ≡ false → split b';' (p <> ";" <> rest) ≡ p ∷ split b';' rest
split_part String.[] rest h =
    ap (split b';') (nil-append (";" <> rest) ∙ semicolon rest) ∙ split_semicolon rest
split_part (String.◌∷◌ c p) rest h =
    ap (split b';') (cons-append c p (";" <> rest))
    ∙ split_letter c (p <> ";" <> rest) p (split b';' rest) (has_head c p h)
        (split_part p rest (has_tail c p h))

abbrev pub HasNoSemicolon : List String → Type 0
HasNoSemicolon = All (λ (p : String). has b';' p ≡ false)

pub split-join :
    (p : String) (ps : List String) → HasNoSemicolon (p ∷ ps) → split b';' (join (p ∷ ps)) ≡ p ∷ ps
unfolding join
split-join p [] h = split_whole b';' p h.0
split-join p (q ∷ ps) h = split_part p (join (q ∷ ps)) h.0 ∙ ap (λ t. p ∷ t) (split-join q ps h.1)

-- At least one group, and no semicolon in any.
abbrev pub IsField : List String → Type 0
IsField [] = ⊥
IsField (p ∷ ps) = HasNoSemicolon (p ∷ ps)

pub record IsWritable (a : AccessGroups) : Type 0 where
  pub access_groups : IsField a.access_groups
  pub read_only_access_groups : IsField a.read_only_access_groups
  pub grafana_admin_groups : IsField a.grafana_admin_groups
  pub grafana_read_only_groups : IsField a.grafana_read_only_groups
  pub argocd_admin_groups : IsField a.argocd_admin_groups
  pub argocd_read_only_groups : IsField a.argocd_read_only_groups

-- The config map that holds the access groups, each field joined.
unfoldable pub data_of : AccessGroups → Assoc String
data_of a =
    ("accessGroups", join a.access_groups)
    ∷ ("readOnlyAccessGroups", join a.read_only_access_groups)
    ∷ ("grafanaAdminGroups", join a.grafana_admin_groups)
    ∷ ("grafanaReadOnlyGroups", join a.grafana_read_only_groups)
    ∷ ("argocdAdminGroups", join a.argocd_admin_groups)
    ∷ ("argocdReadOnlyGroups", join a.argocd_read_only_groups)
    ∷ []

split-join_field : (ps : List String) → IsField ps → split b';' (join ps) ≡ ps
split-join_field [] h = absurd h
split-join_field (p ∷ ps) h = split-join p ps h

-- Access groups that have at least one group in each field and no semicolon in any group are read
-- back from the config map that holds each field joined with semicolons.
pub new_access_groups_from_data-data_of :
    (a : AccessGroups) → IsWritable a → new_access_groups_from_data (some (data_of a)) ≡ a
unfolding new_access_groups_from_data data_of text_at lookup
new_access_groups_from_data-data_of a h = λ i. record {
  access_groups = split-join_field a.access_groups h.access_groups i;
  read_only_access_groups = split-join_field a.read_only_access_groups h.read_only_access_groups i;
  grafana_admin_groups = split-join_field a.grafana_admin_groups h.grafana_admin_groups i;
  grafana_read_only_groups =
      split-join_field a.grafana_read_only_groups h.grafana_read_only_groups i;
  argocd_admin_groups = split-join_field a.argocd_admin_groups h.argocd_admin_groups i;
  argocd_read_only_groups = split-join_field a.argocd_read_only_groups h.argocd_read_only_groups i;
}
