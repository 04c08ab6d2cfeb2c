-- ===== src/ClusterHandler/Environment.antt =====
-- `getEnvironment`, `getVersions` and `getHintsConfigMap` of
-- v2/internal/handlers/clusterhandler/clusterhandler.go.
use ror_agent.Prelude.{
  String, ◌==◌, ◌&&◌, not, [], ◌∷◌, Assoc, lookup, Option, none, some, ForeignError, ◌⊎◌, inl, inr,
  if◌then◌else◌,
}

-- The clients and the config map, `nil` as `none`, and what the interregator and the version of the
-- agent say; the unknown values are `UNKNOWN_UNDEFINED` and `UNKNOWN_ENVIRONMENT` of providermodels.
pub record HintSource : Type 0 where
  pub clientset : Option ForeignError
  pub config_map : ForeignError ⊎ Option (Assoc String)
  pub interregator_environment : String
  pub cluster_name : String
  pub agent_version : String
  pub unknown_undefined : String
  pub unknown_environment : String

abbrev hints_of : (ForeignError ⊎ Option (Assoc String)) → Option (Assoc String)
hints_of (inl e) = none
hints_of (inr m) = m

abbrev unless_failed : Option ForeignError → Option (Assoc String) → Option (Assoc String)
unless_failed (some e) m = none
unless_failed none m = m

unfoldable pub get_hints_config_map : HintSource → Option (Assoc String)
get_hints_config_map source = unless_failed source.clientset (hints_of source.config_map)

abbrev or_fallback : String → Option String → String
or_fallback fallback none = fallback
or_fallback fallback (some v) = v

unfoldable pub get_config_map_value : Option (Assoc String) → String → String → String
get_config_map_value none key fallback = fallback
get_config_map_value (some m) key fallback = or_fallback fallback (lookup key m)

unfoldable pub get_versions : HintSource → Option (Assoc String) → Assoc String
unfolding get_config_map_value
get_versions source hints =
    ("RorAgent", source.agent_version)
    ∷ ("NhnTooling", get_config_map_value hints "toolingVersion" "Unknown")
    ∷ []

-- clusterName[:2], of a text of three characters at least; "" for a shorter one.
abbrev pub prefix : String → String
prefix (String.◌∷◌ a (String.◌∷◌ b (String.◌∷◌ c s))) = String.◌∷◌ a (String.◌∷◌ b String.[])
prefix _ = ""

unfoldable pub guess_environment : HintSource → String → String
guess_environment source name =
    if prefix name == "d-"
    then "dev"
    else if prefix name == "t-"
    then "test"
    else if prefix name == "q-"
    then "qa"
    else if prefix name == "p-"
    then "prod"
    else source.unknown_undefined

unfoldable pub get_environment : HintSource → Option (Assoc String) → String
unfolding get_config_map_value guess_environment
get_environment source hints =
    let env = source.interregator_environment in
    let hint = get_config_map_value hints "environment" "" in
    if not (env == source.unknown_undefined) && not (env == source.unknown_environment)
    then env
    else if not (hint == "")
    then hint
    else guess_environment source source.cluster_name
