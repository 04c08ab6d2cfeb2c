-- ===== src/Tooling/Reported.antt =====
-- What `GetNhnToolingMetadata` returns.
use ror_agent.Prelude.{
  String, ◌==◌, ◌≡◌, refl, false, Option, none, some, Error, ForeignError, Assoc, text_at, ◌⊎◌, inl,
  inr, arith, Option-cases,
}
use ror_agent.AccessGroups.{string_array, new_access_groups_from_data}
use ror_agent.Tooling.{
  ToolingSource, NhnTooling, default_tooling, or_default, from_config_map, get_nhn_tooling_metadata,
}

-- The defaults with an error; or what a config map holds, with no error, where the environment is
-- never empty.
pub data Reported (config_map : ForeignError ⊎ Option (Assoc String)) (t : NhnTooling)
    (failed : Option Error) : Type 0 where
  defaults : (e : Error) → t ≡ default_tooling → failed ≡ some e → Reported config_map t failed
  read :
      (config : Assoc String)
      → config_map ≡ inr (some config)
      → failed ≡ none
      → t.access_groups ≡ string_array (new_access_groups_from_data (some config))
      → (t.environment == "") ≡ false
      → Reported config_map t failed

or_default_some :
    (text default : String) → (default == "") ≡ false → (or_default text default == "") ≡ false
or_default_some text default h = ground arith

from_config_map-Reported :
    (source : ToolingSource) (config_map : ForeignError ⊎ Option (Assoc String))
    → let (t, failed) = from_config_map source config_map in Reported config_map t failed
from_config_map-Reported source (inl e) = defaults _ refl refl
from_config_map-Reported source (inr none) = defaults _ refl refl
from_config_map-Reported source (inr (some config)) =
    read config refl refl refl (or_default_some (text_at "environment" config) "dev" refl)

-- GetNhnToolingMetadata returns either the defaults with an error, or no error, where the config
-- map has data, the access groups are the roles of its groups, and the environment is not empty.
pub get_nhn_tooling_metadata-Reported :
    (source : ToolingSource)
    → let (t, failed) = get_nhn_tooling_metadata source in Reported source.config_map t failed
unfolding get_nhn_tooling_metadata
get_nhn_tooling_metadata-Reported source = elim (Option-cases source.clientset) [
  | inr (e, h) ↦ rw h (defaults _ refl refl)
  | inl h ↦ elim (Option-cases source.dynamic_client) [
    | inr (e, h') ↦ rw (h, h') (defaults _ refl refl)
    | inl h' ↦ rw (h, h') (from_config_map-Reported source source.config_map)
  ]
]
