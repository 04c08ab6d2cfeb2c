-- ===== src/DynamicClient.antt =====
-- `MustStart` of common/pkg/clients/dynamicclient/dynamicclient.go: a watcher for each schema that the
-- cluster has. The clients and the discovery of a schema are what the cluster answers.
pub mod Shutdown
use ror_agent.Prelude.{
  Bool, true, false, List, [], ◌∷◌, Option, none, some, ForeignError, foreign, context, Error,
  Outcome, ok, err, panic, ◌⊎◌, inl, inr, ◌≡◌, refl, keep, ap, All, if◌then◌else◌,
}

module _ {S : Type 0} (is_enabled : S → ForeignError ⊎ Bool) where
  abbrev begun : S → Outcome (List S) → Outcome (List S)
  begun schema (ok rest) = ok (schema ∷ rest)
  begun schema (err e) = err e
  begun schema (panic m) = panic m

  abbrev checked : S → ForeignError ⊎ Bool → Outcome (List S) → Outcome (List S)
  checked schema (inl e) rest = panic "Could not query resources from cluster"
  checked schema (inr false) rest = rest
  checked schema (inr true) rest = begun schema rest

  -- The schemas whose watchers start; a fatal error ends the program, and with it those before.
  unfoldable pub start_watchers : List S → Outcome (List S)
  start_watchers [] = ok []
  start_watchers (schema ∷ schemas) =
      let rest = start_watchers schemas in checked schema (is_enabled schema) rest

  abbrev pub default_schemas : List S → List S → List S
  default_schemas [] all = all
  default_schemas (s ∷ ss) all = s ∷ ss

  -- `all` are the schemas of `getSchemas`.
  unfoldable pub must_start :
      Option ForeignError → Option ForeignError → List S → List S → Outcome (List S)
  unfolding start_watchers
  must_start (some e) discovery schemas all = panic "failed to get dynamic client"
  must_start none (some e) schemas all = panic "failed to get discovery client"
  must_start none none schemas all = start_watchers (default_schemas schemas all)

  begun_if :
      (s : S) (ss : List S) (b : Bool) → checked s (inr b) (ok ss) ≡ ok (if b then s ∷ ss else ss)
  begun_if s ss true = refl
  begun_if s ss false = refl

  start_watchers-keep :
      (enabled : S → Bool) (schemas : List S)
      → All (λ s. is_enabled s ≡ inr (enabled s)) schemas
      → start_watchers schemas ≡ ok (keep enabled schemas)
  unfolding start_watchers
  start_watchers-keep enabled [] h = refl
  start_watchers-keep enabled (s ∷ ss) h =
      rw (h.0, start_watchers-keep enabled ss h.1) (begun_if s (keep enabled ss) (enabled s))

  -- If the clients can be made and every schema can be queried, the watchers that start are those of the
  -- schemas that the cluster has, in order.
  pub must_start-keep :
      (enabled : S → Bool) (schemas all : List S)
      → All (λ s. is_enabled s ≡ inr (enabled s)) (default_schemas schemas all)
      → must_start none none schemas all ≡ ok (keep enabled (default_schemas schemas all))
  unfolding must_start
  must_start-keep enabled schemas all h =
      start_watchers-keep enabled (default_schemas schemas all) h
