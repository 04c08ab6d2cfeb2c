-- ===== src/Handlers/Cached.antt =====
-- v2/internal/handlers/dynamicclienthandler/dynamichandler.go and schemahandler.go: the handlers of the
-- agent of version 2, which leave the sending to the cache of ror/pkg.
use ror_agent.Prelude.{
  String, Bool, true, false, ◌&&◌, ◌||◌, not, Option, none, some, Outcome, ok, panic, if◌then◌else◌,
}
use ror_agent.WorkQueue.{Action, add, update, delete, OwnerReference}
use ror_agent.Resource.Json.{Members}
use ror_agent.Handlers.{Object, nil_object, tombstone, unstructured}

-- What the handler calls: the cache on a state `C`, and the operations on a resource `R`. `set_ror_meta`
-- gets the version, the owner and the action.
pub record CacheServices (E R C : Type 0) : Type 0 where
  pub get_ownerref : C → OwnerReference
  pub cleanup_running : C → Bool
  pub mark_active : String → C → C
  pub check_update_needed : String → String → C → Bool × C
  pub add_resource : R → C → C
  pub new_resource : Option Members → R
  pub set_ror_meta : String → OwnerReference → Action → R → Option E × R
  pub gen_ror_hash : R → R
  pub get_uid : R → String
  pub get_ror_hash : R → String

unfoldable pub is_delete : Action → Bool
is_delete delete = true
is_delete _ = false

module _ {E R C : Type 0} (services : CacheServices E R C) where
  -- What follows GenRorHash.
  unfoldable pub offer : Action → R → C → C
  unfolding is_delete
  offer action r c =
      let c' =
        if not (is_delete action) && services.cleanup_running c
        then services.mark_active (services.get_uid r) c
        else c in
      let (needed, c'') =
        services.check_update_needed (services.get_uid r) (services.get_ror_hash r) c' in
      if needed || is_delete action then services.add_resource r c'' else c''

  abbrev pub with_meta : Action → Option E × R → C → C
  with_meta action (some e, r) c = c
  with_meta action (none, r) c = offer action (services.gen_ror_hash r) c

  unfoldable pub send_resource : Action → Option Members → C → C
  send_resource action input c =
      with_meta action
        (services.set_ror_meta "v2" (services.get_ownerref c) action (services.new_resource input))
        c

  unfoldable pub guarded : Action → Object → C → Outcome (Unit {0}) × C
  guarded action nil_object c = (ok tt, c)
  guarded action tombstone c = (panic "interface conversion: not *unstructured.Unstructured", c)
  guarded action (unstructured none) c = (panic "nil pointer dereference", c)
  guarded action (unstructured (some input)) c = (ok tt, send_resource action input c)

  unfoldable pub add_resource : Object → C → Outcome (Unit {0}) × C
  unfolding guarded
  add_resource obj c = guarded add obj c

  unfoldable pub delete_resource : Object → C → Outcome (Unit {0}) × C
  unfolding guarded
  delete_resource obj c = guarded delete obj c

  unfoldable pub update_resource : Object → Object → C → Outcome (Unit {0}) × C
  unfolding guarded
  update_resource old obj c = guarded update obj c
