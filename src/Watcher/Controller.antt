-- ===== src/Watcher/Controller.antt =====
-- How common/pkg/controllers/dynamiccontroller/dynamicController.go chooses between a watcher without a
-- cache and an informer of client-go, and what it collects after a first list.
pub mod Collections
use ror_agent.Prelude.{
  Bool, true, false, List, [], ◌∷◌, Option, none, some, ForeignError, if◌then◌else◌,
}
use ror_agent.Configuration.{
  RorConfig, ConfigConsts, name_of, dynamic_watch_no_cache, force_gc_after_initial_list,
  force_gc_after_initial_list_free_os_memory,
}

-- `DynamicController` by its informer, which is whether the handlers were added to it, if there is one.
pub record DynamicController : Type 0 where
  pub no_cache : Bool
  pub informer : Option Bool

-- The goroutine that `Run` starts.
pub data Goroutine : Type 0 where
  no_cache_watcher informer_run : Goroutine

-- Calls of the runtime.
pub data Collection : Type 0 where
  gc free_os_memory : Collection

abbrev pub handlers_added : Option ForeignError → Bool
handlers_added none = true
handlers_added (some e) = false

unfoldable pub run : DynamicController → Goroutine
run c = if c.no_cache then no_cache_watcher else informer_run

module _ {C : Type 0} (ror_config : RorConfig C) (consts : ConfigConsts) where
  open ror_config use {get_bool}

  unfoldable pub dynamic_watch_no_cache_enabled : C → Bool
  dynamic_watch_no_cache_enabled c = get_bool (name_of consts dynamic_watch_no_cache) c

  unfoldable pub force_gc_after_initial_list_enabled : C → Bool
  force_gc_after_initial_list_enabled c = get_bool (name_of consts force_gc_after_initial_list) c

  unfoldable pub force_gc_after_initial_list_free_os_memory_enabled : C → Bool
  force_gc_after_initial_list_free_os_memory_enabled c =
      get_bool (name_of consts force_gc_after_initial_list_free_os_memory) c

  -- `failed` is the error of `AddEventHandler`, which is only logged.
  unfoldable pub new_dynamic_controller : Option ForeignError → C → DynamicController
  unfolding dynamic_watch_no_cache_enabled
  new_dynamic_controller failed c =
      if dynamic_watch_no_cache_enabled c
      then record { no_cache = true; informer = none }
      else record { no_cache = false; informer = some (handlers_added failed) }

  unfoldable pub maybe_force_gc_after_initial_list : C → List Collection
  unfolding force_gc_after_initial_list_enabled force_gc_after_initial_list_free_os_memory_enabled
  maybe_force_gc_after_initial_list c =
      if force_gc_after_initial_list_enabled c
      then (if force_gc_after_initial_list_free_os_memory_enabled c
          then gc ∷ free_os_memory ∷ []
          else gc ∷ [])
      else []
