-- ===== src/Watcher/Controller/Collections.antt =====
-- The garbage collections that the calls of the watcher of
-- common/pkg/controllers/dynamiccontroller/dynamicController.go make.
use ror_agent.Prelude.{String, ◌≡◌, refl, ◌∙◌, List, [], ◌∷◌, ◌++◌, map}
use mathlib.Core.List.{append-nil}
use ror_agent.Configuration.{RorConfig, ConfigConsts}
use ror_agent.Watcher.{
  Call, listed, added, watched, updated, deleted, slept, stopped_watch, forced_gc,
}
use ror_agent.Watcher.Calls.{Pages, last_page, next_page, reads}
use ror_agent.Watcher.Controller.{Collection, maybe_force_gc_after_initial_list}

module _ {C : Type 0} (ror_config : RorConfig C) (consts : ConfigConsts) (c : C) {A : Type 0} where
  abbrev pub collections_of : Call A → List Collection
  collections_of forced_gc = maybe_force_gc_after_initial_list ror_config consts c
  collections_of (listed cont) = []
  collections_of (watched rv) = []
  collections_of (added u) = []
  collections_of (updated u) = []
  collections_of (deleted u) = []
  collections_of (slept n) = []
  collections_of stopped_watch = []

  -- What the runtime is told to collect, call after call.
  unfoldable pub collections : List (Call A) → List Collection
  collections [] = []
  collections (x ∷ xs) = collections_of x ++ collections xs

  collections-added :
      (items : List A) (rest : List (Call A))
      → collections (map added items ++ rest) ≡ collections rest
  unfolding collections
  collections-added [] rest = refl
  collections-added (u ∷ us) rest = collections-added us rest

  -- Reading all pages of a list collects once, behind the last.
  pub collections-reads :
      (from : String) (ps : Pages A)
      → collections (reads from ps) ≡ maybe_force_gc_after_initial_list ror_config consts c
  unfolding collections
  collections-reads from (last_page items rv) =
      collections-added items (forced_gc ∷ [])
      ∙ append-nil (maybe_force_gc_after_initial_list ror_config consts c)
  collections-reads from (next_page items rv cont h ps) =
      collections-added items (reads cont ps) ∙ collections-reads cont ps
