-- ===== src/Handlers/Direct.antt =====
-- internal/handlers/dynamichandler/functions.go: the handlers of the agent, which send at once.
use ror_agent.Prelude.{ℕ, Option, Outcome, ok, panic}
use ror_agent.WorkQueue.{Action, add, update, delete}
use ror_agent.Resource.{Libraries}
use ror_agent.ResourceCache.{Services, Cache, send_resource}
use ror_agent.Handlers.{Object, nil_object, tombstone, unstructured}

module _ {P W H : Type 0} (libs : Libraries P) (services : Services (Option P) W H) where
  abbrev pub State : Type 0
  State = Cache (Option P) H × W

  -- The type assertion holds of a nil pointer, and of no other value than such a pointer.
  unfoldable pub asserted : ℕ → Action → Object → State → Outcome (Unit {0}) × State
  asserted now action nil_object s = (panic "interface conversion: interface is nil", s)
  asserted now action tombstone s =
      (panic "interface conversion: not *unstructured.Unstructured", s)
  asserted now action (unstructured input) s =
      (ok tt, send_resource libs services now action input s)

  unfoldable pub add_resource : ℕ → Object → State → Outcome (Unit {0}) × State
  unfolding asserted
  add_resource now obj s = asserted now add obj s

  unfoldable pub delete_resource : ℕ → Object → State → Outcome (Unit {0}) × State
  unfolding asserted
  delete_resource now obj s = asserted now delete obj s

  unfoldable pub update_resource : ℕ → Object → Object → State → Outcome (Unit {0}) × State
  unfolding asserted
  update_resource now old obj s = asserted now update obj s
