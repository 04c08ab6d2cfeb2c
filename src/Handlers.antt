-- ===== src/Handlers.antt =====
-- The handlers of the dynamic watchers: what a change in the cluster makes the agent do.
pub mod Direct
pub mod Cached
pub mod HandedOn
pub mod Delivery
pub mod Spared
pub mod Mirrored
pub mod Listed
use ror_agent.Prelude.{Option}
use ror_agent.Resource.Json.{Members}

-- The `any` that a handler gets: nil, a value of another type, such as the tombstone
-- `cache.DeletedFinalStateUnknown` of an informer, or a pointer to an `unstructured.Unstructured`, nil as
-- `none`, whose map may be nil.
pub data Object : Type 0 where
  nil_object tombstone : Object
  unstructured : Option (Option Members) → Object
