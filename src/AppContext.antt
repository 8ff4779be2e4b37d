-- ===== src/AppContext.antt =====
-- appcontext/context.go and `CoerceType` of pkg/util/helpers.go: the values that flow through a
-- pipeline, the context of one pass, and the type of pipeline functions. `W` is the state of the
-- world outside the process.
mod Types
mod Helpers
pub mod CoreData
pub use Types.*
unfoldable pub use Helpers.{coerce_type}
unfoldable pub use CoreData.{complete, set_retry_data, mark_as_pushed, push_to_core_data}
