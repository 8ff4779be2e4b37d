-- ===== src/Runtime.antt =====
-- internal/runtime: the functions pipeline, and Store and Forward.
pub mod Durable
pub mod Examples
mod Types
pub mod Pipeline
pub mod Message
mod Retry
pub use Types.*
pub use Pipeline.*
pub use Message.*
pub use Retry.*
unfoldable pub use Pipeline.{
  calculate_pipeline_hash, store_for_later_retry, execute_pipeline, initialize, set_transforms,
}
unfoldable pub use Message.{process_message, prepare, run_prepared}
unfoldable pub use Retry.{
  retry_export_function, process_retry_items, retry_stored_data, loop_settings,
}
