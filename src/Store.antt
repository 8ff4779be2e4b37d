-- ===== src/Store.antt =====
-- internal/store: the stored objects of Store and Forward, and the interface of the databases
-- that keep them.
pub mod Contracts
mod Examples
pub mod Redis
pub mod Mongo
pub mod Factory
pub use Contracts.{StoredObject, StoreClient, new_stored_object}
unfoldable pub use Contracts.{validate_contract}
