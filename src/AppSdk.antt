-- ===== src/AppSdk.antt =====
-- appsdk: the SDK as an application uses it.
mod Examples
pub mod Configurable
pub mod Pipeline
pub mod Lifecycle
pub mod Run
pub mod Registry
pub mod Bootstrap
pub mod Clients
pub mod CommandLine
pub mod Settings
pub mod Startup
pub mod Version
