-- ===== src/Configuration.antt =====
-- internal/config and internal/common/loader.go: where the configuration comes from.
pub mod Environment
pub mod Loader
