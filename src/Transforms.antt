-- ===== src/Transforms.antt =====
-- pkg/transforms: the built-in pipeline functions.
mod Examples
pub mod Filter
pub mod Batch
pub mod Http
pub mod Mqtt
pub mod Encryption
pub mod Compression
pub mod JsonLogic
pub mod Conversion
pub mod Output
