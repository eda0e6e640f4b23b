-- ===== src/Bundler.antt =====
-- crates/bundler/src: the emulator bundles. `Asset` is the parsing of asset names.
pub mod Asset
pub mod Calendar
pub mod Download
pub mod Files
pub mod Manager
pub mod Status
pub mod Storage
