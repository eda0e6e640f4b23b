-- ===== src/Control.antt =====
-- crates/control/src/lib.rs: the daemon's IPC protocol. Serialisation by serde is not modelled but for
-- the framing (`Framing`), the log sources (`Source`) and the hexadecimal numbers (`Hex`).
pub mod Wallet
pub mod Mnemonic
pub mod Types
pub mod Source
pub mod Framing
pub mod Hex
pub mod Socket
mod Runs
