-- ===== src/Protocol.antt =====
-- crates/protocol/src: the Trezor wire protocol. `Varint` and `Field` are the protobuf helpers of
-- trezor_debug.rs, `Frame` its packet framing, `Client` its calls, `Header` the decoder of trezor.rs.
pub mod Varint
pub mod Frame
pub mod Header
pub mod Screen
pub mod Field
pub mod Client
mod Runs
