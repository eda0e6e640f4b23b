-- ===== src/Bridge.antt =====
-- crates/bridge/src: the virtual HID devices. `Generic` is the TCP and Unix bridge, `Uhid` the device and
-- its thread, `Relay` the messages that the bridges pass on, `Lifecycle` what starting and stopping does,
-- `Reconnect` the relays of the Unix transports, `Trezor` is trezor.rs.
pub mod Generic
pub mod Uhid
pub mod Relay
pub mod Lifecycle
pub mod Trezor
pub mod Tcp
pub mod Device
pub mod Reconnect
use hwwctl.Prelude.{Text, codes}

pub data Direction : Type 0 where
  host_to_device device_to_host : Direction

unfoldable pub direction_text : Direction → Text
direction_text host_to_device = codes ">>"
direction_text device_to_host = codes "<<"
