-- ===== src/Lib.antt =====
-- The control plane `hwwctl` for hardware wallet emulators, modelled and verified. The daemon
-- (crates/hwwctl/src/daemon) takes requests on a Unix socket, one length-prefixed JSON message each way
-- (crates/control), and hands them to one actor that owns all instances. An instance is an emulator
-- process (crates/emulators) with a bridge to a virtual HID device (crates/bridge), found in a bundle
-- (crates/bundler). The Trezor wire protocol is crates/protocol.
--
-- Prelude, Bits, Format, Utf8: what the parts share: lists and tests on numbers, bit masks, decimal and
--   hexadecimal text, words, UTF-8 (`std`'s check in `from_utf8`).
-- Poll: the loops that attempt, look at the clock and pause; each caller gives the rounds that fit before
--   its deadline and one more, which the theorem on the loop shows to be enough when the clock moves on.
-- Control: crates/control/src/lib.rs. `Wallet` is `Wallet` with `from_str`, `Mnemonic` is
--   `normalize_mnemonic`, `Types` the messages, `Framing` is `write_frame` and `read_frame` over a stream
--   that is cut off anywhere, `Source` is the parser of log sources,
--   `Hex` the serde helper of USB ids, `Socket` is `default_socket_path`.
-- Protocol: crates/protocol/src. `Varint`, `Frame` and `Field` are trezor_debug.rs: the varints, the
--   packets of `frame_message` and its receivers, the protobuf readers; `Client` the calls of
--   `TrezorDebugLink` and `TrezorWireClient` over a socket whose inbox ends where its timeouts run out;
--   `Screen` is `parse_layout_tokens`, compared with what `Shown` says; `Header` is trezor.rs. `usize` and
--   `u64` are 64 bits wide and wrap, as in a release build. The readers run on fuel: one more than the
--   payload's length is enough, but for the payloads on which the code does not return either.
-- Emulators: crates/emulators/src. `World` is what the system keeps and answers, `Generic` is
--   `GenericEmulator`, `Trezor` is `TrezorEmulator`, `Config` the table of wallets; `Lifecycle`, `Ready`,
--   `Ring` and `Descriptor` are about them.
-- Bridge: crates/bridge/src. `Generic` is the start and stop of `GenericBridge`, `Uhid` the threads that
--   own the device, `Relay` the messages and payloads, `Tcp` and `Reconnect` the relays of the
--   transports, `Device` is the rest of uhid.rs, `Trezor` is `TrezorBridge` with its two tasks, `Lifecycle` is about the devices.
-- Daemon: crates/hwwctl/src/daemon. `Instance`, `Spawn`, `Registry`, `Hidraw` are the files of these names,
--   `Drain` the task in spawn.rs that fills an instance's log, `Server` is `dispatch` and
--   `handle_connection` of mod.rs with the calls of the actor, `Serve` its `run`: events of the daemon's tasks in any order.
--   `Registry/Invariant` is about whose the processes and devices are, `Spawn/Seed` is the seeding.
-- Cli: crates/hwwctl/src/client.rs as `build_request` and `run`, auto_spawn.rs as `AutoSpawn`, output.rs as `Output`; `Session`
--   joins a client to the daemon's `handle_connection`. The wait for a daemon has 5 s in rounds of 50 ms: 101
--   rounds are enough where each pause moves the clock on.
-- Bundler: crates/bundler/src. `Files` is the file system under the bundles, `Status` the statuses and
--   errors, `Storage` is storage.rs, `Download` and `Asset` are download.rs, `Manager` is `BundleManager`
--   with its helpers, `Calendar` is `days_to_ymd`, which is compared with the calendar's rules. The system
--   may refuse any call; what GitHub answers, what an archive holds and the JSON are arguments.
-- Runs, Control/Runs, Protocol/Runs: the code at concrete inputs.
--
-- State is passed on explicitly, an operation returns the state it leaves on every branch; what the
-- kernel, the network, the clock, serde and bitbox-api answer is an argument. Not modelled are logging,
-- argument parsing, signal handlers, and the tasks that read from a Unix socket beyond their connection.
-- The disk under the bundles has directories and files, no links; what the unpacking of a link makes of
-- it is an argument. `Serve` has no event for a thread of a bridge that ends by itself, and so gives up its
-- device: that is in `Bridge/Uhid`.
pub mod Prelude
pub mod Bits
pub mod Format
pub mod Utf8
pub mod Protocol
pub mod Control
pub mod Poll
pub mod Emulators
pub mod Bridge
pub mod Daemon
pub mod Cli
pub mod Bundler
mod Runs
