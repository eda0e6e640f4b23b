-- ===== src/Daemon.antt =====
-- crates/hwwctl/src/daemon: the daemon. `Instance` is what it keeps of a running emulator, `Drain` the
-- task that records what the bridge intercepts, `Spawn` the start of an instance, `Registry` the actor
-- that owns all instances, `Server` the requests, `Hidraw` the search for the device node.
pub mod Instance
pub mod Drain
pub mod Spawn
pub mod Registry
pub mod Server
pub mod Serve
pub mod Hidraw
