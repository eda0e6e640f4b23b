-- ===== src/Runs.antt =====
-- The machine on which the children run the emulators, the bridges, the daemon and the bundler.
mod Calls
mod Devices
mod Manifests
mod Bundles
mod Daemons
mod Registered
mod Screens
mod Requests
mod Starts
use hwwctl.Prelude.{
  ℕ, zero, suc, ◌+◌, ◌-◌, ◌*◌, ◌%◌, ◌≤◌, ◌<◌, ◌≡◌, ◌≢◌, ◌↔◌, ◌⊎◌, refl, List, [], ◌∷◌, ◌++◌, map,
  length, drop, Text, codes, text_eq, strip_prefix, Bool, true, false, Option, none, some, arith,
}
use hwwctl.Control.Wallet.{bitbox02}
use hwwctl.Control.Types as Types
use hwwctl.Control.Framing.{Codec, Sink, Source, eof, ok, write_frame, write_all, read_frame}
use hwwctl.Protocol.Varint.{u64_mod}
use hwwctl.Emulators as Emulators
use hwwctl.Emulators.World.{Host, World, Network, remove_child, stop_child, add_child}
use hwwctl.Emulators.World as OS
use hwwctl.Emulators.Generic as Emulator
use hwwctl.Emulators.Generic.{GenericEmulator}
use hwwctl.Emulators.Lifecycle.{stop-start, start-start_failed}
use hwwctl.Emulators.Ready.{Reached, Missed, wait_for_ready_lem}
use hwwctl.Emulators.Ring.{push_lines, push_line_last}
use hwwctl.Emulators.Config.{bitbox02_hid}
use hwwctl.Emulators.Descriptor.{Declares, for_wallet-Declares}
use hwwctl.Bridge.{host_to_device, device_to_host}
use hwwctl.Bridge.Generic as Bridge
use hwwctl.Bridge.Generic.{Peer, GenericBridgeConfig}
use hwwctl.Bridge.Lifecycle.{drop_senders-start, start-start_refused}
use hwwctl.Bridge.Uhid.{uhid_thread, generic_ends, trezor_ends, idle, fresh, uhid_thread-idle}
use hwwctl.Bundler.Asset.{parse_asset_name, asset_name}
use hwwctl.Bundler.Asset.Laws.{parse_asset_name_lem}
use hwwctl.Daemon.Instance.{Instance, gather, collect_logs, no_stats, log_buffer_cap}
use hwwctl.Daemon.Instance.Logs.{latest, IsSorted, at_time, collect_logs_lem}
use hwwctl.Daemon.Drain.{log_drain, message_of, log_of, reports_of, bytes_of, Report, log_drain_lem}
use hwwctl.Daemon.Spawn as Spawn
use hwwctl.Daemon.Spawn.{SpawnEnv, Instances, get, new_id}
use hwwctl.Daemon.Spawn.Stages.{Same, IsClean, IsRegistered}
use hwwctl.Daemon.Spawn.Laws.{start-IsClean}
use hwwctl.Daemon.Registry.{stop_instance, shutdown_all}
use hwwctl.Daemon.Registry.Laws.{stop_instance_lem, shutdown_all-empty, stop_instance-start}
use hwwctl.Daemon.Hidraw.{
  scan_entries, uevent_has_uniq, any_line, lines_loop, line_has_uniq, trim, trim_start,
  reverse_onto,
}
use hwwctl.Daemon.Server as Server
use hwwctl.Format.{is_whitespace}
use hwwctl.Daemon.Server.{Daemon, dispatch}
use hwwctl.Daemon.Server.Laws.{handle_connection-dispatch}

abbrev pub network : Network
network = record {
  bind_udp = true;
  send_empty = λ host port. true;
  recv = OS.UdpAnswer.timed_out;
  connect_tcp = λ host port. true;
  socket_exists = λ path. true;
  connect_stream = λ path. true;
  connect_dgram = λ path. true;
}

-- A machine on which everything works, one process at a time.
abbrev pub host : Host
host = record {
  path_exists = λ path. true;
  is_dir = λ path. false;
  create_dir_all = λ path. none;
  ld_library_path = none;
  spawn = λ command. OS.Spawned.child 7;
  network = λ k. network;
  start_ms = 0;
  now_ms = λ k. k * 300;
  exits_on_term = λ pid. true;
}

-- The same, but nothing can be spawned.
abbrev pub bad_host : Host
bad_host = record host { spawn = λ command. OS.Spawned.failed (codes "no such file") }

abbrev pub world : World
world = record { children = []; devices = []; signals = [] }

abbrev pub down : GenericEmulator
down = record {
  wallet_type = Emulators.WalletType.specter;
  binary_path = codes "/bin/sim";
  working_dir = codes "/tmp";
  profile_dir = codes "/tmp/p";
  transport = Emulators.TransportConfig.tcp (codes "127.0.0.1") 8789;
  env_vars = [];
  args = [];
  startup_timeout = 15000;
  gentle_probe = false;
  skip_probe_delay = none;
  child = none;
  status = Emulators.EmulatorStatus.stopped;
  output_lines = codes "ready" ∷ [];
}

abbrev pub peer : Peer
peer = record { create_device = λ c. none; connect = λ host port. none }

abbrev pub env : SpawnEnv
env = record {
  host = host;
  peer = peer;
  bundle_manager = none;
  emulator_binary_path = some (codes "/b/sim");
  parent = λ path. some (codes "/b");
  random_suffix = codes "00a1b2";
  pick_free_tcp_port = Types.Result.ok 4000;
  create_dir_all = λ path. none;
  seed = λ port. Types.Result.ok (codes "4c00739d");
  find_hidraw = λ serial. some (codes "/dev/hidraw3");
  now = 5;
}

abbrev pub request : Types.StartRequest
request = record { wallet = bitbox02; wait_ready = true; timeout_secs = none; mnemonic = none }
