-- ===== src/Runs/Registered.antt =====
-- Runs of the daemon's instances at concrete inputs.
use hwwctl.Prelude.{
  ℕ, ◌-◌, ◌%◌, ◌≡◌, refl, List, [], ◌∷◌, map, drop, codes, true, none, some, arith,
}
use hwwctl.Control.Wallet.{bitbox02}
use hwwctl.Control.Types as Types
use hwwctl.Protocol.Varint.{u64_mod}
use hwwctl.Emulators.World.{Host, World, Network, remove_child, stop_child, add_child}
use hwwctl.Emulators.World as OS
use hwwctl.Emulators.Generic as Emulator
use hwwctl.Emulators.Generic.{GenericEmulator}
use hwwctl.Bridge.{host_to_device, device_to_host}
use hwwctl.Bridge.Generic as Bridge
use hwwctl.Bridge.Generic.{Peer, GenericBridgeConfig}
use hwwctl.Daemon.Instance.{Instance, gather, collect_logs, no_stats, log_buffer_cap}
use hwwctl.Daemon.Instance.Logs.{latest, IsSorted, at_time, collect_logs_lem}
use hwwctl.Daemon.Drain.{log_drain, message_of, log_of, reports_of, bytes_of, Report, log_drain_lem}
use hwwctl.Daemon.Spawn as Spawn
use hwwctl.Daemon.Spawn.{SpawnEnv, Instances, get, new_id}
use hwwctl.Daemon.Spawn.Stages.{Same, IsClean, IsRegistered}
use hwwctl.Daemon.Spawn.Laws.{start-IsClean}
use hwwctl.Daemon.Registry.{stop_instance}
use hwwctl.Daemon.Registry.Laws.{stop_instance-start}
use hwwctl.Runs.{host, world, down, env, request}

start-IsClean_example : IsClean [] world (Spawn.start env request [] world)
start-IsClean_example = start-IsClean env request [] world (unfold get in refl)

registered : IsRegistered [] world (Spawn.start env request [] world)
unfolding Spawn.start Spawn.start_wallet Spawn.start_bitbox02 Spawn.find_bundle Spawn.allocate
    Spawn.launch Spawn.check_status Spawn.seed_emulator Spawn.wrong_seed Spawn.attach_bridge
    Spawn.build_emulator Spawn.bridge_config Spawn.instance_of Spawn.drop_replaced Spawn.insert get
    Emulator.new Emulator.with_arg Emulator.with_env Emulator.with_startup_timeout
    Emulator.with_skip_probe_delay Emulator.start Emulator.spawn_child Emulator.settle add_child
    OS.drop_child Bridge.new Bridge.new_config Bridge.with_serial Bridge.start
    Bridge.connect_transport
registered = (_, 7, refl, refl, refl, refl, refl, _, refl, refl, refl)

stop_instance-start_example :
    let (r, (m', w')) = Spawn.start env request [] world in
    (i : Instance) × (get i.id m' ≡ some i) × Same world (stop_instance host i.id m' w').1.1
stop_instance-start_example = stop_instance-start host env request [] world registered

abbrev one : Instances
one = (Spawn.start env request [] world).1.0

abbrev session : List Report
session = (1, (host_to_device, 0x3f ∷ 0x23 ∷ [])) ∷ (2, (device_to_host, 0x3f ∷ [])) ∷ []

log_drain_lem_example :
    let (buf, stats) = log_drain ([], no_stats) (map message_of session) in
    (buf ≡ drop (2 - log_buffer_cap) (map log_of session))
    × (stats.host_to_device_reports ≡ reports_of host_to_device session % u64_mod)
    × (stats.host_to_device_bytes ≡ bytes_of host_to_device session % u64_mod)
    × (stats.device_to_host_reports ≡ reports_of device_to_host session % u64_mod)
    × (stats.device_to_host_bytes ≡ bytes_of device_to_host session % u64_mod)
log_drain_lem_example =
    log_drain_lem session ((omega arith, (omega arith, tt)), ((omega arith, tt), tt))

-- An instance with two lines of output and the session in its log.
abbrev logged : Instance
logged = record {
  id = codes "i";
  wallet = bitbox02;
  state = Types.InstanceState.running;
  vid = 0;
  pid = 0;
  serial = [];
  hidraw = none;
  transport = [];
  error = none;
  emulator = down;
  bridge = none;
  log_drain = true;
  started_at = 0;
  bridge_log = map log_of session;
  bridge_stats = no_stats;
}

collect_logs_lem_example :
    (all : List Types.LogEntry) × (collect_logs 9 Types.LogSource.all (some 2) logged
      ≡ latest (some 2) all)
    × IsSorted all
    × ((t : ℕ) → at_time t all ≡ at_time t (gather 9 Types.LogSource.all logged))
collect_logs_lem_example = collect_logs_lem 9 Types.LogSource.all (some 2) logged
