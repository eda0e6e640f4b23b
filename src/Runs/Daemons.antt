-- ===== src/Runs/Daemons.antt =====
-- Runs of the daemon as a whole at concrete inputs.
use hwwctl.Prelude.{ℕ, ◌≡◌, refl, List, [], ◌∷◌, Text, codes, true, false, none, some}
use hwwctl.Control.Types as Types
use hwwctl.Emulators.World.{World, add_child}
use hwwctl.Emulators.World as OS
use hwwctl.Emulators.Generic as Emulator
use hwwctl.Bridge.Generic as Bridge
use hwwctl.Daemon.Spawn as Spawn
use hwwctl.Daemon.Spawn.{Instances, get}
use hwwctl.Daemon.Spawn.Laws.{words_asked}
use hwwctl.Daemon.Spawn.Seed as Seed
use hwwctl.Daemon.Spawn.Seed.{seed_bitbox02, start-seeded}
use hwwctl.Daemon.Registry as Registry
use hwwctl.Daemon.Registry.{Command, shutdown_all, run_loop}
use hwwctl.Daemon.Registry.Owned.{children_with, devices_with}
use hwwctl.Daemon.Registry.Invariant.{Owned, run_loop-Owned, nothing-Owned, run_loop-shutdown_all}
use hwwctl.Daemon.Serve as Serve
use hwwctl.Daemon.Serve.{Startup, Event}
use hwwctl.Daemon.Serve.Laws.{IsSound, stays, run-IsSound}
use hwwctl.Daemon.Serve.Exit.{up, run-shutdown-accepted, run-shutdown-select, run-shutdown-start}
use hwwctl.Runs.{host, world, env, request}

-- Two starts that draw the same suffix, and a stop of another instance.
abbrev commands : List Command
commands =
    Command.start env request
    ∷ Command.start env request
    ∷ Command.stop (codes "bitbox02-ffffff")
    ∷ []

run_loop-Owned_example : let (m', w') = (run_loop host commands [] world).1 in Owned world m' w'
run_loop-Owned_example = run_loop-Owned world host commands [] world (nothing-Owned world)

run_loop-shutdown_all_example :
    let (m', w') = (run_loop host commands [] world).1 in
    let (m'', w'') = shutdown_all host m' w' in
    (m'' ≡ [])
    × ((p : ℕ) → children_with p w''.children ≡ children_with p world.children)
    × ((s : Text) → devices_with s w''.devices ≡ devices_with s world.devices)
run_loop-shutdown_all_example = run_loop-shutdown_all host commands world

-- A stale socket file lies there, and can be removed.
abbrev started_up : Startup
started_up = record {
  init_logging = none;
  socket_exists = true;
  remove_file = none;
  bind = none;
  cleanup = none;
}

abbrev schedule : List Event
schedule =
    Event.waits
    ∷ Event.accepted
    ∷ Event.serves (Command.start env request)
    ∷ Event.waits
    ∷ Event.serves Command.shutdown
    ∷ Event.tells true
    ∷ Event.woken
    ∷ []

run-IsSound_example :
    IsSound
      (stays started_up)
      world
      (Serve.run started_up host schedule (Serve.prepare started_up world))
run-IsSound_example = run-IsSound started_up host schedule world

abbrev one : Instances
one = (Spawn.start env request [] world).1.0

run-shutdown-accepted_example :
    Serve.run started_up host
      (Event.accepted ∷ Event.serves Command.shutdown ∷ Event.tells true ∷ Event.waits ∷ [])
      (up true 0 one world)
    ≡ up true 0 [] (shutdown_all host one world).1
run-shutdown-accepted_example = run-shutdown-accepted started_up host 0 one world

run-shutdown-select_example :
    Serve.run started_up host
      (Event.serves Command.shutdown ∷ Event.tells true ∷ Event.accepted ∷ Event.waits ∷ [])
      (up true 0 one world)
    ≡ up true 0 [] (shutdown_all host one world).1
run-shutdown-select_example = run-shutdown-select started_up host 0 one world

works :
    (i : Types.InstanceSummary) × ((Spawn.start env request [] (shutdown_all host [] world).1).0
      ≡ Types.Result.ok i)
unfolding shutdown_all Registry.stop_all Spawn.start Spawn.start_wallet Spawn.start_bitbox02
    Spawn.find_bundle Spawn.allocate Spawn.launch Spawn.check_status Spawn.seed_emulator
    Spawn.wrong_seed Spawn.attach_bridge Spawn.build_emulator Spawn.bridge_config Spawn.instance_of
    Emulator.new Emulator.with_arg Emulator.with_env Emulator.with_startup_timeout
    Emulator.with_skip_probe_delay Emulator.start Emulator.spawn_child Emulator.settle add_child
    OS.drop_child Bridge.new Bridge.new_config Bridge.with_serial Bridge.start
    Bridge.connect_transport
works = (_, refl)

run-shutdown-start_example :
    let s =
      Serve.run started_up host
        (Event.serves Command.shutdown
          ∷ Event.serves (Command.start env request)
          ∷ Event.tells true
          ∷ Event.woken
          ∷ [])
        (up true 0 [] world) in
    (pid : ℕ) × (s.exit_code ≡ some 0)
    × (s.world.children ≡ pid ∷ (shutdown_all host [] world).1.children)
run-shutdown-start_example =
    run-shutdown-start started_up host env request works.0 0 [] world works.1

-- The simulator restores its built-in seed, and no words were asked for.
abbrev bitbox : Seed.BitBox
bitbox = record {
  panics = none;
  runtime = none;
  from_simulator = λ endpoint. none;
  unlock_and_pair = none;
  wait_confirm = none;
  restore_from_mnemonic = none;
  device_info = Types.Result.ok true;
  root_fingerprint = Types.Result.ok (codes "4c00739d");
}

abbrev seeding : Spawn.SpawnEnv
seeding = record env { seed = seed_bitbox02 bitbox }

seeded :
    (i : Types.InstanceSummary) × ((Spawn.start seeding request [] world).0 ≡ Types.Result.ok i)
unfolding Spawn.start Spawn.start_wallet Spawn.start_bitbox02 Spawn.find_bundle Spawn.allocate
    Spawn.launch Spawn.check_status Spawn.seed_emulator Spawn.wrong_seed Spawn.attach_bridge
    Spawn.build_emulator Spawn.bridge_config Spawn.instance_of seed_bitbox02 Seed.then_call
    Seed.if_initialized Seed.fingerprint_of Emulator.new Emulator.with_arg Emulator.with_env
    Emulator.with_startup_timeout Emulator.with_skip_probe_delay Emulator.start Emulator.spawn_child
    Emulator.settle add_child OS.drop_child Bridge.new Bridge.new_config Bridge.with_serial
    Bridge.start Bridge.connect_transport
seeded = (_, refl)

start-seeded_example :
    (fp : Text) × (bitbox.restore_from_mnemonic ≡ none)
    × (bitbox.device_info ≡ Types.Result.ok true)
    × (bitbox.root_fingerprint ≡ Types.Result.ok fp)
    × (Spawn.wrong_seed (words_asked request) fp ≡ false)
start-seeded_example = start-seeded bitbox seeding request seeded.0 [] world refl seeded.1
