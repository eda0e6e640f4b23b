-- ===== src/Daemon/Spawn.antt =====
-- crates/hwwctl/src/daemon/spawn.rs: how an instance is started. What the system and the libraries
-- answer is the `SpawnEnv`; pauses and log lines leave no trace.
pub mod Stages
pub mod Laws
pub mod Seed
use hwwctl.Prelude.{
  ℕ, ◌*◌, List, [], ◌∷◌, ◌++◌, Text, codes, text_eq, Bool, true, false, not, ◌&&◌, Option, none,
  some, if◌then◌else◌,
}
use hwwctl.Format.{decimal}
use hwwctl.Control.Wallet.{Wallet, bitbox02, as_str, to_ascii_lowercase}
use hwwctl.Control.Mnemonic.{normalize_mnemonic}
use hwwctl.Control.Mnemonic as Mnemonic
use hwwctl.Control.Types.{
  InstanceId, InstanceSummary, StartRequest, Error, ErrorCode, Message, text, bad_mnemonic,
  bad_request, wallet_unsupported, bundle_missing, spawn_failed, startup_timeout, bridge_failed,
  resource_exhausted, internal, Result, ok, err,
}
use hwwctl.Control.Types as Types
use hwwctl.Emulators as Emulators
use hwwctl.Emulators.{EmulatorStatus, running, error, status_text}
use hwwctl.Emulators.World.{Host, World, drop_child}
use hwwctl.Emulators.Config.{bitbox02_config, bitbox02_hid}
use hwwctl.Emulators.Generic as Emulator
use hwwctl.Emulators.Generic.{
  GenericEmulator, with_arg, with_env, with_startup_timeout, with_skip_probe_delay,
}
use hwwctl.Bridge.Generic as Bridge
use hwwctl.Bridge.Generic.{
  GenericBridge, GenericBridgeConfig, Peer, new_config, with_serial, drop_senders,
}
use hwwctl.Daemon.Instance.{Instance, summary, no_stats}

abbrev simulator_mnemonic_env : Text
simulator_mnemonic_env = codes "BITBOX02_SIMULATOR_MNEMONIC"

abbrev pub default_mnemonic : Text
default_mnemonic =
    codes
      "boring mistake dish oyster truth pigeon viable emerge sort crash wire portion cannon couple "
    ++ codes "enact box walk height pull today solid off enable tide"

abbrev pub default_root_fingerprint : Text
default_root_fingerprint = codes "4c00739d"

abbrev pub Instances : Type 0
Instances = List (InstanceId × Instance)

unfoldable pub get : InstanceId → Instances → Option Instance
get id [] = none
get id ((k, i) ∷ m) = let rest = get id m in if text_eq k id then some i else rest

-- `HashMap::insert`
unfoldable pub insert : InstanceId → Instance → Instances → Instances
insert id inst [] = (id, inst) ∷ []
insert id inst ((k, i) ∷ m) =
    let rest = insert id inst m in if text_eq k id then (id, inst) ∷ m else (k, i) ∷ rest

pub record SpawnEnv : Type 0 where
  pub host : Host
  pub peer : Peer
  pub bundle_manager : Option Text
  pub emulator_binary_path : Option Text
  pub parent : Text → Option Text
  pub random_suffix : Text
  pub pick_free_tcp_port : Result Text ℕ
  pub create_dir_all : Text → Option Text
  pub seed : ℕ → Result Text Text
  pub find_hidraw : Text → Option Text
  pub now : ℕ

abbrev pub Started : Type 0
Started = Result Error InstanceSummary × (Instances × World)

abbrev refuse : ErrorCode → Text → Instances → World → Started
refuse code msg instances w = (err (record { code = code; message = text msg }), (instances, w))

-- What is settled before anything is started.
pub record Plan : Type 0 where
  pub id : InstanceId
  pub serial : Text
  pub port : ℕ
  pub mnemonic : Option Text
  pub wait_ready : Bool

abbrev pub new_id : SpawnEnv → InstanceId
new_id env = codes "bitbox02-" ++ env.random_suffix

abbrev endpoint : ℕ → Emulators.TransportConfig
endpoint port = Emulators.TransportConfig.tcp (codes "127.0.0.1") port

abbrev or_else : ℕ → Option ℕ → ℕ
or_else d none = d
or_else d (some n) = n

abbrev seeded_by : Option Text → GenericEmulator → GenericEmulator
seeded_by none e = e
seeded_by (some words) e = with_env simulator_mnemonic_env words e

unfoldable pub build_emulator : Text → Text → Text → Option ℕ → Plan → GenericEmulator
build_emulator bin_path bundle_dir profile_dir timeout_secs p =
    let base =
      Emulator.new Emulators.WalletType.bitbox02 bin_path bundle_dir profile_dir
        (endpoint p.port) in
    let timeout = or_else bitbox02_config.startup_timeout_secs timeout_secs * 1000 in
    seeded_by p.mnemonic (
      with_skip_probe_delay 1500
        (with_startup_timeout timeout (with_arg (decimal p.port) (with_arg (codes "--port") base))))

unfoldable pub bridge_config : Plan → GenericBridgeConfig
bridge_config p = with_serial p.serial (
    new_config bitbox02_hid.vid bitbox02_hid.pid bitbox02_config.display_name
      bitbox02_hid.report_descriptor (Bridge.BridgeTransport.tcp (codes "127.0.0.1") p.port))

unfoldable pub instance_of : SpawnEnv → Plan → GenericEmulator → GenericBridge → Instance
instance_of env p emu bridge = record {
  id = p.id;
  wallet = bitbox02;
  state = Types.InstanceState.running;
  vid = bitbox02_hid.vid;
  pid = bitbox02_hid.pid;
  serial = p.serial;
  hidraw = if p.wait_ready then env.find_hidraw p.serial else none;
  transport = codes "tcp 127.0.0.1:" ++ decimal p.port;
  error = none;
  emulator = emu;
  bridge = some bridge;
  log_drain = true;
  started_at = env.now;
  bridge_log = [];
  bridge_stats = no_stats;
}

-- Every failure from here on stops the emulator.
unfoldable pub give_up : SpawnEnv → GenericEmulator → ErrorCode → Text → Instances → World → Started
give_up env emu code msg instances w = refuse code msg instances (Emulator.stop env.host emu w).1

-- An instance whose id is taken again is dropped: its process is killed, its device goes.
unfoldable pub drop_replaced : Option Instance → World → World
drop_replaced none w = w
drop_replaced (some i) w =
    drop_child i.emulator.child (elim i.bridge [ none ↦ w | some b ↦ drop_senders b w ])

unfoldable pub attach_bridge : SpawnEnv → Plan → GenericEmulator → Instances → World → Started
attach_bridge env p emu instances w =
    let (failed, (bridge, w')) = Bridge.start env.peer (Bridge.new (bridge_config p)) w in
    elim failed [
      | some msg ↦
          give_up env emu bridge_failed
            (codes "UHID bridge for BitBox02 failed to start: "
              ++ (msg
                  ++ (codes
                        ". Common cause: /dev/uhid is not writable (run `just setup-udev` once, or check "
                      ++ codes "group membership).")))
            instances (drop_senders bridge w')
      | none ↦
          let inst = instance_of env p emu bridge in
          (ok (summary inst), (insert p.id inst instances, drop_replaced (get p.id instances) w'))
    ]

-- The bundle ignored the words: it restored its own seed although others were asked for.
unfoldable pub wrong_seed : Option Text → Text → Bool
wrong_seed none fingerprint = false
wrong_seed (some m) fingerprint =
    not (text_eq m default_mnemonic)
    && text_eq (to_ascii_lowercase fingerprint) (to_ascii_lowercase default_root_fingerprint)

unfoldable pub seed_emulator : SpawnEnv → Plan → GenericEmulator → Instances → World → Started
seed_emulator env p emu instances w = elim (env.seed p.port) [
  | err msg ↦
      give_up env emu internal (codes "BitBox02 simulator seeding failed: " ++ msg) instances w
  | ok fingerprint ↦
      if wrong_seed p.mnemonic fingerprint
      then give_up env emu bundle_missing
          (codes
              "the installed BitBox02 simulator bundle ignored --mnemonic and restored its built-in "
            ++ (codes
                  "seed. It predates custom-seed support; install the bundle from hwwctl 0.1.4 or "
                ++ codes "later."))
          instances w
      else attach_bridge env p emu instances w
]

-- The match on the emulator's status.
unfoldable pub check_status :
    EmulatorStatus → SpawnEnv → Plan → GenericEmulator → Instances → World → Started
check_status running env p emu instances w = seed_emulator env p emu instances w
check_status (error msg) env p emu instances w =
    give_up env emu startup_timeout (codes "BitBox02 simulator never became reachable: " ++ msg)
      instances w
check_status other env p emu instances w =
    give_up env emu internal
      (codes "BitBox02 simulator in unexpected state after start: " ++ status_text other) instances
      w

-- An emulator that fails to start is dropped.
unfoldable pub launch : SpawnEnv → Plan → GenericEmulator → Instances → World → Started
launch env p emu instances w =
    let (failed, (emu', w')) = Emulator.start env.host emu w in
    elim failed [
      | some msg ↦
          refuse spawn_failed (codes "BitBox02 simulator failed to start: " ++ msg) instances
            (drop_child emu'.child w')
      | none ↦ check_status emu'.status env p emu' instances w'
    ]

unfoldable pub allocate : SpawnEnv → StartRequest → Option Text → Text → Instances → World → Started
allocate env req mnemonic bin_path instances w =
    let id = new_id env in
    let profile_dir = codes "/tmp/hwwctl-" ++ id in
    elim env.pick_free_tcp_port [
      | err msg ↦
          refuse resource_exhausted
            (codes "could not find a free TCP port for the simulator: " ++ msg) instances w
      | ok port ↦ (elim (env.create_dir_all profile_dir) [
        | some msg ↦
            refuse internal
              (codes "could not create profile dir " ++ (profile_dir ++ (codes ": " ++ msg)))
              instances w
        | none ↦
            let bundle_dir : Text = elim (env.parent bin_path) [ some d ↦ d | none ↦ codes "." ] in
            let p : Plan = record {
              id = id;
              serial = codes "hwwctl-bb02-" ++ env.random_suffix;
              port = port;
              mnemonic = mnemonic;
              wait_ready = req.wait_ready;
            } in
            launch env p (build_emulator bin_path bundle_dir profile_dir req.timeout_secs p)
              instances w
      ])
    ]

unfoldable pub find_bundle : SpawnEnv → StartRequest → Option Text → Instances → World → Started
find_bundle env req mnemonic instances w = elim env.bundle_manager [
  | some msg ↦ refuse internal msg instances w
  | none ↦ (elim env.emulator_binary_path [
    | none ↦
        refuse bundle_missing
          (codes
              "BitBox02 simulator bundle is not installed. Run `just bundle-install bitbox02` (or pull a "
            ++ codes "release from https://github.com/n1rna/hwwctl/releases).")
          instances w
    | some bin_path ↦
        if not (env.host.path_exists bin_path)
        then refuse bundle_missing
            (codes "BitBox02 simulator binary not found at "
              ++ (bin_path
                  ++ (codes " — bundle manifest references a missing file, reinstall the bundle.")))
            instances w
        else allocate env req mnemonic bin_path instances w
  ])
]

unfoldable pub start_bitbox02 : SpawnEnv → StartRequest → Instances → World → Started
start_bitbox02 env req instances w = elim req.mnemonic [
  | none ↦ find_bundle env req none instances w
  | some words ↦ (elim (normalize_mnemonic words) [
    | Mnemonic.Normalized.err e ↦
        (err (record { code = bad_request; message = bad_mnemonic e }), (instances, w))
    | Mnemonic.Normalized.ok mnemonic ↦ find_bundle env req (some mnemonic) instances w
  ])
]

-- The match on the wallet.
unfoldable pub start_wallet : Wallet → SpawnEnv → StartRequest → Instances → World → Started
start_wallet bitbox02 env req instances w = start_bitbox02 env req instances w
start_wallet wallet env req instances w =
    refuse wallet_unsupported
      (as_str wallet
        ++ codes " is not wired into the daemon yet — currently only `bitbox02` is supported")
      instances w

-- On Linux.
unfoldable pub start : SpawnEnv → StartRequest → Instances → World → Started
start env req instances w = start_wallet req.wallet env req instances w
