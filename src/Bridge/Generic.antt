-- ===== src/Bridge/Generic.antt =====
-- crates/bridge/src/generic.rs: `GenericBridge`, its configuration, `start` and `stop`. The UHID thread
-- ends, and the device with it, when its shutdown sender is dropped.
use hwwctl.Prelude.{
  ℕ, zero, suc, ◌+◌, ◌≡◌, List, [], ◌∷◌, ◌++◌, Text, codes, text_eq, text_eq_refl, Bool, true,
  false, Option, none, some, if◌then◌else◌, arith,
}
use hwwctl.Format.{decimal}
use hwwctl.Emulators.World.{World}

pub data BridgeTransport : Type 0 where
  tcp : Text → ℕ → BridgeTransport
  unix unix_dgram : Text → BridgeTransport

pub record GenericBridgeConfig : Type 0 where
  pub vid : ℕ
  pub pid : ℕ
  pub name : Text
  pub serial : Text
  pub report_descriptor : List ℕ
  pub report_size : ℕ
  pub transport : BridgeTransport

unfoldable pub new_config : ℕ → ℕ → Text → List ℕ → BridgeTransport → GenericBridgeConfig
new_config vid pid name report_descriptor transport = record {
  vid = vid;
  pid = pid;
  name = name;
  serial = [];
  report_descriptor = report_descriptor;
  report_size = 64;
  transport = transport;
}

unfoldable pub with_report_size : ℕ → GenericBridgeConfig → GenericBridgeConfig
with_report_size size c = record c { report_size = size }

unfoldable pub with_serial : Text → GenericBridgeConfig → GenericBridgeConfig
with_serial serial c = record c { serial = serial }

-- `shutdown_tx` counts the senders held, `task_handles` the relay tasks.
pub record GenericBridge : Type 0 where
  pub config : GenericBridgeConfig
  pub running : Bool
  pub shutdown_tx : ℕ
  pub task_handles : ℕ

unfoldable pub new : GenericBridgeConfig → GenericBridge
new config = record { config = config; running = false; shutdown_tx = 0; task_handles = 0 }

-- What the kernel and the emulator answer: an error's text, or nothing.
pub record Peer : Type 0 where
  pub create_device : GenericBridgeConfig → Option Text
  pub connect : Text → ℕ → Option Text

unfoldable pub remove_device : Text → List Text → List Text
remove_device serial [] = []
remove_device serial (d ∷ ds) =
    let rest = remove_device serial ds in if text_eq d serial then ds else d ∷ rest

pub remove_device_head : (serial : Text) (ds : List Text) → remove_device serial (serial ∷ ds) ≡ ds
unfolding remove_device
remove_device_head serial ds = ground (arith, text_eq_refl serial)

-- Dropping the senders ends the thread that owns the device, if there is one.
unfoldable pub drop_senders : GenericBridge → World → World
drop_senders b w = elim b.shutdown_tx [
  | zero ↦ w
  | suc n ↦ record w { devices = remove_device b.config.serial w.devices }
]

abbrev pub connect_error : Text → ℕ → Text → Text
connect_error host port msg =
    codes "Failed to connect to emulator at "
    ++ (host ++ (codes ":" ++ (decimal port ++ (codes ": " ++ msg))))

abbrev pub device_error : GenericBridgeConfig → Text → Text
device_error c msg = codes "Failed to create UHID device '" ++ (c.name ++ (codes "': " ++ msg))

-- Only TCP is connected at once; the other transports wait for the first report.
unfoldable pub connect_transport :
    Peer → GenericBridge → World → Option Text × (GenericBridge × World)
connect_transport p b w = elim b.config.transport [
  | tcp host port ↦ (elim (p.connect host port) [
    | some msg ↦ (some (connect_error host port msg), (b, w))
    | none ↦ (none, (record b { task_handles = b.task_handles + 2 }, w))
  ])
  | unix path ↦ (none, (b, w))
  | unix_dgram path ↦ (none, (b, w))
]

unfoldable pub start : Peer → GenericBridge → World → Option Text × (GenericBridge × World)
start p b w =
    if b.running
    then (some (codes "GenericBridge is already running"), (b, w))
    else (elim (p.create_device b.config) [
      | some msg ↦ (some (device_error b.config msg), (b, w))
      | none ↦
          connect_transport p (record b { shutdown_tx = b.shutdown_tx + 2; running = true })
            (record w { devices = b.config.serial ∷ w.devices })
    ])

unfoldable pub stop : GenericBridge → World → GenericBridge × World
stop b w = (record b { shutdown_tx = 0; task_handles = 0; running = false }, drop_senders b w)

unfoldable pub is_running : GenericBridge → Bool
is_running b = b.running
