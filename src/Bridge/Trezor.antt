-- ===== src/Bridge/Trezor.antt =====
-- crates/bridge/src/trezor.rs: `TrezorBridge`, its start and stop, and what its two tasks pass on. Its UHID
-- thread is in `Uhid`: it does not end when `stop` drops the senders, so the device stays.
use hwwctl.Prelude.{
  ℕ, ◌+◌, ◌≡◌, List, [], ◌∷◌, ◌++◌, take, Text, codes, Option-cases, inl, inr, Bool, true, false,
  Option, none, some, if◌then◌else◌, arith,
}
use hwwctl.Emulators.World.{World}
use hwwctl.Protocol.Header.{Decoded, decode_packet, log_line}
use hwwctl.Protocol.Header as Header
use hwwctl.Bridge.{host_to_device, device_to_host}
use hwwctl.Bridge.Relay.{InterceptedMessage, intercepted}

-- `shutdown_tx` counts the senders held.
pub record TrezorBridge : Type 0 where
  pub emulator_addr : Text
  pub running : Bool
  pub shutdown_tx : ℕ

unfoldable pub new : Text → TrezorBridge
new addr = record { emulator_addr = addr; running = false; shutdown_tx = 0 }

-- What the kernel answers: an error's text, or nothing.
pub record Kernel : Type 0 where
  pub create_device : Option Text
  pub bind : Option Text
  pub connect : Text → Option Text

-- The virtual device has no serial number.
abbrev pub trezor_serial : Text
trezor_serial = []

-- The device that was made is dropped where the socket cannot be had.
unfoldable pub start : Kernel → TrezorBridge → World → Option Text × TrezorBridge × World
start k b w =
    if b.running then (some (codes "Bridge is already running"), b, w) else (elim k.create_device [
      | some msg ↦ (some (codes "Failed to create virtual Trezor HID device"), b, w)
      | none ↦ (elim k.bind [
        | some msg ↦ (some (codes "Failed to bind local UDP socket for Trezor bridge"), b, w)
        | none ↦ (elim (k.connect b.emulator_addr) [
          | some msg ↦ (some (codes "Failed to connect UDP socket to Trezor emulator"), b, w)
          | none ↦ (
            none,
            record b { shutdown_tx = b.shutdown_tx + 2; running = true },
            record w { devices = trezor_serial ∷ w.devices },
          )
        ])
      ])
    ])

unfoldable pub stop : TrezorBridge → World → TrezorBridge × World
stop b w = (record b { shutdown_tx = 0; running = false }, w)

unfoldable pub is_running : TrezorBridge → Bool
is_running b = b.running

abbrev report_size : ℕ
report_size = 64

abbrev decoded_line : Decoded → Option Text
decoded_line (Header.Decoded.ok m) = some (log_line m)
decoded_line (Header.Decoded.err e) = none

-- `decode_packet(&data).ok().map(|m| m.log_line())`
unfoldable pub decoded : List ℕ → Option Text
decoded bytes = decoded_line (decode_packet bytes)

-- What the emulator's task meets.
pub data Arrival : Type 0 where
  received : List ℕ → Arrival
  recv_failed shut_down : Arrival

pub record Tasks : Type 0 where
  pub running : Bool
  pub ended : Bool
  pub recorded : List InterceptedMessage
  pub to_device : List (List ℕ)
  pub to_emulator : List (List ℕ)

-- A round of task A: the buffer has room for 80 bytes, of which 64 are kept.
unfoldable pub emulator_round : Arrival → Tasks → Tasks
emulator_round (received d) t =
    let data_bytes = take report_size d in
    if t.ended then t else record t {
      recorded = t.recorded ++ (intercepted device_to_host data_bytes (decoded data_bytes) ∷ []);
      to_device = t.to_device ++ (data_bytes ∷ []);
    }
emulator_round recv_failed t = if t.ended then t else record t { running = false; ended = true }
emulator_round shut_down t = record t { ended = true }

-- A round of task B: a send that fails is only logged.
unfoldable pub host_round : Bool → List ℕ → Tasks → Tasks
host_round sent report t = record t {
  recorded = t.recorded ++ (intercepted host_to_device report (decoded report) ∷ []);
  to_emulator = if sent then t.to_emulator ++ (report ∷ []) else t.to_emulator;
}

-- A bridge that is stopped and started again over a kernel that refuses nothing has two devices: the one
-- of the first start has stayed.
pub start-stop-start :
    (k : Kernel) (addr : Text) (w : World)
    → k.create_device ≡ none
    → k.bind ≡ none
    → k.connect addr ≡ none
    → let (e, b, w') = start k (new addr) w in
      let (b', w'') = stop b w' in
      (start k b' w'').2.devices ≡ trezor_serial ∷ trezor_serial ∷ w.devices
unfolding start stop new
start-stop-start k addr w made bound joined = ground (arith, made, bound, joined)

-- A start that fails leaves no device and a bridge that is not running.
pub start_failed_lem :
    (k : Kernel) (addr msg : Text) (w : World)
    → (start k (new addr) w).0 ≡ some msg
    → ((start k (new addr) w).1 ≡ new addr) × ((start k (new addr) w).2 ≡ w)
unfolding start new
start_failed_lem k addr msg w e = elim (Option-cases k.create_device) [
  | inl made ↦ elim (Option-cases k.bind) [
    | inl bound ↦ elim (Option-cases (k.connect addr)) [
      | inl joined ↦ ground (arith, made, bound, joined, e)
      | inr (m, joined) ↦ ground (arith, made, bound, joined)
    ]
    | inr (m, bound) ↦ ground (arith, made, bound)
  ]
  | inr (m, made) ↦ ground (arith, made)
]
