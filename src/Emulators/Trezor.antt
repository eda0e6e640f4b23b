-- ===== src/Emulators/Trezor.antt =====
-- crates/emulators/src/trezor.rs: `TrezorEmulator`. Times are in milliseconds.
pub mod Laws
use hwwctl.Prelude.{
  ℕ, suc, ◌+◌, ◌/◌, List, [], ◌∷◌, ◌++◌, Text, codes, Bool, true, false, not, Option, none, some,
  if◌then◌else◌,
}
use hwwctl.Format.{decimal}
use hwwctl.Poll.{poll_loop}
use hwwctl.Control.Socket.{path_join}
use hwwctl.Emulators.{EmulatorStatus, stopped, starting, running, error, TransportConfig, udp}
use hwwctl.Emulators.World.{
  Network, Command, Host, World, add_child, drop_child, stop_child, Spawned-cases,
  remove_child_head,
}
use hwwctl.Emulators.World as World
use hwwctl.Emulators.Generic.{probe_udp, prepend, or_empty, is_up}

abbrev pub startup_timeout : ℕ
startup_timeout = 10000

abbrev pub startup_poll_interval : ℕ
startup_poll_interval = 200

pub record TrezorEmulator : Type 0 where
  pub firmware_path : Text
  pub binary_override : Option Text
  pub profile_dir : Text
  pub port : ℕ
  pub child : Option ℕ
  pub status : EmulatorStatus
  pub output_lines : List Text

unfoldable pub new_with_binary : Option Text → Text → Text → ℕ → TrezorEmulator
new_with_binary binary firmware_path profile_dir port = record {
  firmware_path = firmware_path;
  binary_override = binary;
  profile_dir = profile_dir;
  port = port;
  child = none;
  status = stopped;
  output_lines = [];
}

unfoldable pub micropython_path : TrezorEmulator → Text
micropython_path e = elim e.binary_override [
  | some bin ↦ bin
  | none ↦
      path_join (path_join (path_join e.firmware_path (codes "build")) (codes "unix"))
        (codes "trezor-emu-core")
]

unfoldable pub transport : TrezorEmulator → TransportConfig
transport e = udp (codes "127.0.0.1") e.port

unfoldable pub attempt : Host → TrezorEmulator → ℕ → Option (Unit {0})
attempt h e k = if probe_udp (h.network k) (codes "127.0.0.1") e.port then some tt else none

unfoldable pub ready_rounds : Host → TrezorEmulator → Option (Option (Unit {0}))
ready_rounds h e =
    poll_loop (attempt h e) h.now_ms (h.start_ms + startup_timeout)
      (suc (suc (startup_timeout / startup_poll_interval))) 0

unfoldable pub wait_for_ready : Host → TrezorEmulator → Bool
wait_for_ready h e = elim (ready_rounds h e) [ some (some tt) ↦ true | _ ↦ false ]

-- `lib/` beside the binary is put in front of the library path; `parent` is the directory of the binary.
unfoldable pub command_of : Host → Option Text → TrezorEmulator → Command
command_of h parent e =
    let existing = or_empty h.ld_library_path in
    let src_dir = path_join e.firmware_path (codes "src") in
    record {
      program = micropython_path e;
      dir = e.firmware_path;
      env =
          (
            codes "LD_LIBRARY_PATH",
            elim parent [
              | none ↦ existing
              | some p ↦
                  if h.is_dir (path_join p (codes "lib"))
                  then prepend (path_join p (codes "lib")) existing
                  else existing
            ],
          )
          ∷ (codes "MICROPYPATH", if h.is_dir src_dir then src_dir else [])
          ∷ (codes "TREZOR_PROFILE_DIR", e.profile_dir)
          ∷ (codes "SDL_VIDEODRIVER", codes "dummy")
          ∷ (codes "TREZOR_UDP_PORT", decimal e.port)
          ∷ [];
      args = [];
    }

unfoldable pub settle : Host → TrezorEmulator → TrezorEmulator
settle h e = if wait_for_ready h e then record e { status = running } else record e {
  status = error (codes "UDP :" ++ (decimal e.port ++ codes " not reachable after startup"));
}

abbrev pub missing_binary : TrezorEmulator → Text
missing_binary e =
    codes "Trezor emulator binary not found at "
    ++ (micropython_path e ++ codes ". Build trezor-firmware first: cd core && make build_unix")

unfoldable pub spawn_child :
    Host → Option Text → TrezorEmulator → World → Option Text × (TrezorEmulator × World)
spawn_child h parent e w = elim (h.spawn (command_of h parent e)) [
  | World.Spawned.failed msg ↦ (some (codes "Failed to spawn Trezor emulator: " ++ msg), (e, w))
  | World.Spawned.child pid ↦
      (none, (settle h (record e { child = some pid }), add_child pid (drop_child e.child w)))
]

unfoldable pub start :
    Host → Option Text → TrezorEmulator → World → Option Text × (TrezorEmulator × World)
start h parent e w =
    if is_up e.status
    then (none, (e, w))
    else (if not (h.path_exists (micropython_path e))
        then (some (missing_binary e), (e, w))
        else (elim (h.create_dir_all e.profile_dir) [
          | some msg ↦ (some msg, (e, w))
          | none ↦ spawn_child h parent (record e { status = starting }) w
        ]))

unfoldable pub stop : Host → TrezorEmulator → World → TrezorEmulator × World
stop h e w = elim e.child [
  | none ↦ (record e { status = stopped }, w)
  | some pid ↦ (record e { child = none; status = stopped }, stop_child h pid w)
]

unfoldable pub health_check : Network → TrezorEmulator → Bool
health_check net e = probe_udp net (codes "127.0.0.1") e.port
