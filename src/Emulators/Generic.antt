-- ===== src/Emulators/Generic.antt =====
-- crates/emulators/src/generic.rs: `GenericEmulator`. Times are in milliseconds.
use hwwctl.Prelude.{
  ℕ, suc, ◌+◌, ◌/◌, List, [], ◌∷◌, ◌++◌, length, drop, Text, codes, Bool, true, false, not, ◌&&◌,
  ◌||◌, Option, none, some, leb, if◌then◌else◌,
}
use hwwctl.Format.{decimal}
use hwwctl.Poll.{poll_loop}
use hwwctl.Control.Socket.{path_join}
use hwwctl.Emulators.{
  EmulatorStatus, stopped, starting, running, error, WalletType, wallet_type_text, TransportConfig,
  udp, tcp, unix_socket, transport_text,
}
use hwwctl.Emulators.World.{
  UdpAnswer, answered, timed_out, Network, Command, Host, World, add_child, drop_child, stop_child,
}
use hwwctl.Emulators.World as World

abbrev pub default_startup_timeout : ℕ
default_startup_timeout = 15000

abbrev pub startup_poll_interval : ℕ
startup_poll_interval = 300

abbrev pub output_ring_size : ℕ
output_ring_size = 500

pub record GenericEmulator : Type 0 where
  pub wallet_type : WalletType
  pub binary_path : Text
  pub working_dir : Text
  pub profile_dir : Text
  pub transport : TransportConfig
  pub env_vars : List (Text × Text)
  pub args : List Text
  pub startup_timeout : ℕ
  pub gentle_probe : Bool
  pub skip_probe_delay : Option ℕ
  pub child : Option ℕ
  pub status : EmulatorStatus
  pub output_lines : List Text

unfoldable pub new : WalletType → Text → Text → Text → TransportConfig → GenericEmulator
new wallet_type binary_path working_dir profile_dir transport = record {
  wallet_type = wallet_type;
  binary_path = binary_path;
  working_dir = working_dir;
  profile_dir = profile_dir;
  transport = transport;
  env_vars = [];
  args = [];
  startup_timeout = default_startup_timeout;
  gentle_probe = false;
  skip_probe_delay = none;
  child = none;
  status = stopped;
  output_lines = [];
}

unfoldable pub with_env : Text → Text → GenericEmulator → GenericEmulator
with_env key value e = record e { env_vars = e.env_vars ++ ((key, value) ∷ []) }

unfoldable pub with_arg : Text → GenericEmulator → GenericEmulator
with_arg arg e = record e { args = e.args ++ (arg ∷ []) }

unfoldable pub with_startup_timeout : ℕ → GenericEmulator → GenericEmulator
with_startup_timeout timeout e = record e { startup_timeout = timeout }

unfoldable pub with_gentle_probe : GenericEmulator → GenericEmulator
with_gentle_probe e = record e { gentle_probe = true }

unfoldable pub with_skip_probe_delay : ℕ → GenericEmulator → GenericEmulator
with_skip_probe_delay delay e = record e { skip_probe_delay = some delay }

-- `<dir>/lib` in front of a library path that is already set
abbrev pub prepend : Text → Text → Text
prepend dir [] = dir
prepend dir (c ∷ existing) = dir ++ (codes ":" ++ (c ∷ existing))

abbrev pub or_empty : Option Text → Text
or_empty none = []
or_empty (some s) = s

unfoldable pub build_ld_library_path : Host → GenericEmulator → Text
build_ld_library_path h e =
    let lib_dir = path_join e.working_dir (codes "lib") in
    let existing = or_empty h.ld_library_path in
    if h.is_dir lib_dir then prepend lib_dir existing else existing

unfoldable pub probe_udp : Network → Text → ℕ → Bool
probe_udp net host port =
    net.bind_udp
    && (net.send_empty host port
        && (elim net.recv [ answered ↦ true | timed_out ↦ true | World.UdpAnswer.failed ↦ false ]))

-- The linger option of the TCP probe changes how the connection is closed, not the answer.
unfoldable pub probe_once : Network → TransportConfig → Bool
probe_once net (tcp host port) = net.connect_tcp host port
probe_once net (unix_socket path) =
    net.socket_exists path && (net.connect_stream path || net.connect_dgram path)
probe_once net (udp host port) = probe_udp net host port

unfoldable pub attempt : Host → TransportConfig → ℕ → Option (Unit {0})
attempt h t k = if probe_once (h.network k) t then some tt else none

-- The rounds of the loop, with as many as there are pauses before the deadline and one more.
unfoldable pub ready_rounds : Host → GenericEmulator → Option (Option (Unit {0}))
ready_rounds h e =
    poll_loop (attempt h e.transport) h.now_ms (h.start_ms + e.startup_timeout)
      (suc (suc (e.startup_timeout / startup_poll_interval))) 0

unfoldable pub wait_for_ready : Host → GenericEmulator → Bool
wait_for_ready h e = elim (ready_rounds h e) [ some (some tt) ↦ true | _ ↦ false ]

-- A ring buffer: the oldest entry goes when it is full.
unfoldable pub push_line {ℓ} : {A : Type ℓ} → ℕ → List A → A → List A
push_line size buf line = (if leb size (length buf) then drop 1 buf else buf) ++ (line ∷ [])

abbrev pub is_up : EmulatorStatus → Bool
is_up running = true
is_up starting = true
is_up stopped = false
is_up (error msg) = false

unfoldable pub command_of : Host → GenericEmulator → Command
command_of h e = record {
  program = e.binary_path;
  dir = e.working_dir;
  env = (codes "LD_LIBRARY_PATH", build_ld_library_path h e) ∷ e.env_vars;
  args = e.args;
}

-- From the spawned child on.
unfoldable pub settle : Host → GenericEmulator → GenericEmulator
settle h e = elim e.skip_probe_delay [
  | some delay ↦ record e { status = running }
  | none ↦ if wait_for_ready h e then record e { status = running } else record e {
    status = error (
        transport_text e.transport
        ++ (codes " not reachable after " ++ (decimal (e.startup_timeout / 1000) ++ codes "s")));
  }
]

abbrev pub missing_binary : GenericEmulator → Text
missing_binary e =
    wallet_type_text e.wallet_type ++ (codes " emulator binary not found at " ++ e.binary_path)

abbrev pub spawn_error : GenericEmulator → Text → Text
spawn_error e msg =
    codes "Failed to spawn "
    ++ (wallet_type_text e.wallet_type
        ++ (codes " emulator (" ++ (e.binary_path ++ (codes "): " ++ msg))))

-- The status is `starting` from here on, also when the child cannot be spawned.
unfoldable pub spawn_child :
    Host → GenericEmulator → World → Option Text × (GenericEmulator × World)
spawn_child h e w = elim (h.spawn (command_of h e)) [
  | World.Spawned.failed msg ↦ (some (spawn_error e msg), (e, w))
  | World.Spawned.child pid ↦
      (none, (settle h (record e { child = some pid }), add_child pid (drop_child e.child w)))
]

-- The error's text if there is one, the emulator and the world.
unfoldable pub start : Host → GenericEmulator → World → Option Text × (GenericEmulator × World)
start h e w =
    if is_up e.status
    then (none, (e, w))
    else (if not (h.path_exists e.binary_path)
        then (some (missing_binary e), (e, w))
        else (elim (h.create_dir_all e.profile_dir) [
          | some msg ↦ (some msg, (e, w))
          | none ↦ spawn_child h (record e { status = starting }) w
        ]))

unfoldable pub stop : Host → GenericEmulator → World → GenericEmulator × World
stop h e w = elim e.child [
  | none ↦ (record e { status = stopped }, w)
  | some pid ↦ (record e { child = none; status = stopped }, stop_child h pid w)
]

unfoldable pub health_check : Network → GenericEmulator → Bool
health_check net e = probe_once net e.transport

unfoldable pub drain_output : GenericEmulator → List Text × GenericEmulator
drain_output e = (e.output_lines, record e { output_lines = [] })
