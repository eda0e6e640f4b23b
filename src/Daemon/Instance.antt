-- ===== src/Daemon/Instance.antt =====
-- crates/hwwctl/src/daemon/instance.rs: `Instance`, its summary and its logs. Times are in milliseconds
-- on the monotonic clock. The output buffer is the one that the emulator fills.
pub mod Logs
use hwwctl.Prelude.{
  ℕ, ◌-◌, List, [], ◌∷◌, ◌++◌, map, length, drop, Text, Bool, true, false, Option, none, some, leb,
  ltb, if◌then◌else◌,
}
use hwwctl.Control.Wallet.{Wallet}
use hwwctl.Control.Types.{
  InstanceId, InstanceState, InstanceSummary, LogEntry, LogSource, BridgeStatsSnapshot,
}
use hwwctl.Control.Types as Types
use hwwctl.Emulators.Generic.{GenericEmulator}
use hwwctl.Bridge.{Direction, direction_text}
use hwwctl.Bridge.Generic.{GenericBridge}

abbrev pub log_buffer_cap : ℕ
log_buffer_cap = 500

pub record BridgeLog : Type 0 where
  pub at : ℕ
  pub direction : Direction
  pub raw_hex : Text

pub record BridgeStatsCounters : Type 0 where
  pub host_to_device_reports : ℕ
  pub host_to_device_bytes : ℕ
  pub device_to_host_reports : ℕ
  pub device_to_host_bytes : ℕ

abbrev pub no_stats : BridgeStatsCounters
no_stats = record {
  host_to_device_reports = 0;
  host_to_device_bytes = 0;
  device_to_host_reports = 0;
  device_to_host_bytes = 0;
}

pub record Instance : Type 0 where
  pub id : InstanceId
  pub wallet : Wallet
  pub state : InstanceState
  pub vid : ℕ
  pub pid : ℕ
  pub serial : Text
  pub hidraw : Option Text
  pub transport : Text
  pub error : Option Text
  pub emulator : GenericEmulator
  pub bridge : Option GenericBridge
  pub log_drain : Bool
  pub started_at : ℕ
  pub bridge_log : List BridgeLog
  pub bridge_stats : BridgeStatsCounters

unfoldable pub snapshot : BridgeStatsCounters → InstanceId → BridgeStatsSnapshot
snapshot s id = record {
  instance_id = id;
  host_to_device_reports = s.host_to_device_reports;
  host_to_device_bytes = s.host_to_device_bytes;
  device_to_host_reports = s.device_to_host_reports;
  device_to_host_bytes = s.device_to_host_bytes;
}

unfoldable pub summary : Instance → InstanceSummary
summary i = record {
  instance_id = i.id;
  wallet = i.wallet;
  state = i.state;
  vid = i.vid;
  pid = i.pid;
  serial = i.serial;
  hidraw = i.hidraw;
  transport = i.transport;
  error = i.error;
}

-- `sort_by_key` is stable: an entry goes in front of the first that is not earlier.
unfoldable pub insert_entry : LogEntry → List LogEntry → List LogEntry
insert_entry e [] = e ∷ []
insert_entry e (f ∷ fs) =
    let rest = insert_entry e fs in if leb e.ts_ms f.ts_ms then e ∷ f ∷ fs else f ∷ rest

unfoldable pub sort_entries : List LogEntry → List LogEntry
sort_entries [] = []
sort_entries (e ∷ es) = insert_entry e (sort_entries es)

abbrev wants_emulator : LogSource → Bool
wants_emulator Types.LogSource.emulator = true
wants_emulator Types.LogSource.bridge = false
wants_emulator Types.LogSource.all = true

abbrev wants_bridge : LogSource → Bool
wants_bridge Types.LogSource.emulator = false
wants_bridge Types.LogSource.bridge = true
wants_bridge Types.LogSource.all = true

abbrev emulator_entry : ℕ → Text → LogEntry
emulator_entry now_ms line = record {
  ts_ms = now_ms;
  source = Types.LogSource.emulator;
  message = line;
  direction = [];
  raw_hex = [];
}

abbrev bridge_entry : ℕ → BridgeLog → LogEntry
bridge_entry started_at entry = record {
  ts_ms = entry.at - started_at;
  source = Types.LogSource.bridge;
  message = [];
  direction = direction_text entry.direction;
  raw_hex = entry.raw_hex;
}

-- The entries of both sources, the emulator's first; `now` is the time of the request.
unfoldable pub gather : ℕ → LogSource → Instance → List LogEntry
gather now source i =
    (if wants_emulator source
      then map (emulator_entry (now - i.started_at)) i.emulator.output_lines
      else [])
    ++ (if wants_bridge source then map (bridge_entry i.started_at) i.bridge_log else [])

unfoldable pub keep_tail : Option ℕ → List LogEntry → List LogEntry
keep_tail none out = out
keep_tail (some n) out = if ltb n (length out) then drop (length out - n) out else out

unfoldable pub collect_logs : ℕ → LogSource → Option ℕ → Instance → List LogEntry
collect_logs now source tail i = keep_tail tail (sort_entries (gather now source i))
