-- ===== src/Control/Types.antt =====
-- crates/control/src/lib.rs: the types of the daemon's IPC protocol. A text is the list of its
-- characters.
use hwwctl.Prelude.{ℕ, Text, Bool, Option, List}
use hwwctl.Control.Wallet.{Wallet}
use hwwctl.Control.Mnemonic.{MnemonicError}

abbrev pub protocol_version : ℕ
protocol_version = 1

-- A newtype over `String`.
abbrev pub InstanceId : Type 0
InstanceId = Text

pub data LogSource : Type 0 where
  emulator bridge all : LogSource

pub record StartRequest : Type 0 where
  pub wallet : Wallet
  pub wait_ready : Bool
  pub timeout_secs : Option ℕ
  pub mnemonic : Option Text

pub record LogsRequest : Type 0 where
  pub instance_id : InstanceId
  pub tail : Option ℕ
  pub source : LogSource

pub data Request : Type 0 where
  ping : Request
  start : StartRequest → Request
  stop : InstanceId → Request
  status : Option InstanceId → Request
  logs : LogsRequest → Request
  bridge_stats : InstanceId → Request
  shutdown : Request

pub data InstanceState : Type 0 where
  starting running stopping failed : InstanceState

pub record LogEntry : Type 0 where
  pub ts_ms : ℕ
  pub source : LogSource
  pub message : Text
  pub direction : Text
  pub raw_hex : Text

pub record BridgeStatsSnapshot : Type 0 where
  pub instance_id : InstanceId
  pub host_to_device_reports : ℕ
  pub host_to_device_bytes : ℕ
  pub device_to_host_reports : ℕ
  pub device_to_host_bytes : ℕ

pub record PongInfo : Type 0 where
  pub daemon_version : Text
  pub protocol_version : ℕ
  pub pid : ℕ

pub record InstanceSummary : Type 0 where
  pub instance_id : InstanceId
  pub wallet : Wallet
  pub state : InstanceState
  pub vid : ℕ
  pub pid : ℕ
  pub serial : Text
  pub hidraw : Option Text
  pub transport : Text
  pub error : Option Text

pub data ErrorCode : Type 0 where
  bad_request wallet_unsupported bundle_missing spawn_failed startup_timeout : ErrorCode
  bridge_failed instance_not_found resource_exhausted internal : ErrorCode

-- `control::Error`. The human message is kept where it is a plain text of the source or of the
-- environment; a refused mnemonic is kept as its reason.
pub data Message : Type 0 where
  text : Text → Message
  bad_mnemonic : MnemonicError → Message

pub record Error : Type 0 where
  pub code : ErrorCode
  pub message : Message

pub data Response : Type 0 where
  pong : PongInfo → Response
  started : InstanceSummary → Response
  stopped : Response
  status : List InstanceSummary → Response
  logs : List LogEntry → Response
  bridge_stats : BridgeStatsSnapshot → Response
  shutting_down : Response
  error : Error → Response

-- `Result<T, E>`
pub data Result (E A : Type 0) : Type 0 where
  ok : A → Result E A
  err : E → Result E A
