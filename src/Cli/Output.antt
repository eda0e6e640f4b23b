-- ===== src/Cli/Output.antt =====
-- crates/hwwctl/src/output.rs: what a client prints, as the lines on its two streams. The JSON texts and
-- the text of a structured message are arguments.
use hwwctl.Prelude.{
  ℕ, ◌-◌, ◌≡◌, ◌≢◌, ◌⊎◌, inl, inr, refl, List, [], ◌∷◌, ◌++◌, length, replicate, Text, codes, Bool,
  true, false, Option, none, some, if◌then◌else◌,
}
use hwwctl.Format.{decimal}
use hwwctl.Control.Wallet.{as_str}
use hwwctl.Control.Hex.{serialize}
use hwwctl.Control.Types.{
  Response, LogSource, LogEntry, BridgeStatsSnapshot, InstanceSummary, InstanceState, ErrorCode,
  Message, Result, ok, err,
}
use hwwctl.Control.Types as Types
use hwwctl.Cli.{exit_code}

pub record Printed : Type 0 where
  pub out : List Text
  pub errs : List Text

abbrev on_out : List Text → Printed
on_out lines = record { out = lines; errs = [] }

-- `{n:>width}`
unfoldable pub pad_left : ℕ → Text → Text
pad_left width t = replicate (width - length t) b' ' ++ t

unfoldable pub print_client_error : (Text → Option Text) → Text → Bool → Printed
print_client_error to_json msg json =
    let said = (codes "hwwctl: " ++ msg) ∷ [] in
    if json
    then record { out = (elim (to_json msg) [ none ↦ [] | some s ↦ s ∷ [] ]); errs = said }
    else record { out = []; errs = said }

abbrev source_mark : LogSource → Text
source_mark Types.LogSource.emulator = codes "emu"
source_mark Types.LogSource.bridge = codes "br "
source_mark Types.LogSource.all = codes "*  "

abbrev is_bridge : LogSource → Bool
is_bridge Types.LogSource.bridge = true
is_bridge Types.LogSource.emulator = false
is_bridge Types.LogSource.all = false

unfoldable pub print_log_entry : LogEntry → Text
print_log_entry e =
    codes "  "
    ++ (pad_left 8 (decimal e.ts_ms)
        ++ (codes "ms  "
            ++ (source_mark e.source
                ++ (codes "  "
                    ++ (if is_bridge e.source
                        then e.direction ++ (codes " " ++ e.raw_hex)
                        else e.message)))))

abbrev traffic : Text → ℕ → ℕ → Text
traffic ends reports bytes =
    codes "  "
    ++ (ends
        ++ (codes "    "
            ++ (pad_left 6 (decimal reports)
                ++ (codes " reports  " ++ (pad_left 8 (decimal bytes) ++ codes " bytes")))))

unfoldable pub print_bridge_stats : BridgeStatsSnapshot → List Text
print_bridge_stats s =
    (codes "  instance         " ++ s.instance_id)
    ∷ traffic (codes "host → device") s.host_to_device_reports s.host_to_device_bytes
    ∷ traffic (codes "device → host") s.device_to_host_reports s.device_to_host_bytes
    ∷ []

-- `{:?}` of the states and of the error codes
abbrev state_name : InstanceState → Text
state_name Types.InstanceState.starting = codes "Starting"
state_name Types.InstanceState.running = codes "Running"
state_name Types.InstanceState.stopping = codes "Stopping"
state_name Types.InstanceState.failed = codes "Error"

abbrev code_name : ErrorCode → Text
code_name Types.ErrorCode.bad_request = codes "BadRequest"
code_name Types.ErrorCode.wallet_unsupported = codes "WalletUnsupported"
code_name Types.ErrorCode.bundle_missing = codes "BundleMissing"
code_name Types.ErrorCode.spawn_failed = codes "SpawnFailed"
code_name Types.ErrorCode.startup_timeout = codes "StartupTimeout"
code_name Types.ErrorCode.bridge_failed = codes "BridgeFailed"
code_name Types.ErrorCode.instance_not_found = codes "InstanceNotFound"
code_name Types.ErrorCode.resource_exhausted = codes "ResourceExhausted"
code_name Types.ErrorCode.internal = codes "Internal"

abbrev line_of : Text → Option Text → List Text
line_of label none = []
line_of label (some t) = (label ++ t) ∷ []

unfoldable pub print_summary : InstanceSummary → List Text
print_summary s =
    (codes "  instance  " ++ s.instance_id)
    ∷ (codes "  wallet    " ++ as_str s.wallet)
    ∷ (codes "  state     " ++ state_name s.state)
    ∷ (codes "  vid       " ++ serialize s.vid)
    ∷ (codes "  pid       " ++ serialize s.pid)
    ∷ (codes "  serial    " ++ s.serial)
    ∷ (line_of (codes "  hidraw    ") s.hidraw
        ++ ((codes "  transport " ++ s.transport) ∷ line_of (codes "  error     ") s.error))

-- An empty line stands behind each.
unfoldable pub print_summaries : List InstanceSummary → List Text
print_summaries [] = []
print_summaries (s ∷ ss) = print_summary s ++ ([] ∷ print_summaries ss)

unfoldable pub print_entries : List LogEntry → List Text
print_entries [] = []
print_entries (e ∷ es) = print_log_entry e ∷ print_entries es

module _ (message_text : Message → Text) where
  unfoldable pub print_plain : Response → Printed
  print_plain (Types.Response.pong info) = on_out (
      (codes "daemon ok  version="
        ++ (info.daemon_version
            ++ (codes "  proto="
                ++ (decimal info.protocol_version ++ (codes "  pid=" ++ decimal info.pid)))))
      ∷ [])
  print_plain (Types.Response.started s) =
      on_out ((codes "started " ++ s.instance_id) ∷ print_summary s)
  print_plain Types.Response.stopped = on_out (codes "stopped" ∷ [])
  print_plain (Types.Response.status []) = on_out (codes "(no instances)" ∷ [])
  print_plain (Types.Response.status (s ∷ ss)) = on_out (print_summaries (s ∷ ss))
  print_plain (Types.Response.logs []) = on_out (codes "(no log entries)" ∷ [])
  print_plain (Types.Response.logs (e ∷ es)) = on_out (print_entries (e ∷ es))
  print_plain (Types.Response.bridge_stats s) = on_out (print_bridge_stats s)
  print_plain Types.Response.shutting_down = on_out (codes "daemon is shutting down" ∷ [])
  print_plain (Types.Response.error e) = record {
    out = [];
    errs = (codes "error [" ++ (code_name e.code ++ (codes "]: " ++ message_text e.message))) ∷ [];
  }

  -- With `--json` the response is printed as it came, an error too.
  unfoldable pub print_response : (Response → Result Text Text) → Response → Bool → Printed
  print_response to_json resp json =
      if json
      then (elim (to_json resp) [
        | ok s ↦ on_out (s ∷ [])
        | err e ↦ record {
          out = [];
          errs = (codes "hwwctl: failed to serialize response: " ++ e) ∷ [];
        }
      ])
      else print_plain resp

  -- Without `--json`, a response goes to one stream only: to the error stream where the exit code is 1,
  -- and else to the output, which is never left empty.
  pub print_response-exit_code :
      (to_json : Response → Result Text Text) (resp : Response)
      → let p = print_response to_json resp false in
        ((p.errs ≡ []) × (p.out ≢ []) × (exit_code resp ≡ 0))
        ⊎ ((p.errs ≢ []) × (p.out ≡ []) × (exit_code resp ≡ 1))
  unfolding print_response print_plain exit_code print_summary print_summaries print_entries
      print_bridge_stats
  print_response-exit_code to_json (Types.Response.pong info) = inl (refl, λ e. cc, refl)
  print_response-exit_code to_json (Types.Response.started s) = inl (refl, λ e. cc, refl)
  print_response-exit_code to_json Types.Response.stopped = inl (refl, λ e. cc, refl)
  print_response-exit_code to_json (Types.Response.status []) = inl (refl, λ e. cc, refl)
  print_response-exit_code to_json (Types.Response.status (s ∷ ss)) = inl (refl, λ e. cc, refl)
  print_response-exit_code to_json (Types.Response.logs []) = inl (refl, λ e. cc, refl)
  print_response-exit_code to_json (Types.Response.logs (e ∷ es)) = inl (refl, λ h. cc, refl)
  print_response-exit_code to_json (Types.Response.bridge_stats s) = inl (refl, λ e. cc, refl)
  print_response-exit_code to_json Types.Response.shutting_down = inl (refl, λ e. cc, refl)
  print_response-exit_code to_json (Types.Response.error e) = inr (λ h. cc, refl, refl)
