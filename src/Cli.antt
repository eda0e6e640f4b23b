-- ===== src/Cli.antt =====
-- crates/hwwctl/src/client.rs: a client's one request, and its exit code.
pub mod AutoSpawn
pub mod Session
pub mod Output
use hwwctl.Prelude.{ℕ, not, List, [], Text, Bool, Option, none, some}
use hwwctl.Control.Wallet.{Wallet}
use hwwctl.Control.Types.{Request, Response, LogSource}
use hwwctl.Control.Types as Types
use hwwctl.Control.Source.{parse_source}
use hwwctl.Control.Framing.{Codec, Source, Sink, Framed, ok, err, write_frame, read_frame}

-- `Cmd` of crates/hwwctl/src/main.rs, as clap parses it
pub data Cmd : Type 0 where
  daemon ping shutdown : Cmd
  start : Wallet → Bool → Option ℕ → Option Text → Cmd
  stop bridge_stats : Text → Cmd
  status : Option Text → Cmd
  logs : Text → Option ℕ → Text → Cmd

abbrev logs_request : Text → Option ℕ → Option LogSource → Option Request
logs_request id tail none = none
logs_request id tail (some source) =
    some (Types.Request.logs (record { instance_id = id; tail = tail; source = source }))

unfoldable pub build_request : Cmd → Option Request
build_request daemon = none
build_request ping = some Types.Request.ping
build_request (start wallet no_wait timeout mnemonic) = some (
    Types.Request.start (record {
      wallet = wallet;
      wait_ready = not no_wait;
      timeout_secs = timeout;
      mnemonic = mnemonic;
    }))
build_request (stop id) = some (Types.Request.stop id)
build_request (status id) = some (Types.Request.status id)
build_request (logs id tail source) = logs_request id tail (parse_source source)
build_request (bridge_stats id) = some (Types.Request.bridge_stats id)
build_request shutdown = some Types.Request.shutdown

unfoldable pub exit_code : Response → ℕ
exit_code (Types.Response.error e) = 1
exit_code (Types.Response.pong p) = 0
exit_code (Types.Response.started i) = 0
exit_code Types.Response.stopped = 0
exit_code (Types.Response.status is) = 0
exit_code (Types.Response.logs es) = 0
exit_code (Types.Response.bridge_stats b) = 0
exit_code Types.Response.shutting_down = 0

-- The exit code, and the stream's bytes written.
module _ (requests : Codec Request) (responses : Codec Response) where
  unfoldable pub read_response : Source → ℕ
  read_response stream = elim (read_frame responses stream) [
    | ok (some r, rest) ↦ exit_code r
    | ok (none, rest) ↦ 2
    | err e ↦ 2
  ]

  -- On a stream, with what the daemon answers to the bytes written.
  unfoldable pub send_request : Request → Sink → (Sink → Source) → ℕ
  send_request request stream serve = elim (write_frame requests request stream) [
    | err e ↦ 2
    | ok stream' ↦ read_response (serve stream')
  ]

  -- `run`, with the stream of `connect_or_spawn` where it gives one.
  unfoldable pub run : Cmd → Option Sink → (Sink → Source) → ℕ
  run cmd stream serve = elim (build_request cmd) [
    | none ↦ 2
    | some request ↦ (elim stream [ none ↦ 2 | some s ↦ send_request request s serve ])
  ]
