-- ===== src/Runs/Starts.antt =====
-- A run of `hwwctl start` against the daemon at a concrete input: the simulator comes up and is not seeded.
use hwwctl.Prelude.{ℕ, ◌≡◌, refl, List, [], ◌∷◌, Text, codes, Bool, true, false, Option, none, some}
use hwwctl.Control.Types as Types
use hwwctl.Control.Wallet as Wallet
use hwwctl.Control.Framing.{Codec, Sink, ok, write_frame, write_all}
use hwwctl.Emulators.World.{add_child}
use hwwctl.Emulators.World as OS
use hwwctl.Emulators.Generic as Emulator
use hwwctl.Daemon.Spawn as Spawn
use hwwctl.Daemon.Spawn.{get}
use hwwctl.Daemon.Server.{Daemon, dispatch}
use hwwctl.Cli as Cli
use hwwctl.Cli.Session.{daemon_stream, daemon_state, IsStarted, run-start}
use hwwctl.Runs.{request, world, env}

abbrev unseeded : Daemon
unseeded = record {
  daemon_version = codes "0.1.4";
  pid = 9;
  env = record env { seed = λ port. Types.Result.err (codes "x") };
  now = 9;
}

-- Codecs for the one request and for an internal error with its text.
abbrev plain : Wallet.Wallet → Bool → Option ℕ → Option Text → Option (List ℕ)
plain Wallet.bitbox02 true none none = some (1 ∷ [])
plain wallet wait_ready timeout mnemonic = none

plain-parses :
    (wallet : Wallet.Wallet) (wait_ready : Bool) (timeout : Option ℕ) (mnemonic : Option Text)
    (bytes : List ℕ)
    → plain wallet wait_ready timeout mnemonic ≡ some bytes
    → some (Types.Request.start request)
      ≡ some (
          Types.Request.start (record {
            wallet = wallet;
            wait_ready = wait_ready;
            timeout_secs = timeout;
            mnemonic = mnemonic;
          }))
plain-parses Wallet.bitbox02 true none none bytes e = refl
plain-parses Wallet.bitbox02 true none (some m) bytes e = absurd cc
plain-parses Wallet.bitbox02 true (some t) m bytes e = absurd cc
plain-parses Wallet.bitbox02 false t m bytes e = absurd cc
plain-parses Wallet.trezor w t m bytes e = absurd cc
plain-parses Wallet.coldcard w t m bytes e = absurd cc
plain-parses Wallet.specter w t m bytes e = absurd cc
plain-parses Wallet.ledger w t m bytes e = absurd cc
plain-parses Wallet.jade w t m bytes e = absurd cc

abbrev request_bytes : Types.Request → Option (List ℕ)
request_bytes (Types.Request.start r) = plain r.wallet r.wait_ready r.timeout_secs r.mnemonic
request_bytes other = none

request_parses :
    (msg : Types.Request) (bytes : List ℕ)
    → request_bytes msg ≡ some bytes
    → some (Types.Request.start request) ≡ some msg
request_parses (Types.Request.start r) bytes e =
    plain-parses r.wallet r.wait_ready r.timeout_secs r.mnemonic bytes e
request_parses Types.Request.ping bytes e = absurd cc
request_parses Types.Request.shutdown bytes e = absurd cc
request_parses (Types.Request.stop id) bytes e = absurd cc
request_parses (Types.Request.status id) bytes e = absurd cc
request_parses (Types.Request.logs req) bytes e = absurd cc
request_parses (Types.Request.bridge_stats id) bytes e = absurd cc

abbrev requests : Codec Types.Request
requests = record {
  to_vec = request_bytes;
  from_slice = λ bs. some (Types.Request.start request);
  parses = request_parses;
}

abbrev internal_failure : Text → Types.Response
internal_failure t = Types.Response.error (record { code = Types.internal; message = Types.text t })

abbrev error_bytes : Types.ErrorCode → Types.Message → Option (List ℕ)
error_bytes Types.internal (Types.text t) = some t
error_bytes code message = none

abbrev response_bytes : Types.Response → Option (List ℕ)
response_bytes (Types.Response.error e) = error_bytes e.code e.message
response_bytes other = none

error-parses :
    (code : Types.ErrorCode) (message : Types.Message) (bytes : List ℕ)
    → error_bytes code message ≡ some bytes
    → some (internal_failure bytes)
      ≡ some (Types.Response.error (record { code = code; message = message }))
error-parses Types.internal (Types.text t) bytes e = cc
error-parses Types.internal (Types.bad_mnemonic b) bytes e = absurd cc
error-parses Types.bad_request m bytes e = absurd cc
error-parses Types.wallet_unsupported m bytes e = absurd cc
error-parses Types.bundle_missing m bytes e = absurd cc
error-parses Types.spawn_failed m bytes e = absurd cc
error-parses Types.startup_timeout m bytes e = absurd cc
error-parses Types.bridge_failed m bytes e = absurd cc
error-parses Types.instance_not_found m bytes e = absurd cc
error-parses Types.resource_exhausted m bytes e = absurd cc

response_parses :
    (msg : Types.Response) (bytes : List ℕ)
    → response_bytes msg ≡ some bytes
    → some (internal_failure bytes) ≡ some msg
response_parses (Types.Response.error e) bytes h = error-parses e.code e.message bytes h
response_parses Types.Response.shutting_down bytes e = absurd cc
response_parses (Types.Response.pong info) bytes e = absurd cc
response_parses (Types.Response.started info) bytes e = absurd cc
response_parses Types.Response.stopped bytes e = absurd cc
response_parses (Types.Response.status list) bytes e = absurd cc
response_parses (Types.Response.logs entries) bytes e = absurd cc
response_parses (Types.Response.bridge_stats snap) bytes e = absurd cc

abbrev responses : Codec Types.Response
responses = record {
  to_vec = response_bytes;
  from_slice = λ bs. some (internal_failure bs);
  parses = response_parses;
}

abbrev blank : Sink
blank = record { written = []; room = 80 }

abbrev command : Cli.Cmd
command = Cli.Cmd.start Wallet.bitbox02 false none none

request_sent : (c : Sink) × (write_frame requests (Types.Request.start request) blank ≡ ok c)
unfolding write_frame write_all
request_sent = (_, refl)

response_sent :
    (c : Sink) × (write_frame responses
        (dispatch unseeded (Types.Request.start request) [] world).0
        blank
      ≡ ok c)
unfolding write_frame write_all dispatch Spawn.start Spawn.start_wallet Spawn.start_bitbox02
    Spawn.find_bundle Spawn.allocate Spawn.launch Spawn.check_status Spawn.seed_emulator
    Spawn.give_up Spawn.build_emulator Emulator.new Emulator.with_arg Emulator.with_env
    Emulator.with_startup_timeout Emulator.with_skip_probe_delay Emulator.start Emulator.spawn_child
    Emulator.settle add_child OS.drop_child
response_sent = (_, refl)

run-start_example :
    IsStarted requests responses unseeded [] world
      (Cli.run requests responses command
        (some blank)
        (daemon_stream requests responses unseeded blank [] world))
      (daemon_state requests responses unseeded blank [] world request_sent.0)
run-start_example =
    run-start requests responses unseeded request command blank request_sent.0 blank response_sent.0
      [] world (unfold Cli.build_request in refl) refl request_sent.1 response_sent.1 refl
      (unfold get in refl)
