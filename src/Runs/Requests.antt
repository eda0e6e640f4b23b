-- ===== src/Runs/Requests.antt =====
-- Runs of the daemon's requests and of its device scan at concrete inputs.
use hwwctl.Prelude.{
  ℕ, false, arith, ltb, if◌then◌else◌, ◌*◌, ◌≡◌, refl, List, [], ◌∷◌, Text, codes, text_eq,
  strip_prefix, true, Option, none, some,
}
use hwwctl.Control.Types as Types
use hwwctl.Control.Framing.{Codec, Sink, eof, ok, write_frame, write_all, read_frame}
use hwwctl.Daemon.Hidraw.{
  scan_entries, uevent_has_uniq, any_line, lines_loop, line_has_uniq, trim, trim_start,
  reverse_onto,
}
use hwwctl.Daemon.Hidraw.Laws.{IsNode, scan_entries_lem}
use hwwctl.Daemon.Server as Server
use hwwctl.Format.{is_whitespace}
use hwwctl.Daemon.Server.{Daemon, dispatch}
use hwwctl.Daemon.Server.Laws.{handle_connection-dispatch}
use hwwctl.Cli.AutoSpawn as AutoSpawn
use hwwctl.Runs.{world, env}

abbrev uevent : Text
uevent = codes "A=\nHID_UNIQ= s1\n"

scanned :
    scan_entries ((codes "hidraw3", some uevent) ∷ []) (codes "s1") ≡ some (codes "/dev/hidraw3")
unfolding scan_entries uevent_has_uniq any_line lines_loop line_has_uniq trim trim_start
    reverse_onto strip_prefix text_eq is_whitespace
scanned = refl

scan_entries_lem_example :
    IsNode ((codes "hidraw3", some uevent) ∷ []) (codes "s1") (codes "/dev/hidraw3")
scan_entries_lem_example =
    scan_entries_lem ((codes "hidraw3", some uevent) ∷ []) (codes "s1") (codes "/dev/hidraw3")
      scanned

-- Codecs for the one request and the one response of this run.
abbrev request_bytes : Types.Request → Option (List ℕ)
request_bytes Types.Request.shutdown = some (1 ∷ [])
request_bytes other = none

request_parses :
    (msg : Types.Request) (bytes : List ℕ)
    → request_bytes msg ≡ some bytes
    → some Types.Request.shutdown ≡ some msg
request_parses Types.Request.shutdown bytes e = refl
request_parses Types.Request.ping bytes e = absurd cc
request_parses (Types.Request.start req) bytes e = absurd cc
request_parses (Types.Request.stop id) bytes e = absurd cc
request_parses (Types.Request.status id) bytes e = absurd cc
request_parses (Types.Request.logs req) bytes e = absurd cc
request_parses (Types.Request.bridge_stats id) bytes e = absurd cc

abbrev requests : Codec Types.Request
requests = record {
  to_vec = request_bytes;
  from_slice = λ bs. some Types.Request.shutdown;
  parses = request_parses;
}

abbrev response_bytes : Types.Response → Option (List ℕ)
response_bytes Types.Response.shutting_down = some (2 ∷ [])
response_bytes other = none

response_parses :
    (msg : Types.Response) (bytes : List ℕ)
    → response_bytes msg ≡ some bytes
    → some Types.Response.shutting_down ≡ some msg
response_parses Types.Response.shutting_down bytes e = refl
response_parses (Types.Response.pong info) bytes e = absurd cc
response_parses (Types.Response.started info) bytes e = absurd cc
response_parses Types.Response.stopped bytes e = absurd cc
response_parses (Types.Response.status list) bytes e = absurd cc
response_parses (Types.Response.logs entries) bytes e = absurd cc
response_parses (Types.Response.bridge_stats snap) bytes e = absurd cc
response_parses (Types.Response.error e1) bytes e = absurd cc

abbrev responses : Codec Types.Response
responses = record {
  to_vec = response_bytes;
  from_slice = λ bs. some Types.Response.shutting_down;
  parses = response_parses;
}

abbrev daemon : Daemon
daemon = record { daemon_version = codes "0.1.4"; pid = 9; env = env; now = 9 }

abbrev sent_bytes : Sink
sent_bytes = record { written = 0 ∷ 0 ∷ 0 ∷ 1 ∷ 1 ∷ []; room = 3 }

abbrev reply_bytes : Sink
reply_bytes = record { written = 0 ∷ 0 ∷ 0 ∷ 1 ∷ 2 ∷ []; room = 3 }

abbrev blank : Sink
blank = record { written = []; room = 8 }

request_sent : write_frame requests Types.Request.shutdown blank ≡ ok sent_bytes
unfolding write_frame write_all
request_sent = refl

response_sent :
    write_frame responses (dispatch daemon Types.Request.shutdown [] world).0 blank ≡ ok reply_bytes
unfolding write_frame write_all dispatch
response_sent = refl

handle_connection-dispatch_example :
    let served =
      Server.handle_connection requests responses daemon
        (record { bytes = sent_bytes.written; end = eof })
        blank
        []
        world in
    (served.failed ≡ none)
    × (served.state ≡ (dispatch daemon Types.Request.shutdown [] world).1)
    × (served.exits ≡ true)
    × (read_frame responses (record { bytes = served.out.written; end = eof })
        ≡ ok (
          some (dispatch daemon Types.Request.shutdown [] world).0,
          record { bytes = []; end = eof },
        ))
handle_connection-dispatch_example =
    handle_connection-dispatch requests responses daemon Types.Request.shutdown blank sent_bytes
      blank reply_bytes [] world refl request_sent response_sent refl

-- A machine on which the daemon listens from the third attempt on.
abbrev slow_machine : AutoSpawn.Machine
slow_machine = record {
  connect = λ k. if ltb k 3 then AutoSpawn.Connected.not_found else AutoSpawn.Connected.connected;
  exists = false;
  spawns = true;
  now = λ k. k * 50;
}

connect_or_spawn_lem_example :
    (o : AutoSpawn.Outcome) × (AutoSpawn.connect_or_spawn slow_machine ≡ some o)
    × AutoSpawn.IsEnd slow_machine o
connect_or_spawn_lem_example = AutoSpawn.connect_or_spawn_lem slow_machine (λ j. omega arith)
