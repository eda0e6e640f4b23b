-- ===== src/Daemon/Server.antt =====
-- crates/hwwctl/src/daemon/mod.rs: `dispatch` and `handle_connection`. The version and the process id
-- are arguments; so is what a start meets (`SpawnEnv`).
pub mod Laws
pub mod Commands
use hwwctl.Prelude.{
  ℕ, ◌≡◌, List, [], ◌∷◌, Text, Bool, true, false, Option, none, some, if◌then◌else◌,
}
use hwwctl.Control.Types.{
  Request, Response, PongInfo, protocol_version, Error, Result, InstanceSummary,
}
use hwwctl.Control.Types as Types
use hwwctl.Control.Framing.{
  Codec, Source, Sink, FrameError, Framed, ok, err, write_frame, read_frame,
}
use hwwctl.Emulators.World.{World}
use hwwctl.Daemon.Spawn.{Instances, SpawnEnv}
use hwwctl.Daemon.Spawn as Spawn
use hwwctl.Daemon.Registry.{stop_instance, status_of, logs_of, bridge_stats_of, shutdown_all}

pub record Daemon : Type 0 where
  pub daemon_version : Text
  pub pid : ℕ
  pub env : SpawnEnv
  pub now : ℕ

abbrev pub respond : {A : Type 0} → Result Error A → (A → Response) → Response
respond (Types.Result.ok a) f = f a
respond (Types.Result.err e) f = Types.Response.error e

unfoldable pub dispatch : Daemon → Request → Instances → World → Response × (Instances × World)
dispatch d Types.Request.ping m w = (
  Types.Response.pong (record {
    daemon_version = d.daemon_version;
    protocol_version = protocol_version;
    pid = d.pid;
  }),
  (m, w),
)
dispatch d (Types.Request.start req) m w =
    let (r, st) = Spawn.start d.env req m w in (respond r Types.Response.started, st)
dispatch d (Types.Request.stop id) m w =
    let (r, st) = stop_instance d.env.host id m w in (respond r (λ u. Types.Response.stopped), st)
dispatch d (Types.Request.status id) m w = (respond (status_of id m) Types.Response.status, (m, w))
dispatch d (Types.Request.logs req) m w =
    (respond (logs_of d.now req m) Types.Response.logs, (m, w))
dispatch d (Types.Request.bridge_stats id) m w =
    (respond (bridge_stats_of id m) Types.Response.bridge_stats, (m, w))
dispatch d Types.Request.shutdown m w = (Types.Response.shutting_down, shutdown_all d.env.host m w)

abbrev pub is_shutdown : Request → Bool
is_shutdown Types.Request.shutdown = true
is_shutdown Types.Request.ping = false
is_shutdown (Types.Request.start req) = false
is_shutdown (Types.Request.stop id) = false
is_shutdown (Types.Request.status id) = false
is_shutdown (Types.Request.logs req) = false
is_shutdown (Types.Request.bridge_stats id) = false

-- What a connection leaves: the error if there is one, what was written, whether the daemon is told to
-- exit, and the state.
pub record Served : Type 0 where
  pub failed : Option FrameError
  pub out : Sink
  pub exits : Bool
  pub state : Instances × World

module _ (requests : Codec Request) (responses : Codec Response) (d : Daemon) where
  -- The exit is signalled only when the response has been written.
  unfoldable pub answer : Request → Sink → Instances → World → Served
  answer request out m w =
      let (response, st) = dispatch d request m w in
      elim (write_frame responses response out) [
        | err e ↦ record { failed = some e; out = out; exits = false; state = st }
        | ok out' ↦ record { failed = none; out = out'; exits = is_shutdown request; state = st }
      ]

  unfoldable pub handle_connection : Source → Sink → Instances → World → Served
  handle_connection stream out m w = elim (read_frame requests stream) [
    | err e ↦ record { failed = some e; out = out; exits = false; state = (m, w) }
    | ok (none, rest) ↦ record { failed = none; out = out; exits = false; state = (m, w) }
    | ok (some request, rest) ↦ answer request out m w
  ]
