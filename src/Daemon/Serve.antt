-- ===== src/Daemon/Serve.antt =====
-- crates/hwwctl/src/daemon/mod.rs: `run`, the daemon from its start to its exit. Its tasks are the loop
-- that accepts, one for each connection, the one that waits for a signal, and the registry's actor; an
-- `Event` is what one of them does next. `Server` has what a connection's task does with its stream.
pub mod Laws
pub mod Exit
use hwwctl.Prelude.{
  ℕ, zero, suc, List, [], ◌∷◌, Text, Bool, true, false, Option, none, some, if◌then◌else◌,
}
use hwwctl.Emulators.World.{Host, World}
use hwwctl.Daemon.Spawn.{Instances}
use hwwctl.Daemon.Registry.{Command, handle}
use hwwctl.Daemon.Registry as Registry

-- What the system answers, before the loop and, with `cleanup`, after it: an error's text, or nothing. A
-- socket whose mode cannot be set is only logged.
pub record Startup : Type 0 where
  pub init_logging : Option Text
  pub socket_exists : Bool
  pub remove_file : Option Text
  pub bind : Option Text
  pub cleanup : Option Text

-- `waiting` tells whether the loop stands in its `select!`, where alone `notify_waiters` reaches it;
-- `notified` whether it has, and the loop has not yet been woken;
-- `draining` counts the tasks whose shutdown the registry has done and that have not yet told the loop.
-- After the exit nothing of the daemon runs; its child processes stay.
pub record Main : Type 0 where
  pub instances : Instances
  pub world : World
  pub waiting : Bool
  pub notified : Bool
  pub draining : ℕ
  pub socket_file : Bool
  pub exit_code : Option ℕ

abbrev pub begin : World → Bool → Option ℕ → Main
begin w socket_file code = record {
  instances = [];
  world = w;
  waiting = false;
  notified = false;
  draining = 0;
  socket_file = socket_file;
  exit_code = code;
}

unfoldable pub listen : Startup → World → Main
listen s w = elim s.bind [ some msg ↦ begin w false (some 2) | none ↦ begin w true none ]

-- Up to the loop. A stale socket is removed before the daemon binds.
unfoldable pub prepare : Startup → World → Main
prepare s w = elim s.init_logging [
  | some msg ↦ begin w s.socket_exists (some 2)
  | none ↦
      if s.socket_exists
      then (elim s.remove_file [ some msg ↦ begin w true (some 2) | none ↦ listen s w ])
      else listen s w
]

-- The loop goes round; its `select!` takes a connection, an `accept` that failed, or the notification;
-- the registry serves a command of a task; a task that has done a shutdown tells the loop, or its
-- response could not be written. What the threads of a bridge do is no event here.
pub data Event : Type 0 where
  waits accepted accept_failed woken : Event
  serves : Command → Event
  tells : Bool → Event

-- The socket file is removed on the way out. Where that fails it stays, and the exit code is 0 as well.
unfoldable pub leave : Startup → Main → Main
leave su s = record s {
  exit_code = some 0;
  socket_file = elim su.cleanup [ some msg ↦ s.socket_file | none ↦ false ];
  waiting = false;
  notified = false;
}

abbrev drains : Command → ℕ → ℕ
drains Registry.Command.shutdown n = suc n
drains (Registry.Command.start env req) n = n
drains (Registry.Command.stop id) n = n
drains (Registry.Command.status id) n = n
drains (Registry.Command.logs now req) n = n
drains (Registry.Command.bridge_stats id) n = n

unfoldable pub serve : Host → Command → Main → Main
serve h cmd s =
    let (instances', world') = (handle h cmd s.instances s.world).1 in
    record s { instances = instances'; world = world'; draining = drains cmd s.draining }

-- `notify_waiters` reaches the loop only where it waits, and leaves nothing for later.
unfoldable pub notify : Bool → Main → Main
notify true s = if s.waiting then record s { notified = true } else s
notify false s = s

unfoldable pub tell : Bool → Main → Main
tell written s = elim s.draining [ zero ↦ s | suc n ↦ notify written (record s { draining = n }) ]

-- A `select!` that takes another branch drops its `notified` future, and with it a notification that it
-- has had.
unfoldable pub on_event : Startup → Host → Event → Main → Main
on_event su h waits s = record s { waiting = true }
on_event su h accepted s = record s { waiting = false; notified = false }
on_event su h accept_failed s = if s.waiting then leave su s else s
on_event su h woken s = if s.notified then leave su s else s
on_event su h (serves cmd) s = serve h cmd s
on_event su h (tells written) s = tell written s

unfoldable pub step : Startup → Host → Event → Main → Main
step su h e s = elim s.exit_code [ some code ↦ s | none ↦ on_event su h e s ]

unfoldable pub run : Startup → Host → List Event → Main → Main
run su h [] s = s
run su h (e ∷ es) s = run su h es (step su h e s)
