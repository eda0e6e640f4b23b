-- ===== src/Daemon/Serve/Exit.antt =====
-- crates/hwwctl/src/daemon/mod.rs: how a shutdown ends the daemon, and when it does not.
use hwwctl.Prelude.{ℕ, ◌≡◌, refl, ◌∙◌, ap, [], ◌∷◌, Bool, true, false, none, some, inl, inr}
use hwwctl.Control.Types.{StartRequest, InstanceSummary, ok}
use hwwctl.Emulators.World.{Host, World}
use hwwctl.Daemon.Spawn as Spawn
use hwwctl.Daemon.Spawn.{Instances, SpawnEnv, get}
use hwwctl.Daemon.Spawn.Laws.{start-IsClean}
use hwwctl.Daemon.Registry.{Command, handle, shutdown_all}
use hwwctl.Daemon.Registry as Registry
use hwwctl.Daemon.Registry.Laws.{shutdown_all-empty}
use hwwctl.Daemon.Registry.Invariant.{Owned}
use hwwctl.Daemon.Serve.{
  Startup, Main, waits, accepted, woken, serves, tells, leave, serve, notify, tell, on_event, step,
  run,
}

-- A daemon that runs, with its loop waiting or not.
abbrev pub up : Bool → ℕ → Instances → World → Main
up waiting n m w = record {
  instances = m;
  world = w;
  waiting = waiting;
  notified = false;
  draining = n;
  socket_file = true;
  exit_code = none;
}

-- Where a connection has come in before the loop is told, the loop goes on to wait: the client has the
-- answer that the daemon is shutting down, every instance is gone, and the daemon stays.
pub run-shutdown-accepted :
    (su : Startup) (h : Host) (n : ℕ) (m : Instances) (w : World)
    → run su h
        (accepted ∷ serves Registry.Command.shutdown ∷ tells true ∷ waits ∷ [])
        (up true n m w)
      ≡ up true n [] (shutdown_all h m w).1
unfolding run step on_event serve handle tell notify
run-shutdown-accepted su h n m w =
    ap (λ m'. up true n m' (shutdown_all h m w).1) (shutdown_all-empty h m w).0

-- Where the loop waits as a shutdown's response is written, and its `select!` then takes a connection and
-- drops the notification, the daemon stays: every instance is gone, and the loop waits on.
pub run-shutdown-select :
    (su : Startup) (h : Host) (n : ℕ) (m : Instances) (w : World)
    → run su h
        (serves Registry.Command.shutdown ∷ tells true ∷ accepted ∷ waits ∷ [])
        (up true n m w)
      ≡ up true n [] (shutdown_all h m w).1
unfolding run step on_event serve handle tell notify
run-shutdown-select su h n m w =
    ap (λ m'. up true n m' (shutdown_all h m w).1) (shutdown_all-empty h m w).0

started :
    (env : SpawnEnv) (req : StartRequest) (i : InstanceSummary) (w : World)
    → (Spawn.start env req [] w).0 ≡ ok i
    → (pid : ℕ) × ((Spawn.start env req [] w).1.1.children ≡ pid ∷ w.children)
started env req i w works = elim (start-IsClean env req [] w (unfold get in refl)) [
  | inl (e, fails, kept, same) ↦ absurd cc
  | inr (j, pid, answer, put, held, more, dev, b, has, two, ser) ↦ (pid, more)
]

-- A start that the registry serves after it has drained, and before the loop is told, leaves its process
-- behind: the daemon leaves with code 0, and the system has one process more than after the drain.
pub run-shutdown-start :
    (su : Startup) (h : Host) (env : SpawnEnv) (req : StartRequest) (i : InstanceSummary) (n : ℕ)
    (m : Instances) (w : World)
    → (Spawn.start env req [] (shutdown_all h m w).1).0 ≡ ok i
    → let s =
        run su h
          (serves Registry.Command.shutdown
            ∷ serves (Registry.Command.start env req)
            ∷ tells true
            ∷ woken
            ∷ [])
          (up true n m w) in
      (pid : ℕ) × (s.exit_code ≡ some 0)
      × (s.world.children ≡ pid ∷ (shutdown_all h m w).1.children)
unfolding run step on_event serve handle tell notify leave
run-shutdown-start su h env req i n m w works =
    let w' = (shutdown_all h m w).1 in
    let (pid, more) = started env req i w' works in
    (
      pid,
      refl,
      ap (λ m'. (Spawn.start env req m' w').1.1.children) (shutdown_all-empty h m w).0 ∙ more,
    )
