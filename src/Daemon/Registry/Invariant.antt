-- ===== src/Daemon/Registry/Invariant.antt =====
-- crates/hwwctl/src/daemon/registry.rs: every command keeps the processes and the devices in the hands
-- of the instances.
use hwwctl.Prelude.{
  ℕ, ◌+◌, ◌≡◌, ◌∙◌, ap, List, [], ◌∷◌, map, All, Text, some, inl, inr, Option-cases, arith,
}
use hwwctl.Control.Types.{InstanceId, StartRequest}
use hwwctl.Emulators.World.{Host, World}
use hwwctl.Daemon.Instance.{Instance}
use hwwctl.Daemon.Spawn as Spawn
use hwwctl.Daemon.Spawn.{Instances, get, insert, drop_replaced, SpawnEnv, new_id}
use hwwctl.Daemon.Spawn.Stages.{Asked, IsLive, Replaces}
use hwwctl.Daemon.Spawn.Laws.{start-IsSettled}
use hwwctl.Daemon.Registry.{stop_instance, stop_all, shutdown_all, Command, handle, run_loop}
use hwwctl.Daemon.Registry.Laws.{shutdown_all-empty}
use hwwctl.Daemon.Registry.Contents.{
  IsLive-get, IsLive-insert, IsLive-remove, Distinct-insert, Distinct-remove,
}
use hwwctl.Daemon.Registry.Owned.{
  one, children_with, devices_with, children_with_cons, devices_with_cons, is_child, holds, shows,
  tally, tally_at, tally-insert, Distinct, tally-remove,
}
use hwwctl.Daemon.Registry.Released.{
  Released-children, Released-devices, stop-Released, dropped_children, dropped_devices,
}

-- Beside the processes and the devices of `base`, the world has exactly those of the instances; each
-- instance runs, and each id stands once.
pub record Owned (base : World) (m : Instances) (w : World) : Type 0 where
  pub live : All (λ (k, i). IsLive i) m
  pub distinct : Distinct m
  pub children :
      (p : ℕ) → children_with p w.children ≡ tally (holds p) m + children_with p base.children
  pub devices :
      (s : Text) → devices_with s w.devices ≡ tally (shows s) m + devices_with s base.devices

stop_instance-Owned :
    (base : World) (h : Host) (id : InstanceId) (m : Instances) (w : World)
    → Owned base m w
    → let (m', w') = (stop_instance h id m w).1 in Owned base m' w'
unfolding stop_instance
stop_instance-Owned base h id m w o = elim (Option-cases (get id m)) [
  | inl absent ↦ rw (absent, stop_instance) o
  | inr (i, found) ↦
      let l : IsLive i = IsLive-get id i m o.live found in
      let r = stop-Released h i l w in
      rw (found, stop_instance)
        (record {
          live = IsLive-remove id m o.live;
          distinct = Distinct-remove id m o.distinct;
          children = λ p. omega (
            arith,
            Released-children p r,
            o.children p,
            tally-remove (holds p) id m o.distinct,
            ap (tally_at (holds p)) found,
          );
          devices = λ s. omega (
            arith,
            Released-devices s r,
            o.devices s,
            tally-remove (shows s) id m o.distinct,
            ap (tally_at (shows s)) found,
          );
        })
]

stop_all-Owned :
    (base : World) (h : Host) (ids : List InstanceId) (m : Instances) (w : World)
    → Owned base m w
    → let (m', w') = stop_all h ids m w in Owned base m' w'
unfolding stop_all
stop_all-Owned base h [] m w o = o
stop_all-Owned base h (id ∷ ids) m w o =
    stop_all-Owned base h ids _ _ (stop_instance-Owned base h id m w o)

Replaces-Owned :
    (base : World) (a : Asked) (m : Instances) (w : World) (out : Spawn.Started)
    → Owned base m w
    → Replaces a m w out
    → Owned base out.1.0 out.1.1
Replaces-Owned base a m w out o r =
    let alive : (j : Instance) → get r.inst.id m ≡ some j → IsLive j =
      λ j found. IsLive-get r.inst.id j m o.live found in
    rw (r.registry, r.after)
      (record {
        live = IsLive-insert r.inst.id r.inst m r.live o.live;
        distinct = Distinct-insert r.inst.id r.inst m o.distinct;
        children = λ p. omega (
          arith,
          dropped_children p (get r.inst.id m) r.between alive,
          ap (children_with p) r.children,
          children_with_cons p r.live.pid w.children,
          ap (λ c. one (is_child p c)) r.live.held,
          o.children p,
          tally-insert (holds p) r.inst.id r.inst m,
        );
        devices = λ s. omega (
          arith,
          dropped_devices s (get r.inst.id m) r.between alive,
          ap (devices_with s) r.devices,
          devices_with_cons s r.inst.serial w.devices,
          o.devices s,
          tally-insert (shows s) r.inst.id r.inst m,
        );
      })

start-Owned :
    (base : World) (env : SpawnEnv) (req : StartRequest) (m : Instances) (w : World)
    → Owned base m w
    → let (m', w') = (Spawn.start env req m w).1 in Owned base m' w'
start-Owned base env req m w o = elim (start-IsSettled env req m w) [
  | inl (e, answer, kept, (same_children, same_devices)) ↦ record {
    live = rw kept o.live;
    distinct = rw kept o.distinct;
    children = λ p. rw (kept, same_children) (o.children p);
    devices = λ s. rw (kept, same_devices) (o.devices s);
  }
  | inr r ↦ Replaces-Owned base _ m w _ o r
]

pub handle-Owned :
    (base : World) (h : Host) (cmd : Command) (m : Instances) (w : World)
    → Owned base m w
    → let (m', w') = (handle h cmd m w).1 in Owned base m' w'
unfolding handle shutdown_all
handle-Owned base h (Command.start env req) m w o = start-Owned base env req m w o
handle-Owned base h (Command.stop id) m w o = stop_instance-Owned base h id m w o
handle-Owned base h (Command.status id) m w o = o
handle-Owned base h (Command.logs now req) m w o = o
handle-Owned base h (Command.bridge_stats id) m w o = o
handle-Owned base h Command.shutdown m w o = stop_all-Owned base h (map (λ (id, inst). id) m) m w o

-- Whatever commands arrive, and whatever the system answers to them: beside the processes and the devices
-- that were there, there are exactly those of the registered instances, as many times each; every
-- registered instance has a process and a bridge with a device, and no id stands twice.
pub run_loop-Owned :
    (base : World) (h : Host) (cmds : List Command) (m : Instances) (w : World)
    → Owned base m w
    → let (m', w') = (run_loop h cmds m w).1 in Owned base m' w'
unfolding run_loop
run_loop-Owned base h [] m w o = o
run_loop-Owned base h (cmd ∷ cmds) m w o =
    run_loop-Owned base h cmds _ _ (handle-Owned base h cmd m w o)

pub nothing-Owned : (w : World) → Owned w [] w
unfolding tally
nothing-Owned w = record {
  live = tt;
  distinct = tt;
  children = λ p. omega arith;
  devices = λ s. omega arith;
}

pub Owned-empty :
    (base : World) (m : Instances) (w : World)
    → m ≡ []
    → Owned base m w
    → ((p : ℕ) → children_with p w.children ≡ children_with p base.children)
      × ((s : Text) → devices_with s w.devices ≡ devices_with s base.devices)
unfolding tally
Owned-empty base m w empty o = (
  λ p.
      o.children p
      ∙ (ap (λ m. tally (holds p) m + children_with p base.children) empty ∙ omega arith),
  λ s.
      o.devices s ∙ (ap (λ m. tally (shows s) m + devices_with s base.devices) empty ∙ omega arith),
)

-- A registry that starts empty and is shut down after any commands has no instance left, and the system
-- has every process and every device as many times as at the start.
pub run_loop-shutdown_all :
    (h : Host) (cmds : List Command) (w : World)
    → let (m', w') = (run_loop h cmds [] w).1 in
      let (m'', w'') = shutdown_all h m' w' in
      (m'' ≡ [])
      × ((p : ℕ) → children_with p w''.children ≡ children_with p w.children)
      × ((s : Text) → devices_with s w''.devices ≡ devices_with s w.devices)
unfolding shutdown_all
run_loop-shutdown_all h cmds w =
    let (m', w') = (run_loop h cmds [] w).1 in
    let empty = (shutdown_all-empty h m' w').0 in
    let (children, devices) = Owned-empty w _ _ empty (
      stop_all-Owned w h (map (λ (id, inst). id) m') m' w'
        (run_loop-Owned w h cmds [] w (nothing-Owned w))) in
    (empty, children, devices)
