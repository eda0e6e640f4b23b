-- ===== src/Daemon/Registry.antt =====
-- crates/hwwctl/src/daemon/registry.rs: the actor that owns all instances. The map is an association
-- list; the order in which `status` lists the instances is the list's, the code leaves it open. A channel
-- that is closed is not modelled: the actor runs as long as the daemon.
pub mod Laws
pub mod Owned
pub mod Contents
pub mod Released
pub mod Invariant
use hwwctl.Prelude.{
  ℕ, List, [], ◌∷◌, ◌++◌, map, Text, codes, text_eq, Bool, true, false, Option, none, some,
  if◌then◌else◌,
}
use hwwctl.Control.Types.{
  InstanceId, InstanceSummary, LogEntry, LogsRequest, BridgeStatsSnapshot, Error, Message, text,
  instance_not_found, StartRequest, Result, ok, err,
}
use hwwctl.Control.Types as Types
use hwwctl.Emulators.World.{Host, World}
use hwwctl.Emulators.Generic as Emulator
use hwwctl.Bridge.Generic as Bridge
use hwwctl.Bridge.Generic.{GenericBridge}
use hwwctl.Daemon.Instance.{Instance, summary, snapshot, collect_logs}
use hwwctl.Daemon.Spawn as Spawn
use hwwctl.Daemon.Spawn.{Instances, get, SpawnEnv}

unfoldable pub remove : InstanceId → Instances → Instances
remove id [] = []
remove id ((k, i) ∷ m) = let rest = remove id m in if text_eq k id then rest else (k, i) ∷ rest

-- `bridge.stop()`, if there is a bridge
unfoldable pub stop_bridge : Option GenericBridge → World → World
stop_bridge none w = w
stop_bridge (some b) w = (Bridge.stop b w).1

-- An unknown id is no error.
unfoldable pub stop_instance :
    Host → InstanceId → Instances → World → Result Error (Unit {0}) × (Instances × World)
stop_instance h id instances w = elim (get id instances) [
  | none ↦ (ok tt, (instances, w))
  | some inst ↦
      (ok tt, (remove id instances, (Emulator.stop h inst.emulator (stop_bridge inst.bridge w)).1))
]

abbrev no_instance : InstanceId → Error
no_instance id = record {
  code = instance_not_found;
  message = text (codes "no instance with id '" ++ (id ++ codes "'"));
}

unfoldable pub status_of : Option InstanceId → Instances → Result Error (List InstanceSummary)
status_of none instances = ok (map (λ (id, inst). summary inst) instances)
status_of (some id) instances = elim (get id instances) [
  | some inst ↦ ok (summary inst ∷ [])
  | none ↦ err (no_instance id)
]

unfoldable pub logs_of : ℕ → LogsRequest → Instances → Result Error (List LogEntry)
logs_of now req instances = elim (get req.instance_id instances) [
  | some inst ↦ ok (collect_logs now req.source req.tail inst)
  | none ↦ err (no_instance req.instance_id)
]

unfoldable pub bridge_stats_of : InstanceId → Instances → Result Error BridgeStatsSnapshot
bridge_stats_of id instances = elim (get id instances) [
  | some inst ↦ ok (snapshot inst.bridge_stats inst.id)
  | none ↦ err (no_instance id)
]

unfoldable pub stop_all : Host → List InstanceId → Instances → World → Instances × World
stop_all h [] instances w = (instances, w)
stop_all h (id ∷ ids) instances w =
    let (instances', w') = (stop_instance h id instances w).1 in stop_all h ids instances' w'

-- Every id that is registered at the time is stopped.
unfoldable pub shutdown_all : Host → Instances → World → Instances × World
shutdown_all h instances w = stop_all h (map (λ (id, inst). id) instances) instances w

pub data Command : Type 0 where
  start : SpawnEnv → StartRequest → Command
  stop : InstanceId → Command
  status : Option InstanceId → Command
  logs : ℕ → LogsRequest → Command
  bridge_stats : InstanceId → Command
  shutdown : Command

pub data Reply : Type 0 where
  started : Result Error InstanceSummary → Reply
  stopped : Result Error (Unit {0}) → Reply
  listed : Result Error (List InstanceSummary) → Reply
  logged : Result Error (List LogEntry) → Reply
  counted : Result Error BridgeStatsSnapshot → Reply
  drained : Reply

-- One round of `run_loop`: the command, the reply, and the state after it.
unfoldable pub handle : Host → Command → Instances → World → Reply × (Instances × World)
handle h (Command.start env req) instances w =
    let (r, st) = Spawn.start env req instances w in (started r, st)
handle h (Command.stop id) instances w =
    let (r, st) = stop_instance h id instances w in (stopped r, st)
handle h (Command.status id) instances w = (listed (status_of id instances), (instances, w))
handle h (Command.logs now req) instances w = (logged (logs_of now req instances), (instances, w))
handle h (Command.bridge_stats id) instances w =
    (counted (bridge_stats_of id instances), (instances, w))
handle h Command.shutdown instances w = (drained, shutdown_all h instances w)

unfoldable pub run_loop : Host → List Command → Instances → World → List Reply × (Instances × World)
run_loop h [] instances w = ([], (instances, w))
run_loop h (cmd ∷ cmds) instances w =
    let (reply, (instances', w')) = handle h cmd instances w in
    let (replies, st) = run_loop h cmds instances' w' in (reply ∷ replies, st)
