-- ===== src/Daemon/Spawn/Stages.antt =====
-- crates/hwwctl/src/daemon/spawn.rs: the steps of a start behind the emulator's own.
use hwwctl.Prelude.{
  ℕ, ◌≡◌, refl, ◌∙◌, ap, ◌∷◌, Text, false, Option, none, some, ◌⊎◌, inl, inr, Bool-cases,
  Option-cases, arith,
}
use hwwctl.Control.Mnemonic.{normalize_mnemonic}
use hwwctl.Control.Mnemonic as Mnemonic
use hwwctl.Control.Types.{InstanceId, Error, ErrorCode, Result, ok, err}
use hwwctl.Emulators as Emulators
use hwwctl.Emulators.World.{Host, World, remove_child_head, stop_child}
use hwwctl.Emulators.Generic as Emulator
use hwwctl.Emulators.Generic.{GenericEmulator}
use hwwctl.Bridge.Generic as Bridge
use hwwctl.Bridge.Generic.{GenericBridge, GenericBridgeConfig}
use hwwctl.Bridge.Lifecycle as BridgeLife
use hwwctl.Bridge.Lifecycle.{add_device}
use hwwctl.Daemon.Instance.{Instance, summary}
use hwwctl.Daemon.Spawn.{
  Instances, get, insert, drop_replaced, SpawnEnv, Started, Plan, give_up, attach_bridge,
  bridge_config, instance_of, wrong_seed, seed_emulator, check_status,
}

-- The same processes and devices.
abbrev pub Same : World → World → Type 0
Same w w' = (w'.children ≡ w.children) × (w'.devices ≡ w.devices)

-- An error that leaves no process, no device and no instance behind.
abbrev pub IsRefused : Instances → World → Started → Type 0
IsRefused m w out = (e : Error) × (out.0 ≡ err e) × (out.1.0 ≡ m) × Same w out.1.1

-- A new instance is registered under its id and owns the one new process and the one new device.
abbrev pub IsRegistered : Instances → World → Started → Type 0
IsRegistered m w out =
    (i : Instance) × (pid : ℕ) × (out.0 ≡ ok (summary i))
    × (out.1.0 ≡ insert i.id i m)
    × (i.emulator.child ≡ some pid)
    × (out.1.1.children ≡ pid ∷ w.children)
    × (out.1.1.devices ≡ i.serial ∷ w.devices)
    × (b : GenericBridge) × (i.bridge ≡ some b)
    × (b.shutdown_tx ≡ 2)
    × (b.config.serial ≡ i.serial)

abbrev pub IsClean : Instances → World → Started → Type 0
IsClean m w out = IsRefused m w out ⊎ IsRegistered m w out

-- A running instance: its process, and the bridge that keeps its device.
pub record IsLive (i : Instance) : Type 0 where
  pub pid : ℕ
  pub held : i.emulator.child ≡ some pid
  pub bridge : GenericBridge
  pub attached : i.bridge ≡ some bridge
  pub senders : bridge.shutdown_tx ≡ 2
  pub serial : bridge.config.serial ≡ i.serial

-- What was asked for, and what seeding the simulator at a port answers.
pub record Asked : Type 0 where
  pub seeding : ℕ → Result Text Text
  pub id : InstanceId
  pub mnemonic : Option Text

-- The simulator has taken a seed, and it is not its own where another was asked for.
pub record IsSeeded (a : Asked) : Type 0 where
  pub port : ℕ
  pub fingerprint : Text
  pub seeded : a.seeding port ≡ ok fingerprint
  pub right : wrong_seed a.mnemonic fingerprint ≡ false

-- The same where the id may be taken: the instance that had it is dropped after the new one is there.
pub record Replaces (a : Asked) (m : Instances) (w : World) (out : Started) : Type 0 where
  pub inst : Instance
  pub live : IsLive inst
  pub named : inst.id ≡ a.id
  pub seed : IsSeeded a
  pub answer : out.0 ≡ ok (summary inst)
  pub registry : out.1.0 ≡ insert inst.id inst m
  pub between : World
  pub after : out.1.1 ≡ drop_replaced (get inst.id m) between
  pub children : between.children ≡ live.pid ∷ w.children
  pub devices : between.devices ≡ inst.serial ∷ w.devices

abbrev pub IsSettled : Asked → Instances → World → Started → Type 0
IsSettled a m w out = IsRefused m w out ⊎ Replaces a m w out

-- The emulator owns the one process that `w'` has more than `w`.
pub record Owns (emu : GenericEmulator) (w w' : World) : Type 0 where
  pub pid : ℕ
  pub held : emu.child ≡ some pid
  pub more : w'.children ≡ pid ∷ w.children
  pub same : w'.devices ≡ w.devices

stop-Owns :
    (h : Host) (emu : GenericEmulator) (w w' : World)
    → Owns emu w w'
    → Same w (Emulator.stop h emu w').1
unfolding Emulator.stop stop_child
stop-Owns h emu w w' o = ground (arith, o.held, o.more, o.same, remove_child_head o.pid w.children)

pub Result-cases :
    {E A : Type 0} (r : Result E A) → ((a : A) × (r ≡ ok a)) ⊎ ((e : E) × (r ≡ err e))
Result-cases (ok a) = inl (a, refl)
Result-cases (err e) = inr (e, refl)

pub Normalized-cases :
    (r : Mnemonic.Normalized)
    → ((t : Text) × (r ≡ Mnemonic.Normalized.ok t))
      ⊎ ((e : Mnemonic.MnemonicError) × (r ≡ Mnemonic.Normalized.err e))
Normalized-cases (Mnemonic.Normalized.ok t) = inl (t, refl)
Normalized-cases (Mnemonic.Normalized.err e) = inr (e, refl)

give_up-IsRefused :
    (env : SpawnEnv) (emu : GenericEmulator) (c : ErrorCode) (msg : Text) (m : Instances)
    (w w' : World)
    → Owns emu w w'
    → IsRefused m w (give_up env emu c msg m w')
unfolding give_up
give_up-IsRefused env emu c msg m w w' o = (_, refl, refl, stop-Owns env.host emu w w' o)

module _ (env : SpawnEnv) (p : Plan) (emu : GenericEmulator) (m : Instances) (w w' : World)
    (o : Owns emu w w') where
  abbrev asked : Asked
  asked = record { seeding = env.seed; id = p.id; mnemonic = p.mnemonic }

  abbrev attempt_bridge : Option Text × (Bridge.GenericBridge × World)
  attempt_bridge = Bridge.start env.peer (Bridge.new (bridge_config p)) w'

  attach_fails :
      (msg : Text) → attempt_bridge.0 ≡ some msg → IsRefused m w (attach_bridge env p emu m w')
  unfolding attach_bridge Bridge.start Bridge.new
  attach_fails msg e =
      rw (e, (BridgeLife.drop_senders-start env.peer (bridge_config p) w').0)
        (give_up-IsRefused env emu _ _ m w w' o)

  attach_works :
      IsSeeded asked → attempt_bridge.0 ≡ none → Replaces asked m w (attach_bridge env p emu m w')
  unfolding attach_bridge instance_of bridge_config Bridge.new_config Bridge.with_serial
      Bridge.start summary Bridge.new
  attach_works seed e = elim (BridgeLife.start_lem env.peer (bridge_config p) w') [
    | inl (msg, eq) ↦ absurd cc
    | inr (added, on, senders, kept) ↦ rw e (record {
      inst = instance_of env p emu attempt_bridge.1.0;
      live = record {
        pid = o.pid;
        held = o.held;
        bridge = attempt_bridge.1.0;
        attached = refl;
        senders = senders;
        serial = ap GenericBridgeConfig.serial kept;
      };
      named = refl;
      seed = seed;
      answer = refl;
      registry = refl;
      between = attempt_bridge.1.1;
      after = refl;
      children = ap World.children added ∙ o.more;
      devices = ap World.devices added ∙ ap (λ ds. p.serial ∷ ds) o.same;
    })
  ]

  attach_bridge-IsSettled : IsSeeded asked → IsSettled asked m w (attach_bridge env p emu m w')
  attach_bridge-IsSettled seed = elim (Option-cases attempt_bridge.0) [
    | inl works ↦ inr (attach_works seed works)
    | inr (msg, fails) ↦ inl (attach_fails msg fails)
  ]

  seed_emulator-IsSettled : IsSettled asked m w (seed_emulator env p emu m w')
  unfolding seed_emulator
  seed_emulator-IsSettled = elim (Result-cases (env.seed p.port)) [
    | inr (msg, fails) ↦ rw (fails, seed_emulator) (inl (give_up-IsRefused env emu _ _ m w w' o))
    | inl (fingerprint, seeded) ↦
        rw (seeded, seed_emulator)
          (elim (Bool-cases (wrong_seed p.mnemonic fingerprint)) [
            | inl wrong ↦ rw wrong (inl (give_up-IsRefused env emu _ _ m w w' o))
            | inr right ↦ rw right (
                attach_bridge-IsSettled (record {
                  port = p.port;
                  fingerprint = fingerprint;
                  seeded = seeded;
                  right = right;
                }))
          ])
  ]

  pub check_status-IsSettled :
      (s : Emulators.EmulatorStatus) → IsSettled asked m w (check_status s env p emu m w')
  unfolding check_status
  check_status-IsSettled Emulators.EmulatorStatus.running = seed_emulator-IsSettled
  check_status-IsSettled (Emulators.EmulatorStatus.error msg) =
      inl (give_up-IsRefused env emu _ _ m w w' o)
  check_status-IsSettled Emulators.EmulatorStatus.stopped =
      inl (give_up-IsRefused env emu _ _ m w w' o)
  check_status-IsSettled Emulators.EmulatorStatus.starting =
      inl (give_up-IsRefused env emu _ _ m w w' o)
