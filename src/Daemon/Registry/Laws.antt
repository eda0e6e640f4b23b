-- ===== src/Daemon/Registry/Laws.antt =====
-- crates/hwwctl/src/daemon/registry.rs: looking up, stopping and shutting down.
use hwwctl.Prelude.{
  ℕ, ◌≡◌, refl, sym, ◌∙◌, ap, List, [], ◌∷◌, map, All, text_eq, text_eq_refl, text_eq→eq, Bool,
  true, false, ◌||◌, none, some, inl, inr, Bool-cases, Option-cases, arith,
}
use hwwctl.Control.Types.{InstanceId, ok, StartRequest}
use hwwctl.Emulators.World.{Host, World, remove_child_head, stop_child}
use hwwctl.Emulators.Generic as Emulator
use hwwctl.Bridge.Generic as Bridge
use hwwctl.Bridge.Generic.{remove_device_head}
use hwwctl.Daemon.Instance.{Instance}
use hwwctl.Daemon.Spawn as Spawn
use hwwctl.Daemon.Spawn.{Instances, get, insert, SpawnEnv}
use hwwctl.Daemon.Spawn.Stages.{Same, IsRegistered}
use hwwctl.Daemon.Registry.Owned.{remove_absent}
use hwwctl.Daemon.Registry.{remove, stop_bridge, stop_instance, stop_all, shutdown_all}

pub get-insert : (id : InstanceId) (i : Instance) (m : Instances) → get id (insert id i m) ≡ some i
unfolding get insert
get-insert id i [] = ground (arith, text_eq_refl id)
get-insert id i ((k, j) ∷ m) = ground (arith, text_eq_refl id, get-insert id i m)

pub get-remove : (id : InstanceId) (m : Instances) → get id (remove id m) ≡ none
unfolding get remove
get-remove id [] = refl
get-remove id ((k, j) ∷ m) = ground (arith, get-remove id m)

pub get-remove_other :
    (id other : InstanceId) (m : Instances)
    → text_eq id other ≡ false
    → get other (remove id m) ≡ get other m
unfolding get remove
get-remove_other id other [] h = refl
get-remove_other id other ((k, j) ∷ m) h = elim (Bool-cases (text_eq k id)) [
  | inr kept ↦ ground (arith, kept, get-remove_other id other m h)
  | inl gone ↦
      let same : k ≡ id = text_eq→eq k id gone in
      ground (arith, gone, get-remove_other id other m h, same)
]

stop_instance-instances :
    (h : Host) (id : InstanceId) (m : Instances) (w : World)
    → (stop_instance h id m w).1.0 ≡ remove id m
unfolding stop_instance remove
stop_instance-instances h id m w = elim (Option-cases (get id m)) [
  | inl absent ↦ rw (absent, stop_instance) (sym (remove_absent id m absent))
  | inr (i, found) ↦ rw (found, stop_instance) refl
]

stop_instance-ok :
    (h : Host) (id : InstanceId) (m : Instances) (w : World) → (stop_instance h id m w).0 ≡ ok tt
unfolding stop_instance
stop_instance-ok h id m w = elim (Option-cases (get id m)) [
  | inl absent ↦ rw (absent, stop_instance) refl
  | inr (i, found) ↦ rw (found, stop_instance) refl
]

-- A stop always succeeds. The id is then unknown, every other id is registered as before, and a second
-- stop of the same id changes nothing at all.
pub stop_instance_lem :
    (h : Host) (id : InstanceId) (m : Instances) (w : World)
    → let (r, (m', w')) = stop_instance h id m w in
      (r ≡ ok tt)
      × (get id m' ≡ none)
      × ((other : InstanceId) → text_eq id other ≡ false → get other m' ≡ get other m)
      × (stop_instance h id m' w' ≡ (ok tt, (m', w')))
unfolding stop_instance
stop_instance_lem h id m w =
    let unknown : get id (stop_instance h id m w).1.0 ≡ none =
      ap (get id) (stop_instance-instances h id m w) ∙ get-remove id m in
    (
      stop_instance-ok h id m w,
      unknown,
      λ other ne.
          ap (get other) (stop_instance-instances h id m w) ∙ get-remove_other id other m ne,
      rw (unknown, stop_instance) refl,
    )

abbrev member : InstanceId → List InstanceId → Bool
member k [] = false
member k (x ∷ xs) = text_eq k x || member k xs

abbrev AllIn : List InstanceId → Instances → Type 0
AllIn ids m = All (λ (k, i). member k ids ≡ true) m

AllIn-remove :
    (id : InstanceId) (ids : List InstanceId) (m : Instances)
    → AllIn (id ∷ ids) m
    → AllIn ids (remove id m)
unfolding remove
AllIn-remove id ids [] h = tt
AllIn-remove id ids ((k, i) ∷ m) (h, hs) = elim (Bool-cases (text_eq k id)) [
  | inl gone ↦ rw (gone, remove) (AllIn-remove id ids m hs)
  | inr kept ↦ rw (kept, remove) (ground (arith, h, kept), AllIn-remove id ids m hs)
]

AllIn-none : (m : Instances) → AllIn [] m → m ≡ []
AllIn-none [] h = refl
AllIn-none ((k, i) ∷ m) (h, hs) = absurd cc

stop_all-empty :
    (h : Host) (ids : List InstanceId) (m : Instances) (w : World)
    → AllIn ids m
    → (stop_all h ids m w).0 ≡ []
unfolding stop_all
stop_all-empty h [] m w all = AllIn-none m all
stop_all-empty h (id ∷ ids) m w all =
    stop_all-empty h ids _ _ (rw (stop_instance-instances h id m w) (AllIn-remove id ids m all))

AllIn-more :
    (id : InstanceId) (ids : List InstanceId) (m : Instances) → AllIn ids m → AllIn (id ∷ ids) m
AllIn-more id ids [] h = tt
AllIn-more id ids ((k, i) ∷ m) (h, hs) = (ground (arith, h), AllIn-more id ids m hs)

AllIn-keys : (m : Instances) → AllIn (map (λ (id, inst). id) m) m
AllIn-keys [] = tt
AllIn-keys ((k, i) ∷ m) =
    (ground (arith, text_eq_refl k), AllIn-more k (map (λ (id, inst). id) m) m (AllIn-keys m))

-- A shutdown leaves no instance registered, and a second one then changes nothing.
pub shutdown_all-empty :
    (h : Host) (m : Instances) (w : World)
    → let (m', w') = shutdown_all h m w in (m' ≡ []) × (shutdown_all h m' w' ≡ (m', w'))
unfolding shutdown_all
shutdown_all-empty h m w =
    let empty = stop_all-empty h (map (λ (id, inst). id) m) m w (AllIn-keys m) in
    (empty, rw empty (unfold stop_all in refl))

stopped :
    (h : Host) (i : Instance) (pid : ℕ) (b : Bridge.GenericBridge) (w w' : World)
    → i.emulator.child ≡ some pid
    → w'.children ≡ pid ∷ w.children
    → w'.devices ≡ i.serial ∷ w.devices
    → i.bridge ≡ some b
    → b.shutdown_tx ≡ 2
    → b.config.serial ≡ i.serial
    → Same w (Emulator.stop h i.emulator (stop_bridge i.bridge w')).1
unfolding stop_bridge Bridge.stop Bridge.drop_senders Emulator.stop stop_child
stopped h i pid b w w' held more dev has two ser = ground (
  arith,
  held,
  more,
  dev,
  has,
  two,
  ser,
  remove_child_head pid w.children,
  remove_device_head i.serial w.devices,
)

-- An instance that `start` registered answers to its id, and stopping it leaves the processes and the
-- devices as they were before it was started.
pub stop_instance-start :
    (h : Host) (env : SpawnEnv) (req : StartRequest) (m : Instances) (w : World)
    → IsRegistered m w (Spawn.start env req m w)
    → let (r, (m', w')) = Spawn.start env req m w in
      (i : Instance) × (get i.id m' ≡ some i) × Same w (stop_instance h i.id m' w').1.1
unfolding stop_instance
stop_instance-start h env req m w (i, pid, r, put, held, more, dev, b, has, two, ser) =
    let found : get i.id (Spawn.start env req m w).1.0 ≡ some i =
      ap (get i.id) put ∙ get-insert i.id i m in
    (i, found, rw (found, stop_instance) (stopped h i pid b w _ held more dev has two ser))
