-- ===== src/Daemon/Spawn/Laws.antt =====
-- crates/hwwctl/src/daemon/spawn.rs: a start either changes nothing or registers a running instance.
use hwwctl.Prelude.{
  ℕ, ◌≡◌, refl, ap, ◌∙◌, Text, false, Option, none, some, inl, inr, Bool-cases, Option-cases, codes,
  ◌++◌,
}
use hwwctl.Control.Wallet.{Wallet, trezor, bitbox02, coldcard, specter, ledger, jade}
use hwwctl.Control.Mnemonic.{normalize_mnemonic}
use hwwctl.Control.Mnemonic as Mnemonic
use hwwctl.Control.Types.{InstanceId, StartRequest, Error, err}
use hwwctl.Emulators.World.{World, add_child, drop_child}
use hwwctl.Emulators.Generic as Emulator
use hwwctl.Emulators.Generic.{GenericEmulator}
use hwwctl.Emulators.Lifecycle as EmulatorLife
use hwwctl.Daemon.Spawn.{
  Instances, get, new_id, SpawnEnv, Plan, launch, allocate, find_bundle, start_bitbox02,
  start_wallet, start, build_emulator, drop_replaced, Started,
}
use hwwctl.Daemon.Spawn.Stages.{
  Asked, IsClean, IsSettled, Result-cases, Normalized-cases, check_status-IsSettled,
}

abbrev asked : SpawnEnv → InstanceId → Option Text → Asked
asked env id words = record { seeding = env.seed; id = id; mnemonic = words }

-- The words as they are handed to the simulator.
abbrev normalized : Mnemonic.Normalized → Option Text
normalized (Mnemonic.Normalized.ok t) = some t
normalized (Mnemonic.Normalized.err e) = none

abbrev given : Option Text → Option Text
given none = none
given (some words) = normalized (normalize_mnemonic words)

abbrev pub words_asked : StartRequest → Option Text
words_asked req = given req.mnemonic

-- An outcome before anything was started.
refused_here : {a : Asked} (m : Instances) (w : World) (e : Error) → IsSettled a m w (err e, (m, w))
refused_here m w e = inl (e, refl, refl, (refl, refl))

module _ (env : SpawnEnv) (m : Instances) (w : World) where
  launch-IsSettled :
      (p : Plan) (emu : GenericEmulator)
      → Emulator.is_up emu.status ≡ false
      → emu.child ≡ none
      → IsSettled (asked env p.id p.mnemonic) m w (launch env p emu m w)
  unfolding launch drop_child add_child
  launch-IsSettled p emu down bare = elim (EmulatorLife.start_lem env.host emu w down bare) [
    | inl (msg, fails, same, none_held) ↦ rw (fails, none_held, same, launch) (refused_here m w _)
    | inr (pid, works, added, held) ↦
        rw (works, launch)
          (check_status-IsSettled env p (Emulator.start env.host emu w).1.0 m w
            (Emulator.start env.host emu w).1.1
            (record {
              pid = pid;
              held = held;
              more = ap World.children added;
              same = ap World.devices added;
            })
            _)
  ]

  built_down :
      (bin_path dir profile : Text) (secs : Option ℕ) (p : Plan) (words : Option Text)
      → p.mnemonic ≡ words
      → (Emulator.is_up (build_emulator bin_path dir profile secs p).status ≡ false)
        × ((build_emulator bin_path dir profile secs p).child ≡ none)
  unfolding build_emulator Emulator.new Emulator.with_arg Emulator.with_env
      Emulator.with_startup_timeout Emulator.with_skip_probe_delay
  built_down bin_path dir profile secs p none e = rw e (refl, refl)
  built_down bin_path dir profile secs p (some words) e = rw e (refl, refl)

  allocate-IsSettled :
      (req : StartRequest) (words : Option Text) (bin_path : Text)
      → IsSettled (asked env (new_id env) words) m w (allocate env req words bin_path m w)
  unfolding allocate
  allocate-IsSettled req words bin_path = elim (Result-cases env.pick_free_tcp_port) [
    | inr (msg, fails) ↦ rw (fails, allocate) (refused_here m w _)
    | inl (port, found) ↦
        (elim (Option-cases (env.create_dir_all (codes "/tmp/hwwctl-" ++ new_id env))) [
          | inr (msg, fails) ↦ rw (found, fails, allocate) (refused_here m w _)
          | inl made ↦
              rw (found, made, allocate)
                (let (down, bare) = built_down bin_path _ _ req.timeout_secs _ words refl in
                  launch-IsSettled _ _ down bare)
        ])
  ]

  find_bundle-IsSettled :
      (req : StartRequest) (words : Option Text)
      → IsSettled (asked env (new_id env) words) m w (find_bundle env req words m w)
  unfolding find_bundle
  find_bundle-IsSettled req words = elim (Option-cases env.bundle_manager) [
    | inr (msg, fails) ↦ rw (fails, find_bundle) (refused_here m w _)
    | inl works ↦ (elim (Option-cases env.emulator_binary_path) [
      | inl missing ↦ rw (works, missing, find_bundle) (refused_here m w _)
      | inr (bin_path, found) ↦ (elim (Bool-cases (env.host.path_exists bin_path)) [
        | inl there ↦ rw (works, found, there, find_bundle) (allocate-IsSettled req words bin_path)
        | inr gone ↦ rw (works, found, gone, find_bundle) (refused_here m w _)
      ])
    ])
  ]

start_bitbox02-IsSettled :
    (env : SpawnEnv) (req : StartRequest) (m : Instances) (w : World)
    → IsSettled (asked env (new_id env) (words_asked req)) m w (start_bitbox02 env req m w)
unfolding start_bitbox02 find_bundle
start_bitbox02-IsSettled env req m w = elim (Option-cases req.mnemonic) [
  | inl built_in ↦ rw (built_in, start_bitbox02) (find_bundle-IsSettled env m w req none)
  | inr (words, given) ↦ (elim (Normalized-cases (normalize_mnemonic words)) [
    | inr (e, bad) ↦ rw (given, bad, start_bitbox02) (refused_here m w _)
    | inl (t, good) ↦ rw (given, good, start_bitbox02) (find_bundle-IsSettled env m w req (some t))
  ])
]

start_wallet-IsSettled :
    (wallet : Wallet) (env : SpawnEnv) (req : StartRequest) (m : Instances) (w : World)
    → IsSettled (asked env (new_id env) (words_asked req)) m w (start_wallet wallet env req m w)
unfolding start_wallet
start_wallet-IsSettled bitbox02 env req m w = start_bitbox02-IsSettled env req m w
start_wallet-IsSettled trezor env req m w = refused_here m w _
start_wallet-IsSettled coldcard env req m w = refused_here m w _
start_wallet-IsSettled specter env req m w = refused_here m w _
start_wallet-IsSettled ledger env req m w = refused_here m w _
start_wallet-IsSettled jade env req m w = refused_here m w _

pub start-IsSettled :
    (env : SpawnEnv) (req : StartRequest) (m : Instances) (w : World)
    → IsSettled (asked env (new_id env) (words_asked req)) m w (start env req m w)
unfolding start
start-IsSettled env req m w = start_wallet-IsSettled req.wallet env req m w

IsClean-fresh :
    (a : Asked) (m : Instances) (w : World) (out : Started)
    → get a.id m ≡ none
    → IsSettled a m w out
    → IsClean m w out
unfolding drop_replaced
IsClean-fresh a m w out fresh (inl refused) = inl refused
IsClean-fresh a m w out fresh (inr r) =
    let free : get r.inst.id m ≡ none = ap (λ k. get k m) r.named ∙ fresh in
    let same : out.1.1 ≡ r.between = r.after ∙ ap (λ o. drop_replaced o r.between) free in
    inr (
      r.inst,
      r.live.pid,
      r.answer,
      r.registry,
      r.live.held,
      ap World.children same ∙ r.children,
      ap World.devices same ∙ r.devices,
      r.live.bridge,
      r.live.attached,
      r.live.senders,
      r.live.serial,
    )

-- Whatever the system, the simulator and the kernel answer at each step, a start whose new id is not
-- taken ends in one of two ways:
-- it answers an error and leaves the registry, the child processes and the devices as they were; or it
-- registers one instance, with the one new process and the one new device, and answers its summary.
pub start-IsClean :
    (env : SpawnEnv) (req : StartRequest) (m : Instances) (w : World)
    → get (new_id env) m ≡ none
    → IsClean m w (start env req m w)
start-IsClean env req m w fresh = IsClean-fresh _ m w _ fresh (start-IsSettled env req m w)
