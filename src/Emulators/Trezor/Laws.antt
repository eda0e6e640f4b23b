-- ===== src/Emulators/Trezor/Laws.antt =====
-- crates/emulators/src/trezor.rs: the process of a `TrezorEmulator` over any starts and stops.
use hwwctl.Prelude.{
  ℕ, ◌≡◌, refl, ◌∙◌, ap, List, [], ◌∷◌, Text, Bool, true, false, Option, none, some, ◌⊎◌, inl, inr,
  Bool-cases, Option-cases, arith,
}
use hwwctl.Emulators.{EmulatorStatus, running, starting, stopped, error}
use hwwctl.Emulators.World.{
  Host, World, remove_child_head, add_child, drop_child, stop_child, Spawned-cases,
}
use hwwctl.Emulators.World as World
use hwwctl.Emulators.Generic.{is_up}
use hwwctl.Emulators.Trezor.{
  TrezorEmulator, micropython_path, command_of, missing_binary, settle, spawn_child, start, stop,
}

-- A call of a client, with what the system is like at the time.
pub data Call : Type 0 where
  starts : Host → Option Text → Call
  stops : Host → Call

unfoldable pub call : Call → TrezorEmulator → World → TrezorEmulator × World
call (starts h parent) e w = (start h parent e w).1
call (stops h) e w = stop h e w

unfoldable pub calls : List Call → TrezorEmulator → World → TrezorEmulator × World
calls [] e w = (e, w)
calls (c ∷ cs) e w = let (e', w') = call c e w in calls cs e' w'

abbrev pub is_running : EmulatorStatus → Bool
is_running running = true
is_running starting = false
is_running stopped = false
is_running (error msg) = false

abbrev pub is_stopped : EmulatorStatus → Bool
is_stopped stopped = true
is_stopped starting = false
is_stopped running = false
is_stopped (error msg) = false

-- Beside the processes of `base` there is none, and the emulator does not count as running; or there is
-- the one that it holds, and it does not count as stopped.
abbrev pub Holds : List ℕ → TrezorEmulator → World → Type 0
Holds base e w =
    ((e.child ≡ none) × (w.children ≡ base) × (is_running e.status ≡ false))
    ⊎ ((pid : ℕ) × (e.child ≡ some pid) × (w.children ≡ pid ∷ base) × (is_stopped e.status ≡ false))

dropped :
    (base : List ℕ) (e : TrezorEmulator) (w : World)
    → Holds base e w
    → (drop_child e.child w).children ≡ base
unfolding drop_child
dropped base e w (inl (bare, same, off)) = ground (arith, bare, same)
dropped base e w (inr (pid, held, more, on)) =
    ground (arith, held, more, remove_child_head pid base)

stop-Holds :
    (base : List ℕ) (h : Host) (e : TrezorEmulator) (w : World)
    → Holds base e w
    → Holds base (stop h e w).0 (stop h e w).1
unfolding stop stop_child
stop-Holds base h e w (inl (bare, same, off)) =
    inl (ground (arith, bare), ground (arith, bare, same), ground (arith, bare))
stop-Holds base h e w (inr (pid, held, more, on)) = inl (
  ground (arith, held),
  ground (arith, held, more, remove_child_head pid base),
  ground (arith, held),
)

-- A start that leaves the process as it is and the status below `running`.
same-Holds :
    (base : List ℕ) (e e' : TrezorEmulator) (w w' : World)
    → e'.child ≡ e.child
    → w' ≡ w
    → is_running e'.status ≡ false
    → is_stopped e'.status ≡ false
    → Holds base e w
    → Holds base e' w'
same-Holds base e e' w w' c same off on (inl (bare, base_only, _)) =
    inl (c ∙ bare, ap World.World.children same ∙ base_only, off)
same-Holds base e e' w w' c same off on (inr (pid, held, more, _)) =
    inr (pid, c ∙ held, ap World.World.children same ∙ more, on)

settle_lem :
    (h : Host) (e : TrezorEmulator)
    → ((settle h e).child ≡ e.child) × (is_stopped (settle h e).status ≡ false)
unfolding settle
settle_lem h e = (ground arith, ground arith)

spawn_child-Holds :
    (base : List ℕ) (h : Host) (parent : Option Text) (e : TrezorEmulator) (w : World)
    → e.status ≡ starting
    → Holds base e w
    → Holds base (spawn_child h parent e w).1.0 (spawn_child h parent e w).1.1
unfolding spawn_child add_child
spawn_child-Holds base h parent e w begun v =
    elim (Spawned-cases (h.spawn (command_of h parent e))) [
      | inr (msg, fails) ↦
          same-Holds base e (spawn_child h parent e w).1.0 w (spawn_child h parent e w).1.1
            (ground (arith, fails)) (ground (arith, fails)) (ground (arith, fails, begun))
            (ground (arith, fails, begun)) v
      | inl (pid, spawned) ↦
          let (child, on) = settle_lem h (record e { child = some pid }) in
          inr (
            pid,
            ground (arith, spawned, child),
            ground (arith, spawned, dropped base e w v),
            ground (arith, spawned, on),
          )
    ]

module _ (h : Host) (parent : Option Text) (e : TrezorEmulator) (w : World) where
  start_up : is_up e.status ≡ true → start h parent e w ≡ (none, (e, w))
  unfolding start
  start_up up = ground (arith, up)

  start_missing :
      is_up e.status ≡ false
      → h.path_exists (micropython_path e) ≡ false
      → start h parent e w ≡ (some (missing_binary e), (e, w))
  unfolding start
  start_missing down missing = ground (arith, down, missing)

  start_unmade :
      (msg : Text)
      → is_up e.status ≡ false
      → h.path_exists (micropython_path e) ≡ true
      → h.create_dir_all e.profile_dir ≡ some msg
      → start h parent e w ≡ (some msg, (e, w))
  unfolding start
  start_unmade msg down there fails = ground (arith, down, there, fails)

  start_spawns :
      is_up e.status ≡ false
      → h.path_exists (micropython_path e) ≡ true
      → h.create_dir_all e.profile_dir ≡ none
      → start h parent e w ≡ spawn_child h parent (record e { status = starting }) w
  unfolding start
  start_spawns down there made = ground (arith, down, there, made)

  start-Holds :
      (base : List ℕ)
      → Holds base e w
      → Holds base (start h parent e w).1.0 (start h parent e w).1.1
  start-Holds base v = elim (Bool-cases (is_up e.status)) [
    | inl up ↦ rw (start_up up) v
    | inr down ↦ (elim (Bool-cases (h.path_exists (micropython_path e))) [
      | inr missing ↦ rw (start_missing down missing) v
      | inl there ↦ (elim (Option-cases (h.create_dir_all e.profile_dir)) [
        | inr (msg, fails) ↦ rw (start_unmade msg down there fails) v
        | inl made ↦
            let e' : TrezorEmulator = record e { status = starting } in
            rw (start_spawns down there made) (
              spawn_child-Holds base h parent e' w refl
                (same-Holds base e e' w w refl refl refl refl v))
      ])
    ])
  ]

call-Holds :
    (base : List ℕ) (c : Call) (e : TrezorEmulator) (w : World)
    → Holds base e w
    → Holds base (call c e w).0 (call c e w).1
unfolding call
call-Holds base (starts h parent) e w v = start-Holds h parent e w base v
call-Holds base (stops h) e w v = stop-Holds base h e w v

-- Whatever starts and stops a client makes, and whatever the system answers to them: the emulator has at
-- most one process, which is the one it holds; it counts as running only with a process, and as stopped
-- only without.
pub calls-Holds :
    (base : List ℕ) (cs : List Call) (e : TrezorEmulator) (w : World)
    → Holds base e w
    → Holds base (calls cs e w).0 (calls cs e w).1
unfolding calls
calls-Holds base [] e w v = v
calls-Holds base (c ∷ cs) e w v = calls-Holds base cs _ _ (call-Holds base c e w v)
