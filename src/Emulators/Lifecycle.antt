-- ===== src/Emulators/Lifecycle.antt =====
-- crates/emulators/src/generic.rs: starting and stopping, and the polling loop between them.
use hwwctl.Prelude.{
  ℕ, ◌≡◌, refl, ◌∙◌, true, false, Text, none, some, ◌⊎◌, inl, inr, Bool-cases, Option-cases, arith,
}
use hwwctl.Emulators.{running, starting, stopped}
use hwwctl.Emulators.World.{
  Host, World, Network, remove_child, remove_child_head, add_child, drop_child, stop_child,
  Spawned-cases,
}
use hwwctl.Emulators.World as World
use hwwctl.Emulators.Generic.{
  GenericEmulator, is_up, command_of, settle, missing_binary, build_ld_library_path, spawn_error,
  spawn_child, start, stop,
}

-- The status the code may show: `running` only with a child, `stopped` only without.
pub record IsCoherent (e : GenericEmulator) : Type 0 where
  pub running_has_child : e.status ≡ running → (pid : ℕ) × (e.child ≡ some pid)
  pub stopped_has_none : e.status ≡ stopped → e.child ≡ none

settle-child : (h : Host) (e : GenericEmulator) → (settle h e).child ≡ e.child
unfolding settle
settle-child h e = ground arith

settle-ne-stopped : (h : Host) (e : GenericEmulator) → (settle h e).status ≡ stopped → ⊥
unfolding settle
settle-ne-stopped h e s = ground arith

abbrev starting_of : GenericEmulator → GenericEmulator
starting_of e = record e { status = starting }

start_up :
    (h : Host) (e : GenericEmulator) (w : World)
    → is_up e.status ≡ true
    → start h e w ≡ (none, (e, w))
unfolding start
start_up h e w up = ground (arith, up)

start_missing :
    (h : Host) (e : GenericEmulator) (w : World)
    → is_up e.status ≡ false
    → h.path_exists e.binary_path ≡ false
    → start h e w ≡ (some (missing_binary e), (e, w))
unfolding start
start_missing h e w down missing = ground (arith, down, missing)

start_unmade :
    (h : Host) (e : GenericEmulator) (w : World) (msg : Text)
    → is_up e.status ≡ false
    → h.path_exists e.binary_path ≡ true
    → h.create_dir_all e.profile_dir ≡ some msg
    → start h e w ≡ (some msg, (e, w))
unfolding start
start_unmade h e w msg down there fails = ground (arith, down, there, fails)

module _ (h : Host) (e : GenericEmulator) (w : World) (down : is_up e.status ≡ false)
    (there : h.path_exists e.binary_path ≡ true)
    (made : h.create_dir_all e.profile_dir ≡ none) where
  start_fails :
      (msg : Text)
      → h.spawn (command_of h (starting_of e)) ≡ World.Spawned.failed msg
      → start h e w ≡ (some (spawn_error e msg), (starting_of e, w))
  unfolding start spawn_child
  start_fails msg fails = ground (arith, down, there, made, fails)

  start_spawns :
      (pid : ℕ)
      → h.spawn (command_of h (starting_of e)) ≡ World.Spawned.child pid
      → start h e w ≡ (
        none,
        (
          settle h (record e { status = starting; child = some pid }),
          add_child pid (drop_child e.child w),
        ),
      )
  unfolding start spawn_child
  start_spawns pid spawned = ground (arith, down, there, made, spawned)

  start_adds :
      (pid : ℕ)
      → h.spawn (command_of h (starting_of e)) ≡ World.Spawned.child pid
      → e.child ≡ none
      → ((start h e w).0 ≡ none)
        × ((start h e w).1.1 ≡ add_child pid w)
        × ((start h e w).1.0.child ≡ some pid)
  unfolding drop_child
  start_adds pid spawned bare =
      rw (start_spawns pid spawned, bare)
        (refl, refl, settle-child h (record e { status = starting; child = some pid }))

-- A start of an emulator that is down either fails and leaves the world as it was, or adds one child,
-- which the emulator holds.
pub start_lem :
    (h : Host) (e : GenericEmulator) (w : World)
    → is_up e.status ≡ false
    → e.child ≡ none
    → ((msg : Text) × ((start h e w).0 ≡ some msg)
        × ((start h e w).1.1 ≡ w)
        × ((start h e w).1.0.child ≡ none))
      ⊎ ((pid : ℕ) × ((start h e w).0 ≡ none)
          × ((start h e w).1.1 ≡ add_child pid w)
          × ((start h e w).1.0.child ≡ some pid))
start_lem h e w down bare = elim (Bool-cases (h.path_exists e.binary_path)) [
  | inr missing ↦
      let eq = start_missing h e w down missing in
      inl (missing_binary e, cc eq, cc eq, cc (eq, bare))
  | inl there ↦ (elim (Option-cases (h.create_dir_all e.profile_dir)) [
    | inr (msg, fails) ↦
        let eq = start_unmade h e w msg down there fails in inl (msg, cc eq, cc eq, cc (eq, bare))
    | inl made ↦ (elim (Spawned-cases (h.spawn (command_of h (starting_of e)))) [
      | inr (msg, fails) ↦
          let eq = start_fails h e w down there made msg fails in
          inl (spawn_error e msg, cc eq, cc eq, cc (eq, bare))
      | inl (pid, spawned) ↦
          let (ok, added, held) = start_adds h e w down there made pid spawned bare in
          inr (pid, ok, added, held)
    ])
  ])
]

starting-IsCoherent : (e : GenericEmulator) → IsCoherent (starting_of e)
starting-IsCoherent e = record {
  running_has_child = λ r. absurd cc;
  stopped_has_none = λ r. absurd cc;
}

settle-IsCoherent :
    (h : Host) (e : GenericEmulator) (pid : ℕ) → e.child ≡ some pid → IsCoherent (settle h e)
settle-IsCoherent h e pid held = record {
  running_has_child = λ r. (pid, settle-child h e ∙ held);
  stopped_has_none = λ r. absurd (settle-ne-stopped h e r);
}

-- A start keeps the status coherent, whatever the system answers.
pub start-IsCoherent :
    (h : Host) (e : GenericEmulator) (w : World) → IsCoherent e → IsCoherent (start h e w).1.0
start-IsCoherent h e w c = elim (Bool-cases (is_up e.status)) [
  | inl up ↦ rw (start_up h e w up) c
  | inr down ↦ (elim (Bool-cases (h.path_exists e.binary_path)) [
    | inr missing ↦ rw (start_missing h e w down missing) c
    | inl there ↦ (elim (Option-cases (h.create_dir_all e.profile_dir)) [
      | inr (msg, fails) ↦ rw (start_unmade h e w msg down there fails) c
      | inl made ↦ (elim (Spawned-cases (h.spawn (command_of h (starting_of e)))) [
        | inr (msg, fails) ↦
            rw (start_fails h e w down there made msg fails) (starting-IsCoherent e)
        | inl (pid, spawned) ↦
            rw (start_spawns h e w down there made pid spawned)
              (settle-IsCoherent h (record e { status = starting; child = some pid }) pid refl)
      ])
    ])
  ])
]

pub stop-IsCoherent : (h : Host) (e : GenericEmulator) (w : World) → IsCoherent (stop h e w).0
unfolding stop
stop-IsCoherent h e w = elim (Option-cases e.child) [
  | inl bare ↦ record {
    running_has_child = ground (arith, bare);
    stopped_has_none = ground (arith, bare);
  }
  | inr (pid, has) ↦ record {
    running_has_child = ground (arith, has);
    stopped_has_none = ground (arith, has);
  }
]

-- Stopping an emulator after a start, which found it down and without a child and may have failed,
-- leaves it `stopped` and without a child, and the processes and devices as they were before.
pub stop-start :
    (h : Host) (e : GenericEmulator) (w : World)
    → is_up e.status ≡ false
    → e.child ≡ none
    → let (e', w') = (start h e w).1 in
      ((stop h e' w').0.status ≡ stopped)
      × ((stop h e' w').0.child ≡ none)
      × ((stop h e' w').1.children ≡ w.children)
      × ((stop h e' w').1.devices ≡ w.devices)
unfolding stop stop_child add_child
stop-start h e w down bare = elim (start_lem h e w down bare) [
  | inl (msg, fails, same, none_held) ↦ ground (arith, same, none_held)
  | inr (pid, ok, added, held) ↦ ground (arith, added, held, remove_child_head pid w.children)
]

-- When a start of an emulator that is down and without a child fails only at spawning the process,
-- another start answers `Ok`, with no process.
pub start-start_failed :
    (h : Host) (e : GenericEmulator) (w : World) (msg : Text)
    → is_up e.status ≡ false
    → e.child ≡ none
    → h.path_exists e.binary_path ≡ true
    → h.create_dir_all e.profile_dir ≡ none
    → h.spawn (command_of h e) ≡ World.Spawned.failed msg
    → let (e', w') = (start h e w).1 in
      (start h e' w' ≡ (none, (e', w))) × (e'.child ≡ none) × (w' ≡ w)
unfolding command_of build_ld_library_path
start-start_failed h e w msg down bare there made failed =
    rw (start_fails h e w down there made msg failed) (unfold start in refl, bare, refl)
