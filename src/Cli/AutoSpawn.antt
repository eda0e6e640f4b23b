-- ===== src/Cli/AutoSpawn.antt =====
-- crates/hwwctl/src/auto_spawn.rs: `connect_or_spawn` and `wait_for_socket`. Attempt 0 is the connect
-- before the daemon is spawned, attempt `k` the `k`-th of the wait.
use hwwctl.Prelude.{
  ℕ, zero, suc, ◌+◌, ◌*◌, ◌≤◌, ◌≡◌, refl, ltb, Bool, true, false, Option, none, some, if◌then◌else◌,
  ◌⊎◌, inl, inr, Bool-cases, arith,
}

-- The error kinds that the source tells apart.
pub data Connected : Type 0 where
  connected refused not_found other : Connected

unfoldable pub would_benefit_from_spawn : Connected → Bool
would_benefit_from_spawn connected = false
would_benefit_from_spawn refused = true
would_benefit_from_spawn not_found = true
would_benefit_from_spawn other = false

-- What the system answers; `now k` is the clock before attempt `k`, in milliseconds.
pub record Machine : Type 0 where
  pub connect : ℕ → Connected
  pub exists : Bool
  pub spawns : Bool
  pub now : ℕ → ℕ

pub data Result : Type 0 where
  stream connect_failed spawn_failed : Result
  not_listening : Option Connected → Result

pub record Outcome : Type 0 where
  pub result : Result
  pub unlinked : Bool
  pub spawned : Bool

abbrev pub spawn_ready_timeout : ℕ
spawn_ready_timeout = 5000

abbrev or_next : Connected → Option Result → Option Result
or_next connected rest = some stream
or_next refused rest = rest
or_next not_found rest = rest
or_next other rest = rest

-- The loop of `wait_for_socket` from attempt `k`: `none` is a loop that has not ended yet.
unfoldable pub wait_loop : Machine → ℕ → ℕ → ℕ → Option Connected → Option Result
wait_loop h deadline zero k last_err = none
wait_loop h deadline (suc fuel) k last_err =
    let rest = wait_loop h deadline fuel (suc k) (some (h.connect k)) in
    if ltb (h.now k) deadline then or_next (h.connect k) rest else some (not_listening last_err)

-- The deadline counts from the clock at the start of the wait. Every round pauses for 50 ms, so 100 rounds
-- reach it and one more sees it.
unfoldable pub wait_for_socket : Machine → Option Result
wait_for_socket h = wait_loop h (h.now 1 + spawn_ready_timeout) 101 1 none

abbrev waited : Machine → Option Result → Option Outcome
waited h none = none
waited h (some r) = some (record { result = r; unlinked = h.exists; spawned = true })

-- From the stale socket file on.
unfoldable pub spawn_and_wait : Machine → Option Outcome
spawn_and_wait h =
    if h.spawns
    then waited h (wait_for_socket h)
    else some (record { result = spawn_failed; unlinked = h.exists; spawned = false })

unfoldable pub connect_or_spawn : Machine → Option Outcome
connect_or_spawn h = elim (h.connect 0) [
  | connected ↦ some (record { result = stream; unlinked = false; spawned = false })
  | refused ↦ spawn_and_wait h
  | not_found ↦ spawn_and_wait h
  | other ↦ some (record { result = connect_failed; unlinked = false; spawned = false })
]

Connected-cases : (c : Connected) → (c ≡ connected) ⊎ (c ≡ refused) ⊎ (c ≡ not_found) ⊎ (c ≡ other)
Connected-cases connected = inl refl
Connected-cases refused = inr (inl refl)
Connected-cases not_found = inr (inr (inl refl))
Connected-cases other = inr (inr (inr refl))

-- A result gives a stream only where an attempt has connected.
abbrev pub IsWaited : Machine → Result → Type 0
IsWaited h stream = (k : ℕ) × (h.connect k ≡ connected)
IsWaited h connect_failed = Unit
IsWaited h spawn_failed = Unit
IsWaited h (not_listening e) = Unit

or_next-IsWaited :
    (h : Machine) (k : ℕ) (c : Connected) (rest : Option Result) (r : Result)
    → h.connect k ≡ c
    → rest ≡ some r
    → IsWaited h r
    → (r' : Result) × (or_next c rest ≡ some r') × IsWaited h r'
or_next-IsWaited h k connected rest r e found w = (stream, refl, (k, e))
or_next-IsWaited h k refused rest r e found w = (r, found, w)
or_next-IsWaited h k not_found rest r e found w = (r, found, w)
or_next-IsWaited h k other rest r e found w = (r, found, w)

wait_loop_ends :
    (h : Machine) (start fuel k : ℕ) (last_err : Option Connected)
    → ((j : ℕ) → start + j * 50 ≤ h.now (suc j))
    → 100 ≤ fuel + k
    → (r : Result) × (wait_loop h (start + spawn_ready_timeout) (suc fuel) (suc k) last_err
        ≡ some r)
      × IsWaited h r
unfolding wait_loop
wait_loop_ends h start zero k last_err clock enough =
    (not_listening last_err, ground (arith, clock k), tt)
wait_loop_ends h start (suc fuel) k last_err clock enough =
    let (r, rest, waited) =
      wait_loop_ends h start fuel (suc k) (some (h.connect (suc k))) clock (omega arith) in
    let (r', found, w) =
      or_next-IsWaited h (suc k) (h.connect (suc k))
        (wait_loop h (start + spawn_ready_timeout) (suc fuel) (suc (suc k))
          (some (h.connect (suc k))))
        r refl rest waited in
    elim (Bool-cases (ltb (h.now (suc k)) (start + spawn_ready_timeout))) [
      | inl early ↦ (r', ground (arith, early, found), w)
      | inr late ↦ (not_listening last_err, ground (arith, late), tt)
    ]

-- How `connect_or_spawn` ends: with a stream only where an attempt has connected, and with nothing
-- unlinked or spawned unless the first attempt found no listener.
abbrev pub IsEnd : Machine → Outcome → Type 0
IsEnd h o =
    IsWaited h o.result
    × (((o.unlinked ≡ false) × (o.spawned ≡ false))
        ⊎ (would_benefit_from_spawn (h.connect 0) ≡ true))

spawn_and_wait-IsEnd :
    (h : Machine)
    → ((j : ℕ) → h.now 1 + j * 50 ≤ h.now (suc j))
    → would_benefit_from_spawn (h.connect 0) ≡ true
    → (o : Outcome) × (spawn_and_wait h ≡ some o) × IsEnd h o
unfolding spawn_and_wait wait_for_socket
spawn_and_wait-IsEnd h clock worth =
    let (r, ends, waits) = wait_loop_ends h (h.now 1) 100 0 none clock (omega arith) in
    elim (Bool-cases h.spawns) [
      | inl works ↦ (
        record { result = r; unlinked = h.exists; spawned = true },
        ground (arith, works, ends),
        (waits, inr worth),
      )
      | inr fails ↦ (
        record { result = spawn_failed; unlinked = h.exists; spawned = false },
        ground (arith, fails),
        (tt, inr worth),
      )
    ]

-- When every pause of the wait moves the clock on by its 50 ms, `connect_or_spawn` comes to an end; it
-- gives a stream only where an attempt has connected, and it unlinks the socket's file and spawns a daemon
-- only where the first attempt was refused or found no file.
pub connect_or_spawn_lem :
    (h : Machine)
    → ((j : ℕ) → h.now 1 + j * 50 ≤ h.now (suc j))
    → (o : Outcome) × (connect_or_spawn h ≡ some o) × IsEnd h o
unfolding connect_or_spawn would_benefit_from_spawn
connect_or_spawn_lem h clock = elim (Connected-cases (h.connect 0)) [
  | inl e ↦ (
    record { result = stream; unlinked = false; spawned = false },
    rw (e, connect_or_spawn) refl,
    ((0, e), inl (refl, refl)),
  )
  | inr (inl e) ↦
      let (o, ends, h_end) = spawn_and_wait-IsEnd h clock (rw e refl) in
      (o, rw (e, connect_or_spawn) ends, h_end)
  | inr (inr (inl e)) ↦
      let (o, ends, h_end) = spawn_and_wait-IsEnd h clock (rw e refl) in
      (o, rw (e, connect_or_spawn) ends, h_end)
  | inr (inr (inr e)) ↦ (
    record { result = connect_failed; unlinked = false; spawned = false },
    rw (e, connect_or_spawn) refl,
    (tt, inl (refl, refl)),
  )
]
