-- ===== src/Emulators/Ready.antt =====
-- crates/emulators/src/generic.rs: what the readiness loop waits for.
use hwwctl.Prelude.{
  ℕ, suc, ◌+◌, ◌*◌, ◌/◌, ◌≤◌, ◌<◌, ◌≡◌, true, false, Bool, Option, none, some, ◌⊎◌, inl, inr, arith,
}
use hwwctl.Poll.{poll_loop_ends, poll_loop_first, poll_loop_late}
use hwwctl.Emulators.{TransportConfig}
use hwwctl.Emulators.World.{Host}
use hwwctl.Emulators.Generic.{
  GenericEmulator, startup_poll_interval, probe_once, attempt, ready_rounds, wait_for_ready,
}

abbrev pub probe : Host → GenericEmulator → ℕ → Bool
probe h e k = probe_once (h.network k) e.transport

abbrev pub deadline : Host → GenericEmulator → ℕ
deadline h e = h.start_ms + e.startup_timeout

attempt-some :
    (h : Host) (t : TransportConfig) (k : ℕ)
    → attempt h t k ≡ some tt
    → probe_once (h.network k) t ≡ true
unfolding attempt
attempt-some h t k e = ground (arith, e)

attempt-none :
    (h : Host) (t : TransportConfig) (k : ℕ)
    → attempt h t k ≡ none
    → probe_once (h.network k) t ≡ false
unfolding attempt
attempt-none h t k e = ground (arith, e)

-- A probe succeeds, and all before it failed ahead of the deadline.
abbrev pub Reached : Host → GenericEmulator → Type 0
Reached h e =
    (j : ℕ) × (probe h e j ≡ true)
    × ((i : ℕ) → i < j → (probe h e i ≡ false) × (h.now_ms i < deadline h e))

-- All probes fail up to one past the deadline.
abbrev pub Missed : Host → GenericEmulator → Type 0
Missed h e = (j : ℕ) × (deadline h e ≤ h.now_ms j) × ((i : ℕ) → i ≤ j → probe h e i ≡ false)

module _ (h : Host) (e : GenericEmulator) where
  reached : ready_rounds h e ≡ some (some tt) → (wait_for_ready h e ≡ true) × Reached h e
  unfolding wait_for_ready ready_rounds
  reached ends =
      let (j, le, found, before) =
        poll_loop_first (attempt h e.transport) h.now_ms (deadline h e) _ 0 tt ends in
      (
        ground (arith, ends),
        (
          j,
          attempt-some h e.transport j found,
          λ i l.
              let (failed, early) = before i (omega arith) l in
              (attempt-none h e.transport i failed, early),
        ),
      )

  missed : ready_rounds h e ≡ some none → (wait_for_ready h e ≡ false) × Missed h e
  unfolding wait_for_ready ready_rounds
  missed ends =
      let (j, le, past, all) =
        poll_loop_late (attempt h e.transport) h.now_ms (deadline h e) _ 0 ends in
      (ground (arith, ends), (j, past, λ i l. attempt-none h e.transport i (all i (omega arith) l)))

  either :
      (r : Option (Unit {0}))
      → ready_rounds h e ≡ some r
      → ((wait_for_ready h e ≡ true) × Reached h e) ⊎ ((wait_for_ready h e ≡ false) × Missed h e)
  either (some u) ends = inl (reached ends)
  either none ends = inr (missed ends)

  -- When the clock moves on by the pause of each round, the loop ends in time in one of two ways: a probe
  -- succeeded, and all before it failed ahead of the deadline; or all failed, up to one past the deadline.
  pub wait_for_ready_lem :
      ((j : ℕ) → h.start_ms + j * startup_poll_interval ≤ h.now_ms j)
      → ((wait_for_ready h e ≡ true) × Reached h e) ⊎ ((wait_for_ready h e ≡ false) × Missed h e)
  wait_for_ready_lem clock =
      let (r, ends) =
        poll_loop_ends (attempt h e.transport) h.now_ms (deadline h e) h.start_ms 300
          (suc (e.startup_timeout / 300)) 0 (omega arith) clock (omega arith) in
      either r (unfold ready_rounds in ends)
