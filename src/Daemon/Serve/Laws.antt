-- ===== src/Daemon/Serve/Laws.antt =====
-- crates/hwwctl/src/daemon/mod.rs: what the daemon keeps while it runs, and how it comes to its exit.
use hwwctl.Prelude.{
  ℕ, zero, suc, ◌≡◌, refl, List, [], ◌∷◌, Bool, true, false, Option, none, some, ◌⊎◌, inl, inr,
  Bool-cases, Option-cases,
}
use hwwctl.Emulators.World.{Host, World}
use hwwctl.Daemon.Registry.Invariant.{Owned, handle-Owned, nothing-Owned}
use hwwctl.Daemon.Serve.{
  Startup, Main, begin, listen, prepare, Event, waits, accepted, accept_failed, woken, serves,
  tells, leave, serve, notify, tell, on_event, step, run,
}

-- Whether the socket file stays when the daemon leaves.
abbrev pub stays : Startup → Bool
stays su = elim su.cleanup [ some msg ↦ true | none ↦ false ]

-- The instances own their processes and devices. While the daemon runs there is a socket file, and where
-- it has left there is one just when it could not be removed.
pub record IsSound (kept : Bool) (base : World) (s : Main) : Type 0 where
  pub owned : Owned base s.instances s.world
  pub opened : s.exit_code ≡ none → s.socket_file ≡ true
  pub closed : s.exit_code ≡ some 0 → s.socket_file ≡ kept

leave-IsSound :
    (su : Startup) (base : World) (s : Main)
    → Owned base s.instances s.world
    → s.socket_file ≡ true
    → IsSound (stays su) base (leave su s)
unfolding leave
leave-IsSound su base s o there = record {
  owned = o;
  opened = λ e. absurd cc;
  closed = λ e. (elim (Option-cases su.cleanup) [
    | inl gone ↦ rw gone refl
    | inr (msg, fails) ↦ rw (fails, there) refl
  ]);
}

runs-IsSound :
    (su : Startup) (base : World) (s : Main)
    → Owned base s.instances s.world
    → s.exit_code ≡ none
    → s.socket_file ≡ true
    → IsSound (stays su) base s
runs-IsSound su base s o on there = record {
  owned = o;
  opened = λ e. there;
  closed = λ e. absurd (cc);
}

notify-IsSound :
    (su : Startup) (base : World) (s : Main)
    → Owned base s.instances s.world
    → s.exit_code ≡ none
    → s.socket_file ≡ true
    → (written : Bool) → IsSound (stays su) base (notify written s)
unfolding notify
notify-IsSound su base s o on there false = runs-IsSound su base s o on there
notify-IsSound su base s o on there true = elim (Bool-cases s.waiting) [
  | inl hears ↦ simp hears (runs-IsSound su base _ o on there)
  | inr away ↦ simp away (runs-IsSound su base s o on there)
]

zero_or_suc : (n : ℕ) → (n ≡ zero) ⊎ ((k : ℕ) × (n ≡ suc k))
zero_or_suc zero = inl refl
zero_or_suc (suc k) = inr (k, refl)

module _ (su : Startup) (base : World) (h : Host) (s : Main) (on : s.exit_code ≡ none)
    (v : IsSound (stays su) base s) where
  tell-IsSound : (written : Bool) → IsSound (stays su) base (tell written s)
  unfolding tell
  tell-IsSound written = elim (zero_or_suc s.draining) [
    | inl nobody ↦ rw (nobody, tell) v
    | inr (n, some_left) ↦
        rw (some_left, tell)
          (notify-IsSound su base (record s { draining = n }) v.owned on (v.opened on) written)
  ]

  on_event-IsSound : (e : Event) → IsSound (stays su) base (on_event su h e s)
  unfolding on_event serve
  on_event-IsSound waits = runs-IsSound su base _ v.owned on (v.opened on)
  on_event-IsSound accepted = runs-IsSound su base _ v.owned on (v.opened on)
  on_event-IsSound accept_failed = elim (Bool-cases s.waiting) [
    | inl hears ↦ simp hears (leave-IsSound su base s v.owned (v.opened on))
    | inr away ↦ simp away v
  ]
  on_event-IsSound woken = elim (Bool-cases s.notified) [
    | inl told ↦ simp told (leave-IsSound su base s v.owned (v.opened on))
    | inr not_told ↦ simp not_told v
  ]
  on_event-IsSound (serves cmd) =
      runs-IsSound su base _ (handle-Owned base h cmd s.instances s.world v.owned) on (v.opened on)
  on_event-IsSound (tells written) = tell-IsSound written

step-IsSound :
    (su : Startup) (base : World) (h : Host) (e : Event) (s : Main)
    → IsSound (stays su) base s
    → IsSound (stays su) base (step su h e s)
unfolding step
step-IsSound su base h e s v = elim (Option-cases s.exit_code) [
  | inl on ↦ rw (on, step) (on_event-IsSound su base h s on v e)
  | inr (code, left) ↦ rw (left, step) v
]

begin-IsSound :
    (su : Startup) (w : World) (there : Bool) (code : Option ℕ)
    → (code ≡ none → there ≡ true)
    → (code ≡ some 0 → there ≡ stays su)
    → IsSound (stays su) w (begin w there code)
begin-IsSound su w there code opened closed = record {
  owned = nothing-Owned w;
  opened = opened;
  closed = closed;
}

listen-IsSound : (su : Startup) (w : World) → IsSound (stays su) w (listen su w)
unfolding listen
listen-IsSound su w = elim (Option-cases su.bind) [
  | inr (msg, fails) ↦
      rw (fails, listen) (begin-IsSound su w false (some 2) (λ e. absurd cc) (λ e. absurd cc))
  | inl works ↦ rw (works, listen) (begin-IsSound su w true none (λ e. refl) (λ e. absurd cc))
]

prepare-IsSound : (su : Startup) (w : World) → IsSound (stays su) w (prepare su w)
unfolding prepare
prepare-IsSound su w = elim (Option-cases su.init_logging) [
  | inr (msg, fails) ↦
      rw (fails, prepare)
        (begin-IsSound su w su.socket_exists (some 2) (λ e. absurd cc) (λ e. absurd cc))
  | inl logs ↦
      rw (logs, prepare)
        (elim (Bool-cases su.socket_exists) [
          | inr free ↦ simp free (listen-IsSound su w)
          | inl stale ↦ (elim (Option-cases su.remove_file) [
            | inl gone ↦ simp (stale, gone) (listen-IsSound su w)
            | inr (msg, fails) ↦
                rw (stale, fails, prepare)
                  (begin-IsSound su w true (some 2) (λ e. absurd cc) (λ e. absurd cc))
          ])
        ])
]

run_steps-IsSound :
    (su : Startup) (base : World) (h : Host) (es : List Event) (s : Main)
    → IsSound (stays su) base s
    → IsSound (stays su) base (run su h es s)
unfolding run
run_steps-IsSound su base h [] s v = v
run_steps-IsSound su base h (e ∷ es) s v =
    run_steps-IsSound su base h es _ (step-IsSound su base h e s v)

-- From the daemon's start on, whatever its loop, the tasks of its connections and its registry do and in
-- whatever order, as long as no thread of a bridge ends by itself: the registered instances own exactly the
-- processes and the devices that are there beside those of `w`, a daemon that runs has its socket file, and
-- where one has left with code 0 that file is there just when it could not be removed.
pub run-IsSound :
    (su : Startup) (h : Host) (es : List Event) (w : World)
    → IsSound (stays su) w (run su h es (prepare su w))
run-IsSound su h es w = run_steps-IsSound su w h es (prepare su w) (prepare-IsSound su w)
