-- ===== src/Poll.antt =====
-- The polling loops of the daemon, the client and the emulators: an attempt, then a look at the clock,
-- then a pause. What round `k` attempts gives `attempt k`, and the clock then reads `now k`.
use hwwctl.Prelude.{
  ℕ, zero, suc, ◌+◌, ◌*◌, ◌≤◌, ◌<◌, ◌≡◌, subst, Option, none, some, leb, if◌then◌else◌, arith,
  Option-cases, Bool-cases, inl, inr,
}

-- `none` outside is a loop that has not ended yet.
unfoldable pub poll_loop {ℓ} :
    {A : Type ℓ} → (ℕ → Option A) → (ℕ → ℕ) → ℕ → ℕ → ℕ → Option (Option A)
poll_loop attempt now deadline zero k = none
poll_loop attempt now deadline (suc fuel) k =
    let rest = poll_loop attempt now deadline fuel (suc k) in
    elim (attempt k) [
      | some a ↦ some (some a)
      | none ↦ if leb deadline (now k) then some none else rest
    ]

-- What holds at `k` and above it holds from `k` on.
from_next {ℓ} : {P : ℕ → Type ℓ} (k : ℕ) → P k → ((i : ℕ) → suc k ≤ i → P i) → (i : ℕ) → k ≤ i → P i
from_next {P} k here above i h = elim (Bool-cases (leb (suc k) i)) [
  | inl e ↦ above i (ground (arith, e))
  | inr e ↦ subst P (ground (arith, e)) here
]

module _ {ℓ} {A : Type ℓ} (attempt : ℕ → Option A) (now : ℕ → ℕ) (deadline : ℕ) where
  -- When every pause moves the clock on by at least `pause`, the loop ends within the rounds that fit
  -- before the deadline and one more.
  pub poll_loop_ends :
      (start pause fuel k : ℕ)
      → 0 < pause
      → ((j : ℕ) → start + j * pause ≤ now j)
      → deadline ≤ start + (fuel + k) * pause
      → (r : Option A) × (poll_loop attempt now deadline (suc fuel) k ≡ some r)
  unfolding poll_loop
  poll_loop_ends start pause zero k h clock enough = elim (Option-cases (attempt k)) [
    | inl e ↦ (none, ground (arith, e, clock k))
    | inr (a, e) ↦ (some a, ground (arith, e))
  ]
  poll_loop_ends start pause (suc fuel) k h clock enough =
      let (r, rest) =
        poll_loop_ends start pause fuel (suc k) h clock
          (subst (λ n. deadline ≤ start + n * pause) (omega arith) enough) in
      elim (Option-cases (attempt k)) [
        | inr (a, e) ↦ (some a, ground (arith, e))
        | inl e ↦ (elim (Bool-cases (leb deadline (now k))) [
          | inl late ↦ (none, ground (arith, e, late))
          | inr early ↦ (r, ground (arith, e, early, rest))
        ])
      ]

  -- What the loop returns is the first attempt that succeeds.
  pub poll_loop_first :
      (fuel k : ℕ) (a : A)
      → poll_loop attempt now deadline fuel k ≡ some (some a)
      → (j : ℕ) × (k ≤ j)
        × (attempt j ≡ some a)
        × ((i : ℕ) → k ≤ i → i < j → (attempt i ≡ none) × (now i < deadline))
  unfolding poll_loop
  poll_loop_first zero k a e = absurd cc
  poll_loop_first (suc fuel) k a e = elim (Option-cases (attempt k)) [
    | inr (b, found) ↦ (k, omega arith, ground (arith, found), λ i h l. absurd (omega arith))
    | inl failed ↦ (elim (Bool-cases (leb deadline (now k))) [
      | inl late ↦ absurd (ground (arith, failed, late))
      | inr early ↦
          let (j, le, found, before) =
            poll_loop_first fuel (suc k) a (ground (arith, failed, early)) in
          (j, omega arith, found, from_next k (λ l. (failed, ground (arith, early))) before)
    ])
  ]

  -- It gives up only at an attempt that failed with the deadline past, and all before it failed too.
  pub poll_loop_late :
      (fuel k : ℕ)
      → poll_loop attempt now deadline fuel k ≡ some none
      → (j : ℕ) × (k ≤ j) × (deadline ≤ now j) × ((i : ℕ) → k ≤ i → i ≤ j → attempt i ≡ none)
  unfolding poll_loop
  poll_loop_late zero k e = absurd cc
  poll_loop_late (suc fuel) k e = elim (Option-cases (attempt k)) [
    | inr (b, found) ↦ absurd (ground (arith, found))
    | inl failed ↦ (elim (Bool-cases (leb deadline (now k))) [
      | inl late ↦ (
        k,
        omega arith,
        ground (arith, late),
        from_next k (λ l. failed) (λ i h l. absurd (omega arith)),
      )
      | inr early ↦
          let (j, le, past, all) = poll_loop_late fuel (suc k) (ground (arith, failed, early)) in
          (j, omega arith, past, from_next k (λ l. failed) all)
    ])
  ]
