-- ===== src/Daemon/Registry/Owned.antt =====
-- crates/hwwctl/src/daemon/registry.rs: whose the processes and the devices are. The map's changes are
-- counted here; `Invariant` is about the commands.
use hwwctl.Prelude.{
  ℕ, ◌+◌, ◌-◌, ◌≡◌, refl, List, [], ◌∷◌, Text, text_eq, text_eq_refl, text_eq→eq, Bool, true, false,
  Option, none, some, ◌⊎◌, ◌==◌, inl, inr, Bool-cases, arith, ap, ◌∙◌, sym,
}
use hwwctl.Control.Types.{InstanceId}
use hwwctl.Emulators.World.{remove_child}
use hwwctl.Bridge.Generic.{remove_device}
use hwwctl.Daemon.Instance.{Instance}
use hwwctl.Daemon.Spawn.{Instances, get, insert}
use hwwctl.Daemon.Registry.{remove}

abbrev pub one : Bool → ℕ
one true = 1
one false = 0

-- How often a process or a serial number stands in a list.
unfoldable pub children_with : ℕ → List ℕ → ℕ
children_with pid [] = 0
children_with pid (p ∷ ps) = one (p == pid) + children_with pid ps

unfoldable pub devices_with : Text → List Text → ℕ
devices_with serial [] = 0
devices_with serial (d ∷ ds) = one (text_eq d serial) + devices_with serial ds

pub children_with_cons :
    (p q : ℕ) (ps : List ℕ) → children_with p (q ∷ ps) ≡ one (q == p) + children_with p ps
unfolding children_with
children_with_cons p q ps = refl

pub devices_with_cons :
    (s d : Text) (ds : List Text) → devices_with s (d ∷ ds) ≡ one (text_eq d s) + devices_with s ds
unfolding devices_with
devices_with_cons s d ds = refl

pub children_with-remove_child :
    (p pid : ℕ) (ps : List ℕ)
    → children_with p (remove_child pid ps) ≡ children_with p ps - one (pid == p)
unfolding children_with remove_child
children_with-remove_child p pid [] = ground arith
children_with-remove_child p pid (q ∷ ps) = elim (Bool-cases (q == pid)) [
  | inl gone ↦ rw gone (ground (arith, gone))
  | inr kept ↦ rw kept (ground (arith, kept, children_with-remove_child p pid ps))
]

not_both :
    (d serial s : Text)
    → text_eq d serial ≡ false
    → (text_eq d s ≡ false) ⊎ (text_eq serial s ≡ false)
not_both d serial s differ = elim (Bool-cases (text_eq d s)) [
  | inr ne ↦ inl ne
  | inl eq ↦ (elim (Bool-cases (text_eq serial s)) [
    | inr ne ↦ inr ne
    | inl eq' ↦
        let same : d ≡ serial = text_eq→eq d s eq ∙ sym (text_eq→eq serial s eq') in
        absurd (cc (ap (λ t. text_eq t serial) same, text_eq_refl serial))
  ])
]

pub devices_with-remove_device :
    (s serial : Text) (ds : List Text)
    → devices_with s (remove_device serial ds) ≡ devices_with s ds - one (text_eq serial s)
unfolding devices_with remove_device
devices_with-remove_device s serial [] = ground arith
devices_with-remove_device s serial (d ∷ ds) = elim (Bool-cases (text_eq d serial)) [
  | inl gone ↦
      let same : d ≡ serial = text_eq→eq d serial gone in
      rw gone (ground (arith, ap (λ t. one (text_eq t s)) same))
  | inr kept ↦
      rw kept (ground (arith, not_both d serial s kept, devices_with-remove_device s serial ds))
]

abbrev pub is_child : ℕ → Option ℕ → Bool
is_child pid none = false
is_child pid (some p) = p == pid

-- Whether an instance has the process, or the device.
abbrev pub holds : ℕ → Instance → Bool
holds pid i = is_child pid i.emulator.child

abbrev pub shows : Text → Instance → Bool
shows serial i = text_eq i.serial serial

-- In how many instances a test holds.
unfoldable pub tally : (Instance → Bool) → Instances → ℕ
tally t [] = 0
tally t ((k, i) ∷ m) = one (t i) + tally t m

abbrev pub tally_at : (Instance → Bool) → Option Instance → ℕ
tally_at t none = 0
tally_at t (some i) = one (t i)

pub tally-insert :
    (t : Instance → Bool) (id : InstanceId) (i : Instance) (m : Instances)
    → tally t (insert id i m) + tally_at t (get id m) ≡ one (t i) + tally t m
unfolding tally insert get
tally-insert t id i [] = omega arith
tally-insert t id i ((k, j) ∷ m) = elim (Bool-cases (text_eq k id)) [
  | inl same ↦ rw same (omega arith)
  | inr other ↦ rw other (omega (arith, tally-insert t id i m))
]

-- Each id stands once.
abbrev pub Distinct : Instances → Type 0
Distinct [] = Unit
Distinct ((k, i) ∷ m) = (get k m ≡ none) × Distinct m

pub remove_absent : (id : InstanceId) (m : Instances) → get id m ≡ none → remove id m ≡ m
unfolding get remove
remove_absent id [] h = refl
remove_absent id ((k, j) ∷ m) h = ground (arith, remove_absent id m)

pub tally-remove :
    (t : Instance → Bool) (id : InstanceId) (m : Instances)
    → Distinct m
    → tally t (remove id m) + tally_at t (get id m) ≡ tally t m
unfolding tally remove get
tally-remove t id [] d = omega arith
tally-remove t id ((k, j) ∷ m) (alone, d) = elim (Bool-cases (text_eq k id)) [
  | inl same ↦
      let absent : get id m ≡ none = rw (← text_eq→eq k id same) alone in
      rw (same, remove_absent id m absent) (omega arith)
  | inr other ↦ rw other (omega (arith, tally-remove t id m d))
]
