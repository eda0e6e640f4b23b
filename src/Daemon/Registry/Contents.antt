-- ===== src/Daemon/Registry/Contents.antt =====
-- crates/hwwctl/src/daemon/registry.rs: what the map's changes keep: running instances, one for each id.
use hwwctl.Prelude.{
  ◌≡◌, refl, ◌∙◌, ap, [], ◌∷◌, All, Text, text_eq, text_eq_refl, text_eq→eq, false, subst, none,
  some, inl, inr, Bool-cases, arith,
}
use hwwctl.Control.Types.{InstanceId}
use hwwctl.Daemon.Instance.{Instance}
use hwwctl.Daemon.Spawn.{Instances, get, insert}
use hwwctl.Daemon.Spawn.Stages.{IsLive}
use hwwctl.Daemon.Registry.{remove}
use hwwctl.Daemon.Registry.Laws.{get-remove, get-remove_other}
use hwwctl.Daemon.Registry.Owned.{Distinct}

pub IsLive-get :
    (id : InstanceId) (i : Instance) (m : Instances)
    → All (λ (k, i). IsLive i) m
    → get id m ≡ some i
    → IsLive i
unfolding get
IsLive-get id i [] l found = absurd cc
IsLive-get id i ((k, j) ∷ m) (l, ls) found = elim (Bool-cases (text_eq k id)) [
  | inl here ↦ let same : j ≡ i = ground (arith, found, here) in subst IsLive same l
  | inr later ↦ IsLive-get id i m ls (ground (arith, found, later))
]

pub IsLive-insert :
    (id : InstanceId) (i : Instance) (m : Instances)
    → IsLive i
    → All (λ (k, i). IsLive i) m
    → All (λ (k, i). IsLive i) (insert id i m)
unfolding insert
IsLive-insert id i [] l ls = (l, tt)
IsLive-insert id i ((k, j) ∷ m) l (l', ls) = elim (Bool-cases (text_eq k id)) [
  | inl here ↦ rw here (l, ls)
  | inr later ↦ rw later (l', IsLive-insert id i m l ls)
]

pub IsLive-remove :
    (id : InstanceId) (m : Instances)
    → All (λ (k, i). IsLive i) m
    → All (λ (k, i). IsLive i) (remove id m)
unfolding remove
IsLive-remove id [] ls = tt
IsLive-remove id ((k, j) ∷ m) (l, ls) = elim (Bool-cases (text_eq k id)) [
  | inl gone ↦ rw gone (IsLive-remove id m ls)
  | inr kept ↦ rw kept (l, IsLive-remove id m ls)
]

get-insert_other :
    (id other : InstanceId) (i : Instance) (m : Instances)
    → text_eq id other ≡ false
    → get other (insert id i m) ≡ get other m
unfolding get insert
get-insert_other id other i [] h = ground (arith, h)
get-insert_other id other i ((k, j) ∷ m) h = elim (Bool-cases (text_eq k id)) [
  | inr later ↦ ground (arith, later, get-insert_other id other i m h)
  | inl here ↦
      let same : k ≡ id = text_eq→eq k id here in
      ground (arith, here, h, ap (λ t. text_eq t other) same)
]

text_eq-false : (s t : Text) → text_eq s t ≡ false → text_eq t s ≡ false
text_eq-false s t h = elim (Bool-cases (text_eq t s)) [
  | inr ne ↦ ne
  | inl eq ↦ absurd (cc (ap (λ u. text_eq u t) (text_eq→eq t s eq), text_eq_refl t))
]

pub Distinct-insert :
    (id : InstanceId) (i : Instance) (m : Instances) → Distinct m → Distinct (insert id i m)
unfolding insert get
Distinct-insert id i [] d = (refl, tt)
Distinct-insert id i ((k, j) ∷ m) (alone, d) = elim (Bool-cases (text_eq k id)) [
  | inl here ↦ rw here (rw (← text_eq→eq k id here) alone, d)
  | inr later ↦
      rw later
        (get-insert_other id k i m (text_eq-false k id later) ∙ alone, Distinct-insert id i m d)
]

get-remove-none : (id k : InstanceId) (m : Instances) → get k m ≡ none → get k (remove id m) ≡ none
get-remove-none id k m h = elim (Bool-cases (text_eq id k)) [
  | inl same ↦ rw (← text_eq→eq id k same) (get-remove id m)
  | inr other ↦ get-remove_other id k m other ∙ h
]

pub Distinct-remove : (id : InstanceId) (m : Instances) → Distinct m → Distinct (remove id m)
unfolding remove
Distinct-remove id [] d = tt
Distinct-remove id ((k, j) ∷ m) (alone, d) = elim (Bool-cases (text_eq k id)) [
  | inl gone ↦ rw gone (Distinct-remove id m d)
  | inr kept ↦ rw kept (get-remove-none id k m alone, Distinct-remove id m d)
]
