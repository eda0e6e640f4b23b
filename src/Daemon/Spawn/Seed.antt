-- ===== src/Daemon/Spawn/Seed.antt =====
-- crates/hwwctl/src/daemon/spawn.rs: `seed_bitbox02` and `random_suffix`, and what a start that succeeds
-- says of the simulator. What bitbox-api answers and the hash are arguments.
use hwwctl.Prelude.{
  ℕ, ◌/◌, ◌%◌, ◌^◌, ◌<◌, ◌≡◌, refl, sym, ◌∙◌, ap, [], ◌∷◌, ◌++◌, length, All, Text, codes, Bool,
  true, false, ◌||◌, ◌&&◌, leb, Option, none, some, inl, inr, arith,
}
use hwwctl.Format.{decimal, hex_digit}
use hwwctl.Control.Types.{InstanceSummary, StartRequest, Result, ok, err}
use hwwctl.Emulators.World.{World}
use hwwctl.Daemon.Spawn.{Instances, SpawnEnv, start, wrong_seed}
use hwwctl.Daemon.Spawn.Laws.{start-IsSettled, words_asked}

-- An error's text, or what the call gives; `runtime` is the building of the runtime, `panics` whether the
-- task panics, with its text.
pub record BitBox : Type 0 where
  pub panics : Option Text
  pub runtime : Option Text
  pub from_simulator : Text → Option Text
  pub unlock_and_pair : Option Text
  pub wait_confirm : Option Text
  pub restore_from_mnemonic : Option Text
  pub device_info : Result Text Bool
  pub root_fingerprint : Result Text Text

-- `call.map_err(|e| anyhow!("{name}: {e}"))?`
unfoldable pub then_call : Text → Option Text → Result Text Text → Result Text Text
then_call name none rest = rest
then_call name (some e) rest = err (name ++ e)

unfoldable pub fingerprint_of : Result Text Text → Result Text Text
fingerprint_of (ok fingerprint) = ok fingerprint
fingerprint_of (err e) = err (codes "root_fingerprint: " ++ e)

unfoldable pub if_initialized : Result Text Bool → Result Text Text → Result Text Text
if_initialized (err e) rest = err (codes "device_info: " ++ e)
if_initialized (ok true) rest = rest
if_initialized (ok false) rest =
    err (codes "simulator did not report initialized after restore_from_mnemonic")

unfoldable pub seed_bitbox02 : BitBox → ℕ → Result Text Text
seed_bitbox02 b port = then_call (codes "seed task panicked: ") b.panics (
    then_call [] b.runtime (
      then_call (codes "from_simulator: ") (b.from_simulator (codes "127.0.0.1:" ++ decimal port)) (
        then_call (codes "unlock_and_pair: ") b.unlock_and_pair (
          then_call (codes "wait_confirm: ") b.wait_confirm (
            then_call (codes "restore_from_mnemonic: ") b.restore_from_mnemonic
              (if_initialized b.device_info (fingerprint_of b.root_fingerprint)))))))

-- The low 24 bits of the hash, in six hexadecimal digits.
unfoldable pub random_suffix : ℕ → Text
random_suffix hash =
    let n = hash % 2 ^ 32 % 2 ^ 24 in
    hex_digit (n / 1048576)
    ∷ hex_digit (n / 65536 % 16)
    ∷ hex_digit (n / 4096 % 16)
    ∷ hex_digit (n / 256 % 16)
    ∷ hex_digit (n / 16 % 16)
    ∷ hex_digit (n % 16)
    ∷ []

then_call-ok :
    (name : Text) (o : Option Text) (rest : Result Text Text) (fp : Text)
    → then_call name o rest ≡ ok fp
    → (o ≡ none) × (rest ≡ ok fp)
unfolding then_call
then_call-ok name none rest fp e = (refl, e)
then_call-ok name (some msg) rest fp e = absurd cc

if_initialized-ok :
    (info : Result Text Bool) (rest : Result Text Text) (fp : Text)
    → if_initialized info rest ≡ ok fp
    → (info ≡ ok true) × (rest ≡ ok fp)
unfolding if_initialized
if_initialized-ok (err e) rest fp h = absurd cc
if_initialized-ok (ok true) rest fp h = (refl, h)
if_initialized-ok (ok false) rest fp h = absurd cc

fingerprint_of-ok : (r : Result Text Text) (fp : Text) → fingerprint_of r ≡ ok fp → r ≡ ok fp
unfolding fingerprint_of
fingerprint_of-ok (ok f) fp h = h
fingerprint_of-ok (err e) fp h = absurd cc

-- Seeding gives a fingerprint only when every call went well and the device reports that it is
-- initialized; it is the device's root fingerprint.
pub seed_bitbox02-ok :
    (b : BitBox) (port : ℕ) (fp : Text)
    → seed_bitbox02 b port ≡ ok fp
    → (b.restore_from_mnemonic ≡ none) × (b.device_info ≡ ok true) × (b.root_fingerprint ≡ ok fp)
unfolding seed_bitbox02
seed_bitbox02-ok b port fp e =
    let r1 = (then_call-ok _ b.panics _ fp e).1 in
    let r2 = (then_call-ok _ b.runtime _ fp r1).1 in
    let r3 = (then_call-ok _ _ _ fp r2).1 in
    let r4 = (then_call-ok _ b.unlock_and_pair _ fp r3).1 in
    let r5 = (then_call-ok _ b.wait_confirm _ fp r4).1 in
    let (restored, r6) = then_call-ok _ b.restore_from_mnemonic _ fp r5 in
    let (initialized, r7) = if_initialized-ok b.device_info _ fp r6 in
    (restored, initialized, fingerprint_of-ok b.root_fingerprint fp r7)

-- A start answers an instance only when its simulator has restored a seed, reports that it is
-- initialized, and shows a root fingerprint that is not the built-in seed's where other words were given.
pub start-seeded :
    (b : BitBox) (env : SpawnEnv) (req : StartRequest) (i : InstanceSummary) (m : Instances)
    (w : World)
    → env.seed ≡ seed_bitbox02 b
    → (start env req m w).0 ≡ ok i
    → (fp : Text) × (b.restore_from_mnemonic ≡ none)
      × (b.device_info ≡ ok true)
      × (b.root_fingerprint ≡ ok fp)
      × (wrong_seed (words_asked req) fp ≡ false)
start-seeded b env req i m w seeds works = elim (start-IsSettled env req m w) [
  | inl (e, fails, kept, same) ↦ absurd cc
  | inr r ↦
      let (restored, initialized, fingerprint) =
        seed_bitbox02-ok b r.seed.port r.seed.fingerprint
          (sym (ap (λ f. f r.seed.port) seeds) ∙ r.seed.seeded) in
      (r.seed.fingerprint, restored, initialized, fingerprint, r.seed.right)
]

-- A digit of 0 to 9 or a to f.
abbrev pub IsHexDigit : ℕ → Type 0
IsHexDigit c = (leb b'0' c && leb c b'9' || leb b'a' c && leb c b'f') ≡ true

hex_digit-IsHexDigit : (d : ℕ) → d < 16 → IsHexDigit (hex_digit d)
unfolding hex_digit
hex_digit-IsHexDigit d h = ground arith

hex_digit-inj : (d d' : ℕ) → d < 16 → d' < 16 → hex_digit d ≡ hex_digit d' → d ≡ d'
unfolding hex_digit
hex_digit-inj d d' h h' e = ground arith

cons-inj : {c c' : ℕ} {s s' : Text} → c ∷ s ≡ c' ∷ s' → (c ≡ c') × (s ≡ s')
cons-inj e = (cc, cc)

-- The suffix of an instance's id has six digits, each 0 to 9 or a to f, for every hash; two hashes have
-- the same suffix only where their low 24 bits agree.
pub random_suffix_lem :
    (h h' : ℕ)
    → (length (random_suffix h) ≡ 6)
      × All IsHexDigit (random_suffix h)
      × (random_suffix h ≡ random_suffix h' → h % 2 ^ 24 ≡ h' % 2 ^ 24)
unfolding random_suffix
random_suffix_lem h h' = (
  refl,
  (
    hex_digit-IsHexDigit _ (omega arith),
    (
      hex_digit-IsHexDigit _ (omega arith),
      (
        hex_digit-IsHexDigit _ (omega arith),
        (
          hex_digit-IsHexDigit _ (omega arith),
          (hex_digit-IsHexDigit _ (omega arith), (hex_digit-IsHexDigit _ (omega arith), tt)),
        ),
      ),
    ),
  ),
  λ e.
      let (p0, r0) = cons-inj e in
      let (p1, r1) = cons-inj r0 in
      let (p2, r2) = cons-inj r1 in
      let (p3, r3) = cons-inj r2 in
      let (p4, r4) = cons-inj r3 in
      let (p5, r5) = cons-inj r4 in
      omega (
        arith,
        hex_digit-inj _ _ (omega arith) (omega arith) p0,
        hex_digit-inj _ _ (omega arith) (omega arith) p1,
        hex_digit-inj _ _ (omega arith) (omega arith) p2,
        hex_digit-inj _ _ (omega arith) (omega arith) p3,
        hex_digit-inj _ _ (omega arith) (omega arith) p4,
        hex_digit-inj _ _ (omega arith) (omega arith) p5,
      ),
)
