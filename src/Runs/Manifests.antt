-- ===== src/Runs/Manifests.antt =====
-- A codec of manifests in the place of serde_json, for the runs of the bundle manager.
use hwwctl.Prelude.{
  ℕ, zero, suc, ◌≡◌, refl, List, [], ◌∷◌, ◌++◌, length, take, drop, take-append_left,
  drop-append_left, Text, Option, none, some,
}
use hwwctl.Emulators.{WalletType, trezor, bitbox02, coldcard, specter, ledger, jade}
use hwwctl.Bundler.Status.{BundleManifest}
use hwwctl.Bundler.Storage.{Json}
use hwwctl.Bundler.Manager.Install.{RoundTrips}

-- A codec in the place of serde_json: each text behind its length.
abbrev with_text : Text → List ℕ → List ℕ
with_text t rest = length t ∷ (t ++ rest)

abbrev on_text {ℓ} : {A : Type ℓ} → (Text → List ℕ → Option A) → List ℕ → Option A
on_text k [] = none
on_text k (n ∷ rest) = k (take n rest) (drop n rest)

abbrev wallet_number : WalletType → ℕ
wallet_number trezor = 0
wallet_number bitbox02 = 1
wallet_number coldcard = 2
wallet_number specter = 3
wallet_number ledger = 4
wallet_number jade = 5

abbrev numbered : ℕ → WalletType
numbered zero = trezor
numbered (suc zero) = bitbox02
numbered (suc (suc zero)) = coldcard
numbered (suc (suc (suc zero))) = specter
numbered (suc (suc (suc (suc zero)))) = ledger
numbered (suc (suc (suc (suc (suc n))))) = jade

numbered-wallet_number : (w : WalletType) → numbered (wallet_number w) ≡ w
numbered-wallet_number trezor = refl
numbered-wallet_number bitbox02 = refl
numbered-wallet_number coldcard = refl
numbered-wallet_number specter = refl
numbered-wallet_number ledger = refl
numbered-wallet_number jade = refl

abbrev firmware_codes : Option Text → List ℕ
firmware_codes none = []
firmware_codes (some t) = 0 ∷ t

abbrev firmware_of : List ℕ → Option Text
firmware_of [] = none
firmware_of (n ∷ t) = some t

firmware_of-firmware_codes : (o : Option Text) → firmware_of (firmware_codes o) ≡ o
firmware_of-firmware_codes none = refl
firmware_of-firmware_codes (some t) = refl

abbrev pub print : BundleManifest → List ℕ
print m =
    wallet_number m.wallet_type
    ∷ m.size_bytes
    ∷ with_text m.version (
        with_text m.platform
          (with_text m.installed_at (with_text m.emulator_binary (firmware_codes m.firmware_dir))))

abbrev parse_texts : WalletType → ℕ → List ℕ → Option BundleManifest
parse_texts w size = on_text (λ v. on_text (λ p. on_text (λ at. on_text (λ b rest. some (record {
  wallet_type = w;
  version = v;
  platform = p;
  installed_at = at;
  size_bytes = size;
  emulator_binary = b;
  firmware_dir = firmware_of rest;
})))))

abbrev parse : List ℕ → Option BundleManifest
parse [] = none
parse (w ∷ []) = none
parse (w ∷ size ∷ rest) = parse_texts (numbered w) size rest

abbrev pub json : Json
json = record { to_string_pretty = λ m. some (print m); from_slice = parse }

pub json-RoundTrips : RoundTrips json
json-RoundTrips m =
    let r4 = firmware_codes m.firmware_dir in
    let r3 = with_text m.emulator_binary r4 in
    let r2 = with_text m.installed_at r3 in
    let r1 = with_text m.platform r2 in
    (
      print m,
      refl,
      rw
          (
            take-append_left (length m.version) m.version r1 refl,
            drop-append_left (length m.version) m.version r1 refl,
            take-append_left (length m.platform) m.platform r2 refl,
            drop-append_left (length m.platform) m.platform r2 refl,
            take-append_left (length m.installed_at) m.installed_at r3 refl,
            drop-append_left (length m.installed_at) m.installed_at r3 refl,
            take-append_left (length m.emulator_binary) m.emulator_binary r4 refl,
            drop-append_left (length m.emulator_binary) m.emulator_binary r4 refl,
            numbered-wallet_number m.wallet_type,
            firmware_of-firmware_codes m.firmware_dir,
          )
          refl,
    )
