-- ===== src/Emulators/Descriptor.antt =====
-- crates/emulators/src/wallet_config.rs: the report descriptors, read as the HID specification does.
use hwwctl.Prelude.{
  ℕ, suc, ◌+◌, ◌-◌, ◌*◌, ◌%◌, ◌≡◌, refl, subst, List, [], ◌∷◌, Option, none, some, ◌==◌,
  if◌then◌else◌, drop, zero,
}
use hwwctl.Emulators.{WalletType, trezor, bitbox02, coldcard, specter, ledger, jade}
use hwwctl.Emulators.Config.{HidConfig, bitbox02_hid, coldcard_hid, for_wallet}

-- The global items in force, the open collections, and the bits of input and output met so far.
pub record Reading : Type 0 where
  pub report_size : ℕ
  pub report_count : ℕ
  pub depth : ℕ
  pub input_bits : ℕ
  pub output_bits : ℕ

-- The value of an item's data, little endian.
abbrev value_of : ℕ → List ℕ → ℕ
value_of zero bytes = 0
value_of (suc n) [] = 0
value_of (suc n) (b ∷ bytes) = b + 256 * value_of n bytes

-- A short item: its low two bits are the size of its data, the rest its type and tag.
unfoldable pub item : ℕ → ℕ → Reading → Reading
item tag v r =
    if tag == 0x74
    then record r { report_size = v }
    else (if tag == 0x94
        then record r { report_count = v }
        else (if tag == 0xa0
            then record r { depth = suc r.depth }
            else (if tag == 0xc0
                then record r { depth = r.depth - 1 }
                else (if tag == 0x80
                    then record r { input_bits = r.input_bits + r.report_size * r.report_count }
                    else (if tag == 0x90
                        then record r {
                          output_bits = r.output_bits + r.report_size * r.report_count;
                        }
                        else r)))))

unfoldable pub read_items : ℕ → List ℕ → Reading → Option Reading
read_items fuel [] r = some r
read_items zero (p ∷ bytes) r = none
read_items (suc fuel) (p ∷ bytes) r =
    read_items fuel (drop (p % 4) bytes) (item (p - p % 4) (value_of (p % 4) bytes) r)

abbrev pub fresh : Reading
fresh = record { report_size = 0; report_count = 0; depth = 0; input_bits = 0; output_bits = 0 }

-- The descriptor declares, in collections that are all closed, an input and an output report of exactly
-- the configured size.
abbrev pub Declares : HidConfig → Type 0
Declares hid =
    (r : Reading) × (read_items 34 hid.report_descriptor fresh ≡ some r)
    × (r.input_bits ≡ 8 * hid.report_size)
    × (r.output_bits ≡ 8 * hid.report_size)
    × (r.depth ≡ 0)

bitbox02-Declares : Declares bitbox02_hid
unfolding read_items item
bitbox02-Declares = (_, refl, refl, refl, refl)

coldcard-Declares : Declares coldcard_hid
unfolding read_items item
coldcard-Declares = (_, refl, refl, refl, refl)

-- The descriptor of every wallet that has a virtual device declares, in collections that are all closed,
-- an input and an output report of exactly the configured report size.
pub for_wallet-Declares :
    (w : WalletType) (hid : HidConfig) → (for_wallet w).hid ≡ some hid → Declares hid
unfolding for_wallet
for_wallet-Declares trezor hid e = absurd cc
for_wallet-Declares bitbox02 hid e =
    let same : bitbox02_hid ≡ hid = cc in subst Declares same bitbox02-Declares
for_wallet-Declares coldcard hid e =
    let same : coldcard_hid ≡ hid = cc in subst Declares same coldcard-Declares
for_wallet-Declares specter hid e = absurd cc
for_wallet-Declares ledger hid e = absurd cc
for_wallet-Declares jade hid e = absurd cc
