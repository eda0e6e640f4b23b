-- ===== src/Bundler/Asset.antt =====
-- crates/bundler/src/download.rs: `parse_asset_name`. A text is the list of its characters.
pub mod Laws
use hwwctl.Prelude.{
  ℕ, ◌≡◌, ◌≢◌, refl, sym, ◌∙◌, ap, List, [], ◌∷◌, ◌++◌, Text, codes, text_eq, strip_prefix,
  strip_prefix-append, strip_prefix-eq, Bool, true, false, Option, none, some, ◌⊎◌, inl, inr, ◌↔◌,
  Option-cases, arith, append_assoc,
}
use hwwctl.Emulators.{WalletType, trezor, bitbox02, coldcard, specter, ledger, jade}

unfoldable pub reverse_onto : Text → Text → Text
reverse_onto acc [] = acc
reverse_onto acc (c ∷ s) = reverse_onto (c ∷ acc) s

-- `s.strip_suffix(p)`
unfoldable pub strip_suffix : Text → Text → Option Text
strip_suffix p s = elim (strip_prefix (reverse_onto [] p) (reverse_onto [] s)) [
  | none ↦ none
  | some t ↦ some (reverse_onto [] t)
]

-- The asset name's segment of a wallet.
unfoldable pub segment : WalletType → Text
segment bitbox02 = codes "bitbox02"
segment coldcard = codes "coldcard"
segment specter = codes "specter"
segment trezor = codes "trezor"
segment ledger = codes "ledger"
segment jade = codes "jade"

abbrev pub wallet_prefixes : List WalletType
wallet_prefixes = bitbox02 ∷ coldcard ∷ specter ∷ trezor ∷ ledger ∷ jade ∷ []

abbrev pub not_empty : WalletType → Text → Option (WalletType × Text)
not_empty w [] = none
not_empty w (c ∷ platform) = some (w, c ∷ platform)

-- The platform behind one segment and a dash.
unfoldable pub parse_wallet : WalletType → Text → Option (WalletType × Text)
parse_wallet w rest = elim (strip_prefix (segment w) rest) [
  | none ↦ none
  | some after ↦ (elim (strip_prefix (codes "-") after) [
    | none ↦ none
    | some platform ↦ not_empty w platform
  ])
]

unfoldable pub first_wallet : List WalletType → Text → Option (WalletType × Text)
first_wallet [] rest = none
first_wallet (w ∷ ws) rest =
    let next = first_wallet ws rest in
    elim (parse_wallet w rest) [ some found ↦ some found | none ↦ next ]

unfoldable pub parse_asset_name : Text → Option (WalletType × Text)
parse_asset_name name = elim (strip_suffix (codes ".tar.gz") name) [
  | none ↦ none
  | some stem ↦ (elim (strip_prefix (codes "hwwctl-") stem) [
    | none ↦ none
    | some rest ↦ first_wallet wallet_prefixes rest
  ])
]

-- The name of a bundle's asset.
abbrev pub asset_name : WalletType → Text → Text
asset_name w platform =
    codes "hwwctl-" ++ (segment w ++ (codes "-" ++ (platform ++ codes ".tar.gz")))
