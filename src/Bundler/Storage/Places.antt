-- ===== src/Bundler/Storage/Places.antt =====
-- crates/bundler/src/storage.rs: where manifests are, apart from one another.
use hwwctl.Prelude.{
  ◌≡◌, ◌≢◌, sym, refl, ◌∙◌, ap, [], ◌∷◌, ◌++◌, true, false, none, ◌⊎◌, inl, inr, Option-cases,
  Bool-cases, codes, text_eq, text_eq→eq, append_assoc, subst, if◌then◌else◌, arith,
}
use hwwctl.Emulators.{WalletType, trezor, bitbox02, coldcard, specter, ledger, jade}
use hwwctl.Bundler.Asset.{segment, asset_name}
use hwwctl.Bundler.Asset.Laws.{parse_asset_name_lem}
use hwwctl.Bundler.Files.{PathBuf, Tree, at, read, with_extension, erase, exists, before_last_dot}
use hwwctl.Bundler.Files.Put.{Apart, Apart-append, at-append, with_extension-append}
use hwwctl.Bundler.Files.Directories.{at-erase-append}
use hwwctl.Bundler.Storage.{Json, wallet_dir_name, bundle_dir, manifest_path, read_manifest}

-- The temporary file of a manifest.
abbrev pub tmp_path : PathBuf → WalletType → PathBuf
tmp_path base_dir w = with_extension (codes "json.tmp") (manifest_path base_dir w)

pub tmp_path-eq :
    (base_dir : PathBuf) (w : WalletType)
    → tmp_path base_dir w ≡ bundle_dir base_dir w ++ (codes "manifest.json.tmp" ∷ [])
unfolding with_extension before_last_dot manifest_path
tmp_path-eq base_dir w =
    with_extension-append (codes "json.tmp") (bundle_dir base_dir w) (codes "manifest.json")

-- Neither call before the last touches the manifest that is there.
pub manifest_path-Apart :
    (base_dir : PathBuf) (w : WalletType) → Apart (manifest_path base_dir w) (tmp_path base_dir w)
unfolding manifest_path text_eq
manifest_path-Apart base_dir w = rw (tmp_path-eq base_dir w) (
    Apart-append (bundle_dir base_dir w) (codes "manifest.json" ∷ [])
      (codes "manifest.json.tmp" ∷ []) tt)

wallet_dir_name-segment : (w : WalletType) → wallet_dir_name w ≡ segment w
unfolding wallet_dir_name segment
wallet_dir_name-segment trezor = refl
wallet_dir_name-segment bitbox02 = refl
wallet_dir_name-segment coldcard = refl
wallet_dir_name-segment specter = refl
wallet_dir_name-segment ledger = refl
wallet_dir_name-segment jade = refl

-- No two wallets share a directory, since they share no asset name.
wallet_dir_name_inj : (v w : WalletType) → wallet_dir_name v ≡ wallet_dir_name w → v ≡ w
wallet_dir_name_inj v w e =
    let same : segment v ≡ segment w =
      sym (wallet_dir_name-segment v) ∙ e ∙ wallet_dir_name-segment w in
    let name =
      ap (λ s. codes "hwwctl-" ++ (s ++ (codes "-" ++ (codes "x" ++ codes ".tar.gz")))) same in
    let of_v =
      (parse_asset_name_lem (asset_name v (codes "x")) v (codes "x")).1 (refl, λ bare. cc) in
    let of_w =
      (parse_asset_name_lem (asset_name v (codes "x")) w (codes "x")).1 (name, λ bare. cc) in
    ground (arith, of_v, of_w)

pub bundle_dir-Apart :
    (base_dir : PathBuf) (v w : WalletType) (q : PathBuf)
    → v ≢ w
    → Apart (bundle_dir base_dir v ++ q) (bundle_dir base_dir w)
unfolding bundle_dir
bundle_dir-Apart base_dir v w q ne = rw (append_assoc base_dir (wallet_dir_name v ∷ []) q) (
    Apart-append base_dir (wallet_dir_name v ∷ q) (wallet_dir_name w ∷ [])
      (differ (Bool-cases (text_eq (wallet_dir_name v) (wallet_dir_name w)))))
  where
    differ :
        (text_eq (wallet_dir_name v) (wallet_dir_name w) ≡ true)
          ⊎ (text_eq (wallet_dir_name v) (wallet_dir_name w) ≡ false)
        → Apart (wallet_dir_name v ∷ q) (wallet_dir_name w ∷ [])
    differ (inl eq) = absurd (ne (wallet_dir_name_inj v w (text_eq→eq _ _ eq)))
    differ (inr ne_b) = subst (λ b. if b then Apart q [] else Unit) (sym ne_b) tt

-- The manifest of another wallet is beside it.
pub manifest_path-Apart_other :
    (base_dir : PathBuf) (v w : WalletType)
    → v ≢ w
    → Apart (manifest_path base_dir v) (bundle_dir base_dir w)
unfolding manifest_path
manifest_path-Apart_other base_dir v w ne =
    bundle_dir-Apart base_dir v w (codes "manifest.json" ∷ []) ne

-- A bundle that is removed has no manifest.
pub read_manifest-erase :
    (json : Json) (base_dir : PathBuf) (w : WalletType) (t : Tree)
    → read_manifest json base_dir w (erase (bundle_dir base_dir w) t) ≡ none
unfolding read_manifest read manifest_path bundle_dir
read_manifest-erase json base_dir w t =
    rw (at-erase-append base_dir (wallet_dir_name w) (codes "manifest.json" ∷ []) t) refl

pub read_manifest-absent :
    (json : Json) (base_dir : PathBuf) (w : WalletType) (t : Tree)
    → exists (bundle_dir base_dir w) t ≡ false
    → read_manifest json base_dir w t ≡ none
unfolding read_manifest read manifest_path exists
read_manifest-absent json base_dir w t h =
    rw (at-append (bundle_dir base_dir w) (codes "manifest.json" ∷ []) t)
      (elim (Option-cases (at (bundle_dir base_dir w) t)) [
        | inl miss ↦ rw miss refl
        | inr (u, hit) ↦ absurd (ground (arith, h, hit))
      ])
