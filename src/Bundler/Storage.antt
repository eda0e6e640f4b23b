-- ===== src/Bundler/Storage.antt =====
-- crates/bundler/src/storage.rs: where bundles are on disk, and their manifests. The JSON of serde_json is
-- a parameter.
pub mod Places
pub mod Laws
use hwwctl.Prelude.{
  ℕ, List, [], ◌∷◌, ◌++◌, Text, codes, Bool, true, false, Option, none, some, if◌then◌else◌, arith,
  take,
}
use hwwctl.Emulators.{WalletType, trezor, bitbox02, coldcard, specter, ledger, jade}
use hwwctl.Bundler.Files.{
  PathBuf, Tree, read, write, create_dir_all, rename, exists, erase, with_extension,
}
use hwwctl.Bundler.Status.{
  Fault, BundleManifest, State, Ran, returned, raised, and_then, attempt, Os, create_manifest_dir,
  remove_bundle_dir, write_tmp_manifest, rename_manifest, serialize_manifest,
}

-- serde_json on manifests: `to_string_pretty` may fail, and so may `from_slice`.
pub record Json : Type 0 where
  pub to_string_pretty : BundleManifest → Option (List ℕ)
  pub from_slice : List ℕ → Option BundleManifest

unfoldable pub wallet_dir_name : WalletType → Text
wallet_dir_name trezor = codes "trezor"
wallet_dir_name bitbox02 = codes "bitbox02"
wallet_dir_name coldcard = codes "coldcard"
wallet_dir_name specter = codes "specter"
wallet_dir_name ledger = codes "ledger"
wallet_dir_name jade = codes "jade"

-- The storage is its `base_dir`.
unfoldable pub bundle_dir : PathBuf → WalletType → PathBuf
bundle_dir base_dir w = base_dir ++ (wallet_dir_name w ∷ [])

unfoldable pub manifest_path : PathBuf → WalletType → PathBuf
manifest_path base_dir w = bundle_dir base_dir w ++ (codes "manifest.json" ∷ [])

abbrev parse_manifest : Json → Option (List ℕ) → Option BundleManifest
parse_manifest json none = none
parse_manifest json (some bytes) = json.from_slice bytes

unfoldable pub read_manifest : Json → PathBuf → WalletType → Tree → Option BundleManifest
read_manifest json base_dir w t = parse_manifest json (read (manifest_path base_dir w) t)

unfoldable pub torn : Fault → Option Tree → State → Ran
torn e none s = raised e s
torn e (some t) s = raised e (record s { tree = t })

-- `fs::write` of the temporary file: a refused one leaves a part of the bytes.
unfoldable pub write_tmp : Os → PathBuf → List ℕ → State → Ran
write_tmp os tmp bytes s =
    if os.refuses (write_tmp_manifest tmp)
    then torn (write_tmp_manifest tmp) (write tmp (take os.written bytes) s.tree) s
    else attempt os (write_tmp_manifest tmp) (write tmp bytes s.tree) s

-- What follows the serialization.
unfoldable pub write_json : Os → PathBuf → Option (List ℕ) → State → Ran
write_json os path none s = raised serialize_manifest s
write_json os path (some bytes) s =
    let tmp = with_extension (codes "json.tmp") path in
    and_then (write_tmp os tmp bytes s)
      (λ s. attempt os (rename_manifest path) (rename tmp path s.tree) s)

unfoldable pub write_manifest : Os → Json → PathBuf → WalletType → BundleManifest → State → Ran
write_manifest os json base_dir w m s =
    let dir = bundle_dir base_dir w in
    and_then (attempt os (create_manifest_dir dir) (create_dir_all dir s.tree) s)
      (λ s. write_json os (manifest_path base_dir w) (json.to_string_pretty m) s)

unfoldable pub remove_bundle : Os → PathBuf → WalletType → State → Ran
remove_bundle os base_dir w s =
    let dir = bundle_dir base_dir w in
    if exists dir s.tree
    then attempt os (remove_bundle_dir dir) (some (erase dir s.tree)) s
    else returned s
