-- ===== src/Bundler/Manager.antt =====
-- crates/bundler/src/lib.rs: `BundleManager` and its helpers. `current_platform` is a parameter, as the
-- compiler's target is.
pub mod Contents
pub mod Failure
pub mod Install
pub mod Removal
use hwwctl.Prelude.{
  ℕ, zero, suc, ◌+◌, List, [], ◌∷◌, ◌++◌, Text, codes, Bool, true, false, not, ◌&&◌, Option, none,
  some, if◌then◌else◌, arith, length, ◌==◌, map,
}
use hwwctl.Emulators.{
  WalletType, trezor, bitbox02, coldcard, specter, ledger, jade, wallet_type_text,
}
use hwwctl.Control.Wallet.{to_ascii_lowercase}
use hwwctl.Bundler.Calendar.{current_timestamp}
use hwwctl.Bundler.Files.{
  PathBuf, Tree, file, dir, Entries, end, entry, at, exists, is_dir, create_dir_all, remove_file,
}
use hwwctl.Bundler.Status.{
  Fault, BundleStatus, not_installed, installed, failed, downloading, RemoteBundle, BundleManifest,
  State, Ran, returned, raised, and_then, attempt, send, Os, create_bundle_dir, remove_archive,
  download_failed, extraction_failed, manifest_failed,
}
use hwwctl.Bundler.Storage.{Json, bundle_dir, read_manifest, write_manifest, remove_bundle}
use hwwctl.Bundler.Download.{
  Queried, Fetched, fetched, HttpResponse, Entry, fetch_available, on_platform, download_asset,
  extract_tarball,
}

abbrev here_only : Text → Fetched → Fetched
here_only platform (fetched bundles) = fetched (on_platform platform bundles)
here_only platform failure = failure

unfoldable pub list_remote : Text → Queried → Fetched
list_remote current_platform q = here_only current_platform (fetch_available q)

abbrev installed_status : Option BundleManifest → BundleStatus
installed_status none = not_installed
installed_status (some m) = installed m.version m.size_bytes

-- `BundleManager::status`
unfoldable pub status : Json → PathBuf → WalletType → Tree → BundleStatus
status json base_dir w t = installed_status (read_manifest json base_dir w t)

abbrev put_word : Text → PathBuf → PathBuf
put_word [] split = split
put_word (c ∷ word) split = (c ∷ word) ∷ split

-- The components of a relative path, with `word` for the characters of the one being read.
unfoldable pub components : Text → Text → PathBuf
components word [] = put_word word []
components word (c ∷ s) =
    let split = components [] s in
    let on = components (word ++ (c ∷ [])) s in if c == b'/' then put_word word split else on

-- `path.join(rel)`, which an absolute `rel` replaces
unfoldable pub join_path : PathBuf → Text → PathBuf
join_path p [] = p
join_path p (c ∷ rel) = if c == b'/' then components [] rel else p ++ components [] (c ∷ rel)

unfoldable pub emulator_binary_path : Json → PathBuf → WalletType → Tree → Option PathBuf
emulator_binary_path json base_dir w t = elim (read_manifest json base_dir w t) [
  | none ↦ none
  | some m ↦ some (join_path (bundle_dir base_dir w) m.emulator_binary)
]

abbrev joined_firmware : PathBuf → Option Text → Option PathBuf
joined_firmware p none = none
joined_firmware p (some rel) = some (join_path p rel)

unfoldable pub firmware_dir : Json → PathBuf → WalletType → Tree → Option PathBuf
firmware_dir json base_dir w t = elim (read_manifest json base_dir w t) [
  | none ↦ none
  | some m ↦ joined_firmware (bundle_dir base_dir w) m.firmware_dir
]

unfoldable pub candidates : WalletType → List Text
candidates trezor = codes "trezor-emu-core" ∷ codes "trezord-go" ∷ codes "trezord" ∷ []
candidates bitbox02 = codes "bitbox02-emu" ∷ codes "bitbox02-simulator" ∷ []
candidates coldcard = codes "coldcard-emu" ∷ codes "coldcard" ∷ []
candidates specter = codes "specter-emu" ∷ codes "specter" ∷ []
candidates ledger = codes "ledger-emu" ∷ codes "nanos-secure-sdk" ∷ codes "ledger" ∷ []
candidates jade = codes "jade-emu" ∷ codes "jade" ∷ []

unfoldable pub first_existing : PathBuf → List Text → Tree → Option Text
first_existing p [] t = none
first_existing p (name ∷ names) t =
    let rest = first_existing p names t in if exists (p ++ (name ∷ [])) t then some name else rest

unfoldable pub first_executable : Entries → Option Text
first_executable end = none
first_executable (entry name (file x b) es) =
    let rest = first_executable es in if x then some name else rest
first_executable (entry name (dir inner) es) = first_executable es

abbrev pub entries_at : Option Tree → Entries
entries_at (some (dir es)) = es
entries_at (some (file x b)) = end
entries_at none = end

abbrev or_else : Option Text → Text → Text
or_else (some name) other = name
or_else none other = other

-- The names of wallets are ASCII, so `to_lowercase` is `to_ascii_lowercase` on them.
unfoldable pub find_emulator_binary : PathBuf → WalletType → Tree → Text
find_emulator_binary p w t =
    or_else (first_existing p (candidates w) t)
      (or_else (first_executable (entries_at (at p t))) (to_ascii_lowercase (wallet_type_text w)))

unfoldable pub first_directory : PathBuf → List Text → Tree → Option Text
first_directory p [] t = none
first_directory p (name ∷ names) t =
    let rest = first_directory p names t in if is_dir (p ++ (name ∷ [])) t then some name else rest

unfoldable pub detect_firmware_dir : PathBuf → Tree → Option Text
detect_firmware_dir p t = first_directory p (codes "data" ∷ codes "firmware" ∷ codes "flash" ∷ []) t

-- `collect`, with the entries found so far, the latest last: each is a file, kept as its bytes.
unfoldable pub collect : Entries → List (List ℕ) → List (List ℕ)
collect end out = out
collect (entry name (file x b) es) out = collect es (out ++ (b ∷ []))
collect (entry name (dir inner) es) out = collect es (collect inner out)

unfoldable pub walkdir : PathBuf → Tree → List (List ℕ)
walkdir p t = collect (entries_at (at p t)) []

-- The loop of `dir_size`
unfoldable pub add_sizes : ℕ → List (List ℕ) → ℕ
add_sizes total [] = total
add_sizes total (b ∷ bs) = add_sizes (total + length b) bs

unfoldable pub dir_size : PathBuf → Tree → ℕ
dir_size p t = add_sizes 0 (walkdir p t)

-- `let _ = std::fs::remove_file(&archive_path)`
unfoldable pub discard : Os → PathBuf → State → State
discard os p s =
    if os.refuses (remove_archive p) then s else record s { tree = remove_file p s.tree }

-- What `download` does where the download or the extraction fails.
unfoldable pub step_failed : Os → PathBuf → (Fault → Fault) → Ran → (State → Ran) → Ran
step_failed os archive context (returned s) k = k s
step_failed os archive context (raised e s) k =
    raised (context e) (discard os archive (send (failed e) s))

unfoldable pub manifest_of : Os → PathBuf → RemoteBundle → Tree → BundleManifest
manifest_of os bundle b t = record {
  wallet_type = b.wallet_type;
  version = b.version;
  platform = b.platform;
  installed_at = current_timestamp os.now_secs;
  size_bytes = dir_size bundle t;
  emulator_binary = find_emulator_binary bundle b.wallet_type t;
  firmware_dir = detect_firmware_dir bundle t;
}

-- The end of `download`, on the outcome of `write_manifest`
unfoldable pub announce : RemoteBundle → ℕ → Ran → Ran
announce b size (returned s) = returned (send (installed b.version size) s)
announce b size (raised e s) = raised (manifest_failed e) (send (failed e) s)

-- Steps 3 to 5 of `download`
unfoldable pub install : Os → Json → PathBuf → RemoteBundle → State → Ran
install os json base_dir b s =
    let m = manifest_of os (bundle_dir base_dir b.wallet_type) b s.tree in
    announce b m.size_bytes (write_manifest os json base_dir b.wallet_type m s)

unfoldable pub download :
    Os → Json → (List ℕ → Option (List Entry)) → HttpResponse → PathBuf → RemoteBundle → State → Ran
download os json entries answer base_dir b s =
    let bundle = bundle_dir base_dir b.wallet_type in
    let archive = join_path bundle b.asset_name in
    and_then (attempt os (create_bundle_dir bundle) (create_dir_all bundle s.tree) s) (λ s.
      step_failed os archive download_failed (download_asset os answer archive s) (λ s.
        step_failed os archive extraction_failed
          (extract_tarball os entries archive bundle (send (downloading 100) s))
          (λ s. install os json base_dir b (discard os archive s))))

unfoldable pub remove : Os → PathBuf → WalletType → State → Ran
remove os base_dir w s = remove_bundle os base_dir w s
