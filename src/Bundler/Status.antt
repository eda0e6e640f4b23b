-- ===== src/Bundler/Status.antt =====
-- crates/bundler/src/lib.rs and crates/bundler/src/manifest.rs: the types of bundles, and how an
-- operation on them runs. An error is named by the place that raises it: `Fault` has one constructor for
-- each `context` of the source, with the paths that its text names.
pub mod Frame
use hwwctl.Prelude.{
  ℕ, List, [], ◌∷◌, Text, Bool, true, false, Option, none, some, if◌then◌else◌, arith, ◌+◌, ◌≡◌,
  refl, ◌⊎◌, inl, inr,
}
use hwwctl.Emulators.{WalletType}
use hwwctl.Bundler.Files.{PathBuf, Tree}

-- The number in `write_chunk` and in what follows it is the place of the chunk or the archive entry.
pub data Fault : Type 0 where
  create_bundle_dir create_dest_dir remove_bundle_dir write_tmp_manifest rename_manifest :
      PathBuf → Fault
  create_manifest_dir create_tmp open_archive remove_archive : PathBuf → Fault
  initiate_download read_stream flush_file serialize_manifest : Fault
  http_status write_chunk : ℕ → Fault
  rename_download : PathBuf → PathBuf → Fault
  read_archive read_entry invalid_path : Fault
  create_directory create_parent unpack_entry : ℕ → PathBuf → Fault
  download_failed extraction_failed manifest_failed : Fault → Fault

pub data BundleStatus : Type 0 where
  not_installed : BundleStatus
  downloading : ℕ → BundleStatus
  installed : Text → ℕ → BundleStatus
  failed : Fault → BundleStatus

pub record RemoteBundle : Type 0 where
  pub wallet_type : WalletType
  pub version : Text
  pub platform : Text
  pub download_url : Text
  pub size_bytes : ℕ
  pub asset_name : Text

-- `build_info` is left out: it is always null here.
pub record BundleManifest : Type 0 where
  pub wallet_type : WalletType
  pub version : Text
  pub platform : Text
  pub installed_at : Text
  pub size_bytes : ℕ
  pub emulator_binary : Text
  pub firmware_dir : Option Text

-- The file system, and what was sent to the progress channel, the latest first.
pub record State : Type 0 where
  pub tree : Tree
  pub sent : List BundleStatus

pub data Ran : Type 0 where
  returned : State → Ran
  raised : Fault → State → Ran

-- `?`
unfoldable pub and_then : Ran → (State → Ran) → Ran
and_then (returned s) k = k s
and_then (raised e s) k = raised e s

unfoldable pub send : BundleStatus → State → State
send status s = record s { sent = status ∷ s.sent }

-- The system may refuse any call, and a write that it refuses leaves that much of the bytes.
pub record Os : Type 0 where
  pub refuses : Fault → Bool
  pub written : ℕ
  pub now_secs : ℕ

unfoldable pub attempted : Fault → Option Tree → State → Ran
attempted e none s = raised e s
attempted e (some t) s = returned (record s { tree = t })

-- A call of `std::fs` with its context.
unfoldable pub attempt : Os → Fault → Option Tree → State → Ran
unfolding attempted
attempt os e result s = if os.refuses e then raised e s else attempted e result s
