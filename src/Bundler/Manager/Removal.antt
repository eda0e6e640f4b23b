-- ===== src/Bundler/Manager/Removal.antt =====
-- crates/bundler/src/lib.rs: what `remove` leaves.
use hwwctl.Prelude.{◌≡◌, ◌≢◌, refl, false, inl, inr, Bool-cases}
use hwwctl.Emulators.{WalletType}
use hwwctl.Bundler.Files.{PathBuf, Tree, read, erase, exists}
use hwwctl.Bundler.Files.Directories.{at-erase-Apart}
use hwwctl.Bundler.Status.{
  not_installed, State, returned, attempt, attempted, Os, remove_bundle_dir,
}
use hwwctl.Bundler.Storage.{Json, bundle_dir, manifest_path, read_manifest, remove_bundle}
use hwwctl.Bundler.Storage.Places.{manifest_path-Apart_other}
use hwwctl.Bundler.Storage.Places.{read_manifest-erase, read_manifest-absent}
use hwwctl.Bundler.Manager.{status, remove}

status-erase_other :
    (json : Json) (base_dir : PathBuf) (v w : WalletType) (t : Tree)
    → v ≢ w
    → status json base_dir v (erase (bundle_dir base_dir w) t) ≡ status json base_dir v t
unfolding status read_manifest read
status-erase_other json base_dir v w t ne =
    rw
      (at-erase-Apart (manifest_path base_dir v) (bundle_dir base_dir w) t
        (manifest_path-Apart_other base_dir v w ne))
      refl

-- Removing a wallet's bundle, where the system does not refuse it, comes back whether or not there is one:
-- the wallet is then not installed, and the status of every other wallet is what it was.
pub status-remove :
    (os : Os) (json : Json) (base_dir : PathBuf) (w : WalletType) (s : State)
    → os.refuses (remove_bundle_dir (bundle_dir base_dir w)) ≡ false
    → (s' : State) × (remove os base_dir w s ≡ returned s')
      × (status json base_dir w s'.tree ≡ not_installed)
      × ((v : WalletType) → v ≢ w → status json base_dir v s'.tree ≡ status json base_dir v s.tree)
unfolding remove remove_bundle attempt attempted status
status-remove os json base_dir w s allowed =
    elim (Bool-cases (exists (bundle_dir base_dir w) s.tree)) [
      | inl there ↦ (
        record s { tree = erase (bundle_dir base_dir w) s.tree },
        rw (there, allowed) refl,
        rw (read_manifest-erase json base_dir w s.tree) refl,
        λ v ne. status-erase_other json base_dir v w s.tree ne,
      )
      | inr absent ↦ (
        s,
        rw absent refl,
        rw (read_manifest-absent json base_dir w s.tree absent) refl,
        λ v ne. refl,
      )
    ]
