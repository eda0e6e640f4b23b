-- ===== src/Bundler/Manager/Install.antt =====
-- crates/bundler/src/lib.rs: what `download` announces and what it leaves.
use hwwctl.Prelude.{ℕ, ◌≡◌, refl, List, ◌∷◌, false, Option, some, ◌⊎◌, inl, inr, arith}
use hwwctl.Bundler.Files.{PathBuf, Tree, create_dir_all}
use hwwctl.Bundler.Status.{
  Fault, BundleStatus, installed, failed, downloading, RemoteBundle, BundleManifest, State, Ran,
  returned, raised, and_then, attempt, attempted, send, Os, create_bundle_dir, download_failed,
  extraction_failed, manifest_failed,
}
use hwwctl.Bundler.Storage.{Json, bundle_dir, read_manifest, write_manifest}
use hwwctl.Bundler.Storage.Laws.{read_manifest-write_manifest}
use hwwctl.Bundler.Download.{HttpResponse, Entry, download_asset, extract_tarball}
use hwwctl.Bundler.Manager.{
  status, discard, step_failed, manifest_of, announce, install, download, join_path,
}

-- serde_json parses what it prints.
abbrev pub RoundTrips : Json → Type 0
RoundTrips json =
    (m : BundleManifest)
    → (bytes : List ℕ) × (json.to_string_pretty m ≡ some bytes) × (json.from_slice bytes ≡ some m)

-- The error of a step, in the context of its step.
abbrev pub IsStep : Fault → Fault → Type 0
IsStep e cause =
    (e ≡ download_failed cause) ⊎ (e ≡ extraction_failed cause) ⊎ (e ≡ manifest_failed cause)

-- The last status sent is what is on disk, or the error that is returned.
abbrev pub Announced : Json → PathBuf → RemoteBundle → Ran → Type 0
Announced json base_dir b (returned s) =
    (size : ℕ) × (before : List BundleStatus) × (s.sent ≡ installed b.version size ∷ before)
    × (status json base_dir b.wallet_type s.tree ≡ installed b.version size)
Announced json base_dir b (raised e s) =
    (cause : Fault) × (before : List BundleStatus) × (s.sent ≡ failed cause ∷ before)
    × IsStep e cause

module _ (os : Os) (json : Json) (base_dir : PathBuf) (b : RemoteBundle) where
  announce-Announced :
      (m : BundleManifest) (r : Ran)
      → m.version ≡ b.version
      → ((s : State) → r ≡ returned s → read_manifest json base_dir b.wallet_type s.tree ≡ some m)
      → Announced json base_dir b (announce b m.size_bytes r)
  unfolding announce send status
  announce-Announced m (returned s) v h = (m.size_bytes, s.sent, refl, rw (h s refl, v) refl)
  announce-Announced m (raised e s) v h = (e, s.sent, refl, inr (inr refl))

  install-Announced :
      (s : State) → RoundTrips json → Announced json base_dir b (install os json base_dir b s)
  unfolding install manifest_of
  install-Announced s trips =
      let m = manifest_of os (bundle_dir base_dir b.wallet_type) b s.tree in
      let (bytes, print, parse) = trips m in
      announce-Announced m (write_manifest os json base_dir b.wallet_type m s) refl (λ s' e.
        read_manifest-write_manifest os json base_dir b.wallet_type m bytes s s' print parse e)

  step_failed-Announced :
      (archive : PathBuf) (context : Fault → Fault) (r : Ran) (k : State → Ran)
      → ((cause : Fault) → IsStep (context cause) cause)
      → ((s : State) → Announced json base_dir b (k s))
      → Announced json base_dir b (step_failed os archive context r k)
  unfolding step_failed discard send
  step_failed-Announced archive context (returned s) k step h = h s
  step_failed-Announced archive context (raised e s) k step h = (e, s.sent, ground arith, step e)

-- Once the bundle's directory can be made, `download` ends with the status that it announces last: where it
-- comes back, the version is installed, with the size that it announces, and where it fails, the announced
-- error is the cause of the one that it returns.
pub download-Announced :
    (os : Os) (json : Json) (entries : List ℕ → Option (List Entry)) (answer : HttpResponse)
    (base_dir : PathBuf) (b : RemoteBundle) (s : State) (t : Tree)
    → RoundTrips json
    → os.refuses (create_bundle_dir (bundle_dir base_dir b.wallet_type)) ≡ false
    → create_dir_all (bundle_dir base_dir b.wallet_type) s.tree ≡ some t
    → Announced json base_dir b (download os json entries answer base_dir b s)
unfolding download attempt attempted and_then
download-Announced os json entries answer base_dir b s t trips allowed made =
    let bundle = bundle_dir base_dir b.wallet_type in
    let archive = join_path bundle b.asset_name in
    rw (allowed, made)
      (step_failed-Announced os json base_dir b archive download_failed
        (download_asset os answer archive (record s { tree = t }))
        (λ s.
          step_failed os archive extraction_failed
            (extract_tarball os entries archive bundle (send (downloading 100) s))
            (λ s. install os json base_dir b (discard os archive s)))
        (λ cause. inl refl)
        (λ s1.
          step_failed-Announced os json base_dir b archive extraction_failed
            (extract_tarball os entries archive bundle (send (downloading 100) s1))
            (λ s. install os json base_dir b (discard os archive s)) (λ cause. inr (inl refl))
            (λ s2. install-Announced os json base_dir b (discard os archive s2) trips)))
