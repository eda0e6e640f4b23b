-- ===== src/Bundler/Manager/Failure.antt =====
-- crates/bundler/src/lib.rs: what a `download` that fails leaves, and what any leaves of other wallets.
use hwwctl.Prelude.{
  ℕ, ◌≡◌, ◌≢◌, refl, sym, ◌∙◌, subst, List, [], ◌∷◌, ◌++◌, All, true, false, codes, Option, some,
  Text, arith,
}
use hwwctl.Emulators.{WalletType}
use hwwctl.Bundler.Files.{PathBuf, Tree, at, read, write, create_dir_all, with_extension}
use hwwctl.Bundler.Files.Put.{Apart, Apart-append_right, with_extension-append}
use hwwctl.Bundler.Files.Directories.{at-create_dir_all-Apart, at-create_dir_all-below}
use hwwctl.Bundler.Files.Calls.{at-remove_file-Apart}
use hwwctl.Bundler.Status.{
  Fault, RemoteBundle, State, Ran, returned, raised, and_then, attempt, attempted, send, failed,
  downloading, Os, create_bundle_dir, download_failed, extraction_failed, read_stream,
}
use hwwctl.Bundler.Status.Frame.{Keeps, final, and_then-Keeps, attempt-Keeps}
use hwwctl.Bundler.Storage.{Json, bundle_dir, manifest_path, read_manifest, write_manifest}
use hwwctl.Bundler.Storage.Places.{manifest_path-Apart_other}
use hwwctl.Bundler.Storage.Laws.{write_manifest-Keeps}
use hwwctl.Bundler.Download.{
  HttpResponse, response, Chunk, Entry, download_asset, extract_tarball, is_success,
}
use hwwctl.Bundler.Download.Extract.{IsPlain, extract_tarball-Keeps}
use hwwctl.Bundler.Download.Partial.{
  tmp_file, download_asset-Keeps, download_asset-breaks, breaks, arrived,
}
use hwwctl.Bundler.Manager.{
  status, discard, step_failed, manifest_of, announce, install, download, join_path,
}

discard-at :
    (p archive : PathBuf) (os : Os) (s : State)
    → Apart p archive
    → at p (discard os archive s).tree ≡ at p s.tree
unfolding discard
discard-at p archive os s a = ground (arith, at-remove_file-Apart p archive s.tree a)

step_failed-Keeps :
    (p archive : PathBuf) (x : Option Tree) (os : Os) (context : Fault → Fault) (r : Ran)
    (k : State → Ran)
    → Apart p archive
    → Keeps p x r
    → ((s : State) → at p s.tree ≡ x → Keeps p x (k s))
    → Keeps p x (step_failed os archive context r k)
unfolding step_failed send
step_failed-Keeps p archive x os context (returned s) k a h hk = hk s h
step_failed-Keeps p archive x os context (raised e s) k a h hk =
    discard-at p archive os (send (failed e) s) a ∙ h

announce-Keeps :
    (p : PathBuf) (x : Option Tree) (b : RemoteBundle) (size : ℕ) (r : Ran)
    → Keeps p x r
    → Keeps p x (announce b size r)
unfolding announce send
announce-Keeps p x b size (returned s) h = h
announce-Keeps p x b size (raised e s) h = h

install-Keeps :
    (os : Os) (json : Json) (base_dir : PathBuf) (b : RemoteBundle) (p : PathBuf) (x : Option Tree)
    (s : State)
    → Apart p (bundle_dir base_dir b.wallet_type)
    → at p s.tree ≡ x
    → Keeps p x (install os json base_dir b s)
unfolding install
install-Keeps os json base_dir b p x s a h =
    let m = manifest_of os (bundle_dir base_dir b.wallet_type) b s.tree in
    announce-Keeps p x b m.size_bytes (write_manifest os json base_dir b.wallet_type m s)
      (write_manifest-Keeps os json base_dir b.wallet_type m s p a ∙ h)

-- What is beside a bundle's directory is kept by its download.
download-Keeps :
    (os : Os) (json : Json) (entries : List ℕ → Option (List Entry)) (answer : HttpResponse)
    (base_dir : PathBuf) (b : RemoteBundle) (name : Text) (p : PathBuf) (s : State)
    → ((c : List ℕ) (es : List Entry) → entries c ≡ some es → All IsPlain es)
    → join_path (bundle_dir base_dir b.wallet_type) b.asset_name
      ≡ bundle_dir base_dir b.wallet_type ++ (name ∷ [])
    → Apart p (bundle_dir base_dir b.wallet_type)
    → Keeps p (at p s.tree) (download os json entries answer base_dir b s)
unfolding download send
download-Keeps os json entries answer base_dir b name p s plain inside a =
    let x = at p s.tree in
    let bundle = bundle_dir base_dir b.wallet_type in
    let archive = join_path bundle b.asset_name in
    let a_archive : Apart p archive =
      subst (Apart p) (sym inside) (Apart-append_right p bundle (name ∷ []) a) in
    let a_tmp : Apart p (tmp_file archive) =
      subst (λ q. Apart p (tmp_file q)) (sym inside)
        (subst (Apart p) (sym (with_extension-append (codes "tar.gz.tmp") bundle name))
          (Apart-append_right p bundle (with_extension (codes "tar.gz.tmp") (name ∷ [])) a)) in
    and_then-Keeps p x (attempt os (create_bundle_dir bundle) (create_dir_all bundle s.tree) s)
      (λ s. step_failed os archive download_failed (download_asset os answer archive s) (λ s.
        step_failed os archive extraction_failed
          (extract_tarball os entries archive bundle (send (downloading 100) s))
          (λ s. install os json base_dir b (discard os archive s))))
      (attempt-Keeps p x os (create_bundle_dir bundle) (create_dir_all bundle s.tree) s refl
        (λ u. at-create_dir_all-Apart p bundle s.tree u a))
      (λ s1 h1.
        step_failed-Keeps p archive x os download_failed (download_asset os answer archive s1)
          (λ s.
            step_failed os archive extraction_failed
              (extract_tarball os entries archive bundle (send (downloading 100) s))
              (λ s. install os json base_dir b (discard os archive s)))
          a_archive (download_asset-Keeps p archive x os answer s1 a_archive a_tmp h1)
          (λ s2 h2.
            step_failed-Keeps p archive x os extraction_failed
              (extract_tarball os entries archive bundle (send (downloading 100) s2))
              (λ s. install os json base_dir b (discard os archive s)) a_archive
              (extract_tarball-Keeps os entries archive bundle p (send (downloading 100) s2) plain a
                ∙ h2)
              (λ s3 h3.
                install-Keeps os json base_dir b p x (discard os archive s3) a
                  (discard-at p archive os s3 a_archive ∙ h3))))

status-at :
    (json : Json) (base_dir : PathBuf) (v : WalletType) (t u : Tree)
    → at (manifest_path base_dir v) u ≡ at (manifest_path base_dir v) t
    → status json base_dir v u ≡ status json base_dir v t
unfolding status read_manifest read
status-at json base_dir v t u h = rw h refl

-- However a download ends, no other wallet's status changes, on a disk without links and provided that the
-- asset's name is one component of a path and that the archive holds only directories and files, no links,
-- whose paths have only names behind their first component.
pub status-download_other :
    (os : Os) (json : Json) (entries : List ℕ → Option (List Entry)) (answer : HttpResponse)
    (base_dir : PathBuf) (b : RemoteBundle) (name : Text) (v : WalletType) (s : State)
    → ((c : List ℕ) (es : List Entry) → entries c ≡ some es → All IsPlain es)
    → join_path (bundle_dir base_dir b.wallet_type) b.asset_name
      ≡ bundle_dir base_dir b.wallet_type ++ (name ∷ [])
    → v ≢ b.wallet_type
    → status json base_dir v (final (download os json entries answer base_dir b s)).tree
      ≡ status json base_dir v s.tree
status-download_other os json entries answer base_dir b name v s plain inside ne =
    status-at json base_dir v s.tree (final (download os json entries answer base_dir b s)).tree (
      download-Keeps os json entries answer base_dir b name (manifest_path base_dir v) s plain
        inside (manifest_path-Apart_other base_dir v b.wallet_type ne))

-- Where the asset cannot be downloaded, the error is announced and returned in its context, and the wallet's
-- status is what it was. The archive and the temporary file must not be the manifest's path.
pub status-download_failed :
    (os : Os) (json : Json) (entries : List ℕ → Option (List Entry)) (answer : HttpResponse)
    (base_dir : PathBuf) (b : RemoteBundle) (s s1 : State) (t : Tree) (e : Fault)
    → os.refuses (create_bundle_dir (bundle_dir base_dir b.wallet_type)) ≡ false
    → create_dir_all (bundle_dir base_dir b.wallet_type) s.tree ≡ some t
    → download_asset os answer
        (join_path (bundle_dir base_dir b.wallet_type) b.asset_name)
        (record s { tree = t })
      ≡ raised e s1
    → Apart
        (manifest_path base_dir b.wallet_type)
        (join_path (bundle_dir base_dir b.wallet_type) b.asset_name)
    → Apart
        (manifest_path base_dir b.wallet_type)
        (tmp_file (join_path (bundle_dir base_dir b.wallet_type) b.asset_name))
    → (s' : State) × (download os json entries answer base_dir b s ≡ raised (download_failed e) s')
      × (s'.sent ≡ failed e ∷ s1.sent)
      × (status json base_dir b.wallet_type s'.tree ≡ status json base_dir b.wallet_type s.tree)
unfolding download and_then attempt attempted step_failed send discard manifest_path
status-download_failed os json entries answer base_dir b s s1 t e allowed made failing a a_tmp =
    let bundle = bundle_dir base_dir b.wallet_type in
    let archive = join_path bundle b.asset_name in
    let p = manifest_path base_dir b.wallet_type in
    let kept =
      download_asset-Keeps p archive (at p t) os answer (record s { tree = t }) a a_tmp refl in
    let kept1 : at p s1.tree ≡ at p t = subst (Keeps p (at p t)) failing kept in
    (
      discard os archive (send (failed e) s1),
      rw (allowed, made, failing) refl,
      ground arith,
      status-at json base_dir b.wallet_type s.tree (discard os archive (send (failed e) s1)).tree (
          discard-at p archive os (send (failed e) s1) a
          ∙ kept1
          ∙ at-create_dir_all-below bundle (codes "manifest.json") [] s.tree t made),
    )

-- When the stream of a download breaks, what arrived stays on disk in the temporary file, although the
-- download fails and gives up: only the archive is removed.
pub download-breaks :
    (os : Os) (json : Json) (entries : List ℕ → Option (List Entry)) (base_dir : PathBuf)
    (b : RemoteBundle) (s : State) (t u : Tree) (status_code : ℕ) (total : Option ℕ)
    (body : List Chunk)
    → ((e : Fault) → os.refuses e ≡ false)
    → create_dir_all (bundle_dir base_dir b.wallet_type) s.tree ≡ some t
    → is_success status_code ≡ true
    → write (tmp_file (join_path (bundle_dir base_dir b.wallet_type) b.asset_name)) [] t ≡ some u
    → breaks body ≡ true
    → Apart
        (tmp_file (join_path (bundle_dir base_dir b.wallet_type) b.asset_name))
        (join_path (bundle_dir base_dir b.wallet_type) b.asset_name)
    → (s' : State) × (download os json entries (response status_code total body) base_dir b s
        ≡ raised (download_failed read_stream) s')
      × (read (tmp_file (join_path (bundle_dir base_dir b.wallet_type) b.asset_name)) s'.tree
          ≡ some (arrived body))
unfolding download and_then attempt attempted step_failed send read
download-breaks os json entries base_dir b s t u status_code total body free made ok created broke
      a =
    let bundle = bundle_dir base_dir b.wallet_type in
    let archive = join_path bundle b.asset_name in
    let (s1, failing, there) =
      download_asset-breaks os archive status_code total body (record s { tree = t }) u free ok
        created broke in
    (
      discard os archive (send (failed read_stream) s1),
      rw (free (create_bundle_dir bundle), made, failing) refl,
      rw (discard-at (tmp_file archive) archive os (send (failed read_stream) s1) a) there,
    )
