-- ===== src/Runs/Bundles.antt =====
-- Runs of the bundle manager at concrete inputs.
use hwwctl.Prelude.{
  ℕ, ◌≡◌, ◌≢◌, refl, subst, List, [], ◌∷◌, ◌++◌, All, codes, text_eq, true, false, Option, none,
  some, arith,
}
use hwwctl.Emulators.{WalletType, trezor, jade}
use hwwctl.Bundler.Calendar.{days_to_ymd}
use hwwctl.Bundler.Calendar.Civil.{date_after}
use hwwctl.Bundler.Calendar.Laws.{days_to_ymd-date_after}
use hwwctl.Bundler.Files.{
  PathBuf, Tree, file, dir, end, entry, at, read, write, put, put_new, create_dir_all, is_dir,
  child, set_child, with_extension, before_last_dot,
}
use hwwctl.Bundler.Status.{
  Fault, not_installed, failed, RemoteBundle, BundleManifest, State, returned, raised, Os,
  download_failed, read_stream,
}
use hwwctl.Bundler.Status.Frame.{final}
use hwwctl.Bundler.Storage.{bundle_dir, manifest_path, write_manifest, wallet_dir_name}
use hwwctl.Bundler.Storage.Laws.{Replaced}
use hwwctl.Bundler.Storage.Laws.{write_manifest-Replaced}
use hwwctl.Bundler.Download.{
  HttpResponse, response, Chunk, bytes, broken, Entry, file_entry, normal, parent_dir, receive,
  progress, extract_entry, download_asset, is_success,
}
use hwwctl.Bundler.Download.Extract.{IsPlain, extract_entry-parent_dir}
use hwwctl.Bundler.Download.Partial.{tmp_file}
use hwwctl.Bundler.Download.Progress.{Rising, reported, body_length, receive-Rising}
use hwwctl.Bundler.Manager.{status, download, remove, join_path, components}
use hwwctl.Bundler.Manager.Failure.{status-download_other, status-download_failed, download-breaks}
use hwwctl.Bundler.Manager.Install.{Announced, download-Announced}
use hwwctl.Bundler.Manager.Removal.{status-remove}
use hwwctl.Runs.Manifests.{print, json, json-RoundTrips}

abbrev os : Os
os = record { refuses = λ e. false; written = 0; now_secs = 1710504000 }

abbrev home : PathBuf
home = codes "home" ∷ []

abbrev tree : Tree
tree = dir (entry (codes "home") (dir end) end)

abbrev start : State
start = record { tree = tree; sent = [] }

abbrev bundle : RemoteBundle
bundle = record {
  wallet_type = trezor;
  version = codes "v2";
  platform = codes "linux-x86_64";
  download_url = codes "https://";
  size_bytes = 4;
  asset_name = codes "a.tar.gz";
}

-- Every archive holds the emulator alone.
abbrev archived : List ℕ → Option (List Entry)
archived b =
    some (
      file_entry (normal (codes "a") ∷ normal (codes "trezor-emu-core") ∷ []) true (1 ∷ 2 ∷ [])
      ∷ [])

abbrev two_chunks : HttpResponse
two_chunks = response 200 (some 4) (bytes (1 ∷ 2 ∷ []) ∷ bytes (3 ∷ 4 ∷ []) ∷ [])

abbrev manifest : BundleManifest
manifest = record {
  wallet_type = trezor;
  version = codes "v1";
  platform = codes "p";
  installed_at = codes "t";
  size_bytes = 2;
  emulator_binary = codes "e";
  firmware_dir = none;
}

days_to_ymd-date_after_example : days_to_ymd 366 ≡ date_after 366
days_to_ymd-date_after_example = days_to_ymd-date_after 366

write_manifest-Replaced_example :
    Replaced
      (manifest_path home trezor)
      (print manifest)
      (at (manifest_path home trezor) tree)
      (write_manifest os json home trezor manifest start)
write_manifest-Replaced_example =
    write_manifest-Replaced os json home trezor manifest (print manifest) start refl

status-remove_example :
    (s' : State) × (remove os home trezor start ≡ returned s')
    × (status json home trezor s'.tree ≡ not_installed)
    × ((v : WalletType) → v ≢ trezor → status json home v s'.tree ≡ status json home v tree)
status-remove_example = status-remove os json home trezor start refl

receive-Rising_example :
    (ps : List ℕ) × ((final
        (receive os (codes "home" ∷ codes "t" ∷ []) (some 4) 0 0 (bytes (1 ∷ []) ∷ []) start)).sent
      ≡ reported ps [])
    × Rising (progress (some 4) 0) ps
receive-Rising_example =
    receive-Rising os (codes "home" ∷ codes "t" ∷ []) (some 4) 0 0 (bytes (1 ∷ []) ∷ []) start
      (unfold body_length in omega arith)

abbrev made : Tree
made = dir (entry (codes "home") (dir (entry (codes "trezor") (dir end) end)) end)

made_eq : create_dir_all (bundle_dir home trezor) tree ≡ some made
unfolding create_dir_all bundle_dir wallet_dir_name child set_child text_eq
made_eq = refl

abbrev archive : PathBuf
archive = codes "home" ∷ codes "trezor" ∷ codes "a.tar.gz" ∷ []

inside :
    join_path (bundle_dir home trezor) (codes "a.tar.gz")
    ≡ bundle_dir home trezor ++ (codes "a.tar.gz" ∷ [])
unfolding join_path components
inside = refl

download-Announced_example :
    Announced json home bundle (download os json archived two_chunks home bundle start)
download-Announced_example =
    download-Announced os json archived two_chunks home bundle start made json-RoundTrips refl
      made_eq

archived-IsPlain : (c : List ℕ) (es : List Entry) → archived c ≡ some es → All IsPlain es
archived-IsPlain c es e =
    subst (All IsPlain)
      {x = file_entry (normal (codes "a") ∷ normal (codes "trezor-emu-core") ∷ []) true (1 ∷ 2 ∷ [])
        ∷ []}
      (ground (arith, e)) (((codes "trezor-emu-core", refl), tt), tt)

status-download_other_example :
    status json home jade (final (download os json archived two_chunks home bundle start)).tree
    ≡ status json home jade tree
status-download_other_example =
    status-download_other os json archived two_chunks home bundle (codes "a.tar.gz") jade start
      archived-IsPlain inside (λ e. cc)

-- A response that is no success.
abbrev refused : HttpResponse
refused = response 404 none []

status-download_failed_example :
    (s' : State) × (download os json archived refused home bundle start
      ≡ raised (download_failed (Fault.http_status 404)) s')
    × (s'.sent ≡ failed (Fault.http_status 404) ∷ [])
    × (status json home trezor s'.tree ≡ status json home trezor tree)
unfolding write is_dir at with_extension join_path bundle_dir child set_child text_eq components
    wallet_dir_name put put_new is_success download_asset manifest_path before_last_dot
status-download_failed_example =
    status-download_failed os json archived refused home bundle start (record start { tree = made })
      made (Fault.http_status 404) refl made_eq refl tt tt

abbrev created : Tree
created = dir (
    entry (codes "home")
      (dir
        (entry (codes "trezor") (dir (entry (codes "a.tar.tar.gz.tmp") (file false []) end)) end))
      end)

abbrev broken_answer : List Chunk
broken_answer = bytes (1 ∷ 2 ∷ []) ∷ broken ∷ []

download-breaks_example :
    (s' : State) × (download os json archived (response 200 none broken_answer) home bundle start
      ≡ raised (download_failed read_stream) s')
    × (read (tmp_file (join_path (bundle_dir home trezor) (codes "a.tar.gz"))) s'.tree
        ≡ some (1 ∷ 2 ∷ []))
unfolding write is_dir at with_extension join_path bundle_dir child set_child text_eq components
    wallet_dir_name put put_new is_success download_asset manifest_path before_last_dot
download-breaks_example =
    download-breaks os json archived home bundle start made created 200 none broken_answer
      (λ e. refl) made_eq refl refl refl tt

home_made : create_dir_all home tree ≡ some tree
unfolding create_dir_all child set_child text_eq
home_made = refl

no_c : at (home ++ (codes "c" ∷ [])) tree ≡ none
unfolding at child text_eq
no_c = refl

extract_entry-parent_dir_example :
    (s' : State) × (extract_entry os
        (home ++ (codes "trezor" ∷ []))
        0
        (file_entry (normal (codes "a") ∷ parent_dir ∷ normal (codes "c") ∷ []) true (1 ∷ []))
        start
      ≡ returned s')
    × (at (home ++ (codes "c" ∷ [])) s'.tree ≡ some (file true (1 ∷ [])))
extract_entry-parent_dir_example =
    extract_entry-parent_dir os home (codes "trezor") (codes "c") (codes "a") 0 true (1 ∷ []) start
      tree (λ e. refl) home_made no_c
