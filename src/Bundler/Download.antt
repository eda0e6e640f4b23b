-- ===== src/Bundler/Download.antt =====
-- crates/bundler/src/download.rs: the release query, the streamed download and the extraction. What GitHub
-- answers (reqwest) and what an archive holds (flate2 and tar) are parameters.
-- The count of the bytes received is a `u64`.
pub mod Partial
pub mod Progress
pub mod Extract
use hwwctl.Prelude.{
  ℕ, zero, suc, ◌+◌, ◌*◌, ◌/◌, ◌%◌, ◌≤◌, List, [], ◌∷◌, ◌++◌, Text, codes, Bool, true, false, not,
  ◌&&◌, Option, none, some, if◌then◌else◌, arith, length, min, leb, ltb, text_eq, ◌==◌,
}
use hwwctl.Protocol.Varint.{u64_mod}
use hwwctl.Emulators.{WalletType}
use hwwctl.Bundler.Asset.{parse_asset_name}
use hwwctl.Bundler.Files.{
  PathBuf, Tree, file, dir, at, put, write, append, create_dir_all, rename, read, with_extension,
}
use hwwctl.Bundler.Status.{
  Fault, RemoteBundle, State, Ran, returned, raised, and_then, attempt, send, downloading, Os,
  create_tmp, initiate_download, read_stream, flush_file, http_status, write_chunk, rename_download,
  create_dest_dir, open_archive, read_archive, read_entry, invalid_path, create_directory,
  create_parent, unpack_entry,
}

pub record GithubAsset : Type 0 where
  pub name : Text
  pub browser_download_url : Text
  pub size : ℕ

pub record GithubRelease : Type 0 where
  pub tag_name : Text
  pub assets : List GithubAsset

abbrev remote_bundle :
    Text → GithubAsset → Option (WalletType × Text) → List RemoteBundle → List RemoteBundle
remote_bundle tag asset none rest = rest
remote_bundle tag asset (some (wallet, platform)) rest =
    record {
      wallet_type = wallet;
      version = tag;
      platform = platform;
      download_url = asset.browser_download_url;
      size_bytes = asset.size;
      asset_name = asset.name;
    }
    ∷ rest

-- The bundles of a release: the `filter_map` of `fetch_available`.
unfoldable pub release_bundles : Text → List GithubAsset → List RemoteBundle
release_bundles tag [] = []
release_bundles tag (asset ∷ assets) =
    remote_bundle tag asset (parse_asset_name asset.name) (release_bundles tag assets)

-- What the query for the latest release comes back with: its status, and its body where that parses.
pub data Queried : Type 0 where
  not_sent : Queried
  answered : ℕ → Option GithubRelease → Queried

-- The errors of `fetch_available` without the answer's text, and its result.
pub data Fetched : Type 0 where
  send_failed rate_limited parse_failed : Fetched
  status_failed : ℕ → Fetched
  fetched : List RemoteBundle → Fetched

unfoldable pub is_success : ℕ → Bool
is_success status = leb 200 status && ltb status 300

abbrev parsed_release : Option GithubRelease → Fetched
parsed_release none = parse_failed
parsed_release (some r) = fetched (release_bundles r.tag_name r.assets)

unfoldable pub fetch_available : Queried → Fetched
fetch_available not_sent = send_failed
fetch_available (answered status body) =
    if status == 403
    then rate_limited
    else if not (is_success status)
    then status_failed status
    else parsed_release body

unfoldable pub on_platform : Text → List RemoteBundle → List RemoteBundle
on_platform platform [] = []
on_platform platform (b ∷ bs) =
    let rest = on_platform platform bs in if text_eq b.platform platform then b ∷ rest else rest

-- One item of the response's byte stream.
pub data Chunk : Type 0 where
  bytes : List ℕ → Chunk
  broken : Chunk

-- A response: its status, its Content-Length where that is a number, and its body.
pub data HttpResponse : Type 0 where
  no_response : HttpResponse
  response : ℕ → Option ℕ → List Chunk → HttpResponse

-- The match on `total_bytes`. The product is one of `u64` and, as in a release build, wraps.
unfoldable pub progress : Option ℕ → ℕ → ℕ
progress none downloaded = 0
progress (some zero) downloaded = 0
progress (some (suc total)) downloaded = min (downloaded * 100 % u64_mod / suc total) 100

-- The loop of `download_asset` from its `n`-th chunk. The count of bytes is a `u64`.
unfoldable pub receive : Os → PathBuf → Option ℕ → ℕ → ℕ → List Chunk → State → Ran
receive os tmp total n downloaded [] s = returned s
receive os tmp total n downloaded (broken ∷ cs) s = raised read_stream s
receive os tmp total n downloaded (bytes b ∷ cs) s =
    and_then (attempt os (write_chunk n) (append tmp b s.tree) s) (λ s.
      let downloaded' = (downloaded + length b) % u64_mod in
      receive os tmp total (n + 1) downloaded' cs
        (send (downloading (progress total downloaded')) s))

unfoldable pub download_asset : Os → HttpResponse → PathBuf → State → Ran
download_asset os no_response dest s = raised initiate_download s
download_asset os (response status total body) dest s =
    let tmp = with_extension (codes "tar.gz.tmp") dest in
    if not (is_success status)
    then raised (http_status status) s
    else and_then (attempt os (create_tmp tmp) (write tmp [] s.tree) s) (λ s.
      and_then (receive os tmp total 0 0 body s) (λ s.
        and_then (attempt os flush_file (some s.tree) s)
          (λ s. attempt os (rename_download tmp dest) (rename tmp dest s.tree) s)))

-- A component of an archived path, as `components` splits it.
pub data Component : Type 0 where
  root_dir cur_dir parent_dir : Component
  normal : Text → Component

-- An entry of an archive: a directory, a file with its executable bit and its bytes, or an entry of
-- another kind, as a link: with it comes what its `unpack` at a path makes of the disk, which is the
-- archive library's.
pub data Entry : Type 0 where
  bad_entry bad_path : Entry
  dir_entry : List Component → Entry
  file_entry : List Component → Bool → List ℕ → Entry
  other_entry : List Component → (PathBuf → Tree → Option Tree) → Entry

abbrev without_last : PathBuf → PathBuf
without_last [] = []
without_last (c ∷ []) = []
without_last (c ∷ d ∷ p) = c ∷ without_last (d ∷ p)

-- Where the system finds a path that goes on from a directory.
unfoldable pub resolve : PathBuf → List Component → PathBuf
resolve p [] = p
resolve p (root_dir ∷ cs) = resolve [] cs
resolve p (cur_dir ∷ cs) = resolve p cs
resolve p (parent_dir ∷ cs) = resolve (without_last p) cs
resolve p (normal c ∷ cs) = resolve (p ++ (c ∷ [])) cs

-- `out_path.parent()`: the path without its last component
unfoldable pub parent : List Component → List Component
parent [] = []
parent (c ∷ []) = []
parent (c ∷ d ∷ cs) = c ∷ parent (d ∷ cs)

-- `entry.unpack(out_path)` of a file: it takes the place of a file that is there.
unfoldable pub unpack : PathBuf → Bool → List ℕ → Tree → Option Tree
unpack p x b t = elim (at p t) [ some (dir es) ↦ none | _ ↦ put p (file x b) t ]

-- One round of the extraction's loop, for the `n`-th entry. The first component of its path is stripped,
-- and an entry that has no more is skipped.
unfoldable pub extract_entry : Os → PathBuf → ℕ → Entry → State → Ran
extract_entry os dest_dir n bad_entry s = raised read_entry s
extract_entry os dest_dir n bad_path s = raised invalid_path s
extract_entry os dest_dir n (dir_entry []) s = returned s
extract_entry os dest_dir n (dir_entry (top ∷ [])) s = returned s
extract_entry os dest_dir n (dir_entry (top ∷ c ∷ cs)) s =
    let out = resolve dest_dir (c ∷ cs) in
    attempt os (create_directory n out) (create_dir_all out s.tree) s
extract_entry os dest_dir n (file_entry [] x b) s = returned s
extract_entry os dest_dir n (file_entry (top ∷ []) x b) s = returned s
extract_entry os dest_dir n (file_entry (top ∷ c ∷ cs) x b) s =
    let out = resolve dest_dir (c ∷ cs) in
    let above = resolve dest_dir (parent (c ∷ cs)) in
    and_then (attempt os (create_parent n above) (create_dir_all above s.tree) s)
      (λ s. attempt os (unpack_entry n out) (unpack out x b s.tree) s)
extract_entry os dest_dir n (other_entry [] made) s = returned s
extract_entry os dest_dir n (other_entry (top ∷ []) made) s = returned s
extract_entry os dest_dir n (other_entry (top ∷ c ∷ cs) made) s =
    let out = resolve dest_dir (c ∷ cs) in
    let above = resolve dest_dir (parent (c ∷ cs)) in
    and_then (attempt os (create_parent n above) (create_dir_all above s.tree) s)
      (λ s. attempt os (unpack_entry n out) (made out s.tree) s)

unfoldable pub extract_entries : Os → PathBuf → ℕ → List Entry → State → Ran
extract_entries os dest_dir n [] s = returned s
extract_entries os dest_dir n (e ∷ es) s =
    and_then (extract_entry os dest_dir n e s) (extract_entries os dest_dir (n + 1) es)

-- The archive that its file's bytes are, where they are one.
abbrev unpack_archive :
    Os → (List ℕ → Option (List Entry)) → PathBuf → Option (List ℕ) → PathBuf → State → Ran
unpack_archive os entries archive none dest_dir s = raised (open_archive archive) s
unpack_archive os entries archive (some b) dest_dir s = elim (entries b) [
  | none ↦ raised read_archive s
  | some es ↦ extract_entries os dest_dir 0 es s
]

unfoldable pub extract_tarball :
    Os → (List ℕ → Option (List Entry)) → PathBuf → PathBuf → State → Ran
extract_tarball os entries archive dest_dir s =
    and_then (attempt os (create_dest_dir dest_dir) (create_dir_all dest_dir s.tree) s) (λ s.
      and_then (attempt os (open_archive archive) (some s.tree) s)
        (λ s. unpack_archive os entries archive (read archive s.tree) dest_dir s))
