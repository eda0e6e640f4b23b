-- ===== src/Bundler/Download/Partial.antt =====
-- crates/bundler/src/download.rs: what `download_asset` changes and leaves.
use hwwctl.Prelude.{
  ℕ, ◌+◌, ◌%◌, ◌≡◌, refl, List, [], ◌∷◌, ◌++◌, append_assoc, append-nil, length, Bool, true, false,
  Option, some, inl, inr, Bool-cases, codes, arith,
}
use hwwctl.Protocol.Varint.{u64_mod}
use hwwctl.Bundler.Files.{PathBuf, Tree, at, append, write, rename, read, with_extension}
use hwwctl.Bundler.Files.Put.{Apart}
use hwwctl.Bundler.Files.Calls.{
  at-append-Apart, at-write-Apart, at-rename-Apart, read-append, read-write,
}
use hwwctl.Bundler.Status.{
  Fault, State, raised, and_then, attempt, attempted, send, Os, downloading, create_tmp,
  read_stream, flush_file, rename_download, write_chunk,
}
use hwwctl.Bundler.Status.Frame.{Keeps, and_then-Keeps, attempt-Keeps}
use hwwctl.Bundler.Download.{
  Chunk, bytes, broken, HttpResponse, no_response, response, is_success, progress, receive,
  download_asset,
}

-- The file that is received before it has its name.
abbrev pub tmp_file : PathBuf → PathBuf
tmp_file dest = with_extension (codes "tar.gz.tmp") dest

receive-Keeps :
    (p tmp : PathBuf) (x : Option Tree) (os : Os) (total : Option ℕ) (n downloaded : ℕ)
    (cs : List Chunk) (s : State)
    → Apart p tmp
    → at p s.tree ≡ x
    → Keeps p x (receive os tmp total n downloaded cs s)
unfolding receive send
receive-Keeps p tmp x os total n downloaded [] s a h = h
receive-Keeps p tmp x os total n downloaded (broken ∷ cs) s a h = h
receive-Keeps p tmp x os total n downloaded (bytes b ∷ cs) s a h =
    and_then-Keeps p x (attempt os (write_chunk n) (append tmp b s.tree) s)
      (λ s.
        receive os tmp total (n + 1) ((downloaded + length b) % u64_mod) cs
          (send (downloading (progress total ((downloaded + length b) % u64_mod))) s))
      (attempt-Keeps p x os (write_chunk n) (append tmp b s.tree) s h
        (λ u. at-append-Apart p tmp b s.tree u a))
      (λ s1 h1.
        receive-Keeps p tmp x os total (n + 1) ((downloaded + length b) % u64_mod) cs
          (send (downloading (progress total ((downloaded + length b) % u64_mod))) s1) a h1)

-- However it ends, it changes nothing but its file and the temporary one.
pub download_asset-Keeps :
    (p dest : PathBuf) (x : Option Tree) (os : Os) (answer : HttpResponse) (s : State)
    → Apart p dest
    → Apart p (tmp_file dest)
    → at p s.tree ≡ x
    → Keeps p x (download_asset os answer dest s)
unfolding download_asset
download_asset-Keeps p dest x os no_response s a a_tmp h = h
download_asset-Keeps p dest x os (response status total body) s a a_tmp h =
    let tmp = tmp_file dest in
    let goes_on =
      and_then-Keeps p x (attempt os (create_tmp tmp) (write tmp [] s.tree) s)
        (λ s. and_then (receive os tmp total 0 0 body s) (λ s.
          and_then (attempt os flush_file (some s.tree) s)
            (λ s. attempt os (rename_download tmp dest) (rename tmp dest s.tree) s)))
        (attempt-Keeps p x os (create_tmp tmp) (write tmp [] s.tree) s h
          (λ u. at-write-Apart p tmp [] s.tree u a_tmp))
        (λ s1 h1.
          and_then-Keeps p x (receive os tmp total 0 0 body s1)
            (λ s.
              and_then (attempt os flush_file (some s.tree) s)
                (λ s. attempt os (rename_download tmp dest) (rename tmp dest s.tree) s))
            (receive-Keeps p tmp x os total 0 0 body s1 a_tmp h1)
            (λ s2 h2.
              and_then-Keeps p x (attempt os flush_file (some s2.tree) s2)
                (λ s. attempt os (rename_download tmp dest) (rename tmp dest s.tree) s)
                (attempt-Keeps p x os flush_file (some s2.tree) s2 h2 (λ u e. ground (arith, e)))
                (λ s3 h3.
                  attempt-Keeps p x os (rename_download tmp dest) (rename tmp dest s3.tree) s3 h3
                    (λ u. at-rename-Apart p tmp dest s3.tree u a_tmp a)))) in
    elim (Bool-cases (is_success status)) [ inl ok ↦ rw ok goes_on | inr bad ↦ rw bad h ]

-- The chunks that arrive before the stream breaks.
abbrev pub arrived : List Chunk → List ℕ
arrived [] = []
arrived (broken ∷ cs) = []
arrived (bytes b ∷ cs) = b ++ arrived cs

abbrev pub breaks : List Chunk → Bool
breaks [] = false
breaks (broken ∷ cs) = true
breaks (bytes b ∷ cs) = breaks cs

receive-breaks :
    (os : Os) (tmp : PathBuf) (total : Option ℕ) (n downloaded : ℕ) (cs : List Chunk) (s : State)
    (before : List ℕ)
    → ((e : Fault) → os.refuses e ≡ false)
    → breaks cs ≡ true
    → read tmp s.tree ≡ some before
    → (s' : State) × (receive os tmp total n downloaded cs s ≡ raised read_stream s')
      × (read tmp s'.tree ≡ some (before ++ arrived cs))
unfolding receive and_then attempt attempted send
receive-breaks os tmp total n downloaded [] s before free broke h = absurd cc
receive-breaks os tmp total n downloaded (broken ∷ cs) s before free broke h =
    (s, refl, rw (append-nil before) h)
receive-breaks os tmp total n downloaded (bytes b ∷ cs) s before free broke h =
    let (t, appended, now) = read-append tmp b before s.tree h in
    let (s', e, kept) =
      receive-breaks os tmp total (n + 1) ((downloaded + length b) % u64_mod) cs
        (send (downloading (progress total ((downloaded + length b) % u64_mod)))
          (record s { tree = t }))
        (before ++ b) free broke now in
    (s', rw (free (write_chunk n), appended) e, rw (← append_assoc before b (arrived cs)) kept)

-- A stream that breaks leaves what arrived in the temporary file.
pub download_asset-breaks :
    (os : Os) (dest : PathBuf) (status : ℕ) (total : Option ℕ) (body : List Chunk) (s : State)
    (t : Tree)
    → ((e : Fault) → os.refuses e ≡ false)
    → is_success status ≡ true
    → write (tmp_file dest) [] s.tree ≡ some t
    → breaks body ≡ true
    → (s' : State) × (download_asset os (response status total body) dest s ≡ raised read_stream s')
      × (read (tmp_file dest) s'.tree ≡ some (arrived body))
unfolding download_asset and_then attempt attempted
download_asset-breaks os dest status total body s t free ok made broke =
    let (s', e, kept) =
      receive-breaks os (tmp_file dest) total 0 0 body (record s { tree = t }) [] free broke
        (read-write (tmp_file dest) [] s.tree t made) in
    (s', rw (ok, free (create_tmp (tmp_file dest)), made, e) refl, kept)
