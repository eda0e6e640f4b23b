-- ===== src/Bundler/Storage/Laws.antt =====
-- crates/bundler/src/storage.rs: manifests written and read back.
use hwwctl.Prelude.{
  ℕ, ◌≡◌, ◌≢◌, sym, refl, ◌∙◌, List, [], ◌∷◌, Option, none, some, inl, inr, Bool-cases, codes,
  subst, take, arith,
}
use hwwctl.Emulators.{WalletType}
use hwwctl.Bundler.Files.{PathBuf, Tree, at, read, write, rename, create_dir_all}
use hwwctl.Bundler.Files.Put.{Apart, Apart-append_right}
use hwwctl.Bundler.Files.Directories.{at-create_dir_all-Apart, at-create_dir_all-below}
use hwwctl.Bundler.Files.Calls.{at-write-Apart, at-rename-Apart, at-rename, read-write}
use hwwctl.Bundler.Status.{
  BundleManifest, State, Ran, returned, raised, and_then, attempt, attempted, Fault, Os,
  write_tmp_manifest, create_manifest_dir, rename_manifest,
}
use hwwctl.Bundler.Status.Frame.{Keeps, and_then-Keeps, attempt-Keeps, attempt-returned}
use hwwctl.Bundler.Storage.{
  Json, bundle_dir, manifest_path, read_manifest, write_tmp, torn, write_json, write_manifest,
}
use hwwctl.Bundler.Storage.Places.{tmp_path, tmp_path-eq, manifest_path-Apart}

-- The manifest at a path is whole after a run: the new bytes where it comes back, else what was there.
abbrev pub Replaced : PathBuf → List ℕ → Option Tree → Ran → Type 0
Replaced p bytes x (returned s) = read p s.tree ≡ some bytes
Replaced p bytes x (raised e s) = at p s.tree ≡ x

and_then-Replaced :
    (p : PathBuf) (bytes : List ℕ) (x : Option Tree) (r : Ran) (k : State → Ran)
    → Keeps p x r
    → ((s : State) → r ≡ returned s → at p s.tree ≡ x → Replaced p bytes x (k s))
    → Replaced p bytes x (and_then r k)
unfolding and_then
and_then-Replaced p bytes x (returned s) k h hk = hk s refl h
and_then-Replaced p bytes x (raised e s) k h hk = h

torn-Keeps :
    (p : PathBuf) (x : Option Tree) (e : Fault) (result : Option Tree) (s : State)
    → at p s.tree ≡ x
    → ((u : Tree) → result ≡ some u → at p u ≡ at p s.tree)
    → Keeps p x (torn e result s)
unfolding torn
torn-Keeps p x e none s h hk = h
torn-Keeps p x e (some t) s h hk = hk t refl ∙ h

torn-returned : (e : Fault) (result : Option Tree) (s s' : State) → torn e result s ≢ returned s'
unfolding torn
torn-returned e none s s' h = cc
torn-returned e (some t) s s' h = cc

write_tmp-Keeps :
    (p tmp : PathBuf) (x : Option Tree) (os : Os) (bytes : List ℕ) (s : State)
    → Apart p tmp
    → at p s.tree ≡ x
    → Keeps p x (write_tmp os tmp bytes s)
unfolding write_tmp
write_tmp-Keeps p tmp x os bytes s a h = ground (
  arith,
  torn-Keeps p x (write_tmp_manifest tmp) (write tmp (take os.written bytes) s.tree) s h
      (λ u. at-write-Apart p tmp (take os.written bytes) s.tree u a),
  attempt-Keeps p x os (write_tmp_manifest tmp) (write tmp bytes s.tree) s h
      (λ u. at-write-Apart p tmp bytes s.tree u a),
)

read-write_tmp :
    (tmp : PathBuf) (os : Os) (bytes : List ℕ) (s s' : State)
    → write_tmp os tmp bytes s ≡ returned s'
    → read tmp s'.tree ≡ some bytes
unfolding write_tmp
read-write_tmp tmp os bytes s s' e = elim (Bool-cases (os.refuses (write_tmp_manifest tmp))) [
  | inl torn_off ↦ absurd (
      torn-returned (write_tmp_manifest tmp) (write tmp (take os.written bytes) s.tree) s s'
        (ground (arith, e, torn_off)))
  | inr whole ↦
      let (t, hit, same) =
        attempt-returned os (write_tmp_manifest tmp) (write tmp bytes s.tree) s s'
          (ground (arith, e, whole)) in
      rw same (read-write tmp bytes s.tree t hit)
]

renamed-Replaced :
    (p tmp : PathBuf) (bytes : List ℕ) (x : Option Tree) (e : Fault) (s : State)
    (result : Option Tree)
    → rename tmp p s.tree ≡ result
    → read tmp s.tree ≡ some bytes
    → at p s.tree ≡ x
    → Replaced p bytes x (attempted e result s)
unfolding attempted read
renamed-Replaced p tmp bytes x e s none r written h = h
renamed-Replaced p tmp bytes x e s (some t) r written h = rw (at-rename tmp p s.tree t r) written

rename-Replaced :
    (p tmp : PathBuf) (bytes : List ℕ) (x : Option Tree) (os : Os) (s : State)
    → read tmp s.tree ≡ some bytes
    → at p s.tree ≡ x
    → Replaced p bytes x (attempt os (rename_manifest p) (rename tmp p s.tree) s)
unfolding attempt
rename-Replaced p tmp bytes x os s written h = elim (Bool-cases (os.refuses (rename_manifest p))) [
  | inl refused ↦ rw refused h
  | inr allowed ↦
      rw allowed
        (renamed-Replaced p tmp bytes x (rename_manifest p) s (rename tmp p s.tree) refl written h)
]

write_json-Replaced :
    (os : Os) (base_dir : PathBuf) (w : WalletType) (bytes : List ℕ) (x : Option Tree) (s : State)
    → at (manifest_path base_dir w) s.tree ≡ x
    → Replaced
        (manifest_path base_dir w)
        bytes
        x
        (write_json os (manifest_path base_dir w) (some bytes) s)
unfolding write_json
write_json-Replaced os base_dir w bytes x s h =
    let p = manifest_path base_dir w in
    let tmp = tmp_path base_dir w in
    and_then-Replaced p bytes x (write_tmp os tmp bytes s)
      (λ s1. attempt os (rename_manifest p) (rename tmp p s1.tree) s1)
      (write_tmp-Keeps p tmp x os bytes s (manifest_path-Apart base_dir w) h)
      (λ s1 came h1. rename-Replaced p tmp bytes x os s1 (read-write_tmp tmp os bytes s s1 came) h1)

-- Writing a manifest replaces the one that is there as a whole: where it comes back, the manifest's JSON is
-- in its file, and where it fails, in whatever step, that file is what it was.
pub write_manifest-Replaced :
    (os : Os) (json : Json) (base_dir : PathBuf) (w : WalletType) (m : BundleManifest)
    (bytes : List ℕ) (s : State)
    → json.to_string_pretty m ≡ some bytes
    → Replaced
        (manifest_path base_dir w)
        bytes
        (at (manifest_path base_dir w) s.tree)
        (write_manifest os json base_dir w m s)
unfolding write_manifest manifest_path
write_manifest-Replaced os json base_dir w m bytes s e =
    let p = manifest_path base_dir w in
    let x = at p s.tree in
    let d = bundle_dir base_dir w in
    rw e (
      and_then-Replaced p bytes x (attempt os (create_manifest_dir d) (create_dir_all d s.tree) s)
        (write_json os p (some bytes))
        (attempt-Keeps p x os (create_manifest_dir d) (create_dir_all d s.tree) s refl
          (λ u. at-create_dir_all-below d (codes "manifest.json") [] s.tree u))
        (λ s1 came h. write_json-Replaced os base_dir w bytes x s1 h))

-- A manifest that can be written is read back from its wallet's directory, where `from_slice` reads what `to_string_pretty` printed.
pub read_manifest-write_manifest :
    (os : Os) (json : Json) (base_dir : PathBuf) (w : WalletType) (m : BundleManifest)
    (bytes : List ℕ) (s s' : State)
    → json.to_string_pretty m ≡ some bytes
    → json.from_slice bytes ≡ some m
    → write_manifest os json base_dir w m s ≡ returned s'
    → read_manifest json base_dir w s'.tree ≡ some m
unfolding read_manifest
read_manifest-write_manifest os json base_dir w m bytes s s' print parse e =
    let whole = write_manifest-Replaced os json base_dir w m bytes s print in
    let there : read (manifest_path base_dir w) s'.tree ≡ some bytes =
      subst (Replaced (manifest_path base_dir w) bytes (at (manifest_path base_dir w) s.tree)) e
        whole in
    rw there parse

-- Where it fails, the manifest of before is read.
pub read_manifest-write_manifest_raised :
    (os : Os) (json : Json) (base_dir : PathBuf) (w : WalletType) (m : BundleManifest)
    (bytes : List ℕ) (s s' : State) (f : Fault)
    → json.to_string_pretty m ≡ some bytes
    → write_manifest os json base_dir w m s ≡ raised f s'
    → read_manifest json base_dir w s'.tree ≡ read_manifest json base_dir w s.tree
unfolding read_manifest read
read_manifest-write_manifest_raised os json base_dir w m bytes s s' f print e =
    let whole = write_manifest-Replaced os json base_dir w m bytes s print in
    let there : at (manifest_path base_dir w) s'.tree ≡ at (manifest_path base_dir w) s.tree =
      subst (Replaced (manifest_path base_dir w) bytes (at (manifest_path base_dir w) s.tree)) e
        whole in
    rw there refl

write_json-Keeps :
    (os : Os) (base_dir : PathBuf) (w : WalletType) (bytes : Option (List ℕ)) (s : State)
    (p : PathBuf) (x : Option Tree)
    → Apart p (bundle_dir base_dir w)
    → at p s.tree ≡ x
    → Keeps p x (write_json os (manifest_path base_dir w) bytes s)
unfolding write_json manifest_path
write_json-Keeps os base_dir w none s p x a h = h
write_json-Keeps os base_dir w (some bytes) s p x a h =
    let path = manifest_path base_dir w in
    let tmp = tmp_path base_dir w in
    let a_path = Apart-append_right p (bundle_dir base_dir w) (codes "manifest.json" ∷ []) a in
    let a_tmp : Apart p tmp =
      subst (Apart p) (sym (tmp_path-eq base_dir w))
        (Apart-append_right p (bundle_dir base_dir w) (codes "manifest.json.tmp" ∷ []) a) in
    and_then-Keeps p x (write_tmp os tmp bytes s)
      (λ s1. attempt os (rename_manifest path) (rename tmp path s1.tree) s1)
      (write_tmp-Keeps p tmp x os bytes s a_tmp h)
      (λ s1 h1.
        attempt-Keeps p x os (rename_manifest path) (rename tmp path s1.tree) s1 h1
          (λ u. at-rename-Apart p tmp path s1.tree u a_tmp a_path))

-- What is beside a wallet's directory is not touched.
pub write_manifest-Keeps :
    (os : Os) (json : Json) (base_dir : PathBuf) (w : WalletType) (m : BundleManifest) (s : State)
    (p : PathBuf)
    → Apart p (bundle_dir base_dir w)
    → Keeps p (at p s.tree) (write_manifest os json base_dir w m s)
unfolding write_manifest manifest_path
write_manifest-Keeps os json base_dir w m s p a =
    let d = bundle_dir base_dir w in
    and_then-Keeps p (at p s.tree) (attempt os (create_manifest_dir d) (create_dir_all d s.tree) s)
      (λ s. write_json os (manifest_path base_dir w) (json.to_string_pretty m) s)
      (attempt-Keeps p (at p s.tree) os (create_manifest_dir d) (create_dir_all d s.tree) s refl
        (λ u. at-create_dir_all-Apart p d s.tree u a))
      (λ s1 h. write_json-Keeps os base_dir w (json.to_string_pretty m) s1 p (at p s.tree) a h)
