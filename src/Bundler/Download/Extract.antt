-- ===== src/Bundler/Download/Extract.antt =====
-- crates/bundler/src/download.rs: where `extract_tarball` writes.
use hwwctl.Prelude.{
  ℕ, ◌+◌, ◌≡◌, refl, sym, ap, ◌∙◌, subst, List, [], ◌∷◌, ◌++◌, append_assoc, append-nil, All, Bool,
  false, Option, none, some, inl, inr, Option-cases, Text, arith,
}
use hwwctl.Bundler.Files.{PathBuf, Tree, file, dir, at, put, create_dir_all, read}
use hwwctl.Bundler.Files.Put.{Apart, Apart-append_right, at-put-Apart, at-put, put-is_dir}
use hwwctl.Bundler.Files.Directories.{at-create_dir_all-Apart, is_dir-create_dir_all}
use hwwctl.Bundler.Status.{
  Fault, State, returned, and_then, attempt, attempted, Os, create_dest_dir, open_archive,
  create_directory, create_parent, unpack_entry,
}
use hwwctl.Bundler.Status.Frame.{Keeps, and_then-Keeps, attempt-Keeps}
use hwwctl.Bundler.Download.{
  Component, normal, parent_dir, Entry, bad_entry, bad_path, dir_entry, file_entry, other_entry,
  resolve, parent, without_last, unpack, extract_entry, extract_entries, unpack_archive,
  extract_tarball,
}

-- A component that is a name.
abbrev pub IsName : Component → Type 0
IsName c = (name : Text) × (c ≡ normal name)

-- An entry whose path has only names behind its first component, and which is no link nor of another such
-- kind, unless it is skipped.
abbrev pub IsPlain : Entry → Type 0
IsPlain bad_entry = Unit
IsPlain bad_path = Unit
IsPlain (dir_entry []) = Unit
IsPlain (dir_entry (top ∷ cs)) = All IsName cs
IsPlain (file_entry [] x b) = Unit
IsPlain (file_entry (top ∷ cs) x b) = All IsName cs
IsPlain (other_entry [] made) = Unit
IsPlain (other_entry (top ∷ []) made) = Unit
IsPlain (other_entry (top ∷ c ∷ cs) made) = ⊥

-- Names lead on from a directory and stay below it.
resolve-IsName :
    (p : PathBuf) (cs : List Component) → All IsName cs → (q : PathBuf) × (resolve p cs ≡ p ++ q)
unfolding resolve
resolve-IsName p [] h = ([], sym (append-nil p))
resolve-IsName p (c ∷ cs) ((name, e), h) =
    let (q, same) = resolve-IsName (p ++ (name ∷ [])) cs h in
    (name ∷ q, rw e (same ∙ append_assoc p (name ∷ []) q))

resolve-Apart :
    (p dest : PathBuf) (cs : List Component)
    → All IsName cs
    → Apart p dest
    → Apart p (resolve dest cs)
resolve-Apart p dest cs h a =
    let (q, same) = resolve-IsName dest cs h in
    subst (Apart p) (sym same) (Apart-append_right p dest q a)

All-parent : (cs : List Component) → All IsName cs → All IsName (parent cs)
unfolding parent
All-parent [] h = tt
All-parent (c ∷ []) h = tt
All-parent (c ∷ d ∷ cs) (h, hs) = (h, All-parent (d ∷ cs) hs)

at-unpack-Apart :
    (p q : PathBuf) (x : Bool) (b : List ℕ) (t u : Tree)
    → Apart p q
    → unpack q x b t ≡ some u
    → at p u ≡ at p t
unfolding unpack
at-unpack-Apart p q x b t u a e = elim (Option-cases (at q t)) [
  | inl miss ↦ at-put-Apart p q (file x b) t u a (ground (arith, miss, e))
  | inr (file y c, hit) ↦ at-put-Apart p q (file x b) t u a (ground (arith, hit, e))
  | inr (dir es, hit) ↦ absurd (ground (arith, hit, e))
]

module _ (os : Os) (p dest_dir : PathBuf) (a : Apart p dest_dir) (x : Option Tree) where
  extract_entry-Keeps :
      (n : ℕ) (e : Entry) (s : State)
      → IsPlain e
      → at p s.tree ≡ x
      → Keeps p x (extract_entry os dest_dir n e s)
  unfolding extract_entry
  extract_entry-Keeps n bad_entry s plain h = h
  extract_entry-Keeps n bad_path s plain h = h
  extract_entry-Keeps n (dir_entry []) s plain h = h
  extract_entry-Keeps n (dir_entry (top ∷ [])) s plain h = h
  extract_entry-Keeps n (dir_entry (top ∷ c ∷ cs)) s plain h =
      let out = resolve dest_dir (c ∷ cs) in
      attempt-Keeps p x os (create_directory n out) (create_dir_all out s.tree) s h
        (λ u. at-create_dir_all-Apart p out s.tree u (resolve-Apart p dest_dir (c ∷ cs) plain a))
  extract_entry-Keeps n (file_entry [] y b) s plain h = h
  extract_entry-Keeps n (file_entry (top ∷ []) y b) s plain h = h
  extract_entry-Keeps n (file_entry (top ∷ c ∷ cs) y b) s plain h =
      let out = resolve dest_dir (c ∷ cs) in
      let above = resolve dest_dir (parent (c ∷ cs)) in
      and_then-Keeps p x (attempt os (create_parent n above) (create_dir_all above s.tree) s)
        (λ s. attempt os (unpack_entry n out) (unpack out y b s.tree) s)
        (attempt-Keeps p x os (create_parent n above) (create_dir_all above s.tree) s h (λ u.
          at-create_dir_all-Apart p above s.tree u
            (resolve-Apart p dest_dir (parent (c ∷ cs)) (All-parent (c ∷ cs) plain) a)))
        (λ s1 h1.
          attempt-Keeps p x os (unpack_entry n out) (unpack out y b s1.tree) s1 h1
            (λ u. at-unpack-Apart p out y b s1.tree u (resolve-Apart p dest_dir (c ∷ cs) plain a)))
  extract_entry-Keeps n (other_entry [] made) s plain h = h
  extract_entry-Keeps n (other_entry (top ∷ []) made) s plain h = h
  extract_entry-Keeps n (other_entry (top ∷ c ∷ cs) made) s plain h = absurd plain

  extract_entries-Keeps :
      (n : ℕ) (es : List Entry) (s : State)
      → All IsPlain es
      → at p s.tree ≡ x
      → Keeps p x (extract_entries os dest_dir n es s)
  unfolding extract_entries
  extract_entries-Keeps n [] s plain h = h
  extract_entries-Keeps n (e ∷ es) s (plain, rest) h =
      and_then-Keeps p x (extract_entry os dest_dir n e s) (extract_entries os dest_dir (n + 1) es)
        (extract_entry-Keeps n e s plain h) (λ s1 h1. extract_entries-Keeps (n + 1) es s1 rest h1)

  unpack_archive-Keeps :
      (entries : List ℕ → Option (List Entry)) (archive : PathBuf) (content : Option (List ℕ))
      (s : State)
      → ((b : List ℕ) (es : List Entry) → entries b ≡ some es → All IsPlain es)
      → at p s.tree ≡ x
      → Keeps p x (unpack_archive os entries archive content dest_dir s)
  unpack_archive-Keeps entries archive none s plain h = h
  unpack_archive-Keeps entries archive (some b) s plain h = elim (Option-cases (entries b)) [
    | inl miss ↦ rw (miss, unpack_archive) h
    | inr (es, hit) ↦ rw (hit, unpack_archive) (extract_entries-Keeps 0 es s (plain b es hit) h)
  ]

-- Whether the extraction comes back or fails, nothing beside the destination changes, provided that the
-- archive holds only directories and files, no links, and that their paths have only names behind their
-- first component.
pub extract_tarball-Keeps :
    (os : Os) (entries : List ℕ → Option (List Entry)) (archive dest_dir p : PathBuf) (s : State)
    → ((b : List ℕ) (es : List Entry) → entries b ≡ some es → All IsPlain es)
    → Apart p dest_dir
    → Keeps p (at p s.tree) (extract_tarball os entries archive dest_dir s)
unfolding extract_tarball
extract_tarball-Keeps os entries archive dest_dir p s plain a =
    let x = at p s.tree in
    and_then-Keeps p x (attempt os (create_dest_dir dest_dir) (create_dir_all dest_dir s.tree) s)
      (λ s.
        and_then (attempt os (open_archive archive) (some s.tree) s)
          (λ s. unpack_archive os entries archive (read archive s.tree) dest_dir s))
      (attempt-Keeps p x os (create_dest_dir dest_dir) (create_dir_all dest_dir s.tree) s refl
        (λ u. at-create_dir_all-Apart p dest_dir s.tree u a))
      (λ s1 h1.
        and_then-Keeps p x (attempt os (open_archive archive) (some s1.tree) s1)
          (λ s. unpack_archive os entries archive (read archive s.tree) dest_dir s)
          (attempt-Keeps p x os (open_archive archive) (some s1.tree) s1 h1
            (λ u e. ground (arith, e)))
          (λ s2 h2.
            unpack_archive-Keeps os p dest_dir a x entries archive (read archive s2.tree) s2 plain
              h2))

without_last-append : (p : PathBuf) (c : Text) → without_last (p ++ (c ∷ [])) ≡ p
without_last-append [] c = refl
without_last-append (d ∷ []) c = refl
without_last-append (d ∷ f ∷ p) c = ap (λ q. d ∷ q) (without_last-append (f ∷ p) c)

unpack-none :
    (p : PathBuf) (x : Bool) (b : List ℕ) (t u : Tree)
    → at p t ≡ none
    → put p (file x b) t ≡ some u
    → unpack p x b t ≡ some u
unfolding unpack
unpack-none p x b t u free hit = ground (arith, free, hit)

-- A file that an archive holds as `top/../c` is written beside the destination: where the system refuses
-- nothing and there is nothing yet at that place, the entry is extracted to it.
pub extract_entry-parent_dir :
    (os : Os) (base_dir : PathBuf) (d c top : Text) (n : ℕ) (x : Bool) (b : List ℕ) (s : State)
    (t : Tree)
    → ((e : Fault) → os.refuses e ≡ false)
    → create_dir_all base_dir s.tree ≡ some t
    → at (base_dir ++ (c ∷ [])) t ≡ none
    → (s' : State) × (extract_entry os
          (base_dir ++ (d ∷ []))
          n
          (file_entry (normal top ∷ parent_dir ∷ normal c ∷ []) x b)
          s
        ≡ returned s')
      × (at (base_dir ++ (c ∷ [])) s'.tree ≡ some (file x b))
unfolding extract_entry resolve parent attempt attempted and_then
extract_entry-parent_dir os base_dir d c top n x b s t allowed made free =
    let (u, hit) =
      put-is_dir base_dir c (file x b) t (is_dir-create_dir_all base_dir s.tree t made) in
    (
      record s { tree = u },
      rw
          (
            without_last-append base_dir d,
            allowed (create_parent n base_dir),
            made,
            allowed (unpack_entry n (base_dir ++ (c ∷ []))),
            unpack-none (base_dir ++ (c ∷ [])) x b t u free hit,
          )
          refl,
      at-put (base_dir ++ (c ∷ [])) (file x b) t u hit,
    )
