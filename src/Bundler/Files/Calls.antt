-- ===== src/Bundler/Files/Calls.antt =====
-- What the reads and writes of `std::fs` in crates/bundler/src leave at a path.
use hwwctl.Prelude.{
  ℕ, ◌≡◌, refl, sym, ◌∙◌, List, ◌++◌, some, inl, inr, Option-cases, Bool-cases, arith,
}
use hwwctl.Bundler.Files.{
  PathBuf, Tree, file, at, is_dir, write, append, rename, read, executable_bit, remove_file, erase,
}
use hwwctl.Bundler.Files.Put.{Apart, at-put, at-put-Apart, put-some}
use hwwctl.Bundler.Files.Directories.{at-erase-Apart}

-- Any call that writes to a path leaves all others as they were.
pub at-write-Apart :
    (p q : PathBuf) (b : List ℕ) (t u : Tree) → Apart p q → write q b t ≡ some u → at p u ≡ at p t
unfolding write
at-write-Apart p q b t u a e = elim (Bool-cases (is_dir q t)) [
  | inl eq ↦ absurd (ground (arith, eq, e))
  | inr ne ↦ at-put-Apart p q (file (executable_bit (at q t)) b) t u a (ground (arith, ne, e))
]

pub at-append-Apart :
    (p q : PathBuf) (b : List ℕ) (t u : Tree) → Apart p q → append q b t ≡ some u → at p u ≡ at p t
unfolding append
at-append-Apart p q b t u a e = elim (Option-cases (read q t)) [
  | inl miss ↦ absurd (ground (arith, miss, e))
  | inr (c, hit) ↦
      at-put-Apart p q (file (executable_bit (at q t)) (c ++ b)) t u a (ground (arith, hit, e))
]

pub at-rename-Apart :
    (p from to : PathBuf) (t u : Tree)
    → Apart p from
    → Apart p to
    → rename from to t ≡ some u
    → at p u ≡ at p t
unfolding rename
at-rename-Apart p from to t u a b e = elim (Option-cases (at from t)) [
  | inl miss ↦ absurd (ground (arith, miss, e))
  | inr (node, hit) ↦ elim (Bool-cases (is_dir to t)) [
    | inl eq ↦ absurd (ground (arith, hit, eq, e))
    | inr ne ↦
        at-put-Apart p to node (erase from t) u b (ground (arith, hit, ne, e))
        ∙ at-erase-Apart p from t a
  ]
]

pub at-rename : (from to : PathBuf) (t u : Tree) → rename from to t ≡ some u → at to u ≡ at from t
unfolding rename
at-rename from to t u e = elim (Option-cases (at from t)) [
  | inl miss ↦ absurd (ground (arith, miss, e))
  | inr (node, hit) ↦ elim (Bool-cases (is_dir to t)) [
    | inl eq ↦ absurd (ground (arith, hit, eq, e))
    | inr ne ↦ at-put to node (erase from t) u (ground (arith, hit, ne, e)) ∙ sym hit
  ]
]

pub at-remove_file-Apart : (p q : PathBuf) (t : Tree) → Apart p q → at p (remove_file q t) ≡ at p t
unfolding remove_file
at-remove_file-Apart p q t a = ground (arith, at-erase-Apart p q t a)

pub read-write : (p : PathBuf) (b : List ℕ) (t u : Tree) → write p b t ≡ some u → read p u ≡ some b
unfolding write read
read-write p b t u e = elim (Bool-cases (is_dir p t)) [
  | inl eq ↦ absurd (ground (arith, eq, e))
  | inr ne ↦
      let hit = at-put p (file (executable_bit (at p t)) b) t u (ground (arith, ne, e)) in
      rw hit refl
]

-- Bytes are written behind those of a file that is there.
pub read-append :
    (p : PathBuf) (b before : List ℕ) (t : Tree)
    → read p t ≡ some before
    → (u : Tree) × (append p b t ≡ some u) × (read p u ≡ some (before ++ b))
unfolding append read
read-append p b before t h = elim (Option-cases (at p t)) [
  | inl miss ↦ absurd (ground (arith, h, miss))
  | inr (x, hit) ↦
      let new = file (executable_bit (at p t)) (before ++ b) in
      let (u, e) = put-some p new t x hit in (u, ground (arith, h, e), rw (at-put p new t u e) refl)
]
