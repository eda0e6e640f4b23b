-- ===== src/Bundler/Files.antt =====
-- What crates/bundler/src uses of `std::fs`: a tree of directories and files without links, read and
-- changed by path. An operation that the system refuses whatever the reason is the caller's matter; here
-- `none` is what the tree itself makes fail. The entries of a directory stand in the order in which
-- `read_dir` gives them.
pub mod Put
pub mod Directories
pub mod Calls
use hwwctl.Prelude.{
  ℕ, zero, suc, ◌+◌, List, [], ◌∷◌, ◌++◌, Text, codes, text_eq, Bool, true, false, not, ◌&&◌, ◌||◌,
  Option, none, some, ◌==◌, if◌then◌else◌, arith, length,
}
use mathlib.Core.Option

abbrev pub PathBuf : Type 0
PathBuf = List Text

-- A file has its executable bit and its bytes.
mutual
  pub data Tree : Type 0 where
    file : Bool → List ℕ → Tree
    dir : Entries → Tree

  pub data Entries : Type 0 where
    end : Entries
    entry : Text → Tree → Entries → Entries

unfoldable pub child : Text → Entries → Option Tree
child c end = none
child c (entry name t es) = if text_eq c name then some t else child c es

-- A new entry comes last.
unfoldable pub set_child : Text → Tree → Entries → Entries
set_child c u end = entry c u end
set_child c u (entry name t es) =
    let rest = set_child c u es in if text_eq c name then entry name u es else entry name t rest

unfoldable pub erase_child : Text → Entries → Entries
erase_child c end = end
erase_child c (entry name t es) =
    let rest = erase_child c es in if text_eq c name then rest else entry name t rest

unfoldable pub at : PathBuf → Tree → Option Tree
at [] t = some t
at (c ∷ p) (file x b) = none
at (c ∷ p) (dir es) = elim (child c es) [ none ↦ none | some t ↦ at p t ]

unfoldable pub put_new : PathBuf → Tree → Option Tree
put_new [] new = some new
put_new (c ∷ p) new = none

-- Replaces or creates what a path names: all directories on the way must be there.
unfoldable pub put : PathBuf → Tree → Tree → Option Tree
put [] new t = some new
put (c ∷ p) new (file x b) = none
put (c ∷ p) new (dir es) =
    Option.map (λ u. dir (set_child c u es))
      (elim (child c es) [ none ↦ put_new p new | some t ↦ put p new t ])

abbrev pub or_empty : Option Tree → Tree
or_empty none = dir end
or_empty (some t) = t

-- `create_dir_all(p)`
unfoldable pub create_dir_all : PathBuf → Tree → Option Tree
create_dir_all p (file x b) = none
create_dir_all [] (dir es) = some (dir es)
create_dir_all (c ∷ p) (dir es) =
    Option.map (λ u. dir (set_child c u es)) (create_dir_all p (or_empty (child c es)))

-- What a path names is taken out, with all that it holds.
unfoldable pub erase : PathBuf → Tree → Tree
erase [] t = t
erase (c ∷ p) (file x b) = file x b
erase (c ∷ []) (dir es) = dir (erase_child c es)
erase (c ∷ d ∷ p) (dir es) = elim (child c es) [
  | none ↦ dir es
  | some t ↦ dir (set_child c (erase (d ∷ p) t) es)
]

abbrev pub node_is_dir : Option Tree → Bool
node_is_dir (some (dir es)) = true
node_is_dir (some (file x b)) = false
node_is_dir none = false

abbrev pub node_is_file : Option Tree → Bool
node_is_file (some (dir es)) = false
node_is_file (some (file x b)) = true
node_is_file none = false

abbrev pub node_exists : Option Tree → Bool
node_exists (some t) = true
node_exists none = false

-- `path.is_dir()`, `path.is_file()` and `path.exists()`
unfoldable pub is_dir : PathBuf → Tree → Bool
is_dir p t = node_is_dir (at p t)

unfoldable pub is_file : PathBuf → Tree → Bool
is_file p t = node_is_file (at p t)

unfoldable pub exists : PathBuf → Tree → Bool
exists p t = node_exists (at p t)

abbrev pub node_bytes : Option Tree → Option (List ℕ)
node_bytes (some (file x b)) = some b
node_bytes (some (dir es)) = none
node_bytes none = none

abbrev pub executable_bit : Option Tree → Bool
executable_bit (some (file x b)) = x
executable_bit (some (dir es)) = false
executable_bit none = false

-- `fs::read(p).ok()`
unfoldable pub read : PathBuf → Tree → Option (List ℕ)
read p t = node_bytes (at p t)

-- `fs::write(p, b)` and `File::create(p)` with no bytes: a file that is there keeps its mode.
unfoldable pub write : PathBuf → List ℕ → Tree → Option Tree
write p b t = if is_dir p t then none else put p (file (executable_bit (at p t)) b) t

-- `write_all` to a file that was created
unfoldable pub append : PathBuf → List ℕ → Tree → Option Tree
append p b t = elim (read p t) [
  | none ↦ none
  | some before ↦ put p (file (executable_bit (at p t)) (before ++ b)) t
]

-- `fs::rename(from, to)` of a file
unfoldable pub rename : PathBuf → PathBuf → Tree → Option Tree
rename from to t = elim (at from t) [
  | none ↦ none
  | some node ↦ if is_dir to t then none else put to node (erase from t)
]

-- `fs::remove_file(p)`, which fails and changes nothing where `p` is no file
unfoldable pub remove_file : PathBuf → Tree → Tree
remove_file p t = if is_file p t then erase p t else t

-- The name up to its last dot, where that is not its first character.
unfoldable pub before_last_dot : Text → Option Text
before_last_dot [] = none
before_last_dot (c ∷ s) = elim (before_last_dot s) [
  | some t ↦ some (c ∷ t)
  | none ↦ if c == b'.' then some [] else none
]

abbrev pub stem_or : Text → Option Text → Text
stem_or name none = name
stem_or name (some []) = name
stem_or name (some (c ∷ t)) = c ∷ t

-- `path.with_extension(ext)`
unfoldable pub with_extension : Text → PathBuf → PathBuf
with_extension ext [] = []
with_extension ext (name ∷ []) = (stem_or name (before_last_dot name) ++ (codes "." ++ ext)) ∷ []
with_extension ext (c ∷ d ∷ p) = c ∷ with_extension ext (d ∷ p)
