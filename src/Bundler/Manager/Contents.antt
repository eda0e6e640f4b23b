-- ===== src/Bundler/Manager/Contents.antt =====
-- crates/bundler/src/lib.rs: what the helpers find in a bundle.
use hwwctl.Prelude.{ℕ, ◌+◌, ◌≡◌, refl, List, [], ◌∷◌, ◌++◌, length, arith}
use hwwctl.Bundler.Files.{PathBuf, Tree, file, dir, Entries, end, entry, at}
use hwwctl.Bundler.Manager.{collect, walkdir, add_sizes, dir_size, entries_at}

-- The bytes of all files in a directory, at any depth.
abbrev pub bytes_in : Entries → ℕ
bytes_in end = 0
bytes_in (entry name (file x b) es) = length b + bytes_in es
bytes_in (entry name (dir inner) es) = bytes_in inner + bytes_in es

add_sizes-append :
    (total : ℕ) (xs ys : List (List ℕ))
    → add_sizes total (xs ++ ys) ≡ add_sizes (add_sizes total xs) ys
unfolding add_sizes
add_sizes-append total [] ys = refl
add_sizes-append total (x ∷ xs) ys = add_sizes-append (total + length x) xs ys

add_sizes-collect :
    (es : Entries) (out : List (List ℕ))
    → add_sizes 0 (collect es out) ≡ add_sizes 0 out + bytes_in es
unfolding collect add_sizes
add_sizes-collect end out = omega arith
add_sizes-collect (entry name (file x b) es) out =
    let one = add_sizes-append 0 out (b ∷ []) in
    omega (arith, add_sizes-collect es (out ++ (b ∷ [])), one)
add_sizes-collect (entry name (dir inner) es) out =
    omega (arith, add_sizes-collect es (collect inner out), add_sizes-collect inner out)

-- The size of a bundle is that of all files in it, at any depth, and 0 where there is no directory.
pub dir_size-bytes_in : (p : PathBuf) (t : Tree) → dir_size p t ≡ bytes_in (entries_at (at p t))
unfolding dir_size walkdir add_sizes
dir_size-bytes_in p t = omega (arith, add_sizes-collect (entries_at (at p t)) [])
