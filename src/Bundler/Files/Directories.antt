-- ===== src/Bundler/Files/Directories.antt =====
-- `create_dir_all` and the removals that crates/bundler/src calls, on the tree of `Files`.
use hwwctl.Prelude.{
  ◌≡◌, refl, sym, ap, ◌∙◌, [], ◌∷◌, ◌++◌, Text, text_eq, text_eq_refl, text_eq→eq, true, Option,
  none, some, inl, inr, Option-cases, Bool-cases, if◌then◌else◌, arith,
}
use hwwctl.Bundler.Files.{
  PathBuf, Tree, file, dir, Entries, child, set_child, erase_child, at, is_dir, create_dir_all,
  or_empty, erase,
}
use hwwctl.Bundler.Files.Put.{
  Apart, Apart-cons, child-erase_child, map-some, at_child, at-cons, at-set_child, at-append,
}

at_child-or_empty :
    (c : Text) (p : PathBuf) (o : Option Tree) → at (c ∷ p) (or_empty o) ≡ at_child (c ∷ p) o
unfolding at child
at_child-or_empty c p none = refl
at_child-or_empty c p (some t) = refl

at_child-or_empty-append :
    (p : PathBuf) (c : Text) (q : PathBuf) (o : Option Tree)
    → at (p ++ (c ∷ q)) (or_empty o) ≡ at_child (p ++ (c ∷ q)) o
at_child-or_empty-append [] c q o = at_child-or_empty c q o
at_child-or_empty-append (d ∷ p) c q o = at_child-or_empty d (p ++ (c ∷ q)) o

at_child-or_empty-Apart :
    (p q : PathBuf) (o : Option Tree) → Apart p q → at p (or_empty o) ≡ at_child p o
at_child-or_empty-Apart [] q o a = absurd a
at_child-or_empty-Apart (c ∷ p) q o a = at_child-or_empty c p o

-- After `create_dir_all(p)` there is a directory.
pub is_dir-create_dir_all :
    (p : PathBuf) (t u : Tree) → create_dir_all p t ≡ some u → is_dir p u ≡ true
unfolding create_dir_all is_dir at
is_dir-create_dir_all p (file x b) u e = absurd cc
is_dir-create_dir_all [] (dir es) u e = ground (arith, e)
is_dir-create_dir_all (c ∷ p) (dir es) u e =
    let (w, hit, same) = map-some (λ v. dir (set_child c v es)) _ u e in
    rw (← same, at-set_child c c p w es, text_eq_refl c) (is_dir-create_dir_all p _ w hit)

-- It changes nothing beside its path, and nothing below it.
pub at-create_dir_all-Apart :
    (p q : PathBuf) (t u : Tree) → Apart p q → create_dir_all q t ≡ some u → at p u ≡ at p t
unfolding create_dir_all
at-create_dir_all-Apart [] q t u a e = absurd a
at-create_dir_all-Apart (c ∷ p) [] t u a e = absurd a
at-create_dir_all-Apart (c ∷ p) (d ∷ q) (file x b) u a e = absurd cc
at-create_dir_all-Apart (c ∷ p) (d ∷ q) (dir es) u a e =
    let (w, hit, same) = map-some (λ v. dir (set_child d v es)) _ u e in
    rw (← same, at-set_child c d p w es)
      (elim (Bool-cases (text_eq c d)) [
        | inl eq ↦
            let b = Apart-cons c d p q eq a in
            rw (eq, at-cons c p es, text_eq→eq c d eq)
              (at-create_dir_all-Apart p q (or_empty (child d es)) w b hit
                ∙ at_child-or_empty-Apart p q (child d es) b)
        | inr ne ↦ rw ne refl
      ])

pub at-create_dir_all-below :
    (p : PathBuf) (c : Text) (q : PathBuf) (t u : Tree)
    → create_dir_all p t ≡ some u
    → at (p ++ (c ∷ q)) u ≡ at (p ++ (c ∷ q)) t
unfolding create_dir_all
at-create_dir_all-below p c q (file x b) u e = absurd cc
at-create_dir_all-below [] c q (dir es) u e = ground (arith, e)
at-create_dir_all-below (d ∷ p) c q (dir es) u e =
    let (w, hit, same) = map-some (λ v. dir (set_child d v es)) _ u e in
    rw (← same, at-set_child d d (p ++ (c ∷ q)) w es, text_eq_refl d)
      (at-create_dir_all-below p c q (or_empty (child d es)) w hit
        ∙ at_child-or_empty-append p c q (child d es)
        ∙ sym (at-cons d (p ++ (c ∷ q)) es))

at-erase_child :
    (c d : Text) (p : PathBuf) (es : Entries)
    → at (c ∷ p) (dir (erase_child d es)) ≡ (if text_eq c d then none else at (c ∷ p) (dir es))
at-erase_child c d p es =
    rw (at-cons c p (erase_child d es), at-cons c p es, child-erase_child c d es) (ground arith)

Apart-nil : (p : PathBuf) → ¬ Apart p []
Apart-nil [] a = a
Apart-nil (c ∷ p) a = a

-- What `erase` takes out is gone, and nothing else is.
pub at-erase : (c : Text) (p : PathBuf) (t : Tree) → at (c ∷ p) (erase (c ∷ p) t) ≡ none
unfolding erase at
at-erase c p (file x b) = refl
at-erase c [] (dir es) = rw (at-erase_child c c [] es, text_eq_refl c) refl
at-erase c (d ∷ p) (dir es) = elim (Option-cases (child c es)) [
  | inl miss ↦ rw (miss, erase) (rw (at-cons c (d ∷ p) es, miss) refl)
  | inr (t, hit) ↦
      rw (hit, erase)
        (rw (at-set_child c c (d ∷ p) (erase (d ∷ p) t) es, text_eq_refl c) (at-erase d p t))
]

pub at-erase-Apart : (p q : PathBuf) (t : Tree) → Apart p q → at p (erase q t) ≡ at p t
unfolding erase
at-erase-Apart [] q t a = absurd a
at-erase-Apart (c ∷ p) [] t a = absurd a
at-erase-Apart (c ∷ p) (d ∷ q) (file x b) a = refl
at-erase-Apart (c ∷ p) (d ∷ []) (dir es) a =
    rw (at-erase_child c d p es) (elim (Bool-cases (text_eq c d)) [
      | inl eq ↦ absurd (Apart-nil p (Apart-cons c d p [] eq a))
      | inr ne ↦ rw ne refl
    ])
at-erase-Apart (c ∷ p) (d ∷ f ∷ q) (dir es) a = elim (Option-cases (child d es)) [
  | inl miss ↦ rw (miss, erase) refl
  | inr (t, hit) ↦
      rw (hit, erase, at-set_child c d p (erase (f ∷ q) t) es)
        (elim (Bool-cases (text_eq c d)) [
          | inl eq ↦
              rw (eq, at-cons c p es, text_eq→eq c d eq, hit)
                (at-erase-Apart p (f ∷ q) t (Apart-cons c d p (f ∷ q) eq a))
          | inr ne ↦ rw ne refl
        ])
]

pub at-erase-append :
    (p : PathBuf) (c : Text) (q : PathBuf) (t : Tree)
    → at ((p ++ (c ∷ [])) ++ q) (erase (p ++ (c ∷ [])) t) ≡ none
at-erase-append p c q t =
    at-append (p ++ (c ∷ [])) q (erase (p ++ (c ∷ [])) t) ∙ ap (at_child q) (erased p)
  where
    erased : (p : PathBuf) → at (p ++ (c ∷ [])) (erase (p ++ (c ∷ [])) t) ≡ none
    erased [] = at-erase c [] t
    erased (d ∷ p) = at-erase d (p ++ (c ∷ [])) t
