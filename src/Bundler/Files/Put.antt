-- ===== src/Bundler/Files/Put.antt =====
-- crates/bundler/src: what stands at a path of the tree of `Files`, and what putting something there changes.
use hwwctl.Prelude.{
  ◌≡◌, refl, sym, ap, subst, [], ◌∷◌, ◌++◌, Text, text_eq, text_eq_refl, text_eq→eq, true, Option,
  none, some, inl, inr, Option-cases, Bool-cases, if◌then◌else◌, arith,
}
use hwwctl.Bundler.Files.{
  PathBuf, Tree, file, dir, Entries, end, entry, child, set_child, erase_child, at, put, put_new,
  is_dir, with_extension,
}
use mathlib.Core.Option

-- Two paths that part at some component: neither is inside the other.
abbrev pub Apart : PathBuf → PathBuf → Type 0
Apart [] q = ⊥
Apart (c ∷ p) [] = ⊥
Apart (c ∷ p) (d ∷ q) = if text_eq c d then Apart p q else Unit

pub Apart-cons :
    (c d : Text) (p q : PathBuf) → text_eq c d ≡ true → Apart (c ∷ p) (d ∷ q) → Apart p q
Apart-cons c d p q e a = subst (λ b. if b then Apart p q else Unit) e a

pub child-set_child :
    (c d : Text) (u : Tree) (es : Entries)
    → child c (set_child d u es) ≡ (if text_eq c d then some u else child c es)
unfolding child set_child
child-set_child c d u end = refl
child-set_child c d u (entry name t es) = ground (
  arith,
  child-set_child c d u es,
  text_eq→eq d name,
  text_eq→eq c d,
  text_eq→eq c name,
  text_eq_refl d,
)

pub child-erase_child :
    (c d : Text) (es : Entries)
    → child c (erase_child d es) ≡ (if text_eq c d then none else child c es)
unfolding child erase_child
child-erase_child c d end = ground arith
child-erase_child c d (entry name t es) = ground (
  arith,
  child-erase_child c d es,
  text_eq→eq d name,
  text_eq→eq c d,
  text_eq→eq c name,
  text_eq_refl d,
)

pub map-some {ℓ κ} :
    {A : Type ℓ} {B : Type κ} (f : A → B) (o : Option A) (b : B)
    → Option.map f o ≡ some b
    → (a : A) × (o ≡ some a) × (f a ≡ b)
map-some f none b e = absurd cc
map-some f (some a) b e = (a, refl, ground (arith, e))

abbrev pub at_child : PathBuf → Option Tree → Option Tree
at_child p none = none
at_child p (some t) = at p t

pub at-cons :
    (c : Text) (p : PathBuf) (es : Entries) → at (c ∷ p) (dir es) ≡ at_child p (child c es)
unfolding at
at-cons c p es = elim (Option-cases (child c es)) [
  | inl e ↦ ground (arith, e)
  | inr (t, e) ↦ ground (arith, e)
]

pub at-set_child :
    (c d : Text) (p : PathBuf) (u : Tree) (es : Entries)
    → at (c ∷ p) (dir (set_child d u es)) ≡ (if text_eq c d then at p u else at (c ∷ p) (dir es))
at-set_child c d p u es =
    rw (at-cons c p (set_child d u es), at-cons c p es, child-set_child c d u es) (ground arith)

abbrev put_child : PathBuf → Tree → Option Tree → Option Tree
put_child p new none = put_new p new
put_child p new (some t) = put p new t

put-cons :
    (c : Text) (p : PathBuf) (new : Tree) (es : Entries) (u : Tree)
    → put (c ∷ p) new (dir es) ≡ some u
    → (w : Tree) × (put_child p new (child c es) ≡ some w) × (dir (set_child c w es) ≡ u)
unfolding put
put-cons c p new es u e = elim (Option-cases (child c es)) [
  | inl miss ↦ rw miss (map-some _ _ u (ground (arith, e, miss)))
  | inr (t, hit) ↦ rw hit (map-some _ _ u (ground (arith, e, hit)))
]

at-put_child :
    (p : PathBuf) (new : Tree) (o : Option Tree) (w : Tree)
    → ((t u : Tree) → put p new t ≡ some u → at p u ≡ some new)
    → put_child p new o ≡ some w
    → at p w ≡ some new
unfolding at put_new
at-put_child [] new none w ih e = ground (arith, e)
at-put_child (c ∷ p) new none w ih e = absurd cc
at-put_child p new (some t) w ih e = ih t w e

-- What `put` writes is there.
pub at-put : (p : PathBuf) (new t u : Tree) → put p new t ≡ some u → at p u ≡ some new
unfolding at put put_new
at-put [] new t u e = ground arith
at-put (c ∷ p) new (file x b) u e = absurd cc
at-put (c ∷ p) new (dir es) u e =
    let (w, hit, same) = put-cons c p new es u e in
    rw (← same, at-set_child c c p w es, text_eq_refl c)
      (at-put_child p new (child c es) w (at-put p new) hit)

at-put_child-Apart :
    (p q : PathBuf) (new : Tree) (o : Option Tree) (w : Tree)
    → ((t u : Tree) → put q new t ≡ some u → at p u ≡ at p t)
    → Apart p q
    → put_child q new o ≡ some w
    → at p w ≡ at_child p o
unfolding at put_new
at-put_child-Apart [] q new none w ih a e = absurd a
at-put_child-Apart (c ∷ p) [] new none w ih a e = absurd a
at-put_child-Apart (c ∷ p) (d ∷ q) new none w ih a e = absurd cc
at-put_child-Apart p q new (some t) w ih a e = ih t w e

-- And nothing else changes.
pub at-put-Apart :
    (p q : PathBuf) (new t u : Tree) → Apart p q → put q new t ≡ some u → at p u ≡ at p t
unfolding put
at-put-Apart [] q new t u a e = absurd a
at-put-Apart (c ∷ p) [] new t u a e = absurd a
at-put-Apart (c ∷ p) (d ∷ q) new (file x b) u a e = absurd cc
at-put-Apart (c ∷ p) (d ∷ q) new (dir es) u a e =
    let (w, hit, same) = put-cons d q new es u e in
    rw (← same, at-set_child c d p w es)
      (elim (Bool-cases (text_eq c d)) [
        | inl eq ↦
            rw (eq, at-cons c p es, text_eq→eq c d eq)
              (at-put_child-Apart p q new (child d es) w
                (λ t v. at-put-Apart p q new t v (Apart-cons c d p q eq a))
                (Apart-cons c d p q eq a) hit)
        | inr ne ↦ rw ne refl
      ])

pub Apart-append : (p q r : PathBuf) → Apart q r → Apart (p ++ q) (p ++ r)
Apart-append [] q r a = a
Apart-append (c ∷ p) q r a =
    subst (λ b. if b then Apart (p ++ q) (p ++ r) else Unit) (sym (text_eq_refl c))
      (Apart-append p q r a)

pub with_extension-append :
    (ext : Text) (p : PathBuf) (name : Text)
    → with_extension ext (p ++ (name ∷ [])) ≡ p ++ with_extension ext (name ∷ [])
unfolding with_extension
with_extension-append ext [] name = refl
with_extension-append ext (c ∷ []) name = refl
with_extension-append ext (c ∷ d ∷ p) name =
    ap (λ q. c ∷ q) (with_extension-append ext (d ∷ p) name)

pub Apart-append_right : (p q r : PathBuf) → Apart p q → Apart p (q ++ r)
Apart-append_right [] q r a = absurd a
Apart-append_right (c ∷ p) [] r a = absurd a
Apart-append_right (c ∷ p) (d ∷ q) r a = elim (Bool-cases (text_eq c d)) [
  | inl eq ↦
      subst (λ b. if b then Apart p (q ++ r) else Unit) (sym eq)
        (Apart-append_right p q r (Apart-cons c d p q eq a))
  | inr ne ↦ subst (λ b. if b then Apart p (q ++ r) else Unit) (sym ne) tt
]

-- A call that puts something into a directory that is there succeeds.
pub put-is_dir :
    (p : PathBuf) (c : Text) (new t : Tree)
    → is_dir p t ≡ true
    → (u : Tree) × (put (p ++ (c ∷ [])) new t ≡ some u)
unfolding is_dir put put_new at
put-is_dir [] c new (file x b) h = absurd cc
put-is_dir (d ∷ p) c new (file x b) h = absurd cc
put-is_dir [] c new (dir es) h = elim (Option-cases (child c es)) [
  | inl miss ↦ (dir (set_child c new es), ground (arith, miss))
  | inr (t, hit) ↦ (dir (set_child c new es), ground (arith, hit))
]
put-is_dir (d ∷ p) c new (dir es) h = elim (Option-cases (child d es)) [
  | inl miss ↦ absurd (ground (arith, h, miss))
  | inr (t, hit) ↦
      let (u, e) = put-is_dir p c new t (ground (arith, h, hit)) in
      (dir (set_child d u es), rw hit (ground (arith, e)))
]

-- A path that goes on is looked up from where its start leads.
pub at-append : (p q : PathBuf) (t : Tree) → at (p ++ q) t ≡ at_child q (at p t)
unfolding at
at-append [] q t = refl
at-append (c ∷ p) q (file x b) = refl
at-append (c ∷ p) q (dir es) = elim (Option-cases (child c es)) [
  | inl miss ↦ rw (miss, at) refl
  | inr (t, hit) ↦ rw (hit, at) (at-append p q t)
]

-- What is there can be replaced.
pub put-some :
    (p : PathBuf) (new t x : Tree) → at p t ≡ some x → (u : Tree) × (put p new t ≡ some u)
unfolding at put
put-some [] new t x h = (new, refl)
put-some (c ∷ p) new (file y b) x h = absurd cc
put-some (c ∷ p) new (dir es) x h = elim (Option-cases (child c es)) [
  | inl miss ↦ absurd (ground (arith, h, miss))
  | inr (t, hit) ↦
      let (u, e) = put-some p new t x (ground (arith, h, hit)) in
      (dir (set_child c u es), rw hit (ground (arith, e)))
]
