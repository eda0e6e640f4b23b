-- ===== src/Bundler/Status/Frame.antt =====
-- crates/bundler/src: what the steps of a run leave as it was.
use hwwctl.Prelude.{◌≡◌, refl, ◌∙◌, Option, none, some, Bool-cases, ◌⊎◌, inl, inr, arith}
use hwwctl.Bundler.Files.{PathBuf, Tree, at}
use hwwctl.Bundler.Status.{Fault, State, Ran, returned, raised, and_then, attempt, attempted, Os}

-- The state that a run ends in.
abbrev pub final : Ran → State
final (returned s) = s
final (raised e s) = s

-- A run keeps what is at a path.
abbrev pub Keeps : PathBuf → Option Tree → Ran → Type 0
Keeps p x r = at p (final r).tree ≡ x

pub and_then-Keeps :
    (p : PathBuf) (x : Option Tree) (r : Ran) (k : State → Ran)
    → Keeps p x r
    → ((s : State) → at p s.tree ≡ x → Keeps p x (k s))
    → Keeps p x (and_then r k)
unfolding and_then
and_then-Keeps p x (returned s) k h hk = hk s h
and_then-Keeps p x (raised e s) k h hk = h

attempted-Keeps :
    (p : PathBuf) (x : Option Tree) (e : Fault) (result : Option Tree) (s : State)
    → at p s.tree ≡ x
    → ((u : Tree) → result ≡ some u → at p u ≡ at p s.tree)
    → Keeps p x (attempted e result s)
unfolding attempted
attempted-Keeps p x e none s h hk = h
attempted-Keeps p x e (some t) s h hk = hk t refl ∙ h

pub attempt-Keeps :
    (p : PathBuf) (x : Option Tree) (os : Os) (e : Fault) (result : Option Tree) (s : State)
    → at p s.tree ≡ x
    → ((u : Tree) → result ≡ some u → at p u ≡ at p s.tree)
    → Keeps p x (attempt os e result s)
unfolding attempt
attempt-Keeps p x os e result s h hk = ground (arith, attempted-Keeps p x e result s h hk)

-- An attempt that comes back was not refused, and its call succeeded.
pub attempt-returned :
    (os : Os) (e : Fault) (result : Option Tree) (s s' : State)
    → attempt os e result s ≡ returned s'
    → (t : Tree) × (result ≡ some t) × (s' ≡ record s { tree = t })
unfolding attempt attempted
attempt-returned os e none s s' h = absurd (ground arith)
attempt-returned os e (some t) s s' h = (t, refl, ground arith)

-- Of two steps that come back, the first did.
pub and_then-returned :
    (r : Ran) (k : State → Ran) (s' : State)
    → and_then r k ≡ returned s'
    → (s : State) × (r ≡ returned s) × (k s ≡ returned s')
unfolding and_then
and_then-returned (returned s) k s' h = (s, refl, h)
and_then-returned (raised e s) k s' h = absurd cc

-- The two ways that an attempt ends.
pub attempt-cases :
    (os : Os) (e : Fault) (result : Option Tree) (s : State)
    → (attempt os e result s ≡ raised e s)
      ⊎ ((t : Tree) × (result ≡ some t)
          × (attempt os e result s ≡ returned (record s { tree = t })))
unfolding attempt attempted
attempt-cases os e none s = inl (ground arith)
attempt-cases os e (some t) s = elim (Bool-cases (os.refuses e)) [
  | inl refused ↦ inl (ground (arith, refused))
  | inr allowed ↦ inr (t, refl, ground (arith, allowed))
]
