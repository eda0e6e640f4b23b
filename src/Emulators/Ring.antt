-- ===== src/Emulators/Ring.antt =====
-- crates/emulators/src/generic.rs: `push_line` on the ring buffer of output lines.
use hwwctl.Prelude.{
  ℕ, suc, ◌-◌, ◌≤◌, ◌<◌, ◌≡◌, ap, sym, ◌∙◌, List, [], ◌∷◌, ◌++◌, length, length-drop, drop, ltb,
  append-nil, inl, inr, Bool-cases, length-append, append_assoc, arith,
}
use hwwctl.Emulators.Generic.{push_line}

-- What a sequence of lines leaves in a buffer.
abbrev pub push_lines {ℓ} : {A : Type ℓ} → ℕ → List A → List A → List A
push_lines size buf [] = buf
push_lines size buf (x ∷ xs) = push_lines size (push_line size buf x) xs

module _ {ℓ} {A : Type ℓ} (size : ℕ) (room : 0 < size) where
  -- The entries of `all` that a buffer keeps.
  abbrev last_of : List A → List A
  last_of all = drop (length all - size) all

  with_room :
      (buf xs : List A) (x : A) → length buf < size → push_line size buf x ++ xs ≡ buf ++ (x ∷ xs)
  unfolding push_line
  with_room buf xs x h = ground (arith, append_assoc buf (x ∷ []) xs)

  when_full :
      (b : A) (bs xs : List A) (x : A)
      → length (b ∷ bs) ≡ size
      → push_line size (b ∷ bs) x ++ xs ≡ bs ++ (x ∷ xs)
  unfolding push_line
  when_full b bs xs x h = ground (arith, append_assoc bs (x ∷ []) xs)

  push_line-bound :
      (buf : List A) (x : A) → length buf ≤ size → length (push_line size buf x) ≤ size
  unfolding push_line
  push_line-bound [] x h = ground arith
  push_line-bound (b ∷ bs) x h =
      ground (arith, length-append bs (x ∷ []), length-append (b ∷ bs) (x ∷ []))

  last_of_cons : (b : A) (all : List A) → size ≤ length all → last_of (b ∷ all) ≡ last_of all
  last_of_cons b all h =
      let more : suc (length all) - size ≡ suc (length all - size) = omega arith in
      ap (λ n. drop n (b ∷ all)) more

  push_line_kept :
      (buf xs : List A) (x : A)
      → length buf ≤ size
      → last_of (push_line size buf x ++ xs) ≡ last_of (buf ++ (x ∷ xs))
  push_line_kept [] xs x h = ap last_of (with_room [] xs x room)
  push_line_kept (b ∷ bs) xs x h = elim (Bool-cases (ltb (length (b ∷ bs)) size)) [
    | inl some_room ↦ ap last_of (with_room (b ∷ bs) xs x (ground (arith, some_room)))
    | inr full ↦
        ap last_of (when_full b bs xs x (ground (arith, full)))
        ∙ sym (last_of_cons b (bs ++ (x ∷ xs)) (ground (arith, length-append bs (x ∷ xs), full)))
  ]

  push_lines_from :
      (xs buf : List A) → length buf ≤ size → push_lines size buf xs ≡ last_of (buf ++ xs)
  push_lines_from [] buf h =
      let fits : 0 ≡ length buf - size = omega arith in
      rw (append-nil buf) (ap (λ n. drop n buf) fits)
  push_lines_from (x ∷ xs) buf h =
      push_lines_from xs (push_line size buf x) (push_line-bound buf x h)
      ∙ push_line_kept buf xs x h

  -- A ring buffer that starts empty always holds the last lines pushed, as many as it has room for.
  pub push_line_last :
      (xs : List A)
      → (push_lines size [] xs ≡ drop (length xs - size) xs)
        × (length (push_lines size [] xs) ≤ size)
  push_line_last xs = (
    push_lines_from xs [] (omega arith),
    rw (push_lines_from xs [] (omega arith)) (omega (arith, length-drop (length xs - size) xs)),
  )
