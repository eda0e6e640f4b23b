-- ===== src/Control/Mnemonic.antt =====
-- crates/control/src/lib.rs: `normalize_mnemonic`.
use hwwctl.Prelude.{
  ℕ, ◌≡◌, ◌↔◌, refl, ap, ◌∙◌, List, [], ◌∷◌, ◌++◌, length, All, Text, codes, Bool, true, false,
  ◌&&◌, ◌||◌, leb, ◌==◌, if◌then◌else◌, not, Option, none, some, arith, All-append,
}
use hwwctl.Format.{split_whitespace, split_whitespace_loop, join, is_whitespace}
use hwwctl.Format.Laws.{IsSolid, IsWord, split_whitespace-join}

-- What is wrong with a mnemonic: the number of its words, or a word.
pub data MnemonicError : Type 0 where
  word_count : ℕ → MnemonicError
  bad_word : Text → MnemonicError

pub data Normalized : Type 0 where
  ok : Text → Normalized
  err : MnemonicError → Normalized

-- `w.bytes().all(|b| b.is_ascii_lowercase())`: a character outside ASCII has no such byte.
unfoldable pub all_lowercase : Text → Bool
all_lowercase [] = true
all_lowercase (c ∷ w) = (leb b'a' c && leb c b'z') && all_lowercase w

-- `words.iter().find(…)`: the first word that is not lowercase.
unfoldable pub find_bad : List Text → Option Text
find_bad [] = none
find_bad (w ∷ ws) = if all_lowercase w then find_bad ws else some w

unfoldable pub check_words : List Text → Normalized
check_words words =
    if not (length words == 12 || length words == 18 || length words == 24)
    then err (word_count (length words))
    else (elim (find_bad words) [
      | some bad ↦ err (bad_word bad)
      | none ↦ ok (join (codes " ") words)
    ])

unfoldable pub normalize_mnemonic : Text → Normalized
normalize_mnemonic mnemonic = check_words (split_whitespace mnemonic)

-- `split_whitespace` yields words only.
split_loop-IsWord : (word s : Text) → IsSolid word → All IsWord (split_whitespace_loop word s)
unfolding split_whitespace_loop
split_loop-IsWord [] [] h = tt
split_loop-IsWord (w ∷ word) [] h = ((h, λ e. cc), tt)
split_loop-IsWord [] (c ∷ s) h =
    split_loop-IsWord (if is_whitespace c then [] else c ∷ []) s (ground arith)
split_loop-IsWord (w ∷ word) (c ∷ s) h = ground (
  arith,
  split_loop-IsWord [] s tt,
  split_loop-IsWord ((w ∷ word) ++ (c ∷ [])) s,
  All-append (λ c. is_whitespace c ≡ false) (w ∷ word) (c ∷ []) h,
)

split-join :
    (s : Text) → split_whitespace (join (codes " ") (split_whitespace s)) ≡ split_whitespace s
unfolding split_whitespace
split-join s =
    split_whitespace-join b' ' (unfold is_whitespace in refl) (split_whitespace_loop [] s)
      (split_loop-IsWord [] s tt)

check_words-join : (ws : List Text) (t : Text) → check_words ws ≡ ok t → t ≡ join (codes " ") ws
unfolding check_words
check_words-join ws t e = ground arith

-- A mnemonic that is accepted keeps its words, and only their spacing changes.
pub normalize_mnemonic_words :
    (s t : Text)
    → normalize_mnemonic s ≡ ok t
    → (split_whitespace t ≡ split_whitespace s) × (t ≡ join (codes " ") (split_whitespace s))
unfolding normalize_mnemonic
normalize_mnemonic_words s t e =
    let same = check_words-join (split_whitespace s) t e in
    (ap split_whitespace same ∙ split-join s, same)

-- Normalising an accepted mnemonic again changes nothing.
pub normalize_mnemonic_idem :
    (s t : Text) → normalize_mnemonic s ≡ ok t → normalize_mnemonic t ≡ ok t
normalize_mnemonic_idem s t e =
    unfold normalize_mnemonic in ap check_words (normalize_mnemonic_words s t e).0 ∙ e

find_bad-none : (ws : List Text) → find_bad ws ≡ none → All (λ w. all_lowercase w ≡ true) ws
unfolding find_bad
find_bad-none [] e = tt
find_bad-none (w ∷ ws) e = ground (arith, find_bad-none ws)

All-find_bad : (ws : List Text) → All (λ w. all_lowercase w ≡ true) ws → find_bad ws ≡ none
unfolding find_bad
All-find_bad [] h = refl
All-find_bad (w ∷ ws) h = ground (arith, All-find_bad ws)

-- A mnemonic is accepted exactly when it has 12, 18 or 24 words, all of lowercase letters.
pub normalize_mnemonic_accepts :
    (s : Text)
    → ((t : Text) × (normalize_mnemonic s ≡ ok t)) ↔ (
        ((length (split_whitespace s) == 12
            || length (split_whitespace s) == 18
            || length (split_whitespace s) == 24)
          ≡ true)
        × All (λ w. all_lowercase w ≡ true) (split_whitespace s))
unfolding normalize_mnemonic check_words
normalize_mnemonic_accepts s = (
  λ (t, e). (ground arith, ground (arith, find_bad-none (split_whitespace s))),
  λ (count, lower).
      (join (codes " ") (split_whitespace s), rw (count, All-find_bad (split_whitespace s) lower)),
)
