-- ===== src/Control/Runs.antt =====
-- Runs of the control crate's code at concrete inputs.
use hwwctl.Prelude.{
  ℕ, sym, ◌≡◌, ◌↔◌, refl, List, [], ◌∷◌, ◌++◌, length, All, some, Text, codes, arith, ◌||◌, ◌==◌,
  true, text_eq,
}
use hwwctl.Format.{split_whitespace, split_whitespace_loop, join, is_whitespace}
use hwwctl.Control.Wallet.{
  coldcard, as_str, to_ascii_lowercase, from_str, match_wallet, from_str-as_str,
}
use hwwctl.Control.Mnemonic as Mnemonic
use hwwctl.Control.Mnemonic.{
  normalize_mnemonic, check_words, all_lowercase, find_bad, normalize_mnemonic_accepts,
  normalize_mnemonic_idem, normalize_mnemonic_words,
}
use hwwctl.Control.Framing.{
  Codec, eof, io_error, ok, err, too_large, write_frame, read_frame, write_all,
}
use hwwctl.Control.Framing.RoundTrip.{read_frame-write_frame, read_frame_too_large}

from_str-as_str_example : from_str (as_str coldcard) ≡ some coldcard
from_str-as_str_example = from_str-as_str coldcard

upper : from_str (codes "CC") ≡ some coldcard
unfolding from_str match_wallet to_ascii_lowercase text_eq
upper = refl

-- Twelve words, with spare blanks.
abbrev phrase : Text
phrase = codes " a a a  a a a a a a a a b"

abbrev normal : Text
normal = codes "a a a a a a a a a a a b"

accepted : normalize_mnemonic phrase ≡ Mnemonic.ok normal
unfolding normalize_mnemonic check_words all_lowercase find_bad split_whitespace
    split_whitespace_loop join is_whitespace
accepted = refl

normalize_mnemonic_idem_example : normalize_mnemonic normal ≡ Mnemonic.ok normal
normalize_mnemonic_idem_example = normalize_mnemonic_idem phrase normal accepted

normalize_mnemonic_accepts_example : ((t : Text) × (normalize_mnemonic phrase ≡ Mnemonic.ok t)) ↔ (
    ((length (split_whitespace phrase) == 12
        || length (split_whitespace phrase) == 18
        || length (split_whitespace phrase) == 24)
      ≡ true)
    × All (λ w. all_lowercase w ≡ true) (split_whitespace phrase))
normalize_mnemonic_accepts_example = normalize_mnemonic_accepts phrase

-- Messages that are their own bytes.
abbrev raw : Codec (List ℕ)
raw = record { to_vec = λ bs. some bs; from_slice = λ bs. some bs; parses = λ msg bytes e. sym e }

two_written :
    write_frame raw (5 ∷ 6 ∷ []) (record { written = []; room = 10 })
    ≡ ok (record { written = 0 ∷ 0 ∷ 0 ∷ 2 ∷ 5 ∷ 6 ∷ []; room = 4 })
unfolding write_frame write_all
two_written = refl

read_frame-write_frame_example :
    (frame : List ℕ) × ((0 ∷ 0 ∷ 0 ∷ 2 ∷ 5 ∷ 6 ∷ []) ≡ [] ++ frame)
    × (read_frame raw (record { bytes = frame ++ (7 ∷ []); end = eof })
        ≡ ok (some (5 ∷ 6 ∷ []), record { bytes = 7 ∷ []; end = eof }))
read_frame-write_frame_example =
    read_frame-write_frame raw (5 ∷ 6 ∷ []) (record { written = []; room = 10 })
      (record { written = 0 ∷ 0 ∷ 0 ∷ 2 ∷ 5 ∷ 6 ∷ []; room = 4 }) (7 ∷ []) eof two_written

read_frame_too_large_example :
    read_frame raw (record { bytes = 1 ∷ 0 ∷ 0 ∷ 1 ∷ []; end = io_error }) ≡ err too_large
read_frame_too_large_example = read_frame_too_large raw 1 0 0 1 [] io_error (omega arith)
