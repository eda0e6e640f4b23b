-- ===== src/Format.antt =====
-- The standard library's number formats that the program prints: `{}` and `{:02x}`, and the hex dump
-- that the decoder and the bridge build from them (crates/protocol/src/trezor.rs, crates/bridge/src/lib.rs).
pub mod Laws
use hwwctl.Prelude.{
  ℕ, ◌+◌, ◌-◌, ◌/◌, ◌%◌, ◌<◌, List, [], ◌∷◌, ◌++◌, Text, Bool, ltb, leb, ◌==◌, ◌&&◌, ◌||◌,
  if◌then◌else◌, arith, codes,
}
use hwwctl.Prelude.Order.{lt_wf}
use mathlib.Core.Logic.{dite}
use mathlib.Core.WellFounded.{Acc}
use native.Mathlib.Decide.{dec_lt}

-- `n.to_string()`: the digits before the last, then the last
unfoldable pub decimal_acc : (n : ℕ) → Acc ◌<◌ n → Text
decimal_acc n (Acc.intro _ smaller) =
    dite (dec_lt 9 n)
      (λ more. decimal_acc (n / 10) (smaller (n / 10) (omega arith)) ++ ((b'0' + n % 10) ∷ []))
      (λ _. (b'0' + n) ∷ [])

unfoldable pub decimal : ℕ → Text
unfolding decimal_acc lt_wf dec_lt
decimal n = decimal_acc n (lt_wf.apply n)

-- One lowercase hex digit.
unfoldable pub hex_digit : ℕ → ℕ
hex_digit d = if ltb d 10 then b'0' + d else b'a' + d - 10

-- `format!("{b:02x}")` for a byte
unfoldable pub hex_byte : ℕ → Text
unfolding hex_digit
hex_byte b = hex_digit (b / 16) ∷ hex_digit (b % 16) ∷ []

-- `.join(sep)`
unfoldable pub join : Text → List Text → Text
join sep [] = []
join sep (t ∷ []) = t
join sep (t ∷ u ∷ ts) = t ++ (sep ++ join sep (u ∷ ts))

unfoldable pub hex_bytes : List ℕ → List Text
hex_bytes [] = []
hex_bytes (b ∷ bs) = hex_byte b ∷ hex_bytes bs

-- `data.iter().map(|b| format!("{b:02x}")).collect::<Vec<_>>().join(" ")`
unfoldable pub hex_dump : List ℕ → Text
unfolding join hex_bytes
hex_dump bytes = join (codes " ") (hex_bytes bytes)

-- `char::is_whitespace`: the code points with the Unicode property White_Space
unfoldable pub is_whitespace : ℕ → Bool
is_whitespace c =
    leb 9 c && leb c 13
    || c == 32
    || c == 0x85
    || c == 0xa0
    || c == 0x1680
    || leb 0x2000 c && leb c 0x200a
    || c == 0x2028
    || c == 0x2029
    || c == 0x202f
    || c == 0x205f
    || c == 0x3000

-- `s.split_whitespace()`, with `word` for the characters of the word being read
unfoldable pub split_whitespace_loop : Text → Text → List Text
split_whitespace_loop [] [] = []
split_whitespace_loop (w ∷ word) [] = (w ∷ word) ∷ []
split_whitespace_loop [] (c ∷ s) = split_whitespace_loop (if is_whitespace c then [] else c ∷ []) s
split_whitespace_loop (w ∷ word) (c ∷ s) =
    if is_whitespace c
    then (w ∷ word) ∷ split_whitespace_loop [] s
    else split_whitespace_loop ((w ∷ word) ++ (c ∷ [])) s

unfoldable pub split_whitespace : Text → List Text
unfolding split_whitespace_loop
split_whitespace s = split_whitespace_loop [] s
