-- ===== src/Control/Hex.antt =====
-- crates/control/src/lib.rs: `hex_u16`, the serde helper of the USB ids.
use hwwctl.Prelude.{
  ℕ, ◌+◌, ◌-◌, ◌*◌, ◌/◌, ◌%◌, ◌<◌, ◌≡◌, refl, [], ◌∷◌, ◌++◌, Text, codes, Option, none, some, false,
  ◌&&◌, leb, ltb, ◌==◌, if◌then◌else◌, strip_prefix, arith,
}
use hwwctl.Format.{hex_digit}

-- `format!("{v:#06x}")` for a `u16`
unfoldable pub serialize : ℕ → Text
serialize v =
    codes "0x"
    ++ (hex_digit (v / 4096)
        ∷ hex_digit (v / 256 % 16)
        ∷ hex_digit (v / 16 % 16)
        ∷ hex_digit (v % 16)
        ∷ [])

-- `char::to_digit(16)`
unfoldable pub to_digit : ℕ → Option ℕ
to_digit c =
    if leb b'0' c && leb c b'9'
    then some (c - b'0')
    else (if leb b'a' c && leb c b'f'
        then some (c - b'a' + 10)
        else (if leb b'A' c && leb c b'F' then some (c - b'A' + 10) else none))

-- The digits, with an error as soon as the number passes `u16::MAX`.
unfoldable pub radix_loop : ℕ → Text → Option ℕ
radix_loop acc [] = some acc
radix_loop acc (c ∷ s) = elim (to_digit c) [
  | none ↦ none
  | some d ↦
      let rest = radix_loop (acc * 16 + d) s in if ltb (acc * 16 + d) 65536 then rest else none
]

-- `u16::from_str_radix(body, 16)`: one `+` may stand in front, and there must be a digit.
unfoldable pub from_str_radix : Text → Option ℕ
from_str_radix [] = none
from_str_radix (c ∷ []) = radix_loop 0 (c ∷ [])
from_str_radix (c ∷ d ∷ s) = if c == b'+' then radix_loop 0 (d ∷ s) else radix_loop 0 (c ∷ d ∷ s)

-- `raw.strip_prefix("0x").unwrap_or(&raw)`
unfoldable pub deserialize : Text → Option ℕ
deserialize raw = elim (strip_prefix (codes "0x") raw) [
  | some body ↦ from_str_radix body
  | none ↦ from_str_radix raw
]

to_digit-hex_digit : (d : ℕ) → d < 16 → to_digit (hex_digit d) ≡ some d
unfolding to_digit hex_digit
to_digit-hex_digit d h = ground arith

hex_digit-ne-plus : (d : ℕ) → d < 16 → (hex_digit d == b'+') ≡ false
unfolding hex_digit
hex_digit-ne-plus d h = ground arith

radix_digit :
    (acc d : ℕ) (s : Text)
    → d < 16
    → acc * 16 + d < 65536
    → radix_loop acc (hex_digit d ∷ s) ≡ radix_loop (acc * 16 + d) s
unfolding radix_loop
radix_digit acc d s h fits = ground (arith, to_digit-hex_digit d h)

-- Every USB id reads back from what is written for it.
pub deserialize-serialize : (v : ℕ) → v < 65536 → deserialize (serialize v) ≡ some v
unfolding deserialize serialize strip_prefix from_str_radix
deserialize-serialize v h = ground (
  arith,
  hex_digit-ne-plus (v / 4096),
  radix_digit 0 (v / 4096) (digit (v / 256) (digit (v / 16) (digit v []))),
  radix_digit (v / 4096) (v / 256 % 16) (digit (v / 16) (digit v [])),
  radix_digit (v / 256) (v / 16 % 16) (digit v []),
  radix_digit (v / 16) (v % 16) [],
  done,
)
  where
    digit : ℕ → Text → Text
    digit d s = hex_digit (d % 16) ∷ s

    done : radix_loop v [] ≡ some v
    done = unfold radix_loop in refl
