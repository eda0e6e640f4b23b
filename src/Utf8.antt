-- ===== src/Utf8.antt =====
-- The standard library's `std::str::from_utf8`: which byte slices are UTF-8. A text of the wire
-- protocol is kept as its bytes.
use hwwctl.Prelude.{
  ℕ, ◌-◌, List, [], ◌∷◌, Bool, false, ◌&&◌, leb, ltb, ◌==◌, if◌then◌else◌, Option, none, some,
}

-- How many continuation bytes are still due, and the range of the next one.
record Utf8State : Type 0 where
  left : ℕ
  lo : ℕ
  hi : ℕ

abbrev between : ℕ → ℕ → ℕ → Bool
between lo hi b = leb lo b && leb b hi

abbrev due : ℕ → ℕ → ℕ → Option Utf8State
due left lo hi = some (record { left = left; lo = lo; hi = hi })

start_byte : ℕ → Option Utf8State
start_byte b =
    if ltb b 0x80
    then due 0 0 0
    else (if between 0xc2 0xdf b
        then due 1 0x80 0xbf
        else (if b == 0xe0
            then due 2 0xa0 0xbf
            else (if b == 0xed
                then due 2 0x80 0x9f
                else (if between 0xe1 0xef b
                    then due 2 0x80 0xbf
                    else (if b == 0xf0
                        then due 3 0x90 0xbf
                        else (if between 0xf1 0xf3 b
                            then due 3 0x80 0xbf
                            else (if b == 0xf4 then due 3 0x80 0x8f else none)))))))

next_byte : Utf8State → ℕ → Option Utf8State
unfolding start_byte
next_byte s b =
    if s.left == 0
    then start_byte b
    else (if between s.lo s.hi b then due (s.left - 1) 0x80 0xbf else none)

utf8_loop : Utf8State → List ℕ → Bool
unfolding next_byte
utf8_loop s [] = s.left == 0
utf8_loop s (b ∷ bs) = elim (next_byte s b) [ none ↦ false | some s' ↦ utf8_loop s' bs ]

unfoldable pub is_utf8 : List ℕ → Bool
unfolding utf8_loop
is_utf8 bytes = utf8_loop (record { left = 0; lo = 0; hi = 0 }) bytes
