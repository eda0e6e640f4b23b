-- ===== src/Protocol/Varint.antt =====
-- crates/protocol/src/trezor_debug.rs: `encode_varint` and `decode_varint`.
-- A byte slice is a list of numbers below 256, a `u64` a number below 2 ^ 64.
pub mod Laws
use hwwctl.Prelude.{
  ℕ, zero, suc, ◌+◌, ◌*◌, ◌/◌, ◌%◌, ◌^◌, ◌<◌, bit_and, bit_or, List, [], ◌∷◌, length, leb, ◌==◌,
  if◌then◌else◌, arith,
}
use mathlib.Core.Logic.{dite}
use mathlib.Core.WellFounded.{Acc}
use native.Mathlib.Decide.{dec_lt}
use hwwctl.Prelude.Order.{lt_wf}

abbrev pub IsByte : ℕ → Type 0
IsByte b = b < 256

abbrev pub u64_mod : ℕ
u64_mod = 0x1_0000_0000_0000_0000

abbrev pub IsU64 : ℕ → Type 0
IsU64 v = v < u64_mod

shift_shrinks : (v : ℕ) → 0 < v / 128 → v / 128 < v
shift_shrinks v h = omega arith

-- One round pushes the low seven bits, with the top bit set if `value >>= 7` is not 0. The loop
-- recurs on the value; no fuel is needed.
unfoldable pub encode_varint_loop : (value : ℕ) → Acc ◌<◌ value → List ℕ
unfolding shift_shrinks
encode_varint_loop value (Acc.intro _ smaller) =
    let byte = bit_and value 0x7f % 256 in
    dite (dec_lt 0 (value / 128))
      (λ more.
        bit_or byte 0x80 ∷ encode_varint_loop (value / 128) (smaller _ (shift_shrinks value more)))
      (λ _. byte ∷ [])

unfoldable pub encode_varint : ℕ → List ℕ
unfolding encode_varint_loop lt_wf dec_lt
encode_varint value = encode_varint_loop value (lt_wf.apply value)

-- `value |= ((byte & 0x7F) as u64) << shift`: the bits that a shift moves past bit 63 are lost.
abbrev pub or_group : ℕ → ℕ → ℕ → ℕ
or_group value byte shift = bit_or value (bit_and byte 0x7f * 2 ^ shift % u64_mod)

-- The loop over the bytes: `i` bytes have been read, of `n` in all.
unfoldable pub decode_varint_loop : List ℕ → ℕ → ℕ → ℕ → ℕ → ℕ × ℕ
decode_varint_loop [] value shift i n = (value, n)
decode_varint_loop (byte ∷ rest) value shift i n =
    let value' = or_group value byte shift in
    let more = decode_varint_loop rest value' (shift + 7) (i + 1) n in
    if bit_and byte 0x80 == 0
    then (value', i + 1)
    else (if leb 64 (shift + 7) then (value', n) else more)

-- The value, and the number of bytes consumed: all of them if no byte ends the number.
unfoldable pub decode_varint : List ℕ → ℕ × ℕ
unfolding decode_varint_loop
decode_varint bytes = decode_varint_loop bytes 0 0 0 (length bytes)
