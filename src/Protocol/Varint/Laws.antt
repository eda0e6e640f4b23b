-- ===== src/Protocol/Varint/Laws.antt =====
-- crates/protocol/src/trezor_debug.rs: what `encode_varint` writes and how `decode_varint` reads it.
use mathlib.Core.WellFounded.{Acc}
use native.Mathlib.Decide.{dec_lt}
use native.Mathlib.Nat.{pow-le-pow_right, div-add-mod, pow-suc, one-le-pow}
use native.Mathlib.Numerals.{towards_suc}
use hwwctl.Prelude.{
  ℕ, zero, suc, ◌+◌, ◌*◌, ◌/◌, ◌%◌, ◌^◌, ◌≤◌, ◌<◌, bit_and, bit_or, ◌≡◌, ap, List, [], ◌∷◌, ◌++◌,
  length, All, arith,
}
use hwwctl.Prelude.Order.{lt_wf}
use hwwctl.Bits.{low_bits, top_bit, set_top_bit, or_above, or_below}
use hwwctl.Protocol.Varint.{
  IsByte, IsU64, u64_mod, encode_varint_loop, encode_varint, or_group, decode_varint_loop,
  decode_varint,
}

low_byte : (v : ℕ) → bit_and v 0x7f % 256 ≡ v % 128
low_byte v = omega (arith, low_bits v)

more_byte : (v : ℕ) → bit_or (bit_and v 0x7f % 256) 0x80 ≡ v % 128 + 128
more_byte v = rw low_byte (set_top_bit (v % 128) (omega arith))

or_group-add :
    (value byte shift : ℕ)
    → value < 2 ^ shift
    → byte % 128 * 2 ^ shift < u64_mod
    → or_group value byte shift ≡ value + byte % 128 * 2 ^ shift
or_group-add value byte shift fits small = ground (
  arith,
  low_bits byte,
  or_above shift value (byte % 128),
  fold_mod (byte % 128 * 2 ^ shift) small,
)
  where
    fold_mod : (t : ℕ) → t < u64_mod → t % u64_mod ≡ t
    fold_mod t h = omega arith

encode_varint_loop-IsByte : (v : ℕ) (w : Acc ◌<◌ v) → All IsByte (encode_varint_loop v w)
unfolding encode_varint_loop
encode_varint_loop-IsByte v (Acc.intro _ smaller) = grind (
  arith,
  low_byte v,
  more_byte v,
  λ (p : v / 128 < v). encode_varint_loop-IsByte (v / 128) (smaller (v / 128) p),
)

-- Seven bits to a byte: `k` bytes are enough below `128 ^ k`.
length-encode_varint_loop :
    (k v : ℕ) (w : Acc ◌<◌ v)
    → v < 128 ^ suc k
    → (1 ≤ length (encode_varint_loop v w)) × (length (encode_varint_loop v w) ≤ suc k)
unfolding encode_varint_loop
length-encode_varint_loop zero v (Acc.intro _ smaller) h = ground arith
length-encode_varint_loop (suc k) v (Acc.intro _ smaller) h = grind (
  arith,
  λ (p : v / 128 < v). length-encode_varint_loop k (v / 128) (smaller (v / 128) p) (omega arith),
)

shift_seven : (s : ℕ) → 2 ^ (s + 7) ≡ 128 * 2 ^ s
shift_seven s = simp towards_suc (omega arith)

-- Seven bits of `v` go to the place `s`, the rest to the place above.
split_group : (v s : ℕ) → v * 2 ^ s ≡ v % 128 * 2 ^ s + v / 128 * 2 ^ (s + 7)
split_group v s = omega (
  arith,
  ap (λ (t : ℕ). t * 2 ^ s) (div-add-mod v 128),
  ap (λ (t : ℕ). v / 128 * t) (shift_seven s),
)

-- A number of at least two groups that ends below bit 64 starts below bit 57.
room_for_more : (v s : ℕ) → 128 ≤ v → v * 2 ^ s < u64_mod → s < 57
room_for_more v s big fits = elim (dec_lt s 57) [
  | yes p ↦ p
  | no p ↦
      absurd (grind (arith, pow-le-pow_right {n = 2} (omega arith) {i = 57} {j = s} (omega arith)))
]

-- One round of the decoder on a last byte, and on a byte with the top bit set over the group `g`.
decode_last :
    (b value shift i n : ℕ) (rest : List ℕ)
    → b < 128
    → value < 2 ^ shift
    → value + b * 2 ^ shift < u64_mod
    → decode_varint_loop (b ∷ rest) value shift i n ≡ (value + b * 2 ^ shift, i + 1)
unfolding decode_varint_loop
decode_last b value shift i n rest small low fits =
    let e : b % 128 ≡ b = omega arith in
    ground (arith, top_bit b, ap (λ (t : ℕ). t * 2 ^ shift) e, or_group-add value b shift)

decode_more :
    (g value shift i n : ℕ) (rest : List ℕ)
    → g < 128
    → shift < 57
    → value < 2 ^ shift
    → value + g * 2 ^ shift < u64_mod
    → decode_varint_loop ((g + 128) ∷ rest) value shift i n
      ≡ decode_varint_loop rest (value + g * 2 ^ shift) (shift + 7) (i + 1) n
unfolding decode_varint_loop
decode_more g value shift i n rest small room low fits =
    let e : (g + 128) % 128 ≡ g = omega arith in
    ground (
      arith,
      top_bit (g + 128),
      ap (λ (t : ℕ). t * 2 ^ shift) e,
      or_group-add value (g + 128) shift,
    )

-- What has been read stays below the next shift.
group_below : (value g s : ℕ) → value < 2 ^ s → g < 128 → value + g * 2 ^ s < 2 ^ (s + 7)
group_below value g s low small = grind (arith, shift_seven s)

-- `value` holds what was read below bit `shift`, and `v` is written from there on.
decode-encode_loop :
    (v : ℕ) (w : Acc ◌<◌ v) (rest : List ℕ) (value shift i n : ℕ)
    → value < 2 ^ shift
    → value + v * 2 ^ shift < u64_mod
    → decode_varint_loop (encode_varint_loop v w ++ rest) value shift i n
      ≡ (value + v * 2 ^ shift, i + length (encode_varint_loop v w))
unfolding encode_varint_loop
decode-encode_loop v (Acc.intro _ smaller) rest value shift i n low fits = grind (
  arith,
  low_byte v,
  more_byte v,
  decode_last v value shift i n rest,
  split_group v shift,
  room_for_more v shift,
  group_below value (v % 128) shift,
  λ (p : v / 128 < v).
      decode_more (v % 128) value shift i n (encode_varint_loop (v / 128) (smaller _ p) ++ rest),
  λ (p : v / 128 < v).
      decode-encode_loop (v / 128) (smaller _ p) rest (value + v % 128 * 2 ^ shift) (shift + 7)
        (i + 1) n,
)

-- Every byte that `encode_varint` writes is a byte, and a `u64` takes one to ten of them.
pub encode_varint_shape :
    (v : ℕ)
    → IsU64 v
    → All IsByte (encode_varint v)
      × (1 ≤ length (encode_varint v))
      × (length (encode_varint v) ≤ 10)
unfolding encode_varint
encode_varint_shape v h =
    let (lo, hi) = length-encode_varint_loop 9 v (lt_wf.apply v) (omega arith) in
    (encode_varint_loop-IsByte v (lt_wf.apply v), lo, hi)

-- Whatever follows an encoded `u64`, `decode_varint` returns that number and the count of exactly
-- the bytes that `encode_varint` wrote.
pub decode_varint-encode_varint :
    (v : ℕ) (rest : List ℕ)
    → IsU64 v
    → decode_varint (encode_varint v ++ rest) ≡ (v, length (encode_varint v))
unfolding decode_varint encode_varint
decode_varint-encode_varint v rest h = ground (
  arith,
  decode-encode_loop v (lt_wf.apply v) rest 0 0 0
      (length (encode_varint_loop v (lt_wf.apply v) ++ rest)),
)

decode_varint_loop_bounds :
    (bytes : List ℕ) (value shift i n : ℕ)
    → value < u64_mod
    → i + length bytes ≡ n
    → ((decode_varint_loop bytes value shift i n).0 < u64_mod)
      × ((decode_varint_loop bytes value shift i n).1 ≤ n)
      × (i ≤ (decode_varint_loop bytes value shift i n).1)
unfolding decode_varint_loop
decode_varint_loop_bounds [] value shift i n low e = (low, omega arith, omega arith)
decode_varint_loop_bounds (b ∷ bs) value shift i n low e = ground (
  arith,
  or_below 64 value (bit_and b 0x7f * 2 ^ shift % u64_mod) low (omega arith),
  decode_varint_loop_bounds bs (or_group value b shift) (shift + 7) (i + 1) n,
)

-- On any bytes, well formed or not, the value is a `u64` and no more bytes are consumed than there
-- are.
pub decode_varint_bounds :
    (bytes : List ℕ) → IsU64 (decode_varint bytes).0 × ((decode_varint bytes).1 ≤ length bytes)
unfolding decode_varint
decode_varint_bounds bytes =
    let (v, n, _) =
      decode_varint_loop_bounds bytes 0 0 0 (length bytes) (omega arith) (omega arith) in
    (v, n)

-- A slice that is not empty is always advanced over.
pub decode_varint_advances : (b : ℕ) (bs : List ℕ) → 1 ≤ (decode_varint (b ∷ bs)).1
unfolding decode_varint decode_varint_loop
decode_varint_advances b bs =
    let step =
      decode_varint_loop_bounds bs (or_group 0 b 0) 7 1 (suc (length bs))
        (or_below 64 0 (bit_and b 0x7f * 2 ^ 0 % u64_mod) (omega arith) (omega arith))
        (omega arith) in
    ground (arith, step)

length-encode_varint_loop_ge :
    (k v : ℕ) (w : Acc ◌<◌ v) → 128 ^ k ≤ v → suc k ≤ length (encode_varint_loop v w)
unfolding encode_varint_loop
length-encode_varint_loop_ge zero v (Acc.intro _ smaller) h = grind arith
length-encode_varint_loop_ge (suc k) v (Acc.intro _ smaller) h =
    let step : 128 ^ suc k ≡ 128 * 128 ^ k = omega (arith, pow-suc 128 k) in
    let pos = one-le-pow k 128 in
    grind (
      arith,
      λ (p : v / 128 < v).
          length-encode_varint_loop_ge k (v / 128) (smaller (v / 128) p) (omega arith),
    )

-- A `u64` of 64 significant bits takes ten bytes.
pub length-encode_varint_ten : (v : ℕ) → 128 ^ 9 ≤ v → IsU64 v → length (encode_varint v) ≡ 10
unfolding encode_varint
length-encode_varint_ten v big h = omega (
  arith,
  length-encode_varint_loop_ge 9 v (lt_wf.apply v) big,
  length-encode_varint_loop 9 v (lt_wf.apply v) (omega arith),
)
