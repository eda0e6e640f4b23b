-- ===== src/Protocol/Field/Overflow.antt =====
-- crates/protocol/src/trezor_debug.rs: what the protobuf readers do on lengths near 2 ^ 64, which only
-- a hostile or broken emulator sends.
use hwwctl.Prelude.{
  ℕ, zero, suc, ◌+◌, ◌-◌, ◌<◌, ◌≤◌, ◌≡◌, ◌≢◌, refl, List, ◌++◌, length, drop, some, ◌∙◌,
  length-append, arith,
}
use hwwctl.Protocol.Varint.{IsU64, u64_mod, encode_varint, decode_varint}
use hwwctl.Protocol.Varint.Laws.{encode_varint_shape, length-encode_varint_ten}
use hwwctl.Protocol.Field.{
  panicked, stuck, usize_add, skip_field, slice, read_string, string_tag, extract_loop,
  extract_string_field, map_outcome,
}
use hwwctl.Protocol.Field.Cursor.{slice_max, At, At-start, At-move, At-decode, At-lt}
use hwwctl.Protocol.Field.Message.{string_tag-IsU64, string_tag-wire, string_tag-injective}
use hwwctl.Protocol.Field.Extract.{extract_skips}

-- The length that leads from behind the header of a field back to its start.
abbrev pub back : ℕ → ℕ
back k = u64_mod - (length (encode_varint (string_tag k)) + 10)

-- A field of number `k` with that length, in ten bytes.
abbrev pub looping : ℕ → List ℕ → List ℕ
looping k rest = encode_varint (string_tag k) ++ (encode_varint (back k) ++ rest)

module _ (k : ℕ) (rest : List ℕ) (small : k < 0x1_0000_0000)
    (short : length (looping k rest) < slice_max) where
  tag_ok : IsU64 (string_tag k)
  tag_ok = string_tag-IsU64 k small

  back_ok : IsU64 (back k)
  back_ok = omega (arith, encode_varint_shape (string_tag k) tag_ok)

  ten : length (encode_varint (back k)) ≡ 10
  ten =
      length-encode_varint_ten (back k) (omega (arith, encode_varint_shape (string_tag k) tag_ok))
        back_ok

  mid :
      At
        (looping k rest)
        (usize_add 0 (length (encode_varint (string_tag k))))
        (encode_varint (back k) ++ rest)
  mid =
      At-move short (encode_varint (string_tag k)) (encode_varint (back k) ++ rest)
        (At-start (looping k rest))

  reads : decode_varint (looping k rest) ≡ (string_tag k, length (encode_varint (string_tag k)))
  reads =
      At-decode short (string_tag k) (encode_varint (back k) ++ rest) (At-start (looping k rest))
        tag_ok

  returns :
      skip_field (looping k rest) (usize_add 0 (length (encode_varint (string_tag k)))) 2 ≡ some 0
  unfolding skip_field
  returns = ground (
    arith,
    At-decode short (back k) rest mid back_ok,
    At-lt short (back k) rest mid back_ok,
    ten,
    encode_varint_shape (string_tag k) tag_ok,
  )

  extract_loop-stuck :
      (target fuel : ℕ) → target ≢ k → extract_loop fuel (looping k rest) target 0 ≡ stuck
  extract_loop-stuck target zero other = unfold extract_loop in refl
  extract_loop-stuck target (suc fuel) other =
      extract_skips (looping k rest) target fuel 0 (string_tag k) _ reads
        (At-lt short (string_tag k) (encode_varint (back k) ++ rest) (At-start (looping k rest))
          tag_ok)
        0 (λ e. other (ground (arith, string_tag-injective k target e)))
        (rw string_tag-wire returns)
      ∙ extract_loop-stuck target fuel other

extract_panics :
    (bytes : List ℕ) (target fuel pos tag_len : ℕ)
    → decode_varint (drop pos bytes) ≡ (string_tag target, tag_len)
    → pos < length bytes
    → usize_add pos tag_len < length bytes
    → read_string bytes (usize_add pos tag_len) ≡ panicked
    → extract_loop (suc fuel) bytes target pos ≡ panicked
unfolding extract_loop
extract_panics bytes target fuel pos tag_len reads inside more read =
    ground (arith, reads, inside, read, string_tag-wire target)

wraps :
    (bytes : List ℕ) (pos n : ℕ)
    → decode_varint (drop pos bytes) ≡ (u64_mod - 1, n)
    → length bytes < slice_max
    → 1 ≤ n
    → pos + n ≤ length bytes
    → read_string bytes pos ≡ panicked
unfolding read_string slice
wraps bytes pos n reads short some_read inside = ground (arith, reads)

-- A field of another number whose length is close enough to 2 ^ 64 makes the position wrap back to its
-- own start: `extract_string_field` never returns, whatever stands behind that field.
pub extract_string_field-stuck :
    (k target : ℕ) (rest : List ℕ)
    → k < 0x1_0000_0000
    → target ≢ k
    → length (looping k rest) < slice_max
    → (fuel : ℕ) → extract_string_field fuel (looping k rest) target ≡ stuck
unfolding extract_string_field map_outcome
extract_string_field-stuck k target rest small other short fuel =
    rw (extract_loop-stuck k rest small short target fuel other)

-- A string of the field asked for, announced with 2 ^ 64 - 1 bytes.
abbrev pub endless : ℕ → List ℕ → List ℕ
endless k rest = encode_varint (string_tag k) ++ (encode_varint (u64_mod - 1) ++ rest)

-- The end of a string announced with 2 ^ 64 - 1 bytes wraps to before its start: the slice panics,
-- whatever stands behind.
pub extract_string_field-panicked :
    (k fuel : ℕ) (rest : List ℕ)
    → k < 0x1_0000_0000
    → length (endless k rest) < slice_max
    → 0 < fuel
    → extract_string_field fuel (endless k rest) k ≡ panicked
unfolding extract_string_field map_outcome
extract_string_field-panicked k zero rest small short some_fuel = absurd (omega arith)
extract_string_field-panicked k (suc fuel) rest small short some_fuel = rw loop
  where
    tag_fits : IsU64 (string_tag k)
    tag_fits = string_tag-IsU64 k small

    len_fits : IsU64 (u64_mod - 1)
    len_fits = omega arith

    begin : At (endless k rest) 0 (endless k rest)
    begin = At-start (endless k rest)

    body :
        At
          (endless k rest)
          (usize_add 0 (length (encode_varint (string_tag k))))
          (encode_varint (u64_mod - 1) ++ rest)
    body = At-move short (encode_varint (string_tag k)) (encode_varint (u64_mod - 1) ++ rest) begin

    loop : extract_loop (suc fuel) (endless k rest) k 0 ≡ panicked
    loop =
        extract_panics (endless k rest) k fuel 0 _ (At-decode short (string_tag k) _ begin tag_fits)
          (At-lt short (string_tag k) _ begin tag_fits)
          (At-lt short (u64_mod - 1) rest body len_fits)
          (wraps (endless k rest) _ _ (At-decode short (u64_mod - 1) rest body len_fits) short
            (encode_varint_shape (u64_mod - 1) len_fits).1
            (omega (arith, body.size, length-append (encode_varint (u64_mod - 1)) rest)))
