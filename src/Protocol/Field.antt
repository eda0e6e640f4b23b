-- ===== src/Protocol/Field.antt =====
-- crates/protocol/src/trezor_debug.rs: the protobuf helpers, from `encode_field_varint` to
-- `parse_tokens_field`.
-- `usize` has 64 bits and, as in a release build, a sum that passes it wraps. Slicing out of range
-- panics: `slice` is the slice of a string, the others start at a position within the bytes or at their
-- end. The loops take fuel; `stuck` is no outcome of the program but a loop that ran out of it.
pub mod Cursor
pub mod Message
pub mod Extract
pub mod Tokens
pub mod Overflow
pub mod Total
use hwwctl.Prelude.{
  ℕ, zero, suc, ◌+◌, ◌-◌, ◌*◌, ◌%◌, bit_and, bit_or, List, [], ◌∷◌, ◌++◌, length, take, drop, ltb,
  leb, ◌==◌, ◌&&◌, if◌then◌else◌, Option, none, some, Text, codes,
}
use hwwctl.Utf8.{is_utf8}
use hwwctl.Protocol.Varint.{u64_mod, encode_varint, decode_varint}

-- `(field_num as u64) << 3`, and with the wire type 2 put in
abbrev pub varint_tag : ℕ → ℕ
varint_tag field_num = field_num * 8

abbrev pub string_tag : ℕ → ℕ
string_tag field_num = bit_or (field_num * 8) 2

unfoldable pub encode_field_varint : ℕ → ℕ → List ℕ
encode_field_varint field_num value = encode_varint (varint_tag field_num) ++ encode_varint value

unfoldable pub encode_field_string : ℕ → List ℕ → List ℕ
encode_field_string field_num s =
    encode_varint (string_tag field_num) ++ (encode_varint (length s) ++ s)

pub data Outcome {ℓ} (A : Type ℓ) : Type ℓ where
  done : A → Outcome A
  panicked : Outcome A
  stuck : Outcome A

-- `a + b` on `usize`
abbrev pub usize_add : ℕ → ℕ → ℕ
usize_add a b = (a + b) % u64_mod

-- `std::str::from_utf8(bytes).ok()`
unfoldable pub from_utf8 : List ℕ → Option (List ℕ)
from_utf8 bytes = if is_utf8 bytes then some bytes else none

-- The `// Skip field` match, at `pos` with the given wire type: the position behind the field, or
-- `none` where the source breaks out of its loop.
unfoldable pub skip_field : List ℕ → ℕ → ℕ → Option ℕ
skip_field bytes pos wire_type =
    let (value, n) = decode_varint (drop pos bytes) in
    if wire_type == 0
    then some (usize_add pos n)
    else (if wire_type == 1
        then some (usize_add pos 8)
        else (if wire_type == 2
            then (if ltb pos (length bytes) then some (usize_add pos (usize_add n value)) else none)
            else (if wire_type == 5 then some (usize_add pos 4) else none)))

-- `&data[start..end]`: a start past the end is a panic, and so is an end past the bytes.
unfoldable pub slice : List ℕ → ℕ → ℕ → Outcome (List ℕ)
slice bytes start end =
    if leb start end && leb end (length bytes)
    then done (take (end - start) (drop start bytes))
    else panicked

abbrev read_to : ℕ → Outcome (List ℕ) → Outcome (Option (List ℕ × ℕ))
read_to end (done s) = done (some (s, end))
read_to end panicked = panicked
read_to end stuck = stuck

-- The string of a field whose tag has been read up to `pos`: its end is checked against the slice.
-- `none` is a string that does not fit.
unfoldable pub read_string : List ℕ → ℕ → Outcome (Option (List ℕ × ℕ))
read_string bytes pos =
    let (str_len, len_bytes) = decode_varint (drop pos bytes) in
    let start = usize_add pos len_bytes in
    let end = usize_add start str_len in
    if leb end (length bytes) then read_to end (slice bytes start end) else done none

-- The loop of `extract_string_field`, and of `extract_failure_message`, where it is written out again
-- for field 2: the bytes of the first string of the field, before they are checked to be UTF-8.
unfoldable pub extract_loop : ℕ → List ℕ → ℕ → ℕ → Outcome (Option (List ℕ))
extract_loop zero bytes field_num pos = stuck
extract_loop (suc fuel) bytes field_num pos =
    let (tag, tag_len) = decode_varint (drop pos bytes) in
    let pos' = usize_add pos tag_len in
    let wire_type = bit_and tag 0x7 in
    let skip_from = λ (from : ℕ). skip_field bytes from wire_type in
    if ltb pos (length bytes)
    then (if tag == string_tag field_num && wire_type == 2 && ltb pos' (length bytes)
        then (elim (read_string bytes pos') [
          | done (some (s, end)) ↦ done (some s)
          | done none ↦ (elim (skip_from (usize_add pos' (decode_varint (drop pos' bytes)).1)) [
            | some next ↦ extract_loop fuel bytes field_num next
            | none ↦ done none
          ])
          | panicked ↦ panicked
          | stuck ↦ stuck
        ])
        else (elim (skip_from pos') [
          | some next ↦ extract_loop fuel bytes field_num next
          | none ↦ done none
        ]))
    else done none

unfoldable pub map_outcome : {A B : Type 0} → (A → B) → Outcome A → Outcome B
map_outcome f (done a) = done (f a)
map_outcome f panicked = panicked
map_outcome f stuck = stuck

abbrev pub checked_text : Option (List ℕ) → Option (List ℕ)
checked_text none = none
checked_text (some s) = from_utf8 s

unfoldable pub extract_string_field : ℕ → List ℕ → ℕ → Outcome (Option (List ℕ))
extract_string_field fuel bytes field_num =
    map_outcome checked_text (extract_loop fuel bytes field_num 0)

unfoldable pub extract_xpub : ℕ → List ℕ → Outcome (Option (List ℕ))
extract_xpub fuel bytes = extract_string_field fuel bytes 2

unfoldable pub extract_features_label : ℕ → List ℕ → Outcome (Option (List ℕ))
extract_features_label fuel bytes = extract_string_field fuel bytes 10

abbrev pub failure_text : Option (List ℕ) → Text
failure_text none = codes "(unknown error)"
failure_text (some s) = if is_utf8 s then s else codes "(invalid utf8)"

unfoldable pub extract_failure_message : ℕ → List ℕ → Outcome Text
extract_failure_message fuel bytes = map_outcome failure_text (extract_loop fuel bytes 2 0)

-- `parse_tokens_field`, with `tokens` for those found so far
unfoldable pub parse_tokens_loop : ℕ → List ℕ → ℕ → List (List ℕ) → Outcome (List (List ℕ))
parse_tokens_loop zero bytes pos tokens = stuck
parse_tokens_loop (suc fuel) bytes pos tokens =
    let (tag, tag_len) = decode_varint (drop pos bytes) in
    let pos' = usize_add pos tag_len in
    let wire_type = bit_and tag 0x7 in
    if ltb pos (length bytes)
    then (if tag == 0x6a
        then (if leb (length bytes) pos' then done tokens else (elim (read_string bytes pos') [
          | done (some (s, end)) ↦
              parse_tokens_loop fuel bytes end
                (tokens ++ (elim (from_utf8 s) [ some t ↦ t ∷ [] | none ↦ [] ]))
          | done none ↦ done tokens
          | panicked ↦ panicked
          | stuck ↦ stuck
        ]))
        else (elim (skip_field bytes pos' wire_type) [
          | some next ↦ parse_tokens_loop fuel bytes next tokens
          | none ↦ done tokens
        ]))
    else done tokens

unfoldable pub parse_tokens_field : ℕ → List ℕ → Outcome (List (List ℕ))
parse_tokens_field fuel bytes = parse_tokens_loop fuel bytes 0 []
