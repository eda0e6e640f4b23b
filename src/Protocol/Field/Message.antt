-- ===== src/Protocol/Field/Message.antt =====
-- crates/protocol/src/trezor_debug.rs: messages as lists of fields, written by `encode_field_varint`
-- and `encode_field_string`.
use hwwctl.Prelude.{
  ℕ, ◌<◌, ◌≡◌, ◌≢◌, ap, ◌∙◌, List, [], ◌∷◌, ◌++◌, length, Option, none, some, append_assoc, arith,
  bit_and, ◌==◌, if◌then◌else◌,
}
use hwwctl.Bits.{low_three, or_two}
use hwwctl.Protocol.Varint.{IsU64, encode_varint}
use hwwctl.Protocol.Field.{
  varint_tag, string_tag, encode_field_varint, encode_field_string, from_utf8,
}

-- The fields of a message, as the senders write them.
pub data Field : Type 0 where
  varint_field : ℕ → ℕ → Field
  string_field : ℕ → List ℕ → Field

abbrev pub encode_field : Field → List ℕ
encode_field (varint_field n v) = encode_field_varint n v
encode_field (string_field n s) = encode_field_string n s

abbrev pub encode_fields : List Field → List ℕ
encode_fields [] = []
encode_fields (f ∷ fs) = encode_field f ++ encode_fields fs

-- A field number is a `u32`, a value a `u64`.
abbrev pub IsField : Field → Type 0
IsField (varint_field n v) = (n < 0x1_0000_0000) × IsU64 v
IsField (string_field n s) = n < 0x1_0000_0000

-- The first string of field `n`.
abbrev pub first_string : ℕ → List Field → Option (List ℕ)
first_string n [] = none
first_string n (varint_field k v ∷ fs) = first_string n fs
first_string n (string_field k s ∷ fs) = if k == n then some s else first_string n fs

-- All strings of field `n` that are UTF-8, in order.
abbrev pub all_strings : ℕ → List Field → List (List ℕ)
all_strings n [] = []
all_strings n (varint_field k v ∷ fs) = all_strings n fs
all_strings n (string_field k s ∷ fs) =
    if k == n
    then (elim (from_utf8 s) [ some t ↦ t ∷ [] | none ↦ [] ]) ++ all_strings n fs
    else all_strings n fs

pub string_tag-wire : (n : ℕ) → bit_and (string_tag n) 7 ≡ 2
string_tag-wire n = omega (arith, low_three (string_tag n), or_two n)

pub varint_tag-wire : (n : ℕ) → bit_and (varint_tag n) 7 ≡ 0
varint_tag-wire n = omega (arith, low_three (varint_tag n))

-- A field as its tag and what follows.
pub varint-parts :
    (k v : ℕ) (rest : List ℕ)
    → encode_field_varint k v ++ rest ≡ encode_varint (varint_tag k) ++ (encode_varint v ++ rest)
unfolding encode_field_varint
varint-parts k v rest = append_assoc (encode_varint (varint_tag k)) (encode_varint v) rest

pub string-parts :
    (k : ℕ) (s rest : List ℕ)
    → encode_field_string k s ++ rest
      ≡ encode_varint (string_tag k) ++ (encode_varint (length s) ++ (s ++ rest))
unfolding encode_field_string
string-parts k s rest =
    append_assoc (encode_varint (string_tag k)) (encode_varint (length s) ++ s) rest
    ∙ ap (λ t. encode_varint (string_tag k) ++ t) (append_assoc (encode_varint (length s)) s rest)

pub varint_tag-IsU64 : (k : ℕ) → k < 0x1_0000_0000 → IsU64 (varint_tag k)
varint_tag-IsU64 k h = omega arith

pub string_tag-IsU64 : (k : ℕ) → k < 0x1_0000_0000 → IsU64 (string_tag k)
string_tag-IsU64 k h = omega (arith, or_two k)

pub tags_differ : (k n : ℕ) → varint_tag k ≢ string_tag n
tags_differ k n = omega (arith, or_two n)

pub string_tag-injective : (k n : ℕ) → string_tag k ≡ string_tag n → k ≡ n
string_tag-injective k n e = omega (arith, or_two k, or_two n)
