-- ===== src/Protocol/Field/Tokens.antt =====
-- crates/protocol/src/trezor_debug.rs: `parse_tokens_field` on messages that the writers built.
use hwwctl.Prelude.{
  ℕ, zero, suc, ◌<◌, ◌≡◌, ◌≢◌, ap, ◌∙◌, List, [], ◌∷◌, ◌++◌, length, drop, none, some,
  length-append, append_assoc, append-nil, arith, bit_and, ◌==◌, if◌then◌else◌, All, Bool-cases,
  inl, inr, subst,
}
use hwwctl.Protocol.Varint.{encode_varint, decode_varint}
use hwwctl.Protocol.Field.{
  done, usize_add, skip_field, read_string, varint_tag, string_tag, parse_tokens_loop,
  parse_tokens_field, from_utf8,
}
use hwwctl.Protocol.Field.Cursor.{
  slice_max, At, At-start, At-move, At-decode, At-lt, skip_varint, skip_string, read_string_lem,
}
use hwwctl.Protocol.Field.Message.{
  Field, varint_field, string_field, encode_fields, IsField, all_strings, string_tag-wire,
  varint_tag-wire, varint-parts, string-parts, varint_tag-IsU64, string_tag-IsU64, tags_differ,
  string_tag-injective,
}

-- A string that is UTF-8 is one more token, any other is passed over.
abbrev token_of : List ℕ → List (List ℕ)
token_of s = elim (from_utf8 s) [ some t ↦ t ∷ [] | none ↦ [] ]

module _ (bytes : List ℕ) (fuel pos tag tag_len : ℕ) (tokens : List (List ℕ))
    (reads : decode_varint (drop pos bytes) ≡ (tag, tag_len)) (inside : pos < length bytes) where
  tokens_skips :
      (next : ℕ)
      → tag ≢ 0x6a
      → skip_field bytes (usize_add pos tag_len) (bit_and tag 7) ≡ some next
      → parse_tokens_loop (suc fuel) bytes pos tokens ≡ parse_tokens_loop fuel bytes next tokens
  unfolding parse_tokens_loop
  tokens_skips next other skip = ground (arith, reads, inside, skip)

  tokens_hits :
      (s : List ℕ) (end : ℕ)
      → tag ≡ 0x6a
      → usize_add pos tag_len < length bytes
      → read_string bytes (usize_add pos tag_len) ≡ done (some (s, end))
      → parse_tokens_loop (suc fuel) bytes pos tokens
        ≡ parse_tokens_loop fuel bytes end (tokens ++ token_of s)
  unfolding parse_tokens_loop
  tokens_hits s end same more read = ground (arith, reads, inside, read)

module _ {bytes : List ℕ} (short : length bytes < slice_max) where
  tokens_varint :
      {pos : ℕ} (fuel k v : ℕ) (rest : List ℕ) (tokens : List (List ℕ))
      → IsField (varint_field k v)
      → At bytes pos (encode_varint (varint_tag k) ++ (encode_varint v ++ rest))
      → (next : ℕ) × (parse_tokens_loop (suc fuel) bytes pos tokens
          ≡ parse_tokens_loop fuel bytes next tokens)
        × At bytes next rest
  tokens_varint {pos} fuel k v rest tokens (hk, hv) a =
      let tag_ok = varint_tag-IsU64 k hk in
      let (next, skip, b) =
        skip_varint short v rest
          (At-move short (encode_varint (varint_tag k)) (encode_varint v ++ rest) a) hv in
      (
        next,
        tokens_skips bytes fuel pos _ _ tokens
            (At-decode short (varint_tag k) (encode_varint v ++ rest) a tag_ok)
            (At-lt short (varint_tag k) (encode_varint v ++ rest) a tag_ok) next (tags_differ k 13)
            (rw varint_tag-wire skip),
        b,
      )

  tokens_string :
      {pos : ℕ} (fuel k : ℕ) (s rest : List ℕ) (tokens : List (List ℕ))
      → IsField (string_field k s)
      → At bytes pos (encode_varint (string_tag k) ++ (encode_varint (length s) ++ (s ++ rest)))
      → (next : ℕ) × (parse_tokens_loop (suc fuel) bytes pos tokens
          ≡ parse_tokens_loop fuel bytes next (tokens ++ (if k == 13 then token_of s else [])))
        × At bytes next rest
  tokens_string {pos} fuel k s rest tokens hk a =
      let tag_ok = string_tag-IsU64 k hk in
      let mid =
        At-move short (encode_varint (string_tag k)) (encode_varint (length s) ++ (s ++ rest)) a in
      let reads =
        At-decode short (string_tag k) (encode_varint (length s) ++ (s ++ rest)) a tag_ok in
      let inside = At-lt short (string_tag k) (encode_varint (length s) ++ (s ++ rest)) a tag_ok in
      let more = At-lt short (length s) (s ++ rest) mid (
        omega (
          arith,
          length-append s rest,
          length-append (encode_varint (length s)) (s ++ rest),
          mid.size,
        )) in
      let (next, skip, b) = skip_string short s rest mid in
      let (end, read, c) = read_string_lem short s rest mid in
      elim (Bool-cases (k == 13)) [
        | inl same ↦
            let e : k ≡ 13 = ground arith in
            (
              end,
              rw same (
                  tokens_hits bytes fuel pos _ _ tokens reads inside s end (ap string_tag e) more
                    read),
              c,
            )
        | inr other ↦ (
          next,
          rw (other, append-nil)
              (tokens_skips bytes fuel pos _ _ tokens reads inside next
                (λ e. ground (arith, string_tag-injective k 13 e)) (rw string_tag-wire skip)),
          b,
        )
      ]

  tokens_loop-fields :
      (fuel pos : ℕ) (fs : List Field) (tokens : List (List ℕ))
      → length fs < fuel
      → All IsField fs
      → At bytes pos (encode_fields fs)
      → parse_tokens_loop fuel bytes pos tokens ≡ done (tokens ++ all_strings 13 fs)
  tokens_loop-fields zero pos fs tokens h hf a = absurd (omega arith)
  tokens_loop-fields (suc fuel) pos [] tokens h hf a =
      unfold parse_tokens_loop in ground (arith, a.size, append-nil tokens)
  tokens_loop-fields (suc fuel) pos (varint_field k v ∷ fs) tokens h (hf, hfs) a =
      let (next, step, b) =
        tokens_varint fuel k v (encode_fields fs) tokens hf
          (subst (At bytes pos) (varint-parts k v (encode_fields fs)) a) in
      step ∙ tokens_loop-fields fuel next fs tokens (omega arith) hfs b
  tokens_loop-fields (suc fuel) pos (string_field k s ∷ fs) tokens h (hf, hfs) a =
      let (next, step, b) =
        tokens_string fuel k s (encode_fields fs) tokens hf
          (subst (At bytes pos) (string-parts k s (encode_fields fs)) a) in
      step
      ∙ tokens_loop-fields fuel next fs (tokens ++ (if k == 13 then token_of s else []))
          (omega arith) hfs b
      ∙ ap done (
          append_assoc tokens (if k == 13 then token_of s else []) (all_strings 13 fs)
          ∙ ap (λ t. tokens ++ t) (pick k s fs))
    where
      pick :
          (k : ℕ) (s : List ℕ) (fs : List Field)
          → (if k == 13 then token_of s else []) ++ all_strings 13 fs
            ≡ all_strings 13 (string_field k s ∷ fs)
      pick k s fs = ground arith

-- On every message that the writers build from varint and string fields, `parse_tokens_field` gives
-- all strings of field 13 that are UTF-8, in order; a fuel of one more than the number of fields is
-- enough. The message is no longer than a slice can be.
pub parse_tokens_field-encode_fields :
    (fs : List Field) (fuel : ℕ)
    → All IsField fs
    → length (encode_fields fs) < slice_max
    → length fs < fuel
    → parse_tokens_field fuel (encode_fields fs) ≡ done (all_strings 13 fs)
unfolding parse_tokens_field
parse_tokens_field-encode_fields fs fuel hf short h =
    tokens_loop-fields short fuel 0 fs [] h hf (At-start (encode_fields fs))
