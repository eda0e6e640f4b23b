-- ===== src/Protocol/Field/Extract.antt =====
-- crates/protocol/src/trezor_debug.rs: the protobuf readers on messages that the writers built.
use hwwctl.Prelude.{
  ℕ, zero, suc, ◌<◌, ◌≡◌, ◌≢◌, ap, ◌∙◌, List, [], ◌∷◌, ◌++◌, length, drop, Option, some,
  length-append, arith, bit_and, ◌==◌, if◌then◌else◌, All, Bool-cases, inl, inr, subst,
}
use hwwctl.Protocol.Varint.{encode_varint, decode_varint}
use hwwctl.Protocol.Field.{
  Outcome, done, usize_add, skip_field, read_string, varint_tag, string_tag, extract_loop,
  extract_string_field, map_outcome, checked_text,
}
use hwwctl.Protocol.Field.Cursor.{
  slice_max, At, At-start, At-move, At-decode, At-lt, skip_varint, skip_string, read_string_lem,
}
use hwwctl.Protocol.Field.Message.{
  Field, varint_field, string_field, encode_fields, IsField, first_string, string_tag-wire,
  varint_tag-wire, varint-parts, string-parts, varint_tag-IsU64, string_tag-IsU64, tags_differ,
  string_tag-injective,
}

-- One round of the loop, from what it reads.
module _ (bytes : List ℕ) (target fuel pos tag tag_len : ℕ)
    (reads : decode_varint (drop pos bytes) ≡ (tag, tag_len)) (inside : pos < length bytes) where
  pub extract_skips :
      (next : ℕ)
      → tag ≢ string_tag target
      → skip_field bytes (usize_add pos tag_len) (bit_and tag 7) ≡ some next
      → extract_loop (suc fuel) bytes target pos ≡ extract_loop fuel bytes target next
  unfolding extract_loop
  extract_skips next other skip = ground (arith, reads, inside, skip)

  extract_hits :
      (s : List ℕ) (end : ℕ)
      → tag ≡ string_tag target
      → usize_add pos tag_len < length bytes
      → read_string bytes (usize_add pos tag_len) ≡ done (some (s, end))
      → extract_loop (suc fuel) bytes target pos ≡ done (some s)
  unfolding extract_loop
  extract_hits s end same more read = ground (arith, reads, inside, read, string_tag-wire target)

module _ {bytes : List ℕ} (short : length bytes < slice_max) (target : ℕ) where
  extract_varint :
      {pos : ℕ} (fuel k v : ℕ) (rest : List ℕ)
      → IsField (varint_field k v)
      → At bytes pos (encode_varint (varint_tag k) ++ (encode_varint v ++ rest))
      → (next : ℕ) × (extract_loop (suc fuel) bytes target pos
          ≡ extract_loop fuel bytes target next)
        × At bytes next rest
  extract_varint {pos} fuel k v rest (hk, hv) a =
      let tag_ok = varint_tag-IsU64 k hk in
      let (next, skip, b) =
        skip_varint short v rest (At-move short (encode_varint (varint_tag k)) _ a) hv in
      (
        next,
        extract_skips bytes target fuel pos _ _ (At-decode short (varint_tag k) _ a tag_ok)
            (At-lt short (varint_tag k) _ a tag_ok) next (tags_differ k target)
            (rw varint_tag-wire skip),
        b,
      )

  extract_string :
      {pos : ℕ} (fuel k : ℕ) (s rest : List ℕ)
      → IsField (string_field k s)
      → At bytes pos (encode_varint (string_tag k) ++ (encode_varint (length s) ++ (s ++ rest)))
      → (next : ℕ) × (extract_loop (suc fuel) bytes target pos
          ≡ (if k == target then done (some s) else extract_loop fuel bytes target next))
        × At bytes next rest
  extract_string {pos} fuel k s rest hk a =
      let tag_ok = string_tag-IsU64 k hk in
      let mid =
        At-move short (encode_varint (string_tag k)) (encode_varint (length s) ++ (s ++ rest)) a in
      let reads =
        At-decode short (string_tag k) (encode_varint (length s) ++ (s ++ rest)) a tag_ok in
      let inside = At-lt short (string_tag k) (encode_varint (length s) ++ (s ++ rest)) a tag_ok in
      let more = At-lt short (length s) (s ++ rest) mid (
        omega (
          arith,
          length-append s rest,
          length-append (encode_varint (length s)) (s ++ rest),
          mid.size,
        )) in
      let (next, skip, b) = skip_string short s rest mid in
      let (end, read, _) = read_string_lem short s rest mid in
      (
        next,
        elim (Bool-cases (k == target)) [
          | inl same ↦
              let e : k ≡ target = ground arith in
              rw same (
                extract_hits bytes target fuel pos _ _ reads inside s end (ap string_tag e) more
                  read)
          | inr other ↦ rw other (
              extract_skips bytes target fuel pos _ _ reads inside next
                (λ e. ground (arith, string_tag-injective k target e)) (rw string_tag-wire skip))
        ],
        b,
      )

  extract_loop-fields :
      (fuel pos : ℕ) (fs : List Field)
      → length fs < fuel
      → All IsField fs
      → At bytes pos (encode_fields fs)
      → extract_loop fuel bytes target pos ≡ done (first_string target fs)
  extract_loop-fields zero pos fs h hf a = absurd (omega arith)
  extract_loop-fields (suc fuel) pos [] h hf a = unfold extract_loop in ground (arith, a.size)
  extract_loop-fields (suc fuel) pos (varint_field k v ∷ fs) h (hf, hfs) a =
      let (next, step, b) =
        extract_varint fuel k v (encode_fields fs) hf
          (subst (At bytes pos) (varint-parts k v (encode_fields fs)) a) in
      step ∙ extract_loop-fields fuel next fs (omega arith) hfs b
  extract_loop-fields (suc fuel) pos (string_field k s ∷ fs) h (hf, hfs) a =
      let (next, step, b) =
        extract_string fuel k s (encode_fields fs) hf
          (subst (At bytes pos) (string-parts k s (encode_fields fs)) a) in
      step ∙ pick k s fs (extract_loop-fields fuel next fs (omega arith) hfs b)
    where
      pick :
          (k : ℕ) (s : List ℕ) (fs : List Field) {o : Outcome (Option (List ℕ))}
          → o ≡ done (first_string target fs)
          → (if k == target then done (some s) else o)
            ≡ done (first_string target (string_field k s ∷ fs))
      pick k s fs e = ground arith

-- On every message that the writers build from varint and string fields, `extract_string_field` gives
-- the first string of the field asked for if it is UTF-8, nothing if there is none or it is not; a fuel
-- of one more than the number of fields is enough. The message is no longer than a slice can be.
pub extract_string_field-encode_fields :
    (fs : List Field) (target fuel : ℕ)
    → All IsField fs
    → length (encode_fields fs) < slice_max
    → length fs < fuel
    → extract_string_field fuel (encode_fields fs) target
      ≡ done (checked_text (first_string target fs))
unfolding extract_string_field map_outcome
extract_string_field-encode_fields fs target fuel hf short h =
    rw (extract_loop-fields short target fuel 0 fs h hf (At-start (encode_fields fs)))
