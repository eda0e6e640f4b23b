-- ===== src/Protocol/Field/Cursor.antt =====
-- crates/protocol/src/trezor_debug.rs: where the protobuf loops stand in their slice.
use Prim.Native.Nat.add
use native.Mathlib.Nat.{suc-add}
use hwwctl.Prelude.{
  ℕ, zero, suc, ◌+◌, ◌-◌, ◌<◌, ◌≡◌, refl, ap, sym, ◌∙◌, List, [], ◌∷◌, ◌++◌, length, take, drop,
  some, length-append, drop-append_left, take-append_left, arith,
}
use hwwctl.Protocol.Varint.{IsU64, encode_varint, decode_varint}
use hwwctl.Protocol.Varint.Laws.{decode_varint-encode_varint, encode_varint_shape}
use hwwctl.Protocol.Field.{done, usize_add, skip_field, slice, read_string}

-- No slice of the program is longer than `isize::MAX`.
abbrev pub slice_max : ℕ
slice_max = 0x8000_0000_0000_0000

drop-nil {ℓ} : {A : Type ℓ} (n : ℕ) → drop {A = A} n [] ≡ []
drop-nil zero = refl
drop-nil (suc n) = refl

drop-drop {ℓ} : {A : Type ℓ} (a b : ℕ) (xs : List A) → drop (a + b) xs ≡ drop b (drop a xs)
drop-drop zero b xs = rw add.zero
drop-drop (suc a) b [] = rw suc-add (sym (drop-nil b))
drop-drop (suc a) b (x ∷ xs) = rw suc-add (drop-drop a b xs)

-- The slice is `rest` from `pos` on.
pub record At (bytes : List ℕ) (pos : ℕ) (rest : List ℕ) : Type 0 where
  pub there : drop pos bytes ≡ rest
  pub size : pos + length rest ≡ length bytes

pub At-start : (bytes : List ℕ) → At bytes 0 bytes
At-start bytes = record { there = refl; size = omega arith }

module _ {bytes : List ℕ} (short : length bytes < slice_max) where
  pub At-move :
      {pos : ℕ} (xs rest : List ℕ)
      → At bytes pos (xs ++ rest)
      → At bytes (usize_add pos (length xs)) rest
  At-move {pos} xs rest a =
      let e : usize_add pos (length xs) ≡ pos + length xs =
        omega (arith, a.size, length-append xs rest) in
      rw e (record {
        there =
            drop-drop pos (length xs) bytes
            ∙ ap (drop (length xs)) a.there
            ∙ drop-append_left (length xs) xs rest refl;
        size = omega (arith, a.size, length-append xs rest);
      })

  pub At-decode :
      {pos : ℕ} (v : ℕ) (rest : List ℕ)
      → At bytes pos (encode_varint v ++ rest)
      → IsU64 v
      → decode_varint (drop pos bytes) ≡ (v, length (encode_varint v))
  At-decode v rest a h = ap decode_varint a.there ∙ decode_varint-encode_varint v rest h

  pub At-lt :
      {pos : ℕ} (v : ℕ) (rest : List ℕ)
      → At bytes pos (encode_varint v ++ rest)
      → IsU64 v
      → pos < length bytes
  At-lt v rest a h =
      omega (arith, a.size, length-append (encode_varint v) rest, (encode_varint_shape v h).1)

  -- A varint field is skipped whole.
  pub skip_varint :
      {pos : ℕ} (v : ℕ) (rest : List ℕ)
      → At bytes pos (encode_varint v ++ rest)
      → IsU64 v
      → (next : ℕ) × (skip_field bytes pos 0 ≡ some next) × At bytes next rest
  unfolding skip_field
  skip_varint v rest a h = (_, rw (At-decode v rest a h), At-move (encode_varint v) rest a)

  module _ {pos : ℕ} (s rest : List ℕ)
      (a : At bytes pos (encode_varint (length s) ++ (s ++ rest))) where
    fits : IsU64 (length s)
    fits =
        omega (
          arith,
          a.size,
          length-append (encode_varint (length s)) (s ++ rest),
          length-append s rest,
        )

    body : At bytes (usize_add pos (length (encode_varint (length s)))) (s ++ rest)
    body = At-move (encode_varint (length s)) (s ++ rest) a

    behind :
        At bytes (usize_add (usize_add pos (length (encode_varint (length s)))) (length s)) rest
    behind = At-move s rest body

    same_end :
        usize_add pos (usize_add (length (encode_varint (length s))) (length s))
        ≡ usize_add (usize_add pos (length (encode_varint (length s)))) (length s)
    same_end =
        omega (
          arith,
          a.size,
          length-append (encode_varint (length s)) (s ++ rest),
          length-append s rest,
        )

    -- So is a string field.
    pub skip_string : (next : ℕ) × (skip_field bytes pos 2 ≡ some next) × At bytes next rest
    unfolding skip_field
    skip_string = (
      _,
      ground (
        arith,
        At-decode (length s) (s ++ rest) a fits,
        At-lt (length s) (s ++ rest) a fits,
        same_end,
      ),
      behind,
    )

    start : ℕ
    start = usize_add pos (length (encode_varint (length s)))

    window : take (usize_add start (length s) - start) (drop start bytes) ≡ s
    unfolding start
    window =
        ap (take (usize_add start (length s) - start)) body.there
        ∙ take-append_left (usize_add start (length s) - start) s rest
            (omega (arith, body.size, length-append s rest))

    -- A string that is asked for is read whole, and ends where the next field begins.
    pub read_string_lem :
        (next : ℕ) × (read_string bytes pos ≡ done (some (s, next))) × At bytes next rest
    unfolding read_string slice start
    read_string_lem = (
      _,
      ground (
        arith,
        At-decode (length s) (s ++ rest) a fits,
        window,
        body.size,
        behind.size,
        length-append s rest,
      ),
      behind,
    )
