-- ===== src/Format/Laws.antt =====
-- `split_whitespace` undoes `join` on words, and so a hex dump has one token for each byte.
use hwwctl.Prelude.{
  ℕ, suc, ◌/◌, ◌%◌, ◌<◌, ◌≡◌, ◌≢◌, refl, ap, ◌∙◌, List, [], ◌∷◌, ◌++◌, length, All, Text, true,
  false, arith, append_assoc, append-nil,
}
use hwwctl.Format.{
  hex_digit, hex_byte, hex_bytes, join, hex_dump, is_whitespace, split_whitespace_loop,
  split_whitespace,
}

-- Texts with no white space in them.
abbrev pub IsSolid : Text → Type 0
IsSolid t = All (λ c. is_whitespace c ≡ false) t

-- A word: solid, and not empty.
abbrev pub IsWord : Text → Type 0
IsWord t = IsSolid t × (t ≢ [])

module _ (sep : ℕ) (white : is_whitespace sep ≡ true) where
  -- Reading on in a word up to a separator, and up to the end.
  split_word :
      (w : ℕ) (word t s : Text)
      → IsSolid t
      → split_whitespace_loop (w ∷ word) (t ++ (sep ∷ s))
        ≡ ((w ∷ word) ++ t) ∷ split_whitespace_loop [] s
  unfolding split_whitespace_loop
  split_word w word [] s h = ground (arith, white, append-nil (w ∷ word))
  split_word w word (c ∷ t) s (hc, h) =
      ground (arith, hc, split_word w (word ++ (c ∷ [])) t s h, append_assoc word (c ∷ []) t)

  split_last :
      (w : ℕ) (word t : Text)
      → IsSolid t
      → split_whitespace_loop (w ∷ word) t ≡ ((w ∷ word) ++ t) ∷ []
  unfolding split_whitespace_loop
  split_last w word [] h = ground (arith, append-nil (w ∷ word))
  split_last w word (c ∷ t) (hc, h) =
      ground (arith, hc, split_last w (word ++ (c ∷ [])) t h, append_assoc word (c ∷ []) t)

  pub split_whitespace-join :
      (ws : List Text) → All IsWord ws → split_whitespace (join (sep ∷ []) ws) ≡ ws
  unfolding split_whitespace split_whitespace_loop join
  split_whitespace-join [] h = refl
  split_whitespace-join ([] ∷ ws) ((_, ne), h) = absurd (ne refl)
  split_whitespace-join ((c ∷ t) ∷ []) (((hc, ht), ne), h) =
      ground (arith, hc, split_last c [] t ht)
  split_whitespace-join ((c ∷ t) ∷ (u ∷ ws)) (((hc, ht), ne), h) =
      ground (
        arith,
        hc,
        split_word c [] t (join (sep ∷ []) (u ∷ ws)) ht,
        split_whitespace-join (u ∷ ws) h,
      )

hex_digit-solid : (d : ℕ) → d < 16 → is_whitespace (hex_digit d) ≡ false
unfolding hex_digit is_whitespace
hex_digit-solid d h = ground arith

hex_bytes-IsWord : (bs : List ℕ) → All (λ b. b < 256) bs → All IsWord (hex_bytes bs)
unfolding hex_bytes hex_byte
hex_bytes-IsWord [] h = tt
hex_bytes-IsWord (b ∷ bs) (hb, h) = (
  ((hex_digit-solid (b / 16) (omega arith), (hex_digit-solid (b % 16) (omega arith), tt)), λ e. cc),
  hex_bytes-IsWord bs h,
)

length-hex_bytes : (bs : List ℕ) → length (hex_bytes bs) ≡ length bs
unfolding hex_bytes
length-hex_bytes [] = refl
length-hex_bytes (b ∷ bs) = ap suc (length-hex_bytes bs)

-- The tokens of a hex dump are the bytes, one each.
pub split_whitespace-hex_dump :
    (bs : List ℕ) → All (λ b. b < 256) bs → split_whitespace (hex_dump bs) ≡ hex_bytes bs
unfolding hex_dump
split_whitespace-hex_dump bs h =
    split_whitespace-join b' ' (unfold is_whitespace in refl) (hex_bytes bs) (hex_bytes-IsWord bs h)

-- A hex dump of bytes has one token for each byte.
pub length-split_whitespace-hex_dump :
    (bs : List ℕ) → All (λ b. b < 256) bs → length (split_whitespace (hex_dump bs)) ≡ length bs
length-split_whitespace-hex_dump bs h =
    ap length (split_whitespace-hex_dump bs h) ∙ length-hex_bytes bs
