-- ===== src/Control/Framing.antt =====
-- crates/control/src/lib.rs: `write_frame` and `read_frame`, the length-prefixed messages on the
-- daemon's socket. The JSON codec is serde's, a parameter; flushing a socket does nothing.
pub mod RoundTrip
use hwwctl.Prelude.{
  ℕ, ◌+◌, ◌-◌, ◌%◌, List, [], ◌∷◌, ◌++◌, length, take, drop, Option, none, some, ltb, if◌then◌else◌,
  ◌≡◌,
}
use hwwctl.Protocol.Frame.{be32, from_be32, u32_mod}

-- What serde does with messages of one type. `parses` is what it documents: a value that it has
-- printed reads back.
pub record Codec (T : Type 0) : Type 0 where
  pub to_vec : T → Option (List ℕ)
  pub from_slice : List ℕ → Option T
  pub parses : (msg : T) (bytes : List ℕ) → to_vec msg ≡ some bytes → from_slice bytes ≡ some msg

abbrev pub max_frame_bytes : ℕ
max_frame_bytes = 16777216

-- The receiving side of a stream: the bytes that still arrive, and whether it then ends or fails.
pub data End : Type 0 where
  eof io_error : End

pub record Source : Type 0 where
  pub bytes : List ℕ
  pub end : End

-- The sending side: what has been written, and how many bytes more it takes before it fails.
pub record Sink : Type 0 where
  pub written : List ℕ
  pub room : ℕ

pub data FrameError : Type 0 where
  codec_error too_large unexpected_eof io_failed : FrameError

pub data Framed {ℓ} (A : Type ℓ) : Type ℓ where
  ok : A → Framed A
  err : FrameError → Framed A

infixl 5 ◌>>=◌
abbrev pub ◌>>=◌ {ℓ κ} : {A : Type ℓ} {B : Type κ} → Framed A → (A → Framed B) → Framed B
ok a >>= f = f a
err e >>= f = err e

unfoldable pub write_all : List ℕ → Sink → Framed Sink
write_all bytes w =
    if ltb w.room (length bytes)
    then err io_failed
    else ok (record { written = w.written ++ bytes; room = w.room - length bytes })

-- The error of a read that meets the end of the stream.
abbrev pub end_error : End → FrameError
end_error eof = unexpected_eof
end_error io_error = io_failed

unfoldable pub read_exact : ℕ → Source → Framed (List ℕ × Source)
read_exact n r =
    if ltb (length r.bytes) n
    then err (end_error r.end)
    else ok (take n r.bytes, record r { bytes = drop n r.bytes })

module _ {T : Type 0} (codec : Codec T) where
  unfoldable pub write_frame : T → Sink → Framed Sink
  write_frame msg w = elim (codec.to_vec msg) [
    | none ↦ err codec_error
    | some bytes ↦
        if ltb max_frame_bytes (length bytes)
        then err too_large
        else do w' ← write_all (be32 (length bytes % u32_mod)) w; write_all bytes w'
  ]

  -- What follows the header: the length is checked, then that many bytes are read and parsed.
  unfoldable pub read_body : List ℕ → Source → Framed (Option T × Source)
  read_body (l0 ∷ l1 ∷ l2 ∷ l3 ∷ _) r =
      let len = from_be32 l0 l1 l2 l3 in
      if ltb max_frame_bytes len then err too_large else do
        (buf, r') ← read_exact len r
        elim (codec.from_slice buf) [ none ↦ err codec_error | some msg ↦ ok (some msg, r') ]
  read_body _ r = err unexpected_eof

  -- An end of the stream while the header is read is no error but `None`.
  unfoldable pub read_frame : Source → Framed (Option T × Source)
  read_frame r = elim (read_exact 4 r) [
    | ok (len_buf, r') ↦ read_body len_buf r'
    | err unexpected_eof ↦ ok (none, record r { bytes = [] })
    | err e ↦ err e
  ]
