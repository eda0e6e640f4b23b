-- ===== src/Control/Framing/RoundTrip.antt =====
-- crates/control/src/lib.rs: frames read back, and what `read_frame` does on a stream that is cut off
-- or announces too much.
use hwwctl.Prelude.{
  ℕ, ◌≤◌, ◌<◌, ◌≡◌, refl, List, [], ◌∷◌, ◌++◌, length, take, drop, none, some, ◌↔◌, inl, inr, arith,
  take-append_left, drop-append_left, length-append, append_assoc, Option-cases,
}
use hwwctl.Protocol.Frame.{be32, from_be32}
use hwwctl.Protocol.Frame.Packets.{from_be32-be32}
use hwwctl.Control.Framing.{
  Codec, max_frame_bytes, End, eof, io_error, Source, Sink, too_large, ok, err, write_all,
  read_exact, write_frame, read_body, read_frame,
}

module _ {T : Type 0} (codec : Codec T) where
  -- A message that is written went out as its length and its bytes, no more than the limit.
  pub write_frame_lem :
      (msg : T) (w w' : Sink)
      → write_frame codec msg w ≡ ok w'
      → (bytes : List ℕ) × (codec.to_vec msg ≡ some bytes)
        × (length bytes ≤ max_frame_bytes)
        × (w'.written ≡ w.written ++ (be32 (length bytes) ++ bytes))
  unfolding write_frame write_all
  write_frame_lem msg w w' e = elim (Option-cases (codec.to_vec msg)) [
    | inl none_left ↦ absurd (ground (arith, none_left))
    | inr (bytes, print) ↦ (
      bytes,
      print,
      ground (arith, print),
      ground (arith, print, append_assoc w.written (be32 (length bytes)) bytes),
    )
  ]

  read_exact-append :
      (xs ys : List ℕ) (end : End) (n : ℕ)
      → n ≡ length xs
      → read_exact n (record { bytes = xs ++ ys; end = end })
        ≡ ok (xs, record { bytes = ys; end = end })
  unfolding read_exact
  read_exact-append xs ys end n e =
      ground (arith, length-append xs ys, take-append_left n xs ys e, drop-append_left n xs ys e)

  read_frame_bytes :
      (msg : T) (bytes rest : List ℕ) (end : End)
      → codec.to_vec msg ≡ some bytes
      → length bytes ≤ max_frame_bytes
      → read_frame codec (record { bytes = be32 (length bytes) ++ (bytes ++ rest); end = end })
        ≡ ok (some msg, record { bytes = rest; end = end })
  unfolding read_frame read_body
  read_frame_bytes msg bytes rest end print small = ground (
    arith,
    read_exact-append (be32 (length bytes)) (bytes ++ rest) end 4,
    from_be32-be32 (length bytes),
    read_exact-append bytes rest end (length bytes) refl,
    codec.parses msg bytes print,
  )

  -- Whatever `write_frame` adds to a stream, `read_frame` takes from it again: it returns the message
  -- and leaves the bytes that follow.
  pub read_frame-write_frame :
      (msg : T) (w w' : Sink) (rest : List ℕ) (end : End)
      → write_frame codec msg w ≡ ok w'
      → (frame : List ℕ) × (w'.written ≡ w.written ++ frame)
        × (read_frame codec (record { bytes = frame ++ rest; end = end })
            ≡ ok (some msg, record { bytes = rest; end = end }))
  read_frame-write_frame msg w w' rest end e =
      let (bytes, print, small, out) = write_frame_lem msg w w' e in
      (be32 (length bytes) ++ bytes, out, read_frame_bytes msg bytes rest end print small)

  read_body-ne-none : (buf : List ℕ) (r r' : Source) → read_body codec buf r ≡ ok (none, r') → ⊥
  unfolding read_body read_exact
  read_body-ne-none [] r r' e = cc
  read_body-ne-none (l0 ∷ []) r r' e = cc
  read_body-ne-none (l0 ∷ l1 ∷ []) r r' e = cc
  read_body-ne-none (l0 ∷ l1 ∷ l2 ∷ []) r r' e = cc
  read_body-ne-none (l0 ∷ l1 ∷ l2 ∷ l3 ∷ _) r r' e = ground arith

  read_frame-none_only :
      (bytes : List ℕ) (end : End) (r' : Source)
      → read_frame codec (record { bytes = bytes; end = end }) ≡ ok (none, r')
      → (length bytes < 4) × (end ≡ eof)
  unfolding read_frame read_exact
  read_frame-none_only bytes eof r' e =
      ground
        (arith, read_body-ne-none (take 4 bytes) (record { bytes = drop 4 bytes; end = eof }) r')
  read_frame-none_only bytes io_error r' e =
      ground (
        arith,
        read_body-ne-none (take 4 bytes) (record { bytes = drop 4 bytes; end = io_error }) r',
      )

  -- `read_frame` answers `None` exactly on a stream that ends, without an error, before four bytes have
  -- arrived: also if it ends inside the length.
  pub read_frame-none :
      (r : Source)
      → ((r' : Source) × (read_frame codec r ≡ ok (none, r')))
        ↔ ((length r.bytes < 4) × (r.end ≡ eof))
  unfolding read_frame read_exact
  read_frame-none r = (
    λ (r', e). read_frame-none_only r.bytes r.end r' e,
    λ (short, ends). (record { bytes = []; end = r.end }, ground (arith, short, ends)),
  )

  -- A length above the limit is refused before any byte of the body is read.
  pub read_frame_too_large :
      (l0 l1 l2 l3 : ℕ) (rest : List ℕ) (end : End)
      → max_frame_bytes < from_be32 l0 l1 l2 l3
      → read_frame codec (record { bytes = l0 ∷ l1 ∷ l2 ∷ l3 ∷ rest; end = end }) ≡ err too_large
  unfolding read_frame read_exact read_body
  read_frame_too_large l0 l1 l2 l3 rest end big = ground arith
