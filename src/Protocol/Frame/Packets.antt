-- ===== src/Protocol/Frame/Packets.antt =====
-- crates/protocol/src/trezor_debug.rs: the receive loop over the continuation packets that
-- `frame_message` writes.
use hwwctl.Prelude.{
  ℕ, zero, suc, ◌+◌, ◌-◌, ◌/◌, ◌%◌, ◌≤◌, ◌<◌, ◌≡◌, refl, sym, ap, ◌∙◌, List, [], ◌∷◌, ◌++◌, map,
  length, take, drop, replicate, length-append, length-take, length-drop, length-replicate,
  take-append-drop, take-append_left, take_all, drop_all, append_assoc, append-nil, arith,
}
use native.Mathlib.Decide.{dec_le}
use hwwctl.Protocol.Frame.{
  continuation_packet, continuation_packets, Recv, datagram, recv_error, Received, ok, into_buffer,
  checked_chunk, unchecked_chunk, recv_rest, u32_mod, from_be16, from_be32,
}

-- Each byte of a big-endian number, put back in its place.
pub from_be16-be16 : (t : ℕ) → t < 65536 → from_be16 (t / 256 % 256) (t % 256) ≡ t
from_be16-be16 t h = omega arith

pub from_be32-be32 :
    (n : ℕ)
    → n < u32_mod
    → from_be32 (n / 16777216 % 256) (n / 65536 % 256) (n / 256 % 256) (n % 256) ≡ n
from_be32-be32 n h = omega arith

pub length-continuation_packet :
    (chunk : List ℕ) → length chunk ≤ 63 → length (continuation_packet chunk) ≡ 64
unfolding continuation_packet
length-continuation_packet chunk h = omega (
  arith,
  length-append chunk (replicate (63 - length chunk) 0),
  length-replicate {A = ℕ} (63 - length chunk) 0,
)

-- What both receivers take of a packet: all behind the marker.
abbrev pub Takes : (List ℕ → Received (List ℕ)) → Type 0
Takes chunk_of = (chunk : List ℕ) → chunk_of (0x3f ∷ chunk) ≡ ok chunk

pub checked_chunk-Takes : Takes checked_chunk
unfolding checked_chunk
checked_chunk-Takes chunk = refl

pub unchecked_chunk-Takes : Takes unchecked_chunk
unfolding unchecked_chunk
unchecked_chunk-Takes chunk = refl

pub no_packets : (fuel : ℕ) → continuation_packets fuel [] ≡ []
unfolding continuation_packets
no_packets zero = refl
no_packets (suc fuel) = refl

more_packets :
    (fuel : ℕ) (more : List ℕ)
    → 1 ≤ length more
    → continuation_packets (suc fuel) more
      ≡ continuation_packet (take 63 more) ∷ continuation_packets fuel (drop 63 more)
unfolding continuation_packets
more_packets fuel [] h = absurd (omega arith)
more_packets fuel (b ∷ bs) h = refl

module _ (chunk_of : List ℕ → Received (List ℕ)) (takes : Takes chunk_of) where
  pub recv_rest_done :
      (es : List Recv) (payload extra : List ℕ) (n : ℕ)
      → n ≡ length payload
      → recv_rest chunk_of es n (payload ++ extra) ≡ ok (payload, es)
  unfolding recv_rest
  recv_rest_done [] payload extra n e =
      ground (arith, length-append payload extra, take-append_left n payload extra e)
  recv_rest_done (recv_error ∷ es) payload extra n e =
      ground (arith, length-append payload extra, take-append_left n payload extra e)
  recv_rest_done (datagram d ∷ es) payload extra n e =
      ground (arith, length-append payload extra, take-append_left n payload extra e)

  packet_chunk :
      (chunk : List ℕ)
      → length chunk ≤ 63
      → chunk_of (into_buffer (continuation_packet chunk))
        ≡ ok (chunk ++ replicate (63 - length chunk) 0)
  packet_chunk chunk small =
      ap chunk_of (
        take_all 64 (continuation_packet chunk)
          (omega (arith, length-continuation_packet chunk small)))
      ∙ unfold continuation_packet in takes (chunk ++ replicate (63 - length chunk) 0)

  -- A packet that is still wanted is taken whole, its padding too.
  recv_rest_packet :
      (chunk payload : List ℕ) (n : ℕ) (es : List Recv)
      → length chunk ≤ 63
      → length payload < n
      → recv_rest chunk_of (datagram (continuation_packet chunk) ∷ es) n payload
        ≡ recv_rest chunk_of es n (payload ++ (chunk ++ replicate (63 - length chunk) 0))
  unfolding recv_rest
  recv_rest_packet chunk payload n es small wanted = ground (arith, packet_chunk chunk small)

  recv_rest_read :
      (es : List Recv) (payload : List ℕ) (n : ℕ)
      → n ≡ length payload
      → recv_rest chunk_of es n payload ≡ ok (payload, es)
  recv_rest_read es payload n e =
      ap (recv_rest chunk_of es n) (sym (append-nil payload)) ∙ recv_rest_done es payload [] n e

  recv_rest_last :
      (more payload : List ℕ) (n : ℕ) (es : List Recv)
      → 1 ≤ length more
      → length more ≤ 63
      → n ≡ length payload + length more
      → recv_rest chunk_of (datagram (continuation_packet more) ∷ es) n payload
        ≡ ok (payload ++ more, es)
  recv_rest_last more payload n es some_left small e =
      recv_rest_packet more payload n es small (omega arith)
      ∙ ap (recv_rest chunk_of es n) (sym (append_assoc payload more _))
      ∙ recv_rest_done es (payload ++ more) _ n (omega (arith, length-append payload more))

  recv_rest_full :
      (more payload : List ℕ) (n : ℕ) (es : List Recv)
      → 63 < length more
      → n ≡ length payload + length more
      → recv_rest chunk_of (datagram (continuation_packet (take 63 more)) ∷ es) n payload
        ≡ recv_rest chunk_of es n (payload ++ take 63 more)
  recv_rest_full more payload n es big e =
      let full : length (take 63 more) ≡ 63 = omega (arith, length-take 63 more) in
      let no_padding : 63 - length (take 63 more) ≡ 0 = omega arith in
      recv_rest_packet (take 63 more) payload n es (omega arith) (omega arith)
      ∙ ap (λ k. recv_rest chunk_of es n (payload ++ (take 63 more ++ replicate k 0))) no_padding
      ∙ ap (λ c. recv_rest chunk_of es n (payload ++ c)) (append-nil (take 63 more))

  -- One round of the sender against one round of the receiver.
  packets_step :
      (fuel : ℕ) (more payload : List ℕ) (n : ℕ) (es : List Recv)
      → 1 ≤ length more
      → n ≡ length payload + length more
      → (n ≡ length (payload ++ take 63 more) + length (drop 63 more)
          → recv_rest chunk_of
              (map datagram (continuation_packets fuel (drop 63 more)) ++ es)
              n
              (payload ++ take 63 more)
            ≡ ok ((payload ++ take 63 more) ++ drop 63 more, es))
      → recv_rest chunk_of (map datagram (continuation_packets (suc fuel) more) ++ es) n payload
        ≡ ok (payload ++ more, es)
  packets_step fuel more payload n es some_left e rest = elim (dec_le (length more) 63) [
    | yes last ↦
        ap (λ ps. recv_rest chunk_of (map datagram ps ++ es) n payload) (last_packets last)
        ∙ recv_rest_last more payload n es some_left last e
    | no big ↦
        ap (λ ps. recv_rest chunk_of (map datagram ps ++ es) n payload)
          (more_packets fuel more some_left)
        ∙ recv_rest_full more payload n _ (omega arith) e
        ∙ rest (
            omega (
              arith,
              length-append payload (take 63 more),
              length-take 63 more,
              length-drop 63 more,
            ))
        ∙ ap (λ p. ok (p, es))
            (append_assoc payload (take 63 more) (drop 63 more)
              ∙ ap (λ m. payload ++ m) (take-append-drop 63 more))
  ]
    where
      last_packets :
          length more ≤ 63 → continuation_packets (suc fuel) more ≡ continuation_packet more ∷ []
      last_packets last =
          more_packets fuel more some_left
          ∙ ap (λ c. continuation_packet c ∷ continuation_packets fuel (drop 63 more))
              (take_all 63 more last)
          ∙ ap (λ ps. continuation_packet more ∷ ps)
              (ap (continuation_packets fuel) (drop_all 63 more last) ∙ no_packets fuel)

  -- The packets of `more`, behind a payload that has been read up to there.
  pub recv_rest_packets :
      (fuel : ℕ) (more payload : List ℕ) (n : ℕ) (es : List Recv)
      → length more ≤ fuel
      → n ≡ length payload + length more
      → recv_rest chunk_of (map datagram (continuation_packets fuel more) ++ es) n payload
        ≡ ok (payload ++ more, es)
  recv_rest_packets fuel [] payload n es small e =
      unfold continuation_packets in
      recv_rest_read es payload n (omega arith) ∙ ap (λ p. ok (p, es)) (sym (append-nil payload))
  recv_rest_packets zero (b ∷ bs) payload n es small e = absurd (omega arith)
  recv_rest_packets (suc fuel) (b ∷ bs) payload n es small e =
      packets_step fuel (b ∷ bs) payload n es (omega arith) e (
        recv_rest_packets fuel (drop 63 (b ∷ bs)) (payload ++ take 63 (b ∷ bs)) n es
          (omega (arith, length-drop 62 bs)))
