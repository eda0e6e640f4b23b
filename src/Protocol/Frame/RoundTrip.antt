-- ===== src/Protocol/Frame/RoundTrip.antt =====
-- crates/protocol/src/trezor_debug.rs: `recv_message` puts together what `frame_message` takes apart.
use hwwctl.Prelude.{
  ℕ, ◌-◌, ◌<◌, ◌≡◌, sym, ap, ◌∙◌, List, ◌++◌, map, length, take, drop, replicate, length-append,
  length-take, length-drop, length-replicate, take-append-drop, take_all, drop_all, append-nil,
  some, arith,
}
use native.Mathlib.Decide.{dec_le}
use hwwctl.Protocol.Frame.{
  continuation_packets, first_packet, frame_message, Recv, datagram, Received, ok, into_buffer,
  first_header, checked_chunk, unchecked_chunk, recv_rest, recv_with, recv_message, recv_response,
  u32_mod,
}
use hwwctl.Protocol.Frame.Packets.{
  from_be16-be16, from_be32-be32, Takes, checked_chunk-Takes, unchecked_chunk-Takes, no_packets,
  recv_rest_done, recv_rest_packets,
}

module _ (t : ℕ) (p : List ℕ) (fits : t < 65536) (short : length p < u32_mod) where
  first_packet_header :
      first_header (into_buffer (first_packet t p))
      ≡ some (t, length p, take 55 p ++ replicate (55 - length (take 55 p)) 0)
  unfolding first_packet first_header
  first_packet_header =
      let size = length-append (take 55 p) (replicate (55 - length (take 55 p)) 0) in
      let whole = take_all 55 (take 55 p ++ replicate (55 - length (take 55 p)) 0) (
        omega
          (arith, size, length-take 55 p, length-replicate {A = ℕ} (55 - length (take 55 p)) 0)) in
      ground (arith, whole, from_be16-be16 t fits, from_be32-be32 (length p) short)

-- The first chunk and the packets behind it give the whole payload, in either case of its size.
module _ (chunk_of : List ℕ → Received (List ℕ)) (takes : Takes chunk_of) (p : List ℕ)
    (es : List Recv) where
  recv_rest_message :
      recv_rest chunk_of
        (map datagram (continuation_packets (length p) (drop 55 p)) ++ es)
        (length p)
        (take 55 p ++ replicate (55 - length (take 55 p)) 0)
      ≡ ok (p, es)
  recv_rest_message = elim (dec_le (length p) 55) [
    | yes one ↦
        ap (λ ps. recv_rest chunk_of (map datagram ps ++ es) (length p) (take 55 p ++ padding))
          (ap (continuation_packets (length p)) (drop_all 55 p one) ∙ no_packets (length p))
        ∙ recv_rest_done chunk_of takes es (take 55 p) padding (length p)
            (ap length (sym (take_all 55 p one)))
        ∙ ap (λ q. ok (q, es)) (take_all 55 p one)
    | no more ↦
        let no_padding : 55 - length (take 55 p) ≡ 0 = omega (arith, length-take 55 p) in
        ap (λ k. recv_rest chunk_of (packets p) (length p) (take 55 p ++ replicate k 0)) no_padding
        ∙ ap (recv_rest chunk_of (packets p) (length p)) (append-nil (take 55 p))
        ∙ recv_rest_packets chunk_of takes (length p) (drop 55 p) (take 55 p) (length p) es
            (omega (arith, length-drop 55 p)) (omega (arith, length-take 55 p, length-drop 55 p))
        ∙ ap (λ q. ok (q, es)) (take-append-drop 55 p)
  ]
    where
      padding : List ℕ
      padding = replicate (55 - length (take 55 p)) 0

      packets : List ℕ → List Recv
      packets p = map datagram (continuation_packets (length p) (drop 55 p)) ++ es

  recv_with_message :
      (t : ℕ)
      → t < 65536
      → length p < u32_mod
      → recv_with chunk_of (map datagram (frame_message t p) ++ es)
        ≡ ok (record { msg_type = t; payload = p }, es)
  unfolding frame_message recv_with
  recv_with_message t fits short =
      ground (arith, first_packet_header t p fits short, recv_rest_message)

-- The debug link reads back exactly the message that `frame_message` cut into packets, whatever its
-- type below 2 ^ 16 and its payload of less than 2 ^ 32 bytes, and leaves what the socket delivers
-- after it.
pub recv_message-frame_message :
    (t : ℕ) (p : List ℕ) (es : List Recv)
    → t < 65536
    → length p < u32_mod
    → recv_message (map datagram (frame_message t p) ++ es)
      ≡ ok (record { msg_type = t; payload = p }, es)
unfolding recv_message
recv_message-frame_message t p es fits short =
    recv_with_message checked_chunk checked_chunk-Takes p es t fits short

-- So does the wire client.
pub recv_response-frame_message :
    (t : ℕ) (p : List ℕ) (es : List Recv)
    → t < 65536
    → length p < u32_mod
    → recv_response (map datagram (frame_message t p) ++ es)
      ≡ ok (record { msg_type = t; payload = p }, es)
unfolding recv_response
recv_response-frame_message t p es fits short =
    recv_with_message unchecked_chunk unchecked_chunk-Takes p es t fits short
