-- ===== src/Protocol/Frame.antt =====
-- crates/protocol/src/trezor_debug.rs: the 64-byte packets of the Trezor UDP ports, `frame_message`
-- and the receiving halves of `TrezorDebugLink` and `TrezorWireClient`.
-- What a socket still delivers before the caller's timeout is a list of outcomes of `recv`; the end
-- of the list is the timeout.
pub mod Shape
pub mod Packets
pub mod RoundTrip
use hwwctl.Prelude.{
  ℕ, zero, suc, ◌+◌, ◌-◌, ◌*◌, ◌/◌, ◌%◌, List, [], ◌∷◌, ◌++◌, length, take, drop, replicate, ltb,
  ◌==◌, min, ◌&&◌, ◌||◌, not, if◌then◌else◌, Option, none, some,
}

-- `u16::to_be_bytes`, `u32::to_be_bytes` and back
abbrev pub be16 : ℕ → List ℕ
be16 t = t / 256 % 256 ∷ t % 256 ∷ []

abbrev pub be32 : ℕ → List ℕ
be32 n = n / 16777216 % 256 ∷ n / 65536 % 256 ∷ n / 256 % 256 ∷ n % 256 ∷ []

abbrev pub from_be16 : ℕ → ℕ → ℕ
from_be16 a b = a * 256 + b

abbrev pub from_be32 : ℕ → ℕ → ℕ → ℕ → ℕ
from_be32 a b c d = a * 16777216 + b * 65536 + c * 256 + d

abbrev pub u32_mod : ℕ
u32_mod = 4294967296

-- A continuation packet: the marker, the chunk, zeros.
unfoldable pub continuation_packet : List ℕ → List ℕ
continuation_packet chunk = 0x3f ∷ (chunk ++ replicate (63 - length chunk) 0)

-- The `while offset < payload.len()` loop, over what stands from `offset` on. A round takes a byte at
-- least, so a fuel of the payload's length is enough.
unfoldable pub continuation_packets : ℕ → List ℕ → List (List ℕ)
continuation_packets fuel [] = []
continuation_packets zero (b ∷ bs) = []
continuation_packets (suc fuel) (b ∷ bs) =
    continuation_packet (take 63 (b ∷ bs)) ∷ continuation_packets fuel (drop 63 (b ∷ bs))

unfoldable pub first_packet : ℕ → List ℕ → List ℕ
first_packet msg_type payload =
    let first = take 55 payload in
    0x3f
    ∷ 0x23
    ∷ 0x23
    ∷ (be16 msg_type
        ++ (be32 (length payload % u32_mod) ++ (first ++ replicate (55 - length first) 0)))

unfoldable pub frame_message : ℕ → List ℕ → List (List ℕ)
frame_message msg_type payload =
    first_packet msg_type payload ∷ continuation_packets (length payload) (drop 55 payload)

-- The outcome of one `socket.recv`.
pub data Recv : Type 0 where
  datagram : List ℕ → Recv
  recv_error : Recv

pub data WireError : Type 0 where
  recv_failed invalid_first invalid_continuation timed_out : WireError

-- `panicked` is a Rust panic, here a slice whose start lies past its end.
pub data Received {ℓ} (A : Type ℓ) : Type ℓ where
  ok : A → Received A
  err : WireError → Received A
  panicked : Received A

pub record RawMessage : Type 0 where
  pub msg_type : ℕ
  pub payload : List ℕ

-- `recv` into a buffer of 64 bytes drops the rest of a longer datagram.
abbrev pub into_buffer : List ℕ → List ℕ
into_buffer d = take 64 d

-- The checks and reads on a first packet: `n < 9` or a wrong magic is `none`, otherwise the message
-- type, the announced length and the first chunk.
unfoldable pub first_header : List ℕ → Option (ℕ × ℕ × List ℕ)
first_header (b0 ∷ b1 ∷ b2 ∷ t0 ∷ t1 ∷ l0 ∷ l1 ∷ l2 ∷ l3 ∷ chunk) =
    if not (b0 == 0x3f) || not (b1 == 0x23) || not (b2 == 0x23)
    then none
    else some (from_be16 t0 t1, from_be32 l0 l1 l2 l3, chunk)
first_header _ = none

-- `n < 1 || buf[0] != 0x3F`
unfoldable pub checked_chunk : List ℕ → Received (List ℕ)
checked_chunk [] = err invalid_continuation
checked_chunk (b ∷ chunk) = if b == 0x3f then ok chunk else err invalid_continuation

-- `&buf[1..n.min(64)]`, with no check on `n`
unfoldable pub unchecked_chunk : List ℕ → Received (List ℕ)
unchecked_chunk [] = panicked
unchecked_chunk (b ∷ chunk) = ok chunk

-- The loop that collects continuation packets, with `chunk_of` for what a packet gives.
unfoldable pub recv_rest :
    (List ℕ → Received (List ℕ)) → List Recv → ℕ → List ℕ → Received (List ℕ × List Recv)
recv_rest chunk_of [] payload_len payload =
    if ltb (length payload) payload_len then err timed_out else ok (take payload_len payload, [])
recv_rest chunk_of (recv_error ∷ es) payload_len payload =
    if ltb (length payload) payload_len
    then err recv_failed
    else ok (take payload_len payload, recv_error ∷ es)
recv_rest chunk_of (datagram d ∷ es) payload_len payload =
    if ltb (length payload) payload_len
    then (elim (chunk_of (into_buffer d)) [
      | ok chunk ↦ recv_rest chunk_of es payload_len (payload ++ chunk)
      | err e ↦ err e
      | panicked ↦ panicked
    ])
    else ok (take payload_len payload, datagram d ∷ es)

-- Both receivers: a first packet, then the rest.
unfoldable pub recv_with :
    (List ℕ → Received (List ℕ)) → List Recv → Received (RawMessage × List Recv)
recv_with chunk_of [] = err timed_out
recv_with chunk_of (recv_error ∷ es) = err recv_failed
recv_with chunk_of (datagram d ∷ es) = elim (first_header (into_buffer d)) [
  | none ↦ err invalid_first
  | some (msg_type, payload_len, chunk) ↦ elim (recv_rest chunk_of es payload_len chunk) [
    | ok (payload, rest) ↦ ok (record { msg_type = msg_type; payload = payload }, rest)
    | err e ↦ err e
    | panicked ↦ panicked
  ]
]

-- `TrezorDebugLink::recv_message`, under its timeout
unfoldable pub recv_message : List Recv → Received (RawMessage × List Recv)
recv_message es = recv_with checked_chunk es

-- The receiving future of `TrezorWireClient::send_and_recv`, and of each round of
-- `recv_with_confirm`
unfoldable pub recv_response : List Recv → Received (RawMessage × List Recv)
recv_response es = recv_with unchecked_chunk es
