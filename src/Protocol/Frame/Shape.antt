-- ===== src/Protocol/Frame/Shape.antt =====
-- crates/protocol/src/trezor_debug.rs: what `frame_message` puts on the wire, and what a receiver can
-- be sure of on any datagrams.
use hwwctl.Prelude.{
  ℕ, zero, suc, ◌+◌, ◌-◌, ◌/◌, ◌≤◌, ◌<◌, ◌≡◌, refl, List, [], ◌∷◌, ◌++◌, length, take, drop,
  replicate, length-append, length-take, length-drop, length-replicate, All, All-append, All-take,
  All-drop, arith, ◌⊎◌, inl, inr, ◌≢◌, Option-cases, some,
}
use hwwctl.Protocol.Varint.{IsByte}
use hwwctl.Protocol.Frame.Packets.{length-continuation_packet}
use hwwctl.Protocol.Frame.{
  continuation_packet, continuation_packets, first_packet, frame_message, Recv, datagram,
  recv_error, Received, ok, err, panicked, WireError, invalid_continuation, RawMessage, into_buffer,
  first_header, checked_chunk, unchecked_chunk, recv_rest, recv_with, recv_message, recv_response,
}

-- A report: 64 bytes that start with `?`.
pub record IsReport (packet : List ℕ) : Type 0 where
  pub sized : length packet ≡ 64
  pub bytes : All IsByte packet
  pub marked : (rest : List ℕ) × (packet ≡ 0x3f ∷ rest)

zeros-IsByte : (n : ℕ) → All IsByte (replicate n 0)
zeros-IsByte zero = tt
zeros-IsByte (suc n) = (omega arith, zeros-IsByte n)

continuation_packet-IsReport :
    (chunk : List ℕ) → length chunk ≤ 63 → All IsByte chunk → IsReport (continuation_packet chunk)
unfolding continuation_packet
continuation_packet-IsReport chunk h bs = record {
  sized = length-continuation_packet chunk h;
  bytes = (omega arith, All-append IsByte chunk _ bs (zeros-IsByte (63 - length chunk)));
  marked = (_, refl);
}

continuation_packets-IsReport :
    (fuel : ℕ) (more : List ℕ) → All IsByte more → All IsReport (continuation_packets fuel more)
unfolding continuation_packets
continuation_packets-IsReport fuel [] h = tt
continuation_packets-IsReport zero (b ∷ bs) h = tt
continuation_packets-IsReport (suc fuel) (b ∷ bs) h = (
  continuation_packet-IsReport (take 63 (b ∷ bs)) (omega (arith, length-take 63 (b ∷ bs)))
      (All-take IsByte 63 (b ∷ bs) h),
  continuation_packets-IsReport fuel (drop 63 (b ∷ bs)) (All-drop IsByte 63 (b ∷ bs) h),
)

first_packet-IsReport : (t : ℕ) (p : List ℕ) → All IsByte p → IsReport (first_packet t p)
unfolding first_packet
first_packet-IsReport t p h = record {
  sized = omega (
    arith,
    length-append (take 55 p) (replicate (55 - length (take 55 p)) 0),
    length-take 55 p,
    length-replicate {A = ℕ} (55 - length (take 55 p)) 0,
  );
  bytes = ground (
    arith,
    All-append IsByte (take 55 p) (replicate (55 - length (take 55 p)) 0) (All-take IsByte 55 p h)
        (zeros-IsByte (55 - length (take 55 p))),
  );
  marked = (_, refl);
}

-- Packets beside the first: one for each 63 bytes begun.
length-continuation_packets :
    (fuel : ℕ) (more : List ℕ)
    → length more ≤ fuel
    → length (continuation_packets fuel more) ≡ (length more + 62) / 63
unfolding continuation_packets
length-continuation_packets fuel [] h = omega arith
length-continuation_packets zero (b ∷ bs) h = absurd (omega arith)
length-continuation_packets (suc fuel) (b ∷ bs) h = omega (
  arith,
  length-continuation_packets fuel (drop 62 bs) (omega (arith, length-drop 62 bs)),
  length-drop 62 bs,
)

-- Every packet of a message of bytes is a report of 64 bytes that starts with `?`, and there are as
-- many as 55 bytes in the first and 63 in each other need.
pub frame_message_shape :
    (t : ℕ) (p : List ℕ)
    → All IsByte p
    → All IsReport (frame_message t p)
      × (length (frame_message t p) ≡ 1 + (length p - 55 + 62) / 63)
unfolding frame_message
frame_message_shape t p h = (
  (
    first_packet-IsReport t p h,
    continuation_packets-IsReport (length p) (drop 55 p) (All-drop IsByte 55 p h),
  ),
  omega (arith, length-continuation_packets (length p) (drop 55 p), length-drop 55 p),
)

Received-cases {ℓ} :
    {A : Type ℓ} (r : Received A)
    → ((a : A) × (r ≡ ok a)) ⊎ ((e : WireError) × (r ≡ err e)) ⊎ (r ≡ panicked)
Received-cases (ok a) = inl (a, refl)
Received-cases (err e) = inr (inl (e, refl))
Received-cases panicked = inr (inr refl)

recv_rest-length :
    (chunk_of : List ℕ → Received (List ℕ)) (es : List Recv) (n : ℕ) (payload p : List ℕ)
    (rest : List Recv)
    → recv_rest chunk_of es n payload ≡ ok (p, rest)
    → length p ≡ n
unfolding recv_rest
recv_rest-length chunk_of [] n payload p rest e = ground (arith, length-take n payload)
recv_rest-length chunk_of (recv_error ∷ es) n payload p rest e =
    ground (arith, length-take n payload)
recv_rest-length chunk_of (datagram d ∷ es) n payload p rest e =
    elim (Received-cases (chunk_of (into_buffer d))) [
      | inl (chunk, q) ↦ ground (
        arith,
        q,
        length-take n payload,
        recv_rest-length chunk_of es n (payload ++ chunk) p rest,
      )
      | inr (inl (x, q)) ↦ ground (arith, q, length-take n payload)
      | inr (inr q) ↦ ground (arith, q, length-take n payload)
    ]

recv_with-length :
    (chunk_of : List ℕ → Received (List ℕ)) (es : List Recv) (m : RawMessage) (rest : List Recv)
    → recv_with chunk_of es ≡ ok (m, rest)
    → (d : List ℕ) × (chunk : List ℕ) × (es' : List Recv) × (es ≡ datagram d ∷ es')
      × (first_header (into_buffer d) ≡ some (m.msg_type, length m.payload, chunk))
unfolding recv_with
recv_with-length chunk_of [] m rest e = cc
recv_with-length chunk_of (recv_error ∷ es) m rest e = cc
recv_with-length chunk_of (datagram d ∷ es) m rest e =
    elim (Option-cases (first_header (into_buffer d))) [
      | inl q ↦ absurd (ground (arith, q))
      | inr ((t, n, chunk), q) ↦ elim (Received-cases (recv_rest chunk_of es n chunk)) [
        | inl ((p, r), h) ↦
            (d, chunk, es, refl, ground (arith, q, h, recv_rest-length chunk_of es n chunk p r))
        | inr (inl (x, h)) ↦ absurd (ground (arith, q, h))
        | inr (inr h) ↦ absurd (ground (arith, q, h))
      ]
    ]

-- On any datagrams at all, a message that the debug link accepts began with a first packet that
-- passes the magic check and announces the type and exactly the length of what is returned.
pub recv_message_announced :
    (es : List Recv) (m : RawMessage) (rest : List Recv)
    → recv_message es ≡ ok (m, rest)
    → (d : List ℕ) × (chunk : List ℕ) × (es' : List Recv) × (es ≡ datagram d ∷ es')
      × (first_header (into_buffer d) ≡ some (m.msg_type, length m.payload, chunk))
unfolding recv_message
recv_message_announced es m rest e = recv_with-length checked_chunk es m rest e

checked_chunk-ne-panicked : (d : List ℕ) → checked_chunk d ≢ panicked
unfolding checked_chunk
checked_chunk-ne-panicked [] = λ e. cc
checked_chunk-ne-panicked (b ∷ d) = ground arith

recv_rest-ne-panicked :
    (es : List Recv) (n : ℕ) (payload : List ℕ) → recv_rest checked_chunk es n payload ≢ panicked
unfolding recv_rest
recv_rest-ne-panicked [] n payload = ground arith
recv_rest-ne-panicked (recv_error ∷ es) n payload = ground arith
recv_rest-ne-panicked (datagram d ∷ es) n payload =
    elim (Received-cases (checked_chunk (into_buffer d))) [
      | inl (chunk, q) ↦ ground (arith, q, recv_rest-ne-panicked es n (payload ++ chunk))
      | inr (inl (x, q)) ↦ ground (arith, q)
      | inr (inr q) ↦ absurd (checked_chunk-ne-panicked _ q)
    ]

-- No datagrams, however malformed, make the debug link's receiver panic.
pub recv_message-ne-panicked : (es : List Recv) → recv_message es ≢ panicked
unfolding recv_message recv_with
recv_message-ne-panicked [] = λ e. cc
recv_message-ne-panicked (recv_error ∷ es) = λ e. cc
recv_message-ne-panicked (datagram d ∷ es) = elim (Option-cases (first_header (into_buffer d))) [
  | inl q ↦ ground (arith, q)
  | inr ((t, n, chunk), q) ↦ ground (arith, q, recv_rest-ne-panicked es n chunk)
]

-- When a first packet announces more than it carries and an empty datagram follows, the debug link
-- answers with an error, while the wire client panics: it slices from 1 without a check on the size.
pub recv_response_panics :
    (d : List ℕ) (t n : ℕ) (chunk : List ℕ) (es : List Recv)
    → first_header (into_buffer d) ≡ some (t, n, chunk)
    → length chunk < n
    → (recv_message (datagram d ∷ datagram [] ∷ es) ≡ err invalid_continuation)
      × (recv_response (datagram d ∷ datagram [] ∷ es) ≡ panicked)
unfolding recv_message recv_response recv_with recv_rest checked_chunk unchecked_chunk
recv_response_panics d t n chunk es q wanted = (ground (arith, q), ground (arith, q))
