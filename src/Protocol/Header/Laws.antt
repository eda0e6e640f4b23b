-- ===== src/Protocol/Header/Laws.antt =====
-- crates/protocol/src/trezor.rs: the header decoder against the framing of trezor_debug.rs.
use hwwctl.Prelude.{
  ℕ, ◌<◌, ◌≤◌, ◌≡◌, refl, List, [], ◌∷◌, length, Bool, true, false, not, ◌&&◌, ◌==◌, arith,
}
use hwwctl.Format.{decimal, hex_dump}
use hwwctl.Protocol.Frame.{continuation_packet, first_packet, u32_mod}
use hwwctl.Protocol.Frame.Packets.{from_be16-be16, from_be32-be32}
use hwwctl.Protocol.Header.{
  message_type_name, DecodedMessage, Decoded, ok, err, decode_header, decode_packet,
  is_continuation,
}

-- The first packet of every message, of a type below 2 ^ 16 and a payload of less than 2 ^ 32 bytes,
-- decodes to the name of its type, with the type and the length of
-- the payload as its fields and the packet as its hex dump.
pub decode_packet-first_packet :
    (t : ℕ) (p : List ℕ)
    → t < 65536
    → length p < u32_mod
    → decode_packet (first_packet t p)
      ≡ ok (record {
        wallet_type = "Trezor";
        message_type = message_type_name t;
        fields = ("type_id", decimal t) ∷ ("payload_len", decimal (length p)) ∷ [];
        raw_hex = hex_dump (first_packet t p);
      })
unfolding decode_packet decode_header first_packet
decode_packet-first_packet t p fits short =
    ground (arith, from_be16-be16 t fits, from_be32-be32 (length p) short)

abbrev pub is_ok : Decoded → Bool
is_ok (ok m) = true
is_ok (err e) = false

-- A report of at least nine bytes that starts with `?` is either a first report that decodes, or a
-- continuation, and never both.
pub decode_packet-is_continuation :
    (b1 b2 b3 b4 b5 b6 b7 b8 : ℕ) (rest : List ℕ)
    → let report = 0x3f ∷ b1 ∷ b2 ∷ b3 ∷ b4 ∷ b5 ∷ b6 ∷ b7 ∷ b8 ∷ rest in
      is_ok (decode_packet report) ≡ not (is_continuation report)
unfolding decode_packet decode_header is_continuation
decode_packet-is_continuation b1 b2 b3 b4 b5 b6 b7 b8 rest = ground arith

-- A report that decodes has at least nine bytes and is no continuation.
pub decode_packet_needs :
    (report : List ℕ) (m : DecodedMessage)
    → decode_packet report ≡ ok m
    → (9 ≤ length report) × (is_continuation report ≡ false)
unfolding decode_packet decode_header is_continuation
decode_packet_needs (b0 ∷ b1 ∷ b2 ∷ b3 ∷ b4 ∷ b5 ∷ b6 ∷ b7 ∷ b8 ∷ rest) m e = ground arith
decode_packet_needs short m e = ground arith

-- A continuation packet is recognised as one exactly when its payload does not start with the two
-- magic bytes; a payload that does is decoded as the start of another message.
pub is_continuation-continuation_packet :
    (c d : ℕ) (chunk : List ℕ)
    → is_continuation (continuation_packet (c ∷ d ∷ chunk)) ≡ not (c == 0x23 && d == 0x23)
unfolding is_continuation continuation_packet
is_continuation-continuation_packet c d chunk = refl
