-- ===== src/Protocol/Client/Layout.antt =====
-- crates/protocol/src/trezor_debug.rs: `get_layout`.
use hwwctl.Prelude.{
  suc, ◌≤◌, ◌<◌, ◌≡◌, refl, List, [], ◌∷◌, ◌++◌, map, length, length-append, All, arith,
}
use hwwctl.Protocol.Varint.{encode_varint}
use hwwctl.Protocol.Varint.Laws.{encode_varint_shape}
use hwwctl.Protocol.Frame.{Recv, datagram, frame_message, u32_mod}
use hwwctl.Protocol.Frame.RoundTrip.{recv_message-frame_message}
use hwwctl.Protocol.Field.{encode_field_varint, encode_field_string, varint_tag, string_tag}
use hwwctl.Protocol.Field.Message.{
  Field, varint_field, string_field, encode_field, encode_fields, IsField, all_strings,
}
use hwwctl.Protocol.Field.Tokens.{parse_tokens_field-encode_fields}
use hwwctl.Bits.{or_two}
use hwwctl.Protocol.Client.{
  Socket, answered, called, layout_of, receive_layout, after_send, get_layout, send_message,
}
use hwwctl.Protocol.Client.Confirm.{Sends, send_packets-Sends}

-- A field takes a byte at least.
length-encode_field : (f : Field) → IsField f → 1 ≤ length (encode_field f)
unfolding encode_field_varint encode_field_string
length-encode_field (varint_field n v) (hn, hv) = omega (
  arith,
  length-append (encode_varint (varint_tag n)) (encode_varint v),
  (encode_varint_shape (varint_tag n) (omega arith)).1,
)
length-encode_field (string_field n s) hn = omega (
  arith,
  length-append (encode_varint (string_tag n)) (encode_varint (length s) ++ s),
  (encode_varint_shape (string_tag n) (omega (arith, or_two n))).1,
)

length-encode_fields : (fs : List Field) → All IsField fs → length fs ≤ length (encode_fields fs)
length-encode_fields [] h = omega arith
length-encode_fields (f ∷ fs) (one, h) = omega (
  arith,
  length-append (encode_field f) (encode_fields fs),
  length-encode_field f one,
  length-encode_fields fs h,
)

-- Over a socket that sends everything, a device that answers the request for its state with a message
-- built from varint and string fields has all its tokens read: the strings of field 13 that are UTF-8, in
-- order. What the socket delivers after the answer stays there.
pub get_layout_lem :
    (fs : List Field) (rest : List Recv) (s : Socket)
    → Sends s
    → All IsField fs
    → length (encode_fields fs) < u32_mod
    → s.inbox ≡ map datagram (frame_message 102 (encode_fields fs)) ++ rest
    → get_layout s ≡ (
      answered (all_strings 13 fs),
      record s { inbox = rest; outbox = s.outbox ++ frame_message 101 (encode_field_varint 3 0) },
    )
unfolding get_layout after_send receive_layout layout_of send_message called
get_layout_lem fs rest s h hf short e =
    let tokens =
      parse_tokens_field-encode_fields fs (suc (length (encode_fields fs))) hf (omega arith)
        (omega (arith, length-encode_fields fs hf)) in
    rw
      (
        send_packets-Sends (frame_message 101 (encode_field_varint 3 0)) s h,
        e,
        recv_message-frame_message 102 (encode_fields fs) rest (omega arith) short,
        receive_layout,
      )
      (rw tokens refl)
