-- ===== src/Protocol/Runs.antt =====
-- Runs of the protocol crate's code at concrete inputs.
use hwwctl.Prelude.{
  ℕ, zero, suc, ◌<◌, ◌≡◌, refl, List, [], ◌∷◌, ◌++◌, map, length, replicate, All, some, arith,
  codes,
}
use hwwctl.Prelude.Order.{lt_wf}
use hwwctl.Protocol.Varint.{encode_varint_loop, IsByte, encode_varint, decode_varint}
use hwwctl.Protocol.Varint.Laws.{decode_varint-encode_varint}
use hwwctl.Protocol.Frame.{
  frame_message, first_header, into_buffer, datagram, recv_message, recv_response, ok, recv_with,
  recv_rest,
}
use hwwctl.Protocol.Frame.RoundTrip.{recv_message-frame_message, recv_response-frame_message}
use hwwctl.Protocol.Field.{
  done, encode_field_varint, encode_field_string, extract_string_field, checked_text,
}
use hwwctl.Protocol.Field.Cursor.{slice_max}
use hwwctl.Protocol.Field.Message.{
  Field, varint_field, string_field, encode_fields, IsField, first_string,
}
use hwwctl.Protocol.Field.Extract.{extract_string_field-encode_fields}
use hwwctl.Protocol.Field.Overflow.{looping, endless}

decode_varint-encode_varint_example :
    decode_varint (encode_varint 300 ++ (7 ∷ [])) ≡ (300, length (encode_varint 300))
decode_varint-encode_varint_example = decode_varint-encode_varint 300 (7 ∷ []) (omega arith)

-- A payload that takes two packets.
abbrev long : List ℕ
long = replicate 60 0x23

recv_message-frame_message_example :
    recv_message (map datagram (frame_message 55 long) ++ (datagram [] ∷ []))
    ≡ ok (record { msg_type = 55; payload = long }, datagram [] ∷ [])
recv_message-frame_message_example =
    recv_message-frame_message 55 long (datagram [] ∷ []) (omega arith) (omega arith)

recv_response-frame_message_example :
    recv_response (map datagram (frame_message 55 long) ++ [])
    ≡ ok (record { msg_type = 55; payload = long }, [])
recv_response-frame_message_example =
    recv_response-frame_message 55 long [] (omega arith) (omega arith)

bytes_ok : (n : ℕ) → All IsByte (replicate n 0x23)
bytes_ok zero = tt
bytes_ok (suc n) = (omega arith, bytes_ok n)

-- The first packet of an empty message.
abbrev lone : List ℕ
lone = 0x3f ∷ 0x23 ∷ 0x23 ∷ 0 ∷ 2 ∷ 0 ∷ 0 ∷ 0 ∷ 0 ∷ []

lone_run : recv_message (datagram lone ∷ []) ≡ ok (record { msg_type = 2; payload = [] }, [])
unfolding recv_message recv_with recv_rest first_header
lone_run = refl

-- A first packet that announces 100 bytes and carries none.
abbrev short_packet : List ℕ
short_packet = 0x3f ∷ 0x23 ∷ 0x23 ∷ 0 ∷ 2 ∷ 0 ∷ 0 ∷ 0 ∷ 100 ∷ []

short_packet_header : first_header (into_buffer short_packet) ≡ some (2, 100, [])
unfolding first_header
short_packet_header = refl

-- Features with a version, a label and a token.
abbrev message : List Field
message = varint_field 2 1 ∷ string_field 10 (codes "a") ∷ string_field 13 (codes "b") ∷ []

message_ok : All IsField message
message_ok = ((omega arith, omega arith), (omega arith, (omega arith, tt)))

message_short : length (encode_fields message) < slice_max
unfolding encode_field_varint encode_field_string encode_varint encode_varint_loop lt_wf
message_short = omega arith

extract_string_field-encode_fields_example :
    extract_string_field 4 (encode_fields message) 10
    ≡ done (checked_text (first_string 10 message))
extract_string_field-encode_fields_example =
    extract_string_field-encode_fields message 10 4 message_ok message_short (omega arith)

-- A field of two bytes that is cut off after one.
abbrev cut : List ℕ
cut = 0x12 ∷ 2 ∷ 120 ∷ []

looping_short : length (looping 1 []) < slice_max
unfolding encode_varint encode_varint_loop lt_wf
looping_short = omega arith

endless_short : length (endless 1 []) < slice_max
unfolding encode_varint encode_varint_loop lt_wf
endless_short = omega arith
