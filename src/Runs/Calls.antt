-- ===== src/Runs/Calls.antt =====
-- Runs of the Trezor clients at concrete inputs.
use hwwctl.Prelude.{ℕ, ◌<◌, ◌≡◌, refl, List, [], ◌∷◌, ◌++◌, map, length, codes, false, some, arith}
use hwwctl.Protocol.Varint.{encode_varint, encode_varint_loop}
use hwwctl.Prelude.Order.{lt_wf}
use hwwctl.Protocol.Frame.{Recv, datagram, frame_message, u32_mod}
use hwwctl.Protocol.Field.{encode_field_varint, encode_field_string}
use hwwctl.Protocol.Field.Message.{Field, string_field, varint_field, encode_fields, all_strings}
use hwwctl.Protocol.Client.{Socket, answered, load_device, load_device_payload, get_layout}
use hwwctl.Protocol.Client.Confirm.{button_requests, acks, presses, load_device_lem}
use hwwctl.Protocol.Client.Layout.{get_layout_lem}

-- A socket that sends everything.
abbrev open_socket : List Recv → Socket
open_socket inbox = record { inbox = inbox; outbox = []; refuses = λ n. false }

-- One button request, and a success.
abbrev one_request : List (List ℕ)
one_request = [] ∷ []

abbrev wire : Socket
wire = open_socket (button_requests one_request (map datagram (frame_message 2 (7 ∷ [])) ++ []))

load_device_lem_example :
    load_device (codes "all all") (codes "x") wire (some (open_socket [])) ≡ record {
      result = answered (7 ∷ []);
      wire = record wire {
        inbox = [];
        outbox = frame_message 13 (load_device_payload (codes "all all") (codes "x")) ++ acks 1;
      };
      debug_link = some (record { inbox = []; outbox = presses 1; refuses = λ n. false });
    }
load_device_lem_example =
    load_device_lem (codes "all all") (codes "x") one_request 2 (7 ∷ []) [] wire (open_socket [])
      (λ n. refl) (λ n. refl) (omega arith) (omega arith, tt) (omega arith) (omega arith)
      (λ e. omega arith) (λ e. omega arith) refl

abbrev ten_requests : List (List ℕ)
ten_requests = [] ∷ [] ∷ [] ∷ [] ∷ [] ∷ [] ∷ [] ∷ [] ∷ [] ∷ [] ∷ []

abbrev screen : List Field
screen = string_field 13 (codes "{}") ∷ varint_field 1 1 ∷ []

abbrev asked : Socket
asked = open_socket (map datagram (frame_message 102 (encode_fields screen)) ++ [])

screen_short : length (encode_fields screen) < u32_mod
unfolding encode_field_varint encode_field_string encode_varint encode_varint_loop lt_wf
screen_short = omega arith

get_layout_lem_example : get_layout asked ≡ (
  answered (all_strings 13 screen),
  record asked { inbox = []; outbox = frame_message 101 (encode_field_varint 3 0) },
)
get_layout_lem_example =
    get_layout_lem screen [] asked (λ n. refl) (omega arith, ((omega arith, omega arith), tt))
      screen_short refl
