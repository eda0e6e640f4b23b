-- ===== src/Protocol/Client.antt =====
-- crates/protocol/src/trezor_debug.rs: the calls of `TrezorDebugLink` and `TrezorWireClient`. A client is
-- its connected socket: what the socket still delivers, where the end of the list is the silence in which
-- every timeout runs out, and what was sent on it, the oldest packet first.
pub mod Confirm
pub mod Layout
use hwwctl.Prelude.{
  ℕ, zero, suc, ◌+◌, ◌==◌, List, [], ◌∷◌, ◌++◌, length, if◌then◌else◌, Text, codes, Bool, true,
  false, Option, none, some,
}
use hwwctl.Protocol.Frame.{
  Recv, WireError, Received, RawMessage, frame_message, recv_message, recv_response,
}
use hwwctl.Protocol.Field.{
  Outcome, encode_field_varint, encode_field_string, extract_failure_message, parse_tokens_field,
}

-- The socket refuses to send the packets of these numbers.
pub record Socket : Type 0 where
  pub inbox : List Recv
  pub outbox : List (List ℕ)
  pub refuses : ℕ → Bool

pub data CallError : Type 0 where
  send_failed too_many_requests : CallError
  receive_failed : WireError → CallError
  unexpected_type : ℕ → CallError
  device_failure : Text → CallError

-- `stuck` is a field reader that does not end.
pub data Called (A : Type 0) : Type 0 where
  answered : A → Called A
  failed : CallError → Called A
  panicked stuck : Called A

pub data DebugButton : Type 0 where
  no yes info : DebugButton

unfoldable pub button_number : DebugButton → ℕ
button_number no = 0
button_number yes = 1
button_number info = 2

pub data SwipeDirection : Type 0 where
  up down left right : SwipeDirection

unfoldable pub direction_number : SwipeDirection → ℕ
direction_number up = 0
direction_number down = 1
direction_number left = 2
direction_number right = 3

-- The loop that sends the packets of a message: the first one refused ends it.
unfoldable pub send_packets : List (List ℕ) → Socket → Called Unit × Socket
send_packets [] s = (answered tt, s)
send_packets (p ∷ ps) s =
    let rest = send_packets ps (record s { outbox = s.outbox ++ (p ∷ []) }) in
    if s.refuses (length s.outbox) then (failed send_failed, s) else rest

unfoldable pub send_message : ℕ → List ℕ → Socket → Called Unit × Socket
send_message msg_type payload s = send_packets (frame_message msg_type payload) s

unfoldable pub press_button : DebugButton → Socket → Called Unit × Socket
press_button button s = send_message 100 (encode_field_varint 1 (button_number button)) s

unfoldable pub swipe : SwipeDirection → Socket → Called Unit × Socket
swipe direction s = send_message 100 (encode_field_varint 2 (direction_number direction)) s

unfoldable pub input_text : Text → Socket → Called Unit × Socket
input_text text s = send_message 100 (encode_field_string 3 text) s

unfoldable pub called : {A : Type 0} → Outcome A → Called A
called (Outcome.done a) = answered a
called Outcome.panicked = panicked
called Outcome.stuck = stuck

-- The check of the response's type, and its tokens. A payload of this length is read in one round for each
-- of its bytes at most, but for those that are never read to the end.
unfoldable pub layout_of : RawMessage → Called (List (List ℕ))
layout_of m =
    if m.msg_type == 102
    then called (parse_tokens_field (suc (length m.payload)) m.payload)
    else failed (unexpected_type m.msg_type)

unfoldable pub receive_layout : Socket → Called (List (List ℕ)) × Socket
receive_layout s = elim (recv_message s.inbox) [
  | Received.ok (m, rest) ↦ (layout_of m, record s { inbox = rest })
  | Received.err e ↦ (failed (receive_failed e), record s { inbox = [] })
  | Received.panicked ↦ (panicked, record s { inbox = [] })
]

-- What follows a message that was sent.
unfoldable pub after_send :
    {A : Type 0} → (Socket → Called A × Socket) → Called Unit × Socket → Called A × Socket
after_send k (answered _, s) = k s
after_send k (failed e, s) = (failed e, s)
after_send k (panicked, s) = (panicked, s)
after_send k (stuck, s) = (stuck, s)

unfoldable pub get_layout : Socket → Called (List (List ℕ)) × Socket
get_layout s = after_send receive_layout (send_message 101 (encode_field_varint 3 0) s)

-- A call on the wire port leaves its socket, and that of the debug link.
pub record Exchange : Type 0 where
  pub result : Called (List ℕ)
  pub wire : Socket
  pub debug_link : Option Socket

-- `let _ = dl.press_button(DebugButton::Yes).await`
unfoldable pub confirm : Option Socket → Option Socket
confirm none = none
confirm (some dl) = some (press_button yes dl).1

unfoldable pub failure : {A : Type 0} → Called Text → Called A
failure (answered msg) = failed (device_failure msg)
failure (failed e) = failed e
failure panicked = panicked
failure stuck = stuck

-- What follows the acknowledgement, with `next` for the loop's further rounds.
unfoldable pub confirmed :
    (Socket → Option Socket → Exchange) → Option Socket → Called Unit × Socket → Exchange
confirmed next dl (answered _, s) = next s (confirm dl)
confirmed next dl (failed e, s) = record { result = failed e; wire = s; debug_link = dl }
confirmed next dl (panicked, s) = record { result = panicked; wire = s; debug_link = dl }
confirmed next dl (stuck, s) = record { result = stuck; wire = s; debug_link = dl }

-- The match on the type of a response.
unfoldable pub respond :
    (Socket → Option Socket → Exchange) → RawMessage → Socket → Option Socket → Exchange
respond next m s dl =
    let again = confirmed next dl (send_message 27 [] s) in
    if m.msg_type == 26
    then again
    else if m.msg_type == 3
    then record {
      result = failure (called (extract_failure_message (suc (length m.payload)) m.payload));
      wire = s;
      debug_link = dl;
    }
    else record { result = answered m.payload; wire = s; debug_link = dl }

-- One round of `recv_with_confirm`
unfoldable pub confirm_round :
    (Socket → Option Socket → Exchange) → Socket → Option Socket → Exchange
confirm_round next s dl = elim (recv_response s.inbox) [
  | Received.ok (m, rest) ↦ respond next m (record s { inbox = rest }) dl
  | Received.err e ↦ record {
    result = failed (receive_failed e);
    wire = record s { inbox = [] };
    debug_link = dl;
  }
  | Received.panicked ↦ record {
    result = panicked;
    wire = record s { inbox = [] };
    debug_link = dl;
  }
]

-- The loop of `recv_with_confirm`, with the rounds that are left.
unfoldable pub confirm_loop : ℕ → Socket → Option Socket → Exchange
confirm_loop zero s dl = record { result = failed too_many_requests; wire = s; debug_link = dl }
confirm_loop (suc rounds) s dl = confirm_round (confirm_loop rounds) s dl

unfoldable pub recv_with_confirm : Socket → Option Socket → Exchange
recv_with_confirm s dl = confirm_loop 10 s dl

-- A request on the wire port: the sends, then the responses.
unfoldable pub request : Option Socket → Called Unit × Socket → Exchange
request dl (answered _, s) = recv_with_confirm s dl
request dl (failed e, s) = record { result = failed e; wire = s; debug_link = dl }
request dl (panicked, s) = record { result = panicked; wire = s; debug_link = dl }
request dl (stuck, s) = record { result = stuck; wire = s; debug_link = dl }

unfoldable pub path_fields : List ℕ → List ℕ
path_fields [] = []
path_fields (component ∷ path) = encode_field_varint 1 component ++ path_fields path

unfoldable pub get_public_key : List ℕ → Socket → Option Socket → Exchange
get_public_key path s dl =
    request dl (send_message 11 (path_fields path ++ encode_field_string 4 (codes "Bitcoin")) s)

abbrev label_field : Text → List ℕ
label_field [] = []
label_field (c ∷ label) = encode_field_string 6 (c ∷ label)

unfoldable pub load_device_payload : Text → Text → List ℕ
load_device_payload mnemonic label = encode_field_string 1 mnemonic ++ label_field label

unfoldable pub load_device : Text → Text → Socket → Option Socket → Exchange
load_device mnemonic label s dl =
    request dl (send_message 13 (load_device_payload mnemonic label) s)

-- The receiving half of `send_and_recv`: it gives the payload of whatever message comes.
unfoldable pub receive_any : Socket → Called (List ℕ) × Socket
receive_any s = elim (recv_response s.inbox) [
  | Received.ok (m, rest) ↦ (answered m.payload, record s { inbox = rest })
  | Received.err e ↦ (failed (receive_failed e), record s { inbox = [] })
  | Received.panicked ↦ (panicked, record s { inbox = [] })
]

unfoldable pub send_and_recv : ℕ → List ℕ → Socket → Called (List ℕ) × Socket
send_and_recv msg_type payload s = after_send receive_any (send_message msg_type payload s)

unfoldable pub initialize : Socket → Called (List ℕ) × Socket
initialize s = send_and_recv 0 [] s

unfoldable pub ping : Socket → Called (List ℕ) × Socket
ping s = send_and_recv 1 [] s

unfoldable pub get_features : Socket → Called (List ℕ) × Socket
get_features s = send_and_recv 55 [] s
