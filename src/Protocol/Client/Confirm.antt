-- ===== src/Protocol/Client/Confirm.antt =====
-- crates/protocol/src/trezor_debug.rs: how the wire client gets through button requests.
use hwwctl.Prelude.{
  ℕ, zero, suc, ◌+◌, ◌-◌, ◌<◌, ◌≡◌, ◌≢◌, refl, ap, ◌∙◌, List, [], ◌∷◌, ◌++◌, map, length, All,
  append_assoc, append-nil, Text, false, Option, some, arith,
}
use hwwctl.Protocol.Frame.{Recv, datagram, frame_message, u32_mod}
use hwwctl.Protocol.Frame.RoundTrip.{recv_response-frame_message}
use hwwctl.Protocol.Field.{encode_field_varint}
use hwwctl.Protocol.Client.{
  Socket, answered, failed, too_many_requests, Exchange, send_packets, send_message, press_button,
  button_number, confirm, confirmed, respond, confirm_round, confirm_loop, recv_with_confirm,
  request, load_device, load_device_payload,
}

-- A socket that sends everything.
abbrev pub Sends : Socket → Type 0
Sends s = (n : ℕ) → s.refuses n ≡ false

pub send_packets-Sends :
    (ps : List (List ℕ)) (s : Socket)
    → Sends s
    → send_packets ps s ≡ (answered tt, record s { outbox = s.outbox ++ ps })
unfolding send_packets
send_packets-Sends [] s h = rw (append-nil s.outbox) refl
send_packets-Sends (p ∷ ps) s h =
    rw
      (
        h (length s.outbox),
        send_packets-Sends ps (record s { outbox = s.outbox ++ (p ∷ []) }) h,
        append_assoc s.outbox (p ∷ []) ps,
      )
      refl

-- Button requests with these payloads, and what the socket delivers after them.
abbrev pub button_requests : List (List ℕ) → List Recv → List Recv
button_requests [] rest = rest
button_requests (p ∷ ps) rest = map datagram (frame_message 26 p) ++ button_requests ps rest

-- So many copies of a message's packets.
abbrev pub copies : ℕ → List (List ℕ) → List (List ℕ)
copies zero ps = []
copies (suc n) ps = ps ++ copies n ps

abbrev pub acks : ℕ → List (List ℕ)
acks n = copies n (frame_message 27 [])

abbrev pub presses : ℕ → List (List ℕ)
presses n = copies n (frame_message 100 (encode_field_varint 1 1))

abbrev pub pressed : ℕ → Option Socket → Option Socket
pressed zero dl = dl
pressed (suc n) dl = pressed n (confirm dl)

abbrev pub IsShort : List ℕ → Type 0
IsShort p = length p < u32_mod

-- A button request takes one round: it is acknowledged and confirmed.
confirm_round-request :
    (next : Socket → Option Socket → Exchange) (p : List ℕ) (rest : List Recv) (s : Socket)
    (dl : Option Socket)
    → Sends s
    → IsShort p
    → s.inbox ≡ map datagram (frame_message 26 p) ++ rest
    → confirm_round next s dl
      ≡ next (record s { inbox = rest; outbox = s.outbox ++ frame_message 27 [] }) (confirm dl)
unfolding confirm_round respond confirmed send_message
confirm_round-request next p rest s dl h short e =
    rw (e, recv_response-frame_message 26 p rest (omega arith) short, confirm_round)
      (rw (send_packets-Sends (frame_message 27 []) (record s { inbox = rest }) h) refl)

-- The rounds for these requests, and some more.
abbrev rounds_for : List (List ℕ) → ℕ → ℕ
rounds_for [] more = more
rounds_for (p ∷ ps) more = suc (rounds_for ps more)

rounds_for-length : (ps : List (List ℕ)) (more : ℕ) → rounds_for ps more ≡ length ps + more
rounds_for-length [] more = omega arith
rounds_for-length (p ∷ ps) more = omega (arith, rounds_for-length ps more)

confirm_loop-requests :
    (more : ℕ) (ps : List (List ℕ)) (rest : List Recv) (s : Socket) (dl : Option Socket)
    → Sends s
    → All IsShort ps
    → s.inbox ≡ button_requests ps rest
    → confirm_loop (rounds_for ps more) s dl
      ≡ confirm_loop more
          (record s { inbox = rest; outbox = s.outbox ++ acks (length ps) })
          (pressed (length ps) dl)
unfolding confirm_loop
confirm_loop-requests more [] rest s dl h short e = rw (append-nil s.outbox, ← e) refl
confirm_loop-requests more (p ∷ ps) rest s dl h (one, short) e =
    confirm_round-request (confirm_loop (rounds_for ps more)) p (button_requests ps rest) s dl h one
      e
    ∙ confirm_loop-requests more ps rest
        (record s { inbox = button_requests ps rest; outbox = s.outbox ++ frame_message 27 [] })
        (confirm dl) h short refl
    ∙ ap
        (λ o.
          confirm_loop more (record s { inbox = rest; outbox = o })
            (pressed (length ps) (confirm dl)))
        (append_assoc s.outbox (frame_message 27 []) (acks (length ps)))

-- The last message, which is no button request and no failure.
confirm_round-answer :
    (next : Socket → Option Socket → Exchange) (t : ℕ) (p : List ℕ) (rest : List Recv) (s : Socket)
    (dl : Option Socket)
    → t < 65536
    → IsShort p
    → t ≢ 26
    → t ≢ 3
    → s.inbox ≡ map datagram (frame_message t p) ++ rest
    → confirm_round next s dl
      ≡ record { result = answered p; wire = record s { inbox = rest }; debug_link = dl }
unfolding confirm_round respond
confirm_round-answer next t p rest s dl fits short no_request no_failure e =
    rw (e, recv_response-frame_message t p rest fits short, confirm_round) (ground arith)

-- A device that asks for up to nine confirmations before it answers, with a message that is neither a
-- button request nor a failure, gets through: the client gives the answer's payload, has sent one
-- acknowledgement and one press for each request, and leaves what the socket delivers after the answer.
pub recv_with_confirm_lem :
    (ps : List (List ℕ)) (t : ℕ) (p : List ℕ) (rest : List Recv) (s : Socket) (dl : Option Socket)
    → Sends s
    → length ps < 10
    → All IsShort ps
    → t < 65536
    → IsShort p
    → t ≢ 26
    → t ≢ 3
    → s.inbox ≡ button_requests ps (map datagram (frame_message t p) ++ rest)
    → recv_with_confirm s dl ≡ record {
      result = answered p;
      wire = record s { inbox = rest; outbox = s.outbox ++ acks (length ps) };
      debug_link = pressed (length ps) dl;
    }
unfolding recv_with_confirm confirm_loop
recv_with_confirm_lem ps t p rest s dl h few short fits one no_request no_failure e =
    let more = 9 - length ps in
    let answer = map datagram (frame_message t p) ++ rest in
    let enough : 10 ≡ rounds_for ps (suc more) = omega (arith, rounds_for-length ps (suc more)) in
    ap (λ n. confirm_loop n s dl) enough
    ∙ confirm_loop-requests (suc more) ps answer s dl h short e
    ∙ confirm_round-answer (confirm_loop more) t p rest
        (record s { inbox = answer; outbox = s.outbox ++ acks (length ps) })
        (pressed (length ps) dl) fits one no_request no_failure refl

-- A device that asks ten times is given up on, whatever it would send then: all ten requests have been
-- acknowledged and confirmed.
pub recv_with_confirm_gives_up :
    (ps : List (List ℕ)) (rest : List Recv) (s : Socket) (dl : Option Socket)
    → Sends s
    → length ps ≡ 10
    → All IsShort ps
    → s.inbox ≡ button_requests ps rest
    → recv_with_confirm s dl ≡ record {
      result = failed too_many_requests;
      wire = record s { inbox = rest; outbox = s.outbox ++ acks 10 };
      debug_link = pressed 10 dl;
    }
unfolding recv_with_confirm confirm_loop
recv_with_confirm_gives_up ps rest s dl h ten short e =
    let enough : 10 ≡ rounds_for ps 0 = omega (arith, rounds_for-length ps 0) in
    ap (λ n. confirm_loop n s dl) enough
    ∙ confirm_loop-requests 0 ps rest s dl h short e
    ∙ ap
        (λ n.
          confirm_loop 0 (record s { inbox = rest; outbox = s.outbox ++ acks n }) (pressed n dl))
        ten

-- The debug link of a device that is confirmed has sent that many presses.
pub pressed-Sends :
    (n : ℕ) (d : Socket)
    → Sends d
    → pressed n (some d) ≡ some (record d { outbox = d.outbox ++ presses n })
unfolding confirm press_button button_number send_message
pressed-Sends zero d h = rw (append-nil d.outbox) refl
pressed-Sends (suc n) d h =
    rw (send_packets-Sends (frame_message 100 (encode_field_varint 1 1)) d h) (
      pressed-Sends n
        (record d { outbox = d.outbox ++ frame_message 100 (encode_field_varint 1 1) }) h
      ∙ ap (λ o. some (record d { outbox = o }))
          (append_assoc d.outbox (frame_message 100 (encode_field_varint 1 1)) (presses n)))

-- Loading a device over sockets that send everything: a device that asks for up to nine confirmations and
-- then answers with any message that is neither a button request nor a failure, a success or not, makes
-- the call come back with that message's payload. The wire has sent the request and the acknowledgements,
-- the debug link as many presses.
pub load_device_lem :
    (mnemonic label : Text) (ps : List (List ℕ)) (t : ℕ) (p : List ℕ) (rest : List Recv)
    (s d : Socket)
    → Sends s
    → Sends d
    → length ps < 10
    → All IsShort ps
    → t < 65536
    → IsShort p
    → t ≢ 26
    → t ≢ 3
    → s.inbox ≡ button_requests ps (map datagram (frame_message t p) ++ rest)
    → load_device mnemonic label s (some d) ≡ record {
      result = answered p;
      wire = record s {
        inbox = rest;
        outbox =
            s.outbox ++ (frame_message 13 (load_device_payload mnemonic label) ++ acks (length ps));
      };
      debug_link = some (record d { outbox = d.outbox ++ presses (length ps) });
    }
unfolding load_device request send_message
load_device_lem mnemonic label ps t p rest s d h hd few short fits one no_request no_failure e =
    let packets = frame_message 13 (load_device_payload mnemonic label) in
    rw
      (
        send_packets-Sends packets s h,
        ← append_assoc s.outbox packets (acks (length ps)),
        ← pressed-Sends (length ps) d hd,
      )
      (recv_with_confirm_lem ps t p rest (record s { outbox = s.outbox ++ packets }) (some d) h few
        short fits one no_request no_failure e)
