-- ===== src/Bridge/Reconnect.antt =====
-- crates/bridge/src/generic.rs: the relays of the two Unix transports, which connect at the first report
-- and again when the emulator has gone. Each connection has a task that reads from the emulator; the one that
-- is kept here is that of the last connection, and the channels to the device stay open.
use hwwctl.Prelude.{
  ℕ, suc, ◌≡◌, refl, none, List, [], ◌∷◌, ◌++◌, append_assoc, append-nil, ap, sym, Bool, true,
  false, if◌then◌else◌, not, arith, ◌∙◌,
}
use hwwctl.Bridge.{host_to_device, device_to_host}
use hwwctl.Bridge.Relay.{InterceptedMessage, intercepted, strip_report_id}

pub data Phase : Type 0 where
  waiting connected returned : Phase

-- `reader` tells whether the task of the last connection still runs; `sent` has the number of the
-- connection with each payload.
pub record Relay : Type 0 where
  pub phase : Phase
  pub reader : Bool
  pub running : Bool
  pub connection : ℕ
  pub recorded : List InterceptedMessage
  pub sent : List (ℕ × List ℕ)
  pub to_device : List (List ℕ)

-- A report from the host, with what connecting and writing would come to, and whether the reading task of
-- a connection made for it lives to the first look at it; data from the emulator, as the transport hands
-- it on; the end of the reading task; the report channel closed; the shutdown.
pub data Event : Type 0 where
  report : Bool → Bool → Bool → List ℕ → Event
  received : List ℕ → Event
  read_ended channel_closed shut_down : Event

abbrev record_report : List ℕ → Relay → Relay
record_report bytes r = record r {
  recorded = r.recorded ++ (intercepted host_to_device bytes none ∷ []);
}

abbrev send_payload : List ℕ → Relay → Relay
send_payload bytes r = record r { sent = r.sent ++ ((r.connection, strip_report_id bytes) ∷ []) }

-- The first report: the connection is made for it. Where its write fails, the relay waits for the next.
unfoldable pub first_report : Bool → Bool → Bool → List ℕ → Relay → Relay
first_report connects writes stays bytes r =
    let r' = record_report bytes (record r { connection = suc r.connection }) in
    if not connects
    then record r { running = false; phase = returned }
    else if not writes
    then r'
    else record (send_payload bytes r') {
      phase = if stays then connected else waiting;
      reader = stays;
    }

-- The reports after it. Whether the reading task has ended is looked at only after a report.
unfoldable pub next_report : Bool → List ℕ → Relay → Relay
next_report writes bytes r =
    let r' = record_report bytes r in
    if not writes
    then record r' { phase = waiting }
    else if r.reader
    then send_payload bytes r'
    else record (send_payload bytes r') { phase = waiting }

unfoldable pub on_report : Bool → Bool → Bool → List ℕ → Relay → Relay
on_report connects writes stays bytes r = elim r.phase [
  | waiting ↦ first_report connects writes stays bytes r
  | connected ↦ next_report writes bytes r
  | returned ↦ r
]

-- The reading task goes on when the relay has returned.
unfoldable pub relay_step : Event → Relay → Relay
relay_step (report connects writes stays bytes) r = on_report connects writes stays bytes r
relay_step (received bytes) r =
    if r.reader
    then record r {
      recorded = r.recorded ++ (intercepted device_to_host bytes none ∷ []);
      to_device = r.to_device ++ (bytes ∷ []);
    }
    else r
relay_step read_ended r = record r { reader = false }
relay_step channel_closed r = record r { phase = returned }
relay_step shut_down r = record r { phase = returned }

unfoldable pub relay : List Event → Relay → Relay
relay [] r = r
relay (e ∷ es) r = relay es (relay_step e r)

relay_step_returned :
    (e : Event) (r : Relay)
    → r.phase ≡ returned
    → ((relay_step e r).sent ≡ r.sent)
      × ((relay_step e r).connection ≡ r.connection)
      × ((relay_step e r).phase ≡ returned)
unfolding relay_step on_report
relay_step_returned (report connects writes stays bytes) r gone = ground (arith, gone)
relay_step_returned (received bytes) r gone = ground (arith, gone)
relay_step_returned read_ended r gone = (refl, refl, gone)
relay_step_returned channel_closed r gone = (refl, refl, refl)
relay_step_returned shut_down r gone = (refl, refl, refl)

-- A relay that has returned sends nothing more to the emulator and does not connect again, whatever comes.
pub relay-returned :
    (es : List Event) (r : Relay)
    → r.phase ≡ returned
    → ((relay es r).sent ≡ r.sent)
      × ((relay es r).connection ≡ r.connection)
      × ((relay es r).phase ≡ returned)
unfolding relay
relay-returned [] r gone = (refl, refl, gone)
relay-returned (e ∷ es) r gone =
    let (s, c, p) = relay_step_returned e r gone in
    let (s', c', p') = relay-returned es (relay_step e r) p in (s' ∙ s, c' ∙ c, p')

-- When the reading task of a connection has ended, the next report still goes to that connection, or to
-- none where the write fails, and only the report after it to a new one. Both are recorded.
pub relay-read_ended :
    (connects writes stays : Bool) (b b' : List ℕ) (r : Relay)
    → r.phase ≡ connected
    → let r' =
        relay (read_ended ∷ report connects writes stays b ∷ report true true stays b' ∷ []) r in
      (r'.sent
        ≡ r.sent
          ++ (if writes then (r.connection, strip_report_id b) ∷ [] else [])
          ++ ((suc r.connection, strip_report_id b') ∷ []))
      × (r'.recorded
          ≡ r.recorded
            ++ (intercepted host_to_device b none ∷ intercepted host_to_device b' none ∷ []))
unfolding relay relay_step on_report next_report first_report
relay-read_ended connects true stays b b' r up = rw up (refl, append_assoc r.recorded _ _)
relay-read_ended connects false stays b b' r up = rw up (
  ap (λ s. s ++ ((suc r.connection, strip_report_id b') ∷ [])) (sym (append-nil r.sent)),
  append_assoc r.recorded _ _,
)
