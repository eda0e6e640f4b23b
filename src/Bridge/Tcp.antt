-- ===== src/Bridge/Tcp.antt =====
-- crates/bridge/src/generic.rs: the two tasks of the TCP transport. `Generic` is how they come to be,
-- `Uhid` the thread at the other end of their channels.
use hwwctl.Prelude.{
  ℕ, ◌≡◌, refl, sym, ◌∙◌, List, [], ◌∷◌, ◌++◌, append-nil, append_assoc, map, All, Bool, true,
  false, if◌then◌else◌, ◌==◌, ◌≢◌, ◌⊎◌, inl, inr, none, Bool-cases, arith,
}
use hwwctl.Format.{hex_dump}
use hwwctl.Bridge.{Direction, host_to_device, device_to_host}
use hwwctl.Bridge.Relay.{InterceptedMessage, intercepted, strip_report_id, to_emulator, to_host}

-- `reading` and `writing` tell whether the tasks run.
pub record Tasks : Type 0 where
  pub running : Bool
  pub reading : Bool
  pub writing : Bool
  pub recorded : List InterceptedMessage
  pub device : List (List ℕ)
  pub emulator : List (List ℕ)

-- A report read from the emulator in full; the end of its stream; the shutdown; a report from the host,
-- with whether its write comes to a good end; the host's channel closed.
pub data Event : Type 0 where
  read : List ℕ → Event
  read_failed shut_down : Event
  report : Bool → List ℕ → Event
  channel_closed : Event

-- Task A. The flag falls when the emulator has gone.
unfoldable pub from_emulator : List ℕ → Tasks → Tasks
from_emulator bytes t =
    if t.reading
    then record t {
      recorded = t.recorded ++ ((to_host bytes).0 ∷ []);
      device = t.device ++ ((to_host bytes).1 ∷ []);
    }
    else t

-- Task B. A report is recorded before it is written.
unfoldable pub from_host : Bool → List ℕ → Tasks → Tasks
from_host written bytes t =
    let t' : Tasks = record t { recorded = t.recorded ++ ((to_emulator bytes).0 ∷ []) } in
    if t.writing
    then (if written
        then record t' { emulator = t.emulator ++ ((to_emulator bytes).1 ∷ []) }
        else record t' { writing = false })
    else t

unfoldable pub tcp_step : Event → Tasks → Tasks
tcp_step (read bytes) t = from_emulator bytes t
tcp_step read_failed t = if t.reading then record t { running = false; reading = false } else t
tcp_step shut_down t = record t { reading = false }
tcp_step (report written bytes) t = from_host written bytes t
tcp_step channel_closed t = record t { writing = false }

unfoldable pub tcp_relay : List Event → Tasks → Tasks
tcp_relay [] t = t
tcp_relay (e ∷ es) t = tcp_relay es (tcp_step e t)

-- Nothing fails and nothing is closed.
abbrev pub IsCalm : Event → Type 0
IsCalm (read bytes) = Unit
IsCalm (report true bytes) = Unit
IsCalm (report false bytes) = ⊥
IsCalm read_failed = ⊥
IsCalm shut_down = ⊥
IsCalm channel_closed = ⊥

abbrev pub from_host_reports : List Event → List (List ℕ)
from_host_reports [] = []
from_host_reports (report w bytes ∷ es) = bytes ∷ from_host_reports es
from_host_reports (e ∷ es) = from_host_reports es

abbrev pub from_emulator_reports : List Event → List (List ℕ)
from_emulator_reports [] = []
from_emulator_reports (read bytes ∷ es) = bytes ∷ from_emulator_reports es
from_emulator_reports (e ∷ es) = from_emulator_reports es

-- What is to be recorded of a report: all its bytes in hex, and no decoded line.
abbrev recorded_as : Direction → List ℕ → InterceptedMessage
recorded_as direction bytes = record {
  direction = direction;
  raw_hex = hex_dump bytes;
  decoded = none;
}

abbrev pub messages : List Event → List InterceptedMessage
messages [] = []
messages (read bytes ∷ es) = recorded_as device_to_host bytes ∷ messages es
messages (report w bytes ∷ es) = recorded_as host_to_device bytes ∷ messages es
messages (e ∷ es) = messages es

-- Both tasks run.
abbrev pub both : Bool → List InterceptedMessage → List (List ℕ) → List (List ℕ) → Tasks
both running recorded device emulator = record {
  running = running;
  reading = true;
  writing = true;
  recorded = recorded;
  device = device;
  emulator = emulator;
}

both_eq :
    {on : Bool} {r r' : List InterceptedMessage} {d d' e e' : List (List ℕ)}
    → r ≡ r'
    → d ≡ d'
    → e ≡ e'
    → both on r d e ≡ both on r' d' e'
both_eq p q s = cc

-- A report is its report number 0 and its payload; or it has no report number 0 and is its payload.
abbrev pub IsPayload : List ℕ → List ℕ → Type 0
IsPayload bytes payload =
    (bytes ≡ 0 ∷ payload) ⊎ ((bytes ≡ payload) × ((rest : List ℕ) → bytes ≢ 0 ∷ rest))

abbrev pub ArePayloads : List (List ℕ) → List (List ℕ) → Type 0
ArePayloads [] [] = Unit
ArePayloads [] (p ∷ ps) = ⊥
ArePayloads (r ∷ rs) [] = ⊥
ArePayloads (r ∷ rs) (p ∷ ps) = IsPayload r p × ArePayloads rs ps

strip_report_id-IsPayload : (bytes : List ℕ) → IsPayload bytes (strip_report_id bytes)
unfolding strip_report_id
strip_report_id-IsPayload [] = inr (refl, λ rest e. absurd cc)
strip_report_id-IsPayload (b ∷ bytes) = elim (Bool-cases (b == 0)) [
  | inl zero_first ↦ inl (ground (arith, zero_first))
  | inr other ↦ inr (ground (arith, other), λ rest e. ground (arith, other, e))
]

map-ArePayloads : (reports : List (List ℕ)) → ArePayloads reports (map strip_report_id reports)
map-ArePayloads [] = tt
map-ArePayloads (r ∷ rs) = (strip_report_id-IsPayload r, map-ArePayloads rs)

passes :
    (es : List Event) (on : Bool) (r : List InterceptedMessage) (d e : List (List ℕ))
    → All IsCalm es
    → tcp_relay es (both on r d e)
      ≡ both on
          (r ++ messages es)
          (d ++ from_emulator_reports es)
          (e ++ map strip_report_id (from_host_reports es))
unfolding tcp_relay tcp_step from_host from_emulator to_emulator to_host intercepted
passes [] on r d e calm = both_eq (sym (append-nil r)) (sym (append-nil d)) (sym (append-nil e))
passes (read bytes ∷ es) on r d e (c, calm) =
    passes es on _ _ e calm
    ∙ both_eq (append_assoc r (_ ∷ []) (messages es))
        (append_assoc d (bytes ∷ []) (from_emulator_reports es)) refl
passes (report true bytes ∷ es) on r d e (c, calm) =
    passes es on _ d _ calm
    ∙ both_eq (append_assoc r (_ ∷ []) (messages es)) refl
        (append_assoc e (_ ∷ []) (map strip_report_id (from_host_reports es)))
passes (report false bytes ∷ es) on r d e (c, calm) = absurd c
passes (read_failed ∷ es) on r d e (c, calm) = absurd c
passes (shut_down ∷ es) on r d e (c, calm) = absurd c
passes (channel_closed ∷ es) on r d e (c, calm) = absurd c

-- While nothing fails, the emulator gets the payload of every report of the host, the host every report of
-- the emulator as it came, each in order; and every one of them is recorded with its direction and all its
-- bytes, the report number included, in the order in which they passed. Both tasks go on.
pub tcp_relay-IsCalm :
    (es : List Event) (on : Bool) (r : List InterceptedMessage) (d e : List (List ℕ))
    → All IsCalm es
    → (payloads : List (List ℕ)) × ArePayloads (from_host_reports es) payloads
      × (tcp_relay es (both on r d e)
          ≡ both on (r ++ messages es) (d ++ from_emulator_reports es) (e ++ payloads))
tcp_relay-IsCalm es on r d e calm = (
  map strip_report_id (from_host_reports es),
  map-ArePayloads (from_host_reports es),
  passes es on r d e calm,
)

-- A write that fails ends the task for the host's reports alone: the bridge still counts as running and
-- passes on what the emulator sends, and no later report of the host is written or recorded.
pub tcp_relay-write_failed :
    (bytes : List ℕ) (later : List (Bool × List ℕ)) (on : Bool) (r : List InterceptedMessage)
    (d e : List (List ℕ))
    → tcp_relay (report false bytes ∷ map (λ (w, b). report w b) later) (both on r d e)
      ≡ record (both on (r ++ ((to_emulator bytes).0 ∷ [])) d e) { writing = false }
unfolding tcp_relay tcp_step from_host
tcp_relay-write_failed bytes later on r d e = dropped later
  where
    dropped :
        (later : List (Bool × List ℕ))
        → tcp_relay
            (map (λ (w, b). report w b) later)
            (record (both on (r ++ ((to_emulator bytes).0 ∷ [])) d e) { writing = false })
          ≡ record (both on (r ++ ((to_emulator bytes).0 ∷ [])) d e) { writing = false }
    dropped [] = refl
    dropped ((w, b) ∷ later) = dropped later
