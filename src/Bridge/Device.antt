-- ===== src/Bridge/Device.antt =====
-- crates/bridge/src/uhid.rs: the virtual device, its creation, and the reading that waits; the constants
-- of the wallets. What the kernel answers is an argument, its polling is in `Uhid`.
use hwwctl.Prelude.{
  ℕ, suc, ◌+◌, ◌*◌, ◌/◌, ◌≤◌, ◌<◌, ◌≡◌, List, [], ◌∷◌, Text, Option, none, some, ◌⊎◌, inl, inr,
  arith,
}
use hwwctl.Poll.{poll_loop, poll_loop_ends, poll_loop_first, poll_loop_late}
use hwwctl.Bridge.Uhid.{Polled, Report, report, nothing, failed, poll_output_report}

-- All devices are on the USB bus; the other numbers are 0 and the physical path is empty.
pub record CreateParams : Type 0 where
  pub name : Text
  pub phys : Text
  pub uniq : Text
  pub vendor : ℕ
  pub product : ℕ
  pub version : ℕ
  pub country : ℕ
  pub rd_data : List ℕ

pub record VirtualHidDevice : Type 0 where
  pub params : CreateParams
  pub name : Text

unfoldable pub create_params : ℕ → ℕ → Text → Text → List ℕ → CreateParams
create_params vid pid name serial report_descriptor = record {
  name = name;
  phys = [];
  uniq = serial;
  vendor = vid;
  product = pid;
  version = 0;
  country = 0;
  rd_data = report_descriptor;
}

-- `none` where the kernel does not make the device.
unfoldable pub new_with_serial :
    (CreateParams → Option Text) → ℕ → ℕ → Text → Text → List ℕ → Option VirtualHidDevice
new_with_serial refuses vid pid name serial report_descriptor =
    let params = create_params vid pid name serial report_descriptor in
    elim (refuses params) [
      | some msg ↦ none
      | none ↦ some (record { params = params; name = name })
    ]

unfoldable pub new : (CreateParams → Option Text) → ℕ → ℕ → Text → List ℕ → Option VirtualHidDevice
new refuses vid pid name report_descriptor =
    new_with_serial refuses vid pid name [] report_descriptor

-- What a call of `blocking_read_output` meets: what each poll finds, and what the clock reads after it.
pub record Polls : Type 0 where
  pub polled : ℕ → Polled
  pub start_ms : ℕ
  pub now_ms : ℕ → ℕ

pub data Outcome : Type 0 where
  output : List ℕ → Outcome
  io_failed : Outcome

abbrev outcome_of : Report → Option Outcome
outcome_of (report bytes) = some (output bytes)
outcome_of nothing = none
outcome_of failed = some io_failed

unfoldable pub read_attempt : Polls → ℕ → Option Outcome
read_attempt p k = outcome_of (poll_output_report (p.polled k)).0

-- The inner `none` stands for a timeout. The rounds are as many as there are pauses before the deadline,
-- and one more.
unfoldable pub blocking_read_output : Polls → ℕ → ℕ → Option (Option Outcome)
blocking_read_output p timeout interval =
    poll_loop (read_attempt p) p.now_ms (p.start_ms + timeout) (suc (suc (timeout / interval))) 0

-- The outcome is that of a poll, and no earlier poll had one.
abbrev pub IsFirst : Polls → ℕ → Outcome → Type 0
IsFirst p timeout o =
    (j : ℕ) × (read_attempt p j ≡ some o)
    × ((i : ℕ) → i < j → (read_attempt p i ≡ none) × (p.now_ms i < p.start_ms + timeout))

-- No poll had an outcome up to one past the deadline.
abbrev pub IsLate : Polls → ℕ → Type 0
IsLate p timeout =
    (j : ℕ) × (p.start_ms + timeout ≤ p.now_ms j) × ((i : ℕ) → i ≤ j → read_attempt p i ≡ none)

rounds_enough :
    (start timeout interval : ℕ)
    → 0 < interval
    → start + timeout ≤ start + (suc (timeout / interval) + 0) * interval
rounds_enough start timeout interval pos = grind arith

-- When every pause moves the clock on by the interval, the waiting ends: with the first report or the
-- first hard error, where the timeout had not yet passed after any poll before it; or with nothing, after a
-- poll behind which the timeout has passed.
pub blocking_read_output_lem :
    (p : Polls) (timeout interval : ℕ)
    → 0 < interval
    → ((j : ℕ) → p.start_ms + j * interval ≤ p.now_ms j)
    → ((o : Outcome) × (blocking_read_output p timeout interval ≡ some (some o))
        × IsFirst p timeout o)
      ⊎ ((blocking_read_output p timeout interval ≡ some none) × IsLate p timeout)
unfolding blocking_read_output
blocking_read_output_lem p timeout interval pos clock =
    let (r, ends) =
      poll_loop_ends (read_attempt p) p.now_ms (p.start_ms + timeout) p.start_ms interval
        (suc (timeout / interval)) 0 pos clock (rounds_enough p.start_ms timeout interval pos) in
    ended r ends
  where
    ended :
        (r : Option Outcome)
        → poll_loop
            (read_attempt p)
            p.now_ms
            (p.start_ms + timeout)
            (suc (suc (timeout / interval)))
            0
          ≡ some r
        → ((o : Outcome) × (blocking_read_output p timeout interval ≡ some (some o))
            × IsFirst p timeout o)
          ⊎ ((blocking_read_output p timeout interval ≡ some none) × IsLate p timeout)
    ended (some o) ends =
        let (j, le, found, before) =
          poll_loop_first (read_attempt p) p.now_ms (p.start_ms + timeout) _ 0 o ends in
        inl (o, ends, (j, found, λ i l. before i (omega arith) l))
    ended none ends =
        let (j, le, past, all) =
          poll_loop_late (read_attempt p) p.now_ms (p.start_ms + timeout) _ 0 ends in
        inr (ends, (j, past, λ i l. all i (omega arith) l))

abbrev pub trezor_vid : ℕ
trezor_vid = 0x1209

abbrev pub trezor_pid : ℕ
trezor_pid = 0x53c1

abbrev pub bitbox02_vid : ℕ
bitbox02_vid = 0x03eb

abbrev pub bitbox02_pid : ℕ
bitbox02_pid = 0x2403

abbrev pub coldcard_vid : ℕ
coldcard_vid = 0xd13e

abbrev pub coldcard_pid : ℕ
coldcard_pid = 0xcc10

abbrev pub ledger_vid : ℕ
ledger_vid = 0x2c97

abbrev pub ledger_pid : ℕ
ledger_pid = 0x1000

-- Usage 1, a collection, an input and an output report of 64 bytes.
abbrev report_items : List ℕ
report_items =
    0x09 ∷ 0x01 ∷ 0xa1 ∷ 0x01 ∷ 0x09 ∷ 0x20 ∷ 0x15 ∷ 0x00 ∷ 0x26 ∷ 0xff ∷ 0x00 ∷ 0x75 ∷ 0x08 ∷ 0x95
    ∷ 0x40 ∷ 0x81 ∷ 0x02 ∷ 0x09 ∷ 0x21 ∷ 0x15 ∷ 0x00 ∷ 0x26 ∷ 0xff ∷ 0x00 ∷ 0x75 ∷ 0x08 ∷ 0x95
    ∷ 0x40 ∷ 0x91 ∷ 0x02 ∷ 0xc0 ∷ []

abbrev pub trezor_hid_report_descriptor : List ℕ
trezor_hid_report_descriptor = 0x06 ∷ 0xd0 ∷ 0xf1 ∷ report_items

abbrev pub bitbox02_hid_report_descriptor : List ℕ
bitbox02_hid_report_descriptor = 0x06 ∷ 0xff ∷ 0xff ∷ report_items

abbrev pub coldcard_hid_report_descriptor : List ℕ
coldcard_hid_report_descriptor = 0x06 ∷ 0xd0 ∷ 0xf1 ∷ report_items

abbrev pub ledger_hid_report_descriptor : List ℕ
ledger_hid_report_descriptor = 0x06 ∷ 0xa0 ∷ 0xff ∷ report_items
