-- ===== src/Bridge/Uhid.antt =====
-- crates/bridge/src: the virtual device of uhid.rs, and the threads that own it in generic.rs and
-- trezor.rs. What the kernel answers in each round is an argument.
use hwwctl.Prelude.{
  ℕ, zero, suc, ◌≡◌, refl, List, [], ◌∷◌, ◌++◌, replicate, Bool, true, false, if◌then◌else◌, arith,
  ap,
}

-- What `UHIDDevice::read` gives.
pub data Polled : Type 0 where
  output : List ℕ → Polled
  opened closed started stopped would_block io_error : Polled
  get_report set_report unknown_event : ℕ → Polled

-- The replies that keep the kernel from waiting.
pub data KernelReply : Type 0 where
  get_report_reply set_report_reply : ℕ → KernelReply

pub data Report : Type 0 where
  report : List ℕ → Report
  nothing failed : Report

unfoldable pub poll_output_report : Polled → Report × List KernelReply
poll_output_report (output bytes) = (report bytes, [])
poll_output_report (get_report id) = (nothing, get_report_reply id ∷ [])
poll_output_report (set_report id) = (nothing, set_report_reply id ∷ [])
poll_output_report io_error = (failed, [])
poll_output_report other = (nothing, [])

-- The shutdown channel: nothing yet, a message, or its sender dropped.
pub data Shutdown : Type 0 where
  empty sent dropped : Shutdown

-- `GenericBridge` ends its thread on a message and on a dropped sender.
unfoldable pub generic_ends : Shutdown → Bool
generic_ends empty = false
generic_ends sent = true
generic_ends dropped = true

-- `TrezorBridge` tests `try_recv().is_ok()`.
unfoldable pub trezor_ends : Shutdown → Bool
trezor_ends empty = false
trezor_ends sent = true
trezor_ends dropped = false

-- A round: the shutdown channel, the input reports that wait, how many of them the device takes, the
-- kernel's answer, and whether the receiver of the output reports is still there.
pub record Round : Type 0 where
  pub shutdown : Shutdown
  pub pending : List (List ℕ)
  pub writable : Bool
  pub polled : Polled
  pub receiver : Bool

-- What the thread has done: the reports given to the host, those passed on to the emulator, and whether
-- it has ended, with the device.
pub record Thread : Type 0 where
  pub to_host : List (List ℕ)
  pub to_emulator : List (List ℕ)
  pub ended : Bool

abbrev pub fresh : Thread
fresh = record { to_host = []; to_emulator = []; ended = false }

unfoldable pub drain_pending : Round → Thread → Thread
drain_pending r t = elim r.pending [
  | [] ↦ t
  | _ ↦
      if r.writable
      then record t { to_host = t.to_host ++ r.pending }
      else record t { ended = true }
]

abbrev forward : Report → Bool → Thread → Thread
forward (report bytes) true t = record t { to_emulator = t.to_emulator ++ (bytes ∷ []) }
forward (report bytes) false t = record t { ended = true }
forward nothing receiver t = t
forward failed receiver t = record t { ended = true }

unfoldable pub poll_round : Round → Thread → Thread
poll_round r t = if t.ended then t else forward (poll_output_report r.polled).0 r.receiver t

unfoldable pub uhid_round : (Shutdown → Bool) → Round → Thread → Thread
uhid_round ends r t =
    if t.ended
    then t
    else (if ends r.shutdown then record t { ended = true } else poll_round r (drain_pending r t))

unfoldable pub uhid_thread : (Shutdown → Bool) → List Round → Thread → Thread
uhid_thread ends [] t = t
uhid_thread ends (r ∷ rs) t = uhid_thread ends rs (uhid_round ends r t)

-- A round after `stop`: the senders are dropped, and there is nothing to do.
abbrev pub idle : Round
idle = record {
  shutdown = dropped;
  pending = [];
  writable = true;
  polled = would_block;
  receiver = true;
}

trezor_idle : (n : ℕ) → uhid_thread trezor_ends (replicate n idle) fresh ≡ fresh
unfolding uhid_thread uhid_round poll_round drain_pending poll_output_report trezor_ends
trezor_idle zero = refl
trezor_idle (suc n) = trezor_idle n

generic_ended :
    (rs : List Round) (t : Thread) → t.ended ≡ true → (uhid_thread generic_ends rs t).ended ≡ true
unfolding uhid_thread uhid_round
generic_ended [] t h = h
generic_ended (r ∷ rs) t h =
    generic_ended rs (uhid_round generic_ends r t) (unfold uhid_round in ground (arith, h))

-- After `stop` has dropped the senders, the thread of the generic bridge ends in its next round, while
-- that of the Trezor bridge goes on through any number of idle rounds and keeps its device.
pub uhid_thread-idle :
    (n : ℕ)
    → ((uhid_thread generic_ends (replicate (suc n) idle) fresh).ended ≡ true)
      × ((uhid_thread trezor_ends (replicate (suc n) idle) fresh).ended ≡ false)
unfolding uhid_thread uhid_round generic_ends
uhid_thread-idle n = (
  generic_ended (replicate n idle) (record fresh { ended = true }) refl,
  ap Thread.ended (trezor_idle (suc n)),
)
