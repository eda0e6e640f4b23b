-- ===== src/Daemon/Drain.antt =====
-- crates/hwwctl/src/daemon/spawn.rs: the task that drains the bridge's intercept channel into the log
-- buffer and the counters of an instance. The counters are 64 bits wide.
use hwwctl.Prelude.{
  ℕ, ◌+◌, ◌%◌, ◌<◌, ◌≡◌, refl, ◌∙◌, List, [], ◌∷◌, map, length, drop, ◌-◌, All, none, arith,
}
use hwwctl.Format.{hex_dump, split_whitespace}
use hwwctl.Format.Laws.{length-split_whitespace-hex_dump}
use hwwctl.Protocol.Varint.{u64_mod}
use hwwctl.Emulators.Generic.{push_line}
use hwwctl.Emulators.Ring.{push_lines, push_line_last}
use hwwctl.Bridge.{Direction, host_to_device, device_to_host}
use hwwctl.Bridge.Relay.{InterceptedMessage, intercepted}
use hwwctl.Daemon.Instance.{BridgeLog, BridgeStatsCounters, no_stats, log_buffer_cap}

abbrev add_u64 : ℕ → ℕ → ℕ
add_u64 a b = (a + b) % u64_mod

unfoldable pub count_report : Direction → ℕ → BridgeStatsCounters → BridgeStatsCounters
count_report host_to_device bytes s = record s {
  host_to_device_reports = add_u64 s.host_to_device_reports 1;
  host_to_device_bytes = add_u64 s.host_to_device_bytes bytes;
}
count_report device_to_host bytes s = record s {
  device_to_host_reports = add_u64 s.device_to_host_reports 1;
  device_to_host_bytes = add_u64 s.device_to_host_bytes bytes;
}

abbrev entry_of : ℕ × InterceptedMessage → BridgeLog
entry_of (at, msg) = record { at = at; direction = msg.direction; raw_hex = msg.raw_hex }

-- One message, received at a time: the buffer and the counters.
unfoldable pub drain_one :
    List BridgeLog × BridgeStatsCounters
    → ℕ × InterceptedMessage
    → List BridgeLog × BridgeStatsCounters
drain_one (buf, stats) (at, msg) = (
  push_line log_buffer_cap buf (entry_of (at, msg)),
  count_report msg.direction (length (split_whitespace msg.raw_hex)) stats,
)

unfoldable pub log_drain :
    List BridgeLog × BridgeStatsCounters
    → List (ℕ × InterceptedMessage)
    → List BridgeLog × BridgeStatsCounters
log_drain st [] = st
log_drain st (m ∷ ms) = log_drain (drain_one st m) ms

-- A report that passes the bridge: when, which way, and its bytes.
abbrev pub Report : Type 0
Report = ℕ × (Direction × List ℕ)

abbrev pub message_of : Report → ℕ × InterceptedMessage
message_of (at, (d, bytes)) = (at, intercepted d bytes none)

abbrev pub log_of : Report → BridgeLog
log_of (at, (d, bytes)) = record { at = at; direction = d; raw_hex = hex_dump bytes }

-- What a report adds to a count of one direction.
abbrev pub counted : Direction → Direction → ℕ → ℕ
counted host_to_device host_to_device n = n
counted host_to_device device_to_host n = 0
counted device_to_host host_to_device n = 0
counted device_to_host device_to_host n = n

-- The number of reports of one direction in a session, and of their bytes.
abbrev pub reports_of : Direction → List Report → ℕ
reports_of d [] = 0
reports_of d ((at, (d', bytes)) ∷ rs) = counted d d' 1 + reports_of d rs

abbrev pub bytes_of : Direction → List Report → ℕ
bytes_of d [] = 0
bytes_of d ((at, (d', bytes)) ∷ rs) = counted d d' (length bytes) + bytes_of d rs

abbrev pub IsReportBytes : Report → Type 0
IsReportBytes (at, (d, bytes)) = All (λ b. b < 256) bytes

log_drain_buffer :
    (rs : List Report) (buf : List BridgeLog) (stats : BridgeStatsCounters)
    → (log_drain (buf, stats) (map message_of rs)).0 ≡ push_lines log_buffer_cap buf (map log_of rs)
unfolding log_drain drain_one intercepted
log_drain_buffer [] buf stats = refl
log_drain_buffer ((at, (d, bytes)) ∷ rs) buf stats = log_drain_buffer rs _ _

-- The counters of a session that starts at `s`.
record IsCounted (s t : BridgeStatsCounters) (rs : List Report) : Type 0 where
  h2d_reports :
      t.host_to_device_reports ≡ (s.host_to_device_reports + reports_of host_to_device rs) % u64_mod
  h2d_bytes :
      t.host_to_device_bytes ≡ (s.host_to_device_bytes + bytes_of host_to_device rs) % u64_mod
  d2h_reports :
      t.device_to_host_reports ≡ (s.device_to_host_reports + reports_of device_to_host rs) % u64_mod
  d2h_bytes :
      t.device_to_host_bytes ≡ (s.device_to_host_bytes + bytes_of device_to_host rs) % u64_mod

record IsU64Counters (s : BridgeStatsCounters) : Type 0 where
  h2d_reports : s.host_to_device_reports < u64_mod
  h2d_bytes : s.host_to_device_bytes < u64_mod
  d2h_reports : s.device_to_host_reports < u64_mod
  d2h_bytes : s.device_to_host_bytes < u64_mod

counted_bounded :
    (d : Direction) (n : ℕ) (s : BridgeStatsCounters)
    → IsU64Counters s
    → IsU64Counters (count_report d n s)
unfolding count_report
counted_bounded host_to_device n s b = record {
  h2d_reports = omega arith;
  h2d_bytes = omega arith;
  d2h_reports = b.d2h_reports;
  d2h_bytes = b.d2h_bytes;
}
counted_bounded device_to_host n s b = record {
  h2d_reports = b.h2d_reports;
  h2d_bytes = b.h2d_bytes;
  d2h_reports = omega arith;
  d2h_bytes = omega arith;
}

no_stats_bounded : IsU64Counters no_stats
no_stats_bounded = record {
  h2d_reports = omega arith;
  h2d_bytes = omega arith;
  d2h_reports = omega arith;
  d2h_bytes = omega arith;
}

log_drain_counters :
    (rs : List Report) (buf : List BridgeLog) (stats : BridgeStatsCounters)
    → All IsReportBytes rs
    → IsU64Counters stats
    → IsCounted stats (log_drain (buf, stats) (map message_of rs)).1 rs
unfolding log_drain drain_one intercepted count_report
log_drain_counters [] buf stats h bounded = record {
  h2d_reports = omega (arith, bounded.h2d_reports);
  h2d_bytes = omega (arith, bounded.h2d_bytes);
  d2h_reports = omega (arith, bounded.d2h_reports);
  d2h_bytes = omega (arith, bounded.d2h_bytes);
}
log_drain_counters ((at, (host_to_device, bytes)) ∷ rs) buf stats (h, hs) bounded =
    let size = length-split_whitespace-hex_dump bytes h in
    let rest =
      log_drain_counters rs (push_line log_buffer_cap buf (log_of (at, (host_to_device, bytes))))
        (count_report host_to_device (length (split_whitespace (hex_dump bytes))) stats) hs
        (counted_bounded host_to_device _ stats bounded) in
    record {
      h2d_reports = omega (arith, rest.h2d_reports);
      h2d_bytes = omega (arith, rest.h2d_bytes, size);
      d2h_reports = omega (arith, rest.d2h_reports);
      d2h_bytes = omega (arith, rest.d2h_bytes);
    }
log_drain_counters ((at, (device_to_host, bytes)) ∷ rs) buf stats (h, hs) bounded =
    let size = length-split_whitespace-hex_dump bytes h in
    let rest =
      log_drain_counters rs (push_line log_buffer_cap buf (log_of (at, (device_to_host, bytes))))
        (count_report device_to_host (length (split_whitespace (hex_dump bytes))) stats) hs
        (counted_bounded device_to_host _ stats bounded) in
    record {
      h2d_reports = omega (arith, rest.h2d_reports);
      h2d_bytes = omega (arith, rest.h2d_bytes);
      d2h_reports = omega (arith, rest.d2h_reports);
      d2h_bytes = omega (arith, rest.d2h_bytes, size);
    }

-- After any session of reports, the buffer of an instance holds the last 500 of them in order, with
-- direction and bytes, and the counters are the numbers of the reports of each direction and of their
-- bytes, modulo 2 ^ 64.
pub log_drain_lem :
    (rs : List Report)
    → All IsReportBytes rs
    → let (buf, stats) = log_drain ([], no_stats) (map message_of rs) in
      (buf ≡ drop (length (map log_of rs) - log_buffer_cap) (map log_of rs))
      × (stats.host_to_device_reports ≡ reports_of host_to_device rs % u64_mod)
      × (stats.host_to_device_bytes ≡ bytes_of host_to_device rs % u64_mod)
      × (stats.device_to_host_reports ≡ reports_of device_to_host rs % u64_mod)
      × (stats.device_to_host_bytes ≡ bytes_of device_to_host rs % u64_mod)
log_drain_lem rs h =
    let counts = log_drain_counters rs [] no_stats h no_stats_bounded in
    (
      log_drain_buffer rs [] no_stats
          ∙ (push_line_last log_buffer_cap (omega arith) (map log_of rs)).0,
      omega (arith, counts.h2d_reports),
      omega (arith, counts.h2d_bytes),
      omega (arith, counts.d2h_reports),
      omega (arith, counts.d2h_bytes),
    )
