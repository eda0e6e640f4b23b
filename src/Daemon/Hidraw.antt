-- ===== src/Daemon/Hidraw.antt =====
-- crates/hwwctl/src/daemon/hidraw_scan.rs: the device node of a serial number. The directory listing is
-- an argument: each name with the text of its `uevent` file, if it can be read.
pub mod Laws
use hwwctl.Prelude.{
  ℕ, ◌+◌, ◌/◌, suc, List, [], ◌∷◌, ◌++◌, Text, codes, text_eq, strip_prefix, Bool, true, false,
  Option, none, some, ◌==◌, if◌then◌else◌,
}
use hwwctl.Format.{is_whitespace}
use hwwctl.Poll.{poll_loop}

-- `str::lines`, before a carriage return at the end of a line is taken off
unfoldable pub lines_loop : Text → Text → List Text
lines_loop [] [] = []
lines_loop (l ∷ line) [] = (l ∷ line) ∷ []
lines_loop line (c ∷ s) =
    if c == b'\n' then line ∷ lines_loop [] s else lines_loop (line ++ (c ∷ [])) s

unfoldable pub trim_start : Text → Text
trim_start [] = []
trim_start (c ∷ s) = let rest = trim_start s in if is_whitespace c then rest else c ∷ s

unfoldable pub reverse_onto : Text → Text → Text
reverse_onto acc [] = acc
reverse_onto acc (c ∷ s) = reverse_onto (c ∷ acc) s

-- `str::trim`; it also takes off a carriage return that `lines` would have
unfoldable pub trim : Text → Text
trim s = reverse_onto [] (trim_start (reverse_onto [] (trim_start s)))

unfoldable pub line_has_uniq : Text → Text → Bool
line_has_uniq serial line = elim (strip_prefix (codes "HID_UNIQ=") line) [
  | none ↦ false
  | some v ↦ text_eq (trim v) serial
]

unfoldable pub any_line : Text → List Text → Bool
any_line serial [] = false
any_line serial (l ∷ ls) =
    let rest = any_line serial ls in if line_has_uniq serial l then true else rest

unfoldable pub uevent_has_uniq : Text → Text → Bool
uevent_has_uniq uevent serial = any_line serial (lines_loop [] uevent)

unfoldable pub scan_entries : List (Text × Option Text) → Text → Option Text
scan_entries [] serial = none
scan_entries ((name, content) ∷ entries) serial =
    let rest = scan_entries entries serial in
    elim (strip_prefix (codes "hidraw") name) [
      | none ↦ rest
      | some number ↦ (elim content [
        | none ↦ rest
        | some uevent ↦ if uevent_has_uniq uevent serial then some (codes "/dev/" ++ name) else rest
      ])
    ]

-- A directory that cannot be read gives nothing.
unfoldable pub scan_once : Option (List (Text × Option Text)) → Text → Option Text
scan_once none serial = none
scan_once (some entries) serial = scan_entries entries serial

-- Rounds of 50 ms, by the listing and the clock of each round.
unfoldable pub find_hidraw_by_serial :
    (ℕ → Option (List (Text × Option Text))) → (ℕ → ℕ) → ℕ → Text → ℕ → Option (Option Text)
find_hidraw_by_serial listing now start serial timeout =
    poll_loop (λ k. scan_once (listing k) serial) now (start + timeout) (suc (suc (timeout / 50))) 0
