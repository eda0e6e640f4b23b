-- ===== src/Bridge/Relay.antt =====
-- crates/bridge/src: what the bridges record and pass on. The time of a message is left to who receives
-- it; a decoded line is the Trezor bridge's only.
use hwwctl.Prelude.{
  ℕ, ◌-◌, List, [], ◌∷◌, ◌++◌, length, take, replicate, Text, Option, none, ◌==◌, if◌then◌else◌,
}
use hwwctl.Format.{hex_dump}
use hwwctl.Bridge.{Direction, host_to_device, device_to_host}

pub record InterceptedMessage : Type 0 where
  pub direction : Direction
  pub raw_hex : Text
  pub decoded : Option Text

unfoldable pub intercepted : Direction → List ℕ → Option Text → InterceptedMessage
intercepted direction bytes decoded = record {
  direction = direction;
  raw_hex = hex_dump bytes;
  decoded = decoded;
}

-- The report number 0 that UHID puts in front is not for the emulator.
unfoldable pub strip_report_id : List ℕ → List ℕ
strip_report_id [] = []
strip_report_id (b ∷ bytes) = if b == 0x00 then bytes else b ∷ bytes

-- One step of the generic relay: what is recorded and what is passed on.
unfoldable pub to_emulator : List ℕ → InterceptedMessage × List ℕ
to_emulator report = (intercepted host_to_device report none, strip_report_id report)

unfoldable pub to_host : List ℕ → InterceptedMessage × List ℕ
to_host bytes = (intercepted device_to_host bytes none, bytes)

-- `data.resize(report_size, 0)` on a datagram received into a buffer of that size
unfoldable pub pad_datagram : ℕ → List ℕ → List ℕ
pad_datagram report_size d =
    let got = take report_size d in got ++ replicate (report_size - length got) 0
