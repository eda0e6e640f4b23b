-- ===== src/Runs/Devices.antt =====
-- Runs of the emulators, the bridges and the bundler at concrete inputs.
use hwwctl.Prelude.{◌≡◌, ◌⊎◌, refl, [], ◌∷◌, codes, true, false, none, some, arith}
use hwwctl.Emulators as Emulators
use hwwctl.Emulators.Generic as Emulator
use hwwctl.Emulators.Generic.{GenericEmulator}
use hwwctl.Emulators.Lifecycle.{stop-start}
use hwwctl.Emulators.Ready.{Reached, Missed, wait_for_ready_lem}
use hwwctl.Emulators.Trezor.{TrezorEmulator, new_with_binary}
use hwwctl.Emulators.Trezor.Laws as Trezor
use hwwctl.Emulators.Trezor.Laws.{calls-Holds}
use hwwctl.Prelude.{inl}
use hwwctl.Bridge.Generic as Bridge
use hwwctl.Bridge.Generic.{Peer, GenericBridgeConfig}
use hwwctl.Bridge.{host_to_device}
use hwwctl.Bridge.Relay.{intercepted, strip_report_id}
use hwwctl.Bridge.Reconnect as Reconnect
use hwwctl.Bridge.Reconnect.{relay-read_ended}
use hwwctl.Bridge.Tcp as Tcp
use hwwctl.Bridge.Tcp.{tcp_relay-IsCalm}
use hwwctl.Bridge.Device as Device
use hwwctl.Bridge.Device.{blocking_read_output_lem}
use hwwctl.Prelude.{ℕ, List, ltb, if◌then◌else◌, ◌*◌}
use hwwctl.Bridge.Uhid.{Polled}
use hwwctl.Runs.{host, bad_host, world, down}

stop-start_example :
    let (e', w') = (Emulator.start host down world).1 in
    ((Emulator.stop host e' w').0.status ≡ Emulators.EmulatorStatus.stopped)
    × ((Emulator.stop host e' w').0.child ≡ none)
    × ((Emulator.stop host e' w').1.children ≡ [])
    × ((Emulator.stop host e' w').1.devices ≡ [])
stop-start_example = stop-start host down world refl refl

wait_for_ready_lem_example :
    ((Emulator.wait_for_ready host down ≡ true) × Reached host down)
    ⊎ ((Emulator.wait_for_ready host down ≡ false) × Missed host down)
wait_for_ready_lem_example = wait_for_ready_lem host down (λ j. omega arith)

abbrev deaf : Peer
deaf = record { create_device = λ c. none; connect = λ host port. some (codes "refused") }

abbrev config : GenericBridgeConfig
config = record {
  vid = 0x03eb;
  pid = 0x2403;
  name = codes "BitBox02";
  serial = codes "s1";
  report_descriptor = [];
  report_size = 64;
  transport = Bridge.BridgeTransport.tcp (codes "127.0.0.1") 15423;
}

-- A relay on its first connection.
abbrev relaying : Reconnect.Relay
relaying = record {
  phase = Reconnect.Phase.connected;
  reader = true;
  running = true;
  connection = 1;
  recorded = [];
  sent = [];
  to_device = [];
}

relay-read_ended_example :
    let r =
      Reconnect.relay
        (Reconnect.Event.read_ended
          ∷ Reconnect.Event.report false true true (0 ∷ 63 ∷ [])
          ∷ Reconnect.Event.report true true true (0 ∷ 64 ∷ [])
          ∷ [])
        relaying in
    (r.sent ≡ (1, strip_report_id (0 ∷ 63 ∷ [])) ∷ (2, strip_report_id (0 ∷ 64 ∷ [])) ∷ [])
    × (r.recorded
        ≡ intercepted host_to_device (0 ∷ 63 ∷ []) none
          ∷ intercepted host_to_device (0 ∷ 64 ∷ []) none
          ∷ [])
relay-read_ended_example =
    relay-read_ended false true true (0 ∷ 63 ∷ []) (0 ∷ 64 ∷ []) relaying refl

abbrev events : List Tcp.Event
events =
    Tcp.Event.report true (0 ∷ 63 ∷ [])
    ∷ Tcp.Event.read (63 ∷ 35 ∷ [])
    ∷ Tcp.Event.report true (64 ∷ [])
    ∷ []

tcp_relay-IsCalm_example :
    (payloads : List (List ℕ)) × Tcp.ArePayloads ((0 ∷ 63 ∷ []) ∷ (64 ∷ []) ∷ []) payloads
    × (Tcp.tcp_relay events (Tcp.both true [] [] [])
        ≡ Tcp.both true (Tcp.messages events) ((63 ∷ 35 ∷ []) ∷ []) payloads)
tcp_relay-IsCalm_example = tcp_relay-IsCalm events true [] [] [] (tt, (tt, (tt, tt)))

-- The host opens the device, and then writes a report.
abbrev polls : Device.Polls
polls = record {
  polled = λ k. if ltb k 2 then Polled.opened else Polled.output (63 ∷ []);
  start_ms = 0;
  now_ms = λ k. k * 10;
}

blocking_read_output_lem_example :
    ((o : Device.Outcome) × (Device.blocking_read_output polls 100 10 ≡ some (some o))
      × Device.IsFirst polls 100 o)
    ⊎ ((Device.blocking_read_output polls 100 10 ≡ some none) × Device.IsLate polls 100)
blocking_read_output_lem_example =
    blocking_read_output_lem polls 100 10 (omega arith) (λ j. omega arith)

abbrev trezor_calls : List Trezor.Call
trezor_calls =
    Trezor.Call.starts host none
    ∷ Trezor.Call.stops host
    ∷ Trezor.Call.starts bad_host none
    ∷ Trezor.Call.starts host none
    ∷ []

abbrev trezor : TrezorEmulator
trezor = new_with_binary none (codes "/fw") (codes "/tmp/t") 21324

calls-Holds_example :
    Trezor.Holds []
      (Trezor.calls trezor_calls trezor world).0
      (Trezor.calls trezor_calls trezor world).1
calls-Holds_example =
    calls-Holds [] trezor_calls trezor world (unfold new_with_binary in inl (refl, refl, refl))
