-- ===== src/Bridge/Lifecycle.antt =====
-- crates/bridge/src/generic.rs: what starting and stopping does to the devices.
use hwwctl.Prelude.{
  ℕ, ◌≡◌, refl, ◌∷◌, Text, codes, true, false, none, some, ◌⊎◌, inl, inr, Option-cases, arith,
}
use hwwctl.Emulators.World.{World}
use hwwctl.Bridge.Generic.{
  GenericBridge, GenericBridgeConfig, tcp, Peer, new, device_error, connect_error,
  remove_device_head, drop_senders, connect_transport, start, stop, is_running,
}

-- The world with one more device.
abbrev pub add_device : Text → World → World
add_device serial w = record w { devices = serial ∷ w.devices }

abbrev up_bridge : GenericBridgeConfig → GenericBridge
up_bridge c = record { config = c; running = true; shutdown_tx = 2; task_handles = 0 }

started :
    (p : Peer) (c : GenericBridgeConfig) (w : World)
    → p.create_device c ≡ none
    → ((start p (new c) w).1.1 ≡ add_device c.serial w)
      × ((start p (new c) w).1.0.running ≡ true)
      × ((start p (new c) w).1.0.shutdown_tx ≡ 2)
      × ((start p (new c) w).1.0.config ≡ c)
unfolding start new connect_transport
started p c w made = rw made (ground (arith, made))

-- Starting a fresh bridge either creates no device, or one that runs until the bridge is dropped,
-- whether or not the emulator could be reached.
pub start_lem :
    (p : Peer) (c : GenericBridgeConfig) (w : World)
    → ((msg : Text) × (start p (new c) w ≡ (some msg, (new c, w))))
      ⊎ (((start p (new c) w).1.1 ≡ add_device c.serial w)
          × ((start p (new c) w).1.0.running ≡ true)
          × ((start p (new c) w).1.0.shutdown_tx ≡ 2)
          × ((start p (new c) w).1.0.config ≡ c))
unfolding start new connect_transport
start_lem p c w = elim (Option-cases (p.create_device c)) [
  | inr (msg, fails) ↦ inl (device_error c msg, ground (arith, fails))
  | inl made ↦ inr (started p c w made)
]

pub drop_senders_lem :
    (b : GenericBridge) (c : GenericBridgeConfig) (w w' : World)
    → b.shutdown_tx ≡ 2
    → b.config ≡ c
    → w' ≡ add_device c.serial w
    → drop_senders b w' ≡ w
unfolding drop_senders
drop_senders_lem b c w w' senders kept added =
    ground (arith, senders, kept, added, remove_device_head c.serial w.devices)

-- Dropping or stopping a bridge that was started takes its device away again, also if the start failed.
pub drop_senders-start :
    (p : Peer) (c : GenericBridgeConfig) (w : World)
    → let (b, w') = (start p (new c) w).1 in
      (drop_senders b w' ≡ w) × ((stop b w').1 ≡ w) × (is_running (stop b w').0 ≡ false)
unfolding stop is_running
drop_senders-start p c w = elim (start_lem p c w) [
  | inl (msg, eq) ↦ rw eq (unfold new drop_senders in (refl, refl, refl))
  | inr (added, on, senders, kept) ↦
      let gone = drop_senders_lem _ c w _ senders kept added in (gone, gone, refl)
]

start_refused :
    (p : Peer) (c : GenericBridgeConfig) (w : World) (host msg : Text) (port : ℕ)
    → c.transport ≡ tcp host port
    → p.create_device c ≡ none
    → p.connect host port ≡ some msg
    → start p (new c) w ≡ (some (connect_error host port msg), (up_bridge c, add_device c.serial w))
unfolding start new connect_transport
start_refused p c w host msg port to_tcp made refused = ground (arith, to_tcp, made, refused)

-- When the emulator refuses the connection, `start` fails, yet the bridge counts as running, and another
-- `start` is refused.
pub start-start_refused :
    (p : Peer) (c : GenericBridgeConfig) (w : World) (host msg : Text) (port : ℕ)
    → c.transport ≡ tcp host port
    → p.create_device c ≡ none
    → p.connect host port ≡ some msg
    → let (b, w') = (start p (new c) w).1 in
      ((m : Text) × ((start p (new c) w).0 ≡ some m))
      × (is_running b ≡ true)
      × (start p b w' ≡ (some (codes "GenericBridge is already running"), (b, w')))
unfolding start new connect_transport is_running
start-start_refused p c w host msg port to_tcp made refused =
    rw (start_refused p c w host msg port to_tcp made refused)
      ((connect_error host port msg, refl), refl, refl)
