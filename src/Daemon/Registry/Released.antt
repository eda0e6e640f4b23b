-- ===== src/Daemon/Registry/Released.antt =====
-- crates/hwwctl/src/daemon/registry.rs: what stopping or dropping an instance takes away.
use hwwctl.Prelude.{ℕ, ◌-◌, ◌≡◌, refl, sym, ◌∙◌, ap, Text, Option, none, some, arith}
use hwwctl.Emulators.World.{Host, World, remove_child, drop_child, stop_child}
use hwwctl.Emulators.Generic as Emulator
use hwwctl.Bridge.Generic as Bridge
use hwwctl.Bridge.Generic.{remove_device}
use hwwctl.Daemon.Instance.{Instance}
use hwwctl.Daemon.Spawn.{drop_replaced}
use hwwctl.Daemon.Spawn.Stages.{IsLive}
use hwwctl.Daemon.Registry.{stop_bridge}
use hwwctl.Daemon.Registry.Owned.{
  one, children_with, devices_with, children_with-remove_child, devices_with-remove_device,
  is_child, holds, shows, tally_at,
}

-- The part of an instance goes, and the rest stays.
pub record Released (i : Instance) (l : IsLive i) (w w' : World) : Type 0 where
  pub children : w'.children ≡ remove_child l.pid w.children
  pub devices : w'.devices ≡ remove_device i.serial w.devices

pub Released-children :
    {i : Instance} {l : IsLive i} {w w' : World} (p : ℕ)
    → Released i l w w'
    → children_with p w'.children ≡ children_with p w.children - one (holds p i)
Released-children {i} {l} {w} {w'} p r =
    ap (children_with p) r.children
    ∙ children_with-remove_child p l.pid w.children
    ∙ ap (λ o. children_with p w.children - one o) (sym (ap (is_child p) l.held))

pub Released-devices :
    {i : Instance} {l : IsLive i} {w w' : World} (s : Text)
    → Released i l w w'
    → devices_with s w'.devices ≡ devices_with s w.devices - one (shows s i)
Released-devices {i} {l} {w} {w'} s r =
    ap (devices_with s) r.devices ∙ devices_with-remove_device s i.serial w.devices

pub stop-Released :
    (h : Host) (i : Instance) (l : IsLive i) (w : World)
    → Released i l w (Emulator.stop h i.emulator (stop_bridge i.bridge w)).1
unfolding stop_bridge Bridge.stop Bridge.drop_senders Emulator.stop stop_child
stop-Released h i l w = record {
  children = ground (arith, l.held, l.attached, l.senders);
  devices = ground (arith, l.held, l.attached, l.senders, l.serial);
}

drop_replaced-Released :
    (i : Instance) (l : IsLive i) (w : World) → Released i l w (drop_replaced (some i) w)
unfolding drop_replaced drop_child Bridge.drop_senders
drop_replaced-Released i l w = record {
  children = ground (arith, l.held, l.attached, l.senders);
  devices = ground (arith, l.held, l.attached, l.senders, l.serial);
}

-- The world of an outcome, from that in which the new instance stands beside the one it replaces.
pub dropped_children :
    (p : ℕ) (old : Option Instance) (w : World)
    → ((i : Instance) → old ≡ some i → IsLive i)
    → children_with p (drop_replaced old w).children
      ≡ children_with p w.children - tally_at (holds p) old
unfolding drop_replaced
dropped_children p none w live = omega arith
dropped_children p (some i) w live = Released-children p (drop_replaced-Released i (live i refl) w)

pub dropped_devices :
    (s : Text) (old : Option Instance) (w : World)
    → ((i : Instance) → old ≡ some i → IsLive i)
    → devices_with s (drop_replaced old w).devices
      ≡ devices_with s w.devices - tally_at (shows s) old
unfolding drop_replaced
dropped_devices s none w live = omega arith
dropped_devices s (some i) w live = Released-devices s (drop_replaced-Released i (live i refl) w)
