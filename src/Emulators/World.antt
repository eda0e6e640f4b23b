-- ===== src/Emulators/World.antt =====
-- What the emulators use of the operating system: paths, sockets, the clock and child processes. What
-- the system answers is an argument, what it keeps is the `World`.
use hwwctl.Prelude.{
  ℕ, ◌≡◌, refl, List, [], ◌∷◌, Text, Bool, Option, none, some, ◌==◌, if◌then◌else◌, arith, ◌⊎◌, inl,
  inr,
}

-- What a socket's `recv` answers to a probe.
pub data UdpAnswer : Type 0 where
  answered timed_out failed : UdpAnswer

-- The outcomes of the system calls of one probe.
pub record Network : Type 0 where
  pub bind_udp : Bool
  pub send_empty : Text → ℕ → Bool
  pub recv : UdpAnswer
  pub connect_tcp : Text → ℕ → Bool
  pub socket_exists : Text → Bool
  pub connect_stream : Text → Bool
  pub connect_dgram : Text → Bool

pub record Command : Type 0 where
  pub program : Text
  pub dir : Text
  pub env : List (Text × Text)
  pub args : List Text

-- `spawn` gives the process or the text of an error.
pub data Spawned : Type 0 where
  child : ℕ → Spawned
  failed : Text → Spawned

pub record Host : Type 0 where
  pub path_exists : Text → Bool
  pub is_dir : Text → Bool
  pub create_dir_all : Text → Option Text
  pub ld_library_path : Option Text
  pub spawn : Command → Spawned
  pub network : ℕ → Network
  pub start_ms : ℕ
  pub now_ms : ℕ → ℕ
  pub exits_on_term : ℕ → Bool

pub data Signal : Type 0 where
  term kill : ℕ → Signal

-- The live child processes, the serial numbers of the live virtual devices, and the signals sent, the
-- latest first.
pub record World : Type 0 where
  pub children : List ℕ
  pub devices : List Text
  pub signals : List Signal

unfoldable pub remove_child : ℕ → List ℕ → List ℕ
remove_child pid [] = []
remove_child pid (p ∷ ps) = let rest = remove_child pid ps in if p == pid then ps else p ∷ rest

pub remove_child_head : (pid : ℕ) (ps : List ℕ) → remove_child pid (pid ∷ ps) ≡ ps
unfolding remove_child
remove_child_head pid ps = ground arith

unfoldable pub add_child : ℕ → World → World
add_child pid w = record w { children = pid ∷ w.children }

-- `kill_on_drop(true)`: a child that is dropped is killed.
unfoldable pub drop_child : Option ℕ → World → World
drop_child none w = w
drop_child (some pid) w = record w {
  children = remove_child pid w.children;
  signals = kill pid ∷ w.signals;
}

-- SIGTERM, a wait, and a kill when the child has not gone by then.
unfoldable pub stop_child : Host → ℕ → World → World
stop_child h pid w =
    if h.exits_on_term pid
    then record w { children = remove_child pid w.children; signals = term pid ∷ w.signals }
    else record w {
      children = remove_child pid w.children;
      signals = kill pid ∷ term pid ∷ w.signals;
    }

pub Spawned-cases :
    (s : Spawned) → ((pid : ℕ) × (s ≡ child pid)) ⊎ ((msg : Text) × (s ≡ failed msg))
Spawned-cases (child pid) = inl (pid, refl)
Spawned-cases (failed msg) = inr (msg, refl)
