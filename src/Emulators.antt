-- ===== src/Emulators.antt =====
-- crates/emulators/src/lib.rs: the types that all emulators share. `Generic` and `Trezor` are the two
-- process managers, `Config` the table of wallets.
pub mod World
pub mod Generic
pub mod Trezor
pub mod Config
pub mod Lifecycle
pub mod Ready
pub mod Ring
pub mod Descriptor
use hwwctl.Prelude.{ℕ, Text, codes, ◌++◌}
use hwwctl.Format.{decimal}

pub data EmulatorStatus : Type 0 where
  stopped starting running : EmulatorStatus
  error : Text → EmulatorStatus

unfoldable pub status_text : EmulatorStatus → Text
status_text stopped = codes "Stopped"
status_text starting = codes "Starting"
status_text running = codes "Running"
status_text (error msg) = codes "Error: " ++ msg

pub data WalletType : Type 0 where
  trezor bitbox02 coldcard specter ledger jade : WalletType

unfoldable pub wallet_type_text : WalletType → Text
wallet_type_text trezor = codes "Trezor"
wallet_type_text bitbox02 = codes "BitBox02"
wallet_type_text coldcard = codes "Coldcard"
wallet_type_text specter = codes "Specter"
wallet_type_text ledger = codes "Ledger"
wallet_type_text jade = codes "Jade"

pub data TransportConfig : Type 0 where
  udp tcp : Text → ℕ → TransportConfig
  unix_socket : Text → TransportConfig

unfoldable pub transport_text : TransportConfig → Text
transport_text (udp host port) = codes "UDP " ++ (host ++ (codes ":" ++ decimal port))
transport_text (tcp host port) = codes "TCP " ++ (host ++ (codes ":" ++ decimal port))
transport_text (unix_socket path) = codes "Unix " ++ path
