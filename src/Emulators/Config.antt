-- ===== src/Emulators/Config.antt =====
-- crates/emulators/src/wallet_config.rs: the table of wallets and their HID report descriptors.
use hwwctl.Prelude.{ℕ, List, [], ◌∷◌, Text, codes, Bool, true, false, Option, none, some}
use hwwctl.Emulators.{WalletType, trezor, bitbox02, coldcard, specter, ledger, jade}

pub data TransportKind : Type 0 where
  udp tcp unix_stream unix_dgram : TransportKind

pub record HidConfig : Type 0 where
  pub vid : ℕ
  pub pid : ℕ
  pub report_size : ℕ
  pub report_descriptor : List ℕ

pub data InitStyle : Type 0 where
  preseeded trezor_wire_debug_link bitbox_api : InitStyle

pub data HostMode : Type 0 where
  native docker : HostMode

pub record WalletConfig : Type 0 where
  pub wallet_type : WalletType
  pub display_name : Text
  pub transport : TransportKind
  pub default_port : ℕ
  pub host_mode : HostMode
  pub hid : Option HidConfig
  pub init_style : InitStyle
  pub startup_timeout_secs : ℕ
  pub binary_candidates : List Text
  pub supports_macos : Bool

-- All descriptors are alike behind the usage page.
abbrev descriptor_tail : List ℕ
descriptor_tail =
    0x09 ∷ 0x01 ∷ 0xa1 ∷ 0x01 ∷ 0x09 ∷ 0x20 ∷ 0x15 ∷ 0x00 ∷ 0x26 ∷ 0xff ∷ 0x00 ∷ 0x75 ∷ 0x08 ∷ 0x95
    ∷ 0x40 ∷ 0x81 ∷ 0x02 ∷ 0x09 ∷ 0x21 ∷ 0x15 ∷ 0x00 ∷ 0x26 ∷ 0xff ∷ 0x00 ∷ 0x75 ∷ 0x08 ∷ 0x95
    ∷ 0x40 ∷ 0x91 ∷ 0x02 ∷ 0xc0 ∷ []

abbrev pub trezor_hid_report_descriptor : List ℕ
trezor_hid_report_descriptor = 0x06 ∷ 0xd0 ∷ 0xf1 ∷ descriptor_tail

abbrev pub bitbox02_hid_report_descriptor : List ℕ
bitbox02_hid_report_descriptor = 0x06 ∷ 0xff ∷ 0xff ∷ descriptor_tail

abbrev pub coldcard_hid_report_descriptor : List ℕ
coldcard_hid_report_descriptor = 0x06 ∷ 0xd0 ∷ 0xf1 ∷ descriptor_tail

abbrev pub ledger_hid_report_descriptor : List ℕ
ledger_hid_report_descriptor = 0x06 ∷ 0xa0 ∷ 0xff ∷ descriptor_tail

abbrev pub trezor_config : WalletConfig
trezor_config = record {
  wallet_type = trezor;
  display_name = codes "Trezor";
  transport = udp;
  default_port = 21324;
  host_mode = native;
  hid = none;
  init_style = trezor_wire_debug_link;
  startup_timeout_secs = 10;
  binary_candidates = codes "trezor-emu-core" ∷ codes "trezor-emu" ∷ codes "emulator" ∷ [];
  supports_macos = true;
}

abbrev pub bitbox02_hid : HidConfig
bitbox02_hid = record {
  vid = 0x03eb;
  pid = 0x2403;
  report_size = 64;
  report_descriptor = bitbox02_hid_report_descriptor;
}

abbrev pub bitbox02_config : WalletConfig
bitbox02_config = record {
  wallet_type = bitbox02;
  display_name = codes "BitBox02";
  transport = tcp;
  default_port = 15423;
  host_mode = native;
  hid = some bitbox02_hid;
  init_style = bitbox_api;
  startup_timeout_secs = 15;
  binary_candidates = codes "bitbox02-simulator" ∷ codes "simulator" ∷ [];
  supports_macos = false;
}

abbrev pub coldcard_hid : HidConfig
coldcard_hid = record {
  vid = 0xd13e;
  pid = 0xcc10;
  report_size = 64;
  report_descriptor = coldcard_hid_report_descriptor;
}

abbrev pub coldcard_config : WalletConfig
coldcard_config = record {
  wallet_type = coldcard;
  display_name = codes "Coldcard";
  transport = unix_dgram;
  default_port = 0;
  host_mode = native;
  hid = some coldcard_hid;
  init_style = preseeded;
  startup_timeout_secs = 15;
  binary_candidates = codes "coldcard-sim" ∷ codes "simulator.py" ∷ [];
  supports_macos = false;
}

abbrev pub specter_config : WalletConfig
specter_config = record {
  wallet_type = specter;
  display_name = codes "Specter DIY";
  transport = tcp;
  default_port = 8789;
  host_mode = native;
  hid = none;
  init_style = preseeded;
  startup_timeout_secs = 15;
  binary_candidates = codes "specter-sim" ∷ codes "main.py" ∷ [];
  supports_macos = true;
}

abbrev pub ledger_config : WalletConfig
ledger_config = record {
  wallet_type = ledger;
  display_name = codes "Ledger (Speculos)";
  transport = tcp;
  default_port = 9999;
  host_mode = docker;
  hid = none;
  init_style = preseeded;
  startup_timeout_secs = 30;
  binary_candidates = codes "speculos-runner.sh" ∷ [];
  supports_macos = true;
}

abbrev pub jade_config : WalletConfig
jade_config = record {
  wallet_type = jade;
  display_name = codes "Blockstream Jade (QEMU)";
  transport = tcp;
  default_port = 30121;
  host_mode = docker;
  hid = none;
  init_style = preseeded;
  startup_timeout_secs = 30;
  binary_candidates = codes "jade-runner.sh" ∷ [];
  supports_macos = true;
}

abbrev pub all_wallets : List WalletConfig
all_wallets =
    trezor_config ∷ bitbox02_config ∷ coldcard_config ∷ specter_config ∷ ledger_config ∷ jade_config
    ∷ []

unfoldable pub for_wallet : WalletType → WalletConfig
for_wallet trezor = trezor_config
for_wallet bitbox02 = bitbox02_config
for_wallet coldcard = coldcard_config
for_wallet specter = specter_config
for_wallet ledger = ledger_config
for_wallet jade = jade_config
