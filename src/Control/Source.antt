-- ===== src/Control/Source.antt =====
-- crates/control/src/lib.rs: `LogSource::from_str`. The error's text names the input and is left out.
use hwwctl.Prelude.{Text, codes, [], Option, none, some, ◌||◌, text_eq, if◌then◌else◌}
use hwwctl.Control.Wallet.{to_ascii_lowercase}
use hwwctl.Control.Types.{LogSource, emulator, bridge, all}

unfoldable pub match_source : Text → Option LogSource
match_source s =
    if text_eq s (codes "emulator") || text_eq s (codes "emu")
    then some emulator
    else if text_eq s (codes "bridge") || text_eq s (codes "br")
    then some bridge
    else if text_eq s (codes "all") || text_eq s []
    then some all
    else none

unfoldable pub parse_source : Text → Option LogSource
parse_source s = match_source (to_ascii_lowercase s)
