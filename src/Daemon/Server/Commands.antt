-- ===== src/Daemon/Server/Commands.antt =====
-- crates/hwwctl/src/daemon/registry.rs: a call of the registry's actor through its channels. `dispatch` has
-- the calls while the actor runs.
use hwwctl.Prelude.{Text, codes, Bool, if◌then◌else◌}
use hwwctl.Control.Types.{Error, text, internal, Result, err}

abbrev internal_error : Text → Error
internal_error msg = record { code = internal; message = text msg }

-- What becomes of the two channels of a call.
pub record Channels : Type 0 where
  pub sent : Bool
  pub replied : Bool

-- `Registry::start` and the others that answer a result
unfoldable pub call : {A : Type 0} → Channels → Result Error A → Result Error A
call c r =
    if c.sent
    then (if c.replied then r else err (internal_error (codes "registry dropped reply")))
    else err (internal_error (codes "registry task is gone"))
