-- ===== src/Protocol/Field/Total.antt =====
-- crates/protocol/src/trezor_debug.rs: the protobuf readers end without a panic on every payload whose
-- varints stay below 2 ^ 63, well formed or not.
use hwwctl.Prelude.{ℕ, ◌<◌, ◌≡◌, List, drop}
use hwwctl.Protocol.Varint.{decode_varint}
use hwwctl.Protocol.Field.{Outcome, done}
use hwwctl.Protocol.Field.Cursor.{slice_max}

-- No varint that starts anywhere in the slice reaches 2 ^ 63.
abbrev pub IsTame : List ℕ → Type 0
IsTame bytes = (p : ℕ) → (decode_varint (drop p bytes)).0 < slice_max

-- The reader comes to an end, with a result.
abbrev pub Returns : {A : Type 0} → Outcome A → Type 0
Returns {A} r = (a : A) × (r ≡ done a)
