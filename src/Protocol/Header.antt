-- ===== src/Protocol/Header.antt =====
-- crates/protocol/src/trezor.rs and lib.rs: the decoder of a first report's header.
-- Names are native texts; a printed number, a hex dump and a log line are lists of characters.
pub mod Laws
use hwwctl.Prelude.{
  ℕ, ◌+◌, ◌*◌, List, [], ◌∷◌, ◌++◌, length, Text, String, codes, Bool, true, false, not, ◌&&◌, ◌||◌,
  ltb, leb, ◌==◌, if◌then◌else◌,
}
use hwwctl.Protocol.Frame.{from_be16, from_be32}
use hwwctl.Format.{decimal, hex_dump, join}

-- The arms of the match, in the order of the source.
abbrev message_types : List (ℕ × String)
message_types =
    (0, "Initialize")
    ∷ (1, "Ping")
    ∷ (2, "Success")
    ∷ (3, "Failure")
    ∷ (4, "ChangePin")
    ∷ (5, "WipeDevice")
    ∷ (9, "GetEntropy")
    ∷ (10, "Entropy")
    ∷ (16, "LoadDevice")
    ∷ (17, "ResetDevice")
    ∷ (18, "Features")
    ∷ (19, "GetFeatures")
    ∷ (20, "ButtonRequest")
    ∷ (21, "ButtonAck")
    ∷ (22, "SetBusy")
    ∷ (23, "ApplySettings")
    ∷ (24, "ApplyFlags")
    ∷ (26, "BackupDevice")
    ∷ (27, "EntropyRequest")
    ∷ (28, "EntropyAck")
    ∷ (29, "RecoveryDevice")
    ∷ (30, "WordRequest")
    ∷ (31, "WordAck")
    ∷ (35, "GetPublicKey")
    ∷ (36, "PublicKey")
    ∷ (37, "SignTx")
    ∷ (38, "TxRequest")
    ∷ (39, "TxAck")
    ∷ (40, "GetAddress")
    ∷ (41, "Address")
    ∷ (42, "SignMessage")
    ∷ (43, "VerifyMessage")
    ∷ (44, "MessageSignature")
    ∷ (45, "PassphraseRequest")
    ∷ (46, "PassphraseAck")
    ∷ (50, "Cancel")
    ∷ (55, "PinMatrixRequest")
    ∷ (56, "PinMatrixAck")
    ∷ (100, "CipherKeyValue")
    ∷ (101, "CipheredKeyValue")
    ∷ (110, "GetOwnershipId")
    ∷ (111, "OwnershipId")
    ∷ (112, "GetOwnershipProof")
    ∷ (113, "OwnershipProof")
    ∷ []

unfoldable pub name_in : List (ℕ × String) → ℕ → String
name_in [] id = "Unknown"
name_in ((k, name) ∷ rest) id = if k == id then name else name_in rest id

unfoldable pub message_type_name : ℕ → String
message_type_name id = name_in message_types id

pub data DecodeError : Type 0 where
  too_short : ℕ → DecodeError
  bad_magic : ℕ → ℕ → ℕ → DecodeError
  continuation_packet : DecodeError

pub record DecodedMessage : Type 0 where
  pub wallet_type : String
  pub message_type : String
  pub fields : List (String × Text)
  pub raw_hex : Text

pub data Decoded : Type 0 where
  ok : DecodedMessage → Decoded
  err : DecodeError → Decoded

-- What follows the length check, on the nine bytes that the source indexes.
unfoldable pub decode_header : ℕ → ℕ → ℕ → ℕ → ℕ → ℕ → ℕ → ℕ → ℕ → List ℕ → Decoded
decode_header b0 b1 b2 b3 b4 b5 b6 b7 b8 all =
    let msg_type_id = from_be16 b3 b4 in
    let payload_len = from_be32 b5 b6 b7 b8 in
    if b0 == 0x3f && not (b1 == 0x23)
    then err continuation_packet
    else (if not (b0 == 0x3f) || not (b1 == 0x23) || not (b2 == 0x23)
        then err (bad_magic b0 b1 b2)
        else ok (record {
          wallet_type = "Trezor";
          message_type = message_type_name msg_type_id;
          fields = ("type_id", decimal msg_type_id) ∷ ("payload_len", decimal payload_len) ∷ [];
          raw_hex = hex_dump all;
        }))

-- Fewer than nine bytes are too short.
unfoldable pub decode_packet : List ℕ → Decoded
decode_packet (b0 ∷ b1 ∷ b2 ∷ b3 ∷ b4 ∷ b5 ∷ b6 ∷ b7 ∷ b8 ∷ rest) =
    decode_header b0 b1 b2 b3 b4 b5 b6 b7 b8 (b0 ∷ b1 ∷ b2 ∷ b3 ∷ b4 ∷ b5 ∷ b6 ∷ b7 ∷ b8 ∷ rest)
decode_packet short = err (too_short (length short))

unfoldable pub is_continuation : List ℕ → Bool
is_continuation (b0 ∷ b1 ∷ b2 ∷ rest) = b0 == 0x3f && not (b1 == 0x23 && b2 == 0x23)
is_continuation short = false

abbrev field_texts : List (String × Text) → List Text
field_texts [] = []
field_texts ((k, v) ∷ fields) = (codes k ++ (codes "=" ++ v)) ∷ field_texts fields

unfoldable pub log_line_of : Text → List (String × Text) → Text
log_line_of name [] = name
log_line_of name (f ∷ fields) =
    name ++ (codes " (" ++ (join (codes ", ") (field_texts (f ∷ fields)) ++ codes ")"))

-- `DecodedMessage::log_line`
unfoldable pub log_line : DecodedMessage → Text
log_line m = log_line_of (codes m.message_type) m.fields
