-- ===== src/Wire/ReadTx.antt =====
-- ReadTx of internal/wire/messages.go: a sender's tx, checked field by field. The JSON decoder, the
-- base64 decoder and the UUID parser that it calls are the parameter `Codec`.
pub mod Accepts
use device_serial_scanner.Common.{
  ℕ, ◌≡◌, ◌≢◌, ◌↔◌, Bool, true, false, not, ◌&&◌, ◌||◌, Option, none, some, List, [], ◌∷◌, Bytes,
  Assoc, lookup, codes, length, ◌==◌, text_eq, if◌then◌else◌, arith,
}
use device_serial_scanner.Wire.Tx.{
  TxRef, TxProblem, Problem, not_an_object, more_than_one_value, unknown_fields, missing_fields,
  wrong_type, wrong_schema, empty_sender, line_break, bad_base64, no_bytes, not_uuid,
  code_invalid_message, code_invalid_id,
}

-- A JSON value, as far as ReadTx tells values apart.
pub data JsonValue : Type 0 where
  json_null : JsonValue
  whole negative : ℕ → JsonValue
  text_value : Bytes → JsonValue
  other_value : JsonValue

-- What the decoder makes of a payload: no object, or the object's names with their values, and
-- whether anything but white space follows it. A null is an object with no name.
pub data Decoded : Type 0 where
  no_object : Decoded
  object : Assoc JsonValue → Bool → Decoded

pub record Codec : Type 0 where
  pub decode : Bytes → Decoded
  pub base64_decode : Bytes → Option Bytes
  pub uuid_parses : Bytes → Bool

pub data Field : Type 0 where
  schema_field id_field sender_field raw_b64_field : Field

abbrev pub field_name : Field → Bytes
field_name schema_field = codes "schema"
field_name id_field = codes "id"
field_name sender_field = codes "sender"
field_name raw_b64_field = codes "raw_b64"

abbrev pub is_field_name : Bytes → Bool
is_field_name name =
    text_eq (field_name schema_field) name
    || (text_eq (field_name id_field) name
        || (text_eq (field_name sender_field) name || text_eq (field_name raw_b64_field) name))

unfoldable pub has_unknown : Assoc JsonValue → Bool
has_unknown [] = false
has_unknown ((name, v) ∷ names) = not (is_field_name name) || has_unknown names

-- Whether a value can be read into a field: a number for the schema, a string for the others.
unfoldable pub fits : Field → JsonValue → Bool
fits schema_field (whole n) = true
fits schema_field (negative n) = true
fits id_field (text_value t) = true
fits sender_field (text_value t) = true
fits raw_b64_field (text_value t) = true
fits _ _ = false

abbrev pub text_of : Option JsonValue → Bytes
text_of (some (text_value t)) = t
text_of _ = []

-- txRefOf.
unfoldable pub tx_ref_of : Assoc JsonValue → TxRef
tx_ref_of names = record {
  id = text_of (lookup (field_name id_field) names);
  sender = text_of (lookup (field_name sender_field) names);
}

-- The loop over the fields: a value of the wrong type ends it; a missing or null one does not.
unfoldable pub scan_fields : List Field → Assoc JsonValue → Bool → Option Problem
unfolding fits
scan_fields [] names missing = if missing then some missing_fields else none
scan_fields (f ∷ fs) names missing = elim (lookup (field_name f) names) [
  | none ↦ scan_fields fs names true
  | some json_null ↦ scan_fields fs names true
  | some v ↦ let rest = scan_fields fs names missing in if fits f v then rest else some wrong_type
]

abbrev pub all_fields : List Field
all_fields = schema_field ∷ id_field ∷ sender_field ∷ raw_b64_field ∷ []

abbrev pub is_schema_2 : Option JsonValue → Bool
is_schema_2 (some (whole n)) = n == 2
is_schema_2 _ = false

-- strings.ContainsAny(rawB64, "\r\n").
unfoldable pub has_line_break : Bytes → Bool
has_line_break [] = false
has_line_break (c ∷ cs) = (c == 13 || c == 10) || has_line_break cs

pub data ReadResult : Type 0 where
  unreadable : TxProblem → ReadResult
  readable : Bytes → ReadResult

abbrev pub invalid : Problem → ReadResult
invalid why = unreadable (record { code = code_invalid_message; text = why })

-- The length of a UUID with its hyphens.
abbrev pub hyphenated_uuid_length : ℕ
hyphenated_uuid_length = 36

-- The checks on the decoded bytes and on the id.
unfoldable pub read_raw : Codec → Bytes → Option Bytes → ReadResult
read_raw codec id none = invalid bad_base64
read_raw codec id (some []) = invalid no_bytes
read_raw codec id (some (b ∷ bs)) =
    if not (codec.uuid_parses id) || not (length id == hyphenated_uuid_length)
    then unreadable (record { code = code_invalid_id; text = not_uuid })
    else readable (b ∷ bs)

-- The checks behind the loop, in their order.
unfoldable pub read_values : Codec → Assoc JsonValue → ReadResult
read_values codec names =
    let sender = text_of (lookup (field_name sender_field) names) in
    let raw_b64 = text_of (lookup (field_name raw_b64_field) names) in
    if not (is_schema_2 (lookup (field_name schema_field) names))
    then invalid wrong_schema
    else if text_eq sender []
    then invalid empty_sender
    else if has_line_break raw_b64
    then invalid line_break
    else read_raw codec (text_of (lookup (field_name id_field) names)) (codec.base64_decode raw_b64)

unfoldable pub read_tx : Codec → Bytes → TxRef × ReadResult
read_tx codec payload = elim (codec.decode payload) [
  | no_object ↦ (record { id = []; sender = [] }, invalid not_an_object)
  | object names true ↦ (record { id = []; sender = [] }, invalid more_than_one_value)
  | object names false ↦ (
    tx_ref_of names,
    if has_unknown names
        then invalid unknown_fields
        else elim (scan_fields all_fields names false) [
          | some why ↦ invalid why
          | none ↦ read_values codec names
        ],
  )
]
