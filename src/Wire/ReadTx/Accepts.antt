-- ===== src/Wire/ReadTx/Accepts.antt =====
-- Which tx ReadTx takes.
use device_serial_scanner.Common.{
  ◌≡◌, ◌≢◌, refl, ◌↔◌, true, false, Option, none, some, List, [], ◌∷◌, Bytes, Assoc, lookup, length,
  text_eq_iff, arith,
}
use device_serial_scanner.Wire.Tx.{TxRef}
use device_serial_scanner.Wire.ReadTx.{
  JsonValue, whole, text_value, Decoded, no_object, object, Codec, Field, field_name, schema_field,
  is_schema_2, id_field, sender_field, raw_b64_field, has_unknown, fits, tx_ref_of, scan_fields,
  all_fields, has_line_break, readable, hyphenated_uuid_length, read_raw, read_values, read_tx,
  text_of,
}

-- What the protocol asks of a tx: one object with the four fields and no other, schema 2, a sender,
-- padded base64 without line breaks that holds bytes, and a hyphenated UUID.
pub record IsTx (codec : Codec) (payload : Bytes) (ref : TxRef) (raw : Bytes) : Type 0 where
  pub names : Assoc JsonValue
  pub raw_b64 : Bytes
  pub one_object : codec.decode payload ≡ object names false
  pub no_other : has_unknown names ≡ false
  pub schema_is : lookup (field_name schema_field) names ≡ some (whole 2)
  pub id_is : lookup (field_name id_field) names ≡ some (text_value ref.id)
  pub sender_is : lookup (field_name sender_field) names ≡ some (text_value ref.sender)
  pub raw_is : lookup (field_name raw_b64_field) names ≡ some (text_value raw_b64)
  pub has_sender : ref.sender ≢ []
  pub one_line : has_line_break raw_b64 ≡ false
  pub decodes : codec.base64_decode raw_b64 ≡ some raw
  pub has_bytes : raw ≢ []
  pub id_parses : codec.uuid_parses ref.id ≡ true
  pub id_length : length ref.id ≡ hyphenated_uuid_length

read_tx-of_IsTx :
    (codec : Codec) (payload raw : Bytes) (ref : TxRef)
    → IsTx codec payload ref raw
    → read_tx codec payload ≡ (ref, readable raw)
unfolding read_tx tx_ref_of scan_fields read_values read_raw
read_tx-of_IsTx codec payload raw ref h = ground (arith, text_eq_iff ref.sender [])

scan_missing : (fs : List Field) (names : Assoc JsonValue) → scan_fields fs names true ≢ none
unfolding scan_fields
scan_missing [] names h = ground arith
scan_missing (f ∷ fs) names h = ground (arith, scan_missing fs names)

-- A round of the loop that ends well: the value is there and has its type.
scan_cons :
    (f : Field) (fs : List Field) (names : Assoc JsonValue)
    → scan_fields (f ∷ fs) names false ≡ none
    → ((v : JsonValue) × (lookup (field_name f) names ≡ some v) × (fits f v ≡ true))
      × (scan_fields fs names false ≡ none)
unfolding scan_fields
scan_cons f fs names h = ground (arith, scan_missing fs names)

-- A text field that fits is a text.
fits_text :
    (f : Field) (o : Option JsonValue) (v : JsonValue)
    → f ≢ schema_field
    → o ≡ some v
    → fits f v ≡ true
    → o ≡ some (text_value (text_of o))
unfolding fits
fits_text schema_field o v n e h = absurd (n refl)
fits_text id_field o v n e h = ground arith
fits_text sender_field o v n e h = ground arith
fits_text raw_b64_field o v n e h = ground arith

record Scanned (names : Assoc JsonValue) : Type 0 where
  id_there :
      lookup (field_name id_field) names
      ≡ some (text_value (text_of (lookup (field_name id_field) names)))
  sender_there :
      lookup (field_name sender_field) names
      ≡ some (text_value (text_of (lookup (field_name sender_field) names)))
  raw_there :
      lookup (field_name raw_b64_field) names
      ≡ some (text_value (text_of (lookup (field_name raw_b64_field) names)))

scanned : (names : Assoc JsonValue) → scan_fields all_fields names false ≡ none → Scanned names
scanned names h =
    let (a, b) = scan_cons schema_field (id_field ∷ sender_field ∷ raw_b64_field ∷ []) names h in
    let ((v, c, d), e) = scan_cons id_field (sender_field ∷ raw_b64_field ∷ []) names b in
    let ((w, f, g), k) = scan_cons sender_field (raw_b64_field ∷ []) names e in
    let ((x, l, m), n) = scan_cons raw_b64_field [] names k in
    record {
      id_there = fits_text id_field _ v (λ q. cc) c d;
      sender_there = fits_text sender_field _ w (λ q. cc) f g;
      raw_there = fits_text raw_b64_field _ x (λ q. cc) l m;
    }

-- What a successful read went through.
record Passed (codec : Codec) (names : Assoc JsonValue) (raw : Bytes) : Type 0 where
  no_other : has_unknown names ≡ false
  scan_ok : scan_fields all_fields names false ≡ none
  schema_ok : is_schema_2 (lookup (field_name schema_field) names) ≡ true
  sender_ok : text_of (lookup (field_name sender_field) names) ≢ []
  one_line : has_line_break (text_of (lookup (field_name raw_b64_field) names)) ≡ false
  decodes : codec.base64_decode (text_of (lookup (field_name raw_b64_field) names)) ≡ some raw
  has_bytes : raw ≢ []
  id_parses : codec.uuid_parses (text_of (lookup (field_name id_field) names)) ≡ true
  id_length : length (text_of (lookup (field_name id_field) names)) ≡ hyphenated_uuid_length

read_raw-readable :
    (codec : Codec) (id : Bytes) (o : Option Bytes) (raw : Bytes)
    → read_raw codec id o ≡ readable raw
    → (o ≡ some raw)
      × (raw ≢ [])
      × (codec.uuid_parses id ≡ true)
      × (length id ≡ hyphenated_uuid_length)
unfolding read_raw
read_raw-readable codec id none raw h = cc
read_raw-readable codec id (some []) raw h = cc
read_raw-readable codec id (some (b ∷ bs)) raw h = ground arith

passed :
    (codec : Codec) (payload raw : Bytes) (ref : TxRef) (names : Assoc JsonValue)
    → codec.decode payload ≡ object names false
    → read_tx codec payload ≡ (ref, readable raw)
    → Passed codec names raw
unfolding read_tx read_values
passed codec payload raw ref names e h = ground (
  arith,
  read_raw-readable codec (text_of (lookup (field_name id_field) names))
      (codec.base64_decode (text_of (lookup (field_name raw_b64_field) names))) raw,
  text_eq_iff (text_of (lookup (field_name sender_field) names)) [],
)

schema_whole : (o : Option JsonValue) → is_schema_2 o ≡ true → o ≡ some (whole 2)
schema_whole none h = cc
schema_whole (some (whole n)) h = ground arith
schema_whole (some _) h = cc

IsTx-of_object :
    (codec : Codec) (payload raw : Bytes) (ref : TxRef) (names : Assoc JsonValue)
    → codec.decode payload ≡ object names false
    → read_tx codec payload ≡ (ref, readable raw)
    → IsTx codec payload ref raw
unfolding tx_ref_of
IsTx-of_object codec payload raw ref names e h =
    let q = passed codec payload raw ref names e h in
    let there = scanned names q.scan_ok in
    let same : ref ≡ tx_ref_of names = unfold read_tx in ground arith in
    record {
      names = names;
      raw_b64 = text_of (lookup (field_name raw_b64_field) names);
      one_object = e;
      no_other = q.no_other;
      schema_is = schema_whole _ q.schema_ok;
      id_is = rw same there.id_there;
      sender_is = rw same there.sender_there;
      raw_is = there.raw_there;
      has_sender = rw same q.sender_ok;
      one_line = q.one_line;
      decodes = q.decodes;
      has_bytes = q.has_bytes;
      id_parses = rw same q.id_parses;
      id_length = rw same q.id_length;
    }

IsTx-of_read_tx :
    (codec : Codec) (payload raw : Bytes) (ref : TxRef)
    → read_tx codec payload ≡ (ref, readable raw)
    → IsTx codec payload ref raw
IsTx-of_read_tx codec payload raw ref h = go (codec.decode payload) refl
  where
    go : (d : Decoded) → codec.decode payload ≡ d → IsTx codec payload ref raw
    go no_object e = absurd (unfold read_tx in ground arith)
    go (object names true) e = absurd (unfold read_tx in ground arith)
    go (object names false) e = IsTx-of_object codec payload raw ref names e h

-- ReadTx takes a payload, with these bytes to write and this reference, exactly when the payload is
-- a tx as the protocol asks: one JSON object with the four fields and no other, schema 2, a sender,
-- base64 on one line that holds bytes, and a UUID in the hyphenated form.
pub read_tx_iff :
    (codec : Codec) (payload raw : Bytes) (ref : TxRef)
    → (read_tx codec payload ≡ (ref, readable raw)) ↔ IsTx codec payload ref raw
read_tx_iff codec payload raw ref =
    (IsTx-of_read_tx codec payload raw ref, read_tx-of_IsTx codec payload raw ref)
