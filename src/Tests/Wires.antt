-- ===== src/Tests/Wires.antt =====
-- internal/wire: a station's topics, and a tx as a sender publishes it.
use device_serial_scanner.Common.{
  ◌≡◌, ◌↔◌, refl, true, false, some, [], ◌∷◌, Bytes, codes, text_eq, lookup,
}
use device_serial_scanner.Wire.Topics.{
  StationTopics, ok, is_segment, new_station_topics, scope_site, join_levels,
}
use device_serial_scanner.Wire.Topics.Distinct.{group_tx_topic, topic_of, topic_of-injective}
use device_serial_scanner.Wire.Tx.{TxRef}
use device_serial_scanner.Wire.ReadTx.{
  whole, text_value, object, no_object, Codec, readable, read_tx, tx_ref_of, has_unknown,
  scan_fields, read_values, read_raw, has_line_break,
}
use device_serial_scanner.Wire.ReadTx.Accepts.{IsTx, read_tx_iff}

abbrev prefixes : StationTopics
prefixes = record {
  project_prefix = codes "skuhus/acme";
  site_prefix = codes "skuhus/acme/vasby";
  station_prefix = codes "skuhus/acme/vasby/pack-03";
}

station_built : new_station_topics (codes "acme") (codes "vasby") (codes "pack-03") ≡ ok prefixes
unfolding new_station_topics is_segment join_levels text_eq
station_built = refl

scales_topic :
    topic_of prefixes (group_tx_topic scope_site (codes "scales"))
    ≡ ok (codes "skuhus/acme/vasby/group/scales/tx")
unfolding topic_of is_segment join_levels
scales_topic = refl

-- Another station of the same site, which is in the same group.
abbrev neighbour : StationTopics
neighbour = record {
  project_prefix = codes "skuhus/acme";
  site_prefix = codes "skuhus/acme/vasby";
  station_prefix = codes "skuhus/acme/vasby/pack-04";
}

neighbour_built : new_station_topics (codes "acme") (codes "vasby") (codes "pack-04") ≡ ok neighbour
unfolding new_station_topics is_segment join_levels text_eq
neighbour_built = refl

neighbour_topic :
    topic_of neighbour (group_tx_topic scope_site (codes "scales"))
    ≡ ok (codes "skuhus/acme/vasby/group/scales/tx")
unfolding topic_of is_segment join_levels
neighbour_topic = refl

topic_of-injective_example :
    (group_tx_topic scope_site (codes "scales") ≡ group_tx_topic scope_site (codes "scales"))
    × ((codes "acme" ≡ codes "acme") × (codes "vasby" ≡ codes "vasby"))
topic_of-injective_example =
    topic_of-injective (codes "acme") (codes "vasby") (codes "pack-03") (codes "acme")
      (codes "vasby") (codes "pack-04") prefixes neighbour
      (group_tx_topic scope_site (codes "scales")) (group_tx_topic scope_site (codes "scales"))
      station_built neighbour_built scales_topic neighbour_topic

-- A decoder that knows one payload, and base64 of one text.
abbrev pub uuid_text : Bytes
uuid_text = codes "0192a3b4-c5d6-7e8f-9a0b-1c2d3e4f5a6b"

abbrev pub sample_codec : Codec
sample_codec = record {
  decode = λ payload. elim payload [
    | [] ↦ no_object
    | c ∷ cs ↦
        object
          ((codes "schema", whole 2)
            ∷ (codes "id", text_value uuid_text)
            ∷ (codes "sender", text_value (codes "labels"))
            ∷ (codes "raw_b64", text_value (codes "QQ=="))
            ∷ [])
          false
  ];
  base64_decode = λ t. some (65 ∷ []);
  uuid_parses = λ t. true;
}

abbrev pub sample_ref : TxRef
sample_ref = record { id = uuid_text; sender = codes "labels" }

read_tx_iff_example :
    (read_tx sample_codec (codes "{") ≡ (sample_ref, readable (65 ∷ [])))
    ↔ IsTx sample_codec (codes "{") sample_ref (65 ∷ [])
read_tx_iff_example = read_tx_iff sample_codec (codes "{") (65 ∷ []) sample_ref

pub sample_read : read_tx sample_codec (codes "{") ≡ (sample_ref, readable (65 ∷ []))
unfolding read_tx tx_ref_of has_unknown scan_fields read_values read_raw has_line_break lookup
    text_eq
sample_read = refl
