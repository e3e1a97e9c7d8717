-- ===== src/Tests/Configs.antt =====
-- internal/config/validate.go, on one identity.
use device_serial_scanner.Common.{◌≡◌, ◌↔◌, refl, [], ◌∷◌, codes, arith, lookup, put, text_eq}
use device_serial_scanner.Wire.Topics.{scope_site, is_segment}
use device_serial_scanner.Config.{
  Identity, validate_identity, BroadcastGroups, validate_broadcast_groups, group_duplicate,
}
use device_serial_scanner.Config.Accepted.{IsBuildable, validate_identity_iff}

abbrev bench : Identity
bench = record {
  project = codes "p1";
  site = codes "malmo";
  station = codes "s-3";
  instance_id = codes "agent-2";
}

validate_identity_iff_example : (validate_identity bench ≡ []) ↔ IsBuildable bench
validate_identity_iff_example = validate_identity_iff bench (ground arith)

abbrev twice : BroadcastGroups
twice = record {
  in_project = codes "a" ∷ [];
  in_site = codes "a" ∷ codes "b" ∷ codes "a" ∷ [];
  in_station = [];
}

twice_refused : validate_broadcast_groups twice ≡ group_duplicate scope_site 2 0 ∷ []
unfolding validate_broadcast_groups lookup put text_eq is_segment
twice_refused = refl
