-- ===== src/Config.antt =====
-- The configuration's checks, internal/config/validate.go: the identity and the broadcast groups.
-- A problem is named by what it is about; its message is left out.
pub mod Accepted
pub mod Settings
pub mod Devices
pub mod Services
pub mod Credentials
pub mod Environment
pub mod Load
use device_serial_scanner.Common.{
  ℕ, suc, ◌+◌, Bool, true, false, not, ◌||◌, Option, none, some, List, [], ◌∷◌, ◌++◌, Bytes, Assoc,
  lookup, put, text_eq, length, ltb, if◌then◌else◌,
}
use device_serial_scanner.Wire.Topics.{
  is_segment, group_level, TxScope, scope_project, scope_site, scope_station,
}

pub record Identity : Type 0 where
  pub project : Bytes
  pub site : Bytes
  pub station : Bytes
  pub instance_id : Bytes

pub data IdentityField : Type 0 where
  field_project field_site field_station : IdentityField

pub data Problem : Type 0 where
  is_required not_a_segment : IdentityField → Problem
  station_reserved bad_instance : Problem
  group_not_a_segment : TxScope → ℕ → Problem
  group_duplicate : TxScope → ℕ → ℕ → Problem

-- The problems of one level of the identity.
unfoldable pub level_problems : IdentityField → Bytes → List Problem
level_problems field [] = is_required field ∷ []
level_problems field (b ∷ bs) = if is_segment (b ∷ bs) then [] else not_a_segment field ∷ []

-- maxInstanceLength
abbrev pub max_instance_length : ℕ
max_instance_length = 64

-- An empty instance takes the station's id, which is checked as the station.
unfoldable pub instance_problems : Bytes → List Problem
instance_problems [] = []
instance_problems (b ∷ bs) =
    if not (is_segment (b ∷ bs)) || ltb max_instance_length (length (b ∷ bs))
    then bad_instance ∷ []
    else []

abbrev pub reserved_problems : Bytes → List Problem
reserved_problems station = if text_eq station group_level then station_reserved ∷ [] else []

-- validateIdentity.
unfoldable pub validate_identity : Identity → List Problem
unfolding level_problems instance_problems
validate_identity identity =
    level_problems field_project identity.project
    ++ level_problems field_site identity.site
    ++ level_problems field_station identity.station
    ++ reserved_problems identity.station
    ++ instance_problems identity.instance_id

-- The groups of one scope: `seen` has the index of each group by its name.
unfoldable pub scope_problems : TxScope → ℕ → Assoc ℕ → List Bytes → List Problem
scope_problems scope index seen [] = []
scope_problems scope index seen (group ∷ groups) =
    let skipped = scope_problems scope (suc index) seen groups in
    let rest = scope_problems scope (suc index) (put group index seen) groups in
    if is_segment group
    then elim (lookup group seen) [
      | none ↦ rest
      | some earlier ↦ group_duplicate scope index earlier ∷ rest
    ]
    else group_not_a_segment scope index ∷ skipped

pub record BroadcastGroups : Type 0 where
  pub in_project : List Bytes
  pub in_site : List Bytes
  pub in_station : List Bytes

-- validateBroadcastGroups, over ByScope.
unfoldable pub validate_broadcast_groups : BroadcastGroups → List Problem
unfolding scope_problems
validate_broadcast_groups groups =
    scope_problems scope_project 0 [] groups.in_project
    ++ scope_problems scope_site 0 [] groups.in_site
    ++ scope_problems scope_station 0 [] groups.in_station
