-- ===== src/Config/Devices.antt =====
-- The checks of the devices, internal/config/validate.go, validateDevices. A problem is named by
-- what it is about, behind the index of its device; its message is left out.
use device_serial_scanner.Common.{
  ℕ, suc, Bool, true, false, not, ◌&&◌, ◌||◌, Option, none, some, List, [], ◌∷◌, ◌++◌, map, concat,
  Bytes, Assoc, codes, lookup, put, text_eq, length, leb, ◌==◌, if◌then◌else◌, ℤ, at_least, at_most,
  natural, ◌%◌,
}
use device_serial_scanner.Backoff.{PolicyProblem, validate_policy}
use device_serial_scanner.Wire.Topics.{is_segment, agent_level}
use device_serial_scanner.Config.{Problem, validate_broadcast_groups}
use device_serial_scanner.Config.Settings.{DeviceConfig, reopen_policy}

-- What the operating system and Go's libraries answer: filepath.IsAbs, whether strings.TrimSpace
-- leaves nothing, and whether a text has a control character.
pub record Texts : Type 0 where
  pub is_abs : Bytes → Bool
  pub is_blank : Bytes → Bool
  pub has_control : Bytes → Bool

pub data DeviceProblem : Type 0 where
  id_required id_not_a_segment id_reserved : DeviceProblem
  id_duplicate path_duplicate : ℕ → DeviceProblem
  hid_not_implemented kind_required kind_unknown : DeviceProblem
  path_required path_relative path_callin : DeviceProblem
  bad_baud bad_data_bits bad_parity stop_bits_one_half bad_stop_bits : DeviceProblem
  separator_required separator_backslash separator_long : DeviceProblem
  frame_small frame_large bad_inter_char_timeout bad_message_expiry : DeviceProblem
  bad_open_attempts bad_open_interval bad_chunk_bytes bad_remembered_ids : DeviceProblem
  bad_reopen_policy : PolicyProblem → DeviceProblem
  type_blank type_long type_control : DeviceProblem
  in_groups : Problem → DeviceProblem

-- The problem of a check that failed.
abbrev pub unless {ℓ} : {A : Type ℓ} → Bool → A → List A
unless true problem = []
unless false problem = problem ∷ []

-- The id, with the index of each id before it.
unfoldable pub id_problems : Assoc ℕ → Bytes → List DeviceProblem
id_problems seen [] = id_required ∷ []
id_problems seen (b ∷ bs) =
    if not (is_segment (b ∷ bs))
    then id_not_a_segment ∷ []
    else if text_eq (b ∷ bs) agent_level
    then id_reserved ∷ []
    else elim (lookup (b ∷ bs) seen) [ none ↦ [] | some earlier ↦ id_duplicate earlier ∷ [] ]

-- Only an id that follows the rules is noted.
abbrev pub see_id : ℕ → Bytes → Assoc ℕ → Assoc ℕ
see_id index id seen =
    if is_segment id && not (text_eq id agent_level) then put id index seen else seen

abbrev pub kind_problems : Bytes → List DeviceProblem
kind_problems kind =
    if text_eq kind (codes "serial")
    then []
    else if text_eq kind (codes "hid")
    then hid_not_implemented ∷ []
    else if text_eq kind []
    then kind_required ∷ []
    else kind_unknown ∷ []

-- What follows a prefix.
unfoldable pub cut_prefix : Bytes → Bytes → Option Bytes
cut_prefix [] text = some text
cut_prefix (c ∷ prefix) [] = none
cut_prefix (c ∷ prefix) (d ∷ text) =
    let rest = cut_prefix prefix text in if c == d then rest else none

-- IsCallinDevice.
abbrev pub is_callin_device : Bytes → Bool
unfolding cut_prefix
is_callin_device path = elim (cut_prefix (codes "/dev/tty.") path) [ none ↦ false | some r ↦ true ]

-- validateDevicePath, its problems.
unfoldable pub path_problems : Texts → Bytes → List DeviceProblem
unfolding is_callin_device
path_problems texts path =
    if text_eq path []
    then path_required ∷ []
    else if not (texts.is_abs path)
    then path_relative ∷ []
    else if is_callin_device path
    then path_callin ∷ []
    else []

-- A path that an earlier device has.
abbrev pub shared_path_problems : Assoc ℕ → Bytes → List DeviceProblem
shared_path_problems seen_paths path =
    if text_eq path []
    then []
    else elim (lookup path seen_paths) [ none ↦ [] | some earlier ↦ path_duplicate earlier ∷ [] ]

abbrev pub see_path : ℕ → Bytes → Assoc ℕ → Assoc ℕ
see_path index path seen_paths = if text_eq path [] then seen_paths else put path index seen_paths

-- slices.Contains.
unfoldable pub is_one_of : List Bytes → Bytes → Bool
is_one_of [] text = false
is_one_of (name ∷ names) text = if text_eq name text then true else is_one_of names text

abbrev pub parities : List Bytes
parities = codes "none" ∷ codes "odd" ∷ codes "even" ∷ codes "mark" ∷ codes "space" ∷ []

abbrev pub stop_bits_problems : Bytes → List DeviceProblem
stop_bits_problems stop_bits =
    if text_eq stop_bits (codes "1") || text_eq stop_bits (codes "2")
    then []
    else if text_eq stop_bits (codes "1.5")
    then stop_bits_one_half ∷ []
    else bad_stop_bits ∷ []

unfoldable pub has_backslash : Bytes → Bool
has_backslash [] = false
has_backslash (c ∷ cs) = if c == 92 then true else has_backslash cs

-- validateSeparator, with maxSeparatorBytes.
unfoldable pub separator_problems : Bytes → List DeviceProblem
unfolding has_backslash
separator_problems [] = separator_required ∷ []
separator_problems (c ∷ cs) =
    if has_backslash (c ∷ cs)
    then separator_backslash ∷ []
    else unless (leb (length (c ∷ cs)) 8) separator_long

-- A second, in nanoseconds.
abbrev pub second : ℕ
second = 1000000000

-- wholeSeconds.
unfoldable pub whole_seconds : ℤ → Bool
whole_seconds value = at_least second value && natural value % second == 0

-- validateDeviceType, with maxDeviceTypeLength.
abbrev pub type_problems : Texts → Bytes → List DeviceProblem
type_problems texts device_type =
    if text_eq device_type []
    then []
    else if texts.is_blank device_type
    then type_blank ∷ []
    else if not (leb (length device_type) 64)
    then type_long ∷ []
    else if texts.has_control device_type
    then type_control ∷ []
    else []

-- maxFrameBytesLimit
abbrev pub max_frame_bytes_limit : ℕ
max_frame_bytes_limit = 1048576

-- The problems of one device, given what the devices before it have: those of each setting, in the
-- source's order.
unfoldable pub device_parts : Texts → Assoc ℕ → Assoc ℕ → DeviceConfig → List (List DeviceProblem)
unfolding id_problems path_problems is_one_of separator_problems whole_seconds
device_parts texts seen seen_paths d =
    id_problems seen d.id
    ∷ kind_problems d.kind
    ∷ path_problems texts d.path
    ∷ shared_path_problems seen_paths d.path
    ∷ unless (at_least 1 d.baud) bad_baud
    ∷ unless (at_least 5 d.data_bits && at_most 8 d.data_bits) bad_data_bits
    ∷ unless (is_one_of parities d.parity) bad_parity
    ∷ stop_bits_problems d.stop_bits
    ∷ separator_problems d.separator
    ∷ unless (at_least 1 d.max_frame_bytes) frame_small
    ∷ unless (at_most max_frame_bytes_limit d.max_frame_bytes) frame_large
    ∷ unless (at_least 1 d.inter_char_timeout) bad_inter_char_timeout
    ∷ unless (whole_seconds d.message_expiry) bad_message_expiry
    ∷ unless (at_least 1 d.tx_open_attempts) bad_open_attempts
    ∷ unless (at_least 1 d.tx_open_interval) bad_open_interval
    ∷ unless (at_least 1 d.tx_chunk_bytes) bad_chunk_bytes
    ∷ unless (at_least 1 d.tx_remembered_ids) bad_remembered_ids
    ∷ map bad_reopen_policy (validate_policy (reopen_policy d))
    ∷ type_problems texts d.device_type
    ∷ map in_groups (validate_broadcast_groups d.broadcast_groups)
    ∷ []

unfoldable pub device_problems : Texts → Assoc ℕ → Assoc ℕ → DeviceConfig → List DeviceProblem
unfolding device_parts
device_problems texts seen seen_paths d = concat (device_parts texts seen seen_paths d)

-- A problem, or that there is no device at all.
pub data DevicesProblem : Type 0 where
  no_devices : DevicesProblem
  at_device : ℕ → DeviceProblem → DevicesProblem

-- The loop of validateDevices.
unfoldable pub each_device : Texts → ℕ → Assoc ℕ → Assoc ℕ → List DeviceConfig → List DevicesProblem
unfolding device_problems
each_device texts index seen seen_paths [] = []
each_device texts index seen seen_paths (d ∷ devices) =
    map (at_device index) (device_problems texts seen seen_paths d)
    ++ each_device texts (suc index) (see_id index d.id seen) (see_path index d.path seen_paths)
        devices

-- validateDevices, its problems.
unfoldable pub validate_devices : Texts → List DeviceConfig → List DevicesProblem
unfolding each_device
validate_devices texts [] = no_devices ∷ []
validate_devices texts (d ∷ devices) = each_device texts 0 [] [] (d ∷ devices)
