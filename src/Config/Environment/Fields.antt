-- ===== src/Config/Environment/Fields.antt =====
-- The fields the environment and the flags set do not share memory: what a setter changes, and
-- which variable sets a text.
use device_serial_scanner.Common.{
  ◌≡◌, refl, Bool, true, false, ℕ, some, [], ◌∷◌, ◌++◌, Bytes, Assoc, codes, lookup, ◌==◌, text_eq,
  text_eq_iff, if◌then◌else◌, ℤ, arith,
}
use device_serial_scanner.Config.Settings.{Config}
use device_serial_scanner.Config.Environment.{
  TextField, project, site, station, instance_id, url, credentials_file, ca_file, log_level,
  log_file, FlagField, NumberField, text_at, write_text, write_flag, write_number, Setter,
  set_nothing, set_string, set_bool, set_int, set_duration,
}
use device_serial_scanner.Config.Environment.Targets.{env_targets, env_prefix}

unfoldable pub field_number : TextField → ℕ
field_number project = 0
field_number site = 1
field_number station = 2
field_number instance_id = 3
field_number url = 4
field_number credentials_file = 5
field_number ca_file = 6
field_number log_level = 7
field_number log_file = 8

abbrev pub same_field : TextField → TextField → Bool
unfolding field_number
same_field f g = field_number f == field_number g

-- The variable that sets a text.
unfoldable pub variable_of : TextField → Bytes
variable_of project = env_prefix ++ codes "IDENTITY_PROJECT"
variable_of site = env_prefix ++ codes "IDENTITY_SITE"
variable_of station = env_prefix ++ codes "IDENTITY_STATION"
variable_of instance_id = env_prefix ++ codes "IDENTITY_INSTANCE"
variable_of url = env_prefix ++ codes "BROKER_URL"
variable_of credentials_file = env_prefix ++ codes "BROKER_CREDENTIALS_FILE"
variable_of ca_file = env_prefix ++ codes "BROKER_CA_FILE"
variable_of log_level = env_prefix ++ codes "LOGGING_LEVEL"
variable_of log_file = env_prefix ++ codes "LOGGING_FILE"

pub text_at-write_text :
    (f g : TextField) (v : Bytes) (cfg : Config)
    → text_at f (write_text g v cfg) ≡ (if same_field f g then v else text_at f cfg)
unfolding text_at write_text field_number
text_at-write_text f g v cfg = ground arith

pub text_at-write_flag :
    (f : TextField) (g : FlagField) (v : Bool) (cfg : Config)
    → text_at f (write_flag g v cfg) ≡ text_at f cfg
unfolding text_at write_flag
text_at-write_flag f g v cfg = ground arith

pub text_at-write_number :
    (f : TextField) (g : NumberField) (v : ℤ) (cfg : Config)
    → text_at f (write_number g v cfg) ≡ text_at f cfg
unfolding text_at write_number
text_at-write_number f g v cfg = ground arith

pub lookup-variable_of : (f : TextField) → lookup (variable_of f) env_targets ≡ some (set_string f)
unfolding env_targets lookup text_eq variable_of
lookup-variable_of project = refl
lookup-variable_of site = refl
lookup-variable_of station = refl
lookup-variable_of instance_id = refl
lookup-variable_of url = refl
lookup-variable_of credentials_file = refl
lookup-variable_of ca_file = refl
lookup-variable_of log_level = refl
lookup-variable_of log_file = refl

-- Whether an entry may stand in a table where only the variable of `f` sets `f`.
unfoldable pub is_fitting : TextField → Bytes → Setter → Bool
is_fitting f name (set_string g) = if same_field f g then text_eq name (variable_of f) else true
is_fitting f name set_nothing = true
is_fitting f name (set_bool g) = true
is_fitting f name (set_int g) = true
is_fitting f name (set_duration g) = true

unfoldable pub all_fitting : TextField → Assoc Setter → Bool
unfolding is_fitting
all_fitting f [] = true
all_fitting f ((name, setter) ∷ targets) =
    let rest = all_fitting f targets in if is_fitting f name setter then rest else false

all_fitting-lookup :
    (f : TextField) (targets : Assoc Setter) (name : Bytes) (setter : Setter)
    → all_fitting f targets ≡ true
    → lookup name targets ≡ some setter
    → is_fitting f name setter ≡ true
unfolding all_fitting lookup
all_fitting-lookup f [] name setter h e = ground arith
all_fitting-lookup f ((n, s) ∷ targets) name setter h e =
    ground (arith, text_eq_iff n name, all_fitting-lookup f targets name setter)

env_targets-fitting : (f : TextField) → all_fitting f env_targets ≡ true
unfolding env_targets all_fitting is_fitting variable_of text_eq field_number
env_targets-fitting project = refl
env_targets-fitting site = refl
env_targets-fitting station = refl
env_targets-fitting instance_id = refl
env_targets-fitting url = refl
env_targets-fitting credentials_file = refl
env_targets-fitting ca_file = refl
env_targets-fitting log_level = refl
env_targets-fitting log_file = refl

pub target-fitting :
    (f : TextField) (name : Bytes) (setter : Setter)
    → lookup name env_targets ≡ some setter
    → is_fitting f name setter ≡ true
target-fitting f name setter = all_fitting-lookup f env_targets name setter (env_targets-fitting f)
