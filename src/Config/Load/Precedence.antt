-- ===== src/Config/Load/Precedence.antt =====
-- Which of its sources a text of the loaded configuration comes from.
use device_serial_scanner.Common.{
  ◌≡◌, refl, ap, ◌∙◌, Bool, Option, none, some, [], Bytes, lookup, text_eq, if◌then◌else◌, arith,
}
use device_serial_scanner.Config.Settings.{apply_derived_defaults, Config}
use device_serial_scanner.Config.Credentials.{value_or}
use device_serial_scanner.Config.Environment.{
  TextField, project, site, station, instance_id, url, credentials_file, ca_file, log_level,
  log_file, FlagField, insecure, log_payloads, text_at,
}
use device_serial_scanner.Config.Environment.Overlay.{env_map, apply_env}
use device_serial_scanner.Config.Environment.Fields.{
  same_field, field_number, variable_of, text_at-write_text, text_at-write_flag,
}
use device_serial_scanner.Config.Environment.Applied.{IsSorting, text_at-apply_env}
use device_serial_scanner.Config.Load.Complete.{load-IsLoaded}
use device_serial_scanner.Config.Load.{
  Overrides, assign, assign_flag, apply_overrides, decoded, System, LoadOptions, config_loaded,
  config_path, load,
}

-- The flag of a text; log.file has none.
unfoldable pub flag_of : TextField → Overrides → Option Bytes
flag_of project o = o.project
flag_of site o = o.site
flag_of station o = o.station
flag_of instance_id o = o.instance_id
flag_of url o = o.broker_url
flag_of credentials_file o = o.broker_credentials_file
flag_of ca_file o = o.broker_ca_file
flag_of log_level o = o.log_level
flag_of log_file o = none

-- What an assignment to `g` leaves in the text `f`.
unfoldable assigned : TextField → TextField → Option Bytes → Bytes → Bytes
assigned f g v old = if same_field f g then value_or old v else old

text_at-assign :
    (f g : TextField) (v : Option Bytes) (cfg : Config)
    → text_at f (assign g v cfg) ≡ assigned f g v (text_at f cfg)
unfolding assign assigned
text_at-assign f g none cfg = ground arith
text_at-assign f g (some v) cfg = text_at-write_text f g v cfg

text_at-assign_flag :
    (f : TextField) (g : FlagField) (v : Option Bool) (cfg : Config)
    → text_at f (assign_flag g v cfg) ≡ text_at f cfg
unfolding assign_flag
text_at-assign_flag f g none cfg = refl
text_at-assign_flag f g (some v) cfg = text_at-write_flag f g v cfg

abbrev all_assigned : TextField → Overrides → Bytes → Bytes
all_assigned f o old =
    let to_site = assigned f site o.site (assigned f project o.project old) in
    let to_url = assigned f url o.broker_url (assigned f station o.station to_site) in
    let to_instance = assigned f instance_id o.instance_id to_url in
    let to_credentials = assigned f credentials_file o.broker_credentials_file to_instance in
    assigned f log_level o.log_level (assigned f ca_file o.broker_ca_file to_credentials)

all_assigned-flag_of :
    (f : TextField) (o : Overrides) (old : Bytes)
    → all_assigned f o old ≡ value_or old (flag_of f o)
unfolding assigned field_number flag_of
all_assigned-flag_of project o old = refl
all_assigned-flag_of site o old = refl
all_assigned-flag_of station o old = refl
all_assigned-flag_of instance_id o old = refl
all_assigned-flag_of url o old = refl
all_assigned-flag_of credentials_file o old = refl
all_assigned-flag_of ca_file o old = refl
all_assigned-flag_of log_level o old = refl
all_assigned-flag_of log_file o old = refl

-- A chain of assignments, one text behind the other.
text_at-apply_overrides :
    (f : TextField) (cfg : Config) (o : Overrides)
    → text_at f (apply_overrides cfg o) ≡ value_or (text_at f cfg) (flag_of f o)
unfolding apply_overrides
text_at-apply_overrides f cfg o =
    let c1 = assign project o.project cfg in
    let c2 = assign site o.site c1 in
    let c3 = assign station o.station c2 in
    let c4 = assign url o.broker_url c3 in
    let c5 = assign instance_id o.instance_id c4 in
    let c6 = assign credentials_file o.broker_credentials_file c5 in
    let c7 = assign ca_file o.broker_ca_file c6 in
    let c8 = assign_flag insecure o.broker_insecure c7 in
    let c9 = assign log_level o.log_level c8 in
    text_at-assign_flag f log_payloads o.log_payloads c9
    ∙ text_at-assign f log_level o.log_level c8
    ∙ rw
        (
          text_at-assign_flag f insecure o.broker_insecure c7,
          text_at-assign f ca_file o.broker_ca_file c6,
          text_at-assign f credentials_file o.broker_credentials_file c5,
          text_at-assign f instance_id o.instance_id c4,
          text_at-assign f url o.broker_url c3,
          text_at-assign f station o.station c2,
          text_at-assign f site o.site c1,
          text_at-assign f project o.project cfg,
        )
        (all_assigned-flag_of f o (text_at f cfg))

-- The text behind the derived default: an empty instance is the station.
abbrev pub derived : TextField → (TextField → Bytes) → Bytes
derived instance_id texts =
    if text_eq (texts instance_id) [] then texts station else texts instance_id
derived project texts = texts project
derived site texts = texts site
derived station texts = texts station
derived url texts = texts url
derived credentials_file texts = texts credentials_file
derived ca_file texts = texts ca_file
derived log_level texts = texts log_level
derived log_file texts = texts log_file

text_at-apply_derived_defaults :
    (f : TextField) (cfg : Config)
    → text_at f (apply_derived_defaults cfg) ≡ derived f (λ g. text_at g cfg)
unfolding apply_derived_defaults text_at
text_at-apply_derived_defaults f cfg = ground arith

-- What the sources say of a text: the flag, else the variable, else the file.
abbrev pub said : LoadOptions → Config → TextField → Bytes
said opts file f =
    value_or (value_or (text_at f file) (lookup (variable_of f) (env_map opts.environ [])))
      (flag_of f opts.overrides)

merged-said :
    (os : System) (opts : LoadOptions) (file : Config) (f : TextField)
    → IsSorting os.go.sort_strings
    → (apply_env os.go (env_map opts.environ []) file).1 ≡ []
    → text_at f (apply_overrides (apply_env os.go (env_map opts.environ []) file).0 opts.overrides)
      ≡ said opts file f
merged-said os opts file f sorting clean =
    let env = env_map opts.environ [] in
    text_at-apply_overrides f (apply_env os.go env file).0 opts.overrides
    ∙ ap (λ old. value_or old (flag_of f opts.overrides))
        (text_at-apply_env os.go env file f sorting clean)

-- Flags go before the environment, and the environment before the file. Where sort.Strings keeps
-- the strings it sorts and Load returns a configuration, there is the file that decode read from
-- the chosen path, and each of the nine texts that a variable sets (the identity's four, the
-- broker's url, credentials_file and ca_file, the log's level and file) has the value of its flag,
-- or without the flag the value of its variable, or without both what the file says; an instance
-- that is empty then is the station. No variable or flag sets another's text.
pub load-precedence :
    (os : System) (opts : LoadOptions) (cfg : Config)
    → IsSorting os.go.sort_strings
    → load os opts ≡ config_loaded cfg
    → (file : Config) × (os.open_config (config_path os opts.path (env_map opts.environ [])).0
        ≡ decoded file)
      × ((f : TextField) → text_at f cfg ≡ derived f (said opts file))
load-precedence os opts cfg sorting h =
    let l = load-IsLoaded os opts cfg h in
    let overlaid = (apply_env os.go (env_map opts.environ []) l.file).0 in
    (
      l.file,
      l.is_opened,
      λ f.
          ap (text_at f) l.merge.is_merged
          ∙ text_at-apply_derived_defaults f (apply_overrides overlaid opts.overrides)
          ∙ ap (derived f) (λ i g. merged-said os opts l.file g sorting l.merge.is_clean i),
    )
