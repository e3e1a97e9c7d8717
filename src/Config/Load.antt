-- ===== src/Config/Load.antt =====
-- The loading of the configuration, internal/config/load.go: Load and the flags' overrides. The
-- process's environment, the opening of a file and its decoding (os.Open, then decode with the YAML
-- library) are arguments.
pub mod Complete
pub mod Precedence
pub mod Refusals
use device_serial_scanner.Common.{
  Bool, true, false, Option, none, some, List, [], ◌∷◌, Bytes, Assoc, lookup, text_eq, not,
  if◌then◌else◌,
}
use device_serial_scanner.Config.Settings.{apply_derived_defaults, Config}
use device_serial_scanner.Config.Services.{Host, ConfigProblem, validate}
use device_serial_scanner.Config.Environment.{
  Parsers, TextField, project, site, station, instance_id, url, credentials_file, ca_file,
  log_level, log_file, FlagField, insecure, log_payloads, write_text, write_flag,
}
use device_serial_scanner.Config.Environment.Targets.{env_config_path}
use device_serial_scanner.Config.Environment.Overlay.{env_map, apply_env, EnvProblem}
use device_serial_scanner.Config.Environment.Legacy.{reject_legacy_environment, LegacyProblem}

-- The flags; none for one that is not set.
pub record Overrides : Type 0 where
  pub project : Option Bytes
  pub site : Option Bytes
  pub station : Option Bytes
  pub instance_id : Option Bytes
  pub broker_url : Option Bytes
  pub broker_credentials_file : Option Bytes
  pub broker_ca_file : Option Bytes
  pub broker_insecure : Option Bool
  pub log_level : Option Bytes
  pub log_payloads : Option Bool

-- assign to a text.
unfoldable pub assign : TextField → Option Bytes → Config → Config
assign f none cfg = cfg
assign f (some v) cfg = write_text f v cfg

-- assign to a flag.
unfoldable pub assign_flag : FlagField → Option Bool → Config → Config
assign_flag f none cfg = cfg
assign_flag f (some v) cfg = write_flag f v cfg

-- applyOverrides
unfoldable pub apply_overrides : Config → Overrides → Config
unfolding assign assign_flag
apply_overrides cfg o =
    let cfg = assign project o.project cfg in
    let cfg = assign site o.site cfg in
    let cfg = assign station o.station cfg in
    let cfg = assign url o.broker_url cfg in
    let cfg = assign instance_id o.instance_id cfg in
    let cfg = assign credentials_file o.broker_credentials_file cfg in
    let cfg = assign ca_file o.broker_ca_file cfg in
    let cfg = assign_flag insecure o.broker_insecure cfg in
    let cfg = assign log_level o.log_level cfg in assign_flag log_payloads o.log_payloads cfg

-- What os.Open and decode make of a path.
pub data Opened : Type 0 where
  not_there unreadable undecodable : Opened
  decoded : Config → Opened

-- The operating system: DefaultPath, os.Open with decode, Go's parsers, and what validation asks.
pub record System : Type 0 where
  pub go : Parsers
  pub host : Host
  pub default_path : Bytes
  pub open_config : Bytes → Opened

pub record LoadOptions : Type 0 where
  pub path : Bytes
  pub environ : List Bytes
  pub overrides : Overrides
  pub skip_validate : Bool

-- LoadError, by what failed.
pub data LoadError : Type 0 where
  legacy_variables : List LegacyProblem → LoadError
  no_default_file open_failed parse_failed : Bytes → LoadError
  bad_environment : Bytes → List EnvProblem → LoadError
  invalid_config : Bytes → List ConfigProblem → LoadError

pub data LoadResult : Type 0 where
  config_loaded : Config → LoadResult
  load_failed : LoadError → LoadResult

-- The path, and whether it was chosen by the user.
unfoldable pub config_path : System → Bytes → Assoc Bytes → Bytes × Bool
config_path os path env =
    if not (text_eq path []) then (path, true) else elim (lookup env_config_path env) [
      | none ↦ (os.default_path, false)
      | some value ↦ if text_eq value [] then (os.default_path, false) else (value, true)
    ]

-- The end of Load, from the decoded file.
unfoldable pub merge : System → LoadOptions → Assoc Bytes → Bytes → Config → LoadResult
unfolding apply_overrides
merge os opts env path file =
    let (cfg, problems) = apply_env os.go env file in
    let final = apply_derived_defaults (apply_overrides cfg opts.overrides) in
    elim problems [
      | problem ∷ more ↦ load_failed (bad_environment path (problem ∷ more))
      | [] ↦ if opts.skip_validate then config_loaded final else elim (validate os.host env final) [
        | [] ↦ config_loaded final
        | problem ∷ more ↦ load_failed (invalid_config path (problem ∷ more))
      ]
    ]

-- The middle of Load: the path and the file.
unfoldable pub load_file : System → LoadOptions → Assoc Bytes → LoadResult
unfolding config_path merge
load_file os opts env =
    let (path, explicit) = config_path os opts.path env in
    elim (os.open_config path) [
      | not_there ↦
          if explicit then load_failed (open_failed path) else load_failed (no_default_file path)
      | unreadable ↦ load_failed (open_failed path)
      | undecodable ↦ load_failed (parse_failed path)
      | decoded file ↦ merge os opts env path file
    ]

-- Load; the warnings are left out.
unfoldable pub load : System → LoadOptions → LoadResult
unfolding load_file
load os opts = elim (reject_legacy_environment os.go opts.environ) [
  | [] ↦ load_file os opts (env_map opts.environ [])
  | problem ∷ more ↦ load_failed (legacy_variables (problem ∷ more))
]
