-- ===== src/Config/Load/Complete.antt =====
-- What Load has done and found where it returns a configuration.
use device_serial_scanner.Common.{◌≡◌, refl, Bool, false, [], Bytes, Assoc, if◌then◌else◌, arith}
use device_serial_scanner.Config.Settings.{apply_derived_defaults, Config}
use device_serial_scanner.Config.Services.{validate}
use device_serial_scanner.Config.Environment.Overlay.{env_map, apply_env}
use device_serial_scanner.Config.Environment.Legacy.{reject_legacy_environment}
use device_serial_scanner.Config.Load.{
  apply_overrides, Opened, not_there, unreadable, undecodable, decoded, System, LoadOptions,
  config_loaded, load_failed, open_failed, parse_failed, no_default_file, config_path, merge,
  load_file, load,
}

-- The configuration that the file, the environment and the flags give.
abbrev pub merged : System → LoadOptions → Assoc Bytes → Config → Config
merged os opts env file =
    apply_derived_defaults (apply_overrides (apply_env os.go env file).0 opts.overrides)

-- The file's configuration merged without a problem.
pub record IsMerged (os : System) (opts : LoadOptions) (env : Assoc Bytes) (file cfg : Config)
    : Type 0 where
  pub is_clean : (apply_env os.go env file).1 ≡ []
  pub is_merged : cfg ≡ merged os opts env file
  pub is_valid : opts.skip_validate ≡ false → validate os.host env cfg ≡ []

merge-IsMerged :
    (os : System) (opts : LoadOptions) (env : Assoc Bytes) (path : Bytes) (file cfg : Config)
    → merge os opts env path file ≡ config_loaded cfg
    → IsMerged os opts env file cfg
unfolding merge
merge-IsMerged os opts env path file cfg h = record {
  is_clean = ground arith;
  is_merged = ground arith;
  is_valid = λ v. ground arith;
}

pub record IsLoaded (os : System) (opts : LoadOptions) (cfg : Config) : Type 0 where
  pub no_legacy : reject_legacy_environment os.go opts.environ ≡ []
  pub file : Config
  pub is_opened :
      os.open_config (config_path os opts.path (env_map opts.environ [])).0 ≡ decoded file
  pub merge : IsMerged os opts (env_map opts.environ []) file cfg

load_file-decoded :
    (os : System) (opts : LoadOptions) (env : Assoc Bytes) (cfg : Config)
    → load_file os opts env ≡ config_loaded cfg
    → (file : Config) × (os.open_config (config_path os opts.path env).0 ≡ decoded file)
      × (merge os opts env (config_path os opts.path env).0 file ≡ config_loaded cfg)
unfolding load_file
load_file-decoded os opts env cfg h =
    after (config_path os opts.path env) (os.open_config (config_path os opts.path env).0) refl h
  where
    after :
        (chosen : Bytes × Bool) (opened : Opened)
        → os.open_config chosen.0 ≡ opened
        → elim opened [
          | not_there ↦
              if chosen.1
              then load_failed (open_failed chosen.0)
              else load_failed (no_default_file chosen.0)
          | unreadable ↦ load_failed (open_failed chosen.0)
          | undecodable ↦ load_failed (parse_failed chosen.0)
          | decoded file ↦ merge os opts env chosen.0 file
        ]
          ≡ config_loaded cfg
        → (file : Config) × (os.open_config chosen.0 ≡ decoded file)
          × (merge os opts env chosen.0 file ≡ config_loaded cfg)
    after chosen not_there e h = absurd (ground arith)
    after chosen unreadable e h = absurd (ground arith)
    after chosen undecodable e h = absurd (ground arith)
    after chosen (decoded file) e h = (file, e, h)

load-no_legacy :
    (os : System) (opts : LoadOptions) (cfg : Config)
    → load os opts ≡ config_loaded cfg
    → (reject_legacy_environment os.go opts.environ ≡ [])
      × (load_file os opts (env_map opts.environ []) ≡ config_loaded cfg)
unfolding load
load-no_legacy os opts cfg h = (ground arith, ground arith)

pub load-IsLoaded :
    (os : System) (opts : LoadOptions) (cfg : Config)
    → load os opts ≡ config_loaded cfg
    → IsLoaded os opts cfg
load-IsLoaded os opts cfg h =
    let env = env_map opts.environ [] in
    let (n, l) = load-no_legacy os opts cfg h in
    let (file, e, m) = load_file-decoded os opts env cfg l in
    record {
      no_legacy = n;
      file = file;
      is_opened = e;
      merge = merge-IsMerged os opts env (config_path os opts.path env).0 file cfg m;
    }
