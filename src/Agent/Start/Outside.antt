-- ===== src/Agent/Start/Outside.antt =====
-- What the start of runAgent depends on outside the configuration: openLog and LoadCredentials of
-- cmd/skuhus-device-agent/run.go, and the connection of internal/transport/mqtt.
use device_serial_scanner.Common.{
  ◌≡◌, inl, inr, true, false, Option, some, [], ◌∷◌, concat_none, Bytes, Assoc, text_eq, arith,
  at_least, Option-cases,
}
use device_serial_scanner.Logging.{Disk, File, open_file, open_live}
use device_serial_scanner.Mqtt.Client.{
  Library, Options, ClientConfig, done, dial, dial_parsed, dial_tls, tls_config,
}
use device_serial_scanner.Config.Settings.{LoggingSettings, Config}
use device_serial_scanner.Config.Services.{
  Host, validate, config_parts, validate_logging, log_file_problems, level_known, bad_log_level,
  bad_max_size, bad_keep,
}
use device_serial_scanner.Agent.{ready}
use device_serial_scanner.Config.Devices.{unless}
use device_serial_scanner.Agent.Buildable.{unless-none}
use device_serial_scanner.Agent.Cases.{Build-cases}
use device_serial_scanner.Agent.Start.{Start, new_log, log_behind, open_log}

pub record IsAccepted (os : Host) (logging : LoggingSettings) : Type 0 where
  pub level_is : level_known os logging.level ≡ true
  pub size_set : at_least 1 logging.max_size_mb ≡ true
  pub keep_set : at_least 0 logging.keep ≡ true

pub logging-IsAccepted :
    (os : Host) (env : Assoc Bytes) (cfg : Config)
    → validate os env cfg ≡ []
    → IsAccepted os cfg.logging
unfolding validate config_parts validate_logging
logging-IsAccepted os env cfg valid =
    let (identity, (broker, (devices, (delivery, (status, (logging, rest)))))) =
      concat_none (config_parts os env cfg) valid in
    let (level, (file, (size, (keep, end)))) =
      concat_none
        (unless (level_known os cfg.logging.level) bad_log_level
          ∷ log_file_problems os cfg.logging.file
          ∷ unless (at_least 1 cfg.logging.max_size_mb) bad_max_size
          ∷ unless (at_least 0 cfg.logging.keep) bad_keep
          ∷ [])
        logging in
    record {
      level_is = unless-none _ bad_log_level level;
      size_set = unless-none _ bad_max_size size;
      keep_set = unless-none _ bad_keep keep;
    }

-- The log file opens, where one is configured: its parent is a directory, and the file can be
-- opened and its size read.
pub record Opens (start : Start) (logging : LoggingSettings) : Type 0 where
  pub directory_is : text_eq logging.file [] ≡ false → start.directory ≡ some true
  pub file_opens : text_eq logging.file [] ≡ false → start.answers.opens ≡ true
  pub file_stats : text_eq logging.file [] ≡ false → start.answers.stats ≡ true

pub open_log-ready :
    (os : Host) (start : Start) (logging : LoggingSettings)
    → IsAccepted os logging
    → Opens start logging
    → (log : Option File × Disk) × (open_log os start logging ≡ ready log)
unfolding open_log open_file open_live log_behind new_log
open_log-ready os start logging a o = elim (Build-cases (open_log os start logging)) [
  | inl (log, e) ↦ (log, e)
  | inr (e, n) ↦ absurd (
      ground
        (arith, a.level_is, a.size_set, a.keep_set, o.directory_is, o.file_opens, o.file_stats))
]

pub ready-Opens :
    (os : Host) (start : Start) (logging : LoggingSettings) (log : Option File × Disk)
    → open_log os start logging ≡ ready log
    → Opens start logging
unfolding open_log open_file open_live log_behind new_log
ready-Opens os start logging log h = record {
  directory_is = λ e. ground arith;
  file_opens = λ e. ground arith;
  file_stats = λ e. ground arith;
}

-- A connection that was made, with a CA file: the file was read, and it has certificates.
pub done-connects :
    (lib : Library) (opts : Options) (c : ClientConfig)
    → dial lib opts ≡ done c
    → lib.connects ≡ true
unfolding dial dial_parsed
done-connects lib opts c h = ground arith

pub done-certs :
    (lib : Library) (opts : Options) (c : ClientConfig)
    → dial lib opts ≡ done c
    → text_eq opts.ca_file [] ≡ false
    → (pem : Bytes) × (lib.read_file opts.ca_file ≡ some pem) × (lib.has_certs pem ≡ true)
unfolding dial dial_parsed dial_tls tls_config
done-certs lib opts c h f = elim (Option-cases (lib.read_file opts.ca_file)) [
  | inl e ↦ absurd (ground arith)
  | inr (pem, e) ↦ (pem, e, ground arith)
]
