-- ===== src/Agent/Start.antt =====
-- runAgent of cmd/skuhus-device-agent/run.go from its start: the log is opened, the credentials are
-- loaded, and the agent is assembled.
pub mod Outside
use device_serial_scanner.Common.{
  ℕ, Bool, Option, none, some, List, [], Bytes, Assoc, text_eq, if◌then◌else◌,
}
use device_serial_scanner.Logging.{
  Disk, File, Answers, OpenError, Opened, opened_file, open_refused, open_file,
}
use device_serial_scanner.Mqtt.Client.{Library}
use device_serial_scanner.Config.Settings.{LoggingSettings, Config}
use device_serial_scanner.Config.Services.{Host, level_known}
use device_serial_scanner.Config.Credentials.{
  Strings, Credentials, Loaded, loaded, not_loaded, load_credentials,
}
use device_serial_scanner.Agent.{
  Build, ready, stopped, log_refused, level_refused, credentials_refused, ◌then_with◌, Assembled,
  assemble,
}

-- What the files and the environment answer when the agent starts: what the operating system says
-- to the opening of the log file, whether the file's parent is there and is a directory, the files
-- of the log, the lines of the credentials file, and os.Environ.
pub record Start : Type 0 where
  pub answers : Answers
  pub directory : Option Bool
  pub disk : Disk
  pub strings : Strings
  pub credentials : Option (List Bytes × Bool)
  pub env : Assoc Bytes

-- logging.New, which ParseLevel alone can refuse.
unfoldable pub new_log : Host → LoggingSettings → Option File → Disk → Build (Option File × Disk)
new_log os logging file disk =
    if level_known os logging.level then ready (file, disk) else stopped level_refused

unfoldable pub log_behind : Host → LoggingSettings → Opened → Build (Option File × Disk)
unfolding new_log
log_behind os logging (open_refused e) = stopped (log_refused e)
log_behind os logging (opened_file file disk) = new_log os logging (some file) disk

-- openLog: the log's file, where one is configured.
unfoldable pub open_log : Host → Start → LoggingSettings → Build (Option File × Disk)
unfolding log_behind open_file
open_log os start logging =
    if text_eq logging.file []
    then new_log os logging none start.disk
    else log_behind os logging (
        open_file start.answers start.directory logging.file logging.max_size_mb logging.keep
          start.disk)

abbrev pub from_loaded : Loaded → Build Credentials
from_loaded (loaded c) = ready c
from_loaded (not_loaded e) = stopped (credentials_refused e)

-- runAgent up to a core that can run.
unfoldable pub run_agent : Host → Library → Start → Config → (ℕ → Option Bytes) → Build Assembled
unfolding open_log load_credentials assemble
run_agent os lib start cfg will = open_log os start cfg.logging then_with λ log.
    from_loaded
      (load_credentials start.strings cfg.broker.credentials_file start.credentials start.env)
    then_with λ c. assemble os lib cfg c.username c.password will
