-- ===== src/Config/Credentials.antt =====
-- The broker's credentials, internal/config/credentials.go: the file with its key=value lines, and
-- the environment that goes before it. The file's lines come from a bufio.Scanner, and TrimSpace
-- and ToLower are Go's, so they are arguments; messages are left out.
pub mod Verbatim
use device_serial_scanner.Common.{
  ℕ, zero, suc, Bool, true, false, ◌||◌, not, Option, none, some, List, [], ◌∷◌, Bytes, Assoc,
  codes, lookup, text_eq, ◌==◌, if◌then◌else◌,
}
use device_serial_scanner.Config.Services.{env_mqtt_password}

pub record Credentials : Type 0 where
  pub username : Bytes
  pub password : Bytes

pub data CredentialsError : Type 0 where
  unreadable scan_failed no_password no_username : CredentialsError
  not_key_value unknown_key : ℕ → CredentialsError

pub data Loaded : Type 0 where
  loaded : Credentials → Loaded
  not_loaded : CredentialsError → Loaded

-- strings.TrimSpace and strings.ToLower.
pub record Strings : Type 0 where
  pub trim_space : Bytes → Bytes
  pub to_lower : Bytes → Bytes

-- strings.Cut at a byte.
unfoldable pub cut : ℕ → Bytes → Option (Bytes × Bytes)
cut sep [] = none
cut sep (c ∷ cs) =
    if c == sep
    then some ([], cs)
    else elim (cut sep cs) [ none ↦ none | some (before, after) ↦ some (c ∷ before, after) ]

-- A line that says nothing: blank, or a comment.
unfoldable pub is_skipped : Bytes → Bool
is_skipped [] = true
is_skipped (c ∷ cs) = c == b'#'

-- One line that is cut in two.
unfoldable pub read_key : Strings → ℕ → Bytes → Bytes → Credentials → Loaded
read_key str line key value credentials =
    let name = str.to_lower (str.trim_space key) in
    if text_eq name (codes "username")
    then loaded (record credentials { username = str.trim_space value })
    else if text_eq name (codes "password")
    then loaded (record credentials { password = value })
    else not_loaded (unknown_key line)

-- The loop over the lines from a line's number, and the scanner's error behind it.
unfoldable pub read_lines : Strings → Bool → ℕ → List Bytes → Credentials → Loaded
unfolding cut is_skipped read_key
read_lines str scans line [] credentials =
    if scans then loaded credentials else not_loaded scan_failed
read_lines str scans line (raw ∷ lines) credentials =
    if is_skipped (str.trim_space raw)
    then read_lines str scans (suc line) lines credentials
    else elim (cut b'=' raw) [
      | none ↦ not_loaded (not_key_value line)
      | some (key, value) ↦ elim (read_key str line key value credentials) [
        | not_loaded e ↦ not_loaded e
        | loaded next ↦ read_lines str scans (suc line) lines next
      ]
    ]

abbrev pub no_credentials : Credentials
no_credentials = record { username = []; password = [] }

-- readCredentialsFile: none for a file that cannot be opened, or its lines and whether the scanner
-- came to their end.
unfoldable pub read_credentials_file : Strings → Option (List Bytes × Bool) → Loaded
unfolding read_lines
read_credentials_file str none = not_loaded unreadable
read_credentials_file str (some (lines, scans)) = read_lines str scans 1 lines no_credentials

abbrev pub env_mqtt_username : Bytes
env_mqtt_username = codes "SH_DEV_AGENT_MQTT_USERNAME"

abbrev pub value_or : Bytes → Option Bytes → Bytes
value_or fallback none = fallback
value_or fallback (some value) = value

-- The environment's values, and what must be there.
unfoldable pub complete : Assoc Bytes → Credentials → Loaded
complete env credentials =
    let username = value_or credentials.username (lookup env_mqtt_username env) in
    let password = value_or credentials.password (lookup env_mqtt_password env) in
    if text_eq password []
    then not_loaded no_password
    else if text_eq username []
    then not_loaded no_username
    else loaded (record { username = username; password = password })

-- LoadCredentials; `file` is what the credentials file gives, where one is configured.
unfoldable pub load_credentials :
    Strings → Bytes → Option (List Bytes × Bool) → Assoc Bytes → Loaded
unfolding read_credentials_file complete
load_credentials str credentials_file file env =
    if text_eq credentials_file []
    then complete env no_credentials
    else elim (read_credentials_file str file) [
      | not_loaded e ↦ not_loaded e
      | loaded credentials ↦ complete env credentials
    ]
