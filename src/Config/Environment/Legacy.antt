-- ===== src/Config/Environment/Legacy.antt =====
-- The variables of earlier releases, rejectLegacyEnvironment of internal/config/env.go.
use device_serial_scanner.Common.{Option, none, some, List, [], ◌∷◌, ◌++◌, Bytes, if◌then◌else◌}
use device_serial_scanner.Config.Devices.{cut_prefix, is_one_of}
use device_serial_scanner.Config.Credentials.{cut}
use device_serial_scanner.Config.Environment.{Parsers}
use device_serial_scanner.Config.Environment.Targets.{env_prefix, legacy_env_prefixes, removed_env}

-- rejectLegacyEnvironment: the variables with an earlier release's prefix.
unfoldable pub legacy_suffix : List Bytes → Bytes → Option Bytes
unfolding cut_prefix
legacy_suffix [] name = none
legacy_suffix (legacy ∷ prefixes) name = elim (cut_prefix legacy name) [
  | none ↦ legacy_suffix prefixes name
  | some suffix ↦ some suffix
]

-- The name of an entry: all of it, where it has no "=".
abbrev pub entry_name : Bytes → Bytes
unfolding cut
entry_name entry = elim (cut b'=' entry) [ none ↦ entry | some (name, value) ↦ name ]

unfoldable pub legacy_names : List Bytes → List Bytes
unfolding legacy_suffix entry_name
legacy_names [] = []
legacy_names (entry ∷ environ) = elim (legacy_suffix legacy_env_prefixes (entry_name entry)) [
  | none ↦ legacy_names environ
  | some suffix ↦ entry_name entry ∷ legacy_names environ
]

pub data LegacyProblem : Type 0 where
  legacy_removed : Bytes → LegacyProblem
  legacy_renamed : Bytes → Bytes → LegacyProblem

unfoldable pub legacy_problems : List Bytes → List LegacyProblem
unfolding legacy_suffix is_one_of
legacy_problems [] = []
legacy_problems (name ∷ names) =
    let rest = legacy_problems names in
    elim (legacy_suffix legacy_env_prefixes name) [
      | none ↦ rest
      | some suffix ↦
          if is_one_of removed_env (env_prefix ++ suffix)
          then legacy_removed name ∷ rest
          else legacy_renamed name (env_prefix ++ suffix) ∷ rest
    ]

unfoldable pub reject_legacy_environment : Parsers → List Bytes → List LegacyProblem
unfolding legacy_names legacy_problems
reject_legacy_environment go environ = legacy_problems (go.sort_strings (legacy_names environ))
