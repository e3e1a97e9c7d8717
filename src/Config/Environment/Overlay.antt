-- ===== src/Config/Environment/Overlay.antt =====
-- The overlay of the environment, internal/config/env.go: envMap and applyEnv.
use device_serial_scanner.Common.{
  none, some, List, [], ◌∷◌, ◌++◌, map, Bytes, Assoc, lookup, put, if◌then◌else◌,
}
use device_serial_scanner.Config.Settings.{Config}
use device_serial_scanner.Config.Devices.{cut_prefix, is_one_of}
use device_serial_scanner.Config.Credentials.{cut, value_or}
use device_serial_scanner.Config.Environment.{Parsers, apply_setter}
use device_serial_scanner.Config.Environment.Targets.{env_prefix, removed_env, env_targets}

-- envMap: the last entry of a name stands.
unfoldable pub env_map : List Bytes → Assoc Bytes → Assoc Bytes
env_map [] out = out
env_map (entry ∷ environ) out = elim (cut b'=' entry) [
  | none ↦ env_map environ out
  | some (name, value) ↦ elim (cut_prefix env_prefix name) [
    | none ↦ env_map environ out
    | some suffix ↦ env_map environ (put name value out)
  ]
]

-- What applyEnv does with one variable.
pub data Taken : Type 0 where
  was_removed not_known bad_value : Taken
  taken : Config → Taken

unfoldable pub take_variable : Parsers → Bytes → Bytes → Config → Taken
unfolding is_one_of
take_variable go name value cfg =
    if is_one_of removed_env name then was_removed else elim (lookup name env_targets) [
      | none ↦ not_known
      | some setter ↦ elim (apply_setter go setter value cfg) [
        | none ↦ bad_value
        | some next ↦ taken next
      ]
    ]

pub data EnvProblem : Type 0 where
  removed_variable unparsed_variable : Bytes → EnvProblem
  unknown_variables : List Bytes → EnvProblem

pub record Overlaid : Type 0 where
  pub config : Config
  pub unknown : List Bytes
  pub problems : List EnvProblem

abbrev pub add_unknown : Bytes → Overlaid → Overlaid
add_unknown name o = record o { unknown = name ∷ o.unknown }

abbrev pub add_problem : EnvProblem → Overlaid → Overlaid
add_problem problem o = record o { problems = problem ∷ o.problems }

-- The loop over the names.
unfoldable pub apply_names : Parsers → Assoc Bytes → List Bytes → Config → Overlaid
unfolding take_variable
apply_names go env [] cfg = record { config = cfg; unknown = []; problems = [] }
apply_names go env (name ∷ names) cfg =
    elim (take_variable go name (value_or [] (lookup name env)) cfg) [
      | was_removed ↦ add_problem (removed_variable name) (apply_names go env names cfg)
      | not_known ↦ add_unknown name (apply_names go env names cfg)
      | bad_value ↦ add_problem (unparsed_variable name) (apply_names go env names cfg)
      | taken next ↦ apply_names go env names next
    ]

abbrev pub unknown_problem : List Bytes → List EnvProblem
unknown_problem [] = []
unknown_problem (name ∷ names) = unknown_variables (name ∷ names) ∷ []

-- applyEnv: the configuration as it is afterwards, and the problems.
unfoldable pub apply_env : Parsers → Assoc Bytes → Config → Config × List EnvProblem
unfolding apply_names
apply_env go env cfg =
    let o = apply_names go env (go.sort_strings (map (λ e. e.0) env)) cfg in
    (o.config, o.problems ++ unknown_problem o.unknown)
