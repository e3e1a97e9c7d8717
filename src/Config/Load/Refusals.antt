-- ===== src/Config/Load/Refusals.antt =====
-- What Load has refused before it returns a configuration.
use mathlib.Core.Path.{subst}
use device_serial_scanner.Common.{
  ◌≡◌, refl, ap, sym, ◌∙◌, Bool, Bool-cases, true, false, inl, inr, Option, Option-cases, none,
  some, List, [], ◌∷◌, Bytes, Assoc, lookup, map, All, text_eq, text_eq_iff, text_eq_refl, arith,
}
use device_serial_scanner.Config.Settings.{Config}
use device_serial_scanner.Config.Devices.{is_one_of}
use device_serial_scanner.Config.Credentials.{value_or}
use device_serial_scanner.Config.Services.{validate}
use device_serial_scanner.Config.Environment.{
  Parsers, Setter, set_nothing, set_string, set_bool, set_int, set_duration, apply_setter,
  map_option, write_flag, write_number,
}
use device_serial_scanner.Config.Environment.Targets.{env_targets, removed_env, legacy_env_prefixes}
use device_serial_scanner.Config.Environment.Overlay.{
  taken, take_variable, apply_names, env_map, apply_env,
}
use device_serial_scanner.Config.Environment.Legacy.{
  entry_name, legacy_suffix, legacy_names, legacy_problems, reject_legacy_environment,
}
use device_serial_scanner.Config.Environment.Setters.{taken-setter}
use device_serial_scanner.Config.Environment.Applied.{
  IsSorting, env_names, apply_env-none, apply_names-all_taken, apply_names-taken,
}
use device_serial_scanner.Config.Load.Complete.{load-IsLoaded}
use device_serial_scanner.Config.Load.{System, LoadOptions, config_loaded, load}

abbrev pub is_given {ℓ} : {A : Type ℓ} → Option A → Bool
is_given none = false
is_given (some a) = true

-- Whether a variable's value is one that its setter reads.
unfoldable pub parses : Parsers → Setter → Bytes → Bool
parses go set_nothing value = true
parses go (set_string f) value = true
parses go (set_bool f) value = is_given (go.parse_bool value)
parses go (set_int f) value = is_given (go.atoi value)
parses go (set_duration f) value = is_given (go.parse_duration value)

-- A variable of this release with a value that is read.
abbrev pub IsRecognised : Parsers → Bytes → Bytes → Type 0
IsRecognised go name value =
    (is_one_of removed_env name ≡ false)
    × (setter : Setter) × (lookup name env_targets ≡ some setter)
    × (parses go setter value ≡ true)

map_option-is_given :
    {A : Type 0} (g : A → Config) (o : Option A) (next : Config)
    → map_option g o ≡ some next
    → is_given o ≡ true
map_option-is_given g none next h = ground arith
map_option-is_given g (some a) next h = refl

apply_setter-parses :
    (go : Parsers) (setter : Setter) (value : Bytes) (cfg next : Config)
    → apply_setter go setter value cfg ≡ some next
    → parses go setter value ≡ true
unfolding apply_setter parses
apply_setter-parses go set_nothing value cfg next h = refl
apply_setter-parses go (set_string f) value cfg next h = refl
apply_setter-parses go (set_bool f) value cfg next h =
    map_option-is_given (λ b. write_flag f b cfg) (go.parse_bool value) next h
apply_setter-parses go (set_int f) value cfg next h =
    map_option-is_given (λ n. write_number f n cfg) (go.atoi value) next h
apply_setter-parses go (set_duration f) value cfg next h =
    map_option-is_given (λ n. write_number f n cfg) (go.parse_duration value) next h

taken-IsRecognised :
    (go : Parsers) (name value : Bytes) (cfg next : Config)
    → take_variable go name value cfg ≡ taken next
    → IsRecognised go name value
unfolding take_variable
taken-IsRecognised go name value cfg next h =
    let (setter, found, set) = taken-setter go name value cfg next h in
    (ground arith, setter, found, apply_setter-parses go setter value cfg next set)

apply_names-IsRecognised :
    (go : Parsers) (env : Assoc Bytes) (names : List Bytes) (cfg : Config) (name : Bytes)
    → (apply_names go env names cfg).problems ≡ []
    → (apply_names go env names cfg).unknown ≡ []
    → is_one_of names name ≡ true
    → IsRecognised go name (value_or [] (lookup name env))
unfolding is_one_of
apply_names-IsRecognised go env [] cfg name p u h = absurd (ground arith)
apply_names-IsRecognised go env (n ∷ names) cfg name p u h =
    let (next, e) = apply_names-all_taken go env n names cfg p u in
    let r = apply_names-taken go env n names cfg next e in
    elim (Bool-cases (text_eq n name)) [
      | inl y ↦
          subst (λ m. IsRecognised go m (value_or [] (lookup m env))) ((text_eq_iff n name).0 y)
            (taken-IsRecognised go n (value_or [] (lookup n env)) cfg next e)
      | inr y ↦
          apply_names-IsRecognised go env names next name (rw (sym r) p) (rw (sym r) u)
            (ground arith)
    ]

lookup-is_one_of :
    (env : Assoc Bytes) (name value : Bytes)
    → lookup name env ≡ some value
    → is_one_of (map (λ e. e.0) env) name ≡ true
unfolding is_one_of lookup
lookup-is_one_of [] name value h = ground arith
lookup-is_one_of ((n, v) ∷ env) name value h = ground (arith, lookup-is_one_of env name value)

apply_env-IsRecognised :
    (go : Parsers) (env : Assoc Bytes) (cfg : Config) (name value : Bytes)
    → IsSorting go.sort_strings
    → (apply_env go env cfg).1 ≡ []
    → lookup name env ≡ some value
    → IsRecognised go name value
apply_env-IsRecognised go env cfg name value sorting h found =
    let (p, u) = apply_env-none go env cfg h in
    let is_name = sorting.same (map (λ e. e.0) env) name ∙ lookup-is_one_of env name value found in
    subst (IsRecognised go name) (ap (value_or []) found)
      (apply_names-IsRecognised go env (env_names go env) cfg name p u is_name)

-- Names with an earlier release's prefix are never passed over.
legacy_problems-none :
    (names : List Bytes) (name : Bytes)
    → legacy_problems names ≡ []
    → is_one_of names name ≡ true
    → legacy_suffix legacy_env_prefixes name ≡ none
unfolding legacy_problems is_one_of
legacy_problems-none [] name h m = ground arith
legacy_problems-none (n ∷ names) name h m =
    elim (Option-cases (legacy_suffix legacy_env_prefixes n)) [
      | inl e ↦ ground (
        arith,
        text_eq_iff n name,
        legacy_problems-none names name,
        ap (legacy_suffix legacy_env_prefixes),
      )
      | inr (suffix, e) ↦ absurd (ground arith)
    ]

legacy_names-none :
    (environ : List Bytes)
    → ((name : Bytes)
        → is_one_of (legacy_names environ) name ≡ true
        → legacy_suffix legacy_env_prefixes name ≡ none)
    → All (λ entry. legacy_suffix legacy_env_prefixes (entry_name entry) ≡ none) environ
unfolding legacy_names is_one_of
legacy_names-none [] h = tt
legacy_names-none (entry ∷ environ) h =
    elim (Option-cases (legacy_suffix legacy_env_prefixes (entry_name entry))) [
      | inl e ↦ (e, legacy_names-none environ (λ name m. h name (ground arith)))
      | inr (suffix, e) ↦
          absurd (ground (arith, h (entry_name entry), text_eq_refl (entry_name entry)))
    ]

-- Load returns a configuration only where it has refused nothing. Where sort.Strings keeps the
-- strings it sorts and Load returns a configuration: no entry of the environment has the prefix of
-- an earlier release; each variable that envMap selects is one of this release, not removed, and
-- its value is one that its setter reads; and, unless validation is skipped, Validate finds no
-- problem in the configuration that is returned.
pub load-IsAccepted :
    (os : System) (opts : LoadOptions) (cfg : Config)
    → IsSorting os.go.sort_strings
    → load os opts ≡ config_loaded cfg
    → All (λ entry. legacy_suffix legacy_env_prefixes (entry_name entry) ≡ none) opts.environ
      × ((name value : Bytes)
          → lookup name (env_map opts.environ []) ≡ some value
          → IsRecognised os.go name value)
      × (opts.skip_validate ≡ false → validate os.host (env_map opts.environ []) cfg ≡ [])
unfolding reject_legacy_environment
load-IsAccepted os opts cfg sorting h =
    let l = load-IsLoaded os opts cfg h in
    let env = env_map opts.environ [] in
    let names = legacy_names opts.environ in
    (
      legacy_names-none opts.environ (λ name m.
          legacy_problems-none (os.go.sort_strings names) name l.no_legacy
            (sorting.same names name ∙ m)),
      λ name value. apply_env-IsRecognised os.go env l.file name value sorting l.merge.is_clean,
      l.merge.is_valid,
    )
