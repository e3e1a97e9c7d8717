-- ===== src/Config/Environment/Applied.antt =====
-- What applyEnv leaves in a text: the value of its variable, or what the text had.
use device_serial_scanner.Common.{
  ◌≡◌, refl, ap, sym, ◌∙◌, inl, inr, List, [], ◌∷◌, map, Bytes, Assoc, lookup, text_eq, text_eq_iff,
  if◌then◌else◌, arith, append_none,
}
use device_serial_scanner.Config.Settings.{Config}
use device_serial_scanner.Config.Devices.{is_one_of}
use device_serial_scanner.Config.Credentials.{value_or}
use device_serial_scanner.Config.Environment.{Parsers, TextField, text_at}
use device_serial_scanner.Config.Environment.Overlay.{
  taken, take_variable, apply_names, apply_env, unknown_problem,
}
use device_serial_scanner.Config.Environment.Fields.{variable_of}
use device_serial_scanner.Config.Environment.Setters.{Taken-cases, text_at-take_variable}

-- What a text has behind the loop over the names.
abbrev pub overlaid : Assoc Bytes → List Bytes → TextField → Bytes → Bytes
overlaid env names f old =
    if is_one_of names (variable_of f) then value_or [] (lookup (variable_of f) env) else old

overlaid-name :
    (env : Assoc Bytes) (name : Bytes) (names : List Bytes) (f : TextField) (old : Bytes)
    → overlaid env names f
        (if text_eq name (variable_of f) then value_or [] (lookup name env) else old)
      ≡ overlaid env (name ∷ names) f old
unfolding is_one_of
overlaid-name env name names f old =
    ground (arith, ap (λ n. value_or [] (lookup n env)), text_eq_iff name (variable_of f))

pub apply_names-taken :
    (go : Parsers) (env : Assoc Bytes) (name : Bytes) (names : List Bytes) (cfg next : Config)
    → take_variable go name (value_or [] (lookup name env)) cfg ≡ taken next
    → apply_names go env (name ∷ names) cfg ≡ apply_names go env names next
unfolding apply_names text_eq
apply_names-taken go env name names cfg next e = rw e refl

-- Without a problem, every variable is taken.
pub apply_names-all_taken :
    (go : Parsers) (env : Assoc Bytes) (name : Bytes) (names : List Bytes) (cfg : Config)
    → (apply_names go env (name ∷ names) cfg).problems ≡ []
    → (apply_names go env (name ∷ names) cfg).unknown ≡ []
    → (next : Config) × (take_variable go name (value_or [] (lookup name env)) cfg ≡ taken next)
unfolding apply_names
apply_names-all_taken go env name names cfg p u =
    elim (Taken-cases (take_variable go name (value_or [] (lookup name env)) cfg)) [
      | inl e ↦ absurd (ground arith)
      | inr (inl e) ↦ absurd (ground arith)
      | inr (inr (inl e)) ↦ absurd (ground arith)
      | inr (inr (inr (next, e))) ↦ (next, e)
    ]

text_at-apply_names_end :
    (go : Parsers) (env : Assoc Bytes) (cfg : Config) (f : TextField)
    → text_at f (apply_names go env [] cfg).config ≡ overlaid env [] f (text_at f cfg)
unfolding apply_names is_one_of
text_at-apply_names_end go env cfg f = refl

-- The loop: a text has its variable's value, where the variable is among the names.
text_at-apply_names :
    (go : Parsers) (env : Assoc Bytes) (names : List Bytes) (cfg : Config) (f : TextField)
    → (apply_names go env names cfg).problems ≡ []
    → (apply_names go env names cfg).unknown ≡ []
    → text_at f (apply_names go env names cfg).config ≡ overlaid env names f (text_at f cfg)
text_at-apply_names go env [] cfg f p u = text_at-apply_names_end go env cfg f
text_at-apply_names go env (name ∷ names) cfg f p u =
    let (next, e) = apply_names-all_taken go env name names cfg p u in
    let r = apply_names-taken go env name names cfg next e in
    ap (λ o. text_at f o.config) r
    ∙ text_at-apply_names go env names next f (rw (sym r) p) (rw (sym r) u)
    ∙ ap (overlaid env names f)
        (text_at-take_variable go f name (value_or [] (lookup name env)) cfg next e)
    ∙ overlaid-name env name names f (text_at f cfg)

-- sort.Strings gives the strings it is given.
pub record IsSorting (sort_strings : List Bytes → List Bytes) : Type 0 where
  pub same :
      (names : List Bytes) (name : Bytes)
      → is_one_of (sort_strings names) name ≡ is_one_of names name

overlaid-keys :
    (env : Assoc Bytes) (f : TextField) (old : Bytes)
    → overlaid env (map (λ e. e.0) env) f old ≡ value_or old (lookup (variable_of f) env)
unfolding is_one_of lookup
overlaid-keys env f old = named_value env (variable_of f) old
  where
    named_value :
        (env : Assoc Bytes) (name old : Bytes)
        → (if is_one_of (map (λ e. e.0) env) name then value_or [] (lookup name env) else old)
          ≡ value_or old (lookup name env)
    named_value [] name old = refl
    named_value ((n, v) ∷ env) name old = ground (arith, named_value env name old)

unknown_problem-none : (names : List Bytes) → unknown_problem names ≡ [] → names ≡ []
unknown_problem-none [] h = refl
unknown_problem-none (name ∷ names) h = absurd (ground arith)

-- The names that applyEnv goes through.
abbrev pub env_names : Parsers → Assoc Bytes → List Bytes
env_names go env = go.sort_strings (map (λ e. e.0) env)

pub apply_env-none :
    (go : Parsers) (env : Assoc Bytes) (cfg : Config)
    → (apply_env go env cfg).1 ≡ []
    → ((apply_names go env (env_names go env) cfg).problems ≡ [])
      × ((apply_names go env (env_names go env) cfg).unknown ≡ [])
unfolding apply_env
apply_env-none go env cfg h =
    let o = apply_names go env (env_names go env) cfg in
    let (p, u) = append_none o.problems (unknown_problem o.unknown) h in
    (p, unknown_problem-none o.unknown u)

-- applyEnv without a problem.
pub text_at-apply_env :
    (go : Parsers) (env : Assoc Bytes) (cfg : Config) (f : TextField)
    → IsSorting go.sort_strings
    → (apply_env go env cfg).1 ≡ []
    → text_at f (apply_env go env cfg).0 ≡ value_or (text_at f cfg) (lookup (variable_of f) env)
unfolding apply_env
text_at-apply_env go env cfg f sorting h =
    let (p, u) = apply_env-none go env cfg h in
    let old = text_at f cfg in
    text_at-apply_names go env (env_names go env) cfg f p u
    ∙ rw (sorting.same (map (λ e. e.0) env) (variable_of f)) (overlaid-keys env f old)
