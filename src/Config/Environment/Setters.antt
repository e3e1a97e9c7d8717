-- ===== src/Config/Environment/Setters.antt =====
-- One variable of the environment that is taken: what its setter leaves in a text.
use device_serial_scanner.Common.{
  ◌≡◌, refl, ap, sym, ◌∙◌, inl, inr, ◌⊎◌, Option-cases, true, Option, none, some, Bytes, lookup,
  text_eq, text_eq_iff, if◌then◌else◌, arith,
}
use device_serial_scanner.Config.Settings.{Config}
use device_serial_scanner.Config.Environment.{
  Parsers, TextField, text_at, write_flag, write_number, Setter, set_nothing, set_string, set_bool,
  set_int, set_duration, apply_setter, map_option,
}
use device_serial_scanner.Config.Environment.Targets.{env_targets}
use device_serial_scanner.Config.Environment.Overlay.{
  Taken, was_removed, not_known, bad_value, taken, take_variable,
}
use device_serial_scanner.Config.Environment.Fields.{
  field_number, same_field, variable_of, text_at-write_text, text_at-write_flag,
  text_at-write_number, lookup-variable_of, is_fitting, target-fitting,
}

-- What a setter leaves in a text.
abbrev after_setter : TextField → Setter → Bytes → Bytes → Bytes
after_setter f (set_string g) v old = if same_field f g then v else old
after_setter f set_nothing v old = old
after_setter f (set_bool g) v old = old
after_setter f (set_int g) v old = old
after_setter f (set_duration g) v old = old

text_at-map_option :
    {A : Type 0} (f : TextField) (g : A → Config) (o : Option A) (old : Bytes) (next : Config)
    → ((a : A) → text_at f (g a) ≡ old)
    → map_option g o ≡ some next
    → text_at f next ≡ old
text_at-map_option f g none old next keeps h = ground arith
text_at-map_option f g (some a) old next keeps h = ground (arith, keeps a)

text_at-apply_setter :
    (go : Parsers) (f : TextField) (setter : Setter) (v : Bytes) (cfg next : Config)
    → apply_setter go setter v cfg ≡ some next
    → text_at f next ≡ after_setter f setter v (text_at f cfg)
unfolding apply_setter
text_at-apply_setter go f set_nothing v cfg next h = ground arith
text_at-apply_setter go f (set_string g) v cfg next h = ground (arith, text_at-write_text f g v cfg)
text_at-apply_setter go f (set_bool g) v cfg next h =
    text_at-map_option f (λ b. write_flag g b cfg) (go.parse_bool v) (text_at f cfg) next
      (λ b. text_at-write_flag f g b cfg) h
text_at-apply_setter go f (set_int g) v cfg next h =
    text_at-map_option f (λ n. write_number g n cfg) (go.atoi v) (text_at f cfg) next
      (λ n. text_at-write_number f g n cfg) h
text_at-apply_setter go f (set_duration g) v cfg next h =
    text_at-map_option f (λ n. write_number g n cfg) (go.parse_duration v) (text_at f cfg) next
      (λ n. text_at-write_number f g n cfg) h

same_field_refl : (f : TextField) → same_field f f ≡ true
unfolding field_number
same_field_refl f = ground arith

setter-variable_of :
    (f : TextField) (name : Bytes) (setter : Setter)
    → lookup name env_targets ≡ some setter
    → text_eq name (variable_of f) ≡ true
    → some setter ≡ some (set_string f)
setter-variable_of f name setter found same =
    sym found
    ∙ ap (λ n. lookup n env_targets) ((text_eq_iff name (variable_of f)).0 same)
    ∙ lookup-variable_of f

after_setter-fitting :
    (f : TextField) (name : Bytes) (setter : Setter) (v old : Bytes)
    → lookup name env_targets ≡ some setter
    → is_fitting f name setter ≡ true
    → after_setter f setter v old ≡ (if text_eq name (variable_of f) then v else old)
unfolding is_fitting
after_setter-fitting f name set_nothing v old found fit =
    ground (arith, setter-variable_of f name set_nothing found)
after_setter-fitting f name (set_string g) v old found fit =
    ground (arith, same_field_refl f, setter-variable_of f name (set_string g) found)
after_setter-fitting f name (set_bool g) v old found fit =
    ground (arith, setter-variable_of f name (set_bool g) found)
after_setter-fitting f name (set_int g) v old found fit =
    ground (arith, setter-variable_of f name (set_int g) found)
after_setter-fitting f name (set_duration g) v old found fit =
    ground (arith, setter-variable_of f name (set_duration g) found)

pub Taken-cases :
    (t : Taken)
    → (t ≡ was_removed) ⊎ (t ≡ not_known) ⊎ (t ≡ bad_value) ⊎ ((next : Config) × (t ≡ taken next))
Taken-cases was_removed = inl refl
Taken-cases not_known = inr (inl refl)
Taken-cases bad_value = inr (inr (inl refl))
Taken-cases (taken next) = inr (inr (inr (next, refl)))

-- What a variable that is taken comes to.
pub taken-setter :
    (go : Parsers) (name v : Bytes) (cfg next : Config)
    → take_variable go name v cfg ≡ taken next
    → (setter : Setter) × (lookup name env_targets ≡ some setter)
      × (apply_setter go setter v cfg ≡ some next)
unfolding take_variable
taken-setter go name v cfg next h = elim (Option-cases (lookup name env_targets)) [
  | inl e ↦ absurd (ground arith)
  | inr (setter, e) ↦ (setter, e, ground arith)
]

pub text_at-take_variable :
    (go : Parsers) (f : TextField) (name v : Bytes) (cfg next : Config)
    → take_variable go name v cfg ≡ taken next
    → text_at f next ≡ (if text_eq name (variable_of f) then v else text_at f cfg)
text_at-take_variable go f name v cfg next h =
    let (setter, found, set) = taken-setter go name v cfg next h in
    text_at-apply_setter go f setter v cfg next set
    ∙ after_setter-fitting f name setter v (text_at f cfg) found
        (target-fitting f name setter found)
