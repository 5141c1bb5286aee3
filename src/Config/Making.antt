-- ===== src/Config/Making.antt =====
-- A new option, and the section that it goes to.
use rapp.Prelude.{
  memory_strdup, memory_create, ◌≡◌, refl, Bool, true, false, not, Option, none, some, [], inl, inr,
  arith, Bool-cases, if_cases, Text, str_eq, str_eq→eq, str_eq_refl, Memory,
}
use rapp.Config.{
  ParamType, param_bool, param_int, param_string, ConfigOption, ConfigSection, RappConfig, Status,
  success,
}
use rapp.Config.Values.{opt_setup_values}
use rapp.Config.Store.{find_section, config_section_get, get_option}
use rapp.Config.Valid.{IsValid}
use rapp.Config.Api.Declare.{
  dup_metavar, dup_given, ensure_by, declared, ensure_section, make_option,
}
use rapp.Config.Insert.{or_else, find_section-append, create-get_option}

-- An option that was declared is valid: it holds no value yet.
declared-IsValid :
    (type : ParamType) (help : Option Text) (name : Text) (metavar : Option Text)
    → IsValid (declared type help name metavar)
unfolding opt_setup_values
declared-IsValid param_bool help name metavar = record {
  counted = refl;
  fits = tt;
  single = λ _. omega arith;
}
declared-IsValid param_int help name metavar = record {
  counted = refl;
  fits = tt;
  single = λ _. omega arith;
}
declared-IsValid param_string help name metavar = record {
  counted = refl;
  fits = tt;
  single = λ _. omega arith;
}

pub declared-name :
    (type : ParamType) (help : Option Text) (name : Text) (metavar : Option Text)
    → (declared type help name metavar).name ≡ name
unfolding opt_setup_values
declared-name param_bool help name metavar = refl
declared-name param_int help name metavar = refl
declared-name param_string help name metavar = refl

-- The options as they are found, whatever the sections hold.
abbrev pub SameOptions : RappConfig → RappConfig → Type 0
SameOptions conf conf' =
    (section name : Text) → get_option conf' section name ≡ get_option conf section name

-- The section is there, and every option is found as before.
abbrev Ensured : RappConfig → Text → Bool × RappConfig × Memory → Type 0
Ensured conf section r =
    SameOptions conf r.1
    × (r.0 ≡ true → (s : ConfigSection) × (find_section section r.1.sections ≡ some s))

pub ensure_section-Ensured :
    (conf : RappConfig) (section : Text) (m : Memory)
    → Ensured conf section (ensure_section conf section m)
unfolding ensure_section get_option
ensure_section-Ensured conf section m = go (config_section_get conf section) refl
  where
    go :
        (o : Option ConfigSection)
        → config_section_get conf section ≡ o
        → Ensured conf section (ensure_by o conf section m)
    go (some s) e = (λ _ _. refl, λ _. (s, e))
    go none e =
        if_cases (Ensured conf section) (not (memory_create m).0) (λ _. (λ _ _. refl, λ t. cc))
          λ _.
            if_cases (Ensured conf section) (not (memory_strdup (memory_create m).1).0)
              (λ _. (λ _ _. refl, λ t. cc))
              λ _. (
                λ sec name. create-get_option conf section 0 sec name,
                λ _. (
                  record { name = section; num_opts = 0; options = [] },
                  rw (
                    find_section-append section conf.sections
                        (record { name = section; num_opts = 0; options = [] }),
                    e,
                    str_eq_refl section,
                  ),
                ),
              )

abbrev pub Made : Text → ParamType → Option Text → Option ConfigOption × Memory → Type 0
Made name type help r =
    (opt : ConfigOption)
    → r.0 ≡ some opt
    → (meta : Option Text) × (opt ≡ declared type help name meta)

pub make_option-Made :
    (name : Text) (type : ParamType) (help metavar : Option Text) (m : Memory)
    → Made name type help (make_option name type help metavar m)
unfolding make_option
make_option-Made name type help metavar m =
    if_cases P (not (memory_create m).0) (λ _ opt e. cc)
      λ _.
        if_cases P (not (dup_given help (memory_create m).1).0) (λ _ opt e. cc)
          λ _.
            if_cases P (not (memory_strdup (dup_given help (memory_create m).1).1).0)
              (λ _ opt e. cc)
              λ _. λ opt e. (
                (dup_metavar type metavar
                    (memory_strdup (dup_given help (memory_create m).1).1).1).0,
                cc,
              )
  where
    P : Option ConfigOption × Memory → Type 0
    P = Made name type help

pub str_eq-ne : {a b : Text} → (a ≡ b → ⊥) → str_eq a b ≡ false
str_eq-ne {a} {b} d = elim (Bool-cases (str_eq a b)) [
  | inl e ↦ absurd (d (str_eq→eq a b e))
  | inr e ↦ e
]

-- The result of an attempt to declare `section.name`.
abbrev pub Added :
    RappConfig → Text → Text → ParamType → Option Text → Status × RappConfig × Memory → Type 0
Added conf section name type help r =
    (r.0 ≡ success
      → (meta : Option Text) × (get_option r.1 section name
          ≡ or_else (get_option conf section name) (some (declared type help name meta))))
    × ((section' name' : Text)
        → ((r.0 ≡ success) × (section ≡ section') × (name ≡ name') → ⊥)
        → get_option r.1 section' name' ≡ get_option conf section' name')
