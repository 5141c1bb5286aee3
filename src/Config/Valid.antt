-- ===== src/Config/Valid.antt =====
-- The invariant of an option: its count, its values' types and ranges, and one value at most
-- where several are not allowed.
use rapp.Config.Values.{remove_loop, config_option_remove_all_values}
use rapp.Prelude.{
  ℕ, ◌+◌, ◌-◌, ◌≤◌, ◌≡◌, true, false, List, [], ◌∷◌, ◌++◌, arith, ℤ, ◌≤ℤ◌, is_zero, Text, All,
  All-append, length, length-append, Memory, memory_create, memory_strdup, memory_destroy, if_cases,
  not, if◌then◌else◌, pos, if◌then◌else◌, pos,
}
use rapp.Config.{
  ParamType, param_bool, param_int, param_string, Value, int_value, str_value, null_string,
  ConfigOption, Status, failure,
}
use rapp.Config.Values.{
  is_string, opt_add_value_int, opt_add_value_string, config_option_remove_all_values, is_full,
  out_of_range,
}
use rapp.Config.Number.{strtol}
use rapp.Config.Boolean.{regcomp, regfree, regex_bool_matches}
use rapp.Config.Convert.{config_add_value_from_string, add_by_type, add_bool, add_int, int_rejected}

-- A value of an option of that type, in its range if it has one.
abbrev Fits : ConfigOption → Value → Type 0
Fits opt (int_value n) =
    (is_string opt.type ≡ false)
    × (opt.range_set ≡ true → (opt.value_min ≤ℤ n) × (n ≤ℤ opt.value_max))
Fits opt (str_value t) = is_string opt.type ≡ true
Fits opt null_string = ⊥

pub record IsValid (opt : ConfigOption) : Type 0 where
  pub counted : opt.num_values ≡ length opt.values
  pub fits : All (Fits opt) opt.values
  pub single : is_zero opt.multivalued ≡ true → opt.num_values ≤ 1

-- What an addition leaves alone.
pub record SameKind (o p : ConfigOption) : Type 0 where
  pub type : p.type ≡ o.type
  pub name : p.name ≡ o.name
  pub range_set : p.range_set ≡ o.range_set
  pub value_min : p.value_min ≡ o.value_min
  pub value_max : p.value_max ≡ o.value_max
  pub multivalued : p.multivalued ≡ o.multivalued
  pub default_value : p.default_value ≡ o.default_value
  pub default_set : p.default_set ≡ o.default_set
  pub no_override : p.no_override ≡ o.no_override

insert-IsValid :
    (opt : ConfigOption) (v : Value)
    → IsValid opt
    → Fits opt v
    → (is_zero opt.multivalued ≡ true → opt.num_values ≤ 0)
    → IsValid (record opt { num_values = opt.num_values + 1; values = opt.values ++ v ∷ [] })
insert-IsValid opt v h f s = record {
  counted = omega (arith, h.counted, length-append opt.values (v ∷ []));
  fits = All-append (Fits opt) opt.values (v ∷ []) h.fits (f, tt);
  single = λ z. omega (arith, s z);
}

abbrev Sound : ConfigOption → Status × ConfigOption × Memory → Type 0
Sound opt r = (IsValid opt → IsValid r.1) × SameKind opt r.1

SameKind-refl : (o : ConfigOption) → SameKind o o
SameKind-refl o = ground arith

unchanged : (o : ConfigOption) (s : Status) (m : Memory) → Sound o (s, o, m)
unchanged o s m = (λ h. h, SameKind-refl o)

in_range :
    (opt : ConfigOption) (value : ℤ)
    → is_string opt.type ≡ false
    → out_of_range opt value ≡ false
    → Fits opt (int_value value)
in_range opt value t r = (t, λ s. ground arith)

not_full :
    (opt : ConfigOption) → is_full opt ≡ false → is_zero opt.multivalued ≡ true → opt.num_values ≤ 0
not_full opt f z = ground arith

opt_add_value_int-Sound :
    (opt : ConfigOption) (value : ℤ) (m : Memory) → Sound opt (opt_add_value_int opt value m)
unfolding opt_add_value_int
opt_add_value_int-Sound opt value m =
    if_cases (Sound opt) (is_string opt.type) (λ _. unchanged opt failure m)
      λ t.
        if_cases (Sound opt) (is_full opt) (λ _. unchanged opt failure m)
          λ f.
            if_cases (Sound opt) (out_of_range opt value) (λ _. unchanged opt failure m)
              λ r.
                if_cases (Sound opt) (memory_create m).0
                  (λ _. (
                    λ h.
                        insert-IsValid opt (int_value value) h (in_range opt value t r)
                          (not_full opt f),
                    ground arith,
                  ))
                  (λ _. unchanged opt failure (memory_create m).1)

opt_add_value_string-Sound :
    (opt : ConfigOption) (value : Text) (m : Memory) → Sound opt (opt_add_value_string opt value m)
unfolding opt_add_value_string
opt_add_value_string-Sound opt value m =
    if_cases (Sound opt) (is_full opt) (λ _. unchanged opt failure m)
      λ f.
        if_cases (Sound opt) (not (is_string opt.type)) (λ _. unchanged opt failure m)
          λ t.
            if_cases (Sound opt) (not (memory_create m).0)
              (λ _. unchanged opt failure (memory_create m).1)
              λ _.
                if_cases (Sound opt) (not (memory_strdup (memory_create m).1).0)
                  (λ _.
                    unchanged opt failure (memory_destroy (memory_strdup (memory_create m).1).1))
                  λ _. (
                    λ h. insert-IsValid opt (str_value value) h (ground arith) (not_full opt f),
                    ground arith,
                  )

add_by_type-Sound :
    (type : ParamType) (opt : ConfigOption) (value : Text) (m : Memory)
    → Sound opt (add_by_type type opt value m)
unfolding add_by_type add_bool add_int
add_by_type-Sound param_string opt value m = opt_add_value_string-Sound opt value m
add_by_type-Sound param_bool opt value m =
    if_cases (Sound opt) (not (regcomp m).0) (λ _. unchanged opt failure (regcomp m).1)
      λ _.
        if_cases (Sound opt) (regex_bool_matches value)
          (λ _.
            opt_add_value_int-Sound opt (if (regcomp (regcomp m).1).0 then pos 1 else pos 0)
              (regcomp (regcomp m).1).1)
          (λ _. unchanged opt failure (regfree (regcomp m).1))
add_by_type-Sound param_int opt value m =
    if_cases (Sound opt) (int_rejected opt (strtol value)) (λ _. unchanged opt failure m)
      λ _. opt_add_value_int-Sound opt (strtol value).value m

pub config_add_value_from_string-SameKind :
    (opt : ConfigOption) (value : Text) (m : Memory)
    → SameKind opt (config_add_value_from_string opt value m).1
unfolding config_add_value_from_string
config_add_value_from_string-SameKind opt value m = (add_by_type-Sound opt.type opt value m).1

-- Whatever the text, adding it to a valid option leaves a valid one: the count is the number of
-- values, each is of the option's type and in its range, and a single-valued option holds one at
-- most. The name, type, range, default and lock of the option do not change.
pub config_add_value_from_string-IsValid :
    (opt : ConfigOption) (value : Text) (m : Memory)
    → IsValid opt
    → IsValid (config_add_value_from_string opt value m).1
      × SameKind opt (config_add_value_from_string opt value m).1
unfolding config_add_value_from_string
config_add_value_from_string-IsValid opt value m h =
    let sound = add_by_type-Sound opt.type opt value m in (sound.0 h, sound.1)

remove_loop-zero :
    (type : ParamType) (vs : List Value) (n : ℕ) (m : Memory)
    → n ≡ length vs
    → (remove_loop type vs n m).0 ≡ 0
unfolding remove_loop
remove_loop-zero type [] n m e = e
remove_loop-zero type (v ∷ vs) n m e = remove_loop-zero type vs (n - 1) _ (omega arith)

-- Removing all values of a valid option leaves a valid one that holds none, with the count at 0.
config_option_remove_all_values-IsValid :
    (opt : ConfigOption) (m : Memory)
    → IsValid opt
    → IsValid (config_option_remove_all_values opt m).0
      × ((config_option_remove_all_values opt m).0.num_values ≡ 0)
unfolding config_option_remove_all_values
config_option_remove_all_values-IsValid opt m h =
    let e = remove_loop-zero opt.type opt.values opt.num_values m h.counted in
    (record { counted = e; fits = tt; single = λ _. omega arith }, e)
