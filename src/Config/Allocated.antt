-- ===== src/Config/Allocated.antt =====
-- The blocks of a new option, and of a section that it or another section is added to.
use rapp.Prelude.{
  ℕ, ◌+◌, ◌-◌, ◌≡◌, refl, Bool, true, false, not, Option, none, some, List, [], ◌∷◌, ◌++◌, arith,
  inl, inr, Bool-cases, if_cases, if◌then◌else◌, Text, str_eq, Memory, memory_create, memory_strdup,
  memory_destroy,
}
use rapp.Config.{ParamType, param_bool, param_int, param_string, ConfigOption, ConfigSection}
use rapp.Config.Values.{opt_setup_values}
use rapp.Config.Store.{find_section}
use rapp.Config.Api.Declare.{
  release_help, dup_given, dup_metavar, declared, make_option, insert_option,
}
use rapp.Config.Ownership.{text_blocks, option_blocks, options_blocks, sections_blocks}
use rapp.Config.Owned.{create-live, strdup-live}

options_blocks-append :
    (os : List ConfigOption) (o : ConfigOption)
    → options_blocks (os ++ o ∷ []) ≡ options_blocks os + option_blocks o
unfolding options_blocks
options_blocks-append [] o = omega arith
options_blocks-append (p ∷ os) o = omega (arith, options_blocks-append os o)

pub sections_blocks-append :
    (ss : List ConfigSection) (name : Text) (n : ℕ)
    → sections_blocks (ss ++ record { name = name; num_opts = n; options = [] } ∷ [])
      ≡ sections_blocks ss + 2
unfolding sections_blocks options_blocks
sections_blocks-append [] name n = omega arith
sections_blocks-append (s ∷ ss) name n = omega (arith, sections_blocks-append ss name n)

pub insert_option-blocks :
    (section : Text) (opt : ConfigOption) (ss : List ConfigSection) (s : ConfigSection)
    → find_section section ss ≡ some s
    → sections_blocks (insert_option section opt ss) ≡ sections_blocks ss + option_blocks opt
unfolding insert_option find_section sections_blocks
insert_option-blocks section opt [] s h = cc
insert_option-blocks section opt (p ∷ ss) s h = elim (Bool-cases (str_eq p.name section)) [
  | inl e ↦ rw e (omega (arith, options_blocks-append p.options opt))
  | inr e ↦ rw e (omega (arith, insert_option-blocks section opt ss s (rw e at h)))
]

declared-blocks :
    (type : ParamType) (help : Option Text) (name : Text) (meta : Option Text)
    → option_blocks (declared type help name meta) ≡ text_blocks help + text_blocks meta + 2
unfolding option_blocks opt_setup_values
declared-blocks param_bool help name meta = omega arith
declared-blocks param_int help name meta = omega arith
declared-blocks param_string help name meta = omega arith

dup_given-live :
    (t : Option Text) (m : Memory) (got : Bool)
    → (dup_given t m).0 ≡ got
    → (dup_given t m).1.live ≡ m.live + (if got then text_blocks t else 0)
dup_given-live none m got e = rw (← e) (omega arith)
dup_given-live (some t) m got e = strdup-live m got e

given-metavar-live :
    (metavar : Option Text) (m : Memory)
    → (let (meta, m') = dup_metavar param_int metavar m in m'.live ≡ m.live + text_blocks meta)
given-metavar-live metavar m = elim (Bool-cases (dup_given metavar m).0) [
  | inl e ↦ rw e (dup_given-live metavar m true e)
  | inr e ↦ rw e (dup_given-live metavar m false e)
]

dup_metavar-live :
    (type : ParamType) (metavar : Option Text) (m : Memory)
    → (let (meta, m') = dup_metavar type metavar m in m'.live ≡ m.live + text_blocks meta)
dup_metavar-live param_bool metavar m = omega arith
dup_metavar-live param_int metavar m = given-metavar-live metavar m
dup_metavar-live param_string metavar m = given-metavar-live metavar m

release_help-live :
    (help : Option Text) (m : Memory) → (release_help help m).live ≡ m.live - text_blocks help
unfolding memory_destroy
release_help-live none m = omega arith
release_help-live (some t) m = refl

abbrev pub made_blocks : Option ConfigOption → ℕ
made_blocks none = 0
made_blocks (some opt) = option_blocks opt

-- A refused declaration frees what it took.
pub make_option-live :
    (name : Text) (type : ParamType) (help metavar : Option Text) (m : Memory)
    → (let (o, m') = make_option name type help metavar m in m'.live ≡ m.live + made_blocks o)
unfolding make_option memory_destroy
make_option-live name type help metavar m =
    let P = λ (r : Option ConfigOption × Memory). r.1.live ≡ m.live + made_blocks r.0 in
    let m₁ = (memory_create m).1 in
    let m₂ = (dup_given help m₁).1 in
    let m₃ = (memory_strdup m₂).1 in
    if_cases P (not (memory_create m).0)
      (λ e. omega (arith, create-live m false (ground (arith, e))))
      λ e.
        if_cases P (not (dup_given help m₁).0)
          (λ f. omega (
            arith,
            create-live m true (ground (arith, e)),
            dup_given-live help m₁ false (ground (arith, f)),
          ))
          λ f.
            if_cases P (not (memory_strdup m₂).0)
              (λ g. omega (
                arith,
                create-live m true (ground (arith, e)),
                dup_given-live help m₁ true (ground (arith, f)),
                strdup-live m₂ false (ground (arith, g)),
                release_help-live help m₃,
              ))
              (λ g. omega (
                arith,
                create-live m true (ground (arith, e)),
                dup_given-live help m₁ true (ground (arith, f)),
                strdup-live m₂ true (ground (arith, g)),
                dup_metavar-live type metavar m₃,
                declared-blocks type help name (dup_metavar type metavar m₃).0,
              ))
