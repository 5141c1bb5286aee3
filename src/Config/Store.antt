-- ===== src/Config/Store.antt =====
-- Sections and the options in them (src/config/common.c, the GET_OPTION macros of
-- src/config/common.h). A pointer to an option is the place of the first one with its names.
use rapp.Prelude.{
  Bool, true, false, not, Option, none, some, List, [], ◌∷◌, ◌++◌, if◌then◌else◌, ℤ, Text, str_eq,
  Memory, memory_create, memory_strdup, memory_destroy,
}
use rapp.Config.{ConfigOption, ConfigSection, RappConfig, Status, missing}
use rapp.Config.Values.{opt_add_value_int, opt_add_value_string}

abbrev pub empty_config : RappConfig
empty_config = record { num_sections = 0; sections = [] }

unfoldable pub config_new : Memory → Option RappConfig × Memory
unfolding memory_create
config_new m = let (got, m') = memory_create m in (if got then some empty_config else none, m')

-- The loop of `config_section_find` and of `config_section_get`.
unfoldable pub find_section : Text → List ConfigSection → Option ConfigSection
unfolding str_eq
find_section section [] = none
find_section section (s ∷ ss) = if str_eq s.name section then some s else find_section section ss

unfoldable pub config_section_get : RappConfig → Text → Option ConfigSection
unfolding find_section
config_section_get conf section = find_section section conf.sections

unfoldable pub config_section_create : RappConfig → Text → Memory → Bool × RappConfig × Memory
unfolding memory_create memory_strdup memory_destroy
config_section_create conf name m =
    let (got_sect, m₁) = memory_create m in
    if not got_sect
    then (false, conf, m₁)
    else let (got_name, m₂) = memory_strdup m₁ in
      if not got_name then (false, conf, memory_destroy m₂) else (
        true,
        record conf {
          sections = conf.sections ++ record { name = name; num_opts = 0; options = [] } ∷ [];
        },
        m₂,
      )

-- GET_OPTION_FROM_SECT.
unfoldable pub find_option : Text → List ConfigOption → Option ConfigOption
unfolding str_eq
find_option name [] = none
find_option name (o ∷ os) = if str_eq o.name name then some o else find_option name os

abbrev pub option_of : Text → Option ConfigSection → Option ConfigOption
option_of name none = none
option_of name (some s) = find_option name s.options

-- GET_OPTION: `none` is the macro's `return 1`.
unfoldable pub get_option : RappConfig → Text → Text → Option ConfigOption
unfolding config_section_get find_option
get_option conf section name = option_of name (config_section_get conf section)

-- What a call does to the option that the macro found.
abbrev pub Change : Type 0
Change = ConfigOption → Memory → Status × ConfigOption × Memory

unfoldable pub change_option :
    Change → Text → List ConfigOption → Memory → Status × List ConfigOption × Memory
unfolding str_eq
change_option f name [] m = (missing, [], m)
change_option f name (o ∷ os) m =
    let (s, os', m') = change_option f name os m in
    if str_eq o.name name then (let (s, o', m') = f o m in (s, o' ∷ os, m')) else (s, o ∷ os', m')

unfoldable pub change_section :
    Change → Text → Text → List ConfigSection → Memory → Status × List ConfigSection × Memory
unfolding change_option
change_section f section name [] m = (missing, [], m)
change_section f section name (s ∷ ss) m =
    let (r, ss', m') = change_section f section name ss m in
    if str_eq s.name section
    then (let (r, os, m') = change_option f name s.options m in
        (r, record s { options = os } ∷ ss, m'))
    else (r, s ∷ ss', m')

-- GET_OPTION and the body behind it.
unfoldable pub with_option :
    Change → RappConfig → Text → Text → Memory → Status × RappConfig × Memory
unfolding change_section
with_option f conf section name m =
    let (r, ss, m') = change_section f section name conf.sections m in
    (r, record conf { sections = ss }, m')

unfoldable pub config_add_value_int :
    RappConfig → Text → Text → ℤ → Memory → Status × RappConfig × Memory
unfolding with_option opt_add_value_int
config_add_value_int conf section name value =
    with_option (λ opt. opt_add_value_int opt value) conf section name

unfoldable pub config_add_value_string :
    RappConfig → Text → Text → Text → Memory → Status × RappConfig × Memory
unfolding with_option opt_add_value_string
config_add_value_string conf section name value =
    with_option (λ opt. opt_add_value_string opt value) conf section name
