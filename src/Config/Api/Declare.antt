-- ===== src/Config/Api/Declare.antt =====
-- `validate_name` and `rapp_config_opt_add` of src/config/api.c.
use rapp.Prelude.{
  ℕ, ◌+◌, Bool, true, false, not, ◌&&◌, ◌||◌, ◌==◌, Option, none, some, List, [], ◌∷◌, ◌++◌,
  if◌then◌else◌, pos, Text, str_eq, is_lower, Memory, memory_create, memory_strdup, memory_destroy,
}
use rapp.Config.{
  ParamType, param_bool, int_value, ConfigOption, ConfigSection, RappConfig, Status, success,
  failure,
}
use rapp.Config.Values.{opt_setup_values}
use rapp.Config.Boolean.{regcomp, regfree}
use rapp.Config.Store.{config_section_get, config_section_create}

-- The class `[_[:lower:]]`.
abbrev name_char : ℕ → Bool
name_char c = is_lower c || c == b'_'

-- `[_[:lower:]]*[[:lower:]]$`.
unfoldable name_tail : Text → Bool
name_tail [] = false
name_tail (c ∷ []) = is_lower c
name_tail (c ∷ d ∷ cs) = name_char c && name_tail (d ∷ cs)

-- `regexec` with "^[[:lower:]][_[:lower:]]*[[:lower:]]$".
unfoldable pub regex_name_matches : Text → Bool
unfolding name_tail
regex_name_matches [] = false
regex_name_matches (c ∷ cs) = is_lower c && name_tail cs

unfoldable pub validate_name : Text → Memory → Bool × Memory
unfolding regcomp regfree regex_name_matches
validate_name name m =
    let (compiled, m') = regcomp m in
    if compiled then (regex_name_matches name, regfree m') else (false, m')

abbrev pub ensure_by :
    Option ConfigSection → RappConfig → Text → Memory → Bool × RappConfig × Memory
ensure_by (some s) conf section m = (true, conf, m)
ensure_by none conf section m = config_section_create conf section m

-- `config_section_get`, and `config_section_create` where that finds nothing.
unfoldable pub ensure_section : RappConfig → Text → Memory → Bool × RappConfig × Memory
unfolding config_section_get config_section_create
ensure_section conf section m = ensure_by (config_section_get conf section) conf section m

-- `memory_strdup` of a text that may be `NULL`.
abbrev pub dup_given : Option Text → Memory → Bool × Memory
dup_given none m = (true, m)
dup_given (some t) m = memory_strdup m

abbrev kept : Bool → Option Text → Option Text
kept true t = t
kept false t = none

abbrev is_bool : ParamType → Bool
is_bool param_bool = true
is_bool _ = false

-- The `metavar` of the option: not for a boolean, and `NULL` where `memory_strdup` fails.
abbrev pub dup_metavar : ParamType → Option Text → Memory → Option Text × Memory
dup_metavar type metavar m =
    if is_bool type
    then (none, m)
    else (let (got, m') = dup_given metavar m in (kept got metavar, m'))

abbrev pub release_help : Option Text → Memory → Memory
release_help none m = m
release_help (some t) m = memory_destroy m

-- `calloc` zeroes what is not set here.
abbrev blank_option : ParamType → Option Text → Text → ConfigOption
blank_option type help name = record {
  type = type;
  help = help;
  name = name;
  range_set = false;
  value_min = pos 0;
  value_max = pos 0;
  multivalued = pos 0;
  num_values = 0;
  default_value = int_value (pos 0);
  default_set = false;
  metavar = none;
  no_override = false;
  values = [];
}

abbrev pub declared : ParamType → Option Text → Text → Option Text → ConfigOption
declared type help name metavar = record (opt_setup_values (blank_option type help name) type) {
  metavar = metavar;
}

-- The allocations of `rapp_config_opt_add`, from `opt` on.
unfoldable pub make_option :
    Text → ParamType → Option Text → Option Text → Memory → Option ConfigOption × Memory
unfolding memory_create memory_strdup memory_destroy opt_setup_values
make_option name type help metavar m =
    let (got_opt, m₁) = memory_create m in
    if not got_opt
    then (none, m₁)
    else let (got_help, m₂) = dup_given help m₁ in
      if not got_help
      then (none, memory_destroy m₂)
      else let (got_name, m₃) = memory_strdup m₂ in
        if not got_name
        then (none, memory_destroy (release_help help m₃))
        else let (meta, m₄) = dup_metavar type metavar m₃ in
          (some (declared type help name meta), m₄)

-- `TAILQ_INSERT_TAIL(&sect->options, opt, entries)` and `num_opts++` at the section found.
unfoldable pub insert_option : Text → ConfigOption → List ConfigSection → List ConfigSection
unfolding str_eq
insert_option section opt [] = []
insert_option section opt (s ∷ ss) =
    if str_eq s.name section
    then record s { num_opts = s.num_opts + 1; options = s.options ++ opt ∷ [] } ∷ ss
    else s ∷ insert_option section opt ss

abbrev pub finish : Text → RappConfig → Option ConfigOption × Memory → Status × RappConfig × Memory
finish section conf (none, m) = (failure, conf, m)
finish section conf (some opt, m) =
    (success, record conf { sections = insert_option section opt conf.sections }, m)

-- The part behind the two calls of `validate_name`.
unfoldable pub add_valid :
    RappConfig
    → Text
    → Text
    → ParamType
    → Option Text
    → Option Text
    → Memory
    → Status × RappConfig × Memory
unfolding ensure_section make_option insert_option
add_valid conf section name type help metavar m =
    let (got, conf', m') = ensure_section conf section m in
    if not got
    then (failure, conf', m')
    else finish section conf' (make_option name type help metavar m')

unfoldable pub rapp_config_opt_add :
    RappConfig
    → Text
    → Text
    → ParamType
    → Option Text
    → Option Text
    → Memory
    → Status × RappConfig × Memory
unfolding validate_name add_valid
rapp_config_opt_add conf section name type help metavar m =
    let (name_valid, m₁) = validate_name name m in
    if not name_valid
    then (failure, conf, m₁)
    else let (section_valid, m₂) = validate_name section m₁ in
      if not section_valid
      then (failure, conf, m₂)
      else add_valid conf section name type help metavar m₂
