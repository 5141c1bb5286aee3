-- ===== src/Config/Yaml.antt =====
-- src/config/yaml.c: a configuration is read from the tokens of a file. The scanner of libyaml is
-- outside the program: its tokens are an argument, and behind the last of them, or where it fails, it
-- gives `no_token` for ever. The loops that read tokens are on fuel: without fuel they
-- are a `fault`, which no end of the loop is.
pub mod Document
pub mod Entries
pub mod Reading
pub mod Fuel
pub mod Enough
pub mod Applied
use rapp.Prelude.{
  ℕ, zero, suc, ◌+◌, Bool, true, false, not, Option, none, some, List, [], ◌∷◌, is_zero,
  if◌then◌else◌, length, Text, str_eq, Memory, memory_strdup, memory_destroy,
}
use rapp.Prelude.Run.{Run, done, fault}
use rapp.Config.{ConfigOption, ConfigSection, RappConfig}
use rapp.Config.Values.{config_option_remove_all_values}
use rapp.Config.Convert.{config_add_value_from_string}
use rapp.Config.Env.{succeeded}
use rapp.Config.Store.{find_option, config_section_get}

-- The types of `yaml_token_t` that the code tells apart.
pub data Token : Type 0 where
  stream_start document_start block_mapping_start flow_mapping_start block_sequence_start : Token
  flow_sequence_start block_entry flow_entry block_end flow_mapping_end flow_sequence_end : Token
  key value other no_token : Token
  scalar : Text → Token

-- The first component is false for a result that is not 0, after which the tokens are not read.
abbrev Set : Type 0
Set = Bool × ConfigOption × List Token × Memory

unfoldable pub config_set_value_from_yaml_scalar :
    ConfigOption → Text → Memory → Bool × ConfigOption × Memory
unfolding config_add_value_from_string
config_set_value_from_yaml_scalar opt t m =
    if opt.no_override
    then (true, opt, m)
    else let (s, opt', m') = config_add_value_from_string opt t m in (succeeded s, opt', m')

-- The loop over the entries of a list.
unfoldable pub set_values : List Token → ConfigOption → Memory → Set
unfolding config_set_value_from_yaml_scalar
set_values (scalar t ∷ ts) opt m =
    let (ok, opt', m') = config_set_value_from_yaml_scalar opt t m in
    let rest = set_values ts opt' m' in if ok then rest else (false, opt', ts, m')
set_values (block_entry ∷ (scalar t ∷ ts)) opt m =
    let (ok, opt', m') = config_set_value_from_yaml_scalar opt t m in
    let rest = set_values ts opt' m' in if ok then rest else (false, opt', ts, m')
set_values (flow_entry ∷ (scalar t ∷ ts)) opt m =
    let (ok, opt', m') = config_set_value_from_yaml_scalar opt t m in
    let rest = set_values ts opt' m' in if ok then rest else (false, opt', ts, m')
set_values (block_end ∷ ts) opt m = (true, opt, ts, m)
set_values (flow_sequence_end ∷ ts) opt m = (true, opt, ts, m)
set_values ts opt m = (false, opt, ts, m)

unfoldable pub config_set_value_from_yaml_list : ConfigOption → List Token → Memory → Set
unfolding set_values
config_set_value_from_yaml_list opt ts m =
    if is_zero opt.multivalued then (false, opt, ts, m) else set_values ts opt m

-- 0, -1 with `*last` set, and the other results that are not 0.
pub data KeyValue : Type 0 where
  more last failed : KeyValue

-- The options of the section.
abbrev pub Parsed : Type 0
Parsed = KeyValue × List ConfigOption × List Token × Memory

-- The option that was found for a name, changed.
unfoldable pub replace_option : Text → ConfigOption → List ConfigOption → List ConfigOption
unfolding str_eq
replace_option name opt [] = []
replace_option name opt (o ∷ os) =
    if str_eq o.name name then opt ∷ os else o ∷ replace_option name opt os

-- `if (!opt->no_override) config_option_remove_all_values(opt)`.
abbrev pub wiped : ConfigOption → Memory → ConfigOption × Memory
wiped opt m = if opt.no_override then (opt, m) else config_option_remove_all_values opt m

-- The copy of the name is freed.
abbrev stored : Text → List ConfigOption → Set → Parsed
stored name os (ok, opt, ts, m) =
    (if ok then more else failed, replace_option name opt os, ts, memory_destroy m)

abbrev beside : List Token → Bool × ConfigOption × Memory → Set
beside ts (ok, opt, m) = (ok, opt, ts, m)

-- From the token behind the key on.
unfoldable pub parse_value : Text → ConfigOption → List Token → List ConfigOption → Memory → Parsed
unfolding replace_option config_option_remove_all_values config_set_value_from_yaml_scalar
    config_set_value_from_yaml_list memory_destroy
parse_value name opt (value ∷ (scalar t ∷ ts)) os m =
    let (opt', m') = wiped opt m in
    stored name os (beside ts (config_set_value_from_yaml_scalar opt' t m'))
parse_value name opt (value ∷ (block_sequence_start ∷ ts)) os m =
    let (opt', m') = wiped opt m in stored name os (config_set_value_from_yaml_list opt' ts m')
parse_value name opt (value ∷ (flow_sequence_start ∷ ts)) os m =
    let (opt', m') = wiped opt m in stored name os (config_set_value_from_yaml_list opt' ts m')
parse_value name opt ts os m = (failed, os, ts, memory_destroy m)

-- From the name on. The macro returns where the option is not found, and leaves the copy of the name.
unfoldable pub parse_key : List Token → List ConfigOption → Memory → Parsed
unfolding memory_strdup find_option parse_value
parse_key (scalar name ∷ ts) os m =
    let (got, m') = memory_strdup m in
    if not got then (failed, os, ts, m') else elim (find_option name os) [
      | none ↦ (failed, os, ts, m')
      | some opt ↦ parse_value name opt ts os m'
    ]
parse_key ts os m = (failed, os, ts, m)

unfoldable pub yaml_parse_key_value : List Token → List ConfigOption → Memory → Parsed
unfolding parse_key
yaml_parse_key_value (key ∷ ts) os m = parse_key ts os m
yaml_parse_key_value (flow_entry ∷ (key ∷ ts)) os m = parse_key ts os m
yaml_parse_key_value (block_end ∷ ts) os m = (last, os, ts, m)
yaml_parse_key_value (flow_mapping_end ∷ ts) os m = (last, os, ts, m)
yaml_parse_key_value ts os m = (failed, os, ts, m)

-- The loop of `yaml_parse_section`: the first component is true where the section was read.
unfoldable pub parse_entries :
    ℕ
    → List Token
    → List ConfigOption
    → Memory
    → Run (Bool × List ConfigOption × List Token × Memory)
unfolding yaml_parse_key_value
parse_entries zero ts os m = fault
parse_entries (suc n) ts os m =
    let (r, os', ts', m') = yaml_parse_key_value ts os m in
    let rest = parse_entries n ts' os' m' in
    elim r [ more ↦ rest | last ↦ done (true, os', ts', m') | failed ↦ done (false, os', ts', m') ]
