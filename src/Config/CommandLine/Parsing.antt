-- ===== src/Config/CommandLine/Parsing.antt =====
-- The parser of src/config/commandline.c, which argp calls for each option of the command line, and
-- `config_parse_commandline`. What `argp_parse` calls it with is an argument.
use rapp.Prelude.{
  ℕ, zero, suc, ◌+◌, ◌-◌, Bool, true, false, not, ◌&&◌, ◌||◌, Option, none, some, List, [], ◌∷◌,
  ltb, leb, if◌then◌else◌, length, get_elem?, Text, Memory, memory_create, memory_destroy,
}
use rapp.Prelude.Run.{Run, done, fault, ◌>>=◌}
use rapp.Config.{ConfigOption, ConfigSection, RappConfig}
use rapp.Config.Env.{succeeded}
use rapp.Config.Convert.{config_add_value_from_string}
use rapp.Config.CommandLine.Early.{rappoptions, add_early}
use rapp.Config.CommandLine.{
  Place, ArgpTable, arg_index_base, arg_index_offset, ArgpResult, accepted, einval,
  config_generate_commandline,
}

-- What argp calls the parser with: its own keys, and those of the table.
pub data ArgpKey : Type 0 where
  argp_key_no_args argp_key_init argp_key_fini argp_key_end argp_key_success argp_key_error :
      ArgpKey
  option_key : ℕ → ArgpKey

-- `conf->options_map[index]`: the zeros behind the entries are null, a read past them is a fault.
abbrev pub mapping : ArgpTable → ℕ → Run (Option Place)
mapping t index = elim (get_elem? t.mapped index) [
  | some p ↦ done p
  | none ↦ if ltb index (length t.mapped + t.room) then done none else fault
]

-- The option at a place, changed.
unfoldable pub change_entry : ℕ → ConfigOption → List ConfigOption → List ConfigOption
change_entry j o [] = []
change_entry zero o (x ∷ xs) = o ∷ xs
change_entry (suc j) o (x ∷ xs) = x ∷ change_entry j o xs

unfoldable pub change_place : ℕ → ℕ → ConfigOption → List ConfigSection → List ConfigSection
unfolding change_entry
change_place i j o [] = []
change_place zero j o (s ∷ ss) = record s { options = change_entry j o s.options } ∷ ss
change_place (suc i) j o (s ∷ ss) = s ∷ change_place i j o ss

abbrev pub option_at : Place → List ConfigSection → Option ConfigOption
option_at p ss = elim (get_elem? ss p.section) [
  | none ↦ none
  | some s ↦ get_elem? s.options p.entry
]

abbrev Parse : Type 0
Parse = ArgpResult × RappConfig × Memory

-- The value is added to the option of the entry, which is locked then.
unfoldable pub set_option : RappConfig → Place → ConfigOption → Text → Memory → Parse
unfolding config_add_value_from_string change_place
set_option conf p opt arg m =
    let (s, opt', m') = config_add_value_from_string opt arg m in
    if succeeded s
    then (
      accepted,
      record conf {
        sections =
            change_place p.section p.entry (record opt' { no_override = true }) conf.sections;
      },
      m',
    )
    else (einval, record conf { sections = change_place p.section p.entry opt' conf.sections }, m')

abbrev at_place : RappConfig → Option Place → Option Text → Memory → Run Parse
at_place conf none arg m = done (einval, conf, m)
at_place conf (some p) none m = done (einval, conf, m)
at_place conf (some p) (some arg) m = elim (option_at p conf.sections) [
  | none ↦ fault
  | some opt ↦ done (set_option conf p opt arg m)
]

unfoldable pub parse_commandline_opt :
    ArgpTable → ArgpKey → Option Text → RappConfig → Memory → Run Parse
unfolding set_option
parse_commandline_opt t argp_key_error arg conf m = done (einval, conf, m)
parse_commandline_opt t (option_key key) arg conf m =
    if leb arg_index_base key && ltb key arg_index_offset
    then done (accepted, conf, m)
    else if ltb key arg_index_offset || ltb t.num_argp_options (key - arg_index_offset)
    then done (einval, conf, m)
    else (mapping t (key - arg_index_offset) >>= λ p. at_place conf p arg m)
parse_commandline_opt t _ arg conf m = done (accepted, conf, m)

-- The calls that argp makes, up to the first that fails.
unfoldable parse_all : ArgpTable → List (ArgpKey × Option Text) → RappConfig → Memory → Run Parse
unfolding parse_commandline_opt
parse_all t [] conf m = done (accepted, conf, m)
parse_all t ((key, arg) ∷ calls) conf m =
    parse_commandline_opt t key arg conf m >>= λ (res, conf', m'). elim res [
      | einval ↦ done (einval, conf', m')
      | accepted ↦ parse_all t calls conf' m'
    ]

-- The first component is false for a result that is not 0; argp calls the parser as `calls` says.
unfoldable config_parse_commandline :
    List (ArgpKey × Option Text)
    → RappConfig
    → ArgpTable
    → Memory
    → Run (Bool × RappConfig × ArgpTable × Memory)
unfolding config_generate_commandline add_early parse_all memory_create memory_destroy
config_parse_commandline calls conf t m =
    let (got, m₁) = memory_create m in
    if not got
    then done (false, conf, t, m₁)
    else (config_generate_commandline conf t m₁ >>= λ (ok, t₁, m₂).
        if not ok
        then done (false, conf, t₁, m₂)
        else (add_early rappoptions t₁ >>= λ t₂. parse_all t₂ calls conf m₂ >>= λ (res, conf', m₃).
            done (elim res [ accepted ↦ true | einval ↦ false ], conf', t₂, memory_destroy m₃)))
