-- ===== src/Config/CommandLine.antt =====
-- src/config/commandline.c: the table of options that argp gets, and what its parser does with each
-- option of the command line. The two arrays are the entries written so far; calloc left zeros in
-- the `room` entries behind them, and a write past these, or through a null array, is a fault. A
-- pointer to an option is its place: the section's and its own. `argp_parse` is a parameter.
pub mod Early
pub mod Parsing
pub mod Table
pub mod Rows
pub mod Generating
pub mod Generated
pub mod Parsed
use rapp.Prelude.{
  ℕ, zero, suc, ◌+◌, ◌-◌, Bool, true, false, not, ℤ, pos, ◌&&◌, ◌||◌, Option, none, some, List, [],
  ◌∷◌, ◌++◌, map, ltb, leb, ◌==◌, if◌then◌else◌, length, get_elem?, Text, codes, str_eq, Memory,
  memory_create, memory_strdup, memory_destroy,
}
use rapp.Prelude.Run.{Run, done, fault, ◌>>=◌}
use rapp.Config.{
  ParamType, param_bool, param_int, param_string, ConfigOption, ConfigSection, RappConfig, Status,
  success, failure, missing,
}
use rapp.Config.Env.{rapp_config_section, uppercase, succeeded}
use rapp.Config.Convert.{config_add_value_from_string}

-- ARG_INDEX_BASE, ARG_INDEX_OFFSET and `rappoptions_len`.
abbrev pub arg_index_base : ℕ
arg_index_base = 128

abbrev pub arg_index_offset : ℕ
arg_index_offset = 150

abbrev pub rappoptions_len : ℕ
rappoptions_len = 7

-- `struct argp_option`; `titles` is the flag OPTION_DOC.
pub record ArgpOption : Type 0 where
  pub name : Option Text
  pub key : ℕ
  pub arg : Option Text
  pub titles : Bool
  pub doc : Option Text
  pub group : ℤ

-- The place of a section in the list, and of an option in its section.
pub record Place : Type 0 where
  pub section : ℕ
  pub entry : ℕ

-- `options`, `options_map` and `num_argp_options` of the configuration.
pub record ArgpTable : Type 0 where
  pub options_given : Bool
  pub map_given : Bool
  pub entries : List ArgpOption
  pub mapped : List (Option Place)
  pub room : ℕ
  pub num_argp_options : ℕ

-- A replacement of the underscores.
unfoldable pub replace_underscores : Text → Text
replace_underscores [] = []
replace_underscores (c ∷ cs) = (if c == b'_' then b'-' else c) ∷ replace_underscores cs

-- The entry at the next index is written, and the place that belongs to it, if it has one.
unfoldable pub push : ArgpTable → ArgpOption → Option Place → Run ArgpTable
push t e p = elim t.room [
  | zero ↦ fault
  | suc r ↦ done (record t { entries = t.entries ++ e ∷ []; mapped = t.mapped ++ p ∷ []; room = r })
]

unfoldable pub push_title : ArgpTable → ArgpOption → Run ArgpTable
unfolding push
push_title t e = if t.options_given then push t e none else fault

unfoldable pub push_option : ArgpTable → ArgpOption → Place → Run ArgpTable
unfolding push
push_option t e p = if t.options_given && t.map_given then push t e (some p) else fault

-- 0 and EINVAL.
pub data ArgpResult : Type 0 where
  accepted einval : ArgpResult

-- The part of the text in front of the option's name.
abbrev prefix_of : Text → Text
prefix_of section = if str_eq section rapp_config_section then [] else section ++ codes "-"

abbrev pub option_name : Text → Text → Text
option_name section name = replace_underscores (prefix_of section ++ name)

-- A copy that may fail, which leaves the null pointer.
abbrev copied : Text → Memory → Option Text × Memory
copied t m = let (got, m') = memory_strdup m in (if got then some t else none, m')

-- No argument for a boolean.
abbrev pub is_bool : ParamType → Bool
is_bool param_bool = true
is_bool _ = false

unfoldable pub option_arg : ConfigOption → Memory → Option Text × Memory
unfolding memory_strdup uppercase
option_arg opt m =
    if is_bool opt.type
    then (none, m)
    else elim opt.metavar [ none ↦ copied (uppercase opt.name) m | some metavar ↦ copied metavar m ]

unfoldable pub option_doc : ConfigOption → Memory → Option Text × Memory
unfolding memory_strdup
option_doc opt m = elim opt.help [ none ↦ (none, m) | some help ↦ copied help m ]

-- The loop over the options of a section; the first component is false for the return of -1.
unfoldable pub generate_options :
    Text → ℕ → ℕ → ℕ → List ConfigOption → ArgpTable → Memory → Run (Bool × ArgpTable × Memory)
unfolding memory_create option_arg option_doc replace_underscores push_option
generate_options section group i j [] t m = done (true, t, m)
generate_options section group i j (o ∷ os) t m =
    let (got, m₁) = memory_create m in
    if not got
    then done (false, t, m₁)
    else let (arg, m₂) = option_arg o m₁ in
      let (doc, m₃) = option_doc o m₂ in
      push_option t
        (record {
          name = some (option_name section o.name);
          key = length t.entries + arg_index_offset;
          arg = arg;
          titles = false;
          doc = doc;
          group = pos group;
        })
        (record { section = i; entry = j })
      >>= λ t'. generate_options section group i (suc j) os t' m₃

-- The prefix is a block of its own, which a failure leaves in use.
unfoldable pub generate_argp_for_section :
    ConfigSection → ℕ → ℕ → ArgpTable → Memory → Run (Bool × ArgpTable × Memory)
unfolding generate_options memory_create memory_destroy
generate_argp_for_section sect group i t m =
    if str_eq sect.name rapp_config_section
    then generate_options sect.name group i 0 sect.options t m
    else (let (got, m₁) = memory_create m in
        if not got
        then done (false, t, m₁)
        else (generate_options sect.name group i 0 sect.options t m₁ >>= λ (ok, t', m').
            done (ok, t', if ok then memory_destroy m' else m')))

-- Without memory the title is printed through a null pointer.
abbrev pub title : Text → ℕ → ArgpOption
title name group = record {
  name = none;
  key = 0;
  arg = none;
  titles = true;
  doc = some (codes "Options for '" ++ (name ++ codes "':"));
  group = pos group;
}

-- The loop over the sections from number `i` on; the group is one more.
unfoldable pub generate_sections :
    ℕ → List ConfigSection → ArgpTable → Memory → Run (Bool × ArgpTable × Memory)
unfolding generate_argp_for_section memory_create push_title
generate_sections i [] t m = done (true, t, m)
generate_sections i (s ∷ ss) t m =
    let (got, m₁) = memory_create m in
    if not got
    then fault
    else (push_title t (title s.name (suc i)) >>= λ t₁.
        generate_argp_for_section s (suc i) i t₁ m₁ >>= λ (ok, t₂, m₂).
        let rest = generate_sections (suc i) ss t₂ m₂ in if ok then rest else done (false, t₂, m₂))

-- The entries that the sections need.
unfoldable pub num_options : List ConfigSection → ℕ
num_options [] = 1
num_options (s ∷ ss) = num_options ss + s.num_opts + 1

abbrev pub no_table : ArgpTable
no_table = record {
  options_given = false;
  map_given = false;
  entries = [];
  mapped = [];
  room = 0;
  num_argp_options = 0;
}

-- A table that was made before is refused.
unfoldable pub config_generate_commandline :
    RappConfig → ArgpTable → Memory → Run (Bool × ArgpTable × Memory)
unfolding memory_create num_options generate_sections
config_generate_commandline conf t m =
    if t.options_given
    then done (false, t, m)
    else let (got_options, m₁) = memory_create m in
      let (got_map, m₂) = memory_create m₁ in
      generate_sections 0 conf.sections
        (record no_table {
          options_given = got_options;
          map_given = got_map;
          room = num_options conf.sections + rappoptions_len;
        })
        m₂
      >>= λ (ok, t', m').
          done (ok, if ok then record t' { num_argp_options = length t'.entries } else t', m')

abbrev free_if : Option Text → Memory → Memory
free_if none m = m
free_if (some t) m = memory_destroy m

-- What is freed of the first so many entries.
unfoldable pub destroy_entries : ℕ → List ArgpOption → Memory → Memory
unfolding memory_destroy
destroy_entries zero es m = m
destroy_entries (suc n) [] m = m
destroy_entries (suc n) (e ∷ es) m =
    destroy_entries n es (free_if e.doc (free_if e.arg (free_if e.name m)))

abbrev free_array : Bool → Memory → Memory
free_array given m = if given then memory_destroy m else m

unfoldable pub config_argp_options_destroy : ArgpTable → Memory → Memory
unfolding destroy_entries memory_destroy
config_argp_options_destroy t m =
    free_array t.map_given
      (free_array t.options_given (destroy_entries t.num_argp_options t.entries m))
