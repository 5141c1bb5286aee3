-- ===== src/Config/CommandLine/Early.antt =====
-- The early options of src/config/commandline.c: they are parsed by argp before the configuration is
-- there, and stand behind the others in the second table. `fopen` is a parameter.
use rapp.Prelude.{
  ℕ, Bool, true, false, Option, none, some, List, [], ◌∷◌, ◌==◌, if◌then◌else◌, Text, codes, str_eq,
  str_case_eq, ℤ, pos, negsuc, Memory, memory_strdup,
}
use rapp.Prelude.Run.{Run, done, ◌>>=◌}
use rapp.Config.CommandLine.{ArgpOption, ArgpTable, push_title, ArgpResult, accepted, einval}

-- `rappoptions`, the options that were parsed early. Their flags are not copied.
abbrev early_option : Option Text → ℕ → Option Text → Option Text → ℤ → ArgpOption
early_option name key arg doc group = record {
  name = name;
  key = key;
  arg = arg;
  titles = false;
  doc = doc;
  group = group;
}

abbrev pub rappoptions : List ArgpOption
rappoptions =
    early_option none 0 none (some (codes "Logging:")) (negsuc 2)
    ∷ (early_option (some (codes "log-level")) 128 (some (codes "LOGLEVEL"))
          (some (codes "Log level, one of: {CRITICAL, ERROR, WARN, INFO, DEBUG}")) (pos 0)
        ∷ (early_option (some (codes "log-output")) 129 (some (codes "OUTPUT"))
              (some (codes "Log to file, defaults to <stderr>.")) (pos 0)
            ∷ (early_option (some (codes "log-nocolor")) 130 none
                  (some (codes "Disable colors in logs")) (pos 0)
                ∷ (early_option none 0 none (some (codes "Containers:")) (negsuc 1)
                    ∷ (early_option (some (codes "load")) 131 (some (codes "PATH"))
                          (some (codes "Load container .so")) (pos 0)
                        ∷ (early_option none 0 none none (pos 0) ∷ []))))))

-- The loop that copies them behind the entries of the table.
unfoldable pub add_early : List ArgpOption → ArgpTable → Run ArgpTable
unfolding push_title
add_early [] t = done t
add_early (e ∷ es) t = push_title t e >>= λ t'. add_early es t'

-- `FILE *`: the standard streams, or a file that was opened.
pub data Stream : Type 0 where
  stdout stderr : Stream
  opened : ℕ → Stream

pub record RappArguments : Type 0 where
  pub loglevel : ℕ
  pub logoutput_is_console : Bool
  pub logoutput : Option Stream
  pub lognocolor : Bool
  pub container : Option Text

-- The levels of rapp/rapp_logger.h by their names, whatever the case of the letters.
abbrev level_of : Text → Option ℕ
level_of t =
    if str_case_eq t (codes "CRITICAL")
    then some 0
    else if str_case_eq t (codes "ERROR")
    then some 1
    else if str_case_eq t (codes "WARN")
    then some 2
    else if str_case_eq t (codes "INFO")
    then some 3
    else if str_case_eq t (codes "DEBUG")
    then some 4
    else none

abbrev pub Parsed : Type 0
Parsed = ArgpResult × RappArguments × Memory

-- An unknown level is passed over.
abbrev set_level : Option Text → RappArguments → Memory → Parsed
set_level none a m = (einval, a, m)
set_level (some arg) a m = elim (level_of arg) [
  | none ↦ (accepted, a, m)
  | some level ↦ (accepted, record a { loglevel = level }, m)
]

abbrev set_output : (Text → Option ℕ) → Option Text → RappArguments → Memory → Parsed
set_output fopen none a m = (einval, record a { logoutput = none }, m)
set_output fopen (some arg) a m =
    if str_eq arg (codes "-")
    then (accepted, record a { logoutput = some stdout }, m)
    else elim (fopen arg) [
      | none ↦ (einval, record a { logoutput = none; logoutput_is_console = false }, m)
      | some file ↦
          (accepted, record a { logoutput = some (opened file); logoutput_is_console = false }, m)
    ]

abbrev set_container : Option Text → RappArguments → Memory → Parsed
set_container none a m = (einval, a, m)
set_container (some arg) a m =
    let (got, m') = memory_strdup m in
    (accepted, record a { container = if got then some arg else none }, m')

-- `fopen` of a name for writing.
unfoldable parse_early_opt : (Text → Option ℕ) → ℕ → Option Text → RappArguments → Memory → Parsed
unfolding memory_strdup str_eq
parse_early_opt fopen key arg a m =
    if key == 128
    then set_level arg a m
    else if key == 129
    then set_output fopen arg a m
    else if key == 130
    then (accepted, record a { lognocolor = true }, m)
    else if key == 131
    then set_container arg a m
    else (accepted, a, m)

-- The calls of argp, up to the first that fails.
unfoldable parse_early :
    (Text → Option ℕ) → List (ℕ × Option Text) → RappArguments → Memory → Parsed
unfolding parse_early_opt
parse_early fopen [] a m = (accepted, a, m)
parse_early fopen ((key, arg) ∷ calls) a m =
    let (res, a', m') = parse_early_opt fopen key arg a m in
    elim res [ einval ↦ (einval, a', m') | accepted ↦ parse_early fopen calls a' m' ]

abbrev default_arguments : RappArguments
default_arguments = record {
  loglevel = 3;
  logoutput_is_console = true;
  logoutput = some stderr;
  lognocolor = false;
  container = none;
}

-- `given` is false without arguments, for which -1 is returned.
unfoldable config_parse_early_commandline :
    (Text → Option ℕ)
    → Bool
    → List (ℕ × Option Text)
    → RappArguments
    → Memory
    → Bool × RappArguments × Memory
unfolding parse_early
config_parse_early_commandline fopen given calls a m =
    if given
    then (let (res, a', m') = parse_early fopen calls default_arguments m in
        (elim res [ accepted ↦ true | einval ↦ false ], a', m'))
    else (false, a, m)
