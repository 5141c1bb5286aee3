-- ===== src/Config/Yaml/Document.antt =====
-- The sections of a document, and the files, of src/config/yaml.c. What libyaml makes of a text is
-- the parameter `tokens`, which gives nothing where its parser cannot be initialized; the calls on
-- files are parameters too. A result of `none` is a call that never returns, and `fault` a
-- loop that has no fuel.
use rapp.Prelude.{
  ℕ, zero, suc, ◌+◌, ◌-◌, Bool, true, false, Option, none, some, List, [], ◌∷◌, ◌++◌, ltb, length,
  drop, if◌then◌else◌, Text, codes, str_eq, Memory,
}
use rapp.Prelude.Run.{Run, done, fault, ◌>>=◌}
use rapp.Config.{ConfigOption, ConfigSection, RappConfig}
use rapp.Config.Store.{config_section_get}
use rapp.Config.Yaml.{
  Token, stream_start, document_start, block_mapping_start, flow_mapping_start, block_end, key,
  value, scalar, parse_entries,
}

-- `yaml_parse_init`: the tokens behind the start of the global mapping.
unfoldable pub yaml_parse_init : List Token → Option (List Token)
yaml_parse_init (stream_start ∷ (document_start ∷ (block_mapping_start ∷ ts))) = some ts
yaml_parse_init ts = none

-- The tokens behind the next end of a block.
unfoldable pub yaml_skip_section : List Token → Option (List Token)
yaml_skip_section [] = none
yaml_skip_section (block_end ∷ ts) = some ts
yaml_skip_section (t ∷ ts) = yaml_skip_section ts

abbrev pub Read : Type 0
Read = Bool × RappConfig × List Token × Memory

-- The section that was found for a name, with its options changed.
unfoldable pub replace_section : Text → List ConfigOption → List ConfigSection → List ConfigSection
unfolding str_eq
replace_section name os [] = []
replace_section name os (s ∷ ss) =
    if str_eq s.name name then record s { options = os } ∷ ss else s ∷ replace_section name os ss

-- A pass of the loop takes a token at least, so their number is enough.
abbrev parse_mapping : Text → ConfigSection → RappConfig → List Token → Memory → Run Read
parse_mapping name s conf ts m =
    parse_entries (suc (length ts)) ts s.options m >>= λ (ok, os, ts', m').
    done (ok, record conf { sections = replace_section name os conf.sections }, ts', m')

unfoldable pub parse_known : Text → ConfigSection → RappConfig → List Token → Memory → Run Read
unfolding parse_entries replace_section
parse_known name s conf (value ∷ (block_mapping_start ∷ ts)) m = parse_mapping name s conf ts m
parse_known name s conf (value ∷ (flow_mapping_start ∷ ts)) m = parse_mapping name s conf ts m
parse_known name s conf ts m = done (false, conf, ts, m)

unfoldable pub yaml_parse_section : RappConfig → Text → List Token → Memory → Run (Option Read)
unfolding config_section_get yaml_skip_section parse_known
yaml_parse_section conf name ts m = elim (config_section_get conf name) [
  | none ↦ elim (yaml_skip_section ts) [
    | none ↦ done none
    | some ts' ↦ done (some (true, conf, ts', m))
  ]
  | some s ↦ parse_known name s conf ts m >>= λ r. done (some r)
]

-- The loop over the sections.
unfoldable pub parse_sections : ℕ → List Token → RappConfig → Memory → Run (Option Read)
unfolding yaml_parse_section
parse_sections zero ts conf m = fault
parse_sections (suc n) (block_end ∷ ts) conf m = done (some (true, conf, ts, m))
parse_sections (suc n) (key ∷ (scalar name ∷ ts)) conf m =
    elim (yaml_parse_section conf name ts m) [
      | fault ↦ fault
      | done none ↦ done none
      | done (some (false, conf', ts', m')) ↦ done (some (false, conf', ts', m'))
      | done (some (true, conf', ts', m')) ↦ parse_sections n ts' conf' m'
    ]
parse_sections (suc n) ts conf m = done (some (false, conf, ts, m))

-- The first component is false for the return of -1.
abbrev pub Parse : Type 0
Parse = Option (Bool × RappConfig × Memory)

unfoldable pub config_parse_main : List Token → RappConfig → Memory → Run Parse
unfolding yaml_parse_init parse_sections
config_parse_main ts conf m = elim (yaml_parse_init ts) [
  | none ↦ done (some (false, conf, m))
  | some ts₁ ↦ parse_sections (suc (length ts₁)) ts₁ conf m >>= λ o.
      done (elim o [ none ↦ none | some (ok, conf', ts', m') ↦ some (ok, conf', m') ])
]

module _ (tokens : Text → Option (List Token)) where
  abbrev parse_text : Text → RappConfig → Memory → Run Parse
  unfolding config_parse_main
  parse_text text conf m = elim (tokens text) [
    | none ↦ done (some (false, conf, m))
    | some ts ↦ config_parse_main ts conf m
  ]

  unfoldable config_parse_string : Option Text → RappConfig → Memory → Run Parse
  unfolding parse_text
  config_parse_string none conf m = done (some (false, conf, m))
  config_parse_string (some source) conf m = parse_text source conf m

  module _ (realpath fopen : Text → Option Text) where
    -- `fopen` gives the text of the file.
    unfoldable config_parse : Text → RappConfig → Memory → Run Parse
    unfolding parse_text
    config_parse filename conf m = elim (realpath filename) [
      | none ↦ done (some (false, conf, m))
      | some path ↦ elim (fopen path) [
        | none ↦ done (some (false, conf, m))
        | some text ↦ parse_text text conf m
      ]
    ]

    abbrev path_max : ℕ
    path_max = 4096

    -- True where the text ends with the suffix.
    unfoldable endswith : Text → Text → Bool
    unfolding str_eq
    endswith text suffix =
        if ltb (length text) (length suffix)
        then false
        else str_eq (drop (length text - length suffix) text) suffix

    -- The loop over the names; a path that is longer than the buffer is written past it.
    unfoldable scan_names : Text → Text → List Text → RappConfig → Memory → Run Parse
    unfolding endswith config_parse
    scan_names directory ext [] conf m = done (some (true, conf, m))
    scan_names directory ext (name ∷ names) conf m =
        if endswith name ext
        then (if ltb path_max (length directory + length name + 2)
            then fault
            else elim (config_parse (directory ++ (codes "/" ++ name)) conf m) [
              | fault ↦ fault
              | done none ↦ done none
              | done (some (false, conf', m')) ↦ done (some (false, conf', m'))
              | done (some (true, conf', m')) ↦ scan_names directory ext names conf' m'
            ])
        else scan_names directory ext names conf m

    -- `scandir` gives the names in the order of the alphabet.
    unfoldable config_scan_directory :
        (Text → Option (List Text)) → Option Text → Option Text → RappConfig → Memory → Run Parse
    unfolding scan_names
    config_scan_directory scandir none ext conf m = done (some (false, conf, m))
    config_scan_directory scandir (some directory) ext conf m = elim (scandir directory) [
      | none ↦ done (some (false, conf, m))
      | some names ↦
          scan_names directory (elim ext [ none ↦ codes ".yaml" | some e ↦ e ]) names conf m
    ]
