-- ===== src/Tests/Documents.antt =====
-- Configuration files: src/config/yaml.c.
use rapp.Prelude.{
  ◌≡◌, refl, false, none, some, List, [], ◌∷◌, inl, inr, codes, pos, generous, arith,
}
use rapp.Prelude.Run.{done}
use rapp.Config.{ConfigOption, RappConfig, param_string, null_string}
use rapp.Config.Store.{config_section_get, find_section}
use rapp.Config.Yaml.{
  Token, key, value, scalar, block_mapping_start, block_end, flow_mapping_start, flow_mapping_end,
}
use rapp.Config.Yaml.Document.{config_parse_main, parse_sections, yaml_skip_section}
use rapp.Config.Yaml.Entries.{one, many}
use rapp.Config.Yaml.Reading.{Section, document, apply_all}
use rapp.Config.Yaml.Applied.{config_parse_main-apply_all}
use rapp.Config.Yaml.Enough.{Ended, parse_sections-done}

abbrev host : ConfigOption
host = record {
  type = param_string;
  help = none;
  name = codes "host";
  range_set = false;
  value_min = pos 0;
  value_max = pos 0;
  multivalued = pos 1;
  num_values = 0;
  default_value = null_string;
  default_set = false;
  metavar = none;
  no_override = false;
  values = [];
}

abbrev conf : RappConfig
conf = record {
  num_sections = 0;
  sections = record { name = codes "net"; num_opts = 1; options = host ∷ [] } ∷ [];
}

-- An unknown section, and a list for an option.
abbrev sections : List Section
sections =
    (codes "nothing", (codes "a", one (codes "b")) ∷ [])
    ∷ ((codes "net", (codes "host", many (codes "x" ∷ (codes "y" ∷ []))) ∷ []) ∷ [])

config_parse_main-apply_all_example :
    config_parse_main (document sections []) conf generous
    ≡ done (some (apply_all sections conf generous))
unfolding config_section_get find_section
config_parse_main-apply_all_example =
    config_parse_main-apply_all sections conf [] generous
      (inr ((codes "b", refl), tt), (inl refl, tt))

-- A section with one option, behind one that is unknown.
abbrev tokens : List Token
tokens =
    key
    ∷ (scalar (codes "other")
        ∷ (value
            ∷ (block_mapping_start
                ∷ (block_end
                    ∷ (key
                        ∷ (scalar (codes "net")
                            ∷ (value
                                ∷ (block_mapping_start
                                    ∷ (key
                                        ∷ (scalar (codes "host")
                                            ∷ (value
                                                ∷ (scalar (codes "x")
                                                    ∷ (block_end ∷ (block_end ∷ []))))))))))))))

parse_sections-done_example : Ended tokens (parse_sections 16 tokens conf generous)
parse_sections-done_example = parse_sections-done 16 tokens conf generous (omega arith)

-- In flow style the skip goes on to the end of the block around the section, and without one it does
-- not end.
skips_flow :
    yaml_skip_section (
      value
      ∷ (flow_mapping_start
          ∷ (flow_mapping_end ∷ (key ∷ (scalar (codes "net") ∷ (block_end ∷ []))))))
    ≡ some []
unfolding yaml_skip_section
skips_flow = refl

skips_forever : yaml_skip_section (value ∷ (flow_mapping_start ∷ (flow_mapping_end ∷ []))) ≡ none
unfolding yaml_skip_section
skips_forever = refl
