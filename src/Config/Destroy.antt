-- ===== src/Config/Destroy.antt =====
-- Freeing the configuration: the destroy functions of src/config/common.c.
use rapp.Prelude.{
  Text, Option, none, some, List, [], ◌∷◌, ◌&&◌, if◌then◌else◌, Memory, memory_destroy,
}
use rapp.Config.{int_value, str_value, null_string, ConfigOption, ConfigSection, RappConfig}
use rapp.Config.Values.{is_string, config_option_remove_all_values}
use rapp.Config.CommandLine.{ArgpTable, config_argp_options_destroy}

-- `if (text) memory_destroy(text)`.
abbrev pub free_text : Option Text → Memory → Memory
free_text none m = m
free_text (some t) m = memory_destroy m

-- The union is read as a text whatever was stored: a number that was set as the default of a text is
-- taken for the address of a block here. A default that is the null pointer is passed to `free` as it is, which does nothing then.
abbrev pub free_default : ConfigOption → Memory → Memory
free_default opt m =
    if opt.default_set && is_string opt.type
    then elim opt.default_value [
      | int_value v ↦ memory_destroy m
      | str_value t ↦ memory_destroy m
      | null_string ↦ m
    ]
    else m

unfoldable pub config_option_destroy : ConfigOption → Memory → Memory
unfolding config_option_remove_all_values memory_destroy
config_option_destroy opt m =
    let (_, m₁) = config_option_remove_all_values opt m in
    let m₂ = free_default opt (memory_destroy m₁) in
    memory_destroy (free_text opt.metavar (free_text opt.help m₂))

unfoldable pub destroy_options : List ConfigOption → Memory → Memory
unfolding config_option_destroy
destroy_options [] m = m
destroy_options (o ∷ os) m = destroy_options os (config_option_destroy o m)

unfoldable pub config_section_destroy : ConfigSection → Memory → Memory
unfolding destroy_options memory_destroy
config_section_destroy sect m = memory_destroy (memory_destroy (destroy_options sect.options m))

unfoldable pub destroy_sections : List ConfigSection → Memory → Memory
unfolding config_section_destroy
destroy_sections [] m = m
destroy_sections (s ∷ ss) m = destroy_sections ss (config_section_destroy s m)

-- With the table of the command line, which the configuration holds.
unfoldable pub config_destroy : RappConfig → ArgpTable → Memory → Memory
unfolding destroy_sections config_argp_options_destroy memory_destroy
config_destroy conf table m =
    memory_destroy (config_argp_options_destroy table (destroy_sections conf.sections m))
