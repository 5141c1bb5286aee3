-- ===== src/Config/Api.antt =====
-- src/config/api.c: what the core and a plugin call to declare options and to read them.
pub mod Declare
pub mod Read
use rapp.Prelude.{
  ◌≡◌, Bool, true, false, not, ◌&&◌, ◌||◌, if◌then◌else◌, ℤ, pos, ltb_ℤ, Text, ltb, ℕ, Memory,
  memory_strdup,
}
use rapp.Config.{
  ParamType, param_int, int_value, str_value, null_string, ConfigOption, RappConfig, Status,
  success, failure, missing,
}
use rapp.Config.Store.{Change, with_option}

abbrev is_int : ParamType → Bool
is_int param_int = true
is_int _ = false

abbrev set_range : ℤ → ℤ → Change
set_range value_min value_max opt m =
    if not (is_int opt.type)
    then (failure, opt, m)
    else if not (ltb_ℤ value_min value_max)
    then (failure, opt, m)
    else (success, record opt { value_min = value_min; value_max = value_max; range_set = true }, m)

unfoldable rapp_config_opt_set_range_int :
    RappConfig → Text → Text → ℤ → ℤ → Memory → Status × RappConfig × Memory
unfolding with_option
rapp_config_opt_set_range_int conf section name value_min value_max =
    with_option (set_range value_min value_max) conf section name

abbrev set_multivalued : ℤ → Change
set_multivalued flag opt m = (success, record opt { multivalued = flag }, m)

unfoldable rapp_config_opt_set_multivalued :
    RappConfig → Text → Text → ℤ → Memory → Status × RappConfig × Memory
unfolding with_option
rapp_config_opt_set_multivalued conf section name flag =
    with_option (set_multivalued flag) conf section name

abbrev set_default_string : Text → Change
set_default_string value opt m =
    let (got, m') = memory_strdup m in
    if not got
    then (failure, record opt { default_value = null_string }, m')
    else (success, record opt { default_value = str_value value; default_set = true }, m')

unfoldable rapp_config_opt_set_default_string :
    RappConfig → Text → Text → Text → Memory → Status × RappConfig × Memory
unfolding with_option memory_strdup
rapp_config_opt_set_default_string conf section name value =
    with_option (set_default_string value) conf section name

abbrev set_default_int : ℤ → Change
set_default_int value opt m =
    (success, record opt { default_value = int_value value; default_set = true }, m)

unfoldable rapp_config_opt_set_default_int :
    RappConfig → Text → Text → ℤ → Memory → Status × RappConfig × Memory
unfolding with_option
rapp_config_opt_set_default_int conf section name value =
    with_option (set_default_int value) conf section name

unfoldable rapp_config_opt_set_default_bool :
    RappConfig → Text → Text → ℤ → Memory → Status × RappConfig × Memory
unfolding rapp_config_opt_set_default_int
rapp_config_opt_set_default_bool conf section name value m =
    if ltb_ℤ value (pos 0) || ltb_ℤ (pos 1) value
    then (failure, conf, m)
    else rapp_config_opt_set_default_int conf section name value m
