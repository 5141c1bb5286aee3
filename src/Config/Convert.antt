-- ===== src/Config/Convert.antt =====
-- `config_add_value_from_string` of src/config/common.c: one value, read by the option's type.
use rapp.Prelude.{Bool, ◌||◌, not, if◌then◌else◌, ltb, ltb_ℤ, pos, Text, Memory, length}
use rapp.Config.{
  ParamType, param_bool, param_int, param_string, ConfigOption, Status, success, failure,
}
use rapp.Config.Values.{opt_add_value_int, opt_add_value_string}
use rapp.Config.Number.{Parsed, strtol}
use rapp.Config.Boolean.{regex_bool_matches, regcomp, regfree}

abbrev Result : Type 0
Result = Status × ConfigOption × Memory

-- Whatever the call that adds the value returned, 0 is returned.
abbrev ignore_status : Result → Result
ignore_status (s, opt, m) = (success, opt, m)

-- The case PARAM_BOOL. The second expression is compiled and never run on the value.
unfoldable pub add_bool : ConfigOption → Text → Memory → Result
unfolding regcomp regfree regex_bool_matches opt_add_value_int
add_bool opt value m =
    let (compiled, m₁) = regcomp m in
    if not compiled
    then (failure, opt, m₁)
    else if regex_bool_matches value
    then (let (compiled_true, m₂) = regcomp m₁ in
        ignore_status (opt_add_value_int opt (if compiled_true then pos 1 else pos 0) m₂))
    else (failure, opt, regfree m₁)

-- The case PARAM_INT.
abbrev pub int_rejected : ConfigOption → Parsed → Bool
int_rejected opt p =
    p.out_of_range
    || ltb 0 (length p.rest)
    || ltb_ℤ p.value opt.value_min
    || ltb_ℤ opt.value_max p.value

unfoldable pub add_int : ConfigOption → Text → Memory → Result
unfolding strtol opt_add_value_int
add_int opt value m =
    let p = strtol value in
    if int_rejected opt p
    then (failure, opt, m)
    else ignore_status (opt_add_value_int opt p.value m)

unfoldable pub add_by_type : ParamType → ConfigOption → Text → Memory → Result
unfolding add_bool add_int opt_add_value_string
add_by_type param_string opt value m = ignore_status (opt_add_value_string opt value m)
add_by_type param_bool opt value m = add_bool opt value m
add_by_type param_int opt value m = add_int opt value m

unfoldable pub config_add_value_from_string : ConfigOption → Text → Memory → Result
unfolding add_by_type
config_add_value_from_string opt value m = add_by_type opt.type opt value m
