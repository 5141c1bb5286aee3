-- ===== src/Config/Values.antt =====
-- The values of one option (src/config/common.c, src/config/api.c).
use rapp.Prelude.{
  ℕ, ◌-◌, ◌+◌, Bool, true, false, ◌&&◌, ◌||◌, not, List, [], ◌∷◌, ◌++◌, ltb, if◌then◌else◌, ℤ, pos,
  ltb_ℤ, is_zero, Text, Memory, memory_create, memory_strdup, memory_destroy,
}
use rapp.Config.{
  ParamType, param_bool, param_int, param_string, Value, int_value, str_value, null_string,
  ConfigOption, Status, success, failure, long_min, long_max,
}

abbrev pub is_string : ParamType → Bool
is_string param_string = true
is_string _ = false

-- `opt->multivalued == 0 && opt->num_values > 0`.
abbrev pub is_full : ConfigOption → Bool
is_full opt = is_zero opt.multivalued && ltb 0 opt.num_values

abbrev pub out_of_range : ConfigOption → ℤ → Bool
out_of_range opt value = opt.range_set && (ltb_ℤ value opt.value_min || ltb_ℤ opt.value_max value)

-- `TAILQ_INSERT_TAIL(&opt->values, cv, entries)`, with the count.
abbrev pub insert_tail : ConfigOption → Value → ConfigOption
insert_tail opt v = record opt { num_values = opt.num_values + 1; values = opt.values ++ v ∷ [] }

unfoldable pub opt_add_value_int : ConfigOption → ℤ → Memory → Status × ConfigOption × Memory
unfolding memory_create
opt_add_value_int opt value m =
    if is_string opt.type
    then (failure, opt, m)
    else if is_full opt
    then (failure, opt, m)
    else if out_of_range opt value
    then (failure, opt, m)
    else let (got, m') = memory_create m in
      if got then (success, insert_tail opt (int_value value), m') else (failure, opt, m')

unfoldable pub opt_add_value_string : ConfigOption → Text → Memory → Status × ConfigOption × Memory
unfolding memory_create memory_strdup memory_destroy
opt_add_value_string opt value m =
    if is_full opt
    then (failure, opt, m)
    else if not (is_string opt.type)
    then (failure, opt, m)
    else let (got_cv, m') = memory_create m in
      if not got_cv
      then (failure, opt, m')
      else let (got_str, m'') = memory_strdup m' in
        if not got_str
        then (failure, opt, memory_destroy m'')
        else (success, insert_tail opt (str_value value), m'')

-- The loop of `config_option_remove_all_values`: the count left and the memory.
unfoldable pub remove_loop : ParamType → List Value → ℕ → Memory → ℕ × Memory
unfolding memory_destroy
remove_loop type [] n m = (n, m)
remove_loop type (v ∷ vs) n m =
    remove_loop type vs (n - 1) (memory_destroy (if is_string type then memory_destroy m else m))

unfoldable pub config_option_remove_all_values : ConfigOption → Memory → ConfigOption × Memory
unfolding remove_loop
config_option_remove_all_values opt m =
    let (n, m') = remove_loop opt.type opt.values opt.num_values m in
    (record opt { num_values = n; values = [] }, m')

unfoldable pub opt_setup_values : ConfigOption → ParamType → ConfigOption
opt_setup_values opt param_bool = record opt {
  value_min = pos 0;
  value_max = pos 1;
  default_value = int_value (pos 0);
  range_set = true;
}
opt_setup_values opt param_int = record opt {
  value_min = long_min;
  value_max = long_max;
  default_value = int_value (pos 0);
}
opt_setup_values opt param_string = record opt {
  default_value = null_string;
  value_min = pos 0;
  value_max = pos 0;
}
