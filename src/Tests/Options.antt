-- ===== src/Tests/Options.antt =====
-- Options declared, set and read: src/config/api.c and src/config/common.c.
use rapp.Config.Boolean.{regex_bool_matches}
use rapp.Prelude.{
  ◌≡◌, refl, true, false, Option, none, some, [], ◌∷◌, arith, Text, codes, pos, negsuc, generous,
  decimal, inl, inr,
}
use rapp.Prelude.{Memory, List, not, ◌==◌}
use rapp.Config.CommandLine.{no_table}
use rapp.Config.Destroy.{config_destroy}
use rapp.Config.History.{
  Operation, create, declare, add_int, add_string, operate_all, operate_all-config_destroy,
}
use rapp.Config.Store.{config_new, empty_config}
use rapp.Config.{
  param_bool, param_int, param_string, int_value, ConfigOption, RappConfig, success, failure,
}
use rapp.Config.Api.Declare.{declared, rapp_config_opt_add, regex_name_matches}
use rapp.Config.Api.Read.{found, rapp_config_get_nth_int, rapp_config_get_num_values}
use rapp.Config.Store.{get_option, config_add_value_int}
use rapp.Config.Values.{insert_tail, opt_add_value_int}
use rapp.Config.Convert.{config_add_value_from_string}
use rapp.Config.Insert.{or_else}
use rapp.Config.Valid.{IsValid, SameKind, config_add_value_from_string-IsValid}
use rapp.Config.Options.{get_nth_int-add_value_int}
use rapp.Config.Declared.{rapp_config_opt_add-get_option}
use rapp.Config.Converted.{printed, add_value_from_string-printed, add_value_from_string-OutOfRange}

-- A port that may have several values, between 1 and 65535, and has one.
abbrev port : ConfigOption
port = record {
  type = param_int;
  help = none;
  name = codes "port";
  range_set = true;
  value_min = pos 1;
  value_max = pos 65535;
  multivalued = pos 1;
  num_values = 1;
  default_value = int_value (pos 0);
  default_set = false;
  metavar = none;
  no_override = false;
  values = int_value (pos 80) ∷ [];
}

abbrev debug : ConfigOption
debug = record port {
  type = param_bool;
  name = codes "debug";
  value_min = pos 0;
  value_max = pos 1;
  num_values = 0;
  values = [];
}

abbrev conf : RappConfig
conf = record {
  num_sections = 0;
  sections = record { name = codes "core"; num_opts = 2; options = port ∷ debug ∷ [] } ∷ [];
}

port-IsValid : IsValid port
port-IsValid = record {
  counted = refl;
  fits = ((refl, λ e. (omega arith, omega arith)), tt);
  single = λ e. omega arith;
}

get_nth_int-add_value_int_example :
    (let conf' = (config_add_value_int conf (codes "core") (codes "port") (pos 8080) generous).1 in
      (rapp_config_get_nth_int conf' (codes "core") (codes "port") (pos 1) ≡ found (pos 8080))
      × (rapp_config_get_num_values conf' (codes "core") (codes "port") ≡ found 2))
unfolding get_option config_add_value_int
get_nth_int-add_value_int_example =
    get_nth_int-add_value_int conf (codes "core") (codes "port") (pos 8080) generous port refl
      port-IsValid refl

other_name : (codes "core" ≡ codes "core") × (codes "port" ≡ codes "debug") → ⊥
other_name (s, n) = cc

rapp_config_opt_add-get_option_example :
    (regex_name_matches (codes "host") ≡ true)
    × (regex_name_matches (codes "core") ≡ true)
    × (meta : Option Text) × (get_option
          (rapp_config_opt_add conf (codes "core") (codes "host") param_string none none generous).1
          (codes "core")
          (codes "host")
        ≡ or_else
            (get_option conf (codes "core") (codes "host"))
            (some (declared param_string none (codes "host") meta)))
unfolding rapp_config_opt_add
rapp_config_opt_add-get_option_example =
    rapp_config_opt_add-get_option conf (codes "core") (codes "host") param_string none none
      generous refl

config_add_value_from_string-IsValid_example :
    IsValid (config_add_value_from_string port (codes "99999") generous).1
    × SameKind port (config_add_value_from_string port (codes "99999") generous).1
config_add_value_from_string-IsValid_example =
    config_add_value_from_string-IsValid port (codes "99999") generous port-IsValid

-- A temperature between -40 and 85.
abbrev degrees : ConfigOption
degrees = record port { value_min = negsuc 39; value_max = pos 85 }

add_value_from_string-printed_example :
    ((config_add_value_from_string degrees (printed (negsuc 11)) generous).0 ≡ success)
    × ((config_add_value_from_string degrees (printed (negsuc 11)) generous).1
        ≡ insert_tail degrees (int_value (negsuc 11)))
add_value_from_string-printed_example =
    add_value_from_string-printed degrees (negsuc 11) generous refl refl (omega arith) refl refl

printed-12 : printed (negsuc 11) ≡ codes "-12"
unfolding decimal
printed-12 = refl

add_value_from_string-OutOfRange_example :
    config_add_value_from_string degrees (printed (negsuc 40)) generous
    ≡ (failure, degrees, generous)
add_value_from_string-OutOfRange_example =
    add_value_from_string-OutOfRange degrees (negsuc 40) generous refl (inr (inl refl))

stores_no :
    (config_add_value_from_string debug (codes "no") generous).1
    ≡ insert_tail debug (int_value (pos 1))
unfolding config_add_value_from_string regex_bool_matches opt_add_value_int
stores_no = refl

-- The sixth request for memory is refused, among others.
abbrev short : Memory
short = record generous { grants = λ n. not (n == 5) }

abbrev history : List Operation
history =
    create (codes "core")
    ∷ (declare (codes "cache") (codes "path") param_string (some (codes "Where")) none
        ∷ (declare (codes "cache") (codes "size") param_int none (some (codes "SIZE"))
            ∷ (add_int (codes "cache") (codes "size") (pos 5)
                ∷ (add_string (codes "cache") (codes "path") (codes "/tmp") ∷ []))))

operate_all-config_destroy_example :
    (let (conf', m') = operate_all history (empty_config, (config_new short).1) in
      (config_destroy conf' no_table m').live ≡ 0)
unfolding config_new
operate_all-config_destroy_example = operate_all-config_destroy history short refl
