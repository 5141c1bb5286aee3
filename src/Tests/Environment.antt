-- ===== src/Tests/Environment.antt =====
-- Options from the environment: src/config/env.c.
use rapp.Prelude.{false}
use rapp.Prelude.{
  ◌≡◌, refl, true, Option, none, some, [], ◌∷◌, arith, Text, codes, pos, str_eq, generous, inl,
  if◌then◌else◌,
}
use rapp.Config.{param_int, int_value, ConfigOption, RappConfig}
use rapp.Config.Store.{get_option}
use rapp.Config.Env.{config_read_env, env_name}
use rapp.Config.Valid.{IsValid}
use rapp.Config.Environment.{config_read_env-IsValid, config_read_env-locked}

-- A port that the command line has set.
abbrev port : ConfigOption
port = record {
  type = param_int;
  help = none;
  name = codes "port";
  range_set = true;
  value_min = pos 1;
  value_max = pos 65535;
  multivalued = pos 0;
  num_values = 1;
  default_value = int_value (pos 0);
  default_set = false;
  metavar = none;
  no_override = true;
  values = int_value (pos 80) ∷ [];
}

abbrev with_port : ConfigOption → RappConfig
with_port opt = record {
  num_sections = 0;
  sections = record { name = codes "core"; num_opts = 1; options = opt ∷ [] } ∷ [];
}

-- RAPP_PORT is 8080, and nothing else is set.
abbrev getenv : Text → Option Text
getenv name = if str_eq name (codes "RAPP_PORT") then some (codes "8080") else none

abbrev open_port : ConfigOption
open_port = record port { no_override = false; num_values = 0; values = [] }

open_port-IsValid : IsValid open_port
open_port-IsValid = record { counted = refl; fits = tt; single = λ e. omega arith }

config_read_env-IsValid_example :
    (opt' : ConfigOption) × (get_option
        (config_read_env getenv (with_port open_port) generous).1
        (codes "core")
        (codes "port")
      ≡ some opt')
    × (opt'.name ≡ codes "port")
    × IsValid opt'
unfolding get_option
config_read_env-IsValid_example =
    config_read_env-IsValid getenv (with_port open_port) (codes "core") (codes "port") generous
      open_port refl open_port-IsValid

reads_env :
    get_option
      (config_read_env getenv (with_port open_port) generous).1
      (codes "core")
      (codes "port")
    ≡ some (record open_port {
      no_override = true;
      num_values = 1;
      values = int_value (pos 8080) ∷ [];
    })
unfolding config_read_env get_option
reads_env = refl

config_read_env-locked_example :
    get_option (config_read_env getenv (with_port port) generous).1 (codes "core") (codes "port")
    ≡ get_option (with_port port) (codes "core") (codes "port")
unfolding get_option
config_read_env-locked_example =
    config_read_env-locked getenv (with_port port) (codes "core") (codes "port") generous port refl
      (inl refl)

-- "log" with "file_name" and "log_file" with "name" share RAPP_LOG_FILE_NAME.
shared_variable :
    env_name (codes "log") (codes "file_name") ≡ env_name (codes "log_file") (codes "name")
unfolding env_name str_eq
shared_variable = refl
