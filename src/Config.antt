-- ===== src/Config.antt =====
-- src/config: the data of the configuration (src/config/common.h, rapp/rapp_config.h).
-- A `long` is a ℤ within `long_min` and `long_max`; C's 0, -1 and 1 are a Status.
pub mod Values
pub mod Number
pub mod Boolean
pub mod Convert
pub mod Store
pub mod Api
pub mod Env
pub mod Yaml
pub mod Valid
pub mod Frame
pub mod Options
pub mod Converted
pub mod Insert
pub mod Making
pub mod Declared
pub mod Environment
pub mod CommandLine
pub mod Destroy
pub mod Ownership
pub mod Owned
pub mod Allocated
pub mod History
use rapp.Prelude.{ℕ, ◌^◌, ◌-◌, Bool, Option, List, ℤ, pos, negsuc, Text}

pub data ParamType : Type 0 where
  param_bool param_int param_string : ParamType

-- The union of `struct ConfigValue` with the member that was written; a null string is apart.
pub data Value : Type 0 where
  int_value : ℤ → Value
  str_value : Text → Value
  null_string : Value

pub record ConfigOption : Type 0 where
  pub type : ParamType
  pub help : Option Text
  pub name : Text
  pub range_set : Bool
  pub value_min : ℤ
  pub value_max : ℤ
  pub multivalued : ℤ
  pub num_values : ℕ
  pub default_value : Value
  pub default_set : Bool
  pub metavar : Option Text
  pub no_override : Bool
  pub values : List Value

pub record ConfigSection : Type 0 where
  pub name : Text
  pub num_opts : ℕ
  pub options : List ConfigOption

pub record RappConfig : Type 0 where
  pub num_sections : ℕ
  pub sections : List ConfigSection

-- What a configuration call returns: 0, -1, and the 1 of the GET_OPTION macros.
pub data Status : Type 0 where
  success failure missing : Status

abbrev pub long_max : ℤ
long_max = pos (2 ^ 63 - 1)

abbrev pub long_min : ℤ
long_min = negsuc (2 ^ 63 - 1)
