-- ===== src/Config/Env.antt =====
-- src/config/env.c: values from the environment. `getenv` is an argument, a function from names.
use rapp.Prelude.{
  Bool, true, false, not, ◌&&◌, ◌||◌, ◌==◌, Option, none, some, List, [], ◌∷◌, ◌++◌, map,
  if◌then◌else◌, ℤ, pos, negsuc, Text, codes, str_eq, to_upper, Memory, memory_strdup,
  memory_asprintf, memory_destroy,
}
use rapp.Config.{ConfigOption, ConfigSection, RappConfig, Status, success, failure}
use rapp.Config.Convert.{config_add_value_from_string}

-- RAPP_CONFIG_SECTION of rapp/rapp_config.h.
abbrev pub rapp_config_section : Text
rapp_config_section = codes "core"

unfoldable pub uppercase : Text → Text
uppercase t = map to_upper t

-- The text that `get_env_name` prints.
unfoldable pub env_name : Text → Text → Text
unfolding uppercase str_eq
env_name sect name = uppercase (
    if str_eq sect rapp_config_section
    then codes "RAPP_" ++ name
    else codes "RAPP_" ++ (sect ++ (codes "_" ++ name)))

unfoldable pub get_env_name : Text → Text → Memory → Option Text × Memory
unfolding env_name memory_asprintf
get_env_name sect name m =
    let (got, m') = memory_asprintf m in (if got then some (env_name sect name) else none, m')

-- `strtok_r` with ":": the maximal runs of other characters. `run` is the one being read.
abbrev close : Text → List Text → List Text
close [] ts = ts
close (c ∷ cs) ts = (c ∷ cs) ∷ ts

unfoldable pub split : Text → Text → List Text
split run [] = close run []
split run (c ∷ cs) =
    let rest = split [] cs in
    let longer = split (run ++ c ∷ []) cs in if c == b':' then close run rest else longer

unfoldable pub add_tokens : ConfigOption → List Text → Memory → ConfigOption × Memory
unfolding config_add_value_from_string
add_tokens opt [] m = (opt, m)
add_tokens opt (t ∷ ts) m =
    let (s, opt', m') = config_add_value_from_string opt t m in add_tokens opt' ts m'

unfoldable pub add_value_from_env_list :
    ConfigOption → Text → Memory → Status × ConfigOption × Memory
unfolding add_tokens split memory_strdup memory_destroy
add_value_from_env_list opt value m =
    let (got, m₁) = memory_strdup m in
    if not got
    then (failure, opt, m₁)
    else (let (opt', m₂) = add_tokens opt (split [] value) m₁ in (success, opt', memory_destroy m₂))

-- `strstr(value, ":")`.
unfoldable pub has_colon : Text → Bool
has_colon [] = false
has_colon (c ∷ cs) = c == b':' || has_colon cs

-- `opt->multivalued == 1`.
abbrev pub is_one : ℤ → Bool
is_one (pos n) = n == 1
is_one (negsuc n) = false

abbrev pub succeeded : Status → Bool
succeeded Status.success = true
succeeded _ = false

-- `if (res == 0) opt->no_override = 1; free(envname)`.
abbrev lock : Status × ConfigOption × Memory → Status × ConfigOption × Memory
lock (res, opt, m) =
    (res, record opt { no_override = succeeded res || opt.no_override }, memory_destroy m)

module _ (getenv : Text → Option Text) where
  unfoldable pub take_env : Option Text → ConfigOption → Memory → Status × ConfigOption × Memory
  unfolding has_colon add_value_from_env_list config_add_value_from_string memory_destroy
  take_env none opt m = (success, opt, memory_destroy m)
  take_env (some value) opt m = lock (
      if has_colon value && is_one opt.multivalued
      then add_value_from_env_list opt value m
      else config_add_value_from_string opt value m)

  abbrev pub look_up : Option Text → ConfigOption → Memory → Status × ConfigOption × Memory
  look_up none opt m = (failure, opt, m)
  look_up (some envname) opt m = take_env (getenv envname) opt m

  unfoldable pub get_env_for_opt : Text → ConfigOption → Memory → Status × ConfigOption × Memory
  unfolding get_env_name take_env
  get_env_for_opt section opt m =
      if opt.no_override
      then (success, opt, m)
      else (let (envname, m') = get_env_name section opt.name m in look_up envname opt m')

  unfoldable pub read_env_options : Text → List ConfigOption → Memory → List ConfigOption × Memory
  unfolding get_env_for_opt
  read_env_options section [] m = ([], m)
  read_env_options section (o ∷ os) m =
      let (s, o', m₁) = get_env_for_opt section o m in
      let (os', m₂) = read_env_options section os m₁ in (o' ∷ os', m₂)

  unfoldable pub read_env_sections : List ConfigSection → Memory → List ConfigSection × Memory
  unfolding read_env_options
  read_env_sections [] m = ([], m)
  read_env_sections (s ∷ ss) m =
      let (os, m₁) = read_env_options s.name s.options m in
      let (ss', m₂) = read_env_sections ss m₁ in (record s { options = os } ∷ ss', m₂)

  unfoldable pub config_read_env : RappConfig → Memory → Status × RappConfig × Memory
  unfolding read_env_sections
  config_read_env conf m =
      let (ss, m') = read_env_sections conf.sections m in
      (success, record conf { sections = ss }, m')
