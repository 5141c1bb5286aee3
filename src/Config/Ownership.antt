-- ===== src/Config/Ownership.antt =====
-- Every block of a configuration is freed with it.
use rapp.Prelude.{
  ℕ, ◌+◌, ◌-◌, ◌≡◌, refl, Option, none, some, List, [], ◌∷◌, ◌&&◌, arith, inl, inr, Bool-cases,
  if◌then◌else◌, Text, Memory, memory_destroy,
}
use rapp.Config.{
  ParamType, param_bool, param_int, param_string, Value, int_value, str_value, null_string,
  ConfigOption, ConfigSection, RappConfig,
}
use rapp.Config.Values.{is_string, remove_loop, config_option_remove_all_values}
use rapp.Config.Destroy.{
  free_text, free_default, config_option_destroy, destroy_options, config_section_destroy,
  destroy_sections, config_destroy,
}
use rapp.Config.CommandLine.{no_table, config_argp_options_destroy, destroy_entries}

-- The blocks that are reached from a configuration.
abbrev pub text_blocks : Option Text → ℕ
text_blocks none = 0
text_blocks (some t) = 1

abbrev pub values_blocks : ParamType → List Value → ℕ
values_blocks type [] = 0
values_blocks type (v ∷ vs) = (if is_string type then 2 else 1) + values_blocks type vs

abbrev held_blocks : Value → ℕ
held_blocks null_string = 0
held_blocks _ = 1

abbrev default_blocks : ConfigOption → ℕ
default_blocks opt =
    if opt.default_set && is_string opt.type then held_blocks opt.default_value else 0

-- The option itself, its name, its values, and the texts that it may have.
unfoldable pub option_blocks : ConfigOption → ℕ
option_blocks opt =
    values_blocks opt.type opt.values
    + default_blocks opt
    + text_blocks opt.help
    + text_blocks opt.metavar
    + 2

unfoldable pub options_blocks : List ConfigOption → ℕ
unfolding option_blocks
options_blocks [] = 0
options_blocks (o ∷ os) = option_blocks o + options_blocks os

unfoldable pub sections_blocks : List ConfigSection → ℕ
unfolding options_blocks
sections_blocks [] = 0
sections_blocks (s ∷ ss) = options_blocks s.options + 2 + sections_blocks ss

unfoldable pub config_blocks : RappConfig → ℕ
unfolding sections_blocks
config_blocks conf = sections_blocks conf.sections + 1

freed_value-live :
    (type : ParamType) (m : Memory)
    → (memory_destroy (if is_string type then memory_destroy m else m)).live
      ≡ m.live - (if is_string type then 2 else 1)
unfolding memory_destroy
freed_value-live param_bool m = refl
freed_value-live param_int m = refl
freed_value-live param_string m = omega arith

remove_loop-live :
    (type : ParamType) (vs : List Value) (n : ℕ) (m : Memory)
    → (remove_loop type vs n m).1.live ≡ m.live - values_blocks type vs
unfolding remove_loop
remove_loop-live type [] n m = omega arith
remove_loop-live type (v ∷ vs) n m =
    let freed = memory_destroy (if is_string type then memory_destroy m else m) in
    omega (arith, remove_loop-live type vs (n - 1) freed, freed_value-live type m)

free_text-live : (t : Option Text) (m : Memory) → (free_text t m).live ≡ m.live - text_blocks t
unfolding memory_destroy
free_text-live none m = omega arith
free_text-live (some t) m = refl

free_held-live :
    (v : Value) (m : Memory)
    → (elim v as (λ _. Memory) [
      | int_value x ↦ memory_destroy m
      | str_value t ↦ memory_destroy m
      | null_string ↦ m
    ]).live
      ≡ m.live - held_blocks v
unfolding memory_destroy
free_held-live (int_value x) m = refl
free_held-live (str_value t) m = refl
free_held-live null_string m = omega arith

free_default-live :
    (opt : ConfigOption) (m : Memory) → (free_default opt m).live ≡ m.live - default_blocks opt
free_default-live opt m = elim (Bool-cases (opt.default_set && is_string opt.type)) [
  | inl e ↦ rw e (free_held-live opt.default_value m)
  | inr e ↦ rw e (omega arith)
]

option_destroy-live :
    (opt : ConfigOption) (m : Memory)
    → (config_option_destroy opt m).live ≡ m.live - option_blocks opt
unfolding config_option_destroy config_option_remove_all_values option_blocks memory_destroy
option_destroy-live opt m =
    let m₁ = (remove_loop opt.type opt.values opt.num_values m).1 in
    let m₂ = free_default opt (memory_destroy m₁) in
    let m₃ = free_text opt.help m₂ in
    omega (
      arith,
      remove_loop-live opt.type opt.values opt.num_values m,
      free_default-live opt (memory_destroy m₁),
      free_text-live opt.help m₂,
      free_text-live opt.metavar m₃,
    )

options_destroy-live :
    (os : List ConfigOption) (m : Memory) → (destroy_options os m).live ≡ m.live - options_blocks os
unfolding destroy_options options_blocks
options_destroy-live [] m = omega arith
options_destroy-live (o ∷ os) m =
    omega (arith, options_destroy-live os (config_option_destroy o m), option_destroy-live o m)

sections_destroy-live :
    (ss : List ConfigSection) (m : Memory)
    → (destroy_sections ss m).live ≡ m.live - sections_blocks ss
unfolding destroy_sections config_section_destroy sections_blocks memory_destroy
sections_destroy-live [] m = omega arith
sections_destroy-live (s ∷ ss) m =
    omega (
      arith,
      sections_destroy-live ss (config_section_destroy s m),
      options_destroy-live s.options m,
    )

pub config_destroy-live :
    (conf : RappConfig) (m : Memory)
    → (config_destroy conf no_table m).live ≡ m.live - config_blocks conf
unfolding config_destroy config_argp_options_destroy destroy_entries config_blocks memory_destroy
config_destroy-live conf m = omega (arith, sections_destroy-live conf.sections m)
