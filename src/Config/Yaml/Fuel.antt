-- ===== src/Config/Yaml/Fuel.antt =====
-- The fuel of the loops over tokens is enough: a pass takes a token at least.
use rapp.Prelude.{
  ℕ, zero, suc, ◌<◌, ◌≤◌, ◌≡◌, refl, Bool, true, false, not, List, [], ◌∷◌, arith, ◌⊎◌, inl, inr,
  Bool-cases, Option-cases, is_zero, length, Text, Memory, memory_strdup,
}
use rapp.Prelude.Run.{done}
use rapp.Config.{ConfigOption}
use rapp.Config.Store.{find_option}
use rapp.Config.Yaml.{
  Token, block_sequence_start, flow_sequence_start, block_entry, flow_entry, flow_sequence_end,
  block_end, flow_mapping_end, key, value, scalar, KeyValue, more, failed, last,
  config_set_value_from_yaml_scalar, config_set_value_from_yaml_list, set_values, wiped,
  parse_value, parse_key, yaml_parse_key_value, parse_entries,
}

set_values-shorter :
    (ts : List Token) (opt : ConfigOption) (m : Memory) → length (set_values ts opt m).2 ≤ length ts
unfolding set_values
set_values-shorter (scalar t ∷ ts) opt m =
    let (ok, opt', m') = config_set_value_from_yaml_scalar opt t m in
    elim (Bool-cases ok) [
      | inl e ↦ rw e (omega (arith, set_values-shorter ts opt' m'))
      | inr e ↦ rw e (omega arith)
    ]
set_values-shorter (block_entry ∷ (scalar t ∷ ts)) opt m =
    let (ok, opt', m') = config_set_value_from_yaml_scalar opt t m in
    elim (Bool-cases ok) [
      | inl e ↦ rw e (omega (arith, set_values-shorter ts opt' m'))
      | inr e ↦ rw e (omega arith)
    ]
set_values-shorter (flow_entry ∷ (scalar t ∷ ts)) opt m =
    let (ok, opt', m') = config_set_value_from_yaml_scalar opt t m in
    elim (Bool-cases ok) [
      | inl e ↦ rw e (omega (arith, set_values-shorter ts opt' m'))
      | inr e ↦ rw e (omega arith)
    ]
set_values-shorter (block_end ∷ ts) opt m = omega arith
set_values-shorter (flow_sequence_end ∷ ts) opt m = omega arith
set_values-shorter ts opt m = omega arith

set_list-shorter :
    (opt : ConfigOption) (ts : List Token) (m : Memory)
    → length (config_set_value_from_yaml_list opt ts m).2 ≤ length ts
unfolding config_set_value_from_yaml_list
set_list-shorter opt ts m = elim (Bool-cases (is_zero opt.multivalued)) [
  | inl e ↦ rw e (omega arith)
  | inr e ↦ rw e (set_values-shorter ts opt m)
]

parse_value-shorter :
    (name : Text) (opt : ConfigOption) (ts : List Token) (os : List ConfigOption) (m : Memory)
    → length (parse_value name opt ts os m).2 ≤ length ts
unfolding parse_value
parse_value-shorter name opt (value ∷ (scalar t ∷ ts)) os m = omega arith
parse_value-shorter name opt (value ∷ (block_sequence_start ∷ ts)) os m =
    let (opt', m') = wiped opt m in omega (arith, set_list-shorter opt' ts m')
parse_value-shorter name opt (value ∷ (flow_sequence_start ∷ ts)) os m =
    let (opt', m') = wiped opt m in omega (arith, set_list-shorter opt' ts m')
parse_value-shorter name opt ts os m = omega arith

parse_key-shorter :
    (ts : List Token) (os : List ConfigOption) (m : Memory)
    → length (parse_key ts os m).2 ≤ length ts
unfolding parse_key
parse_key-shorter (scalar name ∷ ts) os m =
    let (got, m') = memory_strdup m in
    elim (Bool-cases (not got)) [
      | inl e ↦ rw e (omega arith)
      | inr e ↦ rw e (elim (Option-cases (find_option name os)) [
        | inl n ↦ rw n (omega arith)
        | inr (opt, n) ↦ rw n (omega (arith, parse_value-shorter name opt ts os m'))
      ])
    ]
parse_key-shorter ts os m = omega arith

-- A pass that read an entry took a token.
key_value-shorter :
    (ts : List Token) (os : List ConfigOption) (m : Memory)
    → (yaml_parse_key_value ts os m).0 ≡ more
    → length (yaml_parse_key_value ts os m).2 < length ts
unfolding yaml_parse_key_value
key_value-shorter (key ∷ ts) os m e = omega (arith, parse_key-shorter ts os m)
key_value-shorter (flow_entry ∷ (key ∷ ts)) os m e = omega (arith, parse_key-shorter ts os m)
key_value-shorter (block_end ∷ ts) os m e = omega arith
key_value-shorter (flow_mapping_end ∷ ts) os m e = omega arith
key_value-shorter [] os m e = cc
key_value-shorter ts os m e = cc

key_value-no_longer :
    (ts : List Token) (os : List ConfigOption) (m : Memory)
    → length (yaml_parse_key_value ts os m).2 ≤ length ts
unfolding yaml_parse_key_value
key_value-no_longer (key ∷ ts) os m = omega (arith, parse_key-shorter ts os m)
key_value-no_longer (flow_entry ∷ (key ∷ ts)) os m = omega (arith, parse_key-shorter ts os m)
key_value-no_longer (block_end ∷ ts) os m = omega arith
key_value-no_longer (flow_mapping_end ∷ ts) os m = omega arith
key_value-no_longer ts os m = omega arith

KeyValue-cases : (r : KeyValue) → (r ≡ more) ⊎ ((r ≡ last) ⊎ (r ≡ failed))
KeyValue-cases more = inl refl
KeyValue-cases last = inr (inl refl)
KeyValue-cases failed = inr (inr refl)

-- With more fuel than there are tokens the loop over the entries of a section comes to an end.
pub parse_entries-done :
    (n : ℕ) (ts : List Token) (os : List ConfigOption) (m : Memory)
    → length ts < n
    → (r : Bool × List ConfigOption × List Token × Memory) × (parse_entries n ts os m ≡ done r)
      × (length r.2 ≤ length ts)
unfolding parse_entries
parse_entries-done zero ts os m h = absurd (omega arith)
parse_entries-done (suc n) ts os m h =
    let (r, os', ts', m') = yaml_parse_key_value ts os m in
    let no_longer = key_value-no_longer ts os m in
    elim (KeyValue-cases r) [
      | inl e ↦
          let shorter = key_value-shorter ts os m e in
          let (x, q, l) = parse_entries-done n ts' os' m' (omega (arith, shorter)) in
          (x, rw (parse_entries, e) q, omega (arith, l, no_longer))
      | inr (inl e) ↦ ((true, os', ts', m'), rw (parse_entries, e) refl, no_longer)
      | inr (inr e) ↦ ((false, os', ts', m'), rw (parse_entries, e) refl, no_longer)
    ]
