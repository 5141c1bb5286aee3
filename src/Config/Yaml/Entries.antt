-- ===== src/Config/Yaml/Entries.antt =====
-- The entries of a section, written in blocks, are read as the values that they give.
use rapp.Prelude.{
  ℕ, zero, suc, ◌<◌, ◌≡◌, refl, ◌∙◌, ap, Bool, true, false, not, none, some, List, [], ◌∷◌, arith,
  inl, inr, Bool-cases, Option-cases, is_zero, if◌then◌else◌, length, Text, Memory, memory_strdup,
  memory_destroy,
}
use rapp.Prelude.Run.{Run, done}
use rapp.Config.{ConfigOption}
use rapp.Config.Values.{config_option_remove_all_values}
use rapp.Config.Convert.{config_add_value_from_string}
use rapp.Config.Env.{succeeded}
use rapp.Config.Store.{find_option}
use rapp.Config.Yaml.{
  Token, block_sequence_start, block_entry, block_end, key, value, scalar, KeyValue, more, failed,
  config_set_value_from_yaml_scalar, config_set_value_from_yaml_list, set_values, replace_option,
  wiped, parse_value, parse_key, yaml_parse_key_value, parse_entries,
}

-- What a file gives an option: one value, or a list of values.
pub data Given : Type 0 where
  one : Text → Given
  many : List Text → Given

-- The tokens of it in front of others.
abbrev pub items : List Text → List Token → List Token
items [] rest = rest
items (t ∷ ts) rest = block_entry ∷ (scalar t ∷ items ts rest)

abbrev value_tokens : Given → List Token → List Token
value_tokens (one t) rest = value ∷ (scalar t ∷ rest)
value_tokens (many ts) rest = value ∷ (block_sequence_start ∷ items ts (block_end ∷ rest))

abbrev pub entry_tokens : Text × Given → List Token → List Token
entry_tokens (name, g) rest = key ∷ (scalar name ∷ value_tokens g rest)

abbrev pub section_tokens : List (Text × Given) → List Token → List Token
section_tokens [] rest = rest
section_tokens (e ∷ es) rest = entry_tokens e (section_tokens es rest)

-- A text adds a value to an option, and leaves one that is locked as it is.
unfoldable taken : ConfigOption → Text → Memory → Bool × ConfigOption × Memory
unfolding config_add_value_from_string
taken opt t m = elim opt.no_override [
  | true ↦ (true, opt, m)
  | false ↦ let (s, opt', m') = config_add_value_from_string opt t m in (succeeded s, opt', m')
]

-- The option without its values; one that is locked keeps them.
unfoldable emptied : ConfigOption → Memory → ConfigOption × Memory
unfolding config_option_remove_all_values
emptied opt m = elim opt.no_override [
  | true ↦ (opt, m)
  | false ↦ config_option_remove_all_values opt m
]

-- The values are added in their order, up to the first that is refused.
unfoldable set_all : List Text → ConfigOption → Memory → Bool × ConfigOption × Memory
unfolding taken
set_all [] opt m = (true, opt, m)
set_all (t ∷ ts) opt m =
    let (ok, opt', m') = taken opt t m in
    let rest = set_all ts opt' m' in if ok then rest else (false, opt', m')

-- The option loses the values that it had, and gets these.
unfoldable assigned : ConfigOption → Given → Memory → Bool × ConfigOption × Memory
unfolding set_all taken emptied
assigned opt (one t) m = let (opt', m') = emptied opt m in taken opt' t m'
assigned opt (many ts) m =
    let (opt', m') = emptied opt m in
    if is_zero opt'.multivalued then (false, opt', m') else set_all ts opt' m'

abbrev named :
    Text → List ConfigOption → Bool × ConfigOption × Memory → Bool × List ConfigOption × Memory
named name os (ok, opt, m) = (ok, replace_option name opt os, memory_destroy m)

unfoldable assign : Text × Given → List ConfigOption → Memory → Bool × List ConfigOption × Memory
unfolding memory_strdup find_option assigned memory_destroy replace_option
assign (name, g) os m =
    let (got, m') = memory_strdup m in
    if not got then (false, os, m') else elim (find_option name os) [
      | none ↦ (false, os, m')
      | some opt ↦ named name os (assigned opt g m')
    ]

unfoldable pub assign_all :
    List (Text × Given) → List ConfigOption → Memory → Bool × List ConfigOption × Memory
unfolding assign
assign_all [] os m = (true, os, m)
assign_all (e ∷ es) os m =
    let (ok, os', m') = assign e os m in
    let rest = assign_all es os' m' in if ok then rest else (false, os', m')

-- What the parser returns, against what is meant: the tokens behind are left where it succeeds.
pub record Agrees {A B : Type 0} (shown : Bool → B) (rest : List Token)
    (r : B × A × List Token × Memory) (meant : Bool × A × Memory) : Type 0 where
  pub result : r.0 ≡ shown meant.0
  pub state : r.1 ≡ meant.1
  pub memory : r.3 ≡ meant.2
  pub left : meant.0 ≡ true → r.2 ≡ rest

abbrev pub plain : Bool → Bool
plain b = b

abbrev more_or_failed : Bool → KeyValue
more_or_failed b = if b then more else failed

set_scalar-taken :
    (opt : ConfigOption) (t : Text) (m : Memory)
    → config_set_value_from_yaml_scalar opt t m ≡ taken opt t m
unfolding config_set_value_from_yaml_scalar taken
set_scalar-taken opt t m = elim (Bool-cases opt.no_override) [
  | inl e ↦ rw e refl
  | inr e ↦ rw e refl
]

wiped-emptied : (opt : ConfigOption) (m : Memory) → wiped opt m ≡ emptied opt m
unfolding emptied
wiped-emptied opt m = elim (Bool-cases opt.no_override) [ inl e ↦ rw e refl | inr e ↦ rw e refl ]

set_values-items :
    (ts : List Text) (rest : List Token) (opt : ConfigOption) (m : Memory)
    → Agrees plain rest (set_values (items ts (block_end ∷ rest)) opt m) (set_all ts opt m)
unfolding set_values set_all
set_values-items [] rest opt m = record {
  result = refl;
  state = refl;
  memory = refl;
  left = λ _. refl;
}
set_values-items (t ∷ ts) rest opt m =
    let (ok, opt', m') = taken opt t m in
    elim (Bool-cases ok) [
      | inl e ↦ rw (set_scalar-taken opt t m, e) (set_values-items ts rest opt' m')
      | inr e ↦
          rw (set_scalar-taken opt t m, e)
            (record { result = refl; state = refl; memory = refl; left = λ t. cc })
    ]

set_list-assigned :
    (ts : List Text) (rest : List Token) (opt : ConfigOption) (m : Memory)
    → Agrees plain rest
        (config_set_value_from_yaml_list opt (items ts (block_end ∷ rest)) m)
        (if is_zero opt.multivalued then (false, opt, m) else set_all ts opt m)
unfolding config_set_value_from_yaml_list
set_list-assigned ts rest opt m = elim (Bool-cases (is_zero opt.multivalued)) [
  | inl e ↦ rw e (record { result = refl; state = refl; memory = refl; left = λ t. cc })
  | inr e ↦ rw e (set_values-items ts rest opt m)
]

parse_value-assigned :
    (name : Text) (opt : ConfigOption) (g : Given) (rest : List Token) (os : List ConfigOption)
    (m : Memory)
    → Agrees more_or_failed rest
        (parse_value name opt (value_tokens g rest) os m)
        (named name os (assigned opt g m))
unfolding parse_value assigned
parse_value-assigned name opt (one t) rest os m =
    let (opt', m') = emptied opt m in
    rw (wiped-emptied opt m, set_scalar-taken opt' t m')
      (record { result = refl; state = refl; memory = refl; left = λ _. refl })
parse_value-assigned name opt (many ts) rest os m =
    let (opt', m') = emptied opt m in
    let a = set_list-assigned ts rest opt' m' in
    rw (wiped-emptied opt m) (record {
      result = ap more_or_failed a.result;
      state = ap (λ (o : ConfigOption). replace_option name o os) a.state;
      memory = ap memory_destroy a.memory;
      left = a.left;
    })

key_value-assign :
    (e : Text × Given) (rest : List Token) (os : List ConfigOption) (m : Memory)
    → Agrees more_or_failed rest (yaml_parse_key_value (entry_tokens e rest) os m) (assign e os m)
unfolding yaml_parse_key_value parse_key assign
key_value-assign (name, g) rest os m =
    let (got, m') = memory_strdup m in
    elim (Bool-cases (not got)) [
      | inl e ↦ rw e (record { result = refl; state = refl; memory = refl; left = λ t. cc })
      | inr e ↦ rw e (elim (Option-cases (find_option name os)) [
        | inl n ↦ rw n (record { result = refl; state = refl; memory = refl; left = λ t. cc })
        | inr (opt, n) ↦ rw n (parse_value-assigned name opt g rest os m')
      ])
    ]

-- The loop comes to an end, with what is meant.
abbrev Read :
    List Token
    → Run (Bool × List ConfigOption × List Token × Memory)
    → Bool × List ConfigOption × Memory
    → Type 0
Read rest x meant =
    (r : Bool × List ConfigOption × List Token × Memory) × (x ≡ done r) × Agrees plain rest r meant

parse_entries-end :
    (n : ℕ) (rest : List Token) (os : List ConfigOption) (m : Memory)
    → Read rest (parse_entries (suc n) (block_end ∷ rest) os m) (true, os, m)
unfolding parse_entries yaml_parse_key_value
parse_entries-end n rest os m = (
  (true, os, rest, m),
  refl,
  record { result = refl; state = refl; memory = refl; left = λ _. refl },
)

-- The entries of a section, written in blocks: the section is read exactly if every entry is taken,
-- an entry after the other, and its options are then what the entries make of them; up to the first
-- entry that is refused they are so too.
pub parse_entries-assign_all :
    (n : ℕ) (es : List (Text × Given)) (rest : List Token) (os : List ConfigOption) (m : Memory)
    → length es < n
    → Read rest (parse_entries n (section_tokens es (block_end ∷ rest)) os m) (assign_all es os m)
unfolding parse_entries assign_all
parse_entries-assign_all zero es rest os m h = absurd (omega arith)
parse_entries-assign_all (suc n) [] rest os m h = parse_entries-end n rest os m
parse_entries-assign_all (suc n) (e ∷ es) rest os m h =
    let (ok, os', m') = assign e os m in
    let tokens = entry_tokens e (section_tokens es (block_end ∷ rest)) in
    let a = key_value-assign e (section_tokens es (block_end ∷ rest)) os m in
    elim (Bool-cases ok) [
      | inl t ↦
          rw (parse_entries, t, a.result ∙ ap more_or_failed t, a.state, a.memory, a.left t)
            (parse_entries-assign_all n es rest os' m' (omega arith))
      | inr f ↦
          rw (parse_entries, f, a.result ∙ ap more_or_failed f)
            (
              (
                false,
                (yaml_parse_key_value tokens os m).1,
                (yaml_parse_key_value tokens os m).2,
                (yaml_parse_key_value tokens os m).3,
              ),
              refl,
              record { result = refl; state = a.state; memory = a.memory; left = λ t. cc },
            )
    ]
