-- ===== src/Config/CommandLine/Parsed.antt =====
-- An option of the command line reaches the option of the configuration that its entry stands for.
use rapp.Prelude.{
  ℕ, zero, suc, ◌+◌, ◌-◌, ◌≤◌, ◌≡◌, refl, ◌∙◌, ap, Bool, true, false, ◌&&◌, ◌||◌, Option, none,
  some, List, [], ◌∷◌, arith, ltb, leb, ◌==◌, if◌then◌else◌, get_elem?, All, Text, Memory,
  Bool-cases, inl, inr,
}
use rapp.Prelude.Granted.{Granted}
use rapp.Prelude.Run.{done, fault}
use rapp.Config.{ConfigOption, ConfigSection, RappConfig}
use rapp.Config.Env.{succeeded}
use rapp.Config.Convert.{config_add_value_from_string}
use rapp.Config.CommandLine.{
  ArgpOption, ArgpTable, accepted, einval, Place, arg_index_base, arg_index_offset, option_name,
  config_generate_commandline,
}
use rapp.Config.CommandLine.Table.{Row, section_rows, firsts, seconds}
use rapp.Config.CommandLine.Rows.{get_elem?-section_rows, row_of, get_elem?-lt}
use rapp.Config.CommandLine.Generated.{Counted, generate_commandline-rows}
use rapp.Config.CommandLine.Parsing.{
  mapping, option_key, change_entry, change_place, option_at, set_option, parse_commandline_opt,
}

get_elem?-firsts :
    (rows : List Row) (n : ℕ) (r : Row)
    → get_elem? rows n ≡ some r
    → get_elem? (firsts rows) n ≡ some r.0
get_elem?-firsts [] n r e = cc
get_elem?-firsts (x ∷ xs) zero r e =
    ap (λ (o : Option Row). elim o [ none ↦ none | some r ↦ some r.0 ]) e
get_elem?-firsts (x ∷ xs) (suc n) r e = get_elem?-firsts xs n r e

get_elem?-seconds :
    (rows : List Row) (n : ℕ) (r : Row)
    → get_elem? rows n ≡ some r
    → get_elem? (seconds rows) n ≡ some r.1
get_elem?-seconds [] n r e = cc
get_elem?-seconds (x ∷ xs) zero r e =
    ap (λ (o : Option Row). elim o [ none ↦ none | some r ↦ some r.1 ]) e
get_elem?-seconds (x ∷ xs) (suc n) r e = get_elem?-seconds xs n r e

change_entry_self :
    (j : ℕ) (o opt : ConfigOption) (os : List ConfigOption)
    → get_elem? os j ≡ some opt
    → get_elem? (change_entry j o os) j ≡ some o
unfolding change_entry
change_entry_self j o opt [] h = cc
change_entry_self zero o opt (x ∷ os) h = refl
change_entry_self (suc j) o opt (x ∷ os) h = change_entry_self j o opt os h

change_entry_ne :
    (j j' : ℕ) (o : ConfigOption) (os : List ConfigOption)
    → (j == j') ≡ false
    → get_elem? (change_entry j o os) j' ≡ get_elem? os j'
unfolding change_entry
change_entry_ne j j' o [] h = refl
change_entry_ne zero zero o (x ∷ os) h = cc
change_entry_ne zero (suc j') o (x ∷ os) h = refl
change_entry_ne (suc j) zero o (x ∷ os) h = refl
change_entry_ne (suc j) (suc j') o (x ∷ os) h = change_entry_ne j j' o os (ground arith)

change_place_self :
    (i j : ℕ) (o opt : ConfigOption) (s : ConfigSection) (ss : List ConfigSection)
    → get_elem? ss i ≡ some s
    → get_elem? s.options j ≡ some opt
    → option_at (record { section = i; entry = j }) (change_place i j o ss) ≡ some o
unfolding change_place
change_place_self i j o opt s [] h f = cc
change_place_self zero j o opt s (x ∷ ss) h f =
    let same : x ≡ s = cc in change_entry_self j o opt x.options (rw same f)
change_place_self (suc i) j o opt s (x ∷ ss) h f = change_place_self i j o opt s ss h f

change_place_ne :
    (i j i' j' : ℕ) (o : ConfigOption) (ss : List ConfigSection)
    → ((i == i') && (j == j')) ≡ false
    → option_at (record { section = i'; entry = j' }) (change_place i j o ss)
      ≡ option_at (record { section = i'; entry = j' }) ss
unfolding change_place
change_place_ne i j i' j' o [] h = refl
change_place_ne zero j zero j' o (x ∷ ss) h = change_entry_ne j j' o x.options h
change_place_ne zero j (suc i') j' o (x ∷ ss) h = refl
change_place_ne (suc i) j zero j' o (x ∷ ss) h = refl
change_place_ne (suc i) j (suc i') j' o (x ∷ ss) h = change_place_ne i j i' j' o ss (ground arith)

-- What the parser makes of a key of the table.
parse-mapped :
    (t : ArgpTable) (n : ℕ) (p : Place) (opt : ConfigOption) (arg : Text) (conf : RappConfig)
    (m : Memory)
    → get_elem? t.mapped n ≡ some (some p)
    → n ≤ t.num_argp_options
    → option_at p conf.sections ≡ some opt
    → parse_commandline_opt t (option_key (n + arg_index_offset)) (some arg) conf m
      ≡ done (set_option conf p opt arg m)
unfolding parse_commandline_opt
parse-mapped t n p opt arg conf m h l o =
    let not_early : (leb arg_index_base (n + arg_index_offset)
          && ltb (n + arg_index_offset) arg_index_offset)
        ≡ false =
      ground arith in
    let inside : (ltb (n + arg_index_offset) arg_index_offset
          || ltb t.num_argp_options (n + arg_index_offset - arg_index_offset))
        ≡ false =
      ground (arith, l) in
    let index : n + arg_index_offset - arg_index_offset ≡ n = omega arith in
    rw (not_early, inside, index, mapping, h)
      (ap
        (λ (found : Option ConfigOption). elim found [
          | none ↦ fault
          | some opt ↦ done (set_option conf p opt arg m)
        ])
        o)

-- The option of a configuration after a value from the command line.
abbrev pub after_value : Bool → ConfigOption → ConfigOption
after_value true opt = record opt { no_override = true }
after_value false opt = opt

set_option_outcome :
    (conf : RappConfig) (i j i' j' : ℕ) (s : ConfigSection) (opt : ConfigOption) (arg : Text)
    (m : Memory)
    → get_elem? conf.sections i ≡ some s
    → get_elem? s.options j ≡ some opt
    → ((i == i') && (j == j')) ≡ false
    → (let p : Place = record { section = i; entry = j } in
        let q : Place = record { section = i'; entry = j' } in
        let (status, opt', m') = config_add_value_from_string opt arg m in
        (conf' : RappConfig) × (set_option conf p opt arg m
          ≡ (if succeeded status then accepted else einval, conf', m'))
        × (option_at p conf'.sections ≡ some (after_value (succeeded status) opt'))
        × (option_at q conf'.sections ≡ option_at q conf.sections))
unfolding set_option
set_option_outcome conf i j i' j' s opt arg m h f d =
    let (status, opt', m') = config_add_value_from_string opt arg m in
    let new = after_value (succeeded status) opt' in
    (
      record conf { sections = change_place i j new conf.sections },
      elim (Bool-cases (succeeded status)) [ inl e ↦ rw e refl | inr e ↦ rw e refl ],
      change_place_self i j new opt s conf.sections h f,
      change_place_ne i j i' j' new conf.sections d,
    )

-- For every option of a configuration whose sections count their options, where memory is granted
-- and no table was made before: the table has an entry with the option's name for the command line,
-- and the key of that entry makes argp's parser add the argument to exactly this option, by
-- `config_add_value_from_string`. The option is locked if that returned 0, else EINVAL comes back;
-- no option at another place changes.
pub parse-generated :
    (conf : RappConfig) (t : ArgpTable) (m m₂ : Memory) (i j i' j' : ℕ) (s : ConfigSection)
    (opt : ConfigOption) (arg : Text)
    → t.options_given ≡ false
    → Granted m
    → All Counted conf.sections
    → get_elem? conf.sections i ≡ some s
    → get_elem? s.options j ≡ some opt
    → ((i == i') && (j == j')) ≡ false
    → (let p : Place = record { section = i; entry = j } in
        let q : Place = record { section = i'; entry = j' } in
        let (status, opt', m₃) = config_add_value_from_string opt arg m₂ in
        (t' : ArgpTable) × (m' : Memory) × (n : ℕ) × (e : ArgpOption) × (conf' : RappConfig)
        × (config_generate_commandline conf t m ≡ done (true, t', m'))
        × (get_elem? t'.entries n ≡ some e)
        × (e.name ≡ some (option_name s.name opt.name))
        × (parse_commandline_opt t' (option_key e.key) (some arg) conf m₂
            ≡ done (if succeeded status then accepted else einval, conf', m₃))
        × (option_at p conf'.sections ≡ some (after_value (succeeded status) opt'))
        × (option_at q conf'.sections ≡ option_at q conf.sections))
parse-generated conf t m m₂ i j i' j' s opt arg fresh g c h f d =
    let p : Place = record { section = i; entry = j } in
    let rows = section_rows 0 0 conf.sections in
    let (t', m', e, entries, mapped, _, count) = generate_commandline-rows conf t m fresh g c in
    let (n, k, index, row) =
      get_elem?-section_rows 0 0 i i j conf.sections s opt h f (omega arith) in
    let r = row_of s.name (suc i) k opt p in
    let (conf', set, here, there) = set_option_outcome conf i j i' j' s opt arg m₂ h f d in
    let at : option_at p conf.sections ≡ some opt = rw (option_at, h) f in
    let parsed =
      parse-mapped t' n p opt arg conf m₂
        (ap (λ (ps : List (Option Place)). get_elem? ps n) mapped ∙ get_elem?-seconds rows n r row)
        (omega (arith, count, get_elem?-lt rows n r row)) at in
    let key : k ≡ n = omega arith in
    (
      t',
      m',
      n,
      r.0,
      conf',
      e,
      ap (λ (es : List ArgpOption). get_elem? es n) entries ∙ get_elem?-firsts rows n r row,
      refl,
      rw key (parsed ∙ ap done set),
      here,
      there,
    )
