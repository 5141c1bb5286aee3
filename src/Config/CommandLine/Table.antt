-- ===== src/Config/CommandLine/Table.antt =====
-- The table that `config_generate_commandline` makes: which entry belongs to which option.
use rapp.Prelude.{
  ℕ, suc, ◌+◌, ◌-◌, ◌<◌, ◌≡◌, refl, ◌∙◌, ap, false, Option, none, some, List, [], ◌∷◌, ◌++◌,
  append_assoc, arith, if◌then◌else◌, length, length-append, pos, Text,
}
use rapp.Prelude.Run.{done}
use rapp.Config.{ConfigOption, ConfigSection}
use rapp.Config.Env.{uppercase}
use rapp.Config.CommandLine.{
  ArgpOption, ArgpTable, Place, arg_index_offset, is_bool, option_name, push, title,
}

-- An entry of the table with the place in the map that belongs to it.
abbrev pub Row : Type 0
Row = ArgpOption × Option Place

-- The entry of an option at an index of the table, where memory is granted.
abbrev pub entry_of : Text → ℕ → ℕ → ConfigOption → ArgpOption
entry_of section group index o = record {
  name = some (option_name section o.name);
  key = index + arg_index_offset;
  arg =
      if is_bool o.type
      then none
      else elim o.metavar [ none ↦ some (uppercase o.name) | some t ↦ some t ];
  titles = false;
  doc = o.help;
  group = pos group;
}

-- The rows of a section's options, of which the first has number `j` and stands at `index`.
unfoldable pub option_rows : Text → ℕ → ℕ → ℕ → ℕ → List ConfigOption → List Row
option_rows section group i j index [] = []
option_rows section group i j index (o ∷ os) =
    (entry_of section group index o, some (record { section = i; entry = j }))
    ∷ option_rows section group i (suc j) (suc index) os

-- The rows of the sections: a title, and the options.
unfoldable pub section_rows : ℕ → ℕ → List ConfigSection → List Row
unfolding option_rows
section_rows i index [] = []
section_rows i index (s ∷ ss) =
    (title s.name (suc i), none)
    ∷ (option_rows s.name (suc i) i 0 (suc index) s.options
        ++ section_rows (suc i) (suc index + length s.options) ss)

abbrev pub firsts : List Row → List ArgpOption
firsts [] = []
firsts ((e, p) ∷ rs) = e ∷ firsts rs

abbrev pub seconds : List Row → List (Option Place)
seconds [] = []
seconds ((e, p) ∷ rs) = p ∷ seconds rs

-- The table `t'` is `t` with these rows behind it.
pub record Extended (t : ArgpTable) (rows : List Row) (t' : ArgpTable) : Type 0 where
  pub entries : t'.entries ≡ t.entries ++ firsts rows
  pub mapped : t'.mapped ≡ t.mapped ++ seconds rows
  pub room : t'.room + length rows ≡ t.room
  pub options_given : t'.options_given ≡ t.options_given
  pub map_given : t'.map_given ≡ t.map_given

firsts-append : (xs ys : List Row) → firsts (xs ++ ys) ≡ firsts xs ++ firsts ys
firsts-append [] ys = refl
firsts-append (x ∷ xs) ys = ap (λ es. x.0 ∷ es) (firsts-append xs ys)

seconds-append : (xs ys : List Row) → seconds (xs ++ ys) ≡ seconds xs ++ seconds ys
seconds-append [] ys = refl
seconds-append (x ∷ xs) ys = ap (λ ps. x.1 ∷ ps) (seconds-append xs ys)

pub length-firsts : (rows : List Row) → length (firsts rows) ≡ length rows
length-firsts [] = refl
length-firsts (x ∷ xs) = ap suc (length-firsts xs)

pub Extended-trans :
    (t t' t'' : ArgpTable) (xs ys : List Row)
    → Extended t xs t'
    → Extended t' ys t''
    → Extended t (xs ++ ys) t''
Extended-trans t t' t'' xs ys a b = record {
  entries = rw (b.entries, a.entries, firsts-append, append_assoc) refl;
  mapped = rw (b.mapped, a.mapped, seconds-append, append_assoc) refl;
  room = omega (arith, a.room, b.room, length-append xs ys);
  options_given = b.options_given ∙ a.options_given;
  map_given = b.map_given ∙ a.map_given;
}

pub push-Extended :
    (t : ArgpTable) (e : ArgpOption) (p : Option Place)
    → 0 < t.room
    → (t' : ArgpTable) × (push t e p ≡ done t') × Extended t ((e, p) ∷ []) t'
unfolding push
push-Extended t e p h = (
  record t { entries = t.entries ++ e ∷ []; mapped = t.mapped ++ p ∷ []; room = t.room - 1 },
  ground arith,
  record {
    entries = refl;
    mapped = refl;
    room = omega arith;
    options_given = refl;
    map_given = refl;
  },
)

pub length-option_rows :
    (section : List ℕ) (group i j index : ℕ) (os : List ConfigOption)
    → length (option_rows section group i j index os) ≡ length os
unfolding option_rows
length-option_rows section group i j index [] = refl
length-option_rows section group i j index (o ∷ os) =
    ap suc (length-option_rows section group i (suc j) (suc index) os)
