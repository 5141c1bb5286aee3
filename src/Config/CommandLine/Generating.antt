-- ===== src/Config/CommandLine/Generating.antt =====
-- The entries of a section in the table, where memory is granted.
use rapp.Prelude.{
  ℕ, suc, ◌+◌, ◌≤◌, ◌<◌, ◌≡◌, refl, sym, ◌∙◌, ap, Bool, true, none, some, List, [], ◌∷◌, append-nil,
  arith, length, length-append, str_eq, Memory, memory_create, memory_strdup, memory_destroy,
  Bool-cases, Option-cases, inl, inr,
}
use rapp.Prelude.Granted.{Granted, create-Grown}
use rapp.Prelude.Run.{Run, done}
use rapp.Config.{ConfigOption, ConfigSection}
use rapp.Config.Env.{rapp_config_section}
use rapp.Config.CommandLine.{
  ArgpOption, ArgpTable, Place, is_bool, option_arg, option_doc, push_title, push_option,
  generate_options, generate_argp_for_section,
}
use rapp.Config.CommandLine.Table.{
  Row, entry_of, option_rows, Extended, Extended-trans, push-Extended, firsts, length-firsts,
}

-- The copies of an option's texts.
option_arg-Granted :
    (o : ConfigOption) (m : Memory)
    → Granted m
    → (m' : Memory) × (option_arg o m ≡ ((entry_of [] 0 0 o).arg, m')) × Granted m'
unfolding option_arg memory_strdup
option_arg-Granted o m g = elim (Bool-cases (is_bool o.type)) [
  | inl b ↦ (m, rw b refl, g)
  | inr b ↦ elim (Option-cases o.metavar) [
    | inl e ↦
        ((memory_create m).1, rw (b, e, (create-Grown m g).0) refl, (create-Grown m g).1.grants)
    | inr (t, e) ↦
        ((memory_create m).1, rw (b, e, (create-Grown m g).0) refl, (create-Grown m g).1.grants)
  ]
]

option_doc-Granted :
    (o : ConfigOption) (m : Memory)
    → Granted m
    → (m' : Memory) × (option_doc o m ≡ (o.help, m')) × Granted m'
unfolding option_doc memory_strdup
option_doc-Granted o m g = elim (Option-cases o.help) [
  | inl e ↦ (m, rw e refl, g)
  | inr (t, e) ↦
      ((memory_create m).1, rw (e, (create-Grown m g).0) refl, (create-Grown m g).1.grants)
]

-- Both arrays are there, and their counts agree.
pub record Whole (t : ArgpTable) : Type 0 where
  pub options_given : t.options_given ≡ true
  pub map_given : t.map_given ≡ true

pub Whole-Extended : (t t' : ArgpTable) (rows : List Row) → Whole t → Extended t rows t' → Whole t'
Whole-Extended t t' rows w e = record {
  options_given = e.options_given ∙ w.options_given;
  map_given = e.map_given ∙ w.map_given;
}

push_option-Extended :
    (t : ArgpTable) (e : ArgpOption) (p : Place)
    → Whole t
    → 0 < t.room
    → (t' : ArgpTable) × (push_option t e p ≡ done t') × Extended t ((e, some p) ∷ []) t'
unfolding push_option
push_option-Extended t e p w h =
    let (t', q, x) = push-Extended t e (some p) h in
    (t', ground (arith, q, w.options_given, w.map_given), x)

pub push_title-Extended :
    (t : ArgpTable) (e : ArgpOption)
    → Whole t
    → 0 < t.room
    → (t' : ArgpTable) × (push_title t e ≡ done t') × Extended t ((e, none) ∷ []) t'
unfolding push_title
push_title-Extended t e w h =
    let (t', q, x) = push-Extended t e none h in (t', ground (arith, q, w.options_given), x)

pub entries-length :
    (t t' : ArgpTable) (rows : List Row)
    → Extended t rows t'
    → length t'.entries ≡ length t.entries + length rows
entries-length t t' rows e =
    ap length e.entries
    ∙ (length-append t.entries (firsts rows) ∙ ap (λ n. length t.entries + n) (length-firsts rows))

-- The outcome of generating these rows.
abbrev pub Generates : ArgpTable → List Row → Run (Bool × ArgpTable × Memory) → Type 0
Generates t rows out =
    (t' : ArgpTable) × (m' : Memory) × (out ≡ done (true, t', m')) × Extended t rows t' × Granted m'

generate_options-rows :
    (section : List ℕ) (group i j : ℕ) (os : List ConfigOption) (t : ArgpTable) (m : Memory)
    → Whole t
    → Granted m
    → length os ≤ t.room
    → Generates t
        (option_rows section group i j (length t.entries) os)
        (generate_options section group i j os t m)
unfolding generate_options option_rows
generate_options-rows section group i j [] t m w g h = (
  t,
  m,
  refl,
  record {
    entries = sym (append-nil t.entries);
    mapped = sym (append-nil t.mapped);
    room = omega arith;
    options_given = refl;
    map_given = refl;
  },
  g,
)
generate_options-rows section group i j (o ∷ os) t m w g h =
    let (got, grown) = create-Grown m g in
    let (m₂, e₂, g₂) = option_arg-Granted o (memory_create m).1 grown.grants in
    let (m₃, e₃, g₃) = option_doc-Granted o m₂ g₂ in
    let (t₁, e, x) =
      push_option-Extended t (entry_of section group (length t.entries) o)
        (record { section = i; entry = j }) w (omega arith) in
    let next : length t₁.entries ≡ suc (length t.entries) =
      omega (arith, entries-length t t₁ _ x) in
    let (t₂, m₄, e₄, x₂, g₄) =
      generate_options-rows section group i (suc j) os t₁ m₃ (Whole-Extended t t₁ _ w x) g₃
        (omega (arith, x.room)) in
    (
      t₂,
      m₄,
      rw (got, e₂, e₃, e) e₄,
      Extended-trans t t₁ t₂ _ (option_rows section group i (suc j) (suc (length t.entries)) os) x
          (rw next at x₂),
      g₄,
    )

generate_argp_for_section-rows :
    (s : ConfigSection) (group i : ℕ) (t : ArgpTable) (m : Memory)
    → Whole t
    → Granted m
    → length s.options ≤ t.room
    → Generates t
        (option_rows s.name group i 0 (length t.entries) s.options)
        (generate_argp_for_section s group i t m)
unfolding generate_argp_for_section memory_destroy
generate_argp_for_section-rows s group i t m w g h =
    elim (Bool-cases (str_eq s.name rapp_config_section)) [
      | inl core ↦ rw core (generate_options-rows s.name group i 0 s.options t m w g h)
      | inr named ↦
          let (got, grown) = create-Grown m g in
          let (t', m', e, x, g') =
            generate_options-rows s.name group i 0 s.options t (memory_create m).1 w grown.grants
              h in
          (t', memory_destroy m', rw (named, got, e) refl, x, g')
    ]

pub generate_argp_for_section-at :
    (s : ConfigSection) (group i index : ℕ) (t : ArgpTable) (m : Memory)
    → length t.entries ≡ index
    → Whole t
    → Granted m
    → length s.options ≤ t.room
    → Generates t
        (option_rows s.name group i 0 index s.options)
        (generate_argp_for_section s group i t m)
generate_argp_for_section-at s group i index t m e w g h =
    rw (← e) (generate_argp_for_section-rows s group i t m w g h)

-- Every section counts its options.
