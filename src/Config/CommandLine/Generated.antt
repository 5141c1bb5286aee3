-- ===== src/Config/CommandLine/Generated.antt =====
-- `config_generate_commandline` where memory is granted.
use rapp.Prelude.{
  ℕ, suc, ◌+◌, ◌≤◌, ◌≡◌, refl, sym, ◌∙◌, ap, true, false, List, [], ◌∷◌, append-nil, arith, length,
  length-append, All, Memory, memory_create,
}
use rapp.Prelude.Granted.{Granted, create-Grown}
use rapp.Prelude.Run.{done}
use rapp.Config.{ConfigSection, RappConfig}
use rapp.Config.CommandLine.{
  ArgpTable, rappoptions_len, title, generate_sections, num_options, no_table,
  config_generate_commandline,
}
use rapp.Config.CommandLine.Table.{
  length-option_rows, seconds, option_rows, section_rows, Extended-trans, firsts, length-firsts,
}
use rapp.Config.CommandLine.Generating.{
  Generates, Whole, Whole-Extended, entries-length, generate_argp_for_section-at,
  push_title-Extended,
}

abbrev pub Counted : ConfigSection → Type 0
Counted s = s.num_opts ≡ length s.options

length-section_rows :
    (i index : ℕ) (ss : List ConfigSection)
    → All Counted ss
    → length (section_rows i index ss) + 1 ≡ num_options ss
unfolding section_rows num_options
length-section_rows i index [] c = refl
length-section_rows i index (s ∷ ss) c =
    let rows = option_rows s.name (suc i) i 0 (suc index) s.options in
    let rest = section_rows (suc i) (suc index + length s.options) ss in
    omega (
      arith,
      length-append rows rest,
      length-option_rows s.name (suc i) i 0 (suc index) s.options,
      length-section_rows (suc i) (suc index + length s.options) ss c.1,
      c.0,
    )

generate_sections-rows :
    (i index : ℕ) (ss : List ConfigSection) (t : ArgpTable) (m : Memory)
    → length t.entries ≡ index
    → Whole t
    → Granted m
    → All Counted ss
    → num_options ss ≤ t.room
    → Generates t (section_rows i index ss) (generate_sections i ss t m)
unfolding generate_sections section_rows num_options
generate_sections-rows i index [] t m e w g c h = (
  t,
  m,
  refl,
  record {
    entries = sym (append-nil t.entries);
    mapped = sym (append-nil t.mapped);
    room = omega arith;
    options_given = refl;
    map_given = refl;
  },
  g,
)
generate_sections-rows i index (s ∷ ss) t m e w g c h =
    let (got, grown) = create-Grown m g in
    let rows = option_rows s.name (suc i) i 0 (suc index) s.options in
    let len = length-option_rows s.name (suc i) i 0 (suc index) s.options in
    let (t₁, e₁, x₁) = push_title-Extended t (title s.name (suc i)) w (omega arith) in
    let w₁ = Whole-Extended t t₁ _ w x₁ in
    let next : length t₁.entries ≡ suc index = omega (arith, entries-length t t₁ _ x₁, e) in
    let (t₂, m₂, e₂, x₂, g₂) =
      generate_argp_for_section-at s (suc i) i (suc index) t₁ (memory_create m).1 next w₁
        grown.grants (omega (arith, x₁.room, c.0)) in
    let after : length t₂.entries ≡ suc index + length s.options =
      omega (arith, entries-length t₁ t₂ rows x₂, next, len) in
    let (t₃, m₃, e₃, x₃, g₃) =
      generate_sections-rows (suc i) (suc index + length s.options) ss t₂ m₂ after
        (Whole-Extended t₁ t₂ rows w₁ x₂) g₂ c.1 (omega (arith, x₁.room, x₂.room, c.0, len)) in
    (
      t₃,
      m₃,
      rw (got, e₁, e₂) e₃,
      Extended-trans t t₁ t₃ _ _ x₁ (Extended-trans t₁ t₂ t₃ rows _ x₂ x₃),
      g₃,
    )

-- The table of a configuration is made where memory is granted and no table was made before, if
-- every section counts its options: no entry is written outside the arrays, of which one entry is
-- left as the end, besides those for the early options.
pub generate_commandline-rows :
    (conf : RappConfig) (t : ArgpTable) (m : Memory)
    → t.options_given ≡ false
    → Granted m
    → All Counted conf.sections
    → (let rows = section_rows 0 0 conf.sections in
        (t' : ArgpTable) × (m' : Memory) × (config_generate_commandline conf t m
          ≡ done (true, t', m'))
        × (t'.entries ≡ firsts rows)
        × (t'.mapped ≡ seconds rows)
        × (t'.room ≡ 1 + rappoptions_len)
        × (t'.num_argp_options ≡ length rows))
unfolding config_generate_commandline
generate_commandline-rows conf t m fresh g c =
    let (got₁, grown₁) = create-Grown m g in
    let m₁ = (memory_create m).1 in
    let (got₂, grown₂) = create-Grown m₁ grown₁.grants in
    let start : ArgpTable = record no_table {
      options_given = true;
      map_given = true;
      room = num_options conf.sections + rappoptions_len;
    } in
    let (t', m', e, x, g') =
      generate_sections-rows 0 0 conf.sections start (memory_create m₁).1 refl
        (record { options_given = refl; map_given = refl }) grown₂.grants c (omega arith) in
    let rows = section_rows 0 0 conf.sections in
    (
      record t' { num_argp_options = length t'.entries },
      m',
      rw (fresh, got₁, got₂, e) refl,
      x.entries,
      x.mapped,
      omega (arith, x.room, length-section_rows 0 0 conf.sections c),
      ap length x.entries ∙ length-firsts rows,
    )
