-- ===== src/Config/Yaml/Applied.antt =====
-- A document of sections, written in blocks, sets what it says.
use rapp.Prelude.{
  ℕ, zero, suc, ◌<◌, ◌≡◌, refl, ◌∙◌, some, List, [], ◌∷◌, All, arith, inl, inr, Bool-cases,
  Option-cases, length, Text, str_eq, Memory,
}
use rapp.Prelude.Run.{done}
use rapp.HttpResponse.{is_some}
use rapp.Config.{ConfigOption, ConfigSection, RappConfig}
use rapp.Config.Store.{find_section, config_section_get}
use rapp.Config.Yaml.{Token, block_end}
use rapp.Config.Yaml.Document.{yaml_parse_init, replace_section, parse_sections, config_parse_main}
use rapp.Config.Yaml.Reading.{
  Section, sections_tokens, document, apply_section, apply_all, known, Skippable, sections-longer,
  parse_section-apply,
}

find_section-replace :
    (x name : Text) (os : List ConfigOption) (ss : List ConfigSection)
    → is_some (find_section x (replace_section name os ss)) ≡ is_some (find_section x ss)
unfolding find_section replace_section
find_section-replace x name os [] = refl
find_section-replace x name os (s ∷ ss) = elim (Bool-cases (str_eq s.name name)) [
  | inl e ↦ rw e (elim (Bool-cases (str_eq s.name x)) [ inl f ↦ rw f refl | inr f ↦ rw f refl ])
  | inr e ↦ rw e (elim (Bool-cases (str_eq s.name x)) [
    | inl f ↦ rw f refl
    | inr f ↦ rw f (find_section-replace x name os ss)
  ])
]

apply_section-known :
    (s : Section) (conf : RappConfig) (m : Memory) (x : Text)
    → known x (apply_section s conf m).1 ≡ known x conf
unfolding apply_section config_section_get
apply_section-known (name, es) conf m x = elim (Option-cases (find_section name conf.sections)) [
  | inl n ↦ rw (apply_section, n) refl
  | inr (s, n) ↦ rw (apply_section, n) (find_section-replace x name _ conf.sections)
]

known-Skippable :
    (conf conf' : RappConfig) (ss : List Section)
    → ((x : Text) → known x conf' ≡ known x conf)
    → All (Skippable conf) ss
    → All (Skippable conf') ss
known-Skippable conf conf' [] e h = tt
known-Skippable conf conf' ((name, es) ∷ ss) e h = (
  elim h.0 [ inl k ↦ inl (e name ∙ k) | inr ones ↦ inr ones ],
  known-Skippable conf conf' ss e h.1,
)

parse_sections-apply :
    (n : ℕ) (ss : List Section) (conf : RappConfig) (rest : List Token) (m : Memory)
    → length ss < n
    → All (Skippable conf) ss
    → (let (ok, conf', m') = apply_all ss conf m in
        (ts : List Token) × (parse_sections n (sections_tokens ss (block_end ∷ rest)) conf m
          ≡ done (some (ok, conf', ts, m'))))
unfolding parse_sections apply_all
parse_sections-apply zero ss conf rest m l h = absurd (omega arith)
parse_sections-apply (suc n) [] conf rest m l h = (rest, refl)
parse_sections-apply (suc n) ((name, es) ∷ ss) conf rest m l h =
    let (ok, conf₁, m₁) = apply_section (name, es) conf m in
    let (ts, e, left) =
      parse_section-apply (name, es) conf (sections_tokens ss (block_end ∷ rest)) m h.0 in
    elim (Bool-cases ok) [
      | inl t ↦
          let (ts', e') =
            parse_sections-apply n ss conf₁ rest m₁ (omega arith)
              (known-Skippable conf conf₁ ss (apply_section-known (name, es) conf m) h.1) in
          (ts', rw (parse_sections, e, t, left t) e')
      | inr f ↦ (ts, rw (parse_sections, e, f) refl)
    ]

-- A document of sections, written in blocks, where a section that the configuration does not have
-- holds no list: reading it comes to an end, whatever memory is granted, and its result, the
-- configuration and the memory are those that the sections mean: each entry in its order replaces the
-- values of its option, unless that is locked, up to the first entry that is refused.
pub config_parse_main-apply_all :
    (ss : List Section) (conf : RappConfig) (rest : List Token) (m : Memory)
    → All (Skippable conf) ss
    → config_parse_main (document ss rest) conf m ≡ done (some (apply_all ss conf m))
unfolding config_parse_main yaml_parse_init
config_parse_main-apply_all ss conf rest m h =
    let tokens = sections_tokens ss (block_end ∷ rest) in
    let (ts, e) =
      parse_sections-apply (suc (length tokens)) ss conf rest m
        (omega (arith, sections-longer ss (block_end ∷ rest))) h in
    rw (config_parse_main, e) refl
