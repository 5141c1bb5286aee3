-- ===== src/Config/Yaml/Reading.antt =====
-- What a document of sections, written in blocks, means, and the reading of one section.
use rapp.Prelude.{
  suc, ◌+◌, ◌<◌, ◌≤◌, ◌≡◌, refl, sym, ◌∙◌, ap, Bool, true, false, none, some, List, [], ◌∷◌, All,
  arith, ◌⊎◌, inl, inr, Option-cases, if◌then◌else◌, length, Text, Memory,
}
use rapp.Prelude.Run.{done}
use rapp.HttpResponse.{is_some}
use rapp.Config.{RappConfig}
use rapp.Config.Store.{config_section_get}
use rapp.Config.Yaml.{
  Token, stream_start, document_start, block_mapping_start, block_end, key, value, scalar,
}
use rapp.Config.Yaml.Document.{yaml_skip_section, replace_section, parse_known, yaml_parse_section}
use rapp.Config.Yaml.Entries.{
  Given, one, many, items, entry_tokens, section_tokens, assign_all, parse_entries-assign_all,
}

-- A section of a document: its name and its entries.
abbrev pub Section : Type 0
Section = Text × List (Text × Given)

abbrev mapping_tokens : List (Text × Given) → List Token → List Token
mapping_tokens es rest = value ∷ (block_mapping_start ∷ section_tokens es (block_end ∷ rest))

abbrev pub sections_tokens : List Section → List Token → List Token
sections_tokens [] rest = rest
sections_tokens ((name, es) ∷ ss) rest =
    key ∷ (scalar name ∷ mapping_tokens es (sections_tokens ss rest))

-- The tokens of the document; what stands behind its mapping is not read.
abbrev pub document : List Section → List Token → List Token
document ss rest =
    stream_start ∷ (document_start ∷ (block_mapping_start ∷ sections_tokens ss (block_end ∷ rest)))

-- What a section means: nothing where the configuration does not have it.
unfoldable pub apply_section : Section → RappConfig → Memory → Bool × RappConfig × Memory
unfolding config_section_get assign_all replace_section
apply_section (name, es) conf m = elim (config_section_get conf name) [
  | none ↦ (true, conf, m)
  | some s ↦
      let (ok, os, m') = assign_all es s.options m in
      (ok, record conf { sections = replace_section name os conf.sections }, m')
]

unfoldable pub apply_all : List Section → RappConfig → Memory → Bool × RappConfig × Memory
unfolding apply_section
apply_all [] conf m = (true, conf, m)
apply_all (s ∷ ss) conf m =
    let (ok, conf', m') = apply_section s conf m in
    let rest = apply_all ss conf' m' in if ok then rest else (false, conf', m')

abbrev pub known : Text → RappConfig → Bool
known name conf = is_some (config_section_get conf name)

abbrev IsOne : Text × Given → Type 0
IsOne (name, g) = (t : Text) × (g ≡ one t)

-- A section that the configuration does not have is skipped up to the next end of a block, so it must
-- not hold a list.
abbrev pub Skippable : RappConfig → Section → Type 0
Skippable conf (name, es) = (known name conf ≡ true) ⊎ All IsOne es

items-longer : (ts : List Text) (rest : List Token) → length rest ≤ length (items ts rest)
items-longer [] rest = omega arith
items-longer (t ∷ ts) rest = omega (arith, items-longer ts rest)

entry-longer : (e : Text × Given) (rest : List Token) → length rest < length (entry_tokens e rest)
entry-longer (name, one t) rest = omega arith
entry-longer (name, many ts) rest = omega (arith, items-longer ts (block_end ∷ rest))

section-longer :
    (es : List (Text × Given)) (rest : List Token)
    → length es + length rest ≤ length (section_tokens es rest)
section-longer [] rest = omega arith
section-longer (e ∷ es) rest =
    omega (arith, section-longer es rest, entry-longer e (section_tokens es rest))

pub sections-longer :
    (ss : List Section) (rest : List Token)
    → length ss + length rest ≤ length (sections_tokens ss rest)
sections-longer [] rest = omega arith
sections-longer ((name, es) ∷ ss) rest =
    omega (arith, sections-longer ss rest, section-longer es (block_end ∷ sections_tokens ss rest))

skip-ones :
    (es : List (Text × Given)) (rest : List Token)
    → All IsOne es
    → yaml_skip_section (section_tokens es (block_end ∷ rest)) ≡ some rest
unfolding yaml_skip_section
skip-ones [] rest h = refl
skip-ones ((name, one t) ∷ es) rest h = skip-ones es rest h.1
skip-ones ((name, many ts) ∷ es) rest h = let e = h.0.1 in cc

skip_section-ones :
    (es : List (Text × Given)) (rest : List Token)
    → All IsOne es
    → yaml_skip_section (mapping_tokens es rest) ≡ some rest
unfolding yaml_skip_section
skip_section-ones es rest h = skip-ones es rest h

pub parse_section-apply :
    (s : Section) (conf : RappConfig) (rest : List Token) (m : Memory)
    → Skippable conf s
    → (let (name, es) = s in
        let (ok, conf', m') = apply_section s conf m in
        (ts : List Token) × (yaml_parse_section conf name (mapping_tokens es rest) m
          ≡ done (some (ok, conf', ts, m')))
        × (ok ≡ true → ts ≡ rest))
unfolding yaml_parse_section apply_section parse_known
parse_section-apply (name, es) conf rest m h = elim (Option-cases (config_section_get conf name)) [
  | inl n ↦ elim h [
    | inl k ↦ absurd (let e : false ≡ true = sym (ap is_some n) ∙ k in cc)
    | inr ones ↦ (
      rest,
      rw (yaml_parse_section, apply_section, n, skip_section-ones es rest ones) refl,
      λ _. refl,
    )
  ]
  | inr (s, n) ↦
      let tokens = section_tokens es (block_end ∷ rest) in
      let (r, e, a) =
        parse_entries-assign_all (suc (length tokens)) es rest s.options m
          (omega (arith, section-longer es (block_end ∷ rest))) in
      (
        r.2,
        rw (yaml_parse_section, apply_section, n, e, a.result, a.state, a.memory) refl,
        rw (apply_section, n) a.left,
      )
]
