-- ===== src/Config/Yaml/Enough.antt =====
-- The fuel of the loop over the sections is enough.
use rapp.Prelude.{
  ℕ, zero, suc, ◌<◌, ◌≤◌, ◌≡◌, refl, Option, true, false, none, some, Bool, List, [], ◌∷◌, arith,
  inl, inr, Bool-cases, Option-cases, length, Text, Memory,
}
use rapp.Prelude.Run.{Run, done}
use rapp.Config.{ConfigOption, ConfigSection, RappConfig}
use rapp.Config.Store.{config_section_get}
use rapp.Config.Yaml.{Token, block_mapping_start, flow_mapping_start, block_end, key, value, scalar}
use rapp.Config.Yaml.Document.{
  Read, replace_section, yaml_skip_section, parse_known, yaml_parse_section, parse_sections,
}
use rapp.Config.Yaml.Fuel.{parse_entries-done}

skip-shorter : (ts ts' : List Token) → yaml_skip_section ts ≡ some ts' → length ts' ≤ length ts
unfolding yaml_skip_section
skip-shorter [] ts' e = cc
skip-shorter (block_end ∷ ts) ts' e = let same : ts ≡ ts' = cc in rw (← same) (omega arith)
skip-shorter (t ∷ ts) ts' e = omega (arith, skip-shorter ts ts' e)

-- The outcome of reading tokens: it has come to an end, with no more tokens than there were.
abbrev pub Ended : List Token → Run (Option Read) → Type 0
Ended ts x = (o : Option Read) × (x ≡ done o) × ((r : Read) → o ≡ some r → length r.2 ≤ length ts)

-- The section's options in the configuration.
abbrev kept : Text → RappConfig → Bool × List ConfigOption × List Token × Memory → Read
kept name conf (ok, os, ts, m) =
    (ok, record conf { sections = replace_section name os conf.sections }, ts, m)

parse_known-done :
    (name : Text) (s : ConfigSection) (conf : RappConfig) (ts : List Token) (m : Memory)
    → (r : Read) × (parse_known name s conf ts m ≡ done r) × (length r.2 ≤ length ts)
unfolding parse_known
parse_known-done name s conf (value ∷ (block_mapping_start ∷ ts)) m =
    let (r, e, l) = parse_entries-done (suc (length ts)) ts s.options m (omega arith) in
    (kept name conf r, rw (parse_known, e) refl, omega (arith, l))
parse_known-done name s conf (value ∷ (flow_mapping_start ∷ ts)) m =
    let (r, e, l) = parse_entries-done (suc (length ts)) ts s.options m (omega arith) in
    (kept name conf r, rw (parse_known, e) refl, omega (arith, l))
parse_known-done name s conf ts m = ((false, conf, ts, m), refl, omega arith)

parse_section-Ended :
    (conf : RappConfig) (name : Text) (ts : List Token) (m : Memory)
    → Ended ts (yaml_parse_section conf name ts m)
unfolding yaml_parse_section
parse_section-Ended conf name ts m = elim (Option-cases (config_section_get conf name)) [
  | inl n ↦ elim (Option-cases (yaml_skip_section ts)) [
    | inl k ↦ (none, rw (yaml_parse_section, n, k) refl, λ r q. cc)
    | inr (ts', k) ↦ (
      some (true, conf, ts', m),
      rw (yaml_parse_section, n, k) refl,
      λ r q. let e : ts' ≡ r.2 = cc in rw (← e) (skip-shorter ts ts' k),
    )
  ]
  | inr (s, n) ↦
      let (r, e, l) = parse_known-done name s conf ts m in
      (some r, rw (yaml_parse_section, n, e) refl, λ r' q. let i : r ≡ r' = cc in rw (← i) l)
]

-- Whatever the tokens, the configuration and the memory are, with more fuel than there are tokens
-- neither the loop over the sections nor a loop over entries inside it runs out of fuel, which would
-- be a `fault`: there is an outcome, and where it is a return no more tokens are left than there
-- were.
pub parse_sections-done :
    (n : ℕ) (ts : List Token) (conf : RappConfig) (m : Memory)
    → length ts < n
    → Ended ts (parse_sections n ts conf m)
unfolding parse_sections
parse_sections-done zero ts conf m h = absurd (omega arith)
parse_sections-done (suc n) (block_end ∷ ts) conf m h =
    (some (true, conf, ts, m), refl, λ r q. let e : ts ≡ r.2 = cc in rw (← e) (omega arith))
parse_sections-done (suc n) (key ∷ (scalar name ∷ ts)) conf m h =
    let (o, e, l) = parse_section-Ended conf name ts m in
    elim (Option-cases o) [
      | inl k ↦ (none, rw (parse_sections, e, k) refl, λ r q. cc)
      | inr (x, k) ↦
          let fewer = l x k in
          elim (Bool-cases x.0) [
            | inl ok ↦
                let (o', e', l') = parse_sections-done n x.2 x.1 x.3 (omega (arith, fewer)) in
                (o', rw (parse_sections, e, k, ok) e', λ r q. omega (arith, l' r q, fewer))
            | inr ok ↦ (
              some x,
              rw (parse_sections, e, k, ok) refl,
              λ r q. let i : x ≡ r = cc in rw (← i) (omega (arith, fewer)),
            )
          ]
    ]
parse_sections-done (suc n) ts conf m h =
    (some (false, conf, ts, m), refl, λ r q. let e : ts ≡ r.2 = cc in rw (← e) (omega arith))
