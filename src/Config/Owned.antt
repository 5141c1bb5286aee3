-- ===== src/Config/Owned.antt =====
-- What the operations on a configuration allocate belongs to it, whatever memory is granted.
use rapp.Prelude.{
  ℕ, ◌+◌, ◌≡◌, refl, sym, ◌∙◌, Bool, true, false, not, List, [], ◌∷◌, ◌++◌, arith, inl, inr,
  Bool-cases, if_cases, if◌then◌else◌, Text, str_eq, ℤ, Memory, memory_create, memory_strdup,
  memory_destroy,
}
use rapp.Config.{
  ParamType, Value, int_value, str_value, ConfigOption, ConfigSection, RappConfig, Status,
}
use rapp.Config.Values.{is_string, is_full, out_of_range, opt_add_value_int, opt_add_value_string}
use rapp.Config.Store.{Change, change_option, change_section, with_option}
use rapp.Config.Ownership.{
  values_blocks, option_blocks, options_blocks, sections_blocks, config_blocks,
}

pub create-live :
    (m : Memory) (got : Bool)
    → (memory_create m).0 ≡ got
    → (memory_create m).1.live ≡ m.live + (if got then 1 else 0)
unfolding memory_create
create-live m got h = elim (Bool-cases (m.grants m.calls)) [
  | inl e ↦ let t : true ≡ got = sym (rw e refl) ∙ h in rw (e, ← t) (omega arith)
  | inr e ↦ let t : false ≡ got = sym (rw e refl) ∙ h in rw (e, ← t) (omega arith)
]

pub strdup-live :
    (m : Memory) (got : Bool)
    → (memory_strdup m).0 ≡ got
    → (memory_strdup m).1.live ≡ m.live + (if got then 1 else 0)
unfolding memory_strdup
strdup-live m = create-live m

values_blocks-append :
    (type : ParamType) (vs : List Value) (v : Value)
    → values_blocks type (vs ++ v ∷ []) ≡ values_blocks type vs + (if is_string type then 2 else 1)
values_blocks-append type [] v = omega arith
values_blocks-append type (x ∷ vs) v = omega (arith, values_blocks-append type vs v)

-- The blocks in use grow by those of the option.
abbrev Balanced : ConfigOption → Memory → Status × ConfigOption × Memory → Type 0
Balanced opt m r = r.2.live + option_blocks opt ≡ m.live + option_blocks r.1

pub opt_add_value_int-Balanced :
    (opt : ConfigOption) (value : ℤ) (m : Memory) → Balanced opt m (opt_add_value_int opt value m)
unfolding opt_add_value_int option_blocks
opt_add_value_int-Balanced opt value m =
    let P = Balanced opt m in
    if_cases P (is_string opt.type) (λ _. refl)
      λ t.
        if_cases P (is_full opt) (λ _. refl)
          λ _.
            if_cases P (out_of_range opt value) (λ _. refl)
              λ _.
                if_cases P (memory_create m).0
                  (λ e.
                    let more : values_blocks opt.type (opt.values ++ int_value value ∷ [])
                        ≡ values_blocks opt.type opt.values + 1 =
                      values_blocks-append opt.type opt.values (int_value value) ∙ rw t refl in
                    omega (arith, more, create-live m true e))
                  (λ e. omega (arith, create-live m false e))

pub opt_add_value_string-Balanced :
    (opt : ConfigOption) (value : Text) (m : Memory)
    → Balanced opt m (opt_add_value_string opt value m)
unfolding opt_add_value_string option_blocks memory_destroy
opt_add_value_string-Balanced opt value m =
    let P = Balanced opt m in
    let m₁ = (memory_create m).1 in
    if_cases P (is_full opt) (λ _. refl)
      λ _.
        if_cases P (not (is_string opt.type)) (λ _. refl)
          λ t.
            if_cases P (not (memory_create m).0)
              (λ e. omega (arith, create-live m false (ground (arith, e))))
              λ e.
                if_cases P (not (memory_strdup m₁).0)
                  (λ f. omega (
                    arith,
                    create-live m true (ground (arith, e)),
                    strdup-live m₁ false (ground (arith, f)),
                  ))
                  (λ f.
                    let string : is_string opt.type ≡ true = ground (arith, t) in
                    let more : values_blocks opt.type (opt.values ++ str_value value ∷ [])
                        ≡ values_blocks opt.type opt.values + 2 =
                      values_blocks-append opt.type opt.values (str_value value) ∙ rw string refl in
                    omega (
                      arith,
                      more,
                      create-live m true (ground (arith, e)),
                      strdup-live m₁ true (ground (arith, f)),
                    ))

module _ (f : Change)
    (balanced : (opt : ConfigOption) (m : Memory) → Balanced opt m (f opt m)) where
  change_option-blocks :
      (name : Text) (os : List ConfigOption) (m : Memory)
      → (let (_, os', m') = change_option f name os m in
          m'.live + options_blocks os ≡ m.live + options_blocks os')
  unfolding change_option options_blocks
  change_option-blocks name [] m = refl
  change_option-blocks name (o ∷ os) m = elim (Bool-cases (str_eq o.name name)) [
    | inl e ↦ rw e (omega (arith, balanced o m))
    | inr e ↦ rw e (omega (arith, change_option-blocks name os m))
  ]

  change_section-blocks :
      (section name : Text) (ss : List ConfigSection) (m : Memory)
      → (let (_, ss', m') = change_section f section name ss m in
          m'.live + sections_blocks ss ≡ m.live + sections_blocks ss')
  unfolding change_section sections_blocks
  change_section-blocks section name [] m = refl
  change_section-blocks section name (s ∷ ss) m = elim (Bool-cases (str_eq s.name section)) [
    | inl e ↦ rw e (omega (arith, change_option-blocks name s.options m))
    | inr e ↦ rw e (omega (arith, change_section-blocks section name ss m))
  ]

  pub with_option-Owned :
      (conf : RappConfig) (section name : Text) (m : Memory) (n : ℕ)
      → m.live ≡ n + config_blocks conf
      → (let (_, conf', m') = with_option f conf section name m in
          m'.live ≡ n + config_blocks conf')
  unfolding with_option config_blocks
  with_option-Owned conf section name m n h =
      omega (arith, h, change_section-blocks section name conf.sections m)
