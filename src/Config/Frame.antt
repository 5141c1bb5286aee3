-- ===== src/Config/Frame.antt =====
-- A call that goes through GET_OPTION reads and writes the option of its names, and no other.
use rapp.Prelude.{
  ◌≡◌, ◌≢◌, refl, sym, ◌∙◌, ap, true, false, Option, none, some, List, [], ◌∷◌, inl, inr,
  Bool-cases, if◌then◌else◌, Text, str_eq, str_eq→eq, Memory,
}
use rapp.Config.{ConfigOption, ConfigSection, RappConfig, Status, missing}
use rapp.Config.Store.{
  Change, find_section, find_option, config_section_get, get_option, option_of, change_option,
  change_section, with_option,
}

-- The change keeps the option's name.
abbrev pub KeepsName : Change → Type 0
KeepsName f = (opt : ConfigOption) (m : Memory) → (f opt m).1.name ≡ opt.name

abbrev pub status_of : Change → Option ConfigOption → Memory → Status
status_of f none m = missing
status_of f (some opt) m = (f opt m).0

abbrev pub option_after : Change → Option ConfigOption → Memory → Option ConfigOption
option_after f none m = none
option_after f (some opt) m = some (f opt m).1

module _ (f : Change) (keeps : KeepsName f) where
  change_option-find_self :
      (name : Text) (os : List ConfigOption) (m : Memory)
      → find_option name (change_option f name os m).1 ≡ option_after f (find_option name os) m
  unfolding change_option find_option
  change_option-find_self name [] m = refl
  change_option-find_self name (o ∷ os) m = elim (Bool-cases (str_eq o.name name)) [
    | inl e ↦ rw (e, keeps o m, e) refl
    | inr e ↦ rw (e, e) (change_option-find_self name os m)
  ]

  change_option-status :
      (name : Text) (os : List ConfigOption) (m : Memory)
      → (change_option f name os m).0 ≡ status_of f (find_option name os) m
  unfolding change_option find_option
  change_option-status name [] m = refl
  change_option-status name (o ∷ os) m = elim (Bool-cases (str_eq o.name name)) [
    | inl e ↦ rw e
    | inr e ↦ rw e (change_option-status name os m)
  ]

  change_option-find_other :
      (name other : Text) (os : List ConfigOption) (m : Memory)
      → name ≢ other
      → find_option other (change_option f name os m).1 ≡ find_option other os
  unfolding change_option find_option
  change_option-find_other name other [] m d = refl
  change_option-find_other name other (o ∷ os) m d = elim (Bool-cases (str_eq o.name name)) [
    | inl e ↦ rw (e, keeps o m, differs o e)
    | inr e ↦ rw e (
        ap (λ r. if str_eq o.name other then some o else r)
          (change_option-find_other name other os m d))
  ]
    where
      differs : (o : ConfigOption) → str_eq o.name name ≡ true → str_eq o.name other ≡ false
      differs o e = elim (Bool-cases (str_eq o.name other)) [
        | inl t ↦ absurd (d (sym (str_eq→eq o.name name e) ∙ str_eq→eq o.name other t))
        | inr t ↦ t
      ]

  change_section-find_self :
      (section name : Text) (ss : List ConfigSection) (m : Memory)
      → option_of name (find_section section (change_section f section name ss m).1)
        ≡ option_after f (option_of name (find_section section ss)) m
  unfolding change_section find_section
  change_section-find_self section name [] m = refl
  change_section-find_self section name (s ∷ ss) m = elim (Bool-cases (str_eq s.name section)) [
    | inl e ↦ rw (e, e) (change_option-find_self name s.options m)
    | inr e ↦ rw (e, e) (change_section-find_self section name ss m)
  ]

  change_section-status :
      (section name : Text) (ss : List ConfigSection) (m : Memory)
      → (change_section f section name ss m).0
        ≡ status_of f (option_of name (find_section section ss)) m
  unfolding change_section find_section
  change_section-status section name [] m = refl
  change_section-status section name (s ∷ ss) m = elim (Bool-cases (str_eq s.name section)) [
    | inl e ↦ rw e (change_option-status name s.options m)
    | inr e ↦ rw e (change_section-status section name ss m)
  ]

  change_section-find_other :
      (section name section' name' : Text) (ss : List ConfigSection) (m : Memory)
      → ((section ≡ section') × (name ≡ name') → ⊥)
      → option_of name' (find_section section' (change_section f section name ss m).1)
        ≡ option_of name' (find_section section' ss)
  unfolding change_section find_section
  change_section-find_other section name section' name' [] m d = refl
  change_section-find_other section name section' name' (s ∷ ss) m d =
      elim (Bool-cases (str_eq s.name section)) [
        | inl e ↦ rw e (elim (Bool-cases (str_eq s.name section')) [
          | inl t ↦ rw t (
              change_option-find_other name name' s.options m
                (λ n. d (sym (str_eq→eq s.name section e) ∙ str_eq→eq s.name section' t, n)))
          | inr t ↦ rw t
        ])
        | inr e ↦ rw e (elim (Bool-cases (str_eq s.name section')) [
          | inl t ↦ rw t
          | inr t ↦ rw t (change_section-find_other section name section' name' ss m d)
        ])
      ]

  -- The status is the change's own, at the option found; 1 where there is none.
  pub with_option-status :
      (conf : RappConfig) (section name : Text) (m : Memory)
      → (with_option f conf section name m).0 ≡ status_of f (get_option conf section name) m
  unfolding with_option get_option config_section_get
  with_option-status conf section name m = change_section-status section name conf.sections m

  pub get_option-with_option :
      (conf : RappConfig) (section name : Text) (m : Memory)
      → get_option (with_option f conf section name m).1 section name
        ≡ option_after f (get_option conf section name) m
  unfolding with_option get_option config_section_get
  get_option-with_option conf section name m = change_section-find_self section name conf.sections m

  pub get_option-with_option_ne :
      (conf : RappConfig) (section name section' name' : Text) (m : Memory)
      → ((section ≡ section') × (name ≡ name') → ⊥)
      → get_option (with_option f conf section name m).1 section' name'
        ≡ get_option conf section' name'
  unfolding with_option get_option config_section_get
  get_option-with_option_ne conf section name section' name' m d =
      change_section-find_other section name section' name' conf.sections m d
