-- ===== src/Config/Insert.antt =====
-- Lookups behind an insertion at the end of a list of options or of sections, as
-- `rapp_config_opt_add` makes them.
use rapp.Prelude.{
  ℕ, ◌≡◌, ◌≢◌, refl, sym, ◌∙◌, Option, none, some, List, [], ◌∷◌, ◌++◌, inl, inr, Bool-cases,
  if◌then◌else◌, Text, str_eq, str_eq→eq,
}
use rapp.Config.{ConfigOption, ConfigSection, RappConfig}
use rapp.Config.Store.{find_section, find_option, option_of}
use rapp.Config.Api.Declare.{insert_option}

abbrev pub or_else {ℓ} : {A : Type ℓ} → Option A → Option A → Option A
or_else none b = b
or_else (some a) b = some a

find_option-append :
    (name : Text) (os : List ConfigOption) (o : ConfigOption)
    → find_option name (os ++ o ∷ [])
      ≡ or_else (find_option name os) (if str_eq o.name name then some o else none)
unfolding find_option
find_option-append name [] o = refl
find_option-append name (p ∷ os) o = elim (Bool-cases (str_eq p.name name)) [
  | inl e ↦ rw e
  | inr e ↦ rw e (find_option-append name os o)
]

pub find_section-append :
    (section : Text) (ss : List ConfigSection) (s : ConfigSection)
    → find_section section (ss ++ s ∷ [])
      ≡ or_else (find_section section ss) (if str_eq s.name section then some s else none)
unfolding find_section
find_section-append section [] s = refl
find_section-append section (p ∷ ss) s = elim (Bool-cases (str_eq p.name section)) [
  | inl e ↦ rw e
  | inr e ↦ rw e (find_section-append section ss s)
]

-- A new section without options changes no lookup.
pub create-get_option :
    (conf : RappConfig) (new : Text) (n : ℕ) (section name : Text)
    → option_of name (
        find_section section
          (conf.sections ++ record { name = new; num_opts = n; options = [] } ∷ []))
      ≡ option_of name (find_section section conf.sections)
unfolding find_option
create-get_option conf new n section name =
    rw
      (find_section-append section conf.sections
        (record { name = new; num_opts = n; options = [] }))
      (blank (find_section section conf.sections))
  where
    blank :
        (o : Option ConfigSection)
        → option_of name (
            or_else o (
              if str_eq new section
              then some (record { name = new; num_opts = n; options = [] })
              else none))
          ≡ option_of name o
    blank none = elim (Bool-cases (str_eq new section)) [ inl e ↦ rw e | inr e ↦ rw e ]
    blank (some s) = refl

pub insert-find_self :
    (section name : Text) (opt : ConfigOption) (ss : List ConfigSection) (s : ConfigSection)
    → find_section section ss ≡ some s
    → option_of name (find_section section (insert_option section opt ss))
      ≡ or_else
          (option_of name (find_section section ss))
          (if str_eq opt.name name then some opt else none)
unfolding insert_option find_section
insert-find_self section name opt [] s h = cc
insert-find_self section name opt (p ∷ ss) s h = elim (Bool-cases (str_eq p.name section)) [
  | inl e ↦ rw (e, e) (find_option-append name p.options opt)
  | inr e ↦ rw (e, e) (insert-find_self section name opt ss s (rw e at h))
]

pub insert-find_other :
    (section name section' : Text) (opt : ConfigOption) (ss : List ConfigSection)
    → section ≢ section'
    → option_of name (find_section section' (insert_option section opt ss))
      ≡ option_of name (find_section section' ss)
unfolding insert_option find_section
insert-find_other section name section' opt [] d = refl
insert-find_other section name section' opt (p ∷ ss) d = elim (Bool-cases (str_eq p.name section)) [
  | inl e ↦ rw e (elim (Bool-cases (str_eq p.name section')) [
    | inl t ↦ absurd (d (sym (str_eq→eq p.name section e) ∙ str_eq→eq p.name section' t))
    | inr t ↦ rw t
  ])
  | inr e ↦ rw e (elim (Bool-cases (str_eq p.name section')) [
    | inl t ↦ rw t
    | inr t ↦ rw t (insert-find_other section name section' opt ss d)
  ])
]

pub or_else-none {ℓ} : {A : Type ℓ} (o : Option A) → or_else o none ≡ o
or_else-none none = refl
or_else-none (some a) = refl
