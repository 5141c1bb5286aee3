-- ===== src/Config/Declared.antt =====
-- What `rapp_config_opt_add` promises: a valid, empty option behind those declared before it.
use rapp.Config.Boolean.{regcomp}
use mathlib.Core.Path.{ap₂}
use rapp.Prelude.{
  str_eq_iff, ◌≡◌, refl, sym, ◌∙◌, ap, Bool, true, not, Option, none, some, inl, inr, arith,
  Bool-cases, if◌then◌else◌, if_cases, Text, str_eq, str_eq→eq, str_eq_refl, Memory,
}
use rapp.Config.{ParamType, ConfigOption, ConfigSection, RappConfig, Status, success, failure}
use rapp.Config.Store.{find_section, config_section_get, get_option, option_of}
use rapp.Config.Api.Declare.{
  finish, declared, ensure_section, make_option, add_valid, validate_name, regex_name_matches,
  rapp_config_opt_add,
}
use rapp.Config.Insert.{or_else, or_else-none, insert-find_self, insert-find_other}
use rapp.Config.Making.{
  declared-name, SameOptions, ensure_section-Ensured, Made, make_option-Made, str_eq-ne, Added,
}

module _ (conf : RappConfig) (section name : Text) (type : ParamType) (help : Option Text) where
  refused-Added :
      (conf' : RappConfig) (m : Memory)
      → SameOptions conf conf'
      → Added conf section name type help (failure, conf', m)
  refused-Added conf' m same = (λ e. cc, λ section' name' _. same section' name')

  finish-Added :
      (conf' : RappConfig) (made : Option ConfigOption × Memory) (s : ConfigSection)
      → SameOptions conf conf'
      → find_section section conf'.sections ≡ some s
      → Made name type help made
      → Added conf section name type help (finish section conf' made)
  unfolding get_option config_section_get
  finish-Added conf' (none, m) s same here made = (λ e. cc, λ section' name' _. same section' name')
  finish-Added conf' (some opt, m) s same here made =
      let (meta, e) = made opt refl in
      let named : str_eq opt.name name ≡ true =
        rw (ap (λ (o : ConfigOption). o.name) e, declared-name type help name meta)
          (str_eq_refl name) in
      (
        λ _. (
          meta,
          insert-find_self section name opt conf'.sections s here
              ∙ ap₂ or_else (same section name) (rw named (ap some e)),
        ),
        λ section' name' d. elim (Bool-cases (str_eq section section')) [
          | inl t ↦
              let q = str_eq→eq section section' t in
              rw (← q) (
                insert-find_self section name' opt conf'.sections s here
                ∙ (ap
                      (λ (b : Bool).
                        or_else (option_of name' (find_section section conf'.sections))
                          (if b then some opt else none))
                      (str_eq-ne (λ n. d (
                        refl,
                        q,
                        sym (declared-name type help name meta)
                            ∙ (sym (ap (λ (o : ConfigOption). o.name) e) ∙ n),
                      )))
                    ∙ (or_else-none _ ∙ same section name')))
          | inr t ↦
              insert-find_other section name' section' opt conf'.sections
                (λ q. let r = (str_eq_iff section section').1 q in cc)
              ∙ same section' name'
        ],
      )

  add_valid-Added :
      (metavar : Option Text) (m : Memory)
      → Added conf section name type help (add_valid conf section name type help metavar m)
  unfolding add_valid
  add_valid-Added metavar m =
      let r = ensure_section conf section m in
      let (same, here) = ensure_section-Ensured conf section m in
      elim (Bool-cases r.0) [
        | inl t ↦
            let (s, e) = here t in
            rw t (
              finish-Added r.1 (make_option name type help metavar r.2) s same e
                (make_option-Made name type help metavar r.2))
        | inr f ↦ rw f (refused-Added r.1 r.2 same)
      ]

validate_name-matches :
    (name : Text) (m : Memory) → (validate_name name m).0 ≡ true → regex_name_matches name ≡ true
unfolding validate_name
validate_name-matches name m =
    if_cases (λ (r : Bool × Memory). r.0 ≡ true → regex_name_matches name ≡ true) (regcomp m).0
      (λ _ e. e) (λ _ e. cc)

-- What the theorems below state, together.
opt_add-outcome :
    (conf : RappConfig) (section name : Text) (type : ParamType) (help metavar : Option Text)
    (m : Memory)
    → let r = rapp_config_opt_add conf section name type help metavar m in
      (r.0 ≡ success
        → (regex_name_matches name ≡ true)
          × (regex_name_matches section ≡ true)
          × (meta : Option Text) × (get_option r.1 section name
              ≡ or_else (get_option conf section name) (some (declared type help name meta))))
      × ((section' name' : Text)
          → ((r.0 ≡ success) × (section ≡ section') × (name ≡ name') → ⊥)
          → get_option r.1 section' name' ≡ get_option conf section' name')
unfolding rapp_config_opt_add
opt_add-outcome conf section name type help metavar m =
    if_cases P (not (validate_name name m).0) (λ _. (λ e. cc, λ _ _ _. refl))
      λ n.
        if_cases P (not (validate_name section (validate_name name m).1).0)
          (λ _. (λ e. cc, λ _ _ _. refl))
          λ s.
            let (here, others) =
              add_valid-Added conf section name type help metavar
                (validate_name section (validate_name name m).1).1 in
            (
              λ e.
                  let (meta, found) = here e in
                  (
                    validate_name-matches name m (ground arith),
                    validate_name-matches section (validate_name name m).1 (ground arith),
                    meta,
                    found,
                  ),
              others,
            )
  where
    P : Status × RappConfig × Memory → Type 0
    P r =
        (r.0 ≡ success
          → (regex_name_matches name ≡ true)
            × (regex_name_matches section ≡ true)
            × (meta : Option Text) × (get_option r.1 section name
                ≡ or_else (get_option conf section name) (some (declared type help name meta))))
        × ((section' name' : Text)
            → ((r.0 ≡ success) × (section ≡ section') × (name ≡ name') → ⊥)
            → get_option r.1 section' name' ≡ get_option conf section' name')

-- Declaring an option returns 0 only for a section and a name that the name expression accepts, and
-- then the option is found with its type, help and name, no value and no lock, unless one of these
-- names was declared before, which stays the one that is found.
pub rapp_config_opt_add-get_option :
    (conf : RappConfig) (section name : Text) (type : ParamType) (help metavar : Option Text)
    (m : Memory)
    → (rapp_config_opt_add conf section name type help metavar m).0 ≡ success
    → (regex_name_matches name ≡ true)
      × (regex_name_matches section ≡ true)
      × (meta : Option Text) × (get_option
            (rapp_config_opt_add conf section name type help metavar m).1
            section
            name
          ≡ or_else (get_option conf section name) (some (declared type help name meta)))
rapp_config_opt_add-get_option conf section name type help metavar m s =
    (opt_add-outcome conf section name type help metavar m).0 s

-- Whatever the declaration of an option returns, every other option is found as before, and so is
-- this one where 0 is not returned.
rapp_config_opt_add-get_option_ne :
    (conf : RappConfig) (section name section' name' : Text) (type : ParamType)
    (help metavar : Option Text) (m : Memory)
    → (((rapp_config_opt_add conf section name type help metavar m).0 ≡ success)
          × (section ≡ section')
          × (name ≡ name')
        → ⊥)
    → get_option (rapp_config_opt_add conf section name type help metavar m).1 section' name'
      ≡ get_option conf section' name'
rapp_config_opt_add-get_option_ne conf section name section' name' type help metavar m h =
    (opt_add-outcome conf section name type help metavar m).1 section' name' h
