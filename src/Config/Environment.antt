-- ===== src/Config/Environment.antt =====
-- What `config_read_env` does to each option: a lock is respected, and no option is lost.
use rapp.Prelude.{
  sym, ◌⊎◌, memory_strdup, ◌&&◌, memory_asprintf, not, str_eq→eq, ◌≡◌, refl, ◌∙◌, ap, Bool, true,
  false, Option, none, some, List, [], ◌∷◌, ◌++◌, append_assoc, inl, inr, Bool-cases, if_cases,
  Text, codes, str_eq, Memory,
}
use rapp.Config.{ConfigOption, ConfigSection, RappConfig, Status}
use rapp.Config.Store.{find_section, find_option, config_section_get, get_option, option_of}
use rapp.Config.Convert.{config_add_value_from_string}
use rapp.Config.Valid.{
  IsValid, config_add_value_from_string-SameKind, config_add_value_from_string-IsValid,
}
use rapp.Config.Env.{
  is_one, split, get_env_name, has_colon, look_up, rapp_config_section, env_name, add_tokens,
  add_value_from_env_list, take_env, get_env_for_opt, read_env_options, read_env_sections,
  config_read_env,
}

-- The call keeps the name, and an option that is valid stays so.
record Keeps (o p : ConfigOption) : Type 0 where
  name : p.name ≡ o.name
  valid : IsValid o → IsValid p

Keeps-trans : {o p q : ConfigOption} → Keeps o p → Keeps p q → Keeps o q
Keeps-trans a b = record { name = b.name ∙ a.name; valid = λ h. b.valid (a.valid h) }

Keeps-refl : (o : ConfigOption) → Keeps o o
Keeps-refl o = record { name = refl; valid = λ h. h }

Keeps-add :
    (opt : ConfigOption) (value : Text) (m : Memory)
    → Keeps opt (config_add_value_from_string opt value m).1
Keeps-add opt value m = record {
  name = (config_add_value_from_string-SameKind opt value m).name;
  valid = λ h. (config_add_value_from_string-IsValid opt value m h).0;
}

Keeps-add_tokens :
    (opt : ConfigOption) (ts : List Text) (m : Memory) → Keeps opt (add_tokens opt ts m).0
unfolding add_tokens
Keeps-add_tokens opt [] m = Keeps-refl opt
Keeps-add_tokens opt (t ∷ ts) m = Keeps-trans (Keeps-add opt t m) (
    Keeps-add_tokens (config_add_value_from_string opt t m).1 ts
      (config_add_value_from_string opt t m).2)

Keeps-list :
    (opt : ConfigOption) (value : Text) (m : Memory)
    → Keeps opt (add_value_from_env_list opt value m).1
unfolding add_value_from_env_list
Keeps-list opt value m =
    if_cases (λ (r : Status × ConfigOption × Memory). Keeps opt r.1) (not (memory_strdup m).0)
      (λ _. Keeps-refl opt) (λ _. Keeps-add_tokens opt (split [] value) (memory_strdup m).1)

Keeps-lock :
    (o p : ConfigOption) (locked : Bool) → Keeps o p → Keeps o (record p { no_override = locked })
Keeps-lock o p locked k = record {
  name = k.name;
  valid =
      λ h. let v = k.valid h in record { counted = v.counted; fits = v.fits; single = v.single };
}

module _ (getenv : Text → Option Text) where
  Keeps-take :
      (value : Option Text) (opt : ConfigOption) (m : Memory)
      → Keeps opt (take_env getenv value opt m).1
  unfolding take_env
  Keeps-take none opt m = Keeps-refl opt
  Keeps-take (some value) opt m = Keeps-lock opt _ _ (
      if_cases (λ (r : Status × ConfigOption × Memory). Keeps opt r.1)
        (has_colon value && is_one opt.multivalued) (λ _. Keeps-list opt value m)
        (λ _. Keeps-add opt value m))

  Keeps-look_up :
      (name : Option Text) (opt : ConfigOption) (m : Memory)
      → Keeps opt (look_up getenv name opt m).1
  Keeps-look_up none opt m = Keeps-refl opt
  Keeps-look_up (some envname) opt m = Keeps-take (getenv envname) opt m

  Keeps-get_env :
      (section : Text) (opt : ConfigOption) (m : Memory)
      → Keeps opt (get_env_for_opt getenv section opt m).1
  unfolding get_env_for_opt
  Keeps-get_env section opt m =
      if_cases (λ (r : Status × ConfigOption × Memory). Keeps opt r.1) opt.no_override
        (λ _. Keeps-refl opt)
        (λ _.
          Keeps-look_up (get_env_name section opt.name m).0 opt (get_env_name section opt.name m).1)

  unset_env :
      (section : Text) (opt : ConfigOption) (m : Memory)
      → getenv (env_name section opt.name) ≡ none
      → (get_env_for_opt getenv section opt m).1 ≡ opt
  unfolding get_env_for_opt
  unset_env section opt m e =
      if_cases (λ (r : Status × ConfigOption × Memory). r.1 ≡ opt) opt.no_override (λ _. refl)
        (λ _. elim (Bool-cases (memory_asprintf m).0) [ inl g ↦ rw (g, e) | inr g ↦ rw g ])

  locked_env :
      (section : Text) (opt : ConfigOption) (m : Memory)
      → opt.no_override ≡ true
      → (get_env_for_opt getenv section opt m).1 ≡ opt
  unfolding get_env_for_opt
  locked_env section opt m e = rw e

  abbrev after : Text → Option ConfigOption → Memory → Option ConfigOption
  after section none m = none
  after section (some opt) m = some (get_env_for_opt getenv section opt m).1

  options-find :
      (section name : Text) (os : List ConfigOption) (m : Memory)
      → (m' : Memory) × (find_option name (read_env_options getenv section os m).0
          ≡ after section (find_option name os) m')
  unfolding read_env_options find_option
  options-find section name [] m = (m, refl)
  options-find section name (o ∷ os) m = elim (Bool-cases (str_eq o.name name)) [
    | inl e ↦ (m, rw (e, (Keeps-get_env section o m).name, e))
    | inr e ↦
        let (m', r) = options-find section name os (get_env_for_opt getenv section o m).2 in
        (m', rw (e, (Keeps-get_env section o m).name, e) r)
  ]

  sections-find :
      (section name : Text) (ss : List ConfigSection) (m : Memory)
      → (m' : Memory) × (option_of name (find_section section (read_env_sections getenv ss m).0)
          ≡ after section (option_of name (find_section section ss)) m')
  unfolding read_env_sections find_section
  sections-find section name [] m = (m, refl)
  sections-find section name (s ∷ ss) m = elim (Bool-cases (str_eq s.name section)) [
    | inl e ↦
        let (m', r) = options-find s.name name s.options m in
        (
          m',
          rw e (
              r
              ∙ ap (λ sec. after sec (find_option name s.options) m') (str_eq→eq s.name section e)),
        )
    | inr e ↦
        let (m', r) =
          sections-find section name ss (read_env_options getenv s.name s.options m).1 in
        (m', rw e r)
  ]

  -- What the theorems below state, together.
  read_env-outcome :
      (conf : RappConfig) (section name : Text) (m : Memory) (opt : ConfigOption)
      → get_option conf section name ≡ some opt
      → (opt' : ConfigOption) × (get_option (config_read_env getenv conf m).1 section name
          ≡ some opt')
        × (opt'.name ≡ opt.name)
        × (IsValid opt → IsValid opt')
        × (opt.no_override ≡ true → opt' ≡ opt)
        × (getenv (env_name section opt.name) ≡ none → opt' ≡ opt)
  unfolding config_read_env get_option config_section_get
  read_env-outcome conf section name m opt e =
      let (m', r) = sections-find section name conf.sections m in
      let k = Keeps-get_env section opt m' in
      (
        (get_env_for_opt getenv section opt m').1,
        r ∙ ap (λ o. after section o m') e,
        k.name,
        k.valid,
        locked_env section opt m',
        unset_env section opt m',
      )

  -- Reading the environment keeps every declared option that is valid, under its name and valid.
  pub config_read_env-IsValid :
      (conf : RappConfig) (section name : Text) (m : Memory) (opt : ConfigOption)
      → get_option conf section name ≡ some opt
      → IsValid opt
      → (opt' : ConfigOption) × (get_option (config_read_env getenv conf m).1 section name
          ≡ some opt')
        × (opt'.name ≡ opt.name)
        × IsValid opt'
  config_read_env-IsValid conf section name m opt e v =
      let (opt', found, same, valid, _, _) = read_env-outcome conf section name m opt e in
      (opt', found, same, valid v)

  -- An option that the command line has locked, or whose variable is not set, is left by the
  -- environment exactly as it was.
  pub config_read_env-locked :
      (conf : RappConfig) (section name : Text) (m : Memory) (opt : ConfigOption)
      → get_option conf section name ≡ some opt
      → (opt.no_override ≡ true) ⊎ (getenv (env_name section opt.name) ≡ none)
      → get_option (config_read_env getenv conf m).1 section name ≡ get_option conf section name
  config_read_env-locked conf section name m opt e (inl l) =
      let (opt', found, _, _, locked, _) = read_env-outcome conf section name m opt e in
      found ∙ (ap some (locked l) ∙ sym e)
  config_read_env-locked conf section name m opt e (inr u) =
      let (opt', found, _, _, _, unset) = read_env-outcome conf section name m opt e in
      found ∙ (ap some (unset u) ∙ sym e)

-- Outside the section "core" two options can share one variable: an underscore in a section's name
-- reads as well as one in front of the option's name.
env_name-shared :
    (a b c : Text)
    → str_eq a rapp_config_section ≡ false
    → str_eq (a ++ codes "_" ++ b) rapp_config_section ≡ false
    → env_name a (b ++ codes "_" ++ c) ≡ env_name (a ++ codes "_" ++ b) c
unfolding env_name
env_name-shared a b c p q = rw (p, q) (simp append_assoc)
