-- ===== src/Config/History.antt =====
-- A configuration from its creation over any operations to its end: nothing stays in use.
use rapp.Prelude.{
  ℕ, ◌+◌, ◌≡◌, refl, ◌∙◌, Bool, true, false, not, Option, none, some, List, [], ◌∷◌, arith, inl,
  inr, Bool-cases, if_cases, if◌then◌else◌, Text, ℤ, Memory, memory_create, memory_strdup,
  memory_destroy,
}
use rapp.Config.{ParamType, ConfigOption, ConfigSection, RappConfig, Status}
use rapp.Config.Boolean.{regcomp, regfree}
use rapp.Config.Values.{opt_add_value_int, opt_add_value_string}
use rapp.Config.Store.{
  config_new, empty_config, find_section, config_section_get, config_section_create,
  config_add_value_int, config_add_value_string,
}
use rapp.Config.Api.Declare.{
  validate_name, ensure_by, ensure_section, make_option, finish, add_valid, rapp_config_opt_add,
}
use rapp.Config.Making.{ensure_section-Ensured}
use rapp.Config.CommandLine.{no_table}
use rapp.Config.Destroy.{config_destroy}
use rapp.Config.Ownership.{sections_blocks, config_blocks, config_destroy-live}
use rapp.Config.Allocated.{
  sections_blocks-append, insert_option-blocks, made_blocks, make_option-live,
}
use rapp.Config.Owned.{
  create-live, strdup-live, with_option-Owned, opt_add_value_int-Balanced,
  opt_add_value_string-Balanced,
}

-- The blocks in use are `n` and those of the configuration.
abbrev Owns : ℕ → RappConfig × Memory → Type 0
Owns n (conf, m) = m.live ≡ n + config_blocks conf

section_create-Owns :
    (n : ℕ) (conf : RappConfig) (name : Text) (m : Memory)
    → Owns n (conf, m)
    → (let (_, conf', m') = config_section_create conf name m in Owns n (conf', m'))
unfolding config_section_create config_blocks memory_destroy
section_create-Owns n conf name m h =
    let P = λ (r : Bool × RappConfig × Memory). Owns n (r.1, r.2) in
    let m₁ = (memory_create m).1 in
    if_cases P (not (memory_create m).0)
      (λ e. omega (arith, h, create-live m false (ground (arith, e))))
      λ e.
        if_cases P (not (memory_strdup m₁).0)
          (λ f. omega (
            arith,
            h,
            create-live m true (ground (arith, e)),
            strdup-live m₁ false (ground (arith, f)),
          ))
          (λ f. omega (
            arith,
            h,
            create-live m true (ground (arith, e)),
            strdup-live m₁ true (ground (arith, f)),
            sections_blocks-append conf.sections name 0,
          ))

ensure_section-Owns :
    (n : ℕ) (conf : RappConfig) (section : Text) (m : Memory)
    → Owns n (conf, m)
    → (let (_, conf', m') = ensure_section conf section m in Owns n (conf', m'))
unfolding ensure_section
ensure_section-Owns n conf section m h = go (config_section_get conf section)
  where
    go :
        (o : Option ConfigSection)
        → (let (_, conf', m') = ensure_by o conf section m in Owns n (conf', m'))
    go (some s) = h
    go none = section_create-Owns n conf section m h

validate_name-live : (name : Text) (m : Memory) → (validate_name name m).1.live ≡ m.live
unfolding validate_name regcomp regfree memory_destroy
validate_name-live name m =
    if_cases (λ (r : Bool × Memory). r.1.live ≡ m.live) (memory_create m).0
      (λ e. omega (arith, create-live m true e)) (λ e. omega (arith, create-live m false e))

finish-Owns :
    (n : ℕ) (section : Text) (conf : RappConfig) (s : ConfigSection) (m : Memory)
    (made : Option ConfigOption) (m' : Memory)
    → find_section section conf.sections ≡ some s
    → Owns n (conf, m)
    → m'.live ≡ m.live + made_blocks made
    → (let (_, conf', m'') = finish section conf (made, m') in Owns n (conf', m''))
unfolding config_blocks
finish-Owns n section conf s m none m' here h e = omega (arith, h, e)
finish-Owns n section conf s m (some opt) m' here h e =
    omega (arith, h, e, insert_option-blocks section opt conf.sections s here)

add_valid-Owns :
    (n : ℕ) (conf : RappConfig) (section name : Text) (type : ParamType)
    (help metavar : Option Text) (m : Memory)
    → Owns n (conf, m)
    → (let (_, conf', m') = add_valid conf section name type help metavar m in Owns n (conf', m'))
unfolding add_valid
add_valid-Owns n conf section name type help metavar m h =
    let (got, conf₁, m₁) = ensure_section conf section m in
    let owns = ensure_section-Owns n conf section m h in
    let (made, m₂) = make_option name type help metavar m₁ in
    elim (Bool-cases got) [
      | inl t ↦
          let (s, here) = (ensure_section-Ensured conf section m).1 t in
          rw t (
            finish-Owns n section conf₁ s m₁ made m₂ here owns
              (make_option-live name type help metavar m₁))
      | inr f ↦ rw f owns
    ]

opt_add-Owns :
    (n : ℕ) (conf : RappConfig) (section name : Text) (type : ParamType)
    (help metavar : Option Text) (m : Memory)
    → Owns n (conf, m)
    → (let (_, conf', m') = rapp_config_opt_add conf section name type help metavar m in
        Owns n (conf', m'))
unfolding rapp_config_opt_add
opt_add-Owns n conf section name type help metavar m h =
    let P = λ (r : Status × RappConfig × Memory). Owns n (r.1, r.2) in
    let m₁ = (validate_name name m).1 in
    let m₂ = (validate_name section m₁).1 in
    let owns₁ : Owns n (conf, m₁) = validate_name-live name m ∙ h in
    let owns₂ : Owns n (conf, m₂) = validate_name-live section m₁ ∙ owns₁ in
    if_cases P (not (validate_name name m).0) (λ _. owns₁)
      λ _.
        if_cases P (not (validate_name section m₁).0) (λ _. owns₂)
          λ _. add_valid-Owns n conf section name type help metavar m₂ owns₂

-- What the core and a plugin ask of a configuration.
pub data Operation : Type 0 where
  create : Text → Operation
  declare : Text → Text → ParamType → Option Text → Option Text → Operation
  add_int : Text → Text → ℤ → Operation
  add_string : Text → Text → Text → Operation

unfoldable operate : Operation → RappConfig × Memory → RappConfig × Memory
unfolding config_section_create rapp_config_opt_add config_add_value_int config_add_value_string
operate (create section) (conf, m) =
    let (_, conf', m') = config_section_create conf section m in (conf', m')
operate (declare section name type help metavar) (conf, m) =
    let (_, conf', m') = rapp_config_opt_add conf section name type help metavar m in (conf', m')
operate (add_int section name value) (conf, m) =
    let (_, conf', m') = config_add_value_int conf section name value m in (conf', m')
operate (add_string section name value) (conf, m) =
    let (_, conf', m') = config_add_value_string conf section name value m in (conf', m')

unfoldable pub operate_all : List Operation → RappConfig × Memory → RappConfig × Memory
unfolding operate
operate_all [] s = s
operate_all (o ∷ os) s = operate_all os (operate o s)

operate-Owns : (n : ℕ) (o : Operation) (s : RappConfig × Memory) → Owns n s → Owns n (operate o s)
unfolding operate config_add_value_int config_add_value_string
operate-Owns n (create section) (conf, m) h = section_create-Owns n conf section m h
operate-Owns n (declare section name type help metavar) (conf, m) h =
    opt_add-Owns n conf section name type help metavar m h
operate-Owns n (add_int section name value) (conf, m) h =
    with_option-Owned (λ opt. opt_add_value_int opt value)
      (λ opt m. opt_add_value_int-Balanced opt value m) conf section name m n h
operate-Owns n (add_string section name value) (conf, m) h =
    with_option-Owned (λ opt. opt_add_value_string opt value)
      (λ opt m. opt_add_value_string-Balanced opt value m) conf section name m n h

operate_all-Owns :
    (n : ℕ) (os : List Operation) (s : RappConfig × Memory) → Owns n s → Owns n (operate_all os s)
unfolding operate_all
operate_all-Owns n [] s h = h
operate_all-Owns n (o ∷ os) s h = operate_all-Owns n os (operate o s) (operate-Owns n o s h)

new_got : (b : Bool) → (if b then some empty_config else none) ≡ some empty_config → b ≡ true
new_got true e = refl
new_got false e = cc

-- A configuration is created, and then sections are created, options declared, and numbers and texts
-- added to options, in any order and number. Whatever each call returns, and whichever requests for
-- memory are refused, destroying the configuration afterwards leaves as many blocks in use as there
-- were before it was created.
pub operate_all-config_destroy :
    (os : List Operation) (m : Memory)
    → (config_new m).0 ≡ some empty_config
    → (let (conf', m') = operate_all os (empty_config, (config_new m).1) in
        (config_destroy conf' no_table m').live ≡ m.live)
unfolding config_new config_blocks sections_blocks
operate_all-config_destroy os m e =
    let m₁ = (memory_create m).1 in
    let (conf', m') = operate_all os (empty_config, m₁) in
    let got : (memory_create m).0 ≡ true = new_got (memory_create m).0 e in
    let owns : Owns m.live (empty_config, m₁) = omega (arith, create-live m true got) in
    omega (arith, config_destroy-live conf' m', operate_all-Owns m.live os (empty_config, m₁) owns)
