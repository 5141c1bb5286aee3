-- ===== src/Config/Options.antt =====
-- What the calls on declared options promise: a value that was added is read back at the position
-- of the count before, nothing else changes, and reads are defined.
use rapp.Config.Values.{insert_tail}
use rapp.Config.Api.Read.{rapp_config_get_num_values}
use rapp.Prelude.{get_elem?-append_left}
use rapp.Prelude.{memory_create}
use rapp.Prelude.{
  ℕ, ◌+◌, ◌<◌, ◌≡◌, refl, sym, ◌∙◌, ap, false, Option, some, [], ◌∷◌, ◌++◌, arith, if_cases, ℤ, pos,
  Text, Memory, get_elem?-append_end,
}
use rapp.Config.{Value, int_value, ConfigOption, RappConfig, Status, success}
use rapp.Config.Values.{insert_tail, is_string, is_full, out_of_range, opt_add_value_int}
use rapp.Config.Store.{get_option, config_add_value_int}
use rapp.Config.Valid.{IsValid}
use rapp.Config.Frame.{
  KeepsName, status_of, option_after, with_option-status, get_option-with_option,
  get_option-with_option_ne,
}
use rapp.Config.Api.Read.{Reply, found, as_int, nth_value, rapp_config_get_nth_int}

-- Where an addition succeeds, the value is at the end.
opt_add_value_int-success :
    (opt : ConfigOption) (value : ℤ) (m : Memory)
    → (opt_add_value_int opt value m).0 ≡ success
    → ((opt_add_value_int opt value m).1 ≡ record opt {
      num_values = opt.num_values + 1;
      values = opt.values ++ int_value value ∷ [];
    })
      × (is_string opt.type ≡ false)
      × (is_full opt ≡ false)
      × (out_of_range opt value ≡ false)
unfolding opt_add_value_int
opt_add_value_int-success opt value m =
    if_cases P (is_string opt.type) (λ _ e. cc)
      λ t.
        if_cases P (is_full opt) (λ _ e. cc)
          λ f.
            if_cases P (out_of_range opt value) (λ _ e. cc)
              λ r. if_cases P (memory_create m).0 (λ _ e. (refl, t, f, r)) (λ _ e. cc)
  where
    P : Status × ConfigOption × Memory → Type 0
    P r =
        r.0 ≡ success
        → (r.1 ≡ record opt {
          num_values = opt.num_values + 1;
          values = opt.values ++ int_value value ∷ [];
        })
          × (is_string opt.type ≡ false)
          × (is_full opt ≡ false)
          × (out_of_range opt value ≡ false)

module _ {A : Type 0} (read : Option Value → Reply A) (opt : ConfigOption) (v : Value)
    (valid : IsValid opt) where
  nth_value-inserted :
      is_full opt ≡ false → nth_value read (insert_tail opt v) opt.num_values ≡ read (some v)
  nth_value-inserted f = rw (← get_elem?-append_end opt.values v, ← valid.counted) (ground arith)

  nth_value-inserted_before :
      (p : ℕ) → p < opt.num_values → nth_value read (insert_tail opt v) p ≡ nth_value read opt p
  nth_value-inserted_before p h =
      ground (arith, valid.counted, get_elem?-append_left opt.values (v ∷ []) p)

add_int-KeepsName : (value : ℤ) → KeepsName (λ opt. opt_add_value_int opt value)
unfolding opt_add_value_int
add_int-KeepsName value opt m =
    if_cases P (is_string opt.type) (λ _. refl)
      λ _.
        if_cases P (is_full opt) (λ _. refl)
          λ _.
            if_cases P (out_of_range opt value) (λ _. refl)
              λ _. if_cases P (memory_create m).0 (λ _. refl) (λ _. refl)
  where
    P : Status × ConfigOption × Memory → Type 0
    P r = r.1.name ≡ opt.name

-- What the theorems below state, together.
add_value_int-outcome :
    (conf : RappConfig) (section name : Text) (value : ℤ) (m : Memory) (opt : ConfigOption)
    → get_option conf section name ≡ some opt
    → IsValid opt
    → (config_add_value_int conf section name value m).0 ≡ success
    → let conf' = (config_add_value_int conf section name value m).1 in
      (rapp_config_get_nth_int conf' section name (pos opt.num_values) ≡ found value)
      × ((p : ℕ)
          → p < opt.num_values
          → rapp_config_get_nth_int conf' section name (pos p)
            ≡ rapp_config_get_nth_int conf section name (pos p))
      × (rapp_config_get_num_values conf' section name ≡ found (opt.num_values + 1))
      × ((section' name' : Text)
          → ((section ≡ section') × (name ≡ name') → ⊥)
          → get_option conf' section' name' ≡ get_option conf section' name')
unfolding config_add_value_int rapp_config_get_nth_int rapp_config_get_num_values
add_value_int-outcome conf section name value m opt e valid ok = (
  rw (after, done.1) (nth_value-inserted as_int opt (int_value value) valid done.2),
  λ p h. rw (after, e, done.1) (nth_value-inserted_before as_int opt (int_value value) valid p h),
  rw after,
  λ section' name' d.
      get_option-with_option_ne _ (add_int-KeepsName value) conf section name section' name' m d,
)
  where
    done :
        ((opt_add_value_int opt value m).1 ≡ insert_tail opt (int_value value))
        × (is_string opt.type ≡ false)
        × (is_full opt ≡ false)
        × (out_of_range opt value ≡ false)
    done = opt_add_value_int-success opt value m (
        sym (ap (λ o. status_of (λ opt. opt_add_value_int opt value) o m) e)
        ∙ (sym (with_option-status _ (add_int-KeepsName value) conf section name m) ∙ ok))

    after :
        get_option (config_add_value_int conf section name value m).1 section name
        ≡ some (insert_tail opt (int_value value))
    after =
        get_option-with_option _ (add_int-KeepsName value) conf section name m
        ∙ (ap (λ o. option_after (λ opt. opt_add_value_int opt value) o m) e ∙ ap some done.0)

-- Where `config_add_value_int` returns 0 at a valid option, the new value is read back at the
-- position of the count before, and the count grew by one.
pub get_nth_int-add_value_int :
    (conf : RappConfig) (section name : Text) (value : ℤ) (m : Memory) (opt : ConfigOption)
    → get_option conf section name ≡ some opt
    → IsValid opt
    → (config_add_value_int conf section name value m).0 ≡ success
    → let conf' = (config_add_value_int conf section name value m).1 in
      (rapp_config_get_nth_int conf' section name (pos opt.num_values) ≡ found value)
      × (rapp_config_get_num_values conf' section name ≡ found (opt.num_values + 1))
get_nth_int-add_value_int conf section name value m opt e v s =
    let o = add_value_int-outcome conf section name value m opt e v s in (o.0, o.2)

-- Where `config_add_value_int` returns 0 at a valid option, every position that held a value reads
-- as before.
get_nth_int-add_value_int_lt :
    (conf : RappConfig) (section name : Text) (value : ℤ) (m : Memory) (opt : ConfigOption) (p : ℕ)
    → get_option conf section name ≡ some opt
    → IsValid opt
    → (config_add_value_int conf section name value m).0 ≡ success
    → p < opt.num_values
    → rapp_config_get_nth_int
        (config_add_value_int conf section name value m).1
        section
        name
        (pos p)
      ≡ rapp_config_get_nth_int conf section name (pos p)
get_nth_int-add_value_int_lt conf section name value m opt p e v s h =
    (add_value_int-outcome conf section name value m opt e v s).1 p h

-- Where `config_add_value_int` returns 0 at a valid option, every option of another section or name
-- is found as before.
get_option-add_value_int_ne :
    (conf : RappConfig) (section name section' name' : Text) (value : ℤ) (m : Memory)
    (opt : ConfigOption)
    → get_option conf section name ≡ some opt
    → IsValid opt
    → (config_add_value_int conf section name value m).0 ≡ success
    → ((section ≡ section') × (name ≡ name') → ⊥)
    → get_option (config_add_value_int conf section name value m).1 section' name'
      ≡ get_option conf section' name'
get_option-add_value_int_ne conf section name section' name' value m opt e v s h =
    (add_value_int-outcome conf section name value m opt e v s).3 section' name' h
