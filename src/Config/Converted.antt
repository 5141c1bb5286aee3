-- ===== src/Config/Converted.antt =====
-- What `config_add_value_from_string` makes of a text, by the option's type.
use rapp.Config.Values.{insert_tail}
use rapp.Prelude.{
  decimal-head, ◌==◌, ℕ, suc, ◌+◌, ◌-◌, ◌^◌, ◌<◌, ◌≡◌, refl, ◌∙◌, ap, Bool, true, false, [], ◌∷◌,
  ◌⊎◌, inl, inr, arith, Bool-cases, if◌then◌else◌, ltb, ℤ, pos, negsuc, ltb_ℤ, Text, is_digit,
  Memory, decimal, decimal-fold,
}
use rapp.Config.{param_bool, param_int, int_value, ConfigOption, success, failure}
use rapp.Config.Values.{insert_tail, is_string, is_full, out_of_range, opt_add_value_int}
use rapp.Config.Number.{
  Parsed, parsed, to_long, strtol, read_sign, read_digits, scan_digits, skip_space,
}
use rapp.Config.Boolean.{regex_bool_matches}
use rapp.Config.Convert.{config_add_value_from_string, int_rejected}

scan-decimal : (n : ℕ) → scan_digits 0 (decimal n) ≡ (n, [])
unfolding scan_digits
scan-decimal n = decimal-fold scan_digits (λ a k t. ground arith) n

strtol-digit :
    (c : ℕ) (cs : Text) (n : ℕ)
    → is_digit c ≡ true
    → scan_digits 0 (c ∷ cs) ≡ (n, [])
    → (strtol (c ∷ cs) ≡ to_long false n []) × (strtol (b'-' ∷ c ∷ cs) ≡ to_long true n [])
unfolding read_sign skip_space strtol
strtol-digit c cs n d e =
    (rw (skips, plain, plus) (number false (c ∷ cs)), rw d (rw (rw d at e) refl))
  where
    skips : skip_space (c ∷ cs) ≡ c ∷ cs
    skips = ground arith

    plain : (c == b'-') ≡ false
    plain = ground arith

    plus : (c == b'+') ≡ false
    plus = ground arith

    number : (minus : Bool) (all : Text) → read_digits minus all (c ∷ cs) ≡ to_long minus n []
    number minus all = rw d (rw (rw d at e) refl)

-- A number as the code prints it, with a minus sign or none, is read back as `strtol` does: itself
-- where it fits a `long`, and the nearest `long` with ERANGE where it does not.
strtol-decimal :
    (n : ℕ)
    → (strtol (decimal n) ≡ to_long false n []) × (strtol (b'-' ∷ decimal n) ≡ to_long true n [])
strtol-decimal n =
    let (c, cs, e, d) = decimal-head n in rw e (strtol-digit c cs n d (rw e at (scan-decimal n)))

opt_add_value_int-inserted :
    (opt : ConfigOption) (value : ℤ) (m : Memory)
    → is_string opt.type ≡ false
    → is_full opt ≡ false
    → out_of_range opt value ≡ false
    → m.grants m.calls ≡ true
    → (opt_add_value_int opt value m).1 ≡ insert_tail opt (int_value value)
unfolding opt_add_value_int
opt_add_value_int-inserted opt value m t f r g = rw (t, f, r, g)

-- A text that the boolean expression accepts is stored as 1, if the option is a boolean that has room
-- and every request for memory is granted. Two blocks for the compiled expressions stay allocated
-- beside that of the value.
add_value_from_string-bool :
    (opt : ConfigOption) (value : Text) (m : Memory)
    → opt.type ≡ param_bool
    → is_full opt ≡ false
    → out_of_range opt (pos 1) ≡ false
    → regex_bool_matches value ≡ true
    → ((n : ℕ) → m.grants n ≡ true)
    → ((config_add_value_from_string opt value m).0 ≡ success)
      × ((config_add_value_from_string opt value m).1 ≡ insert_tail opt (int_value (pos 1)))
      × ((config_add_value_from_string opt value m).2.live ≡ m.live + 3)
unfolding config_add_value_from_string opt_add_value_int
add_value_from_string-bool opt value m t f r matches g =
    rw (t, g m.calls, matches, g (suc m.calls), f, r, g (suc (suc m.calls)))
      (refl, refl, omega arith)

opt_add_value_int-by_room :
    (opt : ConfigOption) (value : ℤ) (m : Memory)
    → opt.type ≡ param_int
    → ltb_ℤ value opt.value_min ≡ false
    → ltb_ℤ opt.value_max value ≡ false
    → m.grants m.calls ≡ true
    → (opt_add_value_int opt value m).1
      ≡ (if is_full opt then opt else insert_tail opt (int_value value))
unfolding opt_add_value_int
opt_add_value_int-by_room opt value m t low high g = elim (Bool-cases (is_full opt)) [
  | inl f ↦ rw f (rw t)
  | inr f ↦
      opt_add_value_int-inserted opt value m (ap is_string t) f (rw (low, high) (ground arith)) g
      ∙ rw f
]

add_value_from_string-parsed :
    (opt : ConfigOption) (value : Text) (m : Memory) (p : Parsed)
    → opt.type ≡ param_int
    → strtol value ≡ p
    → config_add_value_from_string opt value m ≡ (
        if int_rejected opt p
        then (failure, opt, m)
        else (success, (opt_add_value_int opt p.value m).1, (opt_add_value_int opt p.value m).2))
unfolding config_add_value_from_string
add_value_from_string-parsed opt value m p t e = rw (t, ← e)

-- A number as `%ld` prints it.
abbrev pub printed : ℤ → Text
printed (pos n) = decimal n
printed (negsuc n) = b'-' ∷ decimal (suc n)

-- The numbers of a `long`.
abbrev pub Fits : ℤ → Type 0
Fits (pos n) = n < 2 ^ 63
Fits (negsuc n) = n < 2 ^ 63

abbrev pub OutOfRange : ConfigOption → ℤ → Type 0
OutOfRange opt z = (¬ Fits z) ⊎ (ltb_ℤ z opt.value_min ≡ true) ⊎ (ltb_ℤ opt.value_max z ≡ true)

abbrev read_as : ℤ → Parsed
read_as (pos n) = to_long false n []
read_as (negsuc n) = to_long true (suc n) []

strtol-printed : (z : ℤ) → strtol (printed z) ≡ read_as z
strtol-printed (pos n) = (strtol-decimal n).0
strtol-printed (negsuc n) = (strtol-decimal (suc n)).1

read_as-Fits : (z : ℤ) → Fits z → read_as z ≡ parsed z false []
read_as-Fits (pos n) h = let e : ltb (2 ^ 63 - 1) n ≡ false = ground arith in rw e refl
read_as-Fits (negsuc n) h =
    let e : ltb (2 ^ 63) (suc n) ≡ false = ground arith in
    let s : (suc n == 0) ≡ false = ground arith in
    let p : suc n - 1 ≡ n = omega arith in rw (e, s, p) refl

Fits-cases : (z : ℤ) → Fits z ⊎ ((¬ Fits z) × ((read_as z).out_of_range ≡ true))
Fits-cases (pos n) = elim (Bool-cases (ltb (2 ^ 63 - 1) n)) [
  | inl big ↦ inr ((λ h. ground arith), rw big refl)
  | inr small ↦ inl (ground arith)
]
Fits-cases (negsuc n) = elim (Bool-cases (ltb (2 ^ 63) (suc n))) [
  | inl big ↦ inr ((λ h. ground arith), rw big refl)
  | inr small ↦ inl (ground arith)
]

int_rejected-OutOfRange :
    (opt : ConfigOption) (z : ℤ) → OutOfRange opt z → int_rejected opt (read_as z) ≡ true
int_rejected-OutOfRange opt z o = elim (Fits-cases z) [
  | inr (_, beyond) ↦ rw beyond refl
  | inl fits ↦ rw (read_as-Fits z fits) (elim o [
    | inl h ↦ absurd (h fits)
    | inr (inl low) ↦ rw low refl
    | inr (inr high) ↦ rw high (ground arith)
  ])
]

-- For an option of integers, a printed number, with a minus sign or none, that no `long` holds or
-- that is outside the option's range is refused with -1, and nothing changes.
pub add_value_from_string-OutOfRange :
    (opt : ConfigOption) (z : ℤ) (m : Memory)
    → opt.type ≡ param_int
    → OutOfRange opt z
    → config_add_value_from_string opt (printed z) m ≡ (failure, opt, m)
add_value_from_string-OutOfRange opt z m t o =
    add_value_from_string-parsed opt (printed z) m (read_as z) t (strtol-printed z)
    ∙ rw (int_rejected-OutOfRange opt z o) refl

-- For an option of integers, memory granted, and a printed number, with a minus sign or none, that
-- fits a `long` and the option's range, 0 is returned and the number is added where the option has
-- room. Where it is full nothing is added, and 0 is returned all the same.
pub add_value_from_string-printed :
    (opt : ConfigOption) (z : ℤ) (m : Memory)
    → opt.type ≡ param_int
    → m.grants m.calls ≡ true
    → Fits z
    → ltb_ℤ z opt.value_min ≡ false
    → ltb_ℤ opt.value_max z ≡ false
    → ((config_add_value_from_string opt (printed z) m).0 ≡ success)
      × ((config_add_value_from_string opt (printed z) m).1
          ≡ (if is_full opt then opt else insert_tail opt (int_value z)))
add_value_from_string-printed opt z m t g fits low high =
    let call =
      add_value_from_string-parsed opt (printed z) m (parsed z false []) t
        (strtol-printed z ∙ read_as-Fits z fits) in
    rw (call, low, high) (refl, opt_add_value_int-by_room opt z m t low high g)
