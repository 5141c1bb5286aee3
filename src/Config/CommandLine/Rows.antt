-- ===== src/Config/CommandLine/Rows.antt =====
-- Where the table holds the entry of an option.
use rapp.Prelude.{
  ℕ, zero, suc, ◌+◌, ◌<◌, ◌≡◌, refl, ◌∙◌, ap, some, List, [], ◌∷◌, ◌++◌, arith, length, get_elem?,
  get_elem?-append_left, Text,
}
use native.Mathlib.Nat.{zero-add, suc-add}
use rapp.Config.{ConfigOption, ConfigSection}
use rapp.Config.CommandLine.{Place}
use rapp.Config.CommandLine.Table.{Row, entry_of, option_rows, section_rows, length-option_rows}

get_elem?-append_right {ℓ} :
    {A : Type ℓ} (xs ys : List A) (i : ℕ) → get_elem? (xs ++ ys) (length xs + i) ≡ get_elem? ys i
get_elem?-append_right [] ys i = rw zero-add
get_elem?-append_right (x ∷ xs) ys i = rw suc-add (get_elem?-append_right xs ys i)

pub get_elem?-lt {ℓ} :
    {A : Type ℓ} (xs : List A) (i : ℕ) (a : A) → get_elem? xs i ≡ some a → i < length xs
get_elem?-lt [] i a e = cc
get_elem?-lt (x ∷ xs) zero a e = omega arith
get_elem?-lt (x ∷ xs) (suc i) a e = omega (arith, get_elem?-lt xs i a e)

-- The row of an option whose place is this one, at this index of the table.
abbrev pub row_of : Text → ℕ → ℕ → ConfigOption → Place → Row
row_of section group index o p = (entry_of section group index o, some p)

get_elem?-option_rows :
    (section : Text) (group i j index n k q : ℕ) (os : List ConfigOption) (o : ConfigOption)
    → get_elem? os q ≡ some o
    → n ≡ index + q
    → k ≡ j + q
    → get_elem? (option_rows section group i j index os) q
      ≡ some (row_of section group n o (record { section = i; entry = k }))
unfolding option_rows
get_elem?-option_rows section group i j index n k q [] o h e f = cc
get_elem?-option_rows section group i j index n k zero (x ∷ os) o h e f =
    let same : x ≡ o = cc in
    let e' : n ≡ index = omega arith in
    let f' : k ≡ j = omega arith in
    rw (e', f')
      (ap
        (λ (z : ConfigOption).
          some (row_of section group index z (record { section = i; entry = j })))
        same)
get_elem?-option_rows section group i j index n k (suc q) (x ∷ os) o h e f =
    get_elem?-option_rows section group i (suc j) (suc index) n k q os o h (omega arith)
      (omega arith)

-- The option with number `q` of the section with number `a` among those from number `i` on.
pub get_elem?-section_rows :
    (i index a b q : ℕ) (ss : List ConfigSection) (s : ConfigSection) (o : ConfigOption)
    → get_elem? ss a ≡ some s
    → get_elem? s.options q ≡ some o
    → b ≡ i + a
    → (n : ℕ) × (k : ℕ) × (k ≡ index + n)
      × (get_elem? (section_rows i index ss) n
          ≡ some (row_of s.name (suc b) k o (record { section = b; entry = q })))
unfolding section_rows
get_elem?-section_rows i index a b q [] s o h f e = cc
get_elem?-section_rows i index zero b q (x ∷ ss) s o h f e =
    let same : x ≡ s = cc in
    let e' : b ≡ i = omega arith in
    let f' : get_elem? x.options q ≡ some o = rw same f in
    let found =
      get_elem?-option_rows x.name (suc i) i 0 (suc index) (suc index + q) q q x.options o f' refl
        (omega arith) in
    let rows = option_rows x.name (suc i) i 0 (suc index) x.options in
    (
      suc q,
      suc index + q,
      omega arith,
      rw (e', ← same)
          (get_elem?-append_left rows (section_rows (suc i) (suc index + length x.options) ss) q
              (get_elem?-lt rows q _ found)
            ∙ found),
    )
get_elem?-section_rows i index (suc a) b q (x ∷ ss) s o h f e =
    let rows = option_rows x.name (suc i) i 0 (suc index) x.options in
    let (n, k, c, found) =
      get_elem?-section_rows (suc i) (suc index + length x.options) a b q ss s o h f
        (omega arith) in
    (
      suc (length rows + n),
      k,
      omega (arith, c, length-option_rows x.name (suc i) i 0 (suc index) x.options),
      get_elem?-append_right rows (section_rows (suc i) (suc index + length x.options) ss) n
          ∙ found,
    )
