-- ===== src/Prelude/Decimal.antt =====
-- The decimal digits that `%d` and `%lu` print of a number.
use Prim.Native.Nat.{ℕ, zero, suc, ◌+◌, ◌*◌, ◌/◌, ◌%◌, ◌<◌}
use mathlib.Core.Path.{◌≡◌, refl, ap, ◌∙◌}
use mathlib.Core.Bool.{true}
use mathlib.Core.List.{[], ◌∷◌}
use native.Mathlib.Omega.{arith}
use rapp.Prelude.Tests.{ltb, if◌then◌else◌, if_cases}
use rapp.Prelude.CString.{Text, is_digit}

abbrev pub digit : ℕ → ℕ
digit n = b'0' + n % 10

-- The digits of `n` in front of `acc`. The fuel exceeds `n`, which loses a digit each time.
unfoldable pub digits : ℕ → ℕ → Text → Text
digits zero n acc = acc
digits (suc f) n acc =
    let rest = digits f (n / 10) (digit n ∷ acc) in if ltb n 10 then digit n ∷ acc else rest

unfoldable pub decimal : ℕ → Text
unfolding digits
decimal n = digits (suc n) n []

-- Reading the digits from the left, `step` rebuilds `n`.
digits-fold {ℓ} :
    {A : Type ℓ} (read : ℕ → Text → A)
    → ((a n : ℕ) (t : Text) → read a (digit n ∷ t) ≡ read (10 * a + n % 10) t)
    → (f n : ℕ) (acc : Text) → n < f
    → read 0 (digits f n acc) ≡ read n acc
unfolding digits
digits-fold read step zero n acc h = elim h [ ]
digits-fold read step (suc f) n acc h =
    if_cases (λ (t : Text). read 0 t ≡ read n acc) (ltb n 10)
      (λ e. step 0 n acc ∙ ap (λ k. read k acc) (ground arith))
      (λ e.
        digits-fold read step f (n / 10) (digit n ∷ acc) (ground arith)
        ∙ (step (n / 10) n acc ∙ ap (λ k. read k acc) (omega arith)))

digits-head :
    (f n : ℕ) (acc : Text)
    → (c : ℕ) × (cs : Text) × (digits (suc f) n acc ≡ c ∷ cs) × (is_digit c ≡ true)
unfolding digits
digits-head zero n acc =
    if_cases (λ (t : Text). (c : ℕ) × (cs : Text) × (t ≡ c ∷ cs) × (is_digit c ≡ true)) (ltb n 10)
      (λ e. (digit n, acc, refl, ground arith)) (λ e. (digit n, acc, refl, ground arith))
digits-head (suc f) n acc =
    if_cases (λ (t : Text). (c : ℕ) × (cs : Text) × (t ≡ c ∷ cs) × (is_digit c ≡ true)) (ltb n 10)
      (λ e. (digit n, acc, refl, ground arith)) (λ e. digits-head f (n / 10) (digit n ∷ acc))

-- A printed number begins with a digit.
pub decimal-head : (n : ℕ) → (c : ℕ) × (cs : Text) × (decimal n ≡ c ∷ cs) × (is_digit c ≡ true)
unfolding decimal
decimal-head n = digits-head n n []

pub decimal-fold {ℓ} :
    {A : Type ℓ} (read : ℕ → Text → A)
    → ((a n : ℕ) (t : Text) → read a (digit n ∷ t) ≡ read (10 * a + n % 10) t)
    → (n : ℕ) → read 0 (decimal n) ≡ read n []
unfolding decimal
decimal-fold read step n = digits-fold read step (suc n) n [] (omega arith)

decimal_8080 : decimal 8080 ≡ b'8' ∷ b'0' ∷ b'8' ∷ b'0' ∷ []
unfolding decimal
decimal_8080 = refl
