-- ===== src/Prelude/Run.antt =====
-- The outcome of code that may read or write outside its blocks: `fault` is undefined behaviour.
use Prim.Native.Nat.{ℕ, ◌+◌}
use mathlib.Core.Path.{◌≡◌, refl}
use mathlib.Core.List.{List, ◌++◌}
use rapp.Prelude.Tests.{leb, if◌then◌else◌}
use rapp.Prelude.Lists.{length, take, drop}

pub data Run {ℓ} (A : Type ℓ) : Type ℓ where
  done : A → Run A
  fault : Run A

infixl 5 ◌>>=◌
abbrev pub ◌>>=◌ {ℓ κ} : {A : Type ℓ} {B : Type κ} → Run A → (A → Run B) → Run B
done a >>= f = f a
fault >>= f = fault

-- `memcpy(dest, &block[offset], length)` reads these bytes of the block.
abbrev pub read_block : List ℕ → ℕ → ℕ → Run (List ℕ)
read_block block offset n =
    if leb (offset + n) (length block) then done (take n (drop offset block)) else fault

-- `memcpy(&block[offset], bytes, length(bytes))` replaces them.
abbrev pub write_block : List ℕ → ℕ → List ℕ → Run (List ℕ)
write_block block offset bytes =
    if leb (offset + length bytes) (length block)
    then done (take offset block ++ (bytes ++ drop (offset + length bytes) block))
    else fault

pub >>=-assoc {ℓ κ μ} :
    {A : Type ℓ} {B : Type κ} {C : Type μ} (x : Run A) (f : A → Run B) (g : B → Run C)
    → (x >>= f >>= g) ≡ (x >>= λ a. f a >>= g)
>>=-assoc (done a) f g = refl
>>=-assoc fault f g = refl
