-- ===== src/Prelude/Granted.antt =====
-- The allocator where every request is granted.
use Prim.Native.Nat.{ℕ, suc, ◌+◌}
use mathlib.Core.Path.{◌≡◌, refl}
use mathlib.Core.Bool.{Bool, true, false}
use native.Mathlib.Omega.{arith}
use rapp.Prelude.Tests.{if◌then◌else◌}
use rapp.Prelude.Alloc.{Memory, memory_create, memory_resize, memory_asprintf}

abbrev pub Granted : Memory → Type 0
Granted m = (n : ℕ) → m.grants n ≡ true

pub record Grown (m m' : Memory) : Type 0 where
  pub grants : Granted m'
  pub live : m'.live ≡ suc m.live

pub create-Grown :
    (m : Memory) → Granted m → ((memory_create m).0 ≡ true) × Grown m (memory_create m).1
unfolding memory_create
create-Grown m g = rw (g m.calls) (refl, record { grants = g; live = refl })

pub asprintf-Grown :
    (m : Memory) → Granted m → ((memory_asprintf m).0 ≡ true) × Grown m (memory_asprintf m).1
unfolding memory_asprintf
asprintf-Grown m g = create-Grown m g

pub resize-Granted :
    (held : Bool) (m : Memory)
    → Granted m
    → ((memory_resize held m).0 ≡ true)
      × Granted (memory_resize held m).1
      × ((memory_resize held m).1.live + (if held then 1 else 0) ≡ m.live + 1)
unfolding memory_resize
resize-Granted true m g = (g m.calls, g, refl)
resize-Granted false m g =
    let (e, grown) = create-Grown m g in (e, grown.grants, omega (arith, grown.live))

-- A refused request frees nothing.
pub resize-refused :
    (held : Bool) (m : Memory)
    → (memory_resize held m).0 ≡ false
    → (memory_resize held m).1.live ≡ m.live
unfolding memory_resize memory_create
resize-refused true m e = refl
resize-refused false m e = ground arith
