-- ===== src/Prelude/Alloc.antt =====
-- src/memory.c: the allocator as the program sees it. Whether a request succeeds is the
-- environment's choice, so `grants` answers the n-th request; `live` counts the blocks in use.
use Prim.Native.Nat.{ℕ, suc, ◌-◌}
use mathlib.Core.Bool.{Bool, true, false}
use rapp.Prelude.Tests.{if◌then◌else◌}

pub record Memory : Type 0 where
  pub grants : ℕ → Bool
  pub calls : ℕ
  pub live : ℕ

-- `calloc(1, size)`: true is a fresh block, false is `NULL`.
unfoldable pub memory_create : Memory → Bool × Memory
memory_create m =
    if m.grants m.calls
    then (true, record m { calls = suc m.calls; live = suc m.live })
    else (false, record m { calls = suc m.calls })

-- `strdup` takes one block too.
unfoldable pub memory_strdup : Memory → Bool × Memory
unfolding memory_create
memory_strdup m = memory_create m

-- `vasprintf` takes one block for the text that it formats.
unfoldable pub memory_asprintf : Memory → Bool × Memory
unfolding memory_create
memory_asprintf m = memory_create m

-- `realloc` of a block, or of `NULL` (`held` false): when it fails the old block stays.
unfoldable pub memory_resize : Bool → Memory → Bool × Memory
unfolding memory_create
memory_resize false m = memory_create m
memory_resize true m = (m.grants m.calls, record m { calls = suc m.calls })

-- `free` of a block.
unfoldable pub memory_destroy : Memory → Memory
memory_destroy m = record m { live = m.live - 1 }

-- Every request is granted.
abbrev pub generous : Memory
generous = record { grants = λ _. true; calls = 0; live = 0 }
