-- ===== src/Eloop/Lifetime.antt =====
-- Making and freeing the loop, in src/eloop.c. What `epoll_create` returns and what `close` does to
-- the kernel's state are parameters.
use rapp.Prelude.{
  ℕ, Bool, false, not, none, some, [], if◌then◌else◌, Memory, memory_create, memory_destroy,
}
use rapp.Collector.{collector_new, collector_destroy}
use rapp.Eloop.{ELoop}

-- No loop, a loop without a collector, or a loop.
data NewLoop : Type 0 where
  refused bare : NewLoop
  made : ELoop → NewLoop

-- `created` is false where `epoll_create` fails; the block of the loop stays in use then.
unfoldable event_loop_new : Bool → Memory → NewLoop × Memory
unfolding memory_create collector_new
event_loop_new created m =
    let (got, m₁) = memory_create m in
    if not got
    then (refused, m₁)
    else if not created
    then (refused, m₁)
    else let (collector, m₂) = collector_new m₁ in
      elim collector [
        | none ↦ (bare, m₂)
        | some c ↦ (made (record { collector = c; callbacks_list = []; running = false }), m₂)
      ]

-- The entries of the watches that are left stay in use.
unfoldable event_loop_destroy {ℓ κ} :
    {W : Type ℓ} {K : Type κ} (call : ℕ → ℕ → W → W) (close : K → K)
    → ELoop
    → W
    → K
    → Memory
    → W × K × Memory
unfolding collector_destroy memory_destroy
event_loop_destroy call close el w k m =
    let (w', m') = collector_destroy call el.collector w m in (w', close k, memory_destroy m')
