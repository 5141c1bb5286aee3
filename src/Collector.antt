-- ===== src/Collector.antt =====
-- src/collector.c: objects to be freed after the events of a turn. `free_func` and `object` (the field `data`) are
-- addresses. What a free function does to the rest of the program is the parameter `call`; none of
-- them schedules anything itself.
pub mod Frees
use rapp.Prelude.{
  ℕ, Bool, true, false, List, [], ◌∷◌, ◌==◌, if◌then◌else◌, Option, none, some, Memory,
  memory_create, memory_destroy,
}

pub record CollectEntry : Type 0 where
  pub free_func : ℕ
  pub object : ℕ

pub record Collector : Type 0 where
  pub collect_entries_list : List CollectEntry

unfoldable pub collector_new : Memory → Option Collector × Memory
unfolding memory_create
collector_new m =
    let (got, m') = memory_create m in
    (if got then some (record { collect_entries_list = [] }) else none, m')

-- The loop that looks for an object that was added before.
unfoldable pub is_scheduled : List CollectEntry → ℕ → Bool
is_scheduled [] object = false
is_scheduled (e ∷ es) object = if e.object == object then true else is_scheduled es object

-- The first component is false for the return of -1.
unfoldable pub collector_schedule_free : Collector → ℕ → ℕ → Memory → Bool × Collector × Memory
unfolding is_scheduled memory_create
collector_schedule_free c free_func object m =
    if is_scheduled c.collect_entries_list object
    then (true, c, m)
    else let (got, m') = memory_create m in
      if got
      then (
        true,
        record {
          collect_entries_list =
              record { free_func = free_func; object = object } ∷ c.collect_entries_list;
        },
        m',
      )
      else (false, c, m')

module _ {ℓ} {W : Type ℓ} (call : ℕ → ℕ → W → W) where
  unfoldable pub collect : List CollectEntry → W → Memory → W × Memory
  unfolding memory_destroy
  collect [] w m = (w, m)
  collect (e ∷ es) w m = collect es (call e.free_func e.object w) (memory_destroy m)

  unfoldable pub collector_collect : Collector → W → Memory → Collector × W × Memory
  unfolding collect
  collector_collect c w m =
      let (w', m') = collect c.collect_entries_list w m in
      (record { collect_entries_list = [] }, w', m')

  unfoldable pub collector_destroy : Collector → W → Memory → W × Memory
  unfolding collector_collect memory_destroy
  collector_destroy c w m = let (_, w', m') = collector_collect c w m in (w', memory_destroy m')
