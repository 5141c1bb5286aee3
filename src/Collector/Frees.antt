-- ===== src/Collector/Frees.antt =====
-- Each scheduled object is freed once.
use rapp.Prelude.{==_iff}
use rapp.Prelude.{◌∙◌, if_cases}
use rapp.Prelude.{
  ℕ, ◌+◌, ◌≤◌, ◌≡◌, refl, Bool, true, false, List, [], ◌∷◌, arith, ◌==◌, if◌then◌else◌, length,
  Memory, memory_create, memory_destroy, Bool-cases, inl, inr,
}
use rapp.Prelude.Granted.{Granted, create-Grown}
use rapp.Collector.{
  CollectEntry, Collector, is_scheduled, collector_schedule_free, collect, collector_collect,
}

-- An object with the function to free it.
abbrev Request : Type 0
Request = ℕ × ℕ

unfoldable pub schedule_all : Collector → List Request → Memory → Collector × Memory
unfolding collector_schedule_free
schedule_all c [] m = (c, m)
schedule_all c ((free_func, object) ∷ rs) m =
    let (_, c', m') = collector_schedule_free c free_func object m in schedule_all c' rs m'

-- The calls of the free functions, the latest first.
abbrev pub logged : ℕ → ℕ → List Request → List Request
logged free_func object log = (free_func, object) ∷ log

unfoldable pub times : ℕ → List Request → ℕ
times object [] = 0
times object ((f, d) ∷ rs) = (if d == object then 1 else 0) + times object rs

-- 1 for an object that is asked for at least once.
unfoldable pub once : ℕ → List Request → ℕ
once object [] = 0
once object ((f, d) ∷ rs) = let rest = once object rs in if d == object then 1 else rest

unfoldable elem : ℕ → List ℕ → Bool
elem x [] = false
elem x (y ∷ ys) = if y == x then true else elem x ys

-- The requests but for those of an object that was asked for before.
unfoldable pub firsts : List ℕ → List Request → List Request
unfolding elem
firsts seen [] = []
firsts seen ((f, d) ∷ rs) =
    let others = firsts seen rs in
    let later = firsts (d ∷ seen) rs in if elem d seen then others else (f, d) ∷ later

abbrev objects : List CollectEntry → List ℕ
objects [] = []
objects (e ∷ es) = e.object ∷ objects es

is_scheduled-elem : (es : List CollectEntry) (d : ℕ) → is_scheduled es d ≡ elem d (objects es)
unfolding is_scheduled elem
is_scheduled-elem [] d = refl
is_scheduled-elem (e ∷ es) d = rw (is_scheduled-elem es d) refl

-- The log of a collection of these entries, where `log` is the log before it.
abbrev collected : List CollectEntry → List Request → List Request
collected [] log = log
collected (e ∷ es) log = collected es ((e.free_func, e.object) ∷ log)

collect-collected :
    (es : List CollectEntry) (log : List Request) (m : Memory)
    → length es ≤ m.live
    → ((collect logged es log m).0 ≡ collected es log)
      × ((collect logged es log m).1.live + length es ≡ m.live)
unfolding collect memory_destroy
collect-collected [] log m h = (refl, omega arith)
collect-collected (e ∷ es) log m h =
    let (l, n) =
      collect-collected es (logged e.free_func e.object log) (memory_destroy m) (omega arith) in
    (l, omega (arith, n))

schedule_all-collected :
    (c : Collector) (rs : List Request) (m : Memory)
    → Granted m
    → (c' : Collector) × (m' : Memory) × (schedule_all c rs m ≡ (c', m'))
      × (collected c'.collect_entries_list []
          ≡ collected c.collect_entries_list (firsts (objects c.collect_entries_list) rs))
      × (m'.live + length c.collect_entries_list ≡ m.live + length c'.collect_entries_list)
unfolding schedule_all collector_schedule_free firsts
schedule_all-collected c [] m g = (c, m, refl, refl, refl)
schedule_all-collected c ((f, d) ∷ rs) m g =
    elim (Bool-cases (is_scheduled c.collect_entries_list d)) [
      | inl t ↦
          let (c', m', e, l, n) = schedule_all-collected c rs m g in
          let t' = rw (is_scheduled-elem c.collect_entries_list d) at t in
          (c', m', rw (t, e) refl, rw (t', l) refl, n)
      | inr t ↦
          let (got, grown) = create-Grown m g in
          let added : Collector = record {
            collect_entries_list = record { free_func = f; object = d } ∷ c.collect_entries_list;
          } in
          let (c', m', e, l, n) =
            schedule_all-collected added rs (memory_create m).1 grown.grants in
          let t' = rw (is_scheduled-elem c.collect_entries_list d) at t in
          (c', m', rw (t, got, e) refl, rw (t', l) refl, omega (arith, n, grown.live))
    ]

-- Objects are scheduled, memory granted, and then collected: the calls are those of the first
-- request of each object, the one requested first last (the log has the latest call first), the
-- collector is empty and the entries' blocks are free.
pub schedule_all-collect :
    (rs : List Request) (m : Memory)
    → Granted m
    → (let (c, m') = schedule_all (record { collect_entries_list = [] }) rs m in
        let (c', log, m'') = collector_collect logged c [] m' in
        (c'.collect_entries_list ≡ []) × (log ≡ firsts [] rs) × (m''.live ≡ m.live))
unfolding collector_collect
schedule_all-collect rs m g =
    let (c, m', e, l, n) = schedule_all-collected (record { collect_entries_list = [] }) rs m g in
    let (q, k) = collect-collected c.collect_entries_list [] m' (omega (arith, n)) in
    rw e (refl, q ∙ l, omega (arith, n, k))

times-firsts :
    (object : ℕ) (seen : List ℕ) (rs : List Request)
    → times object (firsts seen rs) ≡ (if elem object seen then 0 else once object rs)
unfolding times firsts once elem
times-firsts object seen [] = if_cases (λ n. 0 ≡ n) (elem object seen) (λ t. refl) (λ t. refl)
times-firsts object seen ((f, d) ∷ rs) = elim (Bool-cases (elem d seen)) [
  | inl t ↦ elim (Bool-cases (d == object)) [
    | inl q ↦
        let p : elem object seen ≡ true = rw ((==_iff d object).0 q) at t in
        let ih = times-firsts object seen rs in rw (t, p) (rw p at ih)
    | inr q ↦ rw (t, q) (times-firsts object seen rs)
  ]
  | inr t ↦
      let ih = times-firsts object (d ∷ seen) rs in
      elim (Bool-cases (d == object)) [
        | inl q ↦
            let p : elem object seen ≡ false = rw ((==_iff d object).0 q) at t in
            let none_later = rw q at ih in rw (t, q, p) (omega (arith, none_later))
        | inr q ↦ let same = rw q at ih in rw (t, q) (omega (arith, same))
      ]
]

-- Objects are scheduled, memory granted, and then collected: each object is freed exactly once if
-- it was scheduled at all, however often, and never if it was not.
schedule_all-once :
    (rs : List Request) (m : Memory) (object : ℕ)
    → Granted m
    → (let (c, m') = schedule_all (record { collect_entries_list = [] }) rs m in
        times object (collector_collect logged c [] m').1 ≡ once object rs)
unfolding elem
schedule_all-once rs m object g = rw (schedule_all-collect rs m g).1 (times-firsts object [] rs)
