-- ===== src/Eloop/Dispatch.antt =====
-- When a turn of the loop reads only entries that are still there, and when it does not; how many
-- turns are run.
use rapp.Prelude.{
  ℕ, ◌≡◌, true, false, Option, some, List, [], ◌∷◌, All, ◌⊎◌, ◌==◌, Bool-cases, inl, inr, Memory,
}
use rapp.Prelude.Run.{done}
use rapp.Eloop.{ELoop, ELoopCallback, unlink_callback}
use rapp.Eloop.Turn.{EpollEvent, entry_at, dispatch_all, collected}

-- At this address stands an entry of this descriptor.
abbrev pub Live : ELoop → ℕ → ℕ → Type 0
Live el address fd =
    (ec : ELoopCallback) × (entry_at el.callbacks_list address ≡ some ec) × (ec.fd ≡ fd)

-- Not more than one kind of event is reported.
abbrev pub Single : EpollEvent → Type 0
Single e =
    ((e.events.close ≡ false) × (e.events.read ≡ false))
    ⊎ ((e.events.close ≡ false) × (e.events.write ≡ false))
    ⊎ ((e.events.read ≡ false) × (e.events.write ≡ false))

-- The events of a turn are those of entries in the list, of one kind each, and of these different
-- descriptors.
abbrev pub Ready : ELoop → List EpollEvent → List ℕ → Type 0
Ready el [] [] = Unit
Ready el (e ∷ es) (fd ∷ fds) =
    Live el e.ptr fd × Single e × All (λ other. (other == fd) ≡ false) fds × Ready el es fds
Ready el _ _ = ⊥

module _ {W : Type 0} (call : ℕ → ℕ → Option ℕ → ELoop × W → ELoop × W) where
  abbrev Kept : ℕ → ELoop × W → ELoop × W → Type 0
  Kept fd s s' =
      (address other : ℕ) → Live s.0 address other → (other == fd) ≡ false → Live s'.0 address other

  -- A callback frees no entry but that of the descriptor it is called for.
  abbrev pub OwnOnly : Type 0
  OwnOnly =
      (callback fd : ℕ) (datum : Option ℕ) (s : ELoop × W) (address other : ℕ)
      → Live s.0 address other
      → (other == fd) ≡ false
      → Live (call callback fd datum s).0 address other

  module _ (free : ℕ → ℕ → W → W) where
    -- The turns of the loop: none where it is stopped or `epoll_wait` fails, else one with its
    -- events and the collection behind them, and then those that follow.
    pub data Ran : List (List EpollEvent) → ELoop × W → Memory → ELoop × W → Memory → Type 0 where
      failed : (s : ELoop × W) (m : Memory) → Ran [] s m s m
      stopped :
          (turns : List (List EpollEvent)) (s : ELoop × W) (m : Memory)
          → s.0.running ≡ false
          → Ran turns s m s m
      turned :
          (es : List EpollEvent) (turns : List (List EpollEvent)) (s s₁ s' : ELoop × W)
          (m m' : Memory)
          → s.0.running ≡ true
          → dispatch_all call es s ≡ done s₁
          → Ran turns (collected call free s₁ m).0 (collected call free s₁ m).1 s' m'
          → Ran (es ∷ turns) s m s' m'

    -- What `epoll_wait` gives is ready at each turn that is run.
    abbrev pub Served : List (List EpollEvent) → ELoop × W → Memory → Type 0
    Served [] s m = Unit
    Served (es ∷ turns) s m =
        s.0.running ≡ true
        → ((fds : List ℕ) × Ready s.0 es fds)
          × ((s₁ : ELoop × W)
              → dispatch_all call es s ≡ done s₁
              → Served turns (collected call free s₁ m).0 (collected call free s₁ m).1)

-- Unlinking the entry of a descriptor frees no other.
pub unlink-Live :
    (ecs : List ELoopCallback) (fd address : ℕ) (ec : ELoopCallback)
    → entry_at ecs address ≡ some ec
    → (ec.fd == fd) ≡ false
    → entry_at (unlink_callback ecs fd) address ≡ some ec
unfolding entry_at unlink_callback
unlink-Live [] fd address ec e n = cc
unlink-Live (x ∷ ecs) fd address ec e n = elim (Bool-cases (x.address == address)) [
  | inl a ↦
      let q : some x ≡ some ec = rw a at e in
      let p : x ≡ ec = cc in let other : (x.fd == fd) ≡ false = rw p n in rw (other, a) q
  | inr a ↦
      let e' = rw a at e in
      elim (Bool-cases (x.fd == fd)) [
        | inl f ↦ rw f e'
        | inr f ↦ rw (f, a) (unlink-Live ecs fd address ec e' n)
      ]
]
