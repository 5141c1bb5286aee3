-- ===== src/Eloop/Turn.antt =====
-- `event_loop_run` of src/eloop.c. An event points to an entry by its address; the entry is read
-- again for each kind of event, and reading one that was unlinked, and so freed, is a fault. What a callback does is the parameter `call`: it gets the callback, the descriptor and the
-- data, and changes the loop and the rest of the program.
use rapp.Prelude.{
  ℕ, Bool, true, Option, none, some, List, [], ◌∷◌, ◌==◌, if◌then◌else◌, ℤ, negsuc, Memory,
}
use rapp.Prelude.Run.{Run, done, fault, ◌>>=◌}
use rapp.Collector.{collector_collect}
use rapp.Eloop.{
  ELoop, ELoopCallback, ELoopWatchFdCallbackType, eloop_callback_read, eloop_callback_write,
  eloop_callback_close, Slots, get,
}

-- The flags of an event and the address of its entry.
pub record EpollEvent : Type 0 where
  pub events : Slots Bool
  pub ptr : ℕ

-- What stands at an address: an entry of the list.
unfoldable pub entry_at : List ELoopCallback → ℕ → Option ELoopCallback
entry_at [] address = none
entry_at (ec ∷ ecs) address = if ec.address == address then some ec else entry_at ecs address

abbrev pub entry_of : ELoop → ℕ → Run ELoopCallback
entry_of el address = elim (entry_at el.callbacks_list address) [ none ↦ fault | some ec ↦ done ec ]

module _ {W : Type 0} (call : ℕ → ℕ → Option ℕ → ELoop × W → ELoop × W) where
  abbrev pub call_back : ELoopWatchFdCallbackType → ELoop × W → ELoopCallback → ELoop × W
  call_back t s ec = elim (get ec.callbacks t) [
    | none ↦ s
    | some callback ↦ call callback ec.fd (get ec.datas t) s
  ]

  -- `if (events[i].events & ... && eloop_callback->callbacks[...])`.
  unfoldable pub on_event : ELoopWatchFdCallbackType → EpollEvent → ELoop × W → Run (ELoop × W)
  unfolding entry_at
  on_event t event s =
      if get event.events t
      then (entry_of s.0 event.ptr >>= λ ec. done (call_back t s ec))
      else done s

  unfoldable pub dispatch : EpollEvent → ELoop × W → Run (ELoop × W)
  unfolding on_event
  dispatch event s = on_event eloop_callback_close event s >>= λ s₁.
      on_event eloop_callback_read event s₁ >>= λ s₂. on_event eloop_callback_write event s₂

  unfoldable pub dispatch_all : List EpollEvent → ELoop × W → Run (ELoop × W)
  unfolding dispatch
  dispatch_all [] s = done s
  dispatch_all (e ∷ es) s = dispatch e s >>= λ s'. dispatch_all es s'

  module _ (free : ℕ → ℕ → W → W) where
    abbrev pub collected : ELoop × W → Memory → (ELoop × W) × Memory
    collected (el, w) m =
        let (c, w', m') = collector_collect free el.collector w m in
        ((record el { collector = c }, w'), m')

    -- The loop over what `epoll_wait` gives, turn by turn, until it fails or the loop is stopped:
    -- -1 comes back.
    unfoldable pub event_loop_turns :
        List (List EpollEvent) → ELoop × W → Memory → Run (ℤ × (ELoop × W) × Memory)
    unfolding dispatch_all collector_collect
    event_loop_turns [] s m = done (negsuc 0, s, m)
    event_loop_turns (es ∷ turns) s m =
        if s.0.running
        then (dispatch_all es s >>= λ s'.
            let (s'', m') = collected s' m in event_loop_turns turns s'' m')
        else done (negsuc 0, s, m)

    unfoldable pub event_loop_run :
        List (List EpollEvent) → ELoop × W → Memory → Run (ℤ × (ELoop × W) × Memory)
    unfolding event_loop_turns
    event_loop_run turns (el, w) m = event_loop_turns turns (record el { running = true }, w) m
