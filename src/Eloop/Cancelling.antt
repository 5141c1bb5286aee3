-- ===== src/Eloop/Cancelling.antt =====
-- A watch that is added, or fails to be, and is then removed.
use rapp.Prelude.{
  ℕ, ◌≡◌, refl, ◌∙◌, Bool, false, ◌&&◌, Option, none, ◌==◌, if◌then◌else◌, if_cases, ℤ, Memory,
  generous, memory_create, Bool-cases, Option-cases, inl, inr,
}
use rapp.Eloop.{
  ELoop, ELoopWatchFdCallbackType, Slots, EpollOperation, find_callback_by_fd,
  event_loop_add_fd_watch, event_loop_remove_fd_watch,
}
use rapp.Eloop.Entries.{IsValid, watcher, same_type}
use rapp.Eloop.Validity.{add_fd_watch-IsValid}
use rapp.Eloop.Watches.{add_fd_watch-watcher, remove_fd_watch-watcher}

module _ {K : Type 0} (epoll_ctl : EpollOperation → ℕ → Option (Slots Bool) → K → ℤ × K)
    (el : ELoop) (fd : ℕ) (t : ELoopWatchFdCallbackType) where
  -- Without memory nothing is added; else the loop is that of memory that is all granted.
  add_fd_watch-loop :
      (P : ELoop → Type 0) (callback : ℕ) (datum : Option ℕ) (k : K) (m : Memory)
      → P el
      → P
          (event_loop_add_fd_watch epoll_ctl el fd t callback datum k
            (record generous { calls = m.calls })).1
      → P (event_loop_add_fd_watch epoll_ctl el fd t callback datum k m).1
  unfolding event_loop_add_fd_watch memory_create
  add_fd_watch-loop P callback datum k m p q =
      elim (Option-cases (find_callback_by_fd el.callbacks_list fd)) [
        | inl e ↦ elim (Bool-cases (m.grants m.calls)) [
          | inl g ↦ rw (e, event_loop_add_fd_watch, g) (rw (e, event_loop_add_fd_watch) at q)
          | inr g ↦ rw (e, event_loop_add_fd_watch, g) p
        ]
        | inr (ec, e) ↦ rw (e, event_loop_add_fd_watch) (rw (e, event_loop_add_fd_watch) at q)
      ]

  add_fd_watch-other :
      (callback : ℕ) (datum : Option ℕ) (k : K) (m : Memory) (x : ℕ) (u : ELoopWatchFdCallbackType)
      → ((fd == x) && same_type t u) ≡ false
      → watcher (event_loop_add_fd_watch epoll_ctl el fd t callback datum k m).1 x u
        ≡ watcher el x u
  add_fd_watch-other callback datum k m x u h =
      add_fd_watch-loop (λ el'. watcher el' x u ≡ watcher el x u) callback datum k m refl
        (add_fd_watch-watcher epoll_ctl el fd t k (record generous { calls = m.calls }) callback
            datum x u (λ n. refl)
          ∙ rw h refl)

  -- Afterwards nothing watches that event of that descriptor, and every other event of every
  -- descriptor is watched as before.
  pub remove-add_fd_watch :
      (callback : ℕ) (datum : Option ℕ) (k k' : K) (m m' : Memory) (x : ℕ)
      (u : ELoopWatchFdCallbackType)
      → IsValid el
      → (let (_, el', _, _) = event_loop_add_fd_watch epoll_ctl el fd t callback datum k m in
          let (_, el'', _, _) = event_loop_remove_fd_watch epoll_ctl el' fd t k' m' in
          watcher el'' x u ≡ (if (fd == x) && same_type t u then (none, none) else watcher el x u))
  remove-add_fd_watch callback datum k k' m m' x u v =
      let el' = (event_loop_add_fd_watch epoll_ctl el fd t callback datum k m).1 in
      remove_fd_watch-watcher epoll_ctl el' fd t k' m' x u
        (add_fd_watch-IsValid epoll_ctl el fd t k m callback datum v)
      ∙ if_cases
          (λ (w : Option ℕ × Option ℕ).
            w ≡ (if (fd == x) && same_type t u then (none, none) else watcher el x u))
          ((fd == x) && same_type t u) (λ h. rw h refl)
          (λ h. rw h (add_fd_watch-other callback datum k m x u h))
