-- ===== src/Eloop/Watches.antt =====
-- Which callback watches which event of which descriptor.
use rapp.Prelude.{sym, ◌∙◌}
use rapp.Eloop.{blank_callback}
use rapp.Prelude.{Option-cases, if_cases, ℤ}
use rapp.Prelude.{
  ℕ, ◌≡◌, refl, Bool, false, ◌&&◌, Option, none, some, arith, ◌==◌, if◌then◌else◌, Memory,
  Bool-cases, inl, inr, ==_iff,
}
use rapp.Prelude.Granted.{Granted, create-Grown}
use rapp.HttpResponse.{is_some}
use rapp.Eloop.{
  ELoop, ELoopCallback, ELoopWatchFdCallbackType, eloop_callback_read, eloop_callback_write,
  eloop_callback_close, Slots, get, put, find_callback_by_fd, watching, ignoring, any_event,
  event_loop_add_fd_watch, event_loop_remove_fd_watch, EpollOperation,
}
use rapp.Eloop.Entries.{
  Consistent, IsValid, slots_of, watcher, same_type, get-put, found-fd, find-change_self,
  find-change_ne, find-unlink_self, find-unlink_ne, found-Consistent,
}

blank-slots :
    (address : ℕ) (u : ELoopWatchFdCallbackType)
    → slots_of (some (blank_callback address)) u ≡ (none, none)
blank-slots address eloop_callback_read = refl
blank-slots address eloop_callback_write = refl
blank-slots address eloop_callback_close = refl

no_event-get :
    (s : Slots Bool) (u : ELoopWatchFdCallbackType) → any_event s ≡ false → get s u ≡ false
no_event-get s eloop_callback_read h = ground arith
no_event-get s eloop_callback_write h = ground arith
no_event-get s eloop_callback_close h = ground arith

not_is_some : (o : Option ℕ) → is_some o ≡ false → o ≡ none
not_is_some none h = refl
not_is_some (some a) h = cc

-- The last callback of an entry is the one for `t`, so the entry has none for another type.
last-slots :
    (ec : ELoopCallback) (t u : ELoopWatchFdCallbackType)
    → Consistent ec
    → any_event (ignoring ec t).events ≡ false
    → (if same_type t u then (none, none) else slots_of (some ec) u) ≡ (none, none)
last-slots ec t u c h =
    if_cases (λ x. x ≡ (none, none)) (same_type t u) (λ e. refl)
      (λ e.
        let p = no_event-get (put ec.events t false) u h in
        let q = get-put ec.events t u false in
        let r : get ec.events u ≡ false = sym (rw e at q) ∙ p in
        rw (not_is_some (get ec.callbacks u) (sym (c.flagged u) ∙ r), c.cleared u r) refl)

module _ {K : Type 0} (epoll_ctl : EpollOperation → ℕ → Option (Slots Bool) → K → ℤ × K)
    (el : ELoop) (fd : ℕ) (t : ELoopWatchFdCallbackType) (k : K) (m : Memory) where
  slots-watching :
      (ec : ELoopCallback) (callback : ℕ) (datum : Option ℕ) (u : ELoopWatchFdCallbackType)
      → slots_of (some (watching ec fd t callback datum)) u
        ≡ (if same_type t u then (some callback, datum) else slots_of (some ec) u)
  slots-watching ec callback datum u =
      rw (get-put ec.callbacks t u (some callback), get-put ec.datas t u datum)
        (if_cases
          (λ x.
            (
              if same_type t u then some callback else get ec.callbacks u,
              if same_type t u then datum else get ec.datas u,
            )
            ≡ x)
          (same_type t u) (λ e. rw e refl) (λ e. rw e refl))

  slots-ignoring :
      (ec : ELoopCallback) (u : ELoopWatchFdCallbackType)
      → slots_of (some (ignoring ec t)) u
        ≡ (if same_type t u then (none, none) else slots_of (some ec) u)
  slots-ignoring ec u =
      rw (get-put ec.callbacks t u none, get-put ec.datas t u none)
        (if_cases
          (λ x.
            (
              if same_type t u then none else get ec.callbacks u,
              if same_type t u then none else get ec.datas u,
            )
            ≡ x)
          (same_type t u) (λ e. rw e refl) (λ e. rw e refl))

  add-watcher_self :
      (callback : ℕ) (datum : Option ℕ) (u : ELoopWatchFdCallbackType)
      → Granted m
      → watcher (event_loop_add_fd_watch epoll_ctl el fd t callback datum k m).1 fd u
        ≡ (if same_type t u then (some callback, datum) else watcher el fd u)
  unfolding event_loop_add_fd_watch watcher find_callback_by_fd
  add-watcher_self callback datum u g =
      elim (Option-cases (find_callback_by_fd el.callbacks_list fd)) [
        | inl e ↦
            rw (e, event_loop_add_fd_watch, (create-Grown m g).0, (==_iff fd fd).1 refl)
              (rw (blank-slots m.calls u) at
                (slots-watching (blank_callback m.calls) callback datum u))
        | inr (ec, e) ↦
            rw
              (
                e,
                event_loop_add_fd_watch,
                find-change_self el.callbacks_list fd ec (watching ec fd t callback datum) e refl,
              )
              (slots-watching ec callback datum u)
      ]

  add-watcher_ne :
      (callback : ℕ) (datum : Option ℕ) (x : ℕ) (u : ELoopWatchFdCallbackType)
      → Granted m
      → (fd == x) ≡ false
      → watcher (event_loop_add_fd_watch epoll_ctl el fd t callback datum k m).1 x u
        ≡ watcher el x u
  unfolding event_loop_add_fd_watch watcher find_callback_by_fd
  add-watcher_ne callback datum x u g h =
      elim (Option-cases (find_callback_by_fd el.callbacks_list fd)) [
        | inl e ↦ rw (e, event_loop_add_fd_watch, (create-Grown m g).0, h) refl
        | inr (ec, e) ↦
            rw
              (
                e,
                event_loop_add_fd_watch,
                find-change_ne el.callbacks_list fd x (watching ec fd t callback datum) refl h,
              )
              refl
      ]

  -- Memory granted, the callback that is added watches its event of its descriptor, and every
  -- other event of every descriptor is watched as before, whatever the kernel answers.
  pub add_fd_watch-watcher :
      (callback : ℕ) (datum : Option ℕ) (x : ℕ) (u : ELoopWatchFdCallbackType)
      → Granted m
      → watcher (event_loop_add_fd_watch epoll_ctl el fd t callback datum k m).1 x u
        ≡ (if (fd == x) && same_type t u then (some callback, datum) else watcher el x u)
  add_fd_watch-watcher callback datum x u g = elim (Bool-cases (fd == x)) [
    | inl q ↦ rw (q, ← (==_iff fd x).0 q) (add-watcher_self callback datum u g)
    | inr q ↦ rw q (add-watcher_ne callback datum x u g q)
  ]

  remove-watcher_self :
      (u : ELoopWatchFdCallbackType)
      → IsValid el
      → watcher (event_loop_remove_fd_watch epoll_ctl el fd t k m).1 fd u
        ≡ (if same_type t u then (none, none) else watcher el fd u)
  unfolding event_loop_remove_fd_watch watcher find_callback_by_fd
  remove-watcher_self u v = elim (Option-cases (find_callback_by_fd el.callbacks_list fd)) [
    | inl e ↦
        rw (e, event_loop_remove_fd_watch, e)
          (if_cases (λ x. (none, none) ≡ x) (same_type t u) (λ q. refl) (λ q. refl))
    | inr (ec, e) ↦ elim (Bool-cases (any_event (ignoring ec t).events)) [
      | inl a ↦
          rw
            (
              e,
              event_loop_remove_fd_watch,
              a,
              find-change_self el.callbacks_list fd ec (ignoring ec t) e
                  (found-fd el.callbacks_list fd ec e),
            )
            (slots-ignoring ec u)
      | inr a ↦
          rw (e, event_loop_remove_fd_watch, a, find-unlink_self el.callbacks_list fd v.distinct)
            (sym (last-slots ec t u (found-Consistent el.callbacks_list fd ec v.consistent e) a))
    ]
  ]

  remove-watcher_ne :
      (x : ℕ) (u : ELoopWatchFdCallbackType)
      → (fd == x) ≡ false
      → watcher (event_loop_remove_fd_watch epoll_ctl el fd t k m).1 x u ≡ watcher el x u
  unfolding event_loop_remove_fd_watch watcher find_callback_by_fd
  remove-watcher_ne x u h = elim (Option-cases (find_callback_by_fd el.callbacks_list fd)) [
    | inl e ↦ rw (e, event_loop_remove_fd_watch) refl
    | inr (ec, e) ↦ elim (Bool-cases (any_event (ignoring ec t).events)) [
      | inl a ↦
          rw
            (
              e,
              event_loop_remove_fd_watch,
              a,
              find-change_ne el.callbacks_list fd x (ignoring ec t)
                  (found-fd el.callbacks_list fd ec e) h,
            )
            refl
      | inr a ↦ rw (e, event_loop_remove_fd_watch, a, find-unlink_ne el.callbacks_list fd x h) refl
    ]
  ]

  -- In a valid loop, after a removal nothing watches that event of that descriptor, and every other
  -- event of every descriptor is watched as before, also where the entry is unlinked.
  pub remove_fd_watch-watcher :
      (x : ℕ) (u : ELoopWatchFdCallbackType)
      → IsValid el
      → watcher (event_loop_remove_fd_watch epoll_ctl el fd t k m).1 x u
        ≡ (if (fd == x) && same_type t u then (none, none) else watcher el x u)
  remove_fd_watch-watcher x u v = elim (Bool-cases (fd == x)) [
    | inl q ↦ rw (q, ← (==_iff fd x).0 q) (remove-watcher_self u v)
    | inr q ↦ rw q (remove-watcher_ne x u q)
  ]
