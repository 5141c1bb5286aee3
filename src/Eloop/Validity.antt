-- ===== src/Eloop/Validity.antt =====
-- Adding and removing a watch keep the loop valid, whatever the kernel answers.
use rapp.Prelude.{
  none, Bool, ◌≡◌, ℕ, ℤ, Option, Memory, Bool-cases, Option-cases, inl, inr, memory_create,
  memory_destroy, refl,
}
use rapp.Eloop.{
  epoll_ctl_add, epoll_ctl_del, epoll_ctl_mod, memory_destroy, ELoop, ELoopWatchFdCallbackType,
  Slots, EpollOperation, find_callback_by_fd, watching, ignoring, any_event, blank_callback,
  event_loop_add_fd_watch, event_loop_remove_fd_watch,
}
use rapp.Eloop.Entries.{IsValid, Distinct, found-fd, found-Consistent}
use rapp.Eloop.Shape.{
  Flagged, blank-Flagged, watching-Consistent, ignoring-Consistent, change-Consistent,
  change-Distinct, unlink-Consistent, unlink-Distinct, none-Absent,
}

module _ {K : Type 0} (epoll_ctl : EpollOperation → ℕ → Option (Slots Bool) → K → ℤ × K)
    (el : ELoop) (fd : ℕ) (t : ELoopWatchFdCallbackType) (k : K) (m : Memory) where
  pub add_fd_watch-IsValid :
      (callback : ℕ) (datum : Option ℕ)
      → IsValid el
      → IsValid (event_loop_add_fd_watch epoll_ctl el fd t callback datum k m).1
  unfolding event_loop_add_fd_watch Distinct
  add_fd_watch-IsValid callback datum v =
      elim (Option-cases (find_callback_by_fd el.callbacks_list fd)) [
        | inl e ↦ elim (Bool-cases (memory_create m).0) [
          | inl g ↦
              rw (e, event_loop_add_fd_watch, g)
                (record {
                  consistent = (
                    watching-Consistent (blank_callback m.calls) fd t callback datum
                        (blank-Flagged m.calls),
                    v.consistent,
                  );
                  distinct = (none-Absent el.callbacks_list fd e, v.distinct);
                })
          | inr g ↦ rw (e, event_loop_add_fd_watch, g) v
        ]
        | inr (ec, e) ↦
            let old = found-Consistent el.callbacks_list fd ec v.consistent e in
            let flags : Flagged ec = record { flagged = old.flagged; cleared = old.cleared } in
            let new = watching ec fd t callback datum in
            rw (e, event_loop_add_fd_watch)
              (record {
                consistent =
                    change-Consistent el.callbacks_list fd new v.consistent
                      (watching-Consistent ec fd t callback datum flags);
                distinct = change-Distinct el.callbacks_list fd new refl v.distinct;
              })
      ]

  pub remove_fd_watch-IsValid :
      IsValid el → IsValid (event_loop_remove_fd_watch epoll_ctl el fd t k m).1
  unfolding event_loop_remove_fd_watch
  remove_fd_watch-IsValid v = elim (Option-cases (find_callback_by_fd el.callbacks_list fd)) [
    | inl e ↦ rw (e, event_loop_remove_fd_watch) v
    | inr (ec, e) ↦
        let old = found-Consistent el.callbacks_list fd ec v.consistent e in
        elim (Bool-cases (any_event (ignoring ec t).events)) [
          | inl a ↦
              rw (e, event_loop_remove_fd_watch, a)
                (record {
                  consistent =
                      change-Consistent el.callbacks_list fd (ignoring ec t) v.consistent
                        (ignoring-Consistent ec t old a);
                  distinct =
                      change-Distinct el.callbacks_list fd (ignoring ec t)
                        (found-fd el.callbacks_list fd ec e) v.distinct;
                })
          | inr a ↦
              rw (e, event_loop_remove_fd_watch, a)
                (record {
                  consistent = unlink-Consistent el.callbacks_list fd v.consistent;
                  distinct = unlink-Distinct el.callbacks_list fd v.distinct;
                })
        ]
  ]

  -- What a removal leaves alone.
  pub remove_fd_watch-kept :
      (let (_, el', _, m') = event_loop_remove_fd_watch epoll_ctl el fd t k m in
        (el'.collector ≡ el.collector) × (m'.grants ≡ m.grants))
  unfolding event_loop_remove_fd_watch memory_destroy
  remove_fd_watch-kept = elim (Option-cases (find_callback_by_fd el.callbacks_list fd)) [
    | inl e ↦ rw (e, event_loop_remove_fd_watch) (refl, refl)
    | inr (ec, e) ↦ elim (Bool-cases (any_event (ignoring ec t).events)) [
      | inl a ↦ rw (e, event_loop_remove_fd_watch, a) (refl, refl)
      | inr a ↦ rw (e, event_loop_remove_fd_watch, a) (refl, refl)
    ]
  ]

  -- What an addition leaves alone.
  add_fd_watch-kept :
      (callback : ℕ) (datum : Option ℕ)
      → (let (_, el', _, m') = event_loop_add_fd_watch epoll_ctl el fd t callback datum k m in
          (el'.collector ≡ el.collector) × (m'.grants ≡ m.grants))
  unfolding event_loop_add_fd_watch memory_create
  add_fd_watch-kept callback datum =
      elim (Option-cases (find_callback_by_fd el.callbacks_list fd)) [
        | inl e ↦ elim (Bool-cases (m.grants m.calls)) [
          | inl g ↦ rw (e, event_loop_add_fd_watch, g) (refl, refl)
          | inr g ↦ rw (e, event_loop_add_fd_watch, g) (refl, refl)
        ]
        | inr (ec, e) ↦ rw (e, event_loop_add_fd_watch) (refl, refl)
      ]

  -- What `epoll_ctl` does not change, a removal does not.
  pub remove_fd_watch-observed {ℓ} :
      {A : Type ℓ} (see : K → A)
      → ((op : EpollOperation) (x : ℕ) (mask : Option (Slots Bool)) (k : K)
          → see (epoll_ctl op x mask k).1 ≡ see k)
      → see (event_loop_remove_fd_watch epoll_ctl el fd t k m).2 ≡ see k
  unfolding event_loop_remove_fd_watch
  remove_fd_watch-observed see h = elim (Option-cases (find_callback_by_fd el.callbacks_list fd)) [
    | inl e ↦ rw (e, event_loop_remove_fd_watch) refl
    | inr (ec, e) ↦ elim (Bool-cases (any_event (ignoring ec t).events)) [
      | inl a ↦ rw (e, event_loop_remove_fd_watch, a) (h epoll_ctl_mod fd _ k)
      | inr a ↦ rw (e, event_loop_remove_fd_watch, a) (h epoll_ctl_del fd none k)
    ]
  ]

  pub add_fd_watch-observed {ℓ} :
      {A : Type ℓ} (see : K → A) (callback : ℕ) (datum : Option ℕ)
      → ((op : EpollOperation) (x : ℕ) (mask : Option (Slots Bool)) (k : K)
          → see (epoll_ctl op x mask k).1 ≡ see k)
      → see (event_loop_add_fd_watch epoll_ctl el fd t callback datum k m).2 ≡ see k
  unfolding event_loop_add_fd_watch
  add_fd_watch-observed see callback datum h =
      elim (Option-cases (find_callback_by_fd el.callbacks_list fd)) [
        | inl e ↦ elim (Bool-cases (memory_create m).0) [
          | inl g ↦ rw (e, event_loop_add_fd_watch, g) (h epoll_ctl_add fd _ k)
          | inr g ↦ rw (e, event_loop_add_fd_watch, g) refl
        ]
        | inr (ec, e) ↦ rw (e, event_loop_add_fd_watch) (h epoll_ctl_mod fd _ k)
      ]
