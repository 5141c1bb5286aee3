-- ===== src/Eloop/Interest.antt =====
-- What the kernel was asked for, against the list of the watches: the kernel's interest list as an
-- abstract view of the loop.
use rapp.Prelude.{memory_create}
use rapp.Prelude.{
  ℕ, ◌≡◌, refl, ◌∙◌, Bool, true, none, some, Option, List, [], ◌∷◌, ◌==◌, if◌then◌else◌, Bool-cases,
  Option-cases, inl, inr, ==_iff, ℤ, Memory,
}
use rapp.HttpResponse.{is_some}
use rapp.Eloop.{
  ELoop, ELoopCallback, ELoopWatchFdCallbackType, Slots, find_callback_by_fd, change_callback,
  unlink_callback, EpollOperation, epoll_ctl_add, epoll_ctl_mod, epoll_ctl_del, watching, ignoring,
  any_event, blank_callback, event_loop_add_fd_watch, event_loop_remove_fd_watch,
}
use rapp.Eloop.Entries.{
  Consistent, IsValid, Distinct, found-fd, find-change_self, find-change_ne, find-unlink_self,
  find-unlink_ne, found-Consistent,
}
use rapp.Eloop.Shape.{
  Flagged, blank-Flagged, watching-Consistent, ignoring-Consistent, change-Consistent,
  change-Distinct, unlink-Consistent, unlink-Distinct, none-Absent,
}

-- The calls of `epoll_ctl`, the latest first.
abbrev pub Asked : Type 0
Asked = List (EpollOperation × ℕ × Option (Slots Bool))

-- A kernel that takes every call and answers as it likes.
abbrev pub asking :
    (EpollOperation → ℕ → ℤ) → EpollOperation → ℕ → Option (Slots Bool) → Asked → ℤ × Asked
asking answer op fd mask k = (answer op fd, (op, fd, mask) ∷ k)

-- The mask of a descriptor after these calls, none where it is not in the interest list.
unfoldable pub interest : Asked → ℕ → Option (Slots Bool)
interest [] fd = none
interest ((op, f, mask) ∷ k) fd = if f == fd then mask else interest k fd

-- epoll_ctl(2) refuses to add a descriptor that is in the list, and to change or remove another.
abbrev Allowed : EpollOperation → Option (Slots Bool) → Type 0
Allowed epoll_ctl_add old = old ≡ none
Allowed epoll_ctl_mod old = is_some old ≡ true
Allowed epoll_ctl_del old = is_some old ≡ true

unfoldable pub Proper : Asked → Type 0
unfolding interest
Proper [] = Unit
Proper ((op, fd, mask) ∷ k) = Allowed op (interest k fd) × Proper k

abbrev mask_of : Option ELoopCallback → Option (Slots Bool)
mask_of none = none
mask_of (some ec) = some ec.events

-- The loop is valid, each descriptor's mask is what the kernel was asked for last, and the kernel
-- was asked for nothing that it refuses.
pub record Synced (el : ELoop) (k : Asked) : Type 0 where
  pub valid : IsValid el
  pub agrees : (fd : ℕ) → interest k fd ≡ mask_of (find_callback_by_fd el.callbacks_list fd)
  pub proper : Proper k

changed-Synced :
    (el : ELoop) (k : Asked) (fd : ℕ) (ec new : ELoopCallback)
    → Synced el k
    → find_callback_by_fd el.callbacks_list fd ≡ some ec
    → new.fd ≡ fd
    → Consistent new
    → Synced
        (record el { callbacks_list = change_callback el.callbacks_list fd new })
        ((epoll_ctl_mod, fd, some new.events) ∷ k)
unfolding interest Proper
changed-Synced el k fd ec new s e n c = record {
  valid = record {
    consistent = change-Consistent el.callbacks_list fd new s.valid.consistent c;
    distinct = change-Distinct el.callbacks_list fd new n s.valid.distinct;
  };
  agrees = λ x. elim (Bool-cases (fd == x)) [
    | inl q ↦ rw (q, ← (==_iff fd x).0 q, find-change_self el.callbacks_list fd ec new e n) refl
    | inr q ↦ rw (q, find-change_ne el.callbacks_list fd x new n q) (s.agrees x)
  ];
  proper = (rw (s.agrees fd, e) refl, s.proper);
}

unlinked-Synced :
    (el : ELoop) (k : Asked) (fd : ℕ) (ec : ELoopCallback)
    → Synced el k
    → find_callback_by_fd el.callbacks_list fd ≡ some ec
    → Synced
        (record el { callbacks_list = unlink_callback el.callbacks_list fd })
        ((epoll_ctl_del, fd, none) ∷ k)
unfolding interest Proper
unlinked-Synced el k fd ec s e = record {
  valid = record {
    consistent = unlink-Consistent el.callbacks_list fd s.valid.consistent;
    distinct = unlink-Distinct el.callbacks_list fd s.valid.distinct;
  };
  agrees = λ x. elim (Bool-cases (fd == x)) [
    | inl q ↦
        rw (q, ← (==_iff fd x).0 q, find-unlink_self el.callbacks_list fd s.valid.distinct) refl
    | inr q ↦ rw (q, find-unlink_ne el.callbacks_list fd x q) (s.agrees x)
  ];
  proper = (rw (s.agrees fd, e) refl, s.proper);
}

linked-Synced :
    (el : ELoop) (k : Asked) (new : ELoopCallback)
    → Synced el k
    → find_callback_by_fd el.callbacks_list new.fd ≡ none
    → Consistent new
    → Synced
        (record el { callbacks_list = new ∷ el.callbacks_list })
        ((epoll_ctl_add, new.fd, some new.events) ∷ k)
unfolding interest Proper find_callback_by_fd Distinct
linked-Synced el k new s e c = record {
  valid = record {
    consistent = (c, s.valid.consistent);
    distinct = (none-Absent el.callbacks_list new.fd e, s.valid.distinct);
  };
  agrees = λ x. elim (Bool-cases (new.fd == x)) [ inl q ↦ rw q refl | inr q ↦ rw q (s.agrees x) ];
  proper = (s.agrees new.fd ∙ rw e refl, s.proper);
}

module _ (answer : EpollOperation → ℕ → ℤ) (el : ELoop) (fd : ℕ) (t : ELoopWatchFdCallbackType)
    (k : Asked) (m : Memory) where
  -- An added watch, memory granted or not, leaves the list valid and the kernel asked for exactly
  -- the masks of the list, by calls that it does not refuse.
  pub add_fd_watch-Synced :
      (callback : ℕ) (datum : Option ℕ)
      → Synced el k
      → (let (_, el', k', _) = event_loop_add_fd_watch (asking answer) el fd t callback datum k m in
          Synced el' k')
  unfolding event_loop_add_fd_watch
  add_fd_watch-Synced callback datum s =
      elim (Option-cases (find_callback_by_fd el.callbacks_list fd)) [
        | inl e ↦
            let new = watching (blank_callback m.calls) fd t callback datum in
            let linked = linked-Synced el k new s e (
              watching-Consistent (blank_callback m.calls) fd t callback datum
                (blank-Flagged m.calls)) in
            elim (Bool-cases (memory_create m).0) [
              | inl g ↦ rw (e, event_loop_add_fd_watch, g) linked
              | inr g ↦ rw (e, event_loop_add_fd_watch, g) s
            ]
        | inr (ec, e) ↦
            let old = found-Consistent el.callbacks_list fd ec s.valid.consistent e in
            let flags : Flagged ec = record { flagged = old.flagged; cleared = old.cleared } in
            rw (e, event_loop_add_fd_watch)
              (changed-Synced el k fd ec (watching ec fd t callback datum) s e refl
                (watching-Consistent ec fd t callback datum flags))
      ]

  -- A removed watch leaves the list valid and the kernel asked for exactly the masks of the list,
  -- by calls that it does not refuse.
  pub remove_fd_watch-Synced :
      Synced el k
      → (let (_, el', k', _) = event_loop_remove_fd_watch (asking answer) el fd t k m in
          Synced el' k')
  unfolding event_loop_remove_fd_watch
  remove_fd_watch-Synced s = elim (Option-cases (find_callback_by_fd el.callbacks_list fd)) [
    | inl e ↦ rw (e, event_loop_remove_fd_watch) s
    | inr (ec, e) ↦
        let old = found-Consistent el.callbacks_list fd ec s.valid.consistent e in
        elim (Bool-cases (any_event (ignoring ec t).events)) [
          | inl a ↦
              rw (e, event_loop_remove_fd_watch, a)
                (changed-Synced el k fd ec (ignoring ec t) s e (found-fd el.callbacks_list fd ec e)
                  (ignoring-Consistent ec t old a))
          | inr a ↦ rw (e, event_loop_remove_fd_watch, a) (unlinked-Synced el k fd ec s e)
        ]
  ]
