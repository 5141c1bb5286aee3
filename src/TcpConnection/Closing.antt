-- ===== src/TcpConnection/Closing.antt =====
-- What closing a connection leaves of its watches.
use rapp.TcpConnection.Unwatching.{remove_watches-Unwatched}
use rapp.HttpResponse.{is_some}
use rapp.Prelude.{
  ℕ, ◌≡◌, refl, ◌∙◌, ap, true, false, none, ◌==◌, if◌then◌else◌, ℤ, pos, negsuc, Memory,
  Option-cases, inl, inr, ==_iff,
}
use rapp.Eloop.{
  ELoop, ELoopWatchFdCallbackType, eloop_callback_read, eloop_callback_write, eloop_callback_close,
  EpollOperation, event_loop_remove_fd_watch, find_callback_by_fd,
}
use rapp.Eloop.Entries.{IsValid, watcher, found-Consistent}
use rapp.Eloop.Interest.{Asked, asking, interest, Synced, remove_fd_watch-Synced}
use rapp.TcpConnection.{TcpConnection, remove_watches, tcp_connection_close}

-- A descriptor without watchers has no entry.
unwatched-find :
    (el : ELoop) (fd : ℕ)
    → IsValid el
    → ((t : ELoopWatchFdCallbackType) → watcher el fd t ≡ (none, none))
    → find_callback_by_fd el.callbacks_list fd ≡ none
unfolding watcher
unwatched-find el fd v h = elim (Option-cases (find_callback_by_fd el.callbacks_list fd)) [
  | inl e ↦ e
  | inr (ec, e) ↦
      let c = found-Consistent el.callbacks_list fd ec v.consistent e in
      let r = rw e at (h eloop_callback_read) in
      let w = rw e at (h eloop_callback_write) in
      let x = rw e at (h eloop_callback_close) in
      let fr : ec.events.read ≡ false = c.flagged eloop_callback_read ∙ ap (λ p. is_some p.0) r in
      let fw : ec.events.write ≡ false = c.flagged eloop_callback_write ∙ ap (λ p. is_some p.0) w in
      let fx : ec.events.close ≡ false = c.flagged eloop_callback_close ∙ ap (λ p. is_some p.0) x in
      let never : false ≡ true = rw (fr, fw, fx) at c.some_event in cc
]

module _ (answer : EpollOperation → ℕ → ℤ) (fd : ℕ) (el : ELoop) (k : Asked) (m : Memory) where
  remove_watches-Synced :
      Synced el k → (let (el', k', _) = remove_watches (asking answer) fd el k m in Synced el' k')
  unfolding remove_watches
  remove_watches-Synced s =
      let (_, el₁, k₁, m₁) =
        event_loop_remove_fd_watch (asking answer) el fd eloop_callback_read k m in
      let (_, el₂, k₂, m₂) =
        event_loop_remove_fd_watch (asking answer) el₁ fd eloop_callback_write k₁ m₁ in
      let s₁ = remove_fd_watch-Synced answer el fd eloop_callback_read k m s in
      let s₂ = remove_fd_watch-Synced answer el₁ fd eloop_callback_write k₁ m₁ s₁ in
      remove_fd_watch-Synced answer el₂ fd eloop_callback_close k₂ m₂ s₂

  -- Closing an open connection forgets its descriptor, which nothing watches any more and which
  -- has left the kernel's interest list; every other descriptor is watched as before, the loop
  -- stays valid and the kernel is asked for nothing that it refuses.
  pub tcp_connection_close-watcher :
      (c : TcpConnection) (x : ℕ) (t : ELoopWatchFdCallbackType)
      → c.fd ≡ pos fd
      → Synced el k
      → (let (c', el', k', _) = tcp_connection_close (asking answer) c el k m in
          (c'.fd ≡ negsuc 0)
          × Synced el' k'
          × (interest k' fd ≡ none)
          × (watcher el' x t ≡ (if fd == x then (none, none) else watcher el x t)))
  unfolding tcp_connection_close
  tcp_connection_close-watcher c x t o s =
      let s' = remove_watches-Synced s in
      let w = (remove_watches-Unwatched (asking answer) fd el k m s.valid).watchers in
      let (el', k', _) = remove_watches (asking answer) fd el k m in
      let same : (fd == fd) ≡ true = (==_iff fd fd).1 refl in
      let gone = unwatched-find el' fd s'.valid (λ u. w fd u ∙ rw same refl) in
      rw o (refl, s', s'.agrees fd ∙ rw gone refl, w x t)
