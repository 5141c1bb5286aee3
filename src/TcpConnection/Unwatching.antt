-- ===== src/TcpConnection/Unwatching.antt =====
-- What is watched after a connection is closed, whatever the kernel answers.
use rapp.Prelude.{
  negsuc, pos, ◌∙◌, ℕ, ◌≡◌, refl, Bool, true, false, Option, none, ◌==◌, ◌&&◌, if◌then◌else◌, ℤ,
  Memory,
}
use rapp.Eloop.{
  ELoop, ELoopWatchFdCallbackType, eloop_callback_read, eloop_callback_write, eloop_callback_close,
  Slots, EpollOperation, event_loop_remove_fd_watch,
}
use rapp.Eloop.Entries.{IsValid, watcher, same_type}
use rapp.Eloop.Validity.{remove_fd_watch-observed, remove_fd_watch-kept, remove_fd_watch-IsValid}
use rapp.Eloop.Watches.{remove_fd_watch-watcher}
use rapp.TcpConnection.{TcpConnection, tcp_connection_close, remove_watches}

-- A watcher after the removal of each type.
three_removed :
    (b : Bool) (t : ELoopWatchFdCallbackType) (w : Option ℕ × Option ℕ)
    → (if b && same_type eloop_callback_close t
        then (none, none)
        else if b && same_type eloop_callback_write t
        then (none, none)
        else if b && same_type eloop_callback_read t
        then (none, none)
        else w)
      ≡ (if b then (none, none) else w)
three_removed true eloop_callback_read w = refl
three_removed true eloop_callback_write w = refl
three_removed true eloop_callback_close w = refl
three_removed false t w = refl

-- The loop is valid, and what `el` watches is watched, but for the descriptor `fd`.
pub record Unwatched (fd : ℕ) (el el' : ELoop) : Type 0 where
  pub valid : IsValid el'
  pub watchers :
      (x : ℕ) (t : ELoopWatchFdCallbackType)
      → watcher el' x t ≡ (if fd == x then (none, none) else watcher el x t)

module _ {K : Type 0} (epoll_ctl : EpollOperation → ℕ → Option (Slots Bool) → K → ℤ × K) (fd : ℕ)
    (el : ELoop) (k : K) (m : Memory) where
  pub remove_watches-Unwatched : IsValid el → Unwatched fd el (remove_watches epoll_ctl fd el k m).0
  unfolding remove_watches
  remove_watches-Unwatched v =
      let (_, el₁, k₁, m₁) = event_loop_remove_fd_watch epoll_ctl el fd eloop_callback_read k m in
      let (_, el₂, k₂, m₂) =
        event_loop_remove_fd_watch epoll_ctl el₁ fd eloop_callback_write k₁ m₁ in
      let v₁ = remove_fd_watch-IsValid epoll_ctl el fd eloop_callback_read k m v in
      let v₂ = remove_fd_watch-IsValid epoll_ctl el₁ fd eloop_callback_write k₁ m₁ v₁ in
      record {
        valid = remove_fd_watch-IsValid epoll_ctl el₂ fd eloop_callback_close k₂ m₂ v₂;
        watchers = λ x t.
            rw
              (
                remove_fd_watch-watcher epoll_ctl el₂ fd eloop_callback_close k₂ m₂ x t v₂,
                remove_fd_watch-watcher epoll_ctl el₁ fd eloop_callback_write k₁ m₁ x t v₁,
                remove_fd_watch-watcher epoll_ctl el fd eloop_callback_read k m x t v,
              )
              (three_removed (fd == x) t (watcher el x t));
      }

  pub remove_watches-kept :
      (let (el', _, m') = remove_watches epoll_ctl fd el k m in
        (el'.collector ≡ el.collector) × (m'.grants ≡ m.grants))
  unfolding remove_watches
  remove_watches-kept =
      let (_, el₁, k₁, m₁) = event_loop_remove_fd_watch epoll_ctl el fd eloop_callback_read k m in
      let (_, el₂, k₂, m₂) =
        event_loop_remove_fd_watch epoll_ctl el₁ fd eloop_callback_write k₁ m₁ in
      let (c₁, g₁) = remove_fd_watch-kept epoll_ctl el fd eloop_callback_read k m in
      let (c₂, g₂) = remove_fd_watch-kept epoll_ctl el₁ fd eloop_callback_write k₁ m₁ in
      let (c₃, g₃) = remove_fd_watch-kept epoll_ctl el₂ fd eloop_callback_close k₂ m₂ in
      (c₃ ∙ (c₂ ∙ c₁), g₃ ∙ (g₂ ∙ g₁))

  pub remove_watches-observed {ℓ} :
      {A : Type ℓ} (see : K → A)
      → ((op : EpollOperation) (x : ℕ) (mask : Option (Slots Bool)) (k : K)
          → see (epoll_ctl op x mask k).1 ≡ see k)
      → see (remove_watches epoll_ctl fd el k m).1 ≡ see k
  unfolding remove_watches
  remove_watches-observed see h =
      let (_, el₁, k₁, m₁) = event_loop_remove_fd_watch epoll_ctl el fd eloop_callback_read k m in
      let (_, el₂, k₂, m₂) =
        event_loop_remove_fd_watch epoll_ctl el₁ fd eloop_callback_write k₁ m₁ in
      remove_fd_watch-observed epoll_ctl el₂ fd eloop_callback_close k₂ m₂ see h
      ∙ (remove_fd_watch-observed epoll_ctl el₁ fd eloop_callback_write k₁ m₁ see h
          ∙ remove_fd_watch-observed epoll_ctl el fd eloop_callback_read k m see h)

  pub close-open :
      (c : TcpConnection)
      → c.fd ≡ pos fd
      → tcp_connection_close epoll_ctl c el k m ≡ (
        record c { fd = negsuc 0 },
        (remove_watches epoll_ctl fd el k m).0,
        (remove_watches epoll_ctl fd el k m).1,
        (remove_watches epoll_ctl fd el k m).2,
      )
  unfolding tcp_connection_close
  close-open c o = rw o refl
