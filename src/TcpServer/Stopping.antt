-- ===== src/TcpServer/Stopping.antt =====
-- A server that was started, or failed to be, and is destroyed.
use rapp.Prelude.{
  ℕ, suc, ◌-◌, ◌≡◌, refl, ◌∙◌, ap, Bool, Option, none, some, ◌∷◌, ◌==◌, ◌&&◌, if◌then◌else◌,
  Bool-cases, inl, inr, Text, ℤ, pos, negsuc, is_zero, Memory, arith, decimal, take, ==_iff,
}
use rapp.Eloop.{ELoop, ELoopWatchFdCallbackType, eloop_callback_read, event_loop_add_fd_watch}
use rapp.Eloop.Entries.{IsValid, watcher, same_type}
use rapp.Eloop.Validity.{remove_fd_watch-observed, add_fd_watch-observed}
use rapp.Eloop.Cancelling.{remove-add_fd_watch}
use rapp.Eloop.Watches.{remove_fd_watch-watcher}
use rapp.TcpServer.{
  TcpServer, Sockets, Started, listen_on, tcp_server_start_listen, tcp_server_destroy, port_s_len,
}
use rapp.TcpServer.Listening.{Held, opening, without, Accounted, less, bind_and_listen_cases}

-- The watchers without the one for reading from the listening socket.
abbrev unlistened :
    ℤ
    → (ℕ → ELoopWatchFdCallbackType → Option ℕ × Option ℕ)
    → ℕ
    → ELoopWatchFdCallbackType
    → Option ℕ × Option ℕ
unlistened (negsuc n) w x t = w x t
unlistened (pos fd) w x t =
    if (fd == x) && same_type eloop_callback_read t then (none, none) else w x t

less-opening :
    (fd : ℤ) (h : Held)
    → less (opening fd (record h { addresses = suc h.addresses })) ≡ opening fd h
less-opening (pos fd) h =
    ap (λ (n : ℕ). record h { addresses = n; opened = fd ∷ h.opened }) (omega arith)
less-opening (negsuc x) h = ap (λ (n : ℕ). record h { addresses = n }) (omega arith)

module _ {K : Type 0} (sys : Sockets K) (a : Accounted sys) (el : ELoop) (k : K) where
  -- What destroying the server leaves, against the start.
  pub record Undone (started : Started K) : Type 0 where
    pub held :
        (let (_, s, el', k', m') = started in
          a.held (tcp_server_destroy sys s el' k' m').1 ≡ a.held k)
    pub watchers :
        (x : ℕ) (t : ELoopWatchFdCallbackType)
        → (let (_, s, el', k', m') = started in
            watcher (tcp_server_destroy sys s el' k' m').0 x t
            ≡ unlistened s.listen_fd (watcher el) x t)

  opened-without :
      (fd : ℕ) (h : Held) → record (opening (pos fd) h) { opened = without fd (fd ∷ h.opened) } ≡ h
  unfolding without
  opened-without fd h = rw ((==_iff fd fd).1 refl) refl

  failed-Undone :
      (fd : ℕ) (s : TcpServer) (k' : K) (m : Memory)
      → IsValid el
      → a.held k' ≡ opening (pos fd) (a.held k)
      → Undone (negsuc 0, record s { listen_fd = pos fd }, el, k', m)
  unfolding tcp_server_destroy
  failed-Undone fd s k' m v e = record {
    held =
        a.closed fd _
        ∙ ap (λ (h : Held). record h { opened = without fd h.opened })
            (remove_fd_watch-observed sys.epoll_ctl el fd eloop_callback_read k' m a.held a.polled
              ∙ e)
        ∙ opened-without fd (a.held k);
    watchers = λ x t. remove_fd_watch-watcher sys.epoll_ctl el fd eloop_callback_read k' m x t v;
  }

  watched-Undone :
      (fd handler self : ℕ) (s : TcpServer) (k' : K) (m : Memory)
      → IsValid el
      → a.held k' ≡ opening (pos fd) (a.held k)
      → (let (ret, el', k'', m') =
            event_loop_add_fd_watch sys.epoll_ctl el fd eloop_callback_read handler
              (some self)
              k'
              m in
          Undone (ret, record s { listen_fd = pos fd }, el', k'', m'))
  unfolding tcp_server_destroy
  watched-Undone fd handler self s k' m v e =
      let (_, el', k'', m') =
        event_loop_add_fd_watch sys.epoll_ctl el fd eloop_callback_read handler (some self) k' m in
      record {
        held =
            a.closed fd _
            ∙ ap (λ (h : Held). record h { opened = without fd h.opened })
                (remove_fd_watch-observed sys.epoll_ctl el' fd eloop_callback_read k'' m' a.held
                    a.polled
                  ∙ (add_fd_watch-observed sys.epoll_ctl el fd eloop_callback_read k' m a.held
                        handler (some self) a.polled
                      ∙ e))
            ∙ opened-without fd (a.held k);
        watchers = λ x t.
            remove-add_fd_watch sys.epoll_ctl el fd eloop_callback_read handler (some self) k' k'' m
              m' x t v;
      }

  listen_on-Undone :
      (reuseport_found : Bool) (handler self : ℕ) (fd : ℤ) (s : TcpServer) (k' : K) (m : Memory)
      → IsValid el
      → a.held k' ≡ opening fd (record (a.held k) { addresses = suc (a.held k).addresses })
      → Undone (listen_on sys reuseport_found handler self fd (record s { listen_fd = fd }) el k' m)
  unfolding listen_on tcp_server_destroy
  listen_on-Undone reuseport_found handler self (negsuc n) s k' m v e = record {
    held = a.freed k' ∙ (ap less e ∙ less-opening (negsuc n) (a.held k));
    watchers = λ x t. refl;
  }
  listen_on-Undone reuseport_found handler self (pos fd) s k' m v e =
      bind_and_listen_cases sys a Undone reuseport_found (pos fd) _ _ k'
        (λ k'' f. failed-Undone fd s k'' m v (f ∙ (ap less e ∙ less-opening (pos fd) (a.held k))))
        (λ k'' f.
          watched-Undone fd handler self s k'' m v
            (f ∙ (ap less e ∙ less-opening (pos fd) (a.held k))))

  -- A fresh server is started and then destroyed. However the calls of the kernel end and memory is
  -- granted or not, the addresses that were found are freed and the socket that was opened is
  -- closed, once, nothing watches the socket for reading any more, and everything else is watched as
  -- before.
  pub start_listen-destroy :
      (reuseport_found : Bool) (handler self : ℕ) (host : Text) (port : ℕ) (s : TcpServer)
      (m : Memory)
      → s.listen_fd ≡ negsuc 0
      → IsValid el
      → Undone (tcp_server_start_listen sys reuseport_found handler self host port s el k m)
  unfolding tcp_server_start_listen tcp_server_destroy
  start_listen-destroy reuseport_found handler self host port s m fresh v =
      let asked = take (port_s_len - 1) (decimal port) in
      let (ret, k₁) = sys.getaddrinfo host asked k in
      elim (Bool-cases (is_zero ret)) [
        | inl z ↦ rw z (
            listen_on-Undone reuseport_found handler self (sys.socket k₁).0 s (sys.socket k₁).1 m v
              (a.made k₁ ∙ ap (opening (sys.socket k₁).0) (a.looked_up host asked k ∙ rw z refl)))
        | inr z ↦ rw z (record {
          held = rw fresh (a.looked_up host asked k ∙ rw z refl);
          watchers = λ x t. rw fresh refl;
        })
      ]
