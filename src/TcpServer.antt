-- ===== src/TcpServer.antt =====
-- src/tcpserver.c: the listening socket and its watch on the event loop. The system calls are the
-- record `Sockets`, of functions on the kernel's state; what the accept callback does is the
-- parameter `accept`.
pub mod Listening
pub mod Stopping
use rapp.Prelude.{
  ◌-◌, ℕ, Bool, true, false, not, Option, none, some, if◌then◌else◌, take, Text, decimal, ℤ, pos,
  negsuc, ltb_ℤ, is_zero, Memory, memory_create, memory_destroy,
}
use rapp.Prelude.Run.{Run, done, fault, ◌>>=◌}
use rapp.Eloop.{
  ELoop, Slots, EpollOperation, eloop_callback_read, event_loop_add_fd_watch,
  event_loop_remove_fd_watch,
}
use rapp.TcpConnection.{TcpConnection, tcp_connection_with_fd}

abbrev pub backlog : ℕ
backlog = 1024

-- PORT_S_LEN counts the closing NUL.
abbrev pub port_s_len : ℕ
port_s_len = 6

pub data SocketOption : Type 0 where
  so_reuseaddr so_reuseport : SocketOption

-- What `accept4` gives: a descriptor, EAGAIN or another error.
pub data Accepted : Type 0 where
  client : ℕ → Accepted
  nobody refused : Accepted

-- The calls return what the C functions do. `getaddrinfo` is asked for a host and a port, and the
-- addresses that it finds are kept until `freeaddrinfo`.
pub record Sockets (K : Type 0) : Type 0 where
  pub getaddrinfo : Text → Text → K → ℤ × K
  pub freeaddrinfo : K → K
  pub socket : K → ℤ × K
  pub setsockopt : ℤ → SocketOption → K → ℤ × K
  pub set_nonblocking : ℤ → K → ℤ × K
  pub bind : ℤ → K → ℤ × K
  pub listen : ℤ → ℕ → K → ℤ × K
  pub accept4 : ℤ → K → Accepted × K
  pub close : ℤ → K → K
  pub epoll_ctl : EpollOperation → ℕ → Option (Slots Bool) → K → ℤ × K

pub record TcpServer : Type 0 where
  pub listen_fd : ℤ
  pub accept_callback : Option ℕ
  pub user_data : Option ℕ

unfoldable pub tcp_server_new : Memory → Option TcpServer × Memory
unfolding memory_create
tcp_server_new m =
    let (got, m') = memory_create m in
    (
      if got
          then some (record { listen_fd = negsuc 0; accept_callback = none; user_data = none })
          else none,
      m',
    )

unfoldable pub tcp_server_set_accept_callback : TcpServer → ℕ → Option ℕ → TcpServer
tcp_server_set_accept_callback s callback user_data = record s {
  accept_callback = some callback;
  user_data = user_data;
}

-- What starting returns, the server, the loop, the kernel's state and the allocator.
abbrev pub Started : Type 0 → Type 0
Started K = ℤ × TcpServer × ELoop × K × Memory

-- A call that fails with a negative number, and what is done then and otherwise.
abbrev pub attempt : {K : Type 0} → (K → ℤ × K) → (K → Started K) → (K → Started K) → K → Started K
attempt call failed next k =
    let (ret, k') = call k in if ltb_ℤ ret (pos 0) then failed k' else next k'

module _ {K : Type 0} (sys : Sockets K) where
  abbrev unlisten : ℤ → ELoop → K → Memory → ELoop × K × Memory
  unlisten (negsuc n) el k m = (el, k, m)
  unlisten (pos fd) el k m =
      let (_, el', k', m') =
        event_loop_remove_fd_watch sys.epoll_ctl el fd eloop_callback_read k m in
      (el', sys.close (pos fd) k', m')

  unfoldable pub tcp_server_destroy : TcpServer → ELoop → K → Memory → ELoop × K × Memory
  unfolding event_loop_remove_fd_watch memory_destroy
  tcp_server_destroy s el k m =
      let (el', k', m') = unlisten s.listen_fd el k m in (el', k', memory_destroy m')

  -- The loop's callback for the listening socket.
  unfoldable on_incoming_connection :
      {W : Type 0}
      (accept : ℕ
        → Option ℕ
        → TcpConnection
        → W × ELoop × K × Memory
        → Run (W × ELoop × K × Memory))
      → TcpServer
      → ℕ
      → W × ELoop × K × Memory
      → Run (ℤ × W × ELoop × K × Memory)
  unfolding tcp_connection_with_fd
  on_incoming_connection accept s server_fd (w, el, k, m) =
      let (accepted, k₁) = sys.accept4 (pos server_fd) k in
      elim accepted [
        | refused ↦ done (negsuc 0, w, el, k₁, m)
        | nobody ↦ done (pos 0, w, el, k₁, m)
        | client fd ↦
            let (connection, m₁) = tcp_connection_with_fd fd m in
            elim connection [
              | none ↦ done (negsuc 0, w, el, sys.close (pos fd) k₁, m₁)
              | some c ↦ elim s.accept_callback [
                | none ↦ done (pos 0, w, el, k₁, m₁)
                | some callback ↦
                    accept callback s.user_data c (w, el, k₁, m₁) >>= λ (w', el', k', m').
                    done (pos 0, w', el', k', m')
              ]
            ]
      ]

  -- The calls on the new socket: `watch` is its watch by `on_incoming_connection`.
  unfoldable pub bind_and_listen : Bool → ℤ → (K → Started K) → (K → Started K) → K → Started K
  bind_and_listen reuseport_found fd failed watch =
      let freed = λ (k : K). failed (sys.freeaddrinfo k) in
      let bound = attempt (sys.set_nonblocking fd) freed (
        attempt (sys.bind fd) freed
          (λ k. attempt (sys.listen fd backlog) failed watch (sys.freeaddrinfo k))) in
      attempt (sys.setsockopt fd so_reuseaddr) freed
        (if reuseport_found then attempt (sys.setsockopt fd so_reuseport) freed bound else bound)

  -- `reuseport_found` is SO_REUSEPORT_FOUND of the build, `handler` the address of
  -- `on_incoming_connection` and `self` that of the server. From the check of the new socket on.
  unfoldable pub listen_on : Bool → ℕ → ℕ → ℤ → TcpServer → ELoop → K → Memory → Started K
  unfolding event_loop_add_fd_watch bind_and_listen
  listen_on reuseport_found handler self (negsuc n) s el k m =
      (negsuc 0, s, el, sys.freeaddrinfo k, m)
  listen_on reuseport_found handler self (pos fd) s el k m =
      bind_and_listen reuseport_found (pos fd) (λ k. (negsuc 0, s, el, k, m))
        (λ k.
          let (ret, el', k', m') =
            event_loop_add_fd_watch sys.epoll_ctl el fd eloop_callback_read handler (some self) k
              m in
          (ret, s, el', k', m'))
        k

  unfoldable pub tcp_server_start_listen :
      Bool → ℕ → ℕ → Text → ℕ → TcpServer → ELoop → K → Memory → Started K
  unfolding listen_on decimal
  tcp_server_start_listen reuseport_found handler self host port s el k m =
      let (ret, k₁) = sys.getaddrinfo host (take (port_s_len - 1) (decimal port)) k in
      if not (is_zero ret)
      then (negsuc 0, s, el, k₁, m)
      else let (fd, k₂) = sys.socket k₁ in
        listen_on reuseport_found handler self fd (record s { listen_fd = fd }) el k₂ m
