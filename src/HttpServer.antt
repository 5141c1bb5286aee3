-- ===== src/HttpServer.antt =====
-- src/httpserver.c: the server makes a connection for each client that is accepted, and schedules a
-- finished one to be freed. The parser and the system calls are parameters, as are the addresses.
pub mod Closing
use rapp.Prelude.{
  ℕ, Bool, true, false, not, Option, none, some, List, [], ◌∷◌, if◌then◌else◌, Text, ℤ, Memory,
  memory_create, memory_destroy,
}
use rapp.Prelude.Run.{Run, done, fault, ◌>>=◌}
use rapp.HttpRouter.{HttpRouter}
use rapp.Eloop.{ELoop, event_loop_schedule_free}
use rapp.TcpConnection.{TcpConnection}
use rapp.HttpConnection.{
  HttpConnection, Addresses, http_connection_new, http_connection_set_finish_callback,
}
use rapp.TcpServer.{
  TcpServer, Sockets, tcp_server_new, tcp_server_destroy, tcp_server_set_accept_callback,
  tcp_server_start_listen,
}

pub record HttpServer : Type 0 where
  pub tcp_server : TcpServer
  pub router : HttpRouter

-- `destroy` is the address of `http_connection_destroy`, `connection` that of the connection; the
-- callback and the data say that the server is meant, and are not used.
unfoldable pub on_request_finish : ℕ → ℕ → ℕ → Option ℕ → ELoop → Memory → ELoop × Memory
unfolding event_loop_schedule_free
on_request_finish destroy callback connection user_data el m =
    event_loop_schedule_free el destroy connection m

-- The connections that were made, the loop, the kernel's state and the allocator.
abbrev Accepting : Type 0 → Type 0 → Type 0
Accepting P K = List (HttpConnection P) × ELoop × K × Memory

module _ {P K : Type 0} (sys : Sockets K) where
  -- `self`, `tcp_self` and `server` are the addresses of the connection, its TCP connection and the
  -- server, `finish` that of `on_request_finish`.
  unfoldable on_accept :
      Addresses
      → ℕ
      → ℕ
      → ℕ
      → ℕ
      → P
      → Text
      → HttpServer
      → TcpConnection
      → Accepting P K
      → Run (Accepting P K)
  unfolding http_connection_new http_connection_set_finish_callback
  on_accept a self tcp_self finish server parser banner s tcp (cs, el, k, m) =
      http_connection_new sys.epoll_ctl a self tcp_self parser banner s.router (tcp, el, k, m)
      >>= λ (made, (_, el', k', m')). elim made [
        | none ↦ done (cs, el', k', m')
        | some c ↦
            done (http_connection_set_finish_callback c finish (some server) ∷ cs, el', k', m')
      ]

-- `accept` is the address of `on_accept`, `self` that of the server.
unfoldable http_server_new : ℕ → ℕ → HttpRouter → Memory → Option HttpServer × Memory
unfolding memory_create tcp_server_new memory_destroy tcp_server_set_accept_callback
http_server_new accept self router m =
    let (got, m₁) = memory_create m in
    if not got
    then (none, m₁)
    else let (tcp, m₂) = tcp_server_new m₁ in
      elim tcp [
        | none ↦ (none, memory_destroy m₂)
        | some s ↦ (
          some (record {
            tcp_server = tcp_server_set_accept_callback s accept (some self);
            router = router;
          }),
          m₂,
        )
      ]

module _ {K : Type 0} (sys : Sockets K) where
  unfoldable http_server_destroy : HttpServer → ELoop → K → Memory → ELoop × K × Memory
  unfolding tcp_server_destroy memory_destroy
  http_server_destroy s el k m =
      let (el', k', m') = tcp_server_destroy sys s.tcp_server el k m in (el', k', memory_destroy m')

  unfoldable http_server_start :
      Bool
      → ℕ
      → ℕ
      → HttpServer
      → Text
      → ℕ
      → ELoop
      → K
      → Memory
      → ℤ × HttpServer × ELoop × K × Memory
  unfolding tcp_server_start_listen
  http_server_start reuseport_found handler self s host port el k m =
      let (ret, tcp, el', k', m') =
        tcp_server_start_listen sys reuseport_found handler self host port s.tcp_server el k m in
      (ret, record s { tcp_server = tcp }, el', k', m')
