-- ===== src/TcpConnection.antt =====
-- src/tcpconnection.c: a connection and its watches on the event loop. Callbacks and data are
-- addresses; `recv`, `send` and `sendfile` are parameters, and `close` changes nothing of the model.
pub mod Unwatching
pub mod Closing
use rapp.Prelude.Run.{Run, done, fault, ◌>>=◌}
use rapp.Prelude.{
  List, ℕ, Bool, true, false, Option, none, some, if◌then◌else◌, ℤ, pos, negsuc, ltb_ℤ, is_zero,
  not, Memory, memory_create, memory_destroy,
}
use rapp.Eloop.{
  ELoop, ELoopWatchFdCallbackType, eloop_callback_read, eloop_callback_write, eloop_callback_close,
  EpollOperation, Slots, event_loop_add_fd_watch, event_loop_remove_fd_watch,
}

pub record TcpConnection : Type 0 where
  pub fd : ℤ
  pub read_callback : Option ℕ
  pub write_callback : Option ℕ
  pub close_callback : Option ℕ
  pub user_data : Option ℕ

unfoldable pub tcp_connection_with_fd : ℕ → Memory → Option TcpConnection × Memory
unfolding memory_create
tcp_connection_with_fd fd m =
    let (got, m') = memory_create m in
    (
      if got
          then some (record {
            fd = pos fd;
            read_callback = none;
            write_callback = none;
            close_callback = none;
            user_data = none;
          })
          else none,
      m',
    )

-- The connection, the loop, the kernel's state and the allocator.
abbrev pub State : Type 0 → Type 0
State K = TcpConnection × ELoop × K × Memory

module _ {K : Type 0} (epoll_ctl : EpollOperation → ℕ → Option (Slots Bool) → K → ℤ × K) where
  -- The three watches of a descriptor.
  unfoldable pub remove_watches : ℕ → ELoop → K → Memory → ELoop × K × Memory
  unfolding event_loop_remove_fd_watch
  remove_watches fd el k m =
      let (_, el₁, k₁, m₁) = event_loop_remove_fd_watch epoll_ctl el fd eloop_callback_read k m in
      let (_, el₂, k₂, m₂) =
        event_loop_remove_fd_watch epoll_ctl el₁ fd eloop_callback_write k₁ m₁ in
      let (_, el₃, k₃, m₃) =
        event_loop_remove_fd_watch epoll_ctl el₂ fd eloop_callback_close k₂ m₂ in
      (el₃, k₃, m₃)

  abbrev close_fd : ℤ → TcpConnection → ELoop → K → Memory → State K
  close_fd (pos fd) c el k m =
      let (el', k', m') = remove_watches fd el k m in (record c { fd = negsuc 0 }, el', k', m')
  close_fd (negsuc n) c el k m = (c, el, k, m)

  unfoldable pub tcp_connection_close : TcpConnection → ELoop → K → Memory → State K
  unfolding remove_watches
  tcp_connection_close c el k m = close_fd c.fd c el k m

  unfoldable pub tcp_connection_destroy : TcpConnection → ELoop → K → Memory → ELoop × K × Memory
  unfolding tcp_connection_close memory_destroy
  tcp_connection_destroy c el k m =
      let (_, el', k', m') = tcp_connection_close c el k m in (el', k', memory_destroy m')

  -- What adding a watch returns, with the loop, the kernel's state and the allocator.
  abbrev Watched : Type 0
  Watched = ℤ × ELoop × K × Memory

  -- A call of `event_loop_add_fd_watch` for a callback that is given, which asserts that the
  -- connection is open. `handler` is the function of this file that the loop calls, `self` the
  -- connection.
  abbrev watch : ℤ → ELoopWatchFdCallbackType → ℕ → ℕ → Option ℕ → ELoop → K → Memory → Run Watched
  watch fd type handler self none el k m = done (pos 0, el, k, m)
  watch (negsuc n) type handler self (some callback) el k m = fault
  watch (pos fd) type handler self (some callback) el k m =
      done (event_loop_add_fd_watch epoll_ctl el fd type handler (some self) k m)

  abbrev either : Option ℕ → Option ℕ → Option ℕ
  either none old = old
  either (some callback) old = some callback

  -- The handlers are `on_ready_read`, `on_ready_write` and `on_close`. The first component is false
  -- for the return of -1.
  unfoldable pub tcp_connection_set_callbacks :
      Slots ℕ
      → ℕ
      → TcpConnection
      → Slots (Option ℕ)
      → Option ℕ
      → ELoop
      → K
      → Memory
      → Run (Bool × State K)
  unfolding event_loop_add_fd_watch
  tcp_connection_set_callbacks handlers self c given user_data el k m =
      watch c.fd eloop_callback_read handlers.read self given.read el k m >>= λ (ret₁, el₁, k₁, m₁).
      if ltb_ℤ ret₁ (pos 0)
      then done (false, (c, el₁, k₁, m₁))
      else (let c₁ : TcpConnection = record c {
        read_callback = either given.read c.read_callback;
      } in
          watch c.fd eloop_callback_write handlers.write self given.write el₁ k₁ m₁
          >>= λ (ret₂, el₂, k₂, m₂).
              if ltb_ℤ ret₂ (pos 0)
              then done (false, (c₁, el₂, k₂, m₂))
              else (let c₂ : TcpConnection = record c₁ {
                write_callback = either given.write c.write_callback;
              } in
                  watch c.fd eloop_callback_close handlers.close self given.close el₂ k₂ m₂
                  >>= λ (ret₃, el₃, k₃, m₃).
                      if not (is_zero ret₃)
                      then done (false, (c₂, el₃, k₃, m₃))
                      else (let c₃ : TcpConnection = record c₂ {
                        close_callback = either given.close c.close_callback;
                        user_data = user_data;
                      } in
                          done (true, (c₃, el₃, k₃, m₃)))))

-- What `recv` gives: bytes, none of them at the end of the stream, EAGAIN or another error.
pub data Received : Type 0 where
  bytes : List ℕ → Received
  again broken : Received

unfoldable pub tcp_connection_read_data :
    {K : Type 0} (recv : ℤ → ℕ → K → Received × K) → TcpConnection → ℕ → K → Received × K
tcp_connection_read_data recv c n k = recv c.fd n k

-- The result is what `send` returns.
unfoldable pub tcp_connection_write_data :
    {K : Type 0} (send : ℤ → List ℕ → K → ℤ × K) → TcpConnection → List ℕ → K → ℤ × K
tcp_connection_write_data send c payload k = send c.fd payload k

unfoldable tcp_connection_sendfile :
    {K : Type 0} (sendfile : ℤ → ℕ → ℕ → K → ℤ × K) → TcpConnection → ℕ → ℕ → K → ℤ × K
tcp_connection_sendfile sendfile c file_fd n k = sendfile c.fd file_fd n k

-- The three handlers that the loop calls: the callback is called with the connection's data where
-- there is one, and 0 is returned.
module _ {W : Type 0} (call : ℕ → Option ℕ → W → W) where
  abbrev ready : Option ℕ → Option ℕ → W → ℤ × W
  ready none user_data w = (pos 0, w)
  ready (some callback) user_data w = (pos 0, call callback user_data w)

  unfoldable on_ready_read : TcpConnection → W → ℤ × W
  on_ready_read c w = ready c.read_callback c.user_data w

  unfoldable on_ready_write : TcpConnection → W → ℤ × W
  on_ready_write c w = ready c.write_callback c.user_data w

  unfoldable on_close : TcpConnection → W → ℤ × W
  on_close c w = ready c.close_callback c.user_data w
