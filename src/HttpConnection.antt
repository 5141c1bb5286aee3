-- ===== src/HttpConnection.antt =====
-- src/httpconnection.c: a connection between its socket, its queue of requests, the router and its
-- response. `recv`, `send`, `epoll_ctl` and the parser are parameters, and so is `finish`, what the
-- finish callback does to the loop: it gets the callback's address, the connection's and the data.
-- The callbacks are called with the connection's data, so they are functions of the connection.
pub mod Writing
pub mod Sending
pub mod Finishing
pub mod Serving
use rapp.Prelude.{
  ℕ, Bool, true, false, not, ◌||◌, Option, none, some, List, [], ◌∷◌, if◌then◌else◌, length, ltb,
  Text, ℤ, Memory, memory_create, memory_destroy,
}
use rapp.Prelude.Run.{Run, done, fault, ◌>>=◌}
use rapp.HttpRequest.{HttpRequest, http_request_is_last, http_request_destroy}
use rapp.HttpRequestQueue.{
  HttpRequestQueue, http_request_queue_new, http_request_queue_destroy,
  http_request_queue_get_next_request,
}
use rapp.HttpRequestQueue.Feed.{ParserEvent, http_request_queue_append_data}
use rapp.HttpResponse.{
  HttpResponse, http_response_new, http_response_destroy, http_response_read_data,
  http_response_set_last, http_response_is_last,
}
use rapp.HttpRouter.{HttpRouter, http_router_serve}
use rapp.Eloop.{ELoop, EpollOperation, Slots}
use rapp.TcpConnection.{
  TcpConnection, Received, bytes, again, broken, tcp_connection_read_data,
  tcp_connection_write_data, tcp_connection_close, tcp_connection_destroy,
  tcp_connection_set_callbacks,
}

abbrev pub bufsize : ℕ
bufsize = 81920

pub record HttpConnection (P : Type 0) : Type 0 where
  pub tcp_connection : TcpConnection
  pub finish_callback : Option ℕ
  pub user_data : Option ℕ
  pub request_queue : HttpRequestQueue
  pub parser : P
  pub response : HttpResponse
  pub router : HttpRouter

-- The connection, the loop, the kernel's state and the allocator.
abbrev pub State : Type 0 → Type 0 → Type 0
State P K = HttpConnection P × ELoop × K × Memory

-- The callback for a new request: it changes the queue and the response.
unfoldable pub on_new_request :
    HttpRouter
    → HttpRequestQueue
    → HttpResponse
    → Memory
    → Run (HttpRequestQueue × HttpResponse × Memory)
unfolding http_request_queue_get_next_request http_request_is_last http_response_set_last
    http_router_serve http_request_destroy
on_new_request router q response m = http_request_queue_get_next_request q >>= λ (request, q').
    elim request [
      | none ↦ fault
      | some r ↦
          http_router_serve router r (http_response_set_last response (http_request_is_last r)) m
          >>= λ (_, response', m'). done (q', response', http_request_destroy r m')
    ]

-- `self` is the connection's address.
module _ {P K : Type 0} (epoll_ctl : EpollOperation → ℕ → Option (Slots Bool) → K → ℤ × K)
    (finish : ℕ → ℕ → Option ℕ → ELoop → Memory → ELoop × Memory) (self : ℕ) where
  -- A null callback is a fault.
  unfoldable pub finished : State P K → Run (State P K)
  finished (c, el, k, m) = elim c.finish_callback [
    | none ↦ fault
    | some callback ↦ let (el', m') = finish callback self c.user_data el m in done (c, el', k, m')
  ]

  unfoldable pub close_and_finish : State P K → Run (State P K)
  unfolding tcp_connection_close finished
  close_and_finish (c, el, k, m) =
      let (tcp, el', k', m') = tcp_connection_close epoll_ctl c.tcp_connection el k m in
      finished (record c { tcp_connection = tcp }, el', k', m')

  unfoldable pub on_write : (ℤ → List ℕ → K → ℤ × K) → State P K → Run (State P K)
  unfolding http_response_read_data tcp_connection_write_data http_response_is_last close_and_finish
  on_write send (c, el, k, m) =
      http_response_read_data bufsize c.response m >>= λ (got, response, m').
      let c' : HttpConnection P = record c { response = response } in
      let drained =
        if http_response_is_last response
        then close_and_finish (c', el, k, m')
        else done (c', el, k, m') in
      elim got [
        | none ↦ drained
        | some payload ↦
            if ltb 0 (length payload)
            then (let (_, k') = tcp_connection_write_data send c.tcp_connection payload k in
                done (c', el, k', m'))
            else drained
      ]

  unfoldable pub on_close : State P K → Run (State P K)
  unfolding close_and_finish
  on_close s = close_and_finish s

  unfoldable pub on_read :
      (ℤ → ℕ → K → Received × K)
      → (P → List ℕ → ℕ → List ParserEvent × (ℕ → ℕ) × P)
      → State P K
      → Run (State P K)
  unfolding tcp_connection_read_data http_request_queue_append_data on_new_request finished
  on_read recv execute (c, el, k, m) =
      let (received, k') = tcp_connection_read_data recv c.tcp_connection bufsize k in
      elim received [
        | broken ↦ finished (c, el, k', m)
        | again ↦ done (c, el, k', m)
        | bytes [] ↦ done (c, el, k', m)
        | bytes (b ∷ bs) ↦
            http_request_queue_append_data (some (on_new_request c.router)) execute (b ∷ bs)
              c.parser c.request_queue c.response m
            >>= λ (ok, p', q', response', m').
                let s : State P K = (
                  record c { parser = p'; request_queue = q'; response = response' },
                  el,
                  k',
                  m',
                ) in
                if ok then done s else finished s
      ]

unfoldable pub http_connection_set_finish_callback :
    {P : Type 0} → HttpConnection P → ℕ → Option ℕ → HttpConnection P
http_connection_set_finish_callback c finish_callback user_data = record c {
  finish_callback = some finish_callback;
  user_data = user_data;
}

-- The addresses of the functions that the connection is made with: the handlers of the loop of
-- src/tcpconnection.c, and `on_read`, `on_write` and `on_close` above.
pub record Addresses : Type 0 where
  pub handlers : Slots ℕ
  pub callbacks : Slots ℕ

module _ {K : Type 0} (epoll_ctl : EpollOperation → ℕ → Option (Slots Bool) → K → ℤ × K) where
  abbrev Given : Type 0
  Given = TcpConnection × ELoop × K × Memory

  -- The callbacks are set, and what that returns is not looked at.
  abbrev with_callbacks :
      {P : Type 0}
      → Addresses
      → ℕ
      → ℕ
      → HttpConnection P
      → Given
      → Run (Option (HttpConnection P) × Given)
  with_callbacks a self tcp_self c (tcp, el, k, m) =
      tcp_connection_set_callbacks epoll_ctl a.handlers tcp_self tcp
        (record {
          read = some a.callbacks.read;
          write = some a.callbacks.write;
          close = some a.callbacks.close;
        })
        (some self) el k m
      >>= λ (_, (tcp', el', k', m')).
          done (some (record c { tcp_connection = tcp' }), (tcp', el', k', m'))

  -- `self` and `tcp_self` are the addresses of the connection and of its TCP connection, `banner` is
  -- what `rapp_get_banner` gives and `parser` what `http_parser_init` makes.
  unfoldable pub http_connection_new :
      {P : Type 0}
      → Addresses
      → ℕ
      → ℕ
      → P
      → Text
      → HttpRouter
      → Given
      → Run (Option (HttpConnection P) × Given)
  unfolding memory_create http_request_queue_new memory_destroy http_response_new
      tcp_connection_set_callbacks
  http_connection_new a self tcp_self parser banner router (tcp, el, k, m) =
      let (got, m₁) = memory_create m in
      if not got
      then done (none, (tcp, el, k, m₁))
      else let (queue, m₂) = http_request_queue_new m₁ in
        elim queue [
          | none ↦ done (none, (tcp, el, k, memory_destroy m₂))
          | some q ↦
              let (response, m₃) = http_response_new banner m₂ in
              elim response [
                | none ↦ done (none, (tcp, el, k, memory_destroy (memory_destroy m₃)))
                | some r ↦
                    with_callbacks a self tcp_self
                      (record {
                        tcp_connection = tcp;
                        finish_callback = none;
                        user_data = none;
                        request_queue = q;
                        parser = parser;
                        response = r;
                        router = router;
                      })
                      (tcp, el, k, m₃)
              ]
        ]

  unfoldable http_connection_destroy :
      {P : Type 0} → HttpConnection P → ELoop → K → Memory → ELoop × K × Memory
  unfolding tcp_connection_destroy http_request_queue_destroy http_response_destroy memory_destroy
  http_connection_destroy c el k m =
      let (el', k', m₁) = tcp_connection_destroy epoll_ctl c.tcp_connection el k m in
      (
        el',
        k',
        memory_destroy
            (http_response_destroy c.response (http_request_queue_destroy c.request_queue m₁)),
      )
