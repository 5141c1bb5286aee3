-- ===== src/Tests/Connections.antt =====
-- A connection that reads a request and writes its response: src/httpconnection.c.
use rapp.Prelude.{
  ℕ, ◌≡◌, refl, Bool, true, false, not, Option, none, some, List, [], ◌∷◌, ◌++◌, arith, codes,
  length, take, drop, ℤ, pos, Memory, generous,
}
use rapp.Prelude.Granted.{Granted}
use rapp.Prelude.Run.{done, ◌>>=◌}
use rapp.Collector.{is_scheduled}
use rapp.Container.{Container, null_init, null_destroy, null_serve}
use rapp.Eloop.{ELoop, EpollOperation, Slots}
use rapp.Eloop.Entries.{Distinct, IsValid}
use rapp.HttpRequest.{HttpRequest, http_request_destroy, range}
use rapp.HttpRequestQueue.{HttpRequestQueue, empty_queue}
use rapp.HttpRequestQueue.Feed.{ParserEvent}
use rapp.HttpRequestQueue.Whole.{Idle, Found, Describes, message_events}
use rapp.HttpResponse.{HttpResponse}
use rapp.HttpResponse.Buffer.{content}
use rapp.HttpRouter.{HttpRouter, route_match_first, http_router_serve}
use rapp.TcpConnection.{Received, bytes, tcp_connection_read_data}
use rapp.HttpConnection.{HttpConnection, bufsize, on_read, on_write}
use rapp.HttpConnection.Writing.{Ready, on_write-content}
use rapp.HttpConnection.Sending.{Taking, write_events}
use rapp.HttpConnection.Serving.{on_read-served}
use rapp.HttpServer.{on_request_finish}
use rapp.HttpServer.Closing.{Finished, write_events-Finished}

-- A socket that takes every byte; the kernel's state is what it took.
abbrev send : ℤ → List ℕ → List ℕ → ℤ × List ℕ
send fd payload taken = (pos (length payload), taken ++ payload)

abbrev epoll_ctl : EpollOperation → ℕ → Option (Slots Bool) → List ℕ → ℤ × List ℕ
epoll_ctl op fd mask taken = (pos 0, taken)

abbrev request_line : List ℕ
request_line = codes "ET /a HTTP/1.1\r\nHost: x\r\n\r\n"

abbrev recv : ℤ → ℕ → List ℕ → Received × List ℕ
recv fd n taken = (bytes (b'G' ∷ request_line), taken)

abbrev idle : ELoop
idle = record {
  collector = record { collect_entries_list = [] };
  callbacks_list = [];
  running = true;
}

idle-IsValid : IsValid idle
unfolding Distinct
idle-IsValid = record { consistent = tt; distinct = tt }

abbrev hello : HttpResponse
hello = record {
  buffer = some (codes "hello");
  buffer_length = 5;
  server_name = codes "rapp";
  is_last = true;
}

abbrev null : Container
null = record {
  plugin = false;
  handle = some 1;
  name = codes "default";
  serve = null_serve;
  destroy = null_destroy;
  init = null_init;
}

abbrev router : HttpRouter
router = record {
  packs = [];
  last = 0;
  null_container = null;
  starter = none;
  match_mode = route_match_first;
}

-- The parser has no state.
abbrev connection : HttpConnection ℕ
connection = record {
  tcp_connection = record {
    fd = pos 5;
    read_callback = some 40;
    write_callback = some 41;
    close_callback = some 42;
    user_data = some 43;
  };
  finish_callback = some 90;
  user_data = some 91;
  request_queue = empty_queue;
  parser = 0;
  response = hello;
  router = router;
}

abbrev one : Memory
one = record generous { live = 1 }

hello-Ready : Ready hello one
hello-Ready = record {
  valid = record { counted = refl; held = λ e. omega arith };
  granted = λ n. refl;
  counted = omega arith;
}

abbrev taking : Taking epoll_ctl send (pos 5)
taking = record {
  sent = λ taken. taken;
  takes = λ payload taken. refl;
  polls = λ op fd mask taken. refl;
}

write_events-Finished_example :
    (let finish = on_request_finish 95 in
      (c' : HttpConnection ℕ) × (el' : ELoop) × (k' : List ℕ) × (m' : Memory) × ((write_events
            epoll_ctl finish 200 send 1
            (connection, idle, [], one)
          >>= λ s. on_write epoll_ctl finish 200 send s)
        ≡ done (c', el', k', m'))
      × (k' ≡ codes "hello")
      × Finished epoll_ctl 95 200 5 idle c' el')
unfolding is_scheduled
write_events-Finished_example =
    write_events-Finished epoll_ctl 95 200 send 1 5 90 connection idle [] one taking refl refl refl
      idle-IsValid hello-Ready (record { covers = omega arith; needed = omega arith }) refl

on_write-content_example :
    (r' : HttpResponse) × (m' : Memory) × (on_write epoll_ctl
        (on_request_finish 95)
        200
        send
        (connection, idle, [], one)
      ≡ done (
        record connection { response = r' },
        idle,
        (send (pos 5) (take bufsize (codes "hello")) []).1,
        m',
      ))
    × (content r' ≡ drop bufsize (codes "hello"))
    × (r'.is_last ≡ true)
    × Ready r' m'
on_write-content_example =
    on_write-content epoll_ctl (on_request_finish 95) 200 send connection idle [] one hello-Ready
      (omega arith)

-- What http_parser finds in the request.
abbrev found : Found
found = record {
  url_offset = 4;
  url_length = 2;
  url_fields = none ∷ (none ∷ (none ∷ (some (range 0 2) ∷ [])));
  headers = record { key = range 17 4; value = range 23 1 } ∷ [];
  message = record { method = 1; keep_alive = false; nread = 28; content_length = 0 };
}

abbrev execute : ℕ → List ℕ → ℕ → List ParserEvent × (ℕ → ℕ) × ℕ
execute parser text at = (message_events found, λ made. 28, parser)

on_read-served_example :
    (r : HttpRequest) × (q : HttpRequestQueue) × (m' : Memory) × (on_read epoll_ctl
        (on_request_finish 95)
        200
        recv
        execute
        (connection, idle, [], one)
      ≡ (http_router_serve router r (record hello { is_last = not false }) m'
          >>= λ (_, response, m''). done (
            record connection { request_queue = q; response = response },
            idle,
            [],
            http_request_destroy r m'',
          )))
    × Describes found (b'G' ∷ request_line) r
    × Idle 1 q
    × Granted m'
unfolding tcp_connection_read_data
on_read-served_example =
    on_read-served epoll_ctl (on_request_finish 95) 200 recv execute found b'G' request_line 0
      (λ made. 28) 0 connection idle [] one refl refl refl
      (record { fields = omega arith; headers = omega arith; all_read = refl; no_body = refl })
      (record {
        incoming = refl;
        outgoing = refl;
        places = refl;
        no_header = refl;
        no_buffer = refl;
        no_bytes = refl;
      })
      (omega arith) (λ n. refl)
