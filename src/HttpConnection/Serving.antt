-- ===== src/HttpConnection/Serving.antt =====
-- From the socket to the router: `on_read` of src/httpconnection.c where a message arrives whole.
use rapp.Prelude.{
  ℕ, suc, ◌+◌, ◌<◌, ◌≡◌, refl, ap, Bool, true, false, not, Option, none, some, List, ◌∷◌, ◌==◌,
  arith, length, if◌then◌else◌, ==_iff, ℤ, Memory, memory_resize,
}
use rapp.Prelude.Granted.{Granted, resize-Granted}
use rapp.Prelude.Run.{Run, done, fault, ◌>>=◌}
use rapp.HttpRequest.{HttpRequest, http_request_is_last, http_request_destroy}
use rapp.HttpRequestQueue.{
  HttpRequestQueue, max_requests, append_to_buffer, http_request_queue_get_next_request,
}
use rapp.HttpRequestQueue.Feed.{ParserEvent, notified, http_request_queue_append_data}
use rapp.HttpRequestQueue.Whole.{
  Idle, Found, Fits, Describes, message_events, message_count, feed-message,
}
use rapp.HttpResponse.{HttpResponse, http_response_set_last}
use rapp.HttpRouter.{http_router_serve}
use rapp.Eloop.{ELoop, EpollOperation, Slots}
use rapp.TcpConnection.{Received, bytes, tcp_connection_read_data}
use rapp.HttpConnection.{HttpConnection, State, bufsize, on_new_request, on_read, finished}

append_to_buffer-empty :
    (b : List ℕ) (q : HttpRequestQueue) (m : Memory)
    → q.buffer ≡ none
    → q.buffer_length ≡ 0
    → Granted m
    → append_to_buffer b q m
      ≡ (some 0, record q { buffer = some b; buffer_length = length b }, (memory_resize false m).1)
unfolding append_to_buffer
append_to_buffer-empty b q m no_buffer no_bytes g =
    let (got, _, _) = resize-Granted false m g in
    let none_before : 0 + length b ≡ length b = omega arith in
    rw (no_buffer, no_bytes, got, none_before) refl

abbrev leaving :
    HttpRequest
    → HttpRequestQueue
    → ℤ × HttpResponse × Memory
    → Run (HttpRequestQueue × HttpResponse × Memory)
leaving r q (_, response, m) = done (q, response, http_request_destroy r m)

module _ {P R : Type 0}
    (callback : Option (HttpRequestQueue → R → Memory → Run (HttpRequestQueue × R × Memory)))
    (execute : P → List ℕ → ℕ → List ParserEvent × (ℕ → ℕ) × P) (f : Found) (b : ℕ) (bs : List ℕ)
    (i : ℕ) (parsed : ℕ → ℕ) (p p' : P) (q : HttpRequestQueue) (s : R) (m : Memory) where
  abbrev counting : ℕ → HttpRequestQueue × R × Memory → Run (ℕ × HttpRequestQueue × R × Memory)
  counting count (q', s', m') = done (count, q', s', m')

  abbrev compared :
      ℕ × HttpRequestQueue × R × Memory → Run (Bool × P × HttpRequestQueue × R × Memory)
  compared (made, q', s', m') = done (parsed made == length (b ∷ bs), p', q', s', m')

  abbrev accepted : HttpRequestQueue × R × Memory → Run (Bool × P × HttpRequestQueue × R × Memory)
  accepted (q', s', m') = done (true, p', q', s', m')

  all_read :
      (n : Run (HttpRequestQueue × R × Memory)) (count : ℕ)
      → parsed count ≡ length (b ∷ bs)
      → (n >>= counting count >>= compared) ≡ (n >>= accepted)
  all_read (done x) count all = rw ((==_iff (parsed count) (length (b ∷ bs))).1 all) refl
  all_read fault count all = refl

  append_data-message :
      Idle i q
      → i + 1 < max_requests
      → Fits f (b ∷ bs)
      → Granted m
      → execute p (b ∷ bs) 0 ≡ (message_events f, parsed, p')
      → parsed (message_count f) ≡ length (b ∷ bs)
      → (r' : HttpRequest) × (q' : HttpRequestQueue) × (m' : Memory)
        × (http_request_queue_append_data callback execute (b ∷ bs) p q s m
            ≡ (notified callback q' s m' >>= λ (q'', s'', m''). done (true, p', q'', s'', m'')))
        × Describes f (b ∷ bs) r'
        × (http_request_queue_get_next_request q'
            ≡ done (some r', record q' { outgoing_index = suc q'.outgoing_index }))
        × Idle (suc i) (record q' { outgoing_index = suc q'.outgoing_index })
        × Granted m'
  unfolding http_request_queue_append_data
  append_data-message idle free fits g found all =
      let (_, g₁, _) = resize-Granted false m g in
      let (r', q', m', fed, describes, next, idle', g') =
        feed-message callback f (b ∷ bs) i
          (record q { buffer = some (b ∷ bs); buffer_length = length (b ∷ bs) }) s
          (memory_resize false m).1
          (record {
            incoming = idle.incoming;
            outgoing = idle.outgoing;
            places = idle.places;
            no_header = idle.no_header;
            no_buffer = refl;
            no_bytes = refl;
          })
          free refl refl fits g₁ in
      let nonempty : (length (b ∷ bs) == 0) ≡ false = ground arith in
      let placed = append_to_buffer-empty (b ∷ bs) q m idle.no_buffer idle.no_bytes g in
      let at = ap (λ (z : Option ℕ × HttpRequestQueue × Memory). z.0) placed in
      let queue = ap (λ (z : Option ℕ × HttpRequestQueue × Memory). z.1) placed in
      let memory = ap (λ (z : Option ℕ × HttpRequestQueue × Memory). z.2) placed in
      (
        r',
        q',
        m',
        rw (nonempty, at, queue, memory, found, fed)
            (all_read (notified callback q' s m') (message_count f) all),
        describes,
        next,
        idle',
        g',
      )

module _ {P K : Type 0} (epoll_ctl : EpollOperation → ℕ → Option (Slots Bool) → K → ℤ × K)
    (finish : ℕ → ℕ → Option ℕ → ELoop → Memory → ELoop × Memory) (self : ℕ)
    (recv : ℤ → ℕ → K → Received × K) (execute : P → List ℕ → ℕ → List ParserEvent × (ℕ → ℕ) × P)
    (f : Found) (b : ℕ) (bs : List ℕ) (i : ℕ) (parsed : ℕ → ℕ) (p' : P) (c : HttpConnection P)
    (el : ELoop) (k : K) (m : Memory) where
  abbrev after_read : K
  after_read = (tcp_connection_read_data recv c.tcp_connection bufsize k).1

  abbrev beside_parser :
      HttpRequestQueue × HttpResponse × Memory
      → Run (Bool × P × HttpRequestQueue × HttpResponse × Memory)
  beside_parser (q, response, m) = done (true, p', q, response, m)

  answered :
      (r : HttpRequest) (q : HttpRequestQueue) (n : Run (ℤ × HttpResponse × Memory))
      → (n >>= leaving r q >>= beside_parser >>= λ (ok, p'', q', response, m').
          let s : State P K = (
            record c { parser = p''; request_queue = q'; response = response },
            el,
            after_read,
            m',
          ) in
          if ok then done s else finished epoll_ctl finish self s)
        ≡ (n >>= λ (_, response, m'). done (
          record c { parser = p'; request_queue = q; response = response },
          el,
          after_read,
          http_request_destroy r m',
        ))
  answered r q (done x) = refl
  answered r q fault = refl

  -- A whole message without a body arrives at a connection between two messages, and the parser finds
  -- it: where memory is granted, the fields and headers fit and the queue has room, reading hands the
  -- router one request, with the method, the URL, the headers and the bytes of the message, whose
  -- response is the last unless the connection is kept alive. The request is destroyed afterwards, and
  -- the queue is between two messages again.
  pub on_read-served :
      (tcp_connection_read_data recv c.tcp_connection bufsize k).0 ≡ bytes (b ∷ bs)
      → execute c.parser (b ∷ bs) 0 ≡ (message_events f, parsed, p')
      → parsed (message_count f) ≡ length (b ∷ bs)
      → Fits f (b ∷ bs)
      → Idle i c.request_queue
      → i + 1 < max_requests
      → Granted m
      → (r : HttpRequest) × (q : HttpRequestQueue) × (m' : Memory) × (on_read epoll_ctl finish self
            recv execute
            (c, el, k, m)
          ≡ (http_router_serve c.router r
                (record c.response { is_last = not f.message.keep_alive })
                m'
              >>= λ (_, response, m''). done (
                record c { parser = p'; request_queue = q; response = response },
                el,
                after_read,
                http_request_destroy r m'',
              )))
        × Describes f (b ∷ bs) r
        × Idle (suc i) q
        × Granted m'
  unfolding on_read on_new_request http_request_is_last http_response_set_last
  on_read-served received found all fits idle free g =
      let (r, q, m', appended, describes, next, idle', g') =
        append_data-message (some (on_new_request c.router)) execute f b bs i parsed c.parser p'
          c.request_queue c.response m idle free fits g found all in
      (
        r,
        record q { outgoing_index = suc q.outgoing_index },
        m',
        rw (on_read, received, appended, next, describes.is_last)
            (answered r (record q { outgoing_index = suc q.outgoing_index })
              (http_router_serve c.router r
                (record c.response { is_last = not f.message.keep_alive }) m')),
        describes,
        idle',
        g',
      )
