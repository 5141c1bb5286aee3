-- ===== src/HttpRequestQueue/Whole.antt =====
-- A message that arrives whole, without a body: what the parser's callbacks make of it.
use rapp.Prelude.{
  ℕ, suc, ◌+◌, ◌≤◌, ◌<◌, ◌≡◌, refl, sym, ◌∙◌, ap, false, not, Option, none, some, List, [], ◌∷◌,
  ◌++◌, arith, ◌==◌, lt→ltb, length, length-set, set, take, Memory, memory_create,
}
use rapp.Prelude.Granted.{Granted, create-Grown}
use rapp.Prelude.Run.{Run, done, ◌>>=◌}
use rapp.HttpRequest.{
  HttpRequest, HeaderMemoryRange, MemoryRange, range, blank_request, http_request_new,
  http_request_set_url_range, max_headers, url_field_max,
}
use rapp.HttpRequestQueue.{
  HttpRequestQueue, Message, store, max_requests, on_message_begin, on_url, on_message_complete,
  http_request_queue_get_next_request,
}
use rapp.HttpRequestQueue.Feed.{
  ParserEvent, message_begin, message_complete, url, headers_complete, react, feed, notified,
}
use rapp.HttpRequestQueue.Feeding.{
  header_events, count_headers, feed-Passes, feed_complete, set_url_fields-kept,
  headers_complete-whole, next_request-here,
}
use rapp.HttpRequestQueue.Headers.{Reading, headers-read, get_elem?-set, get_elem?-set_lt}

-- Between two messages: all requests were taken, and no bytes are left.
pub record Idle (i : ℕ) (q : HttpRequestQueue) : Type 0 where
  pub incoming : q.incoming_index ≡ i
  pub outgoing : q.outgoing_index ≡ i
  pub places : length q.requests ≡ max_requests
  pub no_header : q.current_header ≡ 0
  pub no_buffer : q.buffer ≡ none
  pub no_bytes : q.buffer_length ≡ 0

-- What the parser finds in a message without a body: the place of the URL and of its fields, and
-- the headers.
pub record Found : Type 0 where
  pub url_offset : ℕ
  pub url_length : ℕ
  pub url_fields : List (Option MemoryRange)
  pub headers : List HeaderMemoryRange
  pub message : Message

-- It is a message of the bytes `b` that fits into the arrays of a request.
pub record Fits (f : Found) (b : List ℕ) : Type 0 where
  pub fields : length f.url_fields ≤ url_field_max
  pub headers : length f.headers ≤ max_headers
  pub all_read : f.message.nread ≡ length b
  pub no_body : f.message.content_length ≡ 0

abbrev pub message_events : Found → List ParserEvent
message_events f =
    message_begin
    ∷ (url f.url_offset f.url_length (some f.url_fields)
        ∷ (header_events f.headers ++ headers_complete f.message ∷ (message_complete ∷ [])))

abbrev pub message_count : Found → ℕ
message_count f = suc (suc (count_headers 2 f.headers))

-- The request that the message makes.
pub record Describes (f : Found) (b : List ℕ) (r : HttpRequest) : Type 0 where
  pub method : r.method ≡ f.message.method
  pub url : r.url_range ≡ range f.url_offset f.url_length
  pub headers : take r.current_header r.headers_ranges ≡ f.headers
  pub buffer : r.headers_buffer ≡ some b
  pub is_last : r.is_last ≡ not f.message.keep_alive

module _ {R : Type 0}
    (callback : Option (HttpRequestQueue → R → Memory → Run (HttpRequestQueue × R × Memory)))
    (f : Found) (b : List ℕ) (i : ℕ) (q : HttpRequestQueue) (s : R) (m : Memory) where
  -- The message is read, and then the callback is called.
  pub feed-message :
      Idle i (record q { buffer = none; buffer_length = 0 })
      → i + 1 < max_requests
      → q.buffer ≡ some b
      → q.buffer_length ≡ length b
      → Fits f b
      → Granted m
      → (r' : HttpRequest) × (q' : HttpRequestQueue) × (m' : Memory) × (feed callback
            (message_events f)
            0
            q
            s
            m
          ≡ (notified callback q' s m' >>= λ (q'', s'', m'').
              done (message_count f, q'', s'', m'')))
        × Describes f b r'
        × (http_request_queue_get_next_request q'
            ≡ done (some r', record q' { outgoing_index = suc q'.outgoing_index }))
        × Idle (suc i) (record q' { outgoing_index = suc q'.outgoing_index })
        × Granted m'
  unfolding feed react on_message_begin http_request_new on_url http_request_set_url_range
      on_message_complete
  feed-message idle free buf len fits g =
      let (got, grown) = create-Grown m g in
      let m₁ = (memory_create m).1 in
      let at = f.url_offset in
      let asked : HttpRequest = record blank_request { url_range = range at f.url_length } in
      let (ranges, set_fields) =
        set_url_fields-kept at 0 f.url_fields asked refl (omega (arith, fits.fields)) in
      let named : HttpRequest = record asked { url_field_ranges = ranges } in
      let q₁ : HttpRequestQueue = record q {
        requests = set q.requests q.incoming_index (some blank_request);
      } in
      let q₂ = store q₁ named in
      let place : q.incoming_index < length q.requests =
        omega (arith, idle.incoming, idle.places) in
      let begun = get_elem?-set_lt q.requests q.incoming_index (some blank_request) place in
      let reading : Reading q₂ named = record {
        here = get_elem?-set q₁.requests q.incoming_index (some blank_request) (some named) begun;
        counted = idle.no_header;
        room = refl;
      } in
      let (q₃, r₃, passes, reading₃, headers, _, same, others) =
        headers-read f.headers q₂ named m₁ reading (omega (arith, fits.headers)) in
      let r₄ : HttpRequest = record r₃ {
        method = f.message.method;
        is_last = not f.message.keep_alive;
        headers_buffer = some b;
      } in
      let (m₂, complete, granted) =
        headers_complete-whole f.message q₃ r₃ b m₁ reading₃.here (others.buffer ∙ buf)
          (others.buffer_length ∙ len) fits.all_read fits.no_body grown.grants in
      let more : (suc q₃.incoming_index == max_requests) ≡ false =
        ground (arith, others.incoming_index, idle.incoming, free) in
      (
        r₄,
        record (store q₃ r₄) {
          buffer = none;
          buffer_length = 0;
          incoming_index = suc q₃.incoming_index;
          current_header = 0;
        },
        m₂,
        rw (lt→ltb q.incoming_index (length q.requests) place, got, begun, set_fields)
            (feed-Passes callback f.headers (headers_complete f.message ∷ (message_complete ∷ [])) 2
                q₂ q₃ s m₁ passes
              ∙ rw complete (
                  feed_complete callback (suc (count_headers 2 f.headers))
                    (record (store q₃ r₄) { buffer = none; buffer_length = 0 }) s m₂ more)),
        record {
          method = refl;
          url = ap HttpRequest.url_range same;
          headers = headers;
          buffer = refl;
          is_last = refl;
        },
        next_request-here
            (record (store q₃ r₄) {
              buffer = none;
              buffer_length = 0;
              incoming_index = suc q₃.incoming_index;
              current_header = 0;
            })
            q₃.incoming_index r₄
            ((others.outgoing_index ∙ idle.outgoing) ∙ sym (others.incoming_index ∙ idle.incoming))
            (get_elem?-set q₃.requests q₃.incoming_index (some r₃) (some r₄) reading₃.here),
        record {
          incoming = ap suc (others.incoming_index ∙ idle.incoming);
          outgoing = ap suc (others.outgoing_index ∙ idle.outgoing);
          places =
              length-set q₃.requests q₃.incoming_index (some r₄)
              ∙ (others.places
                  ∙ (length-set q₁.requests q.incoming_index (some named)
                      ∙ (length-set q.requests q.incoming_index (some blank_request)
                          ∙ idle.places)));
          no_header = refl;
          no_buffer = refl;
          no_bytes = refl;
        },
        granted,
      )
