-- ===== src/HttpRequestQueue.antt =====
-- src/httprequestqueue.c: the callbacks of the parser, which fill in the requests of a connection.
-- The parser is outside the program: `at` is where its pointer stands in the queue's buffer, and
-- what it says of a message is an argument. A callback returns true for 0 and false for -1.
pub mod Feed
pub mod Feeding
pub mod Begun
pub mod Headers
pub mod Payload
pub mod Whole
use rapp.Prelude.{
  ℕ, zero, suc, ◌+◌, ◌-◌, Bool, true, false, not, Option, none, some, List, [], ◌∷◌, ltb, leb, ◌==◌,
  if◌then◌else◌, length, get_elem?, take, drop, set, replicate, Memory, memory_create,
  memory_resize, memory_destroy, ◌++◌,
}
use rapp.Prelude.Run.{Run, done, fault, ◌>>=◌, read_block}
use rapp.HttpRequest.{
  HttpRequest, MemoryRange, http_request_new, http_request_set_method, http_request_set_last,
  http_request_set_url_range, http_request_set_url_field_range, http_request_set_header_key_range,
  http_request_set_header_value_range, http_request_set_headers_buffer,
  http_request_set_body_length, http_request_append_body_data, max_headers,
}

abbrev pub max_requests : ℕ
max_requests = 100

pub record HttpRequestQueue : Type 0 where
  pub current_header : ℕ
  pub requests : List (Option HttpRequest)
  pub incoming_index : ℕ
  pub outgoing_index : ℕ
  pub buffer : Option (List ℕ)
  pub buffer_length : ℕ

-- `calloc` zeroes every field.
abbrev pub empty_queue : HttpRequestQueue
empty_queue = record {
  current_header = 0;
  requests = replicate max_requests none;
  incoming_index = 0;
  outgoing_index = 0;
  buffer = none;
  buffer_length = 0;
}

unfoldable pub http_request_queue_new : Memory → Option HttpRequestQueue × Memory
unfolding memory_create
http_request_queue_new m =
    let (got, m') = memory_create m in (if got then some empty_queue else none, m')

abbrev pub release : Option (List ℕ) → Memory → Memory
release none m = m
release (some b) m = memory_destroy m

unfoldable pub http_request_queue_destroy : HttpRequestQueue → Memory → Memory
unfolding memory_destroy
http_request_queue_destroy q m = memory_destroy (release q.buffer m)

abbrev pub Outcome : Type 0
Outcome = Run (Bool × HttpRequestQueue × Memory)

-- `queue->requests[queue->incoming_index]`: past the array and through a null pointer is a fault.
abbrev incoming : HttpRequestQueue → Run HttpRequest
incoming q = present (get_elem? q.requests q.incoming_index)
  where
    present : Option (Option HttpRequest) → Run HttpRequest
    present none = fault
    present (some none) = fault
    present (some (some r)) = done r

abbrev pub store : HttpRequestQueue → HttpRequest → HttpRequestQueue
store q r = record q { requests = set q.requests q.incoming_index (some r) }

unfoldable pub on_message_begin : HttpRequestQueue → Memory → Outcome
unfolding http_request_new
on_message_begin q m =
    if ltb q.incoming_index (length q.requests)
    then (let (request, m') = http_request_new m in
        done (
          elim request [ none ↦ false | some r ↦ true ],
          record q { requests = set q.requests q.incoming_index request },
          m',
        ))
    else fault

-- The loop over the URL's fields, from field `i` on: what the parser found of each.
unfoldable pub set_url_fields : ℕ → ℕ → List (Option MemoryRange) → HttpRequest → Run HttpRequest
unfolding http_request_set_url_field_range
set_url_fields at i [] r = done r
set_url_fields at i (none ∷ fs) r = set_url_fields at (suc i) fs r
set_url_fields at i (some f ∷ fs) r =
    http_request_set_url_field_range r i (at + f.offset) f.length >>= λ r'.
    set_url_fields at (suc i) fs r'

-- `fields` is what `http_parser_parse_url` makes of the URL, `none` where it fails.
unfoldable pub on_url :
    ℕ → ℕ → Option (List (Option MemoryRange)) → HttpRequestQueue → Memory → Outcome
unfolding set_url_fields http_request_set_url_range
on_url at n none q m = done (false, q, m)
on_url at n (some fields) q m = incoming q >>= λ r.
    set_url_fields at 0 fields (http_request_set_url_range r at n) >>= λ r'.
    done (true, store q r', m)

unfoldable pub on_header_field : ℕ → ℕ → HttpRequestQueue → Memory → Outcome
unfolding http_request_set_header_key_range
on_header_field at n q m =
    if leb max_headers q.current_header
    then done (false, q, m)
    else (incoming q >>= λ r. http_request_set_header_key_range r q.current_header at n >>= λ r'.
        done (true, store q r', m))

unfoldable pub on_header_value : ℕ → ℕ → HttpRequestQueue → Memory → Outcome
unfolding http_request_set_header_value_range
on_header_value at n q m = incoming q >>= λ r.
    http_request_set_header_value_range r q.current_header at n >>= λ r'.
    done (true, record (store q r') { current_header = suc q.current_header }, m)

-- What the parser says of the message whose headers are complete; `content_length` is 0 where it
-- gives no positive length.
pub record Message : Type 0 where
  pub method : ℕ
  pub keep_alive : Bool
  pub nread : ℕ
  pub content_length : ℕ

abbrev block : Option (List ℕ) → List ℕ
block none = []
block (some b) = b

-- The headers leave the front of the buffer: freed where nothing is left, else moved down and
-- resized. The first component is false for the return of -1.
unfoldable pub drop_front : ℕ → HttpRequestQueue → Memory → Bool × HttpRequestQueue × Memory
unfolding memory_resize memory_destroy
drop_front n q m =
    let left = q.buffer_length - n in
    if left == 0
    then (true, record q { buffer = none; buffer_length = 0 }, release q.buffer m)
    else let (got, m') = memory_resize true m in
      (
        got,
        record q {
          buffer = if got then some (take left (drop n (block q.buffer))) else none;
          buffer_length = left;
        },
        m',
      )

-- `http_request_set_body_length` where there is a body.
unfoldable pub set_body : ℕ → HttpRequest → Memory → Run (Bool × HttpRequest × Memory)
unfolding http_request_set_body_length
set_body n r m = if ltb 0 n then http_request_set_body_length r n m else done (true, r, m)

unfoldable pub on_headers_complete : Message → HttpRequestQueue → Memory → Outcome
unfolding http_request_set_method http_request_set_last http_request_set_headers_buffer drop_front
    set_body
on_headers_complete msg q m = incoming q >>= λ r.
    let r₁ = http_request_set_last (http_request_set_method r msg.method) (not msg.keep_alive) in
    read_block (block q.buffer) 0 msg.nread >>= λ headers.
    let (got, r₂, m₁) = http_request_set_headers_buffer r₁ headers m in
    if not got
    then done (false, store q r₂, m₁)
    else let (kept, q', m₂) = drop_front msg.nread q m₁ in
      if not kept
      then done (false, store q' r₂, m₂)
      else (set_body msg.content_length r₂ m₂ >>= λ (ready, r₃, m₃). done (ready, store q' r₃, m₃))

unfoldable pub on_body : ℕ → ℕ → HttpRequestQueue → Memory → Outcome
unfolding http_request_append_body_data
on_body at n q m = incoming q >>= λ r. read_block (block q.buffer) at n >>= λ bytes.
    http_request_append_body_data r bytes >>= λ r'. done (true, store q r', m)

-- The flag of the last request that the queue can hold; a null pointer there is a fault.
abbrev mark_last : HttpRequestQueue → Run HttpRequestQueue
mark_last q = incoming q >>= λ r. done (store q (http_request_set_last r true))

-- Before the callback for new requests is called.
unfoldable pub on_message_complete : HttpRequestQueue → Run HttpRequestQueue
unfolding http_request_set_last
on_message_complete q =
    (if suc q.incoming_index == max_requests then mark_last q else done q) >>= λ q'.
    done (record q' { incoming_index = suc q.incoming_index; current_header = 0 })

-- `http_request_queue_append_data` up to the call of the parser, which gets the place of the new
-- bytes in the buffer.
unfoldable pub append_to_buffer :
    List ℕ → HttpRequestQueue → Memory → Option ℕ × HttpRequestQueue × Memory
unfolding memory_resize
append_to_buffer bytes q m =
    let (got, m') = memory_resize (elim q.buffer [ none ↦ false | some b ↦ true ]) m in
    if not got then (none, record q { buffer = none }, m') else (
      some q.buffer_length,
      record q {
        buffer = some (take q.buffer_length (block q.buffer) ++ bytes);
        buffer_length = q.buffer_length + length bytes;
      },
      m',
    )

unfoldable pub http_request_queue_get_next_request :
    HttpRequestQueue → Run (Option HttpRequest × HttpRequestQueue)
http_request_queue_get_next_request q = taken (get_elem? q.requests q.outgoing_index)
  where
    taken : Option (Option HttpRequest) → Run (Option HttpRequest × HttpRequestQueue)
    taken none = fault
    taken (some r) = done (r, record q { outgoing_index = suc q.outgoing_index })
