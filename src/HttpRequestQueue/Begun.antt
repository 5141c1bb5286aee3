-- ===== src/HttpRequestQueue/Begun.antt =====
-- A message from its beginning to its last header.
use rapp.HttpRequestQueue.{on_message_begin}
use rapp.HttpRequest.{blank_request, http_request_new}
use rapp.Prelude.Granted.{Granted, create-Grown}
use rapp.Prelude.{memory_create}
use rapp.Prelude.{lt→ltb}
use rapp.Prelude.{
  ◌≤◌, ◌<◌, ◌≡◌, refl, true, some, List, arith, length, get_elem?, take, set, Memory,
}
use rapp.Prelude.Run.{done}
use rapp.HttpRequest.{HttpRequest, HeaderMemoryRange, max_headers}
use rapp.HttpRequestQueue.{HttpRequestQueue}
use rapp.HttpRequestQueue.Headers.{
  Reading, get_elem?-set_lt, headers-read, on_headers, on_headers-Passes,
}

-- Where a place is free and memory is granted, a message begins with a new request, and a hundred
-- headers at most, each a field and a value, are all that the request holds then, in their order.
on_message_begin-headers :
    (hs : List HeaderMemoryRange) (q : HttpRequestQueue) (m : Memory)
    → q.incoming_index < length q.requests
    → q.current_header ≡ 0
    → length hs ≤ max_headers
    → Granted m
    → (q₁ : HttpRequestQueue) × (q' : HttpRequestQueue) × (m' : Memory) × (r' : HttpRequest)
      × (on_message_begin q m ≡ done (true, q₁, m'))
      × (on_headers hs q₁ m' ≡ done (true, q', m'))
      × (get_elem? q'.requests q'.incoming_index ≡ some (some r'))
      × (take r'.current_header r'.headers_ranges ≡ hs)
      × (q'.current_header ≡ length hs)
unfolding on_message_begin http_request_new
on_message_begin-headers hs q m i z l g =
    let (got, _) = create-Grown m g in
    let q₁ : HttpRequestQueue = record q {
      requests = set q.requests q.incoming_index (some blank_request);
    } in
    let v : Reading q₁ blank_request = record {
      here = get_elem?-set_lt q.requests q.incoming_index (some blank_request) i;
      counted = z;
      room = refl;
    } in
    let (q', r', p, v', t, n, _, _) =
      headers-read hs q₁ blank_request (memory_create m).1 v (omega arith) in
    (
      q₁,
      q',
      (memory_create m).1,
      r',
      rw (lt→ltb q.incoming_index (length q.requests) i, got) refl,
      on_headers-Passes hs q₁ q' (memory_create m).1 p,
      v'.here,
      t,
      omega (arith, v'.counted, n),
    )
