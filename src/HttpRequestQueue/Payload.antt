-- ===== src/HttpRequestQueue/Payload.antt =====
-- The buffer when the headers are complete, the body behind them, and the end of the array.
use rapp.Prelude.{==_iff, length-set}
use rapp.HttpRequestQueue.Headers.{get_elem?-set}
use rapp.Prelude.{
  ℕ, suc, ◌+◌, ◌-◌, ◌<◌, ◌≡◌, refl, sym, true, false, not, some, List, arith, ltb, leb, ◌==◌,
  lt→ltb, le→leb, lt→not_leb, length, length-drop, get_elem?, take, take-all, drop, set, replicate,
  Memory, memory_create, memory_resize,
}
use rapp.Prelude.Granted.{Granted, create-Grown, resize-Granted}
use rapp.Prelude.Run.{done, fault}
use rapp.HttpRequest.{
  HttpRequest, http_request_set_last, http_request_set_method, http_request_set_headers_buffer,
  http_request_set_body_length,
}
use rapp.HttpRequestQueue.{
  HttpRequestQueue, Message, max_requests, drop_front, set_body, on_headers_complete, on_body,
  on_message_complete, on_message_begin, store,
}

-- Where memory is granted, bytes stand behind the headers and the message has a body: completed
-- headers take the first `nread` bytes of the buffer into the request, leave the queue the bytes
-- behind them, and give the request a zeroed body of the length that the parser gives.
on_headers_complete-split :
    (msg : Message) (q : HttpRequestQueue) (r : HttpRequest) (b : List ℕ) (m : Memory)
    → get_elem? q.requests q.incoming_index ≡ some (some r)
    → q.buffer ≡ some b
    → q.buffer_length ≡ length b
    → msg.nread < length b
    → 0 < msg.content_length
    → Granted m
    → (q' : HttpRequestQueue) × (m' : Memory) × (r' : HttpRequest) × (on_headers_complete msg q m
        ≡ done (true, q', m'))
      × (q'.buffer ≡ some (drop msg.nread b))
      × (q'.buffer_length ≡ length (drop msg.nread b))
      × (q'.incoming_index ≡ q.incoming_index)
      × (get_elem? q'.requests q'.incoming_index ≡ some (some r'))
      × (r'.headers_buffer ≡ some (take msg.nread b))
      × (r'.body ≡ some (replicate msg.content_length 0))
      × (r'.method ≡ msg.method)
      × (r'.is_last ≡ not msg.keep_alive)
unfolding on_headers_complete http_request_set_headers_buffer drop_front set_body
    http_request_set_body_length http_request_set_last http_request_set_method
on_headers_complete-split msg q r b m here buf len n c g =
    let (got₁, grown₁) = create-Grown m g in
    let m₁ = (memory_create m).1 in
    let (got₂, g₂, _) = resize-Granted true m₁ grown₁.grants in
    let m₂ = (memory_resize true m₁).1 in
    let (got₃, _) = create-Grown m₂ g₂ in
    let inside : leb (0 + msg.nread) (length b) ≡ true =
      le→leb (0 + msg.nread) (length b) (omega arith) in
    let left : (length b - msg.nread == 0) ≡ false = ground (arith, n) in
    let some_body : (msg.content_length == 0) ≡ false = ground (arith, c) in
    let whole : take (length b - msg.nread) (drop msg.nread b) ≡ drop msg.nread b =
      take-all (length b - msg.nread) (drop msg.nread b) (omega (arith, length-drop msg.nread b)) in
    let r' : HttpRequest = record r {
      method = msg.method;
      is_last = not msg.keep_alive;
      headers_buffer = some (take msg.nread b);
      body = some (replicate msg.content_length 0);
    } in
    (
      record q {
        requests = set q.requests q.incoming_index (some r');
        buffer = some (drop msg.nread b);
        buffer_length = length b - msg.nread;
      },
      (memory_create m₂).1,
      r',
      rw
          (
            here,
            buf,
            len,
            inside,
            got₁,
            left,
            got₂,
            whole,
            lt→ltb 0 msg.content_length c,
            some_body,
            got₃,
          )
          refl,
      refl,
      sym (length-drop msg.nread b),
      refl,
      get_elem?-set q.requests q.incoming_index (some r) (some r') here,
      refl,
      refl,
      refl,
      refl,
    )

-- When the headers and the rest of the packet arrive together, a body is announced and memory is
-- granted, the parser hands the rest over as
-- the body at the place where it stood, although the queue has moved it to the front of a block
-- that is shorter: the read ends behind the block.
pub on_body-headers_complete :
    (msg : Message) (q : HttpRequestQueue) (r : HttpRequest) (b : List ℕ) (m m'' : Memory)
    → get_elem? q.requests q.incoming_index ≡ some (some r)
    → q.buffer ≡ some b
    → q.buffer_length ≡ length b
    → 0 < msg.nread
    → msg.nread < length b
    → 0 < msg.content_length
    → Granted m
    → (q' : HttpRequestQueue) × (m' : Memory) × (on_headers_complete msg q m ≡ done (true, q', m'))
      × (on_body msg.nread (length b - msg.nread) q' m'' ≡ fault)
unfolding on_body
on_body-headers_complete msg q r b m m'' here buf len p n c g =
    let (q', m', r', e, buf', _, i, here', _, _, _, _) =
      on_headers_complete-split msg q r b m here buf len n c g in
    let past : leb (msg.nread + (length b - msg.nread)) (length (drop msg.nread b)) ≡ false =
      lt→not_leb (msg.nread + (length b - msg.nread)) (length (drop msg.nread b))
        (omega (arith, length-drop msg.nread b)) in
    (q', m', e, rw (here', buf', past) refl)

-- The hundredth message of a connection is marked as the last one when it is complete, and the
-- beginning of another is written past the array.
pub on_message_begin-full :
    (q : HttpRequestQueue) (r : HttpRequest) (m : Memory)
    → q.incoming_index + 1 ≡ max_requests
    → length q.requests ≡ max_requests
    → get_elem? q.requests q.incoming_index ≡ some (some r)
    → (q' : HttpRequestQueue) × (r' : HttpRequest) × (on_message_complete q ≡ done q')
      × (get_elem? q'.requests q.incoming_index ≡ some (some r'))
      × (r'.is_last ≡ true)
      × (on_message_begin q' m ≡ fault)
unfolding on_message_complete on_message_begin http_request_set_last
on_message_begin-full q r m i l here =
    let r' : HttpRequest = record r { is_last = true } in
    let full : (suc q.incoming_index == max_requests) ≡ true =
      (==_iff (suc q.incoming_index) max_requests).1 (omega (arith, i)) in
    let past : ltb (suc q.incoming_index) (length (set q.requests q.incoming_index (some r')))
        ≡ false =
      ground (arith, length-set q.requests q.incoming_index (some r'), i, l) in
    (
      record (store q r') { incoming_index = suc q.incoming_index; current_header = 0 },
      r',
      rw (full, here) refl,
      get_elem?-set q.requests q.incoming_index (some r) (some r') here,
      refl,
      rw past refl,
    )
