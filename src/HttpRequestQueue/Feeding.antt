-- ===== src/HttpRequestQueue/Feeding.antt =====
-- The callbacks of a whole message one by one: headers, their end, and the end of the message.
use rapp.Prelude.{
  ℕ, suc, ◌+◌, ◌-◌, ◌≤◌, ◌≡◌, refl, ◌∙◌, ap, true, false, not, Option, none, some, List, [], ◌∷◌,
  ◌++◌, arith, ltb, leb, ◌==◌, lt→ltb, le→leb, length, length-set, get_elem?, set, take, take-all,
  Memory, if◌then◌else◌, memory_create, memory_destroy,
}
use rapp.Prelude.Granted.{Granted, create-Grown}
use rapp.Prelude.Run.{Run, done, ◌>>=◌, >>=-assoc}
use rapp.HttpRequest.{
  HttpRequest, HeaderMemoryRange, MemoryRange, range, http_request_set_url_field_range,
  http_request_set_method, http_request_set_last, http_request_set_headers_buffer, url_field_max,
}
use rapp.HttpRequestQueue.{
  HttpRequestQueue, Message, store, release, max_requests, set_url_fields, on_headers_complete,
  on_message_complete, drop_front, set_body, http_request_queue_get_next_request,
}
use rapp.HttpRequestQueue.Feed.{
  ParserEvent, message_complete, header_field, header_value, react, feed, notified,
}
use rapp.HttpRequestQueue.Headers.{Passes}

abbrev pub header_events : List HeaderMemoryRange → List ParserEvent
header_events [] = []
header_events (h ∷ hs) =
    header_field h.key.offset h.key.length
    ∷ (header_value h.value.offset h.value.length ∷ header_events hs)

-- The callbacks that headers make.
abbrev pub count_headers : ℕ → List HeaderMemoryRange → ℕ
count_headers made [] = made
count_headers made (h ∷ hs) = count_headers (suc (suc made)) hs

module _ {R : Type 0}
    (callback : Option (HttpRequestQueue → R → Memory → Run (HttpRequestQueue × R × Memory))) where
  pub feed-Passes :
      (hs : List HeaderMemoryRange) (es : List ParserEvent) (made : ℕ) (q q' : HttpRequestQueue)
      (s : R) (m : Memory)
      → Passes hs q q' m
      → feed callback (header_events hs ++ es) made q s m
        ≡ feed callback es (count_headers made hs) q' s m
  unfolding feed react
  feed-Passes [] es made q q' s m p = ap (λ (z : HttpRequestQueue). feed callback es made z s m) p
  feed-Passes (h ∷ hs) es made q q' s m (q₁, q₂, e₁, e₂, p) =
      rw (e₁, e₂) (feed-Passes hs es (suc (suc made)) q₂ q' s m p)

  pub feed_complete :
      (made : ℕ) (q : HttpRequestQueue) (s : R) (m : Memory)
      → (suc q.incoming_index == max_requests) ≡ false
      → feed callback (message_complete ∷ []) made q s m ≡ (
          notified callback
            (record q { incoming_index = suc q.incoming_index; current_header = 0 })
            s
            m
          >>= λ (q', s', m'). done (suc made, q', s', m'))
  unfolding feed react on_message_complete
  feed_complete made q s m more = rw more (
      >>=-assoc
        (notified callback (record q { incoming_index = suc q.incoming_index; current_header = 0 })
          s m)
        (λ (q', s', m'). done (true, q', s', m'))
        (λ (ok, q', s', m').
          let rest = feed callback [] (suc made) q' s' m' in
          if ok then rest else done (suc made, q', s', m')))

-- The fields of a URL, at most as many as there are, are set and nothing else.
pub set_url_fields-kept :
    (at i : ℕ) (fs : List (Option MemoryRange)) (r : HttpRequest)
    → length r.url_field_ranges ≡ url_field_max
    → i + length fs ≤ url_field_max
    → (ranges : List MemoryRange) × (set_url_fields at i fs r
        ≡ done (record r { url_field_ranges = ranges }))
unfolding set_url_fields http_request_set_url_field_range
set_url_fields-kept at i [] r l h = (r.url_field_ranges, refl)
set_url_fields-kept at i (none ∷ fs) r l h = set_url_fields-kept at (suc i) fs r l (omega arith)
set_url_fields-kept at i (some f ∷ fs) r l h =
    let ranges = set r.url_field_ranges i (range (at + f.offset) f.length) in
    let r₁ : HttpRequest = record r { url_field_ranges = ranges } in
    let inside : ltb i (length r.url_field_ranges) ≡ true =
      lt→ltb i (length r.url_field_ranges) (omega (arith, l)) in
    let (ranges', e) =
      set_url_fields-kept at (suc i) fs r₁
        (length-set r.url_field_ranges i (range (at + f.offset) f.length) ∙ l) (omega arith) in
    (ranges', rw inside e)

-- Headers that are the whole buffer, of a message without a body: the buffer is freed.
pub headers_complete-whole :
    (msg : Message) (q : HttpRequestQueue) (r : HttpRequest) (b : List ℕ) (m : Memory)
    → get_elem? q.requests q.incoming_index ≡ some (some r)
    → q.buffer ≡ some b
    → q.buffer_length ≡ length b
    → msg.nread ≡ length b
    → msg.content_length ≡ 0
    → Granted m
    → (m' : Memory) × (let r' : HttpRequest = record r {
      method = msg.method;
      is_last = not msg.keep_alive;
      headers_buffer = some b;
    } in
        on_headers_complete msg q m
        ≡ done (true, record (store q r') { buffer = none; buffer_length = 0 }, m'))
      × Granted m'
unfolding on_headers_complete http_request_set_headers_buffer drop_front set_body
    http_request_set_last http_request_set_method memory_destroy
headers_complete-whole msg q r b m here buf len n c g =
    let (got, grown) = create-Grown m g in
    let inside : leb (0 + length b) (length b) ≡ true =
      le→leb (0 + length b) (length b) (omega arith) in
    let left : (length b - length b == 0) ≡ true = ground arith in
    let whole : take (length b) b ≡ b = take-all (length b) b (omega arith) in
    (
      release (some b) (memory_create m).1,
      rw (here, n, c, buf, len, inside, whole, got, left) refl,
      grown.grants,
    )

pub next_request-here :
    (q : HttpRequestQueue) (i : ℕ) (r : HttpRequest)
    → q.outgoing_index ≡ i
    → get_elem? q.requests i ≡ some (some r)
    → http_request_queue_get_next_request q
      ≡ done (some r, record q { outgoing_index = suc q.outgoing_index })
unfolding http_request_queue_get_next_request
next_request-here q i r e h =
    let here : get_elem? q.requests q.outgoing_index ≡ some (some r) =
      ap (λ (z : ℕ). get_elem? q.requests z) e ∙ h in
    rw here refl
