-- ===== src/HttpRequestQueue/Feed.antt =====
-- `http_request_queue_append_data` of src/httprequestqueue.c: the bytes go behind those of the
-- buffer, and the parser runs over them. What the parser finds is the parameter `execute`: the
-- callbacks that it makes in their order, of which a failing one is the last, and the number that it
-- returns after so many of them. `R` is what the callback for new requests works on.
use rapp.Prelude.{
  ℕ, suc, Bool, true, false, Option, none, some, List, [], ◌∷◌, ◌==◌, if◌then◌else◌, length, Memory,
}
use rapp.Prelude.Run.{Run, done, fault, ◌>>=◌}
use rapp.HttpRequest.{MemoryRange}
use rapp.HttpRequestQueue.{
  HttpRequestQueue, Message, Outcome, on_message_begin, on_url, on_header_field, on_header_value,
  on_headers_complete, on_body, on_message_complete, append_to_buffer,
}

pub data ParserEvent : Type 0 where
  message_begin message_complete : ParserEvent
  url : ℕ → ℕ → Option (List (Option MemoryRange)) → ParserEvent
  header_field header_value body : ℕ → ℕ → ParserEvent
  headers_complete : Message → ParserEvent

module _ {R : Type 0}
    (new_request_callback : Option
      (HttpRequestQueue → R → Memory → Run (HttpRequestQueue × R × Memory))) where
  abbrev pub notified : HttpRequestQueue → R → Memory → Run (HttpRequestQueue × R × Memory)
  notified q r m = elim new_request_callback [
    | none ↦ done (q, r, m)
    | some callback ↦ callback q r m
  ]

  abbrev beside : R → Outcome → Run (Bool × HttpRequestQueue × R × Memory)
  beside r out = out >>= λ (ok, q, m). done (ok, q, r, m)

  -- One callback of the parser; true is its return of 0.
  unfoldable pub react :
      ParserEvent → HttpRequestQueue → R → Memory → Run (Bool × HttpRequestQueue × R × Memory)
  unfolding on_message_begin on_url on_header_field on_header_value on_headers_complete on_body
      on_message_complete
  react message_begin q r m = beside r (on_message_begin q m)
  react (url at n fields) q r m = beside r (on_url at n fields q m)
  react (header_field at n) q r m = beside r (on_header_field at n q m)
  react (header_value at n) q r m = beside r (on_header_value at n q m)
  react (headers_complete msg) q r m = beside r (on_headers_complete msg q m)
  react (body at n) q r m = beside r (on_body at n q m)
  react message_complete q r m =
      on_message_complete q >>= λ q'. notified q' r m >>= λ (q'', r', m'). done (true, q'', r', m')

  -- The callbacks up to the first that fails, and their number; `made` of them were made before.
  unfoldable pub feed :
      List ParserEvent → ℕ → HttpRequestQueue → R → Memory → Run (ℕ × HttpRequestQueue × R × Memory)
  unfolding react
  feed [] made q r m = done (made, q, r, m)
  feed (e ∷ es) made q r m = react e q r m >>= λ (ok, q', r', m').
      let rest = feed es (suc made) q' r' m' in if ok then rest else done (suc made, q', r', m')

  -- The first component is false for the return of -1; `P` is the parser.
  unfoldable pub http_request_queue_append_data :
      {P : Type 0} (execute : P → List ℕ → ℕ → List ParserEvent × (ℕ → ℕ) × P)
      → List ℕ
      → P
      → HttpRequestQueue
      → R
      → Memory
      → Run (Bool × P × HttpRequestQueue × R × Memory)
  unfolding append_to_buffer feed
  http_request_queue_append_data execute bytes p q r m =
      if length bytes == 0
      then fault
      else let (offset, q', m') = append_to_buffer bytes q m in
        elim offset [
          | none ↦ done (false, p, q', r, m')
          | some at ↦
              let (events, parsed, p') = execute p bytes at in
              feed events 0 q' r m' >>= λ (made, q'', r', m'').
              done (parsed made == length bytes, p', q'', r', m'')
        ]
