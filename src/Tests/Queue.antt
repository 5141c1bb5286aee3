-- ===== src/Tests/Queue.antt =====
-- The parser's callbacks on a connection: src/httprequestqueue.c.
use rapp.Prelude.{
  ℕ, ◌≡◌, refl, true, false, none, some, List, ◌∷◌, arith, codes, length, get_elem?, replicate,
  Memory, generous,
}
use rapp.Prelude.Run.{done, fault}
use rapp.HttpRequest.{
  HttpRequest, http_request_set_header_value_range, HeaderMemoryRange, blank_request, range,
}
use rapp.HttpRequestQueue.{
  HttpRequestQueue, Message, empty_queue, on_message_begin, on_header_field, on_header_value,
  on_headers_complete, on_body, on_message_complete,
}
use rapp.HttpRequestQueue.Payload.{on_body-headers_complete, on_message_begin-full}

abbrev host : HeaderMemoryRange
host = record { key = range 16 4; value = range 22 4 }

abbrev crowded : HttpRequest
crowded = record blank_request { current_header = 100 }

abbrev full : HttpRequestQueue
full = record empty_queue { current_header = 100; requests = some crowded ∷ replicate 99 none }

-- A further field is refused, and a further value is written past the array.
full_field : on_header_field 40 3 full generous ≡ done (false, full, generous)
unfolding on_header_field
full_field = refl

full_value : on_header_value 40 3 full generous ≡ fault
unfolding on_header_value http_request_set_header_value_range
full_value = refl

abbrev packet : List ℕ
packet = codes "PUT / HTTP/1.1\r\nContent-Length: 5\r\n\r\nhello"

abbrev receiving : HttpRequestQueue
receiving = record empty_queue {
  requests = some blank_request ∷ replicate 99 none;
  buffer = some packet;
  buffer_length = length packet;
}

abbrev message : Message
message = record { method = 4; keep_alive = true; nread = 37; content_length = 5 }

on_body-headers_complete_example :
    (q' : HttpRequestQueue) × (m' : Memory) × (on_headers_complete message receiving generous
      ≡ done (true, q', m'))
    × (on_body 37 5 q' generous ≡ fault)
on_body-headers_complete_example =
    on_body-headers_complete message receiving blank_request packet generous generous refl refl refl
      (omega arith) (omega arith) (omega arith) (λ n. refl)

abbrev busy : HttpRequestQueue
busy = record empty_queue { requests = replicate 100 (some blank_request); incoming_index = 99 }

on_message_begin-full_example :
    (q' : HttpRequestQueue) × (r' : HttpRequest) × (on_message_complete busy ≡ done q')
    × (get_elem? q'.requests 99 ≡ some (some r'))
    × (r'.is_last ≡ true)
    × (on_message_begin q' generous ≡ fault)
on_message_begin-full_example = on_message_begin-full busy blank_request generous refl refl refl
