-- ===== src/Tests/Requests.antt =====
-- Requests as the parser fills them in: src/httprequest.c.
use rapp.Prelude.{str_eq}
use rapp.Prelude.{
  ℕ, ◌≡◌, refl, some, List, [], ◌∷◌, ◌++◌, arith, codes, replicate, generous, memory_create,
}
use rapp.Prelude.Run.{done}
use rapp.HttpRequest.{
  HttpRequest, HeaderMemoryRange, blank_request, range, no_header,
  http_request_get_header_value_range, http_request_set_body_length, c_string,
}
use rapp.HttpRequest.Lookup.{
  HeadersValid, decoded, first_named, bytes_at, add_header, get_header_value_range-first_named,
  get_header_value_range-add_header,
}
use rapp.HttpRequest.Body.{append_chunks, holding, append_chunks-set_body_length}

abbrev buffer : List ℕ
buffer = codes "Host: rapp\r\nAccept: *\r\n"

abbrev host : HeaderMemoryRange
host = record { key = range 0 4; value = range 6 4 }

abbrev accept : HeaderMemoryRange
accept = record { key = range 12 6; value = range 20 1 }

-- One header has been parsed.
abbrev request : HttpRequest
request = record blank_request {
  headers_buffer = some buffer;
  headers_ranges = host ∷ replicate 99 no_header;
  current_header = 1;
}

request-HeadersValid : HeadersValid request buffer
request-HeadersValid = record { buffer = refl; counted = omega arith; within = omega arith }

get_header_value_range-first_named_example :
    http_request_get_header_value_range request (codes "HOST")
    ≡ done (first_named (codes "HOST") (decoded buffer (host ∷ [])))
get_header_value_range-first_named_example =
    get_header_value_range-first_named request buffer (codes "HOST") request-HeadersValid

finds_host : http_request_get_header_value_range request (codes "HOST") ≡ done (some (range 6 4))
unfolding http_request_get_header_value_range str_eq
finds_host = refl

get_header_value_range-add_header_example :
    (r' : HttpRequest) × (add_header request (range 12 6) (range 20 1) ≡ done r')
    × HeadersValid r' buffer
    × (http_request_get_header_value_range r' (codes "accept")
        ≡ done (
            first_named (codes "accept") (
              decoded buffer (host ∷ [])
              ++ (c_string (bytes_at buffer (range 12 6)), range 20 1) ∷ [])))
get_header_value_range-add_header_example =
    get_header_value_range-add_header request buffer (range 12 6) (range 20 1) (codes "accept")
      request-HeadersValid (omega arith) (omega arith)

-- The request with a body of so many zeroed bytes.
abbrev sized : ℕ → HttpRequest
sized n = record request { body = some (replicate n 0) }

append_chunks-set_body_length_example :
    append_chunks (sized 4) (codes "ab" ∷ codes "c" ∷ []) ≡ done (holding request 4 (codes "abc"))
unfolding http_request_set_body_length
append_chunks-set_body_length_example =
    append_chunks-set_body_length request 4 generous (sized 4) (memory_create generous).1
      (codes "ab" ∷ codes "c" ∷ []) refl refl (omega arith, (omega arith, tt)) (omega arith)
