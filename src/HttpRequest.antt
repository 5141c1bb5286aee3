-- ===== src/HttpRequest.antt =====
-- src/httprequest.c and rapp/rapp_httprequest.h: a request as the parser's callbacks fill it in.
-- The method is the number of its constant in enum HTTPMethod, a URL field that in enum
-- HTTPURLField; `body` is the zeroed block that was allocated for it.
pub mod Fields
pub mod Lookup
pub mod Body
use rapp.Prelude.{
  ◌++◌, ℕ, zero, suc, ◌+◌, Bool, true, false, not, Option, none, some, List, [], ◌∷◌, ltb, ◌==◌,
  if◌then◌else◌, Text, str_case_eq, length, get_or, set, replicate, Memory, memory_create,
  memory_strdup, memory_destroy,
}
use rapp.Prelude.Run.{Run, done, fault, ◌>>=◌, read_block, write_block}

-- HTTP_REQUEST_MAX_HEADERS and HTTP_URL_FIELD_MAX.
abbrev pub max_headers : ℕ
max_headers = 100

abbrev pub url_field_max : ℕ
url_field_max = 7

pub record MemoryRange : Type 0 where
  pub offset : ℕ
  pub length : ℕ

pub record HeaderMemoryRange : Type 0 where
  pub key : MemoryRange
  pub value : MemoryRange

pub record HttpRequest : Type 0 where
  pub method : ℕ
  pub url_range : MemoryRange
  pub url_field_ranges : List MemoryRange
  pub headers_ranges : List HeaderMemoryRange
  pub current_header : ℕ
  pub headers_buffer : Option (List ℕ)
  pub body : Option (List ℕ)
  pub body_length : ℕ
  pub is_last : Bool

abbrev pub range : ℕ → ℕ → MemoryRange
range offset n = record { offset = offset; length = n }

abbrev pub no_header : HeaderMemoryRange
no_header = record { key = range 0 0; value = range 0 0 }

-- `calloc` zeroes every field.
abbrev pub blank_request : HttpRequest
blank_request = record {
  method = 0;
  url_range = range 0 0;
  url_field_ranges = replicate url_field_max (range 0 0);
  headers_ranges = replicate max_headers no_header;
  current_header = 0;
  headers_buffer = none;
  body = none;
  body_length = 0;
  is_last = false;
}

unfoldable pub http_request_new : Memory → Option HttpRequest × Memory
unfolding memory_create
http_request_new m =
    let (got, m') = memory_create m in (if got then some blank_request else none, m')

abbrev release {ℓ} : {A : Type ℓ} → Option A → Memory → Memory
release none m = m
release (some a) m = memory_destroy m

unfoldable pub http_request_destroy : HttpRequest → Memory → Memory
unfolding memory_destroy
http_request_destroy r m = memory_destroy (release r.body (release r.headers_buffer m))

-- The bytes are those that the caller hands over, `length` of them.
unfoldable pub http_request_set_headers_buffer :
    HttpRequest → List ℕ → Memory → Bool × HttpRequest × Memory
unfolding memory_create
http_request_set_headers_buffer r buffer m =
    let (got, m') = memory_create m in
    if got
    then (true, record r { headers_buffer = some buffer }, m')
    else (false, record r { headers_buffer = none }, m')

unfoldable pub http_request_set_method : HttpRequest → ℕ → HttpRequest
http_request_set_method r method = record r { method = method }

unfoldable pub http_request_set_url_range : HttpRequest → ℕ → ℕ → HttpRequest
http_request_set_url_range r offset n = record r { url_range = range offset n }

unfoldable http_request_get_url_range : HttpRequest → MemoryRange
http_request_get_url_range r = r.url_range

-- A write past the array is a fault.
unfoldable pub http_request_set_url_field_range : HttpRequest → ℕ → ℕ → ℕ → Run HttpRequest
http_request_set_url_field_range r field offset n =
    if ltb field (length r.url_field_ranges)
    then done (record r { url_field_ranges = set r.url_field_ranges field (range offset n) })
    else fault

-- `none` is the return of -1.
unfoldable pub http_request_get_url_field_range : HttpRequest → ℕ → Run (Option MemoryRange)
http_request_get_url_field_range r field =
    if ltb field (length r.url_field_ranges)
    then (let found = get_or r.url_field_ranges field (range 0 0) in
        done (if found.length == 0 then none else some found))
    else fault

unfoldable pub http_request_set_header_key_range : HttpRequest → ℕ → ℕ → ℕ → Run HttpRequest
http_request_set_header_key_range r i offset n =
    if ltb i (length r.headers_ranges)
    then done (record r {
      headers_ranges =
          set r.headers_ranges i
            (record (get_or r.headers_ranges i no_header) { key = range offset n });
    })
    else fault

unfoldable pub http_request_set_header_value_range : HttpRequest → ℕ → ℕ → ℕ → Run HttpRequest
http_request_set_header_value_range r i offset n =
    if ltb i (length r.headers_ranges)
    then done (record r {
      headers_ranges =
          set r.headers_ranges i
            (record (get_or r.headers_ranges i no_header) { value = range offset n });
      current_header = suc r.current_header;
    })
    else fault

-- The bytes up to the first NUL, which is what a C string function sees.
unfoldable pub c_string : List ℕ → Text
c_string [] = []
c_string (c ∷ cs) = if c == 0 then [] else c ∷ c_string cs

abbrev buffer_of : Option (List ℕ) → Run (List ℕ)
buffer_of none = fault
buffer_of (some b) = done b

-- The loop of `http_request_get_header_value_range` over the headers left: `n` counts them.
unfoldable pub find_header :
    Option (List ℕ) → Text → List HeaderMemoryRange → ℕ → Run (Option MemoryRange)
unfolding c_string
find_header buffer name hs zero = done none
find_header buffer name [] (suc n) = fault
find_header buffer name (h ∷ hs) (suc n) =
    let rest = find_header buffer name hs n in
    (buffer_of buffer >>= λ b. read_block b h.key.offset h.key.length) >>= λ key.
    if str_case_eq name (c_string key) then done (some h.value) else rest

unfoldable pub http_request_get_header_value_range : HttpRequest → Text → Run (Option MemoryRange)
unfolding find_header
http_request_get_header_value_range r name =
    find_header r.headers_buffer name r.headers_ranges r.current_header

unfoldable http_request_get_headers_ranges : HttpRequest → List HeaderMemoryRange × ℕ
http_request_get_headers_ranges r = (r.headers_ranges, r.current_header)

-- A length of 0 fails the assert.
unfoldable pub http_request_set_body_length :
    HttpRequest → ℕ → Memory → Run (Bool × HttpRequest × Memory)
unfolding memory_create
http_request_set_body_length r n m =
    if n == 0
    then fault
    else let (got, m') = memory_create m in
      if got
      then done (true, record r { body = some (replicate n 0) }, m')
      else done (false, record r { body = none }, m')

-- No bytes fail the assert.
unfoldable pub http_request_append_body_data : HttpRequest → List ℕ → Run HttpRequest
http_request_append_body_data r bytes =
    if length bytes == 0
    then fault
    else (buffer_of r.body >>= λ block. write_block block r.body_length bytes >>= λ block'.
        done (record r { body = some block'; body_length = r.body_length + length bytes }))

unfoldable pub http_request_set_last : HttpRequest → Bool → HttpRequest
http_request_set_last r last = record r { is_last = last }

unfoldable pub http_request_is_last : HttpRequest → Bool
http_request_is_last r = r.is_last

-- A request for the tests of other parts; its buffer holds the URL and the closing NUL.
unfoldable http_request_new_fake_url : Text → Memory → Option HttpRequest × Memory
unfolding memory_strdup memory_destroy http_request_new
http_request_new_fake_url url m =
    let (got, m₁) = memory_strdup m in
    if not got
    then (none, m₁)
    else let (request, m₂) = http_request_new m₁ in
      elim request [
        | none ↦ (none, memory_destroy m₂)
        | some r ↦ (
          some (record r {
            headers_buffer = some (url ++ 0 ∷ []);
            url_range = range 0 (length url);
          }),
          m₂,
        )
      ]
