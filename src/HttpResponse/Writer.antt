-- ===== src/HttpResponse/Writer.antt =====
-- The writers of src/httpresponse.c. `datetime` is what `time` and `strftime` make of the clock,
-- `none` where one of them fails.
use rapp.Prelude.{
  ◌-◌, ℕ, ◌+◌, Bool, true, false, Option, none, some, ◌++◌, if◌then◌else◌, Text, codes, length,
  take, decimal, Memory, memory_asprintf, memory_destroy,
}
use rapp.Prelude.Run
use rapp.Prelude.Run.{Run, done, fault}
use rapp.HttpResponse.{HttpResponse, Call, http_response_append_data}
use rapp.HttpResponse.Status.{status_message_by_code}

abbrev continue :
    {A B : Type 0}
    → (A → Call B)
    → Option A × HttpResponse × Memory
    → Run (Option B × HttpResponse × Memory)
continue f (none, r, m) = done (none, r, m)
continue f (some a, r, m) = f a r m

infixl 5 ◌>>=◌ ◌>>◌
abbrev pub ◌>>=◌ : {A B : Type 0} → Call A → (A → Call B) → Call B
◌>>=◌ c f r m = Run.◌>>=◌ (c r m) (continue f)

abbrev ◌>>◌ : {B : Type 0} → Call (Unit {0}) → Call B → Call B
c >> d = c >>= λ _. d

abbrev pure : {A : Type 0} → A → Call A
pure a r m = done (some a, r, m)

abbrev fail : {A : Type 0} → Call A
fail r m = done (none, r, m)

-- Calls of the allocator.
abbrev allocate : (Memory → Bool × Memory) → Call (Unit {0})
allocate f r m = let (got, m') = f m in done (if got then some tt else none, r, m')

abbrev pub destroy : Call (Unit {0})
destroy r m = done (some tt, r, memory_destroy m)

abbrev settle :
    {A : Type 0}
    → (Memory → Memory)
    → Option A × HttpResponse × Memory
    → Option A × HttpResponse × Memory
settle f (none, r, m) = (none, r, f m)
settle f (some a, r, m) = (some a, r, m)

-- `if (ret < 0) { free ...; return -1; }`.
abbrev on_failure : {A : Type 0} → (Memory → Memory) → Call A → Call A
on_failure f c r m = Run.◌>>=◌ (c r m) (λ x. done (settle f x))

abbrev or_fail : {A : Type 0} → Option A → Call A
or_fail none = fail
or_fail (some a) = pure a

abbrev pub eol : Text
eol = codes "\r\n"

-- STATUSLINE_LEN and PROTOCOL_LEN.
abbrev pub status_line_len : ℕ
status_line_len = 36

abbrev protocol_len : ℕ
protocol_len = 8

unfoldable pub http_response_write_status_line : Text → Call ℕ
unfolding http_response_append_data
http_response_write_status_line status_line = http_response_append_data (
    take (protocol_len + 1 + length status_line + length eol)
      (codes "HTTP/1.1 " ++ (status_line ++ eol)))

-- `snprintf` keeps one byte of the buffer for the closing NUL.
abbrev pub status_text : ℕ → Text → Text
status_text code message = take (status_line_len - 1) (decimal code ++ (codes " " ++ message))

unfoldable pub http_response_write_status_line_by_code : ℕ → Call ℕ
unfolding status_message_by_code http_response_write_status_line decimal
http_response_write_status_line_by_code code = do
  message ← or_fail (status_message_by_code code)
  http_response_write_status_line (status_text code message)

abbrev pub header_text : Text → Text → Text
header_text key value = key ++ (codes ": " ++ (value ++ eol))

unfoldable pub http_response_write_header : Text → Text → Call ℕ
unfolding http_response_append_data memory_asprintf memory_destroy
http_response_write_header key value = do
  allocate memory_asprintf
  ret ← on_failure memory_destroy (http_response_append_data (header_text key value))
  destroy
  pure ret

-- The header that closes the connection, if this response is the last.
unfoldable pub write_connection : Bool → ℕ → Call ℕ
unfolding http_response_write_header
write_connection false total = pure total
write_connection true total = do
  ret ← http_response_write_header (codes "Connection") (codes "Close")
  pure (total + ret)

unfoldable end_headers_of : Option Text → Text → Bool → Call ℕ
unfolding http_response_write_header http_response_append_data write_connection
end_headers_of datetime server_name is_last = do
  server ← http_response_write_header (codes "Server") server_name
  now ← or_fail datetime
  date ← http_response_write_header (codes "Date") now
  total ← write_connection is_last (server + date)
  ret ← http_response_append_data eol
  pure (total + ret)

unfoldable pub http_response_end_headers : Option Text → Call ℕ
unfolding end_headers_of
http_response_end_headers datetime r = end_headers_of datetime r.server_name r.is_last r

abbrev pub error_body : Text → Text
error_body message =
    codes "<!DOCTYPE html><html><head><title>"
    ++ (message ++ (codes "</title></head><body><h1>" ++ (message ++ codes "</h1></body></html>")))

abbrev destroy_both : Memory → Memory
destroy_both m = memory_destroy (memory_destroy m)

-- The calls that write the parts of an error response, and what is freed where one fails.
unfoldable pub write_error_parts : Call ℕ → Call ℕ → Call ℕ → Call ℕ → Call ℕ → Call ℕ
unfolding memory_destroy
write_error_parts status_line content_type content_length end body = do
  status ← on_failure destroy_both status_line
  type_ret ← on_failure destroy_both content_type
  length_ret ← on_failure destroy_both content_length
  destroy
  headers ← on_failure memory_destroy end
  ret ← on_failure memory_destroy body
  destroy
  pure (status + type_ret + length_ret + headers + ret)

-- The code from the length of the body on.
unfoldable pub write_error_body : Option Text → ℕ → Text → Call ℕ
unfolding http_response_write_status_line_by_code http_response_write_header
    http_response_end_headers http_response_append_data memory_asprintf memory_destroy decimal
    write_error_parts
write_error_body datetime code body = do
  on_failure memory_destroy (allocate memory_asprintf)
  write_error_parts (http_response_write_status_line_by_code code)
      (http_response_write_header (codes "Content-Type") (codes "text/html"))
      (http_response_write_header (codes "Content-Length") (decimal (length body)))
      (http_response_end_headers datetime) (http_response_append_data body)

unfoldable pub http_response_write_error_by_code : Option Text → ℕ → Call ℕ
unfolding status_message_by_code memory_asprintf
http_response_write_error_by_code datetime code = do
  message ← or_fail (status_message_by_code code)
  allocate memory_asprintf
  write_error_body datetime code (error_body message)
