-- ===== src/HttpResponse/Errors.antt =====
-- The error responses: status line, headers and body, as bytes.
use rapp.Prelude.{
  ℕ, ◌+◌, ◌≤◌, ◌<◌, ◌≡◌, refl, ◌∙◌, ap, Bool, true, some, ◌++◌, arith, Text, codes, length, decimal,
  Memory, memory_asprintf, memory_destroy,
}
use rapp.Prelude.Granted.{Granted, asprintf-Grown}
use rapp.Prelude.Run.{done}
use rapp.HttpResponse.{HttpResponse, Call, http_response_append_data}
use rapp.HttpResponse.Buffer.{content, IsValid, blocks}
use rapp.HttpResponse.Status.{status_message_by_code}
use rapp.HttpResponse.Writes.{
  Outcome, append_data-Writes, write_header-Writes, end_headers-Outcome, end_text, length-five,
  append-five,
}
use rapp.HttpResponse.Writer.{
  write_error_body, write_error_parts, header_text, error_body,
  http_response_write_status_line_by_code, http_response_write_header, http_response_end_headers,
  http_response_write_error_by_code,
}
use rapp.HttpResponse.StatusLine.{status_line, by_code-Writes}

error_body-length : (message : Text) → 0 < length (error_body message)
error_body-length message = omega arith

parts-done :
    (line kind size end body : Call ℕ) {r r₁ r₂ r₃ r₄ r₅ : HttpResponse} {m m₁ m₂ m₃ m₄ m₅ : Memory}
    {a b c d f : ℕ}
    → line r m ≡ done (some a, r₁, m₁)
    → kind r₁ m₁ ≡ done (some b, r₂, m₂)
    → size r₂ m₂ ≡ done (some c, r₃, m₃)
    → end r₃ (memory_destroy m₃) ≡ done (some d, r₄, m₄)
    → body r₄ m₄ ≡ done (some f, r₅, m₅)
    → write_error_parts line kind size end body r m
      ≡ done (some (a + b + c + d + f), r₅, memory_destroy m₅)
unfolding write_error_parts
parts-done line kind size end body p q s t u = rw (p, q, s, t, u) refl

-- The bytes of an error response.
abbrev pub error_text : ℕ → Text → Text → Text → Text → Bool → Text
error_text code message body server_name date is_last =
    status_line code message
    ++ (header_text (codes "Content-Type") (codes "text/html")
        ++ (header_text (codes "Content-Length") (decimal (length body))
            ++ (end_text server_name date is_last ++ body)))

-- The body that it is given is one block, which it frees.
abbrev with_body : Call ℕ → Call ℕ
with_body c r m = c r (memory_asprintf m).1

abbrev kind_call : Call ℕ
kind_call = http_response_write_header (codes "Content-Type") (codes "text/html")

abbrev kind_text : Text
kind_text = header_text (codes "Content-Type") (codes "text/html")

abbrev size_call : Text → Call ℕ
size_call body = http_response_write_header (codes "Content-Length") (decimal (length body))

abbrev size_text : Text → Text
size_text body = header_text (codes "Content-Length") (decimal (length body))

module _ (code : ℕ) (message date body : Text) (r : HttpResponse) (m : Memory) where
  abbrev m₂ : Memory
  m₂ = (memory_asprintf (memory_asprintf m).1).1

  abbrev Line : Type 0
  Line = Outcome (http_response_write_status_line_by_code code) (status_line code message) 0 r m₂

  abbrev Kind : HttpResponse → Memory → Type 0
  Kind r m = Outcome kind_call kind_text 0 r m

  abbrev Size : HttpResponse → Memory → Type 0
  Size r m = Outcome (size_call body) (size_text body) 0 r m

  abbrev End : HttpResponse → Memory → Type 0
  End s m =
      Outcome (http_response_end_headers (some date)) (end_text r.server_name date r.is_last) 0 s
        (memory_destroy m)

  abbrev Result : Type 0
  Result =
      Outcome (with_body (write_error_body (some date) code body))
        (error_text code message body r.server_name date r.is_last) 0 r m

  finished :
      (memory_asprintf (memory_asprintf m).1).0 ≡ true
      → m₂.live ≡ m.live + 2
      → blocks r ≤ m.live
      → (a : Line) (b : Kind a.response a.memory) (c : Size b.response b.memory)
      → (d : End c.response c.memory)
      → Outcome (http_response_append_data body) body 0 d.response d.memory
      → Result
  unfolding write_error_body memory_destroy
  finished got lives l a b c d f = record {
    response = f.response;
    memory = memory_destroy f.memory;
    returns = rw got (
        parts-done (http_response_write_status_line_by_code code) kind_call (size_call body)
          (http_response_end_headers (some date)) (http_response_append_data body) a.returns
          b.returns c.returns d.returns f.returns
        ∙ ap (λ n. done (some n, f.response, memory_destroy f.memory))
            (length-five (status_line code message) kind_text (size_text body)
              (end_text r.server_name date r.is_last) body));
    written =
        rw (f.written, d.written, c.written, b.written, a.written)
          (append-five (content r) (status_line code message) kind_text (size_text body)
            (end_text r.server_name date r.is_last) body);
    valid = f.valid;
    server_name =
        f.server_name ∙ (d.server_name ∙ (c.server_name ∙ (b.server_name ∙ a.server_name)));
    is_last = f.is_last ∙ (d.is_last ∙ (c.is_last ∙ (b.is_last ∙ a.is_last)));
    grants = f.grants;
    balance = omega (arith, a.balance, b.balance, c.balance, d.balance, f.balance, lives, l);
  }

  with_end :
      (memory_asprintf (memory_asprintf m).1).0 ≡ true
      → m₂.live ≡ m.live + 2
      → blocks r ≤ m.live
      → 0 < length body
      → (a : Line) (b : Kind a.response a.memory) (c : Size b.response b.memory)
      → End c.response c.memory
      → Result
  unfolding memory_destroy
  with_end got lives l h a b c d = finished got lives l a b c d (
      append_data-Writes body h d.response d.memory d.valid d.grants
        (omega (arith, a.balance, b.balance, c.balance, d.balance, lives, l)))

  with_size :
      (memory_asprintf (memory_asprintf m).1).0 ≡ true
      → m₂.live ≡ m.live + 2
      → blocks r ≤ m.live
      → 0 < length body
      → (a : Line) (b : Kind a.response a.memory) → Size b.response b.memory
      → Result
  unfolding memory_destroy
  with_size got lives l h a b c = with_end got lives l h a b c (
      coe 0 1
        (i.
          Outcome (http_response_end_headers (some date))
            (end_text ((c.server_name ∙ (b.server_name ∙ a.server_name)) i) date
              ((c.is_last ∙ (b.is_last ∙ a.is_last)) i))
            0 c.response (memory_destroy c.memory))
        (end_headers-Outcome date c.response (memory_destroy c.memory) c.valid c.grants
          (omega (arith, a.balance, b.balance, c.balance, lives, l))))

  with_kind :
      (memory_asprintf (memory_asprintf m).1).0 ≡ true
      → m₂.live ≡ m.live + 2
      → blocks r ≤ m.live
      → 0 < length body
      → (a : Line) → Kind a.response a.memory
      → Result
  with_kind got lives l h a b = with_size got lives l h a b (
      write_header-Writes (codes "Content-Length") (decimal (length body)) b.response b.memory
        b.valid b.grants (omega (arith, a.balance, b.balance, lives)))

  with_line :
      (memory_asprintf (memory_asprintf m).1).0 ≡ true
      → m₂.live ≡ m.live + 2
      → blocks r ≤ m.live
      → 0 < length body
      → Line
      → Result
  with_line got lives l h a = with_kind got lives l h a (
      write_header-Writes (codes "Content-Type") (codes "text/html") a.response a.memory a.valid
        a.grants (omega (arith, a.balance, lives)))

-- For a code of the table, with the clock readable and memory granted, an error response appends
-- exactly these bytes: the status line with the code in decimal and the whole message, the type,
-- the length of the body, the server's name, the date, "Connection: Close" if it is the last one,
-- an empty line and the body. It returns their number and frees all that it allocated for itself.
pub write_error_by_code-Outcome :
    (code : ℕ) (message date : Text) (r : HttpResponse) (m : Memory)
    → status_message_by_code code ≡ some message
    → IsValid r
    → Granted m
    → blocks r ≤ m.live
    → Outcome
        (http_response_write_error_by_code (some date) code)
        (error_text code message (error_body message) r.server_name date r.is_last)
        0
        r
        m
unfolding http_response_write_error_by_code
write_error_by_code-Outcome code message date r m e v g l =
    let (got₁, grown₁) = asprintf-Grown m g in
    let (got₂, grown₂) = asprintf-Grown (memory_asprintf m).1 grown₁.grants in
    let o =
      with_line code message date (error_body message) r m got₂
        (omega (arith, grown₁.live, grown₂.live)) l (omega (arith, error_body-length message))
        (by_code-Writes code message e r (m₂ code message date (error_body message) r m) v
          grown₂.grants (omega (arith, grown₁.live, grown₂.live))) in
    record {
      response = o.response;
      memory = o.memory;
      returns = rw (e, got₁) o.returns;
      written = o.written;
      valid = o.valid;
      server_name = o.server_name;
      is_last = o.is_last;
      grants = o.grants;
      balance = o.balance;
    }
