-- ===== src/Tests/Responses.antt =====
-- Responses written and read back: src/httpresponse.c.
use rapp.Prelude.{
  ◌+◌, ◌≡◌, refl, true, false, none, some, arith, codes, Memory, generous, memory_resize,
}
use rapp.Prelude.Run.{done, fault}
use rapp.HttpResponse.{HttpResponse, http_response_append_data, http_response_read_data}
use rapp.HttpResponse.Buffer.{IsValid}
use rapp.HttpResponse.Drain.{drain, drain_all, read_data-append_refused}
use rapp.HttpResponse.Status.{status_message_by_code}
use rapp.HttpResponse.Writer.{error_body, http_response_write_error_by_code}
use rapp.HttpResponse.Writes.{Outcome}
use rapp.HttpResponse.Errors.{error_text, write_error_by_code-Outcome}

abbrev empty : HttpResponse
empty = record { buffer = none; buffer_length = 0; server_name = codes "rapp"; is_last = true }

abbrev hello : HttpResponse
hello = record empty { buffer = some (codes "hello"); buffer_length = 5 }

-- One block is in use.
abbrev one : Memory
one = record generous { live = 1 }

empty-IsValid : IsValid empty
empty-IsValid = record { counted = refl; held = λ e. cc }

hello-IsValid : IsValid hello
hello-IsValid = record { counted = refl; held = λ e. omega arith }

write_error_by_code-Outcome_example :
    Outcome
      (http_response_write_error_by_code (some (codes "Mon, 01 Jan 2024 00:00:00 +0000")) 404)
      (error_text 404
        (codes "Not Found")
        (error_body (codes "Not Found"))
        (codes "rapp")
        (codes "Mon, 01 Jan 2024 00:00:00 +0000")
        true)
      0
      empty
      generous
unfolding status_message_by_code
write_error_by_code-Outcome_example =
    write_error_by_code-Outcome 404 (codes "Not Found") (codes "Mon, 01 Jan 2024 00:00:00 +0000")
      empty generous refl empty-IsValid (λ n. refl) (omega arith)

drain_all_example :
    (r' : HttpResponse) × (m' : Memory) × (drain 2 3 hello one
      ≡ done (some (codes "hello"), r', m'))
    × (r'.buffer ≡ none)
    × (m'.live + 1 ≡ 1)
drain_all_example =
    drain_all 2 3 hello one hello-IsValid (λ n. refl) (omega arith) (omega arith) (omega arith)

read_data-append_refused_example :
    (r' : HttpResponse) × (m' : Memory) × (http_response_append_data
        (codes " you")
        hello
        (record one { grants = λ n. false })
      ≡ done (none, r', m'))
    × (m'.live ≡ 1)
    × (http_response_read_data 2 r' generous ≡ fault)
unfolding memory_resize
read_data-append_refused_example =
    read_data-append_refused (codes " you") hello (record one { grants = λ n. false }) generous 2
      (omega arith) (omega arith) refl (omega arith)
