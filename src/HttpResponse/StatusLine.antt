-- ===== src/HttpResponse/StatusLine.antt =====
-- The status line of a code, as bytes.
use rapp.Prelude.{◌==◌, ==_iff, inl, inr}
use rapp.Prelude.{
  Bool-cases, ℕ, ◌-◌, ◌≤◌, ◌≡◌, some, List, [], ◌∷◌, ◌++◌, arith, Text, codes, length, take-all,
  decimal, All,
}
use rapp.HttpResponse.Status.{find_status, http_statuses, status_message_by_code}
use rapp.HttpResponse.Writes.{Writes, write_status_line-Writes}
use rapp.HttpResponse.Writer.{
  eol, status_text, status_line_len, http_response_write_status_line_by_code,
}

-- Code, space and message of an entry leave room for the closing NUL of the buffer.
abbrev LineFits : ℕ × Text → Type 0
LineFits (code, message) = length (decimal code ++ (codes " " ++ message)) ≤ status_line_len - 1

statuses_fit : All LineFits http_statuses
unfolding decimal
statuses_fit = omega arith

find_status-fits :
    (code : ℕ) (ss : List (ℕ × Text)) (message : Text)
    → All LineFits ss
    → find_status code ss ≡ some message
    → LineFits (code, message)
unfolding find_status
find_status-fits code [] message f e = cc
find_status-fits code ((c, msg) ∷ ss) message f e = elim (Bool-cases (c == code)) [
  | inl t ↦
      let p = (==_iff c code).0 t in
      let found : some msg ≡ some message = rw t at e in
      let q : msg ≡ message = cc in rw (← p, ← q) f.0
  | inr t ↦ find_status-fits code ss message f.1 (rw t at e)
]

-- No entry of the table is cut short by the buffer of STATUSLINE_LEN bytes.
status_text-whole :
    (code : ℕ) (message : Text)
    → status_message_by_code code ≡ some message
    → status_text code message ≡ decimal code ++ (codes " " ++ message)
unfolding status_message_by_code
status_text-whole code message e =
    take-all (status_line_len - 1) (decimal code ++ (codes " " ++ message))
      (find_status-fits code http_statuses message statuses_fit e)

abbrev pub status_line : ℕ → Text → Text
status_line code message = codes "HTTP/1.1 " ++ ((decimal code ++ (codes " " ++ message)) ++ eol)

pub by_code-Writes :
    (code : ℕ) (message : Text)
    → status_message_by_code code ≡ some message
    → Writes (http_response_write_status_line_by_code code) (status_line code message)
unfolding http_response_write_status_line_by_code
by_code-Writes code message e r m v g l =
    let o = write_status_line-Writes (decimal code ++ (codes " " ++ message)) r m v g l in
    record {
      response = o.response;
      memory = o.memory;
      returns = rw (e, status_text-whole code message e) o.returns;
      written = o.written;
      valid = o.valid;
      server_name = o.server_name;
      is_last = o.is_last;
      grants = o.grants;
      balance = o.balance;
    }
