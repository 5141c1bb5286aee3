-- ===== src/HttpResponse/Writes.antt =====
-- What the writers put into the response where memory is granted.
use rapp.Prelude.{
  append-nil, ℕ, ◌+◌, ◌≤◌, ◌<◌, ◌≡◌, refl, sym, ◌∙◌, ap, Bool, true, false, some, List, [], ◌++◌,
  append_assoc, arith, Text, codes, length, length-append, take-all, Memory, memory_asprintf,
  memory_destroy,
}
use rapp.Prelude.Granted.{Granted, asprintf-Grown}
use rapp.Prelude.Run.{done}
use rapp.HttpResponse.{HttpResponse, Call, http_response_append_data}
use rapp.HttpResponse.Buffer.{content, IsValid, Kept, blocks, append_data-content}
use rapp.HttpResponse.Writer.{
  write_connection, eol, header_text, http_response_write_status_line, http_response_write_header,
  http_response_end_headers,
}

-- From this response and allocator the call returns the number of the bytes of `text`, which it has
-- put at the end of the content, and `extra` blocks more are in use, the response's own aside.
pub record Outcome (c : Call ℕ) (text : List ℕ) (extra : ℕ) (r : HttpResponse) (m : Memory)
    : Type 0 where
  pub response : HttpResponse
  pub memory : Memory
  pub returns : c r m ≡ done (some (length text), response, memory)
  pub written : content response ≡ content r ++ text
  pub valid : IsValid response
  pub server_name : response.server_name ≡ r.server_name
  pub is_last : response.is_last ≡ r.is_last
  pub grants : Granted memory
  pub balance : memory.live + blocks r ≡ m.live + blocks response + extra

abbrev pub Writes : Call ℕ → List ℕ → Type 0
Writes c text =
    (r : HttpResponse) (m : Memory)
    → IsValid r
    → Granted m
    → blocks r ≤ m.live
    → Outcome c text 0 r m

pub append_data-Writes :
    (bytes : List ℕ) → 0 < length bytes → Writes (http_response_append_data bytes) bytes
append_data-Writes bytes h r m v g l =
    let (r', m', e, c, v', kept) = append_data-content bytes r m v g h in
    record {
      response = r';
      memory = m';
      returns = e;
      written = c;
      valid = v';
      server_name = kept.server_name;
      is_last = kept.is_last;
      grants = kept.grants;
      balance = omega (arith, kept.balance);
    }

-- The response's own block is counted among those in use.
covered :
    {c : Call ℕ} {text : List ℕ} {extra : ℕ} {r : HttpResponse} {m : Memory}
    (o : Outcome c text extra r m)
    → blocks r ≤ m.live
    → blocks o.response + extra ≤ o.memory.live
covered o l = omega (arith, o.balance)

pub write_status_line-Writes :
    (line : Text)
    → Writes (http_response_write_status_line line) (codes "HTTP/1.1 " ++ (line ++ eol))
unfolding http_response_write_status_line
write_status_line-Writes line =
    rw (take-all (8 + 1 + length line + 2) text (omega (arith, size)))
      (append_data-Writes text (omega (arith, size)))
  where
    text : List ℕ
    text = codes "HTTP/1.1 " ++ (line ++ eol)

    size : length text ≡ 9 + (length line + 2)
    size = omega (arith, length-append line eol)

pub write_header-Writes :
    (key value : Text) → Writes (http_response_write_header key value) (header_text key value)
unfolding http_response_write_header memory_destroy
write_header-Writes key value r m v g l =
    let (got, grown) = asprintf-Grown m g in
    let o =
      append_data-Writes (header_text key value)
        (omega (arith, length-append key (codes ": " ++ (value ++ eol)))) r (memory_asprintf m).1 v
        grown.grants (omega (arith, grown.live)) in
    record {
      response = o.response;
      memory = memory_destroy o.memory;
      returns = rw (got, o.returns);
      written = o.written;
      valid = o.valid;
      server_name = o.server_name;
      is_last = o.is_last;
      grants = o.grants;
      balance = omega (arith, o.balance, grown.live);
    }

-- The returned sums are the lengths of the texts together.
length-four :
    (a b c d : List ℕ) → length a + length b + length c + length d ≡ length (a ++ (b ++ (c ++ d)))
length-four a b c d =
    omega (arith, length-append a (b ++ (c ++ d)), length-append b (c ++ d), length-append c d)

pub length-five :
    (a b c d e : List ℕ)
    → length a + length b + length c + length d + length e ≡ length (a ++ (b ++ (c ++ (d ++ e))))
length-five a b c d e = omega (arith, length-append a (b ++ (c ++ (d ++ e))), length-four b c d e)

append-four : (r a b c d : List ℕ) → (((r ++ a) ++ b) ++ c) ++ d ≡ r ++ (a ++ (b ++ (c ++ d)))
append-four r a b c d = simp append_assoc

pub append-five :
    (r a b c d e : List ℕ) → ((((r ++ a) ++ b) ++ c) ++ d) ++ e ≡ r ++ (a ++ (b ++ (c ++ (d ++ e))))
append-five r a b c d e = simp append_assoc

abbrev connection_text : Bool → Text
connection_text false = []
connection_text true = header_text (codes "Connection") (codes "Close")

abbrev pub end_text : Text → Text → Bool → Text
end_text server_name date is_last =
    header_text (codes "Server") server_name
    ++ (header_text (codes "Date") date ++ (connection_text is_last ++ eol))

write_connection-Outcome :
    (is_last : Bool) (total : ℕ) (r : HttpResponse) (m : Memory)
    → IsValid r
    → Granted m
    → blocks r ≤ m.live
    → (r' : HttpResponse) × (m' : Memory) × (write_connection is_last total r m
        ≡ done (some (total + length (connection_text is_last)), r', m'))
      × (content r' ≡ content r ++ connection_text is_last)
      × IsValid r'
      × Kept r m r' m'
unfolding write_connection
write_connection-Outcome false total r m v g l = (
  r,
  m,
  ap (λ n. done (some n, r, m)) (omega arith),
  sym (append-nil (content r)),
  v,
  record { server_name = refl; is_last = refl; grants = g; balance = refl },
)
write_connection-Outcome true total r m v g l =
    let o = write_header-Writes (codes "Connection") (codes "Close") r m v g l in
    (
      o.response,
      o.memory,
      rw o.returns,
      o.written,
      o.valid,
      record {
        server_name = o.server_name;
        is_last = o.is_last;
        grants = o.grants;
        balance = omega (arith, o.balance);
      },
    )

pub end_headers-Outcome :
    (date : Text) (r : HttpResponse) (m : Memory)
    → IsValid r
    → Granted m
    → blocks r ≤ m.live
    → Outcome (http_response_end_headers (some date)) (end_text r.server_name date r.is_last) 0 r m
unfolding http_response_end_headers
end_headers-Outcome date r m v g l =
    let a = write_header-Writes (codes "Server") r.server_name r m v g l in
    let b =
      write_header-Writes (codes "Date") date a.response a.memory a.valid a.grants
        (omega (arith, covered a l)) in
    let l₂ = covered b (omega (arith, covered a l)) in
    let (r', m', e, w, v', k) =
      write_connection-Outcome r.is_last
        (length (header_text (codes "Server") r.server_name)
          + length (header_text (codes "Date") date))
        b.response b.memory b.valid b.grants (omega (arith, l₂)) in
    let d = append_data-Writes eol (omega arith) r' m' v' k.grants (omega (arith, k.balance, l₂)) in
    record {
      response = d.response;
      memory = d.memory;
      returns =
          rw (a.returns, b.returns, e, d.returns)
            (ap (λ n. done (some n, d.response, d.memory))
              (length-four (header_text (codes "Server") r.server_name)
                (header_text (codes "Date") date) (connection_text r.is_last) eol));
      written =
          rw (d.written, w, b.written, a.written)
            (append-four (content r) (header_text (codes "Server") r.server_name)
              (header_text (codes "Date") date) (connection_text r.is_last) eol);
      valid = d.valid;
      server_name = d.server_name ∙ (k.server_name ∙ (b.server_name ∙ a.server_name));
      is_last = d.is_last ∙ (k.is_last ∙ (b.is_last ∙ a.is_last));
      grants = d.grants;
      balance = omega (arith, a.balance, b.balance, k.balance, d.balance);
    }
