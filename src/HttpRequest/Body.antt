-- ===== src/HttpRequest/Body.antt =====
-- The body: chunks are appended into the block that the content length asked for.
use rapp.Prelude.{
  false, leb, le→leb, ℕ, ◌+◌, ◌-◌, ◌≤◌, ◌<◌, ◌≡◌, true, some, List, [], ◌∷◌, ◌++◌, append_assoc,
  append-nil, arith, length, length-append, length-replicate, take-length_append,
  drop-length_append, drop-replicate, replicate, Memory, memory_create, Bool-cases, sym, ◌∙◌, ap,
  inl, inr, ◌==◌, All,
}
use rapp.Prelude.Run.{Run, done, ◌>>=◌, write_block}
use rapp.HttpRequest.{HttpRequest, http_request_set_body_length, http_request_append_body_data}

-- The calls of `http_request_append_body_data` that the body's chunks lead to, in order.
pub append_chunks : HttpRequest → List (List ℕ) → Run HttpRequest
unfolding http_request_append_body_data
append_chunks r [] = done r
append_chunks r (c ∷ cs) = http_request_append_body_data r c >>= λ r'. append_chunks r' cs

abbrev joined : List (List ℕ) → List ℕ
joined [] = []
joined (c ∷ cs) = c ++ joined cs

-- The request whose block of `size` bytes begins with the bytes received.
abbrev pub holding : HttpRequest → ℕ → List ℕ → HttpRequest
holding r size received = record r {
  body = some (received ++ replicate (size - length received) 0);
  body_length = length received;
}

size_of :
    (received : List ℕ) (size : ℕ)
    → length received ≤ size
    → length (received ++ replicate (size - length received) 0) ≡ size
size_of received size h = omega (
  arith,
  length-append received (replicate (size - length received) 0),
  length-replicate {A = ℕ} (size - length received) 0,
)

set_body_length-holding :
    (r : HttpRequest) (n : ℕ) (m : Memory)
    → r.body_length ≡ 0
    → (r' : HttpRequest) (m' : Memory) → http_request_set_body_length r n m ≡ done (true, r', m')
    → r' ≡ holding r n []
unfolding http_request_set_body_length
set_body_length-holding r n m e r' m' ok = elim (Bool-cases (n == 0)) [
  | inl z ↦ let never = rw z at ok in cc
  | inr z ↦ elim (Bool-cases (memory_create m).0) [
    | inl got ↦
        let made = rw (z, got) at ok in
        let zeroed : HttpRequest = record r { body = some (replicate n 0) } in
        let same : zeroed ≡ r' = cc in
        let all : n - 0 ≡ n = omega arith in
        rw all (sym same ∙ ap (λ (k : ℕ). record zeroed { body_length = k }) e)
    | inr got ↦ let made = rw (z, got) at ok in cc
  ]
]

module _ (received bytes : List ℕ) (size : ℕ) where
  abbrev block : List ℕ
  block = received ++ replicate (size - length received) 0

  write-fits :
      length received + length bytes ≤ size
      → write_block block (length received) bytes
        ≡ done ((received ++ bytes) ++ replicate (size - length (received ++ bytes)) 0)
  write-fits h = rw (
    room, take-length_append, drop-length_append, drop-replicate, append_assoc, length-append,
    sub_sum,
  )
    where
      room : leb (length received + length bytes) (length block) ≡ true
      room =
          rw (size_of received size (omega arith)) (le→leb (length received + length bytes) size h)

      sub_sum : size - length received - length bytes ≡ size - (length received + length bytes)
      sub_sum = omega arith

abbrev pub Filled : List ℕ → Type 0
Filled c = 0 < length c

filled : (c : List ℕ) → Filled c → (length c == 0) ≡ false
filled c h = ground (arith, h)

append_chunks-holding :
    (r : HttpRequest) (size : ℕ) (received : List ℕ) (chunks : List (List ℕ))
    → All Filled chunks
    → length received + length (joined chunks) ≤ size
    → append_chunks (holding r size received) chunks
      ≡ done (holding r size (received ++ joined chunks))
unfolding append_chunks
append_chunks-holding r size received [] f h = rw append-nil
append_chunks-holding r size received (c ∷ cs) f h =
    rw
      (
        filled c f.0,
        write-fits received c size (omega (arith, length-append c (joined cs))),
        ← length-append,
        ← append_assoc,
      )
      (append_chunks-holding r size (received ++ c) cs f.1
        (omega (arith, length-append c (joined cs), length-append received c)))

-- After the body's block of `n` bytes was allocated for a request without body data, chunks that are
-- not empty, of `n` bytes at most together, are appended in order: the block begins with all of
-- them, the rest of it is zero and the length is their sum.
pub append_chunks-set_body_length :
    (r : HttpRequest) (n : ℕ) (m : Memory) (r' : HttpRequest) (m' : Memory) (chunks : List (List ℕ))
    → r.body_length ≡ 0
    → http_request_set_body_length r n m ≡ done (true, r', m')
    → All Filled chunks
    → length (joined chunks) ≤ n
    → append_chunks r' chunks ≡ done (holding r n (joined chunks))
append_chunks-set_body_length r n m r' m' chunks e ok f h =
    rw (set_body_length-holding r n m e r' m' ok)
      (append_chunks-holding r n [] chunks f (omega arith))
