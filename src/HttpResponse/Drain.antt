-- ===== src/HttpResponse/Drain.antt =====
-- Sending: reads of at most `n` bytes until nothing is left, and what a failed `realloc` does.
use rapp.Prelude.Granted.{resize-refused}
use rapp.Prelude.{
  append-nil, append_assoc, ℕ, zero, suc, ◌+◌, ◌-◌, ◌*◌, ◌≤◌, ◌<◌, ◌≡◌, refl, sym, ◌∙◌, ap, false,
  Option, none, some, List, [], ◌∷◌, ◌++◌, arith, if◌then◌else◌, length, take, take-append-drop,
  length-drop, Memory,
}
use rapp.Prelude.Granted.{Granted}
use rapp.Prelude.Run.{Run, done, fault, ◌>>=◌}
use rapp.HttpResponse.{
  memory_resize, HttpResponse, Call, http_response_read_data, http_response_append_data, is_some,
}
use rapp.HttpResponse.Buffer.{content, IsValid, blocks, positive, read_data-content}

abbrev append_to : List ℕ → Option (List ℕ) → Option (List ℕ)
append_to bytes none = none
append_to bytes (some more) = some (bytes ++ more)

abbrev add_read :
    (HttpResponse → Memory → Run (Option (List ℕ) × HttpResponse × Memory))
    → Option (List ℕ) × HttpResponse × Memory
    → Run (Option (List ℕ) × HttpResponse × Memory)
add_read rest (none, r, m) = done (none, r, m)
add_read rest (some bytes, r, m) =
    rest r m >>= λ (more, r', m'). done (append_to bytes more, r', m')

-- `k` reads of `n` bytes, one after the other, and what they return together.
pub drain : ℕ → ℕ → Call (List ℕ)
unfolding http_response_read_data
drain n zero r m = done (some [], r, m)
drain n (suc k) r m = http_response_read_data n r m >>= add_read (drain n k)

drain-take_drop :
    (n k : ℕ) (r : HttpResponse) (m : Memory)
    → IsValid r
    → Granted m
    → 0 < n
    → blocks r ≤ m.live
    → (bytes : List ℕ) × (r' : HttpResponse) × (m' : Memory) × (drain n k r m
        ≡ done (some bytes, r', m'))
      × (bytes ++ content r' ≡ content r)
      × (length (content r') ≡ length (content r) - k * n)
      × IsValid r'
      × (m'.live + blocks r ≡ m.live + blocks r')
unfolding drain
drain-take_drop n zero r m v g h l = ([], r, m, refl, refl, omega arith, v, refl)
drain-take_drop n (suc k) r m v g h l =
    let (r₁, m₁, e, c, v₁, kept) = read_data-content n r m v g h l in
    let (bytes, r', m', e', c', len, v', live) =
      drain-take_drop n k r₁ m₁ v₁ kept.grants h (omega (arith, kept.balance)) in
    (
      take n (content r) ++ bytes,
      r',
      m',
      rw (e, e'),
      append_assoc _ bytes (content r')
          ∙ (ap (λ xs. take n (content r) ++ xs) (c' ∙ c) ∙ take-append-drop n (content r)),
      omega (arith, len, ap length c, length-drop n (content r)),
      v',
      omega (arith, kept.balance, live),
    )

pub empty_of_length : (xs : List ℕ) → length xs ≡ 0 → xs ≡ []
empty_of_length [] e = refl
empty_of_length (x ∷ xs) e = absurd (omega arith)

none_of_empty : (r : HttpResponse) → IsValid r → content r ≡ [] → r.buffer ≡ none
none_of_empty r v e = go r.buffer refl
  where
    go : (b : Option (List ℕ)) → r.buffer ≡ b → b ≡ none
    go none q = refl
    go (some x) q =
        let t = v.held (ap is_some q) in
        let c = v.counted ∙ ap length e in absurd (omega (arith, c, t))

-- Reading `n` bytes at a time, `k` times, hands over the whole content of a valid response, in
-- order and once, as soon as `k * n` reaches its length, if memory is granted; the block is
-- released then.
pub drain_all :
    (n k : ℕ) (r : HttpResponse) (m : Memory)
    → IsValid r
    → Granted m
    → 0 < n
    → blocks r ≤ m.live
    → length (content r) ≤ k * n
    → (r' : HttpResponse) × (m' : Memory) × (drain n k r m ≡ done (some (content r), r', m'))
      × (r'.buffer ≡ none)
      × (m'.live + blocks r ≡ m.live)
drain_all n k r m v g h l enough =
    let (bytes, r', m', e, c, len, v', live) = drain-take_drop n k r m v g h l in
    let empty : content r' ≡ [] = empty_of_length (content r') (omega arith) in
    let gone = none_of_empty r' v' empty in
    let whole : bytes ≡ content r =
      sym (append-nil bytes) ∙ (ap (λ xs. bytes ++ xs) (sym empty) ∙ c) in
    (
      r',
      m',
      e ∙ ap (λ xs. done (some xs, r', m')) whole,
      gone,
      omega (arith, live, ap {B = ℕ} (λ (b : Option (List ℕ)). if is_some b then 1 else 0) gone),
    )

-- What the theorem below states of the append and of each later read.
append_refused-outcome :
    (bytes : List ℕ) (r : HttpResponse) (m : Memory) (n : ℕ)
    → 0 < length bytes
    → 0 < r.buffer_length
    → (memory_resize (is_some r.buffer) m).0 ≡ false
    → 0 < n
    → (r' : HttpResponse) × (m' : Memory) × (http_response_append_data bytes r m
        ≡ done (none, r', m'))
      × (m'.live ≡ m.live)
      × ((m'' : Memory) → http_response_read_data n r' m'' ≡ fault)
unfolding http_response_append_data http_response_read_data
append_refused-outcome bytes r m n h p refused q = (
  record r { buffer = none },
  (memory_resize (is_some r.buffer) m).1,
  rw (positive (length bytes) h, refused),
  resize-refused (is_some r.buffer) m refused,
  λ m''. rw (positive n q) (ground arith),
)

-- When `realloc` refuses, appending to a response that holds bytes returns -1 and drops the block
-- but not the length, and frees nothing: the next read from the response goes through the null
-- pointer.
pub read_data-append_refused :
    (bytes : List ℕ) (r : HttpResponse) (m m'' : Memory) (n : ℕ)
    → 0 < length bytes
    → 0 < r.buffer_length
    → (memory_resize (is_some r.buffer) m).0 ≡ false
    → 0 < n
    → (r' : HttpResponse) × (m' : Memory) × (http_response_append_data bytes r m
        ≡ done (none, r', m'))
      × (m'.live ≡ m.live)
      × (http_response_read_data n r' m'' ≡ fault)
read_data-append_refused bytes r m m'' n h l e k =
    let (r', m', a, live, read) = append_refused-outcome bytes r m n h l e k in
    (r', m', a, live, read m'')
