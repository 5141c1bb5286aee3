-- ===== src/HttpRequest/Lookup.antt =====
-- Header lookup against the list of decoded headers.
use rapp.Prelude.{
  All-append, ◌∙◌, ap, ℕ, zero, suc, ◌+◌, ◌≤◌, ◌<◌, ◌≡◌, refl, true, Option, none, some, List, [],
  ◌∷◌, ◌++◌, arith, leb, ltb, if◌then◌else◌, Bool-cases, inl, inr, Text, str_case_eq, length, take,
  drop, set, le→leb, lt→ltb, length-set, get_or-set_self, All,
}
use rapp.Prelude.Run.{Run, done, ◌>>=◌}
use rapp.HttpRequest.{
  MemoryRange, HeaderMemoryRange, HttpRequest, no_header, c_string, find_header,
  http_request_get_header_value_range, http_request_set_header_key_range,
  http_request_set_header_value_range,
}

-- The bytes of a range of the buffer.
abbrev pub bytes_at : List ℕ → MemoryRange → List ℕ
bytes_at b r = take r.length (drop r.offset b)

-- The headers as a client thinks of them: names with the ranges of their values.
unfoldable pub decoded : List ℕ → List HeaderMemoryRange → List (Text × MemoryRange)
unfolding c_string
decoded b [] = []
decoded b (h ∷ hs) = (c_string (bytes_at b h.key), h.value) ∷ decoded b hs

-- The first header of that name, letter case aside.
unfoldable pub first_named : Text → List (Text × MemoryRange) → Option MemoryRange
first_named name [] = none
first_named name ((n, v) ∷ hs) = if str_case_eq name n then some v else first_named name hs

abbrev KeyWithin : List ℕ → HeaderMemoryRange → Type 0
KeyWithin b h = h.key.offset + h.key.length ≤ length b

find_header-first_named :
    (b : List ℕ) (name : Text) (hs : List HeaderMemoryRange) (n : ℕ)
    → n ≤ length hs
    → All (KeyWithin b) (take n hs)
    → find_header (some b) name hs n ≡ done (first_named name (decoded b (take n hs)))
unfolding find_header decoded first_named
find_header-first_named b name hs zero h w = refl
find_header-first_named b name [] (suc n) h w = absurd (omega arith)
find_header-first_named b name (x ∷ hs) (suc n) h w =
    rw room (elim (Bool-cases (str_case_eq name (c_string (bytes_at b x.key)))) [
      | inl e ↦ rw e
      | inr e ↦ rw e (find_header-first_named b name hs n (omega arith) w.1)
    ])
  where
    room : leb (x.key.offset + x.key.length) (length b) ≡ true
    room = le→leb (x.key.offset + x.key.length) (length b) w.0

-- The headers read so far lie in the buffer, and there are no more of them than entries.
pub record HeadersValid (r : HttpRequest) (b : List ℕ) : Type 0 where
  pub buffer : r.headers_buffer ≡ some b
  pub counted : r.current_header ≤ length r.headers_ranges
  pub within : All (KeyWithin b) (take r.current_header r.headers_ranges)

-- With its headers in the buffer, a request is searched without a fault, and what is found is the
-- value of the first header with the name, compared without regard to letter case; -1 is returned
-- exactly if there is none.
pub get_header_value_range-first_named :
    (r : HttpRequest) (b : List ℕ) (name : Text)
    → HeadersValid r b
    → http_request_get_header_value_range r name
      ≡ done (first_named name (decoded b (take r.current_header r.headers_ranges)))
unfolding http_request_get_header_value_range
get_header_value_range-first_named r b name v =
    rw v.buffer
      (find_header-first_named b name r.headers_ranges r.current_header v.counted v.within)

take-set_next {ℓ} :
    {A : Type ℓ} (xs : List A) (n : ℕ) (v : A)
    → n < length xs
    → take (suc n) (set xs n v) ≡ take n xs ++ v ∷ []
take-set_next [] n v h = elim h [ ]
take-set_next (x ∷ xs) zero v h = refl
take-set_next (x ∷ xs) (suc n) v h = rw (take-set_next xs n v (omega arith))

set-set {ℓ} : {A : Type ℓ} (xs : List A) (n : ℕ) (v w : A) → set (set xs n v) n w ≡ set xs n w
set-set [] n v w = refl
set-set (x ∷ xs) zero v w = refl
set-set (x ∷ xs) (suc n) v w = rw (set-set xs n v w)

-- What the two callbacks for a header do to the request.
abbrev pub add_header : HttpRequest → MemoryRange → MemoryRange → Run HttpRequest
add_header r key value =
    http_request_set_header_key_range r r.current_header key.offset key.length >>= λ r'.
    http_request_set_header_value_range r' r.current_header value.offset value.length

-- A header whose key and then value are set at the next free entry is appended to the headers: none
-- before it changes, the count grows by one, and nothing but the entries and the count is touched.
pub add_header-append :
    (r : HttpRequest) (key value : MemoryRange)
    → r.current_header < length r.headers_ranges
    → (r' : HttpRequest) × (add_header r key value ≡ done r')
      × (r'.current_header ≡ suc r.current_header)
      × (take r'.current_header r'.headers_ranges
          ≡ take r.current_header r.headers_ranges ++ record { key = key; value = value } ∷ [])
      × (length r'.headers_ranges ≡ length r.headers_ranges)
      × (record r' { headers_ranges = r.headers_ranges; current_header = r.current_header } ≡ r)
unfolding http_request_set_header_key_range http_request_set_header_value_range
add_header-append r key value h = (
  record r {
    headers_ranges = set r.headers_ranges r.current_header new;
    current_header = suc r.current_header;
  },
  rw (
    room,
    length-set,
    room,
    get_or-set_self r.headers_ranges r.current_header _ no_header h,
    set-set,
  ),
  refl,
  take-set_next r.headers_ranges r.current_header new h,
  length-set r.headers_ranges r.current_header new,
  refl,
)
  where
    new : HeaderMemoryRange
    new = record { key = key; value = value }

    room : ltb r.current_header (length r.headers_ranges) ≡ true
    room = lt→ltb r.current_header (length r.headers_ranges) h

decoded-append :
    (b : List ℕ) (hs : List HeaderMemoryRange) (h : HeaderMemoryRange)
    → decoded b (hs ++ h ∷ []) ≡ decoded b hs ++ (c_string (bytes_at b h.key), h.value) ∷ []
unfolding decoded
decoded-append b [] h = refl
decoded-append b (x ∷ hs) h = rw (decoded-append b hs h)

-- If the headers and the new key lie in the buffer, the request stays searchable once the header is
-- added, and lookups see it behind those that were there.
pub get_header_value_range-add_header :
    (r : HttpRequest) (b : List ℕ) (key value : MemoryRange) (name : Text)
    → HeadersValid r b
    → r.current_header < length r.headers_ranges
    → key.offset + key.length ≤ length b
    → (r' : HttpRequest) × (add_header r key value ≡ done r')
      × HeadersValid r' b
      × (http_request_get_header_value_range r' name
          ≡ done (
              first_named name (
                decoded b (take r.current_header r.headers_ranges)
                ++ (c_string (bytes_at b key), value) ∷ [])))
get_header_value_range-add_header r b key value name v h k =
    let (r', e, n, t, l, same) = add_header-append r key value h in
    let v' : HeadersValid r' b = record {
      buffer = ap (λ (q : HttpRequest). q.headers_buffer) same ∙ v.buffer;
      counted = omega (arith, n, l);
      within =
          rw t
            (All-append (KeyWithin b) (take r.current_header r.headers_ranges) _ v.within (k, tt));
    } in
    (
      r',
      e,
      v',
      get_header_value_range-first_named r' b name v'
          ∙ ap (λ hs. done (first_named name hs))
              (ap (decoded b) t ∙ decoded-append b (take r.current_header r.headers_ranges) _),
    )
