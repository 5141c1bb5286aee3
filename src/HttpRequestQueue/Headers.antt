-- ===== src/HttpRequestQueue/Headers.antt =====
-- The headers of a message, one after the other, and where the callbacks refuse or fault.
use rapp.HttpRequest.{http_request_set_header_value_range}
use rapp.Prelude.{ltb, length-set}
use rapp.HttpRequest.{no_header, range}
use rapp.Prelude.{get_or}
use rapp.HttpRequest.{http_request_set_header_key_range}
use rapp.Prelude.{lt→ltb, lt→not_leb}
use rapp.Prelude.{
  ℕ, zero, suc, ◌+◌, ◌≤◌, ◌<◌, ◌≡◌, refl, sym, ◌∙◌, ap, true, false, some, List, [], ◌∷◌, ◌++◌,
  append_assoc, append-nil, arith, leb, length, get_elem?, take, set, Memory, if◌then◌else◌,
}
use rapp.Prelude.Run.{done, fault, ◌>>=◌}
use rapp.HttpRequest.{HttpRequest, HeaderMemoryRange, max_headers}
use rapp.HttpRequest.Lookup.{add_header-append}
use rapp.HttpRequestQueue.{HttpRequestQueue, Outcome, store, on_header_field, on_header_value}

-- The request `r` is being read, and the queue counts its headers.
pub record Reading (q : HttpRequestQueue) (r : HttpRequest) : Type 0 where
  pub here : get_elem? q.requests q.incoming_index ≡ some (some r)
  pub counted : q.current_header ≡ r.current_header
  pub room : length r.headers_ranges ≡ max_headers

pub get_elem?-set :
    {A : Type 0} (xs : List A) (i : ℕ) (a v : A)
    → get_elem? xs i ≡ some a
    → get_elem? (set xs i v) i ≡ some v
get_elem?-set [] i a v e = cc
get_elem?-set (x ∷ xs) zero a v e = refl
get_elem?-set (x ∷ xs) (suc i) a v e = get_elem?-set xs i a v e

abbrev pub on_headers : List HeaderMemoryRange → HttpRequestQueue → Memory → Outcome
on_headers [] q m = done (true, q, m)
on_headers (h ∷ hs) q m = on_header_field h.key.offset h.key.length q m >>= λ (named, q₁, m₁).
    if named
    then (on_header_value h.value.offset h.value.length q₁ m₁ >>= λ (_, q₂, m₂).
        on_headers hs q₂ m₂)
    else done (false, q₁, m₁)

set_key-done :
    (r : HttpRequest) (i offset n : ℕ)
    → i < length r.headers_ranges
    → (r' : HttpRequest) × (http_request_set_header_key_range r i offset n ≡ done r')
unfolding http_request_set_header_key_range
set_key-done r i offset n h =
    let key : HeaderMemoryRange = record (get_or r.headers_ranges i no_header) {
      key = range offset n;
    } in
    (
      record r { headers_ranges = set r.headers_ranges i key },
      rw (lt→ltb i (length r.headers_ranges) h) refl,
    )

-- What the headers leave of the queue.
pub record Others (q q' : HttpRequestQueue) : Type 0 where
  pub buffer : q'.buffer ≡ q.buffer
  pub buffer_length : q'.buffer_length ≡ q.buffer_length
  pub incoming_index : q'.incoming_index ≡ q.incoming_index
  pub outgoing_index : q'.outgoing_index ≡ q.outgoing_index
  pub places : length q'.requests ≡ length q.requests

Others-trans : (q q' q'' : HttpRequestQueue) → Others q q' → Others q' q'' → Others q q''
Others-trans q q' q'' a b = record {
  buffer = b.buffer ∙ a.buffer;
  buffer_length = b.buffer_length ∙ a.buffer_length;
  incoming_index = b.incoming_index ∙ a.incoming_index;
  outgoing_index = b.outgoing_index ∙ a.outgoing_index;
  places = b.places ∙ a.places;
}

-- Each field and each value is taken.
abbrev pub Passes : List HeaderMemoryRange → HttpRequestQueue → HttpRequestQueue → Memory → Type 0
Passes [] q q' m = q ≡ q'
Passes (h ∷ hs) q q' m =
    (q₁ : HttpRequestQueue) × (q₂ : HttpRequestQueue) × (on_header_field h.key.offset h.key.length q
        m
      ≡ done (true, q₁, m))
    × (on_header_value h.value.offset h.value.length q₁ m ≡ done (true, q₂, m))
    × Passes hs q₂ q' m

pub on_headers-Passes :
    (hs : List HeaderMemoryRange) (q q' : HttpRequestQueue) (m : Memory)
    → Passes hs q q' m
    → on_headers hs q m ≡ done (true, q', m)
on_headers-Passes [] q q' m p = ap (λ (z : HttpRequestQueue). done (true, z, m)) p
on_headers-Passes (h ∷ hs) q q' m (q₁, q₂, e₁, e₂, p) = rw (e₁, e₂) (on_headers-Passes hs q₂ q' m p)

-- A field and its value, below the limit, are one header more of the request.
header-steps :
    (q : HttpRequestQueue) (r : HttpRequest) (h : HeaderMemoryRange) (m : Memory)
    → Reading q r
    → r.current_header < max_headers
    → (q₁ : HttpRequestQueue) × (r' : HttpRequest) × (q' : HttpRequestQueue) × (on_header_field
          h.key.offset h.key.length q m
        ≡ done (true, q₁, m))
      × (on_header_value h.value.offset h.value.length q₁ m ≡ done (true, q', m))
      × Reading q' r'
      × (r'.current_header ≡ suc r.current_header)
      × (take r'.current_header r'.headers_ranges
          ≡ take r.current_header r.headers_ranges ++ h ∷ [])
      × (record r' { headers_ranges = r.headers_ranges; current_header = r.current_header } ≡ r)
      × Others q q'
unfolding on_header_field on_header_value
header-steps q r h m v l =
    let inside : r.current_header < length r.headers_ranges = omega (arith, v.room, l) in
    let (r', e, c, t, n, o) = add_header-append r h.key h.value inside in
    let (k, f) = set_key-done r r.current_header h.key.offset h.key.length inside in
    let e' = rw f at e in
    let below : leb max_headers r.current_header ≡ false =
      lt→not_leb max_headers r.current_header l in
    let kept = get_elem?-set q.requests q.incoming_index (some r) (some k) v.here in
    (
      store q k,
      r',
      record (store (store q k) r') { current_header = suc q.current_header },
      rw (v.counted, below, v.here, f) refl,
      rw (v.counted, kept, e') refl,
      record {
        here = get_elem?-set (store q k).requests q.incoming_index (some k) (some r') kept;
        counted = ap suc v.counted ∙ sym c;
        room = n ∙ v.room;
      },
      c,
      t,
      o,
      record {
        buffer = refl;
        buffer_length = refl;
        incoming_index = refl;
        outgoing_index = refl;
        places =
            length-set (set q.requests q.incoming_index (some k)) q.incoming_index (some r')
            ∙ length-set q.requests q.incoming_index (some k);
      },
    )

-- The queue after these headers: the request, what `on_headers` gives, and what is as before.
pub headers-read :
    (hs : List HeaderMemoryRange) (q : HttpRequestQueue) (r : HttpRequest) (m : Memory)
    → Reading q r
    → r.current_header + length hs ≤ max_headers
    → (q' : HttpRequestQueue) × (r' : HttpRequest) × Passes hs q q' m
      × Reading q' r'
      × (take r'.current_header r'.headers_ranges ≡ take r.current_header r.headers_ranges ++ hs)
      × (r'.current_header ≡ r.current_header + length hs)
      × (record r' { headers_ranges = r.headers_ranges; current_header = r.current_header } ≡ r)
      × Others q q'
headers-read [] q r m v l = (
  q,
  r,
  refl,
  v,
  sym (append-nil (take r.current_header r.headers_ranges)),
  omega arith,
  refl,
  record {
    buffer = refl;
    buffer_length = refl;
    incoming_index = refl;
    outgoing_index = refl;
    places = refl;
  },
)
headers-read (h ∷ hs) q r m v l =
    let (q₁, r₁, q₂, e₁, e₂, v₁, c, t, o, b) = header-steps q r h m v (omega arith) in
    let (q₃, r₂, p, v₂, t', n', o', b') = headers-read hs q₂ r₁ m v₁ (omega (arith, c)) in
    (
      q₃,
      r₂,
      (q₁, q₂, e₁, e₂, p),
      v₂,
      rw (t', t, append_assoc) refl,
      omega (arith, n', c),
      ap
            (λ (z : HttpRequest). record z {
              headers_ranges = r.headers_ranges;
              current_header = r.current_header;
            })
            o'
          ∙ o,
      Others-trans q q₂ q₃ b b',
    )

pub get_elem?-set_lt :
    {A : Type 0} (xs : List A) (i : ℕ) (v : A) → i < length xs → get_elem? (set xs i v) i ≡ some v
get_elem?-set_lt [] i v h = elim h [ ]
get_elem?-set_lt (x ∷ xs) zero v h = refl
get_elem?-set_lt (x ∷ xs) (suc i) v h = get_elem?-set_lt xs i v (omega arith)

-- After a hundred headers a further field is refused with -1, while a further value, such as the
-- next part of the last one, is written past the array.
on_header-full :
    (q : HttpRequestQueue) (r : HttpRequest) (m : Memory) (at n : ℕ)
    → Reading q r
    → r.current_header ≡ max_headers
    → (on_header_field at n q m ≡ done (false, q, m)) × (on_header_value at n q m ≡ fault)
unfolding on_header_field on_header_value http_request_set_header_value_range
on_header-full q r m at n v f =
    let c : q.current_header ≡ max_headers = v.counted ∙ f in
    let past : ltb max_headers (length r.headers_ranges) ≡ false = ground (arith, v.room) in
    (rw c refl, rw (v.here, c, past) refl)
