-- ===== src/HttpRequest/Fields.antt =====
-- The ranges of the URL and of its parts.
use rapp.Prelude.{
  ℕ, ◌<◌, ◌≡◌, ◌≢◌, true, none, some, arith, ltb, ◌==◌, if◌then◌else◌, length, set, length-set,
  get_or-set_self, get_or-set_ne, lt→ltb,
}
use rapp.Prelude.Run.{done}
use rapp.HttpRequest.{
  HttpRequest, range, url_field_max, http_request_set_url_field_range,
  http_request_get_url_field_range,
}

-- What the theorem below states of the field and of each other one.
url_field_range-outcome :
    (r : HttpRequest) (field offset n : ℕ)
    → length r.url_field_ranges ≡ url_field_max
    → field < url_field_max
    → (r' : HttpRequest) × (http_request_set_url_field_range r field offset n ≡ done r')
      × (http_request_get_url_field_range r' field
          ≡ done (if n == 0 then none else some (range offset n)))
      × ((other : ℕ)
          → field ≢ other
          → http_request_get_url_field_range r' other ≡ http_request_get_url_field_range r other)
unfolding http_request_set_url_field_range http_request_get_url_field_range
url_field_range-outcome r field offset n l h = (
  record r { url_field_ranges = set r.url_field_ranges field (range offset n) },
  rw room,
  rw (
    length-set,
    room,
    get_or-set_self r.url_field_ranges field (range offset n) (range 0 0) (omega arith),
  ),
  λ other d.
      rw (length-set, get_or-set_ne r.url_field_ranges field other (range offset n) (range 0 0) d),
)
  where
    room : ltb field (length r.url_field_ranges) ≡ true
    room = lt→ltb field (length r.url_field_ranges) (omega arith)

-- Setting the range of a URL field never faults for a field of the enumeration; then the field has
-- that range, or is absent where the length is 0, and any other field reads as before.
get_url_field_range-set :
    (r : HttpRequest) (field other offset n : ℕ)
    → length r.url_field_ranges ≡ url_field_max
    → field < url_field_max
    → field ≢ other
    → (r' : HttpRequest) × (http_request_set_url_field_range r field offset n ≡ done r')
      × (http_request_get_url_field_range r' field
          ≡ done (if n == 0 then none else some (range offset n)))
      × (http_request_get_url_field_range r' other ≡ http_request_get_url_field_range r other)
get_url_field_range-set r field other offset n l h d =
    let (r', e, here, there) = url_field_range-outcome r field offset n l h in
    (r', e, here, there other d)
