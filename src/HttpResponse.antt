-- ===== src/HttpResponse.antt =====
-- src/httpresponse.c: the bytes to be sent. A call that asserts a positive length faults on 0, as
-- does a read through a null buffer; bytes that `realloc` adds are taken to be zero. A writer
-- returns the number of bytes written, or `none` for -1.
pub mod Status
pub mod Writer
pub mod Buffer
pub mod Writes
pub mod StatusLine
pub mod Errors
pub mod Drain
use rapp.Prelude.{
  ℕ, zero, suc, ◌+◌, ◌-◌, Bool, true, false, not, Option, none, some, List, [], ◌∷◌, ◌++◌, ltb,
  ◌==◌, if◌then◌else◌, min, Text, codes, length, take, drop, replicate, Memory, memory_create,
  memory_resize, memory_destroy,
}
use rapp.Prelude.Run.{Run, done, fault, ◌>>=◌, read_block}

pub record HttpResponse : Type 0 where
  pub buffer : Option (List ℕ)
  pub buffer_length : ℕ
  pub server_name : Text
  pub is_last : Bool

abbrev pub is_some {ℓ} : {A : Type ℓ} → Option A → Bool
is_some none = false
is_some (some a) = true

-- The bytes of the block, none for the null pointer.
abbrev pub block : Option (List ℕ) → List ℕ
block none = []
block (some b) = b

unfoldable pub http_response_new : Text → Memory → Option HttpResponse × Memory
unfolding memory_create
http_response_new server_name m =
    let (got, m') = memory_create m in
    (
      if got
          then some (record {
            buffer = none;
            buffer_length = 0;
            server_name = server_name;
            is_last = false;
          })
          else none,
      m',
    )

unfoldable pub http_response_destroy : HttpResponse → Memory → Memory
unfolding memory_destroy
http_response_destroy r m =
    memory_destroy
      (if is_some r.buffer then (if r.buffer_length == 0 then m else memory_destroy m) else m)

-- A call on the response: what it returns, the response and the allocator after it.
abbrev pub Call : Type 0 → Type 0
Call A = HttpResponse → Memory → Run (Option A × HttpResponse × Memory)

-- The block of `size` bytes that `realloc` makes of the old one.
abbrev resized : List ℕ → ℕ → List ℕ
resized old size = take size (old ++ replicate size 0)

unfoldable pub http_response_append_data : List ℕ → Call ℕ
unfolding memory_resize
http_response_append_data bytes r m =
    if length bytes == 0
    then fault
    else let (got, m') = memory_resize (is_some r.buffer) m in
      if not got
      then done (none, record r { buffer = none }, m')
      else done (
        some (length bytes),
        record r {
          buffer = some (resized (block r.buffer) r.buffer_length ++ bytes);
          buffer_length = r.buffer_length + length bytes;
        },
        m',
      )

-- The bytes that `memcpy(data, response->buffer, n)` hands to the caller.
abbrev copy_out : Option (List ℕ) → ℕ → Run (List ℕ)
copy_out buffer n = read_block (block buffer) 0 n

abbrev pub release : Option (List ℕ) → Memory → Memory
release none m = m
release (some b) m = memory_destroy m

-- After the copy: the block is freed where nothing is left, else moved down and resized.
abbrev shrink : HttpResponse → ℕ → List ℕ → Memory → Option (List ℕ) × HttpResponse × Memory
shrink r n copied m =
    if r.buffer_length - n == 0
    then (some copied, record r { buffer = none; buffer_length = 0 }, release r.buffer m)
    else let (got, m') = memory_resize (is_some r.buffer) m in
      if not got
      then (none, record r { buffer = none; buffer_length = r.buffer_length - n }, m')
      else (
        some copied,
        record r {
          buffer = some (resized (drop n (block r.buffer)) (r.buffer_length - n));
          buffer_length = r.buffer_length - n;
        },
        m',
      )

-- `data` comes back with the bytes; their number is the return value.
unfoldable pub http_response_read_data : ℕ → Call (List ℕ)
unfolding memory_resize memory_destroy
http_response_read_data n r m =
    if n == 0
    then fault
    else let available = (if ltb r.buffer_length n then r.buffer_length else n) in
      copy_out r.buffer available >>= λ copied. done (shrink r available copied m)

unfoldable pub http_response_set_last : HttpResponse → Bool → HttpResponse
http_response_set_last r last = record r { is_last = last }

unfoldable pub http_response_is_last : HttpResponse → Bool
http_response_is_last r = r.is_last
