-- ===== src/HttpResponse/Buffer.antt =====
-- The response's buffer as a queue of bytes: appends go to its end, reads take from its front.
use rapp.HttpResponse.{release}
use native.Mathlib.Decide.{dec_le}
use native.Mathlib.Nat.{sub_self}
use rapp.Prelude.Granted.{Granted, resize-Granted}
use rapp.Prelude.{
  ℕ, ◌+◌, ◌-◌, ◌≤◌, ◌<◌, ◌≡◌, refl, sym, true, false, Option, none, some, List, ◌++◌, arith, ltb,
  ◌==◌, leb, if◌then◌else◌, length, length-append, take, drop, take-length_append, take-all,
  drop-all, length-drop, replicate, le→leb, Memory, memory_resize, memory_destroy,
}
use rapp.Prelude.Run.{done}
use rapp.HttpResponse.{
  HttpResponse, is_some, block, http_response_append_data, http_response_read_data,
}

-- The bytes still to be sent.
abbrev pub content : HttpResponse → List ℕ
content r = block r.buffer

pub record IsValid (r : HttpResponse) : Type 0 where
  pub counted : r.buffer_length ≡ length (content r)
  pub held : is_some r.buffer ≡ true → 0 < r.buffer_length

-- The blocks that the response holds.
abbrev pub blocks : HttpResponse → ℕ
blocks r = if is_some r.buffer then 1 else 0

-- Fields that the buffer's calls leave alone, with the allocator's balance.
pub record Kept (r : HttpResponse) (m : Memory) (r' : HttpResponse) (m' : Memory) : Type 0 where
  pub server_name : r'.server_name ≡ r.server_name
  pub is_last : r'.is_last ≡ r.is_last
  pub grants : Granted m'
  pub balance : m'.live + blocks r ≡ m.live + blocks r'

resized-exact : (xs : List ℕ) (n k : ℕ) → n ≡ length xs → take n (xs ++ replicate k 0) ≡ xs
resized-exact xs n k e = rw e (take-length_append xs (replicate k 0))

pub positive : (n : ℕ) → 0 < n → (n == 0) ≡ false
positive n h = ground arith

-- Where memory is granted, appending to a valid response returns the number of the bytes, which are
-- then at the end of its content; the response stays valid, and one block is taken if it had none.
pub append_data-content :
    (bytes : List ℕ) (r : HttpResponse) (m : Memory)
    → IsValid r
    → Granted m
    → 0 < length bytes
    → (r' : HttpResponse) × (m' : Memory) × (http_response_append_data bytes r m
        ≡ done (some (length bytes), r', m'))
      × (content r' ≡ content r ++ bytes)
      × IsValid r'
      × Kept r m r' m'
unfolding http_response_append_data
append_data-content bytes r m v g h =
    let (got, g', live) = resize-Granted (is_some r.buffer) m g in
    (
      record r {
        buffer = some (content r ++ bytes);
        buffer_length = r.buffer_length + length bytes;
      },
      (memory_resize (is_some r.buffer) m).1,
      rw (
        positive (length bytes) h,
        got,
        resized-exact (content r) r.buffer_length r.buffer_length v.counted,
      ),
      refl,
      record {
        counted = omega (arith, v.counted, length-append (content r) bytes);
        held = λ _. omega arith;
      },
      record { server_name = refl; is_last = refl; grants = g'; balance = live },
    )

available_all : (have n : ℕ) → have ≤ n → (if ltb have n then have else n) ≡ have
available_all have n h = ground arith

available_some : (have n : ℕ) → n < have → (if ltb have n then have else n) ≡ n
available_some have n h = ground arith

-- What a read of `n` bytes leaves behind.
abbrev ReadsOff : ℕ → HttpResponse → Memory → Type 0
ReadsOff n r m =
    (r' : HttpResponse) × (m' : Memory) × (http_response_read_data n r m
      ≡ done (some (take n (content r)), r', m'))
    × (content r' ≡ drop n (content r))
    × IsValid r'
    × Kept r m r' m'

release-balance :
    (b : Option (List ℕ)) (m : Memory)
    → (if is_some b then 1 else 0) ≤ m.live
    → (release b m).live + (if is_some b then 1 else 0) ≡ m.live + 0
unfolding memory_destroy
release-balance none m h = refl
release-balance (some b) m h = omega arith

release-Granted : (b : Option (List ℕ)) (m : Memory) → Granted m → Granted (release b m)
unfolding memory_destroy
release-Granted none m g = g
release-Granted (some b) m g = g

module _ (n : ℕ) (r : HttpResponse) (m : Memory) (v : IsValid r) (g : Granted m) (h : 0 < n) where
  read_all : r.buffer_length ≤ n → blocks r ≤ m.live → ReadsOff n r m
  unfolding http_response_read_data
  read_all le l = (
    record r { buffer = none; buffer_length = 0 },
    release r.buffer m,
    rw (
      positive n h,
      available_all r.buffer_length n le,
      room,
      take-all r.buffer_length (content r) (omega (arith, v.counted)),
      take-all n (content r) (omega (arith, v.counted)),
      sub_self,
    ),
    sym (drop-all n (content r) (omega (arith, v.counted))),
    record { counted = refl; held = λ e. cc },
    record {
      server_name = refl;
      is_last = refl;
      grants = release-Granted r.buffer m g;
      balance = release-balance r.buffer m l;
    },
  )
    where
      room : leb (0 + r.buffer_length) (length (content r)) ≡ true
      room = le→leb (0 + r.buffer_length) (length (content r)) (omega (arith, v.counted))

  read_some : n < r.buffer_length → ReadsOff n r m
  unfolding http_response_read_data
  read_some lt =
      let (got, g', live) = resize-Granted (is_some r.buffer) m g in
      (
        record r { buffer = some (drop n (content r)); buffer_length = r.buffer_length - n },
        (memory_resize (is_some r.buffer) m).1,
        rw (
          positive n h,
          available_some r.buffer_length n lt,
          room,
          more,
          got,
          resized-exact (drop n (content r)) (r.buffer_length - n) (r.buffer_length - n) left,
        ),
        refl,
        record { counted = left; held = λ _. omega arith },
        record { server_name = refl; is_last = refl; grants = g'; balance = live },
      )
    where
      room : leb (0 + n) (length (content r)) ≡ true
      room = le→leb (0 + n) (length (content r)) (omega (arith, v.counted))

      more : (r.buffer_length - n == 0) ≡ false
      more = positive (r.buffer_length - n) (omega arith)

      left : r.buffer_length - n ≡ length (drop n (content r))
      left = omega (arith, length-drop n (content r), v.counted)

-- Where memory is granted, reading from a valid response returns the bytes at the front of its content, as many as asked for
-- or as there are, and removes exactly these; a block that is empty then is given back.
pub read_data-content :
    (n : ℕ) (r : HttpResponse) (m : Memory)
    → IsValid r
    → Granted m
    → 0 < n
    → blocks r ≤ m.live
    → (r' : HttpResponse) × (m' : Memory) × (http_response_read_data n r m
        ≡ done (some (take n (content r)), r', m'))
      × (content r' ≡ drop n (content r))
      × IsValid r'
      × Kept r m r' m'
read_data-content n r m v g h l = elim (dec_le r.buffer_length n) [
  | yes p ↦ read_all n r m v g h p l
  | no q ↦ read_some n r m v g h (omega arith)
]
