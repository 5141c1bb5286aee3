-- ===== src/HttpConnection/Writing.antt =====
-- `on_write`: how a response reaches the socket.
use rapp.Prelude.{
  ℕ, ◌≤◌, ◌<◌, ◌≡◌, refl, ◌∙◌, Bool, true, Option, List, [], arith, ltb, lt→ltb, if◌then◌else◌,
  length, take, drop, length-take, ℤ, Memory,
}
use rapp.Prelude.Granted.{Granted}
use rapp.Prelude.Run.{done}
use rapp.HttpResponse.{HttpResponse, http_response_is_last}
use rapp.HttpResponse.Buffer.{content, IsValid, blocks, Kept, read_data-content}
use rapp.Eloop.{ELoop, Slots, EpollOperation}
use rapp.TcpConnection.{tcp_connection_write_data}
use rapp.HttpConnection.{HttpConnection, bufsize, on_write, close_and_finish}

-- A response that can be read from, with the allocator.
pub record Ready (r : HttpResponse) (m : Memory) : Type 0 where
  pub valid : IsValid r
  pub granted : Granted m
  pub counted : blocks r ≤ m.live

Kept-Ready :
    (r r' : HttpResponse) (m m' : Memory) → Ready r m → IsValid r' → Kept r m r' m' → Ready r' m'
Kept-Ready r r' m m' ready v kept = record {
  valid = v;
  granted = kept.grants;
  counted = omega (arith, kept.balance, ready.counted);
}

module _ {P K : Type 0} (epoll_ctl : EpollOperation → ℕ → Option (Slots Bool) → K → ℤ × K)
    (finish : ℕ → ℕ → Option ℕ → ELoop → Memory → ELoop × Memory) (self : ℕ)
    (send : ℤ → List ℕ → K → ℤ × K) (c : HttpConnection P) (el : ELoop) (k : K) (m : Memory) where
  -- Where memory is granted and bytes are left, a write event hands the first of them to `send`, as
  -- many as the local buffer holds, and whatever `send` answers, also where it takes fewer or none,
  -- exactly these are gone from the response afterwards, and nothing else of the connection changes.
  pub on_write-content :
      Ready c.response m
      → 0 < length (content c.response)
      → (r' : HttpResponse) × (m' : Memory) × (on_write epoll_ctl finish self send (c, el, k, m)
          ≡ done (
            record c { response = r' },
            el,
            (send c.tcp_connection.fd (take bufsize (content c.response)) k).1,
            m',
          ))
        × (content r' ≡ drop bufsize (content c.response))
        × (r'.is_last ≡ c.response.is_last)
        × Ready r' m'
  unfolding on_write tcp_connection_write_data
  on_write-content ready h =
      let (r', m', e, rest, v, kept) =
        read_data-content bufsize c.response m ready.valid ready.granted (omega arith)
          ready.counted in
      let some_bytes : ltb 0 (length (take bufsize (content c.response))) ≡ true =
        lt→ltb 0 _ (omega (arith, length-take bufsize (content c.response))) in
      (
        r',
        m',
        rw (e, some_bytes) refl,
        rest,
        kept.is_last,
        Kept-Ready c.response r' m m' ready v kept,
      )

  -- A write event where nothing is left.
  pub on_write-empty :
      Ready c.response m
      → content c.response ≡ []
      → (r' : HttpResponse) × (m' : Memory) × (on_write epoll_ctl finish self send (c, el, k, m) ≡ (
          if c.response.is_last
          then close_and_finish epoll_ctl finish self (record c { response = r' }, el, k, m')
          else done (record c { response = r' }, el, k, m')))
        × (content r' ≡ [])
        × Ready r' m'
  unfolding on_write http_response_is_last
  on_write-empty ready h =
      let (r', m', e, rest, v, kept) =
        read_data-content bufsize c.response m ready.valid ready.granted (omega arith)
          ready.counted in
      (
        r',
        m',
        rw (e, h, kept.is_last) refl,
        rest ∙ rw h refl,
        Kept-Ready c.response r' m m' ready v kept,
      )
