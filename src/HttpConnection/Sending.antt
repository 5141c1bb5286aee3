-- ===== src/HttpConnection/Sending.antt =====
-- A response is written by as many write events as its length asks for.
use rapp.Prelude.{
  Bool, ◌-◌, ℕ, zero, suc, ◌+◌, ◌*◌, ◌≤◌, ◌<◌, ◌≡◌, refl, ◌∙◌, ap, List, [], ◌++◌, append-nil,
  append_assoc, arith, length, take, length-drop, take-append-drop, Option, ℤ, Memory,
}
use rapp.Prelude.Run.{Run, done, ◌>>=◌}
use rapp.HttpResponse.{HttpResponse}
use rapp.HttpResponse.Buffer.{content}
use rapp.HttpResponse.Drain.{empty_of_length}
use rapp.Eloop.{ELoop, Slots, EpollOperation}
use rapp.HttpConnection.{HttpConnection, State, bufsize, on_write}
use rapp.HttpConnection.Writing.{Ready, on_write-content}

-- A socket that takes all that `send` gets for the descriptor; `sent` is what it took so far, which
-- `epoll_ctl` does not change.
pub record Taking {K : Type 0} (epoll_ctl : EpollOperation → ℕ → Option (Slots Bool) → K → ℤ × K)
    (send : ℤ → List ℕ → K → ℤ × K) (fd : ℤ) : Type 0 where
  pub sent : K → List ℕ
  pub takes : (payload : List ℕ) (k : K) → sent (send fd payload k).1 ≡ sent k ++ payload
  pub polls :
      (op : EpollOperation) (x : ℕ) (mask : Option (Slots Bool)) (k : K)
      → sent (epoll_ctl op x mask k).1 ≡ sent k

-- `n` write events are as many as the bytes fill buffers, the last one perhaps not whole.
pub record Enough (n : ℕ) (bytes : List ℕ) : Type 0 where
  pub covers : length bytes ≤ n * bufsize
  pub needed : n * bufsize < length bytes + bufsize

module _ {P K : Type 0} (epoll_ctl : EpollOperation → ℕ → Option (Slots Bool) → K → ℤ × K)
    (finish : ℕ → ℕ → Option ℕ → ELoop → Memory → ELoop × Memory) (self : ℕ)
    (send : ℤ → List ℕ → K → ℤ × K) where
  pub write_events : ℕ → State P K → Run (State P K)
  unfolding on_write
  write_events zero s = done s
  write_events (suc n) s = on_write epoll_ctl finish self send s >>= λ s'. write_events n s'

  -- Where memory is granted and the socket takes what it gets, as many write events as the length of
  -- the content asks for send all of it, in order and once, and leave the response empty and the
  -- rest of the connection and the loop as they were.
  pub write_events-sent :
      (n : ℕ) (c : HttpConnection P) (el : ELoop) (k : K) (m : Memory)
      (t : Taking epoll_ctl send c.tcp_connection.fd)
      → Ready c.response m
      → Enough n (content c.response)
      → (r' : HttpResponse) × (k' : K) × (m' : Memory) × (write_events n (c, el, k, m)
          ≡ done (record c { response = r' }, el, k', m'))
        × (t.sent k' ≡ t.sent k ++ content c.response)
        × (content r' ≡ [])
        × (r'.is_last ≡ c.response.is_last)
        × Ready r' m'
  unfolding write_events
  write_events-sent zero c el k m t ready enough =
      let empty = empty_of_length (content c.response) (omega (arith, enough.covers)) in
      (c.response, k, m, refl, rw (empty, append-nil) refl, empty, refl, ready)
  write_events-sent (suc n) c el k m t ready enough =
      let whole = content c.response in
      let (r₁, m₁, e₁, rest, last₁, ready₁) =
        on_write-content epoll_ctl finish self send c el k m ready (omega (arith, enough.needed)) in
      let c₁ : HttpConnection P = record c { response = r₁ } in
      let k₁ = (send c.tcp_connection.fd (take bufsize whole) k).1 in
      let left : length (content r₁) ≡ length whole - bufsize =
        ap length rest ∙ length-drop bufsize whole in
      let fewer : Enough n (content r₁) = record {
        covers = omega (arith, left, enough.covers);
        needed = omega (arith, left, enough.needed);
      } in
      let (r', k', m', e, s, empty, last, ready') =
        write_events-sent n c₁ el k₁ m₁ t ready₁ fewer in
      (
        r',
        k',
        m',
        rw (e₁, e) refl,
        s
            ∙ (ap (λ xs. xs ++ content r₁) (t.takes (take bufsize whole) k)
                ∙ (append_assoc (t.sent k) (take bufsize whole) (content r₁)
                    ∙ ap (λ xs. t.sent k ++ xs)
                        (ap (λ xs. take bufsize whole ++ xs) rest
                          ∙ take-append-drop bufsize whole))),
        empty,
        last ∙ last₁,
        ready',
      )
