-- ===== src/HttpConnection/Finishing.antt =====
-- What closing a connection hands to its finish callback.
use rapp.Prelude.{Bool, ◌∙◌, ap, ℕ, ◌≡◌, refl, Option, some, ℤ, pos, negsuc, Memory}
use rapp.Prelude.Run.{done}
use rapp.Eloop.{ELoop, Slots, EpollOperation}
use rapp.TcpConnection.{remove_watches}
use rapp.TcpConnection.Unwatching.{close-open}
use rapp.HttpConnection.{TcpConnection, HttpConnection, close_and_finish, finished}

module _ {P K : Type 0} (epoll_ctl : EpollOperation → ℕ → Option (Slots Bool) → K → ℤ × K)
    (finish : ℕ → ℕ → Option ℕ → ELoop → Memory → ELoop × Memory) (self callback : ℕ)
    (c : HttpConnection P) (el : ELoop) (k : K) (m : Memory) where
  finished-called :
      c.finish_callback ≡ some callback
      → finished epoll_ctl finish self (c, el, k, m)
        ≡ done (
          c,
          (finish callback self c.user_data el m).0,
          k,
          (finish callback self c.user_data el m).1,
        )
  unfolding finished
  finished-called f = simp f refl

module _ {P K : Type 0} (epoll_ctl : EpollOperation → ℕ → Option (Slots Bool) → K → ℤ × K)
    (finish : ℕ → ℕ → Option ℕ → ELoop → Memory → ELoop × Memory) (self fd callback : ℕ)
    (c : HttpConnection P) (el : ELoop) (k : K) (m : Memory) where
  pub close_and_finish-open :
      c.tcp_connection.fd ≡ pos fd
      → c.finish_callback ≡ some callback
      → (let (el', k', m') = remove_watches epoll_ctl fd el k m in
          let (el'', m'') = finish callback self c.user_data el' m' in
          close_and_finish epoll_ctl finish self (c, el, k, m)
          ≡ done (
            record c { tcp_connection = record (c.tcp_connection) { fd = negsuc 0 } },
            el'',
            k',
            m'',
          ))
  unfolding close_and_finish
  close_and_finish-open o f =
      let (el', k', m') = remove_watches epoll_ctl fd el k m in
      ap
        (λ (x : TcpConnection × ELoop × K × Memory).
          finished epoll_ctl finish self (record c { tcp_connection = x.0 }, x.1, x.2, x.3))
        (close-open epoll_ctl fd el k m c.tcp_connection o)
      ∙ finished-called epoll_ctl finish self callback
          (record c { tcp_connection = record (c.tcp_connection) { fd = negsuc 0 } }) el' k' m' f
