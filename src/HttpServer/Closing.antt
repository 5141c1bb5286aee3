-- ===== src/HttpServer/Closing.antt =====
-- The end of a connection: the last response is sent, and the connection is closed and scheduled to
-- be freed.
use rapp.Prelude.{
  Bool, ℕ, ◌++◌, ◌≡◌, refl, ◌∙◌, ap, true, false, none, some, List, ◌∷◌, ◌==◌, if◌then◌else◌,
  Option, ℤ, pos, negsuc, Memory,
}
use rapp.Prelude.Granted.{Granted, create-Grown}
use rapp.Prelude.Run.{done, ◌>>=◌}
use rapp.Collector.{is_scheduled, collector_schedule_free}
use rapp.HttpResponse.Buffer.{content}
use rapp.Eloop.{ELoop, ELoopWatchFdCallbackType, Slots, EpollOperation, event_loop_schedule_free}
use rapp.Eloop.Entries.{IsValid, watcher}
use rapp.TcpConnection.{remove_watches}
use rapp.TcpConnection.Unwatching.{
  remove_watches-Unwatched, remove_watches-kept, remove_watches-observed,
}
use rapp.HttpConnection.{HttpConnection, on_write, close_and_finish}
use rapp.HttpConnection.Finishing.{close_and_finish-open}
use rapp.HttpConnection.Writing.{Ready, on_write-empty}
use rapp.HttpConnection.Sending.{Taking, Enough, write_events, write_events-sent}
use rapp.HttpServer.{on_request_finish}

-- An object that is not scheduled yet is, where memory is granted.
schedule_free-new :
    (el : ELoop) (free_func object : ℕ) (m : Memory)
    → Granted m
    → is_scheduled el.collector.collect_entries_list object ≡ false
    → (let (el', m') = event_loop_schedule_free el free_func object m in
        (el'.collector.collect_entries_list
          ≡ record { free_func = free_func; object = object } ∷ el.collector.collect_entries_list)
        × (el'.callbacks_list ≡ el.callbacks_list))
unfolding event_loop_schedule_free collector_schedule_free
schedule_free-new el free_func object m g h = rw (h, (create-Grown m g).0) (refl, refl)

module _ {P K : Type 0} (epoll_ctl : EpollOperation → ℕ → Option (Slots Bool) → K → ℤ × K)
    (destroy self : ℕ) where
  -- What is left when the connection on descriptor `fd` is finished.
  pub record Finished (fd : ℕ) (el : ELoop) (c' : HttpConnection P) (el' : ELoop) : Type 0 where
    pub closed : c'.tcp_connection.fd ≡ negsuc 0
    pub watchers :
        (x : ℕ) (t : ELoopWatchFdCallbackType)
        → watcher el' x t ≡ (if fd == x then (none, none) else watcher el x t)
    pub scheduled :
        el'.collector.collect_entries_list
        ≡ record { free_func = destroy; object = self } ∷ el.collector.collect_entries_list

  close_and_finish-Finished :
      (fd callback : ℕ) (c : HttpConnection P) (el : ELoop) (k : K) (m : Memory)
      → c.tcp_connection.fd ≡ pos fd
      → c.finish_callback ≡ some callback
      → IsValid el
      → Granted m
      → is_scheduled el.collector.collect_entries_list self ≡ false
      → (c' : HttpConnection P) × (el' : ELoop) × (m' : Memory) × (close_and_finish epoll_ctl
            (on_request_finish destroy)
            self
            (c, el, k, m)
          ≡ done (c', el', (remove_watches epoll_ctl fd el k m).1, m'))
        × Finished fd el c' el'
  unfolding on_request_finish watcher
  close_and_finish-Finished fd callback c el k m o f v g h =
      let (el₁, k₁, m₁) = remove_watches epoll_ctl fd el k m in
      let u = remove_watches-Unwatched epoll_ctl fd el k m v in
      let (same, grants) = remove_watches-kept epoll_ctl fd el k m in
      let g₁ : Granted m₁ = λ n. ap (λ f. f n) grants ∙ g n in
      let (el₂, m₂) = event_loop_schedule_free el₁ destroy self m₁ in
      let (entries, callbacks) = schedule_free-new el₁ destroy self m₁ g₁ (rw same h) in
      (
        record c { tcp_connection = record (c.tcp_connection) { fd = negsuc 0 } },
        el₂,
        m₂,
        close_and_finish-open epoll_ctl (on_request_finish destroy) self fd callback c el k m o f,
        record {
          closed = refl;
          watchers = λ x t. rw callbacks (u.watchers x t);
          scheduled = entries ∙ rw same refl;
        },
      )

  -- The last response of an open connection whose finish callback is the server's: where memory is
  -- granted and the socket takes what it gets, as many write events as its length asks for send all
  -- of its content, in order and once, and the next write event closes the connection. Nothing
  -- watches the descriptor any more, every other descriptor is watched as before, and the connection
  -- is scheduled, once, to be destroyed.
  pub write_events-Finished :
      (send : ℤ → List ℕ → K → ℤ × K) (n fd callback : ℕ) (c : HttpConnection P) (el : ELoop)
      (k : K) (m : Memory) (t : Taking epoll_ctl send c.tcp_connection.fd)
      → c.tcp_connection.fd ≡ pos fd
      → c.finish_callback ≡ some callback
      → c.response.is_last ≡ true
      → IsValid el
      → Ready c.response m
      → Enough n (content c.response)
      → is_scheduled el.collector.collect_entries_list self ≡ false
      → (let finish = on_request_finish destroy in
          (c' : HttpConnection P) × (el' : ELoop) × (k' : K) × (m' : Memory) × ((write_events
                epoll_ctl finish self send n
                (c, el, k, m)
              >>= λ s. on_write epoll_ctl finish self send s)
            ≡ done (c', el', k', m'))
          × (t.sent k' ≡ t.sent k ++ content c.response)
          × Finished fd el c' el')
  write_events-Finished send n fd callback c el k m t o f last v ready enough h =
      let finish = on_request_finish destroy in
      let (r₁, k₁, m₁, e₁, s₁, empty, last₁, ready₁) =
        write_events-sent epoll_ctl finish self send n c el k m t ready enough in
      let (r₂, m₂, e₂, _, ready₂) =
        on_write-empty epoll_ctl finish self send (record c { response = r₁ }) el k₁ m₁ ready₁
          empty in
      let c₂ : HttpConnection P = record c { response = r₂ } in
      let (c₃, el₃, m₃, e₃, done₃) =
        close_and_finish-Finished fd callback c₂ el k₁ m₂ o f v ready₂.granted h in
      (
        c₃,
        el₃,
        (remove_watches epoll_ctl fd el k₁ m₂).1,
        m₃,
        rw e₁ (e₂ ∙ rw (last₁ ∙ last) e₃),
        remove_watches-observed epoll_ctl fd el k₁ m₂ t.sent t.polls ∙ s₁,
        done₃,
      )
