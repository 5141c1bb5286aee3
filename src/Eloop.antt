-- ===== src/Eloop.antt =====
-- src/eloop.c: the watches on file descriptors. A mask of EPOLLIN, EPOLLOUT and EPOLLRDHUP is one
-- flag for each callback type; callbacks and their data are addresses. `epoll_ctl` is a parameter:
-- it gets the operation, the descriptor and the mask, and changes the kernel's state.
pub mod Turn
pub mod Dispatch
pub mod Entries
pub mod Watches
pub mod Shape
pub mod Interest
pub mod Validity
pub mod Cancelling
pub mod Lifetime
use rapp.Prelude.{
  ℕ, ◌-◌, Bool, true, false, not, ◌||◌, Option, none, some, List, [], ◌∷◌, ◌==◌, if◌then◌else◌, ℤ,
  negsuc, Memory, memory_create, memory_destroy,
}
use rapp.Collector.{Collector, collector_schedule_free}

pub data ELoopWatchFdCallbackType : Type 0 where
  eloop_callback_read eloop_callback_write eloop_callback_close : ELoopWatchFdCallbackType

-- An array with a place for each callback type.
pub record Slots {ℓ} (A : Type ℓ) : Type ℓ where
  pub read : A
  pub write : A
  pub close : A

abbrev pub get {ℓ} : {A : Type ℓ} → Slots A → ELoopWatchFdCallbackType → A
get s eloop_callback_read = s.read
get s eloop_callback_write = s.write
get s eloop_callback_close = s.close

abbrev pub put {ℓ} : {A : Type ℓ} → Slots A → ELoopWatchFdCallbackType → A → Slots A
put s eloop_callback_read a = record s { read = a }
put s eloop_callback_write a = record s { write = a }
put s eloop_callback_close a = record s { close = a }

abbrev all_of {ℓ} : {A : Type ℓ} → A → Slots A
all_of a = record { read = a; write = a; close = a }

-- `address` is that of the entry's block, which epoll(7) keeps: the number of the request for it.
pub record ELoopCallback : Type 0 where
  pub address : ℕ
  pub fd : ℕ
  pub events : Slots Bool
  pub callbacks : Slots (Option ℕ)
  pub datas : Slots (Option ℕ)

pub record ELoop : Type 0 where
  pub collector : Collector
  pub callbacks_list : List ELoopCallback
  pub running : Bool

unfoldable event_loop_stop : ELoop → ELoop
event_loop_stop el = record el { running = false }

-- The first entry of the list with this descriptor.
unfoldable pub find_callback_by_fd : List ELoopCallback → ℕ → Option ELoopCallback
find_callback_by_fd [] fd = none
find_callback_by_fd (ec ∷ ecs) fd = if ec.fd == fd then some ec else find_callback_by_fd ecs fd

-- The change of that entry in its place.
unfoldable pub change_callback : List ELoopCallback → ℕ → ELoopCallback → List ELoopCallback
change_callback [] fd new = []
change_callback (ec ∷ ecs) fd new =
    if ec.fd == fd then new ∷ ecs else ec ∷ change_callback ecs fd new

-- `pec->next = ec->next`, or the same for the head of the list.
unfoldable pub unlink_callback : List ELoopCallback → ℕ → List ELoopCallback
unlink_callback [] fd = []
unlink_callback (ec ∷ ecs) fd = if ec.fd == fd then ecs else ec ∷ unlink_callback ecs fd

pub data EpollOperation : Type 0 where
  epoll_ctl_add epoll_ctl_mod epoll_ctl_del : EpollOperation

abbrev pub blank_callback : ℕ → ELoopCallback
blank_callback address = record {
  address = address;
  fd = 0;
  events = all_of false;
  callbacks = all_of none;
  datas = all_of none;
}

-- The entry with a callback for one type of event.
abbrev pub watching : ELoopCallback → ℕ → ELoopWatchFdCallbackType → ℕ → Option ℕ → ELoopCallback
watching ec fd type callback datum = record {
  address = ec.address;
  fd = fd;
  events = put ec.events type true;
  callbacks = put ec.callbacks type (some callback);
  datas = put ec.datas type datum;
}

-- The entry without it.
abbrev pub ignoring : ELoopCallback → ELoopWatchFdCallbackType → ELoopCallback
ignoring ec type = record ec {
  events = put ec.events type false;
  callbacks = put ec.callbacks type none;
  datas = put ec.datas type none;
}

abbrev pub any_event : Slots Bool → Bool
any_event s = s.read || (s.write || s.close)

-- What a call returns, the loop, the kernel's state and the allocator.
abbrev Watched {ℓ} : Type ℓ → Type ℓ
Watched K = ℤ × ELoop × K × Memory

module _ {ℓ} {K : Type ℓ} (epoll_ctl : EpollOperation → ℕ → Option (Slots Bool) → K → ℤ × K) where
  unfoldable pub event_loop_add_fd_watch :
      ELoop → ℕ → ELoopWatchFdCallbackType → ℕ → Option ℕ → K → Memory → Watched K
  unfolding find_callback_by_fd change_callback memory_create
  event_loop_add_fd_watch el fd type callback datum k m =
      elim (find_callback_by_fd el.callbacks_list fd) [
        | none ↦
            let (got, m') = memory_create m in
            if not got
            then (negsuc 0, el, k, m')
            else let ec = watching (blank_callback m.calls) fd type callback datum in
              let (ret, k') = epoll_ctl epoll_ctl_add fd (some ec.events) k in
              (ret, record el { callbacks_list = ec ∷ el.callbacks_list }, k', m')
        | some found ↦
            let ec = watching found fd type callback datum in
            let (ret, k') = epoll_ctl epoll_ctl_mod fd (some ec.events) k in
            (ret, record el { callbacks_list = change_callback el.callbacks_list fd ec }, k', m)
      ]

  unfoldable pub event_loop_remove_fd_watch :
      ELoop → ℕ → ELoopWatchFdCallbackType → K → Memory → Watched K
  unfolding find_callback_by_fd change_callback unlink_callback memory_destroy
  event_loop_remove_fd_watch el fd type k m = elim (find_callback_by_fd el.callbacks_list fd) [
    | none ↦ (negsuc 0, el, k, m)
    | some found ↦
        let ec = ignoring found type in
        if any_event ec.events
        then (let (ret, k') = epoll_ctl epoll_ctl_mod fd (some ec.events) k in
            (ret, record el { callbacks_list = change_callback el.callbacks_list fd ec }, k', m))
        else let (ret, k') = epoll_ctl epoll_ctl_del fd none k in
          (
            ret,
            record el { callbacks_list = unlink_callback el.callbacks_list fd },
            k',
            memory_destroy m,
          )
  ]

unfoldable pub event_loop_schedule_free : ELoop → ℕ → ℕ → Memory → ELoop × Memory
unfolding collector_schedule_free
event_loop_schedule_free el free_func object m =
    let (_, c, m') = collector_schedule_free el.collector free_func object m in
    (record el { collector = c }, m')
