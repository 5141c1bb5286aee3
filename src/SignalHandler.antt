-- ===== src/SignalHandler.antt =====
-- src/signalhandler.c: signals that arrive through a descriptor and are handed to callbacks. A set of
-- signals is its characteristic function; the system calls are the record `SignalCalls`, and
-- callbacks and data are addresses.
pub mod Handling
pub mod Sequences
use rapp.Prelude.{
  ℕ, Bool, true, false, not, Option, none, some, List, ltb, ◌==◌, ◌&&◌, if◌then◌else◌, get_elem?,
  set, replicate, ℤ, pos, negsuc, ltb_ℤ, is_zero, Memory, memory_create, memory_destroy,
}
use rapp.Prelude.Run.{Run, done, fault}
use rapp.Eloop.{
  ELoop, Slots, EpollOperation, eloop_callback_read, event_loop_add_fd_watch,
  event_loop_remove_fd_watch,
}

-- _NSIG.
abbrev pub nsig : ℕ
nsig = 65

abbrev pub SigSet : Type 0
SigSet = ℕ → Bool

unfoldable sigemptyset : SigSet
sigemptyset sig = false

-- Whether a number is a signal for the C library: 0 is none, and 32 and 33 it keeps to itself.
abbrev pub is_signal : ℕ → Bool
is_signal sig = not (sig == 0) && (not (sig == 32) && (not (sig == 33) && ltb sig nsig))

-- For a number that is no signal both fail and leave the set as it is.
unfoldable pub sigaddset : SigSet → ℕ → SigSet
sigaddset s sig = λ x. if (x == sig) && is_signal sig then true else s x

unfoldable pub sigdelset : SigSet → ℕ → SigSet
sigdelset s sig = λ x. if (x == sig) && is_signal sig then false else s x

pub record SignalHandler : Type 0 where
  pub fd : ℤ
  pub sigmask : SigSet
  pub callbacks : List (Option ℕ)
  pub datas : List (Option ℕ)

-- `signalfd(-1, ...)` and that of a descriptor; `read` gives the number of the signal, or nothing
-- where it fails.
pub record SignalCalls (K : Type 0) : Type 0 where
  pub signalfd_new : SigSet → K → ℤ × K
  pub signalfd_set : ℤ → SigSet → K → ℤ × K
  pub sigprocmask : SigSet → K → ℤ × K
  pub read : ℕ → K → Option ℕ × K
  pub close : ℤ → K → K
  pub epoll_ctl : EpollOperation → ℕ → Option (Slots Bool) → K → ℤ × K

module _ {K : Type 0} (sys : SignalCalls K) where
  -- The loop's callback: `call` gets the callback of the signal and its data.
  unfoldable pub on_signal :
      {W : Type 0} (call : ℕ → Option ℕ → W → W) → SignalHandler → ℕ → W → K → Run (ℤ × W × K)
  on_signal call h fd w k =
      let (signo, k') = sys.read fd k in
      elim signo [
        | none ↦ done (negsuc 0, w, k')
        | some sig ↦ elim (get_elem? h.callbacks sig) [
          | none ↦ fault
          | some none ↦ done (pos 0, w, k')
          | some (some callback) ↦ elim (get_elem? h.datas sig) [
            | none ↦ fault
            | some datum ↦ done (pos 0, call callback datum w, k')
          ]
        ]
      ]

  -- The handler, the loop, the kernel's state and the allocator: from the check of the descriptor on.
  -- `handler` is the address of `on_signal`, `self` that of the handler.
  abbrev opened : ℕ → ℕ → ℤ → ELoop → K → Memory → Option SignalHandler × ELoop × K × Memory
  opened handler self (negsuc n) el k m = (none, el, k, memory_destroy m)
  opened handler self (pos fd) el k m =
      let (ret, el', k', m') =
        event_loop_add_fd_watch sys.epoll_ctl el fd eloop_callback_read handler (some self) k m in
      if ltb_ℤ ret (pos 0) then (none, el', sys.close (pos fd) k', memory_destroy m') else (
        some (record {
          fd = pos fd;
          sigmask = sigemptyset;
          callbacks = replicate nsig none;
          datas = replicate nsig none;
        }),
        el',
        k',
        m',
      )

  unfoldable signal_handler_new :
      ℕ → ℕ → ELoop → K → Memory → Option SignalHandler × ELoop × K × Memory
  unfolding memory_create memory_destroy event_loop_add_fd_watch sigemptyset
  signal_handler_new handler self el k m =
      let (got, m₁) = memory_create m in
      if not got
      then (none, el, k, m₁)
      else let (fd, k₁) = sys.signalfd_new sigemptyset k in opened handler self fd el k₁ m₁

  -- `fd > 0`.
  abbrev unwatch : ℤ → ELoop → K → Memory → ELoop × K × Memory
  unwatch (negsuc n) el k m = (el, k, m)
  unwatch (pos fd) el k m =
      if ltb 0 fd
      then (let (_, el', k', m') =
            event_loop_remove_fd_watch sys.epoll_ctl el fd eloop_callback_read k m in
          (el', sys.close (pos fd) k', m'))
      else (el, k, m)

  unfoldable signal_handler_destroy : SignalHandler → ELoop → K → Memory → ELoop × K × Memory
  unfolding event_loop_remove_fd_watch memory_destroy
  signal_handler_destroy h el k m =
      let (el', k', m') = unwatch h.fd el k m in (el', k', memory_destroy m')

  -- The first component is false for the return of -1.
  unfoldable pub signal_handler_setup :
      SignalHandler → ℕ → Option ℕ → Option ℕ → K → Bool × SignalHandler × K
  signal_handler_setup h sig callback datum k =
      let (ret, k₁) = sys.sigprocmask h.sigmask k in
      if not (is_zero ret)
      then (false, h, k₁)
      else let (ret', k₂) = sys.signalfd_set h.fd h.sigmask k₁ in
        if ltb_ℤ ret' (pos 0) then (false, h, k₂) else (
          true,
          record h { callbacks = set h.callbacks sig callback; datas = set h.datas sig datum },
          k₂,
        )

  -- A number that is no signal fails the assert.
  unfoldable pub signal_handler_add_signal_callback :
      SignalHandler → ℕ → ℕ → Option ℕ → K → Run (Bool × SignalHandler × K)
  unfolding sigaddset signal_handler_setup
  signal_handler_add_signal_callback h sig callback datum k =
      if ltb sig nsig
      then done (
          signal_handler_setup (record h { sigmask = sigaddset h.sigmask sig }) sig (some callback)
            datum k)
      else fault

  unfoldable pub signal_handler_remove_signal_callback :
      SignalHandler → ℕ → K → Run (Bool × SignalHandler × K)
  unfolding sigdelset signal_handler_setup
  signal_handler_remove_signal_callback h sig k =
      if ltb sig nsig
      then done
          (signal_handler_setup (record h { sigmask = sigdelset h.sigmask sig }) sig none none k)
      else fault
