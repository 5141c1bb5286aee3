-- ===== src/Tests/Signals.antt =====
-- Signals and log messages: src/signalhandler.c and src/logger.c.
use rapp.Prelude.{
  ℕ, zero, suc, ◌≡◌, refl, true, false, Option, none, some, List, [], ◌∷◌, ◌&&◌, ◌++◌, arith, codes,
  leb, if◌then◌else◌, replicate, get_or, Text, ℤ, pos, Memory, generous,
}
use rapp.Prelude.Run.{done}
use rapp.HttpResponse.{is_some}
use rapp.SignalHandler.{SignalHandler, SignalCalls, SigSet, nsig, on_signal}
use rapp.SignalHandler.Handling.{
  handling, IsValid, Request, add, remove, wanted, Willing, can_block, can_hold,
}
use rapp.SignalHandler.Sequences.{called, request_all, request_all-on_signal}
use rapp.Logger.{Logger, clamp, log_error, log_mark, logger_new_fp, logger_trace_va}
use rapp.Logger.Tracing.{message, new_fp-trace_va}

record Masks : Type 0 where
  pub blocked : SigSet
  pub routed : SigSet

abbrev blockable : SigSet → SigSet
blockable s = λ x. s x && can_block x

-- A kernel that takes every set less SIGKILL and SIGSTOP, and where signal 15 is pending.
abbrev willing_calls : SignalCalls Masks
willing_calls = record {
  signalfd_new = λ s k. (pos 3, record k { routed = s });
  signalfd_set = λ fd s k. (pos 3, record k { routed = blockable s });
  sigprocmask = λ s k. (pos 0, record k { blocked = blockable s });
  read = λ fd k. (some 15, k);
  close = λ fd k. k;
  epoll_ctl = λ op fd mask k. (pos 0, k);
}

abbrev willing : Willing willing_calls
willing = record {
  blocked = λ k. k.blocked;
  routed = λ k. k.routed;
  masks = λ s k. refl;
  blocks = λ s k x. refl;
  sets = λ fd s k. refl;
  routes = λ fd s k x. refl;
  keeps = λ fd s k. refl;
}

abbrev nothing_blocked : Masks
nothing_blocked = record { blocked = λ sig. false; routed = λ sig. false }

abbrev fresh : SignalHandler
fresh = record {
  fd = pos 3;
  sigmask = λ sig. false;
  callbacks = replicate nsig none;
  datas = replicate nsig none;
}

get_or-replicate : (n i : ℕ) → ◌≡◌ {A = Option ℕ} (get_or (replicate n none) i none) none
get_or-replicate zero i = refl
get_or-replicate (suc n) zero = refl
get_or-replicate (suc n) (suc i) = get_or-replicate n i

fresh-IsValid : IsValid fresh
unfolding handling
fresh-IsValid = record {
  callbacks_whole = refl;
  datas_whole = refl;
  masked = λ sig. rw (get_or-replicate nsig sig) refl;
}

abbrev noting : ℕ → Option ℕ → List (ℕ × Option ℕ) → List (ℕ × Option ℕ)
noting callback datum log = (callback, datum) ∷ log

abbrev asked_first : Request
asked_first = add 2 50 (some 51)

abbrev asked_then : List Request
asked_then = add 15 60 none ∷ (add 9 70 none ∷ (add 0 80 none ∷ (remove 2 ∷ [])))

request_all-on_signal_example :
    (let t = wanted (handling fresh) (asked_first ∷ asked_then) in
      (h' : SignalHandler) × (k' : Masks) × (request_all willing_calls
          (asked_first ∷ asked_then)
          fresh
          nothing_blocked
        ≡ done (h', k'))
      × ((x : ℕ) → k'.blocked x ≡ is_some (t x).0 && can_hold x)
      × ((x : ℕ) → k'.routed x ≡ is_some (t x).0 && can_hold x)
      × (on_signal willing_calls noting h' 3 [] k' ≡ done (pos 0, called noting (t 15) [], k')))
request_all-on_signal_example =
    request_all-on_signal willing_calls willing noting asked_first asked_then fresh nothing_blocked
      15 3 [] fresh-IsValid (omega arith)
      (omega arith, (omega arith, (omega arith, (omega arith, tt)))) (omega arith) (λ k. refl)

wanted-15 : wanted (handling fresh) (asked_first ∷ asked_then) 15 ≡ (some 60, none)
unfolding wanted
wanted-15 = refl

abbrev printing : Option ℕ → Text → Text → Text
printing sink fmt out = out ++ fmt

abbrev unused : ℕ → Option ℕ → ℕ → Text → Text → Text → ℤ × Text
unused custom priv level tag fmt out = (pos 0, out)

new_fp-trace_va_example :
    (let shown = clamp 2 log_error log_mark in
      (logger : Logger) × (m₁ : Memory) × (m₂ : Memory) × (logger_new_fp 3 2 true generous
        ≡ (some logger, m₁))
      × (logger_trace_va printing unused none logger 2 (codes "core") (codes "ready") [] m₁
          ≡ done (
            pos 0,
            (if leb shown (clamp 3 log_error log_mark)
                then printing
                    (some 2)
                    (message (if true then shown else log_mark) (codes "core") (codes "ready"))
                    []
                else []),
            m₂,
          ))
      × (m₂.live ≡ 1))
new_fp-trace_va_example =
    new_fp-trace_va printing unused none 3 2 2 true (codes "core") (codes "ready") [] generous
      (λ n. refl)
