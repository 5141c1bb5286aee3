-- ===== src/SignalHandler/Sequences.antt =====
-- Any sequence of requests to the handler, and the signals that arrive afterwards.
use rapp.Prelude.{
  Option-cases, inl, inr, suc, zero, ℕ, ◌<◌, ◌≡◌, refl, Bool, Option, none, some, List, [], ◌∷◌,
  ◌&&◌, All, arith, get_elem?, get_or, length, pos,
}
use mathlib.Core.Path.{fun_ext}
use rapp.Prelude.Run.{Run, done, ◌>>=◌}
use rapp.HttpResponse.{is_some}
use rapp.SignalHandler.{
  SignalHandler, SignalCalls, nsig, signal_handler_add_signal_callback,
  signal_handler_remove_signal_callback, on_signal,
}
use rapp.SignalHandler.Handling.{
  Table, handling, IsValid, Request, add, remove, InRange, wanted, can_hold, Willing, Told, Handles,
  add_signal_callback-Told, remove_signal_callback-Told,
}

get_elem?-get_or {ℓ} :
    {A : Type ℓ} (xs : List A) (i : ℕ) (d : A)
    → i < length xs
    → get_elem? xs i ≡ some (get_or xs i d)
get_elem?-get_or [] i d h = elim h [ ]
get_elem?-get_or (x ∷ xs) zero d h = refl
get_elem?-get_or (x ∷ xs) (suc i) d h = get_elem?-get_or xs i d (omega arith)

-- What the loop's callback does for a signal with this entry.
abbrev pub called : {W : Type 0} → (ℕ → Option ℕ → W → W) → Option ℕ × Option ℕ → W → W
called call (none, datum) w = w
called call (some callback, datum) w = call callback datum w

module _ {K : Type 0} (sys : SignalCalls K) where
  pub request : Request → SignalHandler → K → Run (Bool × SignalHandler × K)
  unfolding signal_handler_add_signal_callback signal_handler_remove_signal_callback
  request (add sig callback datum) h k =
      signal_handler_add_signal_callback sys h sig callback datum k
  request (remove sig) h k = signal_handler_remove_signal_callback sys h sig k

  pub request_all : List Request → SignalHandler → K → Run (SignalHandler × K)
  unfolding request
  request_all [] h k = done (h, k)
  request_all (r ∷ rs) h k = request r h k >>= λ (_, h', k'). request_all rs h' k'

  on_signal-called :
      {W : Type 0} (call : ℕ → Option ℕ → W → W) (h : SignalHandler) (sig fd : ℕ) (s : W) (k : K)
      → IsValid h
      → sig < nsig
      → (sys.read fd k).0 ≡ some sig
      → on_signal sys call h fd s k
        ≡ done (pos 0, called call (handling h sig) s, (sys.read fd k).1)
  unfolding on_signal handling
  on_signal-called call h sig fd s k v r e =
      let c = get_elem?-get_or h.callbacks sig none (rw v.callbacks_whole r) in
      let d = get_elem?-get_or h.datas sig none (rw v.datas_whole r) in
      elim (Option-cases (get_or h.callbacks sig none)) [
        | inl n ↦ rw (e, on_signal, c, n) refl
        | inr (callback, n) ↦ rw (e, on_signal, c, n, d) refl
      ]

  wanted-cons :
      (t : Table) (r : Request) (rs : List Request)
      → wanted t (r ∷ rs) ≡ wanted (wanted t (r ∷ [])) rs
  unfolding wanted
  wanted-cons t (add sig callback datum) rs = refl
  wanted-cons t (remove sig) rs = refl

  module _ (w : Willing sys) where
    request-Told :
        (r : Request) (h : SignalHandler) (k : K)
        → IsValid h
        → InRange r
        → Handles sys w (request r h k) (wanted (handling h) (r ∷ []))
    unfolding request wanted
    request-Told (add sig callback datum) h k v r =
        add_signal_callback-Told sys w h sig k callback datum v r
    request-Told (remove sig) h k v r = remove_signal_callback-Told sys w h sig k v r

    request_all-Told :
        (r : Request) (rs : List Request) (h : SignalHandler) (k : K)
        → IsValid h
        → InRange r
        → All InRange rs
        → (h' : SignalHandler) × (k' : K) × (request_all (r ∷ rs) h k ≡ done (h', k'))
          × Told sys w h' k' (wanted (handling h) (r ∷ rs))
    unfolding request_all
    request_all-Told r [] h k v i is =
        let (h₁, k₁, e₁, told) = request-Told r h k v i in (h₁, k₁, rw e₁ refl, told)
    request_all-Told r (r' ∷ rs) h k v i is =
        let (h₁, k₁, e₁, told₁) = request-Told r h k v i in
        let (h₂, k₂, e₂, told₂) = request_all-Told r' rs h₁ k₁ told₁.valid is.0 is.1 in
        (h₂, k₂, rw e₁ e₂, rw (wanted-cons (handling h) r (r' ∷ rs), ← fun_ext told₁.table) told₂)

    -- After any requests for numbers below 65 to a valid handler, at least one, by a kernel that
    -- accepts the sets of signals, less those that cannot be blocked: the signals held back and
    -- those of the descriptor are exactly the ones that have a callback by the latest request for
    -- them, but for SIGKILL, SIGSTOP and the numbers that are no signal, which are accepted and
    -- never held back; and a signal that arrives calls the callback of the latest request with its
    -- data and nothing else.
    pub request_all-on_signal :
        {W : Type 0} (call : ℕ → Option ℕ → W → W) (r : Request) (rs : List Request)
        (h : SignalHandler) (k : K) (sig fd : ℕ) (s : W)
        → IsValid h
        → InRange r
        → All InRange rs
        → sig < nsig
        → ((k : K) → (sys.read fd k).0 ≡ some sig)
        → (let t = wanted (handling h) (r ∷ rs) in
            (h' : SignalHandler) × (k' : K) × (request_all (r ∷ rs) h k ≡ done (h', k'))
            × ((x : ℕ) → w.blocked k' x ≡ is_some (t x).0 && can_hold x)
            × ((x : ℕ) → w.routed k' x ≡ is_some (t x).0 && can_hold x)
            × (on_signal sys call h' fd s k'
                ≡ done (pos 0, called call (t sig) s, (sys.read fd k').1)))
    request_all-on_signal call r rs h k sig fd s v i is n a =
        let (h', k', e, told) = request_all-Told r rs h k v i is in
        (
          h',
          k',
          e,
          told.blocked,
          told.routed,
          rw (← told.table sig) (on_signal-called call h' sig fd s k' told.valid n (a k')),
        )
