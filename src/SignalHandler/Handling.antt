-- ===== src/SignalHandler/Handling.antt =====
-- Which callback handles which signal, and which signals the kernel is told to hold back.
use rapp.Prelude.{
  ℕ, ◌<◌, ◌≡◌, refl, sym, ◌∙◌, ap, Bool, true, false, Option, none, some, List, [], ◌∷◌, lt→ltb,
  not, ◌&&◌, ◌==◌, ==_iff, if◌then◌else◌, length, length-set, get_or, set, get_or-set_self,
  get_or-set_ne, Bool-cases, inl, inr, ℤ, pos, ltb_ℤ,
}
use rapp.Prelude.Run.{Run, done}
use rapp.HttpResponse.{is_some}
use rapp.SignalHandler.{
  SignalHandler, SignalCalls, SigSet, nsig, is_signal, sigaddset, sigdelset, signal_handler_setup,
  signal_handler_add_signal_callback, signal_handler_remove_signal_callback,
}

-- The callback of a signal and its data.
abbrev pub Table : Type 0
Table = ℕ → Option ℕ × Option ℕ

unfoldable pub handling : SignalHandler → Table
handling h sig = (get_or h.callbacks sig none, get_or h.datas sig none)

-- The kernel never holds back SIGKILL and SIGSTOP: it ignores them in a set.
abbrev pub can_block : ℕ → Bool
can_block sig = not (sig == 9) && not (sig == 19)

-- The signals that the handler can get.
abbrev pub can_hold : ℕ → Bool
can_hold sig = is_signal sig && can_block sig

-- Both arrays are whole, and the mask holds exactly the signals that have a callback.
pub record IsValid (h : SignalHandler) : Type 0 where
  pub callbacks_whole : length h.callbacks ≡ nsig
  pub datas_whole : length h.datas ≡ nsig
  pub masked : (sig : ℕ) → h.sigmask sig ≡ is_some (handling h sig).0 && is_signal sig

-- Whoever calls the handler: what is asked of it.
pub data Request : Type 0 where
  add : ℕ → ℕ → Option ℕ → Request
  remove : ℕ → Request

abbrev pub InRange : Request → Type 0
InRange (add sig callback datum) = sig < nsig
InRange (remove sig) = sig < nsig

-- What the requests mean for a table.
abbrev update : Table → ℕ → Option ℕ × Option ℕ → Table
update t sig entry = λ x. if x == sig then entry else t x

unfoldable pub wanted : Table → List Request → Table
wanted t [] = t
wanted t (add sig callback datum ∷ rs) = wanted (update t sig (some callback, datum)) rs
wanted t (remove sig ∷ rs) = wanted (update t sig (none, none)) rs

-- A kernel that accepts the sets of signals, less those that cannot be blocked: `blocked` is the set
-- of sigprocmask(2), `routed` that of the descriptor.
pub record Willing {K : Type 0} (sys : SignalCalls K) : Type 0 where
  pub blocked : K → SigSet
  pub routed : K → SigSet
  pub masks : (s : SigSet) (k : K) → (sys.sigprocmask s k).0 ≡ pos 0
  pub blocks : (s : SigSet) (k : K) (x : ℕ) → blocked (sys.sigprocmask s k).1 x ≡ s x && can_block x
  pub sets : (fd : ℤ) (s : SigSet) (k : K) → ltb_ℤ (sys.signalfd_set fd s k).0 (pos 0) ≡ false
  pub routes :
      (fd : ℤ) (s : SigSet) (k : K) (x : ℕ)
      → routed (sys.signalfd_set fd s k).1 x ≡ s x && can_block x
  pub keeps : (fd : ℤ) (s : SigSet) (k : K) → blocked (sys.signalfd_set fd s k).1 ≡ blocked k

and_assoc : (a b c : Bool) → ((a && b) && c) ≡ (a && (b && c))
and_assoc true b c = refl
and_assoc false b c = refl

get_or-set {ℓ} :
    {A : Type ℓ} (xs : List A) (i j : ℕ) (v d : A)
    → i < length xs
    → get_or (set xs i v) j d ≡ (if j == i then v else get_or xs j d)
get_or-set xs i j v d h = elim (Bool-cases (j == i)) [
  | inl e ↦ rw (e, (==_iff j i).0 e) (get_or-set_self xs i v d h)
  | inr e ↦
      rw e (get_or-set_ne xs i j v d (λ p. let q : (j == i) ≡ true = (==_iff j i).1 (sym p) in cc))
]

pair_if :
    (b : Bool) (a a' c c' : Option ℕ)
    → ◌≡◌ {A = Option ℕ × Option ℕ}
        (if b then a else a', if b then c else c')
        (if b then (a, c) else (a', c'))
pair_if true a a' c c' = refl
pair_if false a a' c c' = refl

is_some-update :
    (t : Table) (s : SigSet) (sig x : ℕ) (entry : Option ℕ × Option ℕ)
    → ((y : ℕ) → s y ≡ is_some (t y).0 && is_signal y)
    → (if x == sig then is_some entry.0 && is_signal x else s x)
      ≡ is_some (update t sig entry x).0 && is_signal x
is_some-update t s sig x entry h = elim (Bool-cases (x == sig)) [
  | inl e ↦ rw e refl
  | inr e ↦ rw e (h x)
]

signal_or : (i b old here : Bool) → here ≡ old && i → (if i then b else here) ≡ b && i
signal_or true true old here h = refl
signal_or true false old here h = refl
signal_or false true true here h = h
signal_or false true false here h = h
signal_or false false true here h = h
signal_or false false false here h = h

-- A number that is no signal is in no valid mask, and a change for it changes nothing.
masked-changed :
    (s : SigSet) (sig x : ℕ) (b old : Bool)
    → s sig ≡ old && is_signal sig
    → (if (x == sig) && is_signal sig then b else s x)
      ≡ (if x == sig then b && is_signal x else s x)
masked-changed s sig x b old h = elim (Bool-cases (x == sig)) [
  | inl e ↦
      let p : sig ≡ x = sym ((==_iff x sig).0 e) in
      rw e (
        ap (λ (i : Bool). if i then b else s x) (ap is_signal p)
        ∙ signal_or (is_signal x) b old (s x) (rw p at h))
  | inr e ↦ rw e refl
]

module _ {K : Type 0} (sys : SignalCalls K) (w : Willing sys) where
  -- The handler has the table, and the kernel was told the signals that have a callback.
  pub record Told (h : SignalHandler) (k : K) (t : Table) : Type 0 where
    pub valid : IsValid h
    pub table : (sig : ℕ) → handling h sig ≡ t sig
    pub blocked : (sig : ℕ) → w.blocked k sig ≡ is_some (t sig).0 && can_hold sig
    pub routed : (sig : ℕ) → w.routed k sig ≡ is_some (t sig).0 && can_hold sig

  setup-Told :
      (h : SignalHandler) (sig : ℕ) (callback datum : Option ℕ) (mask : SigSet) (k : K)
      → IsValid h
      → sig < nsig
      → ((x : ℕ) → mask x ≡ (if x == sig then is_some callback && is_signal x else h.sigmask x))
      → (h' : SignalHandler) × (k' : K) × (signal_handler_setup sys
            (record h { sigmask = mask })
            sig
            callback
            datum
            k
          ≡ (true, h', k'))
        × Told h' k' (update (handling h) sig (callback, datum))
  unfolding signal_handler_setup handling
  setup-Told h sig callback datum mask k v r e =
      let k₁ = (sys.sigprocmask mask k).1 in
      let k₂ = (sys.signalfd_set h.fd mask k₁).1 in
      let entry : Option ℕ × Option ℕ = (callback, datum) in
      let told : ((x : ℕ) → mask x ≡ is_some (update (handling h) sig entry x).0 && is_signal x) =
        λ x. e x ∙ is_some-update (handling h) h.sigmask sig x entry v.masked in
      let held : ((x : ℕ)
          → mask x && can_block x ≡ is_some (update (handling h) sig entry x).0 && can_hold x) =
        λ x.
          rw (told x)
            (and_assoc (is_some (update (handling h) sig entry x).0) (is_signal x) (can_block x)) in
      let table : ((x : ℕ)
          → (get_or (set h.callbacks sig callback) x none, get_or (set h.datas sig datum) x none)
            ≡ update (handling h) sig entry x) =
        λ x.
          rw
            (
              get_or-set h.callbacks sig x callback none (rw v.callbacks_whole r),
              get_or-set h.datas sig x datum none (rw v.datas_whole r),
            )
            (pair_if (x == sig) callback (get_or h.callbacks x none) datum
              (get_or h.datas x none)) in
      (
        record h {
          sigmask = mask;
          callbacks = set h.callbacks sig callback;
          datas = set h.datas sig datum;
        },
        k₂,
        rw (w.masks mask k, w.sets h.fd mask k₁) refl,
        record {
          valid = record {
            callbacks_whole = length-set h.callbacks sig callback ∙ v.callbacks_whole;
            datas_whole = length-set h.datas sig datum ∙ v.datas_whole;
            masked = λ x.
                told x
                ∙ ap (λ (p : Option ℕ × Option ℕ). is_some p.0 && is_signal x) (sym (table x));
          };
          table = table;
          blocked =
              λ x. ap (λ (s : SigSet). s x) (w.keeps h.fd mask k₁) ∙ (w.blocks mask k x ∙ held x);
          routed = λ x. w.routes h.fd mask k₁ x ∙ held x;
        },
      )

  abbrev pub Handles : Run (Bool × SignalHandler × K) → Table → Type 0
  Handles out t = (h' : SignalHandler) × (k' : K) × (out ≡ done (true, h', k')) × Told h' k' t

  module _ (h : SignalHandler) (sig : ℕ) (k : K) where
    pub add_signal_callback-Told :
        (callback : ℕ) (datum : Option ℕ)
        → IsValid h
        → sig < nsig
        → Handles
            (signal_handler_add_signal_callback sys h sig callback datum k)
            (update (handling h) sig (some callback, datum))
    unfolding signal_handler_add_signal_callback sigaddset
    add_signal_callback-Told callback datum v r =
        let (h', k', e, told) =
          setup-Told h sig (some callback) datum (sigaddset h.sigmask sig) k v r (λ x.
            masked-changed h.sigmask sig x true (is_some (handling h sig).0) (v.masked sig)) in
        (h', k', rw (lt→ltb sig nsig r, e) refl, told)

    pub remove_signal_callback-Told :
        IsValid h
        → sig < nsig
        → Handles
            (signal_handler_remove_signal_callback sys h sig k)
            (update (handling h) sig (none, none))
    unfolding signal_handler_remove_signal_callback sigdelset
    remove_signal_callback-Told v r =
        let (h', k', e, told) =
          setup-Told h sig none none (sigdelset h.sigmask sig) k v r (λ x.
            masked-changed h.sigmask sig x false (is_some (handling h sig).0) (v.masked sig)) in
        (h', k', rw (lt→ltb sig nsig r, e) refl, told)
