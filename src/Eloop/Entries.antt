-- ===== src/Eloop/Entries.antt =====
-- The entries of the list: what a search, a change and an unlinking do to them.
use rapp.Prelude.{
  ℕ, ◌≡◌, refl, Bool, true, false, Option, none, some, List, [], ◌∷◌, ◌==◌, if◌then◌else◌, All,
  Bool-cases, inl, inr, ==_iff,
}
use rapp.HttpResponse.{is_some}
use rapp.Eloop.{
  ELoop, ELoopCallback, ELoopWatchFdCallbackType, eloop_callback_read, eloop_callback_write,
  eloop_callback_close, Slots, get, put, find_callback_by_fd, change_callback, unlink_callback,
  any_event,
}

-- The flags of an entry are those of its callbacks, a missing callback has no data, and there is
-- some callback.
pub record Consistent (ec : ELoopCallback) : Type 0 where
  pub flagged : (t : ELoopWatchFdCallbackType) → get ec.events t ≡ is_some (get ec.callbacks t)
  pub cleared : (t : ELoopWatchFdCallbackType) → get ec.events t ≡ false → get ec.datas t ≡ none
  pub some_event : any_event ec.events ≡ true

unfoldable pub Absent : ℕ → List ELoopCallback → Type 0
Absent fd [] = Unit
Absent fd (ec ∷ ecs) = ((ec.fd == fd) ≡ false) × Absent fd ecs

-- No two entries have a descriptor in common.
unfoldable pub Distinct : List ELoopCallback → Type 0
unfolding Absent
Distinct [] = Unit
Distinct (ec ∷ ecs) = Absent ec.fd ecs × Distinct ecs

pub record IsValid (el : ELoop) : Type 0 where
  pub consistent : All Consistent el.callbacks_list
  pub distinct : Distinct el.callbacks_list

-- The callback and its data that watch this event of this descriptor.
abbrev pub slots_of : Option ELoopCallback → ELoopWatchFdCallbackType → Option ℕ × Option ℕ
slots_of none t = (none, none)
slots_of (some ec) t = (get ec.callbacks t, get ec.datas t)

unfoldable pub watcher : ELoop → ℕ → ELoopWatchFdCallbackType → Option ℕ × Option ℕ
unfolding find_callback_by_fd
watcher el fd t = slots_of (find_callback_by_fd el.callbacks_list fd) t

abbrev pub same_type : ELoopWatchFdCallbackType → ELoopWatchFdCallbackType → Bool
same_type eloop_callback_read eloop_callback_read = true
same_type eloop_callback_write eloop_callback_write = true
same_type eloop_callback_close eloop_callback_close = true
same_type _ _ = false

pub get-put {ℓ} :
    {A : Type ℓ} (s : Slots A) (t u : ELoopWatchFdCallbackType) (a : A)
    → get (put s t a) u ≡ (if same_type t u then a else get s u)
get-put s eloop_callback_read eloop_callback_read a = refl
get-put s eloop_callback_read eloop_callback_write a = refl
get-put s eloop_callback_read eloop_callback_close a = refl
get-put s eloop_callback_write eloop_callback_read a = refl
get-put s eloop_callback_write eloop_callback_write a = refl
get-put s eloop_callback_write eloop_callback_close a = refl
get-put s eloop_callback_close eloop_callback_read a = refl
get-put s eloop_callback_close eloop_callback_write a = refl
get-put s eloop_callback_close eloop_callback_close a = refl

pub found-fd :
    (ecs : List ELoopCallback) (fd : ℕ) (ec : ELoopCallback)
    → find_callback_by_fd ecs fd ≡ some ec
    → ec.fd ≡ fd
unfolding find_callback_by_fd
found-fd [] fd ec e = cc
found-fd (x ∷ ecs) fd ec e = elim (Bool-cases (x.fd == fd)) [
  | inl t ↦
      let q : some x ≡ some ec = rw t at e in let p : x ≡ ec = cc in rw (← p) ((==_iff x.fd fd).0 t)
  | inr t ↦ found-fd ecs fd ec (rw t at e)
]

pub find-change_self :
    (ecs : List ELoopCallback) (fd : ℕ) (ec new : ELoopCallback)
    → find_callback_by_fd ecs fd ≡ some ec
    → new.fd ≡ fd
    → find_callback_by_fd (change_callback ecs fd new) fd ≡ some new
unfolding find_callback_by_fd change_callback
find-change_self [] fd ec new e n = cc
find-change_self (x ∷ ecs) fd ec new e n = elim (Bool-cases (x.fd == fd)) [
  | inl t ↦ rw (t, (==_iff new.fd fd).1 n) refl
  | inr t ↦ let e' = rw t at e in rw (t, t) (find-change_self ecs fd ec new e' n)
]

pub find-change_ne :
    (ecs : List ELoopCallback) (fd x : ℕ) (new : ELoopCallback)
    → new.fd ≡ fd
    → (fd == x) ≡ false
    → find_callback_by_fd (change_callback ecs fd new) x ≡ find_callback_by_fd ecs x
unfolding find_callback_by_fd change_callback
find-change_ne [] fd x new n h = refl
find-change_ne (y ∷ ecs) fd x new n h = elim (Bool-cases (y.fd == fd)) [
  | inl t ↦
      let p : (new.fd == x) ≡ false = rw n h in
      let q : (y.fd == x) ≡ false = rw ((==_iff y.fd fd).0 t) h in rw (t, p, q) refl
  | inr t ↦ rw (t, find-change_ne ecs fd x new n h) refl
]

find-Absent :
    (ecs : List ELoopCallback) (fd : ℕ) → Absent fd ecs → find_callback_by_fd ecs fd ≡ none
unfolding find_callback_by_fd Absent
find-Absent [] fd h = refl
find-Absent (x ∷ ecs) fd h = rw h.0 (find-Absent ecs fd h.1)

pub find-unlink_self :
    (ecs : List ELoopCallback) (fd : ℕ)
    → Distinct ecs
    → find_callback_by_fd (unlink_callback ecs fd) fd ≡ none
unfolding find_callback_by_fd unlink_callback Distinct
find-unlink_self [] fd h = refl
find-unlink_self (x ∷ ecs) fd h = elim (Bool-cases (x.fd == fd)) [
  | inl t ↦ rw t (find-Absent ecs fd (rw ((==_iff x.fd fd).0 t) at h.0))
  | inr t ↦ rw (t, t) (find-unlink_self ecs fd h.1)
]

pub find-unlink_ne :
    (ecs : List ELoopCallback) (fd x : ℕ)
    → (fd == x) ≡ false
    → find_callback_by_fd (unlink_callback ecs fd) x ≡ find_callback_by_fd ecs x
unfolding find_callback_by_fd unlink_callback
find-unlink_ne [] fd x h = refl
find-unlink_ne (y ∷ ecs) fd x h = elim (Bool-cases (y.fd == fd)) [
  | inl t ↦ let q : (y.fd == x) ≡ false = rw ((==_iff y.fd fd).0 t) h in rw (t, q) refl
  | inr t ↦ rw (t, find-unlink_ne ecs fd x h) refl
]

pub found-Consistent :
    (ecs : List ELoopCallback) (fd : ℕ) (ec : ELoopCallback)
    → All Consistent ecs
    → find_callback_by_fd ecs fd ≡ some ec
    → Consistent ec
unfolding find_callback_by_fd
found-Consistent [] fd ec h e = cc
found-Consistent (x ∷ ecs) fd ec h e = elim (Bool-cases (x.fd == fd)) [
  | inl t ↦
      let q : some x ≡ some ec = rw t at e in
      let p : x ≡ ec = cc in coe 0 1 (i. Consistent (p i)) h.0
  | inr t ↦ found-Consistent ecs fd ec h.1 (rw t at e)
]
