-- ===== src/Eloop/Shape.antt =====
-- The entries stay consistent, one for each descriptor.
use rapp.Prelude.{
  ℕ, ◌≡◌, refl, sym, ◌∙◌, Bool, true, false, none, some, Option, List, [], ◌∷◌, arith, ◌==◌, All,
  Bool-cases, inl, inr, ==_iff,
}
use rapp.HttpResponse.{is_some}
use rapp.Eloop.{
  ELoopCallback, ELoopWatchFdCallbackType, eloop_callback_read, eloop_callback_write,
  eloop_callback_close, Slots, get, put, find_callback_by_fd, change_callback, unlink_callback,
  watching, ignoring, any_event, blank_callback,
}
use rapp.Eloop.Entries.{Consistent, Absent, Distinct, get-put, same_type}

-- What holds of a blank entry too.
pub record Flagged (ec : ELoopCallback) : Type 0 where
  pub flagged : (t : ELoopWatchFdCallbackType) → get ec.events t ≡ is_some (get ec.callbacks t)
  pub cleared : (t : ELoopWatchFdCallbackType) → get ec.events t ≡ false → get ec.datas t ≡ none

pub blank-Flagged : (address : ℕ) → Flagged (blank_callback address)
blank-Flagged address = record { flagged = flags; cleared = nothing }
  where
    flags :
        (t : ELoopWatchFdCallbackType)
        → get (blank_callback address).events t ≡ is_some (get (blank_callback address).callbacks t)
    flags eloop_callback_read = refl
    flags eloop_callback_write = refl
    flags eloop_callback_close = refl

    nothing :
        (t : ELoopWatchFdCallbackType)
        → get (blank_callback address).events t ≡ false
        → get (blank_callback address).datas t ≡ none
    nothing eloop_callback_read h = refl
    nothing eloop_callback_write h = refl
    nothing eloop_callback_close h = refl

any_event-put : (s : Slots Bool) (t : ELoopWatchFdCallbackType) → any_event (put s t true) ≡ true
any_event-put s eloop_callback_read = refl
any_event-put s eloop_callback_write = ground arith
any_event-put s eloop_callback_close = ground arith

pub watching-Consistent :
    (ec : ELoopCallback) (fd : ℕ) (t : ELoopWatchFdCallbackType) (callback : ℕ) (datum : Option ℕ)
    → Flagged ec
    → Consistent (watching ec fd t callback datum)
watching-Consistent ec fd t callback datum f = record {
  flagged = λ u. elim (Bool-cases (same_type t u)) [
    | inl q ↦ rw (get-put ec.events t u true, get-put ec.callbacks t u (some callback), q) refl
    | inr q ↦
        rw (get-put ec.events t u true, get-put ec.callbacks t u (some callback), q) (f.flagged u)
  ];
  cleared = λ u h. elim (Bool-cases (same_type t u)) [
    | inl q ↦ let h' = rw (get-put ec.events t u true, q) at h in cc
    | inr q ↦
        rw (get-put ec.datas t u datum, q) (f.cleared u (rw (get-put ec.events t u true, q) at h))
  ];
  some_event = any_event-put ec.events t;
}

pub ignoring-Consistent :
    (ec : ELoopCallback) (t : ELoopWatchFdCallbackType)
    → Consistent ec
    → any_event (ignoring ec t).events ≡ true
    → Consistent (ignoring ec t)
ignoring-Consistent ec t f a = record {
  flagged = λ u. elim (Bool-cases (same_type t u)) [
    | inl q ↦ rw (get-put ec.events t u false, get-put ec.callbacks t u none, q) refl
    | inr q ↦ rw (get-put ec.events t u false, get-put ec.callbacks t u none, q) (f.flagged u)
  ];
  cleared = λ u h. elim (Bool-cases (same_type t u)) [
    | inl q ↦ rw (get-put ec.datas t u none, q) refl
    | inr q ↦
        rw (get-put ec.datas t u none, q) (f.cleared u (rw (get-put ec.events t u false, q) at h))
  ];
  some_event = a;
}

pub change-Consistent :
    (ecs : List ELoopCallback) (fd : ℕ) (new : ELoopCallback)
    → All Consistent ecs
    → Consistent new
    → All Consistent (change_callback ecs fd new)
unfolding change_callback
change-Consistent [] fd new h n = tt
change-Consistent (x ∷ ecs) fd new h n = elim (Bool-cases (x.fd == fd)) [
  | inl t ↦ rw t (n, h.1)
  | inr t ↦ rw t (h.0, change-Consistent ecs fd new h.1 n)
]

pub unlink-Consistent :
    (ecs : List ELoopCallback) (fd : ℕ)
    → All Consistent ecs
    → All Consistent (unlink_callback ecs fd)
unfolding unlink_callback
unlink-Consistent [] fd h = tt
unlink-Consistent (x ∷ ecs) fd h = elim (Bool-cases (x.fd == fd)) [
  | inl t ↦ rw t h.1
  | inr t ↦ rw t (h.0, unlink-Consistent ecs fd h.1)
]

change-Absent :
    (ecs : List ELoopCallback) (fd x : ℕ) (new : ELoopCallback)
    → new.fd ≡ fd
    → Absent x ecs
    → Absent x (change_callback ecs fd new)
unfolding change_callback Absent
change-Absent [] fd x new n h = tt
change-Absent (y ∷ ecs) fd x new n h = elim (Bool-cases (y.fd == fd)) [
  | inl t ↦
      let p : new.fd ≡ y.fd = n ∙ sym ((==_iff y.fd fd).0 t) in
      let q : (new.fd == x) ≡ false = rw p h.0 in rw t (q, h.1)
  | inr t ↦ rw t (h.0, change-Absent ecs fd x new n h.1)
]

pub change-Distinct :
    (ecs : List ELoopCallback) (fd : ℕ) (new : ELoopCallback)
    → new.fd ≡ fd
    → Distinct ecs
    → Distinct (change_callback ecs fd new)
unfolding change_callback Distinct
change-Distinct [] fd new n h = tt
change-Distinct (y ∷ ecs) fd new n h = elim (Bool-cases (y.fd == fd)) [
  | inl t ↦
      let p : new.fd ≡ y.fd = n ∙ sym ((==_iff y.fd fd).0 t) in
      let q : Absent new.fd ecs = rw p h.0 in rw t (q, h.1)
  | inr t ↦ rw t (change-Absent ecs fd y.fd new n h.0, change-Distinct ecs fd new n h.1)
]

unlink-Absent :
    (ecs : List ELoopCallback) (fd x : ℕ) → Absent x ecs → Absent x (unlink_callback ecs fd)
unfolding unlink_callback Absent
unlink-Absent [] fd x h = tt
unlink-Absent (y ∷ ecs) fd x h = elim (Bool-cases (y.fd == fd)) [
  | inl t ↦ rw t h.1
  | inr t ↦ rw t (h.0, unlink-Absent ecs fd x h.1)
]

pub unlink-Distinct :
    (ecs : List ELoopCallback) (fd : ℕ) → Distinct ecs → Distinct (unlink_callback ecs fd)
unfolding unlink_callback Distinct
unlink-Distinct [] fd h = tt
unlink-Distinct (y ∷ ecs) fd h = elim (Bool-cases (y.fd == fd)) [
  | inl t ↦ rw t h.1
  | inr t ↦ rw t (unlink-Absent ecs fd y.fd h.0, unlink-Distinct ecs fd h.1)
]

-- Where no entry is found the descriptor is in none.
pub none-Absent :
    (ecs : List ELoopCallback) (fd : ℕ) → find_callback_by_fd ecs fd ≡ none → Absent fd ecs
unfolding find_callback_by_fd Absent
none-Absent [] fd e = tt
none-Absent (x ∷ ecs) fd e = elim (Bool-cases (x.fd == fd)) [
  | inl t ↦ let e' = rw t at e in cc
  | inr t ↦ (t, none-Absent ecs fd (rw t at e))
]
