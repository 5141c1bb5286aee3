-- ===== src/HttpRouter/Scanning.antt =====
-- `strmatch` as a test for a prefix, and the scan of the packs.
use rapp.Prelude.{
  ℕ, suc, ◌<◌, ◌≡◌, refl, Bool, true, false, not, Option, none, some, List, [], ◌∷◌, ◌++◌, arith,
  ltb, ◌==◌, if◌then◌else◌, Text, length, starts_with, pos, ltb_ℤ, All, Bool-cases, inl, inr,
}
use rapp.Prelude.Run.{Run, done}
use rapp.Container.{Container}
use rapp.HttpRouter.{
  RouteBinding, RouteMatchMode, route_match_first, route_match_longest, RoutePack, match_from,
  scan_pack, scan_packs,
}
use rapp.HttpRouter.Binding.{all_bindings}

abbrev pub NonZero : ℕ → Type 0
NonZero c = 0 < c

-- `strmatch` of a URL without a NUL reads inside both strings, and its result is at least the
-- length of the route exactly where the route is a prefix of the URL.
pub match_from-starts_with :
    (url rest route : List ℕ)
    → All NonZero url
    → (n : ℕ) × (match_from (url ++ rest) (route ++ 0 ∷ []) (length url) ≡ done n)
      × (ltb n (length route) ≡ not (starts_with route url))
unfolding match_from starts_with
match_from-starts_with [] rest [] h = (0, refl, refl)
match_from-starts_with [] rest (p ∷ route) h = (0, refl, ground arith)
match_from-starts_with (c ∷ url) rest [] h =
    let e : (c == 0) ≡ false = ground (arith, h.0) in (0, rw e refl, refl)
match_from-starts_with (c ∷ url) rest (p ∷ route) h = elim (Bool-cases (c == p)) [
  | inl t ↦
      let (n, e, q) = match_from-starts_with url rest route h.1 in
      let t' : (p == c) ≡ true = ground (arith, t) in
      let q' : ltb (suc n) (suc (length route)) ≡ ltb n (length route) = ground arith in
      (suc n, rw (t, e) refl, rw (t', q', q) refl)
  | inr t ↦
      let t' : (p == c) ≡ false = ground (arith, t) in
      let q : ltb 0 (suc (length route)) ≡ true = ground arith in (0, rw t refl, rw (t', q) refl)
]

abbrev pub matches : Text → RouteBinding → Bool
matches url b = elim b.route [ none ↦ false | some route ↦ starts_with route url ]

-- The containers of the routes that are a prefix of the URL, in the order of the scan.
unfoldable pub candidates : Text → List RouteBinding → List Container
unfolding starts_with
candidates url [] = []
candidates url (b ∷ bs) =
    let rest = candidates url bs in if matches url b then b.container ∷ rest else rest

abbrev first_of : Container → List Container → Container
first_of c [] = c
first_of c (x ∷ xs) = x

abbrev last_of : Container → List Container → Container
last_of c [] = c
last_of c (x ∷ xs) = last_of x xs

abbrev pub chosen : RouteMatchMode → Container → List Container → Container
chosen route_match_first = first_of
chosen route_match_longest = last_of

abbrev nonempty : List Container → Bool
nonempty [] = false
nonempty (x ∷ xs) = true

abbrev pub Answers : (Option Text → Run ℕ) → Text → RouteBinding → Type 0
Answers current url b =
    (n : ℕ) × (current b.route ≡ done n) × (ltb_ℤ (pos n) b.route_len ≡ not (matches url b))

candidates-append :
    (url : Text) (as_ bs : List RouteBinding)
    → candidates url (as_ ++ bs) ≡ candidates url as_ ++ candidates url bs
unfolding candidates
candidates-append url [] bs = refl
candidates-append url (a ∷ as_) bs = elim (Bool-cases (matches url a)) [
  | inl t ↦ rw (t, candidates-append url as_ bs) refl
  | inr t ↦ rw (t, candidates-append url as_ bs) refl
]

scan_pack-first :
    (current : Option Text → Run ℕ) (url : Text) (bs : List RouteBinding) (c : Container)
    → All (Answers current url) bs
    → scan_pack route_match_first current bs (c, false)
      ≡ done (first_of c (candidates url bs), nonempty (candidates url bs))
unfolding scan_pack candidates
scan_pack-first current url [] c h = refl
scan_pack-first current url (b ∷ bs) c h = elim (Bool-cases (matches url b)) [
  | inl t ↦ rw (h.0.1, h.0.2, t) (stopped current bs b.container)
  | inr t ↦ rw (h.0.1, h.0.2, t) (scan_pack-first current url bs c h.1)
]
  where
    stopped :
        (current : Option Text → Run ℕ) (bs : List RouteBinding) (c : Container)
        → scan_pack route_match_first current bs (c, true) ≡ done (c, true)
    stopped current [] c = refl
    stopped current (b ∷ bs) c = refl

scan_pack-longest :
    (current : Option Text → Run ℕ) (url : Text) (bs : List RouteBinding) (c : Container)
    → All (Answers current url) bs
    → scan_pack route_match_longest current bs (c, false)
      ≡ done (last_of c (candidates url bs), false)
unfolding scan_pack candidates
scan_pack-longest current url [] c h = refl
scan_pack-longest current url (b ∷ bs) c h = elim (Bool-cases (matches url b)) [
  | inl t ↦ rw (h.0.1, h.0.2, t) (scan_pack-longest current url bs b.container h.1)
  | inr t ↦ rw (h.0.1, h.0.2, t) (scan_pack-longest current url bs c h.1)
]

last_of-append :
    (c : Container) (xs ys : List Container) → last_of c (xs ++ ys) ≡ last_of (last_of c xs) ys
last_of-append c [] ys = refl
last_of-append c (x ∷ xs) ys = last_of-append x xs ys

All-append_left :
    (P : RouteBinding → Type 0) (xs ys : List RouteBinding) → All P (xs ++ ys) → All P xs × All P ys
All-append_left P [] ys h = (tt, h)
All-append_left P (x ∷ xs) ys h = let (l, r) = All-append_left P xs ys h.1 in ((h.0, l), r)

-- After a pack whose candidates are `xs`.
packs_after :
    (current : Option Text → Run ℕ) (ps : List RoutePack) (c : Container) (xs ys : List Container)
    → scan_packs route_match_first current ps (c, false) ≡ done (first_of c ys, nonempty ys)
    → scan_packs route_match_first current ps (first_of c xs, nonempty xs)
      ≡ done (first_of c (xs ++ ys), nonempty (xs ++ ys))
unfolding scan_packs
packs_after current ps c [] ys h = h
packs_after current [] c (x ∷ xs) ys h = refl
packs_after current (p ∷ ps) c (x ∷ xs) ys h = refl

scan_packs-first :
    (current : Option Text → Run ℕ) (url : Text) (ps : List RoutePack) (c : Container)
    → All (Answers current url) (all_bindings ps)
    → scan_packs route_match_first current ps (c, false)
      ≡ done (
        first_of c (candidates url (all_bindings ps)),
        nonempty (candidates url (all_bindings ps)),
      )
unfolding scan_packs candidates
scan_packs-first current url [] c h = refl
scan_packs-first current url (p ∷ ps) c h =
    let (here, there) = All-append_left (Answers current url) p.bindings (all_bindings ps) h in
    rw
      (
        scan_pack-first current url p.bindings c here,
        candidates-append url p.bindings (all_bindings ps),
      )
      (packs_after current ps c (candidates url p.bindings) (candidates url (all_bindings ps))
        (scan_packs-first current url ps c there))

scan_packs-longest :
    (current : Option Text → Run ℕ) (url : Text) (ps : List RoutePack) (c : Container)
    → All (Answers current url) (all_bindings ps)
    → scan_packs route_match_longest current ps (c, false)
      ≡ done (last_of c (candidates url (all_bindings ps)), false)
unfolding scan_packs candidates
scan_packs-longest current url [] c h = refl
scan_packs-longest current url (p ∷ ps) c h =
    let (here, there) = All-append_left (Answers current url) p.bindings (all_bindings ps) h in
    rw
      (
        scan_pack-longest current url p.bindings c here,
        candidates-append url p.bindings (all_bindings ps),
        last_of-append c (candidates url p.bindings) (candidates url (all_bindings ps)),
      )
      (scan_packs-longest current url ps (last_of c (candidates url p.bindings)) there)

pub scan_packs-chosen :
    (mode : RouteMatchMode) (current : Option Text → Run ℕ) (url : Text) (ps : List RoutePack)
    (c : Container)
    → All (Answers current url) (all_bindings ps)
    → (found : Bool) × (scan_packs mode current ps (c, false)
        ≡ done (chosen mode c (candidates url (all_bindings ps)), found))
scan_packs-chosen route_match_first current url ps c h = (_, scan_packs-first current url ps c h)
scan_packs-chosen route_match_longest current url ps c h =
    (false, scan_packs-longest current url ps c h)
