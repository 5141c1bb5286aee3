-- ===== src/HttpRouter/Binding.antt =====
-- The packs as one sequence of bindings: what a bind adds, and the shape that it keeps.
use rapp.HttpRouter.{no_bindings}
use rapp.Prelude.{append-nil, memory_create}
use rapp.Prelude.{ltb_ℤ, memory_strdup, inl, inr, length-append, get_elem?-append_end}
use rapp.Prelude.{
  Bool-cases, ℕ, suc, ◌≤◌, ◌<◌, ◌≡◌, refl, false, some, List, [], ◌∷◌, ◌++◌, append_assoc, arith,
  ltb, ◌==◌, Text, length, take, set, pos, All, Memory, All-append,
}
use rapp.Prelude.Granted.{create-Grown, Granted}
use rapp.Prelude.Run.{done}
use rapp.Container.{Container}
use rapp.HttpRouter.{
  HttpRouter, RouteBinding, RoutePack, route_group_len, route_max_len, route_base_len,
  http_router_bind, int16, new_binding, route_pack_bind,
}

-- The bindings in the order in which the scan meets them.
abbrev pub all_bindings : List RoutePack → List RouteBinding
all_bindings [] = []
all_bindings (p ∷ ps) = p.bindings ++ all_bindings ps

abbrev IsFull : RoutePack → Type 0
IsFull p = length p.bindings ≡ route_group_len

-- The entry that a route gets where memory is granted.
abbrev pub entry : Text → Container → RouteBinding
entry route container = record {
  route = some route;
  in_name = ltb (length route) route_base_len;
  route_len = pos (length route);
  container = container;
}

-- Every pack but the last is full, and `last` names the last one.
pub record WellFormed (r : HttpRouter) : Type 0 where
  pub front : List RoutePack
  pub back : RoutePack
  pub split : r.packs ≡ front ++ back ∷ []
  pub last : r.last ≡ length front
  pub full : All IsFull front
  pub room : length back.bindings ≤ route_group_len

int16-small : (n : ℕ) → n ≤ route_max_len → int16 n ≡ pos n
int16-small n h = ground arith

lt→not_ltb : (a b : ℕ) → b ≤ a → ltb a b ≡ false
lt→not_ltb a b h = ground arith

pub ltb_ℤ-pos : (a b : ℕ) → ltb_ℤ (pos a) (pos b) ≡ ltb a b
ltb_ℤ-pos a b = ground arith

new_binding-entry :
    (route : Text) (c : Container) (m : Memory)
    → Granted m
    → length route ≤ route_max_len
    → (m' : Memory) × (new_binding route c m ≡ done (entry route c, m')) × Granted m'
unfolding new_binding memory_strdup
new_binding-entry route c m g h = elim (Bool-cases (ltb (length route) route_base_len)) [
  | inl t ↦ (m, rw (int16-small (length route) h, ltb_ℤ-pos (length route) route_base_len, t), g)
  | inr t ↦
      let (got, grown) = create-Grown m g in
      (
        (memory_strdup m).1,
        rw (int16-small (length route) h, ltb_ℤ-pos (length route) route_base_len, t, got),
        grown.grants,
      )
]

all_bindings-append :
    (ps qs : List RoutePack) → all_bindings (ps ++ qs) ≡ all_bindings ps ++ all_bindings qs
all_bindings-append [] qs = refl
all_bindings-append (p ∷ ps) qs = rw (all_bindings-append ps qs, append_assoc)

set-end : (ps : List RoutePack) (p q : RoutePack) → set (ps ++ p ∷ []) (length ps) q ≡ ps ++ q ∷ []
set-end [] p q = refl
set-end (x ∷ ps) p q = rw (set-end ps p q)

take-end :
    (ps : List RoutePack) (p : RoutePack) → take (suc (length ps)) (ps ++ p ∷ []) ≡ ps ++ p ∷ []
take-end [] p = refl
take-end (x ∷ ps) p = rw (take-end ps p)

abbrev extended : RoutePack → RouteBinding → RoutePack
extended p b = record { bindings = p.bindings ++ b ∷ [] }

-- A bind that is not refused.
record Bound (r : HttpRouter) (b : RouteBinding) (packs : List RoutePack) (last : ℕ) : Type 0 where
  shape : WellFormed (record r { packs = packs; last = last })
  added : all_bindings packs ≡ all_bindings r.packs ++ b ∷ []

Bound-in_back :
    (r : HttpRouter) (b : RouteBinding) (w : WellFormed r)
    → length w.back.bindings < route_group_len
    → Bound r b (w.front ++ extended w.back b ∷ []) (length w.front)
Bound-in_back r b w h = record {
  shape = record {
    front = w.front;
    back = extended w.back b;
    split = refl;
    last = refl;
    full = w.full;
    room = omega (arith, length-append w.back.bindings (b ∷ []), h);
  };
  added = rw (w.split) (simp (all_bindings-append, append_assoc, append-nil));
}

Bound-in_new :
    (r : HttpRouter) (b : RouteBinding) (w : WellFormed r)
    → length w.back.bindings ≡ route_group_len
    → Bound r b ((w.front ++ w.back ∷ []) ++ extended no_bindings b ∷ []) (suc (length w.front))
Bound-in_new r b w h = record {
  shape = record {
    front = w.front ++ w.back ∷ [];
    back = extended no_bindings b;
    split = refl;
    last = omega (arith, length-append w.front (w.back ∷ []));
    full = All-append IsFull w.front (w.back ∷ []) w.full (h, tt);
    room = omega arith;
  };
  added = rw (w.split) (simp (all_bindings-append, append_assoc, append-nil));
}

route_pack_bind-Bound :
    (r : HttpRouter) (route : Text) (c : Container) (m : Memory)
    → WellFormed r
    → Granted m
    → length route ≤ route_max_len
    → (packs : List RoutePack) × (last : ℕ) × (m' : Memory) × (route_pack_bind r.packs r.last route
          c m
        ≡ done (packs, last, m'))
      × Granted m'
      × Bound r (entry route c) packs last
unfolding route_pack_bind
route_pack_bind-Bound r route c m w g h =
    elim (Bool-cases (length w.back.bindings == route_group_len)) [
      | inl t ↦
          let (got, grown) = create-Grown m g in
          let (m', e, g') = new_binding-entry route c (memory_create m).1 grown.grants h in
          (
            (w.front ++ w.back ∷ []) ++ extended no_bindings (entry route c) ∷ [],
            suc (length w.front),
            m',
            rw
                (
                  w.split,
                  w.last,
                  route_pack_bind,
                  get_elem?-append_end w.front w.back,
                  t,
                  got,
                  e,
                  w.split,
                  w.last,
                  take-end w.front w.back,
                )
                refl,
            g',
            Bound-in_new r (entry route c) w (ground (arith, t)),
          )
      | inr t ↦
          let (m', e, g') = new_binding-entry route c m g h in
          (
            w.front ++ extended w.back (entry route c) ∷ [],
            length w.front,
            m',
            rw
                (
                  w.split,
                  w.last,
                  route_pack_bind,
                  get_elem?-append_end w.front w.back,
                  t,
                  e,
                  w.split,
                  w.last,
                  set-end w.front w.back,
                )
                refl,
            g',
            Bound-in_back r (entry route c) w (ground (arith, t, w.room)),
          )
    ]

-- A route of at most 1023 bytes is bound where memory is granted: the bindings are the old ones
-- and the new one behind them, every pack but the last stays full, and the rest of the router
-- does not change.
pub http_router_bind-append :
    (r : HttpRouter) (route : Text) (c : Container) (m : Memory)
    → WellFormed r
    → Granted m
    → length route ≤ route_max_len
    → (r' : HttpRouter) × (m' : Memory) × (http_router_bind r route c m ≡ done (pos 0, r', m'))
      × WellFormed r'
      × Granted m'
      × (all_bindings r'.packs ≡ all_bindings r.packs ++ entry route c ∷ [])
      × (record r' { packs = r.packs; last = r.last } ≡ r)
unfolding http_router_bind
http_router_bind-append r route c m w g h =
    let (packs, last, m', e, g', b) = route_pack_bind-Bound r route c m w g h in
    (
      record r { packs = packs; last = last },
      m',
      rw (lt→not_ltb route_max_len (length route) h, e) refl,
      b.shape,
      g',
      b.added,
      refl,
    )
