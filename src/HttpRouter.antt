-- ===== src/HttpRouter.antt =====
-- src/httprouter.c: the routes and the container that serves a request. The packs stand in the
-- order of their links, the first is the router's own; a pack is the list of the bindings that it
-- counts, so `binding_num` is its length, and `last` is the place of the pack that is bound to.
pub mod Binding
pub mod Scanning
pub mod Serving
pub mod Routing
use rapp.Prelude.{
  ℕ, zero, suc, ◌-◌, ◌%◌, ◌^◌, Bool, true, false, not, Option, none, some, List, [], ◌∷◌, ◌++◌, ltb,
  ◌==◌, if◌then◌else◌, Text, codes, length, get_elem?, take, drop, set, ℤ, pos, negsuc, is_zero,
  ltb_ℤ, Memory, memory_create, memory_strdup, memory_destroy,
}
use rapp.Prelude.Run.{Run, done, fault, ◌>>=◌}
use rapp.HttpRequest.{HttpRequest}
use rapp.HttpResponse.{HttpResponse}
use rapp.Container.{Container, Process, container_serve, container_new_null, container_destroy}

-- ROUTE_BASE_LEN, ROUTE_GROUP_LEN and ROUTE_MAX_LEN.
abbrev pub route_base_len : ℕ
route_base_len = 14

abbrev pub route_group_len : ℕ
route_group_len = 30

abbrev pub route_max_len : ℕ
route_max_len = 1023

pub data RouteMatchMode : Type 0 where
  route_match_first route_match_longest : RouteMatchMode

-- `route` is null where `memory_strdup` failed; `in_name` tells that it points to `name`.
pub record RouteBinding : Type 0 where
  pub route : Option Text
  pub in_name : Bool
  pub route_len : ℤ
  pub container : Container

pub record RoutePack : Type 0 where
  pub bindings : List RouteBinding

pub record HttpRouter : Type 0 where
  pub packs : List RoutePack
  pub last : ℕ
  pub null_container : Container
  pub starter : Option Container
  pub match_mode : RouteMatchMode

-- The conversion of a `size_t` to `int16_t`.
abbrev pub int16 : ℕ → ℤ
int16 n = let low = n % 2 ^ 16 in if ltb low (2 ^ 15) then pos low else negsuc (2 ^ 16 - 1 - low)

abbrev pub no_bindings : RoutePack
no_bindings = record { bindings = [] }

-- Where the router itself gets no memory, the report reads the null router.
unfoldable http_router_new : ℕ → RouteMatchMode → Memory → Run (Option HttpRouter × Memory)
unfolding container_new_null memory_create
http_router_new logger match_mode m =
    let (null, m₁) = container_new_null logger (codes "default") m in
    elim null [
      | none ↦ done (none, m₁)
      | some c ↦
          let (got, m₂) = memory_create m₁ in
          if got
          then done (
            some (record {
              packs = no_bindings ∷ [];
              last = 0;
              null_container = c;
              starter = none;
              match_mode = match_mode;
            }),
            m₂,
          )
          else fault
    ]

unfoldable route_pack_clean : List RouteBinding → Memory → Memory
unfolding memory_destroy
route_pack_clean [] m = m
route_pack_clean (b ∷ bs) m = route_pack_clean bs (if b.in_name then m else memory_destroy m)

unfoldable route_pack_destroy : List RoutePack → Memory → Memory
unfolding route_pack_clean memory_destroy
route_pack_destroy [] m = m
route_pack_destroy (p ∷ ps) m =
    route_pack_destroy ps (memory_destroy (route_pack_clean p.bindings m))

-- The first pack is part of the router's own block.
abbrev clean_packs : List RoutePack → Memory → Memory
clean_packs [] m = m
clean_packs (p ∷ ps) m = route_pack_destroy ps (route_pack_clean p.bindings m)

unfoldable http_router_destroy : HttpRouter → Process → Run Process
unfolding container_destroy route_pack_clean route_pack_destroy memory_destroy
http_router_destroy r p = container_destroy r.null_container p >>= λ p'.
    done (record p' { memory = memory_destroy (clean_packs r.packs p'.memory) })

abbrev bound : RoutePack → RouteBinding → RoutePack
bound pack b = record { bindings = pack.bindings ++ b ∷ [] }

-- The new entry of a pack that has room. `strcpy` past the array `name` is a fault.
unfoldable pub new_binding : Text → Container → Memory → Run (RouteBinding × Memory)
unfolding memory_strdup
new_binding route container m =
    let route_len = int16 (length route) in
    if ltb_ℤ route_len (pos route_base_len)
    then (if ltb (length route) route_base_len
        then done (
          record {
            route = some route;
            in_name = true;
            route_len = route_len;
            container = container;
          },
          m,
        )
        else fault)
    else let (got, m') = memory_strdup m in
      done (
        record {
          route = if got then some route else none;
          in_name = false;
          route_len = route_len;
          container = container;
        },
        m',
      )

-- A full pack gets a successor, which is empty, so the call on it binds there. Without memory that
-- call's assert fails.
unfoldable pub route_pack_bind :
    List RoutePack → ℕ → Text → Container → Memory → Run (List RoutePack × ℕ × Memory)
unfolding new_binding memory_create
route_pack_bind packs last route container m = elim (get_elem? packs last) [
  | none ↦ fault
  | some pack ↦
      if length pack.bindings == route_group_len
      then (let (got, m₁) = memory_create m in
          if got
          then (new_binding route container m₁ >>= λ (b, m₂).
              done (take (suc last) packs ++ bound no_bindings b ∷ [], suc last, m₂))
          else fault)
      else (new_binding route container m >>= λ (b, m₁).
          done (set packs last (bound pack b), last, m₁))
]

unfoldable http_router_set_default_container : HttpRouter → Container → HttpRouter
http_router_set_default_container r container = record r { starter = some container }

-- The first component is the return value.
unfoldable pub http_router_bind :
    HttpRouter → Text → Container → Memory → Run (ℤ × HttpRouter × Memory)
unfolding route_pack_bind
http_router_bind r route container m =
    if ltb route_max_len (length route)
    then done (negsuc 0, r, m)
    else (route_pack_bind r.packs r.last route container m >>= λ (packs, last, m').
        done (pos 0, record r { packs = packs; last = last }, m'))

-- The loop of `strmatch` on bytes that are there: it reads past neither block.
unfoldable pub match_from : List ℕ → List ℕ → ℕ → Run ℕ
match_from s1 s2 zero = done 0
match_from [] s2 (suc n) = fault
match_from (a ∷ s1) [] (suc n) = fault
match_from (a ∷ s1) (b ∷ s2) (suc n) =
    let rest = match_from s1 s2 n in
    if a == b then (rest >>= λ matched. done (suc matched)) else done 0

unfoldable pub strmatch : Option (List ℕ) → Option (List ℕ) → ℕ → Run ℕ
unfolding match_from
strmatch none s2 n = done 0
strmatch (some s1) none n = done 0
strmatch (some s1) (some s2) n = match_from s1 s2 n

-- `raw_req + offset`.
abbrev advance : Option (List ℕ) → ℕ → Run (Option (List ℕ))
advance none offset = if offset == 0 then done none else fault
advance (some s) offset = done (some (drop offset s))

-- A stored route ends in a NUL.
abbrev terminated : Option Text → Option (List ℕ)
terminated none = none
terminated (some t) = some (t ++ 0 ∷ [])

abbrev stops : RouteMatchMode → Bool
stops route_match_first = true
stops route_match_longest = false

-- The loop over a pack: the candidate and `found`.
unfoldable pub scan_pack :
    RouteMatchMode
    → (Option Text → Run ℕ)
    → List RouteBinding
    → Container × Bool
    → Run (Container × Bool)
scan_pack mode current [] s = done s
scan_pack mode current (b ∷ bs) (c, true) = done (c, true)
scan_pack mode current (b ∷ bs) (c, false) = current b.route >>= λ n.
    scan_pack mode current bs
      (if ltb_ℤ (pos n) b.route_len then (c, false) else (b.container, stops mode))

-- The loop over the packs.
unfoldable pub scan_packs :
    RouteMatchMode
    → (Option Text → Run ℕ)
    → List RoutePack
    → Container × Bool
    → Run (Container × Bool)
unfolding scan_pack
scan_packs mode current [] s = done s
scan_packs mode current (p ∷ ps) (c, true) = done (c, true)
scan_packs mode current (p ∷ ps) (c, false) =
    scan_pack mode current p.bindings (c, false) >>= λ s. scan_packs mode current ps s

-- What `strmatch` finds common to the URL of the request and a route.
abbrev pub current_match : HttpRequest → Option Text → Run ℕ
current_match request route = advance request.headers_buffer request.url_range.offset >>= λ s1.
    strmatch s1 (terminated route) request.url_range.length

unfoldable pub serve_bound :
    HttpRouter → HttpRequest → HttpResponse → Memory → Run (ℤ × HttpResponse × Memory)
unfolding scan_packs strmatch container_serve
serve_bound r request response m =
    scan_packs r.match_mode (current_match request) r.packs (r.null_container, false) >>= λ (c, _).
    container_serve c request response m

unfoldable pub http_router_serve :
    HttpRouter → HttpRequest → HttpResponse → Memory → Run (ℤ × HttpResponse × Memory)
unfolding container_serve serve_bound
http_router_serve r request response m = elim r.starter [
  | none ↦ serve_bound r request response m
  | some s ↦ container_serve s request response m >>= λ (ret, response', m').
      if is_zero ret then done (ret, response', m') else serve_bound r request response' m'
]
