-- ===== src/HttpRouter/Routing.antt =====
-- Routes bound one after the other, and the container that they lead a request to.
use rapp.Prelude.{if◌then◌else◌}
use rapp.Prelude.{◌≤◌, ◌≡◌, none, List, [], ◌∷◌, Text, length, starts_with, Memory}
use rapp.Prelude.Granted.{Granted}
use rapp.Prelude.Run.{Run, done, ◌>>=◌}
use rapp.HttpRequest.{HttpRequest}
use rapp.HttpResponse.{HttpResponse}
use rapp.Container.{Container}
use rapp.HttpRouter.{
  HttpRouter, RouteBinding, RouteMatchMode, no_bindings, route_max_len, http_router_bind,
}
use rapp.HttpRouter.Binding.{entry}

abbrev pub Route : Type 0
Route = Text × Container

-- A call of `http_router_bind` for each route.
unfoldable pub bind_all : HttpRouter → List Route → Memory → Run (HttpRouter × Memory)
unfolding http_router_bind
bind_all r [] m = done (r, m)
bind_all r ((route, c) ∷ routes) m =
    http_router_bind r route c m >>= λ (_, r', m'). bind_all r' routes m'

-- The containers of the routes that are a prefix of the URL.
unfoldable pub leading : Text → List Route → List Container
unfolding starts_with
leading url [] = []
leading url ((route, c) ∷ routes) =
    let rest = leading url routes in if starts_with route url then c ∷ rest else rest

abbrev IsShort : Route → Type 0
IsShort (route, c) = length route ≤ route_max_len

abbrev entries : List Route → List RouteBinding
entries [] = []
entries ((route, c) ∷ routes) = entry route c ∷ entries routes

-- All of the router but the packs.
record SameRouter (r r' : HttpRouter) : Type 0 where
  null_container : r'.null_container ≡ r.null_container
  starter : r'.starter ≡ r.starter
  match_mode : r'.match_mode ≡ r.match_mode

abbrev pub fresh : Container → RouteMatchMode → HttpRouter
fresh null mode = record {
  packs = no_bindings ∷ [];
  last = 0;
  null_container = null;
  starter = none;
  match_mode = mode;
}
