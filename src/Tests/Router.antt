-- ===== src/Tests/Router.antt =====
-- Routing at concrete routes: src/httprouter.c.
use rapp.Prelude.{
  ℕ, ◌≡◌, refl, true, false, none, some, List, [], ◌∷◌, arith, codes, pos, All, generous,
}
use rapp.Prelude.Run.{done}
use rapp.HttpRequest.{HttpRequest, blank_request, range}
use rapp.HttpResponse.{HttpResponse}
use rapp.Container.{Container, null_init, null_destroy, null_serve}
use rapp.HttpRouter.{HttpRouter, route_match_first, route_match_longest, http_router_serve}
use rapp.HttpRouter.Binding.{all_bindings, entry}
use rapp.HttpRouter.Scanning.{chosen, candidates}
use rapp.HttpRouter.Serving.{Whole, HasUrl, served, http_router_serve-chosen}
use rapp.HttpRouter.Routing.{Route, fresh}

-- A container that answers with its number.
abbrev answering : ℕ → Container
answering n = record {
  plugin = true;
  handle = some n;
  name = codes "answering";
  serve = λ h request response m. done (pos n, response, m);
  destroy = null_destroy;
  init = null_init;
}

abbrev null : Container
null = record {
  plugin = false;
  handle = some 1;
  name = codes "default";
  serve = null_serve;
  destroy = null_destroy;
  init = null_init;
}

abbrev routes : List Route
routes =
    (codes "/img", answering 1)
    ∷ (codes "/a/long/path", answering 2)
    ∷ (codes "/", answering 3)
    ∷ []

abbrev request : HttpRequest
request = record blank_request {
  headers_buffer = some (codes "GET /img/logo HTTP/1.1");
  url_range = range 4 9;
}

abbrev response : HttpResponse
response = record { buffer = none; buffer_length = 0; server_name = codes "rapp"; is_last = false }

request-HasUrl : HasUrl request (codes "/img/logo")
request-HasUrl = record {
  before = codes "GET ";
  rest = codes " HTTP/1.1";
  buffer = refl;
  range = refl;
  non_zero = omega arith;
}

-- The longest match is not what the other mode takes: "/" is bound last and wins over "/img".
abbrev longest : HttpRouter
longest = record (fresh null route_match_longest) {
  packs =
      record {
        bindings = entry (codes "/img") (answering 1) ∷ entry (codes "/") (answering 3) ∷ [];
      }
      ∷ [];
  starter = some null;
}

longest-Whole : All Whole (all_bindings longest.packs)
longest-Whole = ((codes "/img", refl, refl), ((codes "/", refl, refl), tt))

http_router_serve-chosen_example :
    http_router_serve longest request response generous
    ≡ served
        (some null)
        (chosen route_match_longest null
          (candidates (codes "/img/logo") (all_bindings longest.packs)))
        request
        response
        generous
http_router_serve-chosen_example =
    http_router_serve-chosen longest request (codes "/img/logo") response generous request-HasUrl
      longest-Whole

longest_serves_last :
    http_router_serve longest request response generous ≡ done (pos 3, response, generous)
unfolding http_router_serve
longest_serves_last = refl

first_serves_first :
    http_router_serve
      (record longest { match_mode = route_match_first; starter = none })
      request
      response
      generous
    ≡ done (pos 1, response, generous)
unfolding http_router_serve
first_serves_first = refl
