-- ===== src/HttpRouter/Serving.antt =====
-- Which container serves a request.
use rapp.Prelude.{ℤ}
use rapp.HttpRouter.Binding.{ltb_ℤ-pos}
use rapp.Prelude.{
  ℕ, ◌≡◌, refl, Option, none, some, List, [], ◌∷◌, ◌++◌, if◌then◌else◌, Text, length, drop, pos,
  is_zero, All, Memory,
}
use rapp.Prelude.Run.{Run, done, ◌>>=◌}
use rapp.HttpRequest.{HttpRequest, range}
use rapp.HttpResponse.{HttpResponse}
use rapp.Container.{Container, container_serve}
use rapp.HttpRouter.{
  HttpRouter, RouteBinding, strmatch, current_match, serve_bound, http_router_serve,
}
use rapp.HttpRouter.Binding.{all_bindings}
use rapp.HttpRouter.Scanning.{
  NonZero, match_from-starts_with, candidates, chosen, Answers, scan_packs-chosen,
}

-- A binding that holds its whole route.
abbrev pub Whole : RouteBinding → Type 0
Whole b = (route : Text) × (b.route ≡ some route) × (b.route_len ≡ pos (length route))

-- The request's buffer holds the URL at the range that the parser found, and it has no NUL.
pub record HasUrl (request : HttpRequest) (url : Text) : Type 0 where
  pub before : List ℕ
  pub rest : List ℕ
  pub buffer : request.headers_buffer ≡ some (before ++ (url ++ rest))
  pub range : request.url_range ≡ range (length before) (length url)
  pub non_zero : All NonZero url

drop-here : (xs ys : List ℕ) → drop (length xs) (xs ++ ys) ≡ ys
drop-here [] ys = refl
drop-here (x ∷ xs) ys = drop-here xs ys

Whole-Answers :
    (request : HttpRequest) (url : Text) (b : RouteBinding)
    → HasUrl request url
    → Whole b
    → Answers (current_match request) url b
unfolding strmatch
Whole-Answers request url b u (route, e, l) =
    let (n, f, q) = match_from-starts_with url u.rest route u.non_zero in
    (
      n,
      rw (u.buffer, u.range, e, drop-here u.before (url ++ u.rest)) f,
      rw (e, l, ltb_ℤ-pos n (length route)) q,
    )

All-Answers :
    (request : HttpRequest) (url : Text) (bs : List RouteBinding)
    → HasUrl request url
    → All Whole bs
    → All (Answers (current_match request) url) bs
All-Answers request url [] u h = tt
All-Answers request url (b ∷ bs) u h =
    (Whole-Answers request url b u h.0, All-Answers request url bs u h.1)

-- The default container answers first, if there is one, and `c` where it returns an error.
abbrev pub served :
    Option Container
    → Container
    → HttpRequest
    → HttpResponse
    → Memory
    → Run (ℤ × HttpResponse × Memory)
served none c request response m = container_serve c request response m
served (some s) c request response m =
    container_serve s request response m >>= λ (ret, response', m').
    if is_zero ret then done (ret, response', m') else container_serve c request response' m'

serve_bound-chosen :
    (r : HttpRouter) (request : HttpRequest) (url : Text) (response : HttpResponse) (m : Memory)
    → HasUrl request url
    → All Whole (all_bindings r.packs)
    → serve_bound r request response m
      ≡ container_serve
          (chosen r.match_mode r.null_container (candidates url (all_bindings r.packs)))
          request
          response
          m
unfolding serve_bound
serve_bound-chosen r request url response m u h =
    rw
      (scan_packs-chosen r.match_mode (current_match request) url r.packs r.null_container
        (All-Answers request url (all_bindings r.packs) u h)).1
      refl

-- The default container, if one is set, serves first, and its success ends the call. Else the
-- request goes, in the first-match mode, to the container of the first bound route that is a
-- prefix of the URL, in the other mode to that of the last such route, and to the null container
-- where no route is. The URL has no NUL and every binding holds its route.
pub http_router_serve-chosen :
    (r : HttpRouter) (request : HttpRequest) (url : Text) (response : HttpResponse) (m : Memory)
    → HasUrl request url
    → All Whole (all_bindings r.packs)
    → http_router_serve r request response m
      ≡ served r.starter
          (chosen r.match_mode r.null_container (candidates url (all_bindings r.packs)))
          request
          response
          m
unfolding http_router_serve
http_router_serve-chosen r request url response m u h = by_starter r.starter refl
  where
    c : Container
    c = chosen r.match_mode r.null_container (candidates url (all_bindings r.packs))

    fallback : serve_bound r request ≡ container_serve c request
    fallback i response m = serve_bound-chosen r request url response m u h i

    by_starter :
        (o : Option Container)
        → r.starter ≡ o
        → http_router_serve r request response m ≡ served o c request response m
    by_starter none e = rw (e, http_router_serve) (λ i. fallback i response m)
    by_starter (some s) e =
        rw (e, http_router_serve)
          (λ i. container_serve s request response m >>= λ (ret, response', m').
            if is_zero ret then done (ret, response', m') else fallback i response' m')
