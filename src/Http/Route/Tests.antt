-- ===== src/Http/Route/Tests.antt =====
-- The router with two routes of the same name, and the echo of one parameter.
use orca_db.Base.{ℕ, ◌≡◌, refl, true, none, some, List, [], ◌∷◌, ◌++◌, Bytes, length, done, arith}
use orca_db.Http.Request.{Span, Request}
use orca_db.Http.Route.{Route, is_for, route_req, handle_echo, echo_param}
use orca_db.Http.Route.Echo.{echo_members, handle_echo-members}
use orca_db.Http.Route.First.{register, route_req-first}

-- "GET /a?k=v"
abbrev buf : Bytes
buf = 71 ∷ 69 ∷ 84 ∷ 32 ∷ 47 ∷ 97 ∷ 63 ∷ 107 ∷ 61 ∷ 118 ∷ []

abbrev span : ℕ → ℕ → Span
span start len = record { start = start; len = len }

abbrev req : Request
req = record {
  method = span 0 3;
  path = span 4 2;
  params = record { key = span 7 1; val = some (span 9 1) } ∷ [];
  content_length = 0;
  body = none;
}

abbrev route : Bytes → ℕ → Route ℕ
route path handler = record { method = 71 ∷ 69 ∷ 84 ∷ []; path = path; handler = handler }

abbrev other : Route ℕ
other = route (47 ∷ 98 ∷ []) 1

abbrev later : List (Route ℕ)
later = route (47 ∷ 97 ∷ []) 3 ∷ []

abbrev routes : List (Route ℕ)
routes = other ∷ route (47 ∷ 97 ∷ []) 2 ∷ later

first_wins : route_req buf routes req ≡ some 2
unfolding route_req
first_wins = refl

route_req-first_example :
    ((r : Route ℕ) (rest : List (Route ℕ))
      → ◌≡◌ {A = List (Route ℕ)} (route (47 ∷ 97 ∷ []) 2 ∷ later) (r ∷ rest)
      → is_for buf req r ≡ true
      → route_req buf (register [] routes) req ≡ some r.handler)
    × (◌≡◌ {A = List (Route ℕ)} (route (47 ∷ 97 ∷ []) 2 ∷ later) []
        → route_req buf (register [] routes) req ≡ none)
unfolding is_for
route_req-first_example =
    route_req-first buf req routes (other ∷ []) (route (47 ∷ 97 ∷ []) 2 ∷ later) refl (refl, tt)

handle_echo-members_example :
    handle_echo buf req
    ≡ done (record {
      status = 200;
      text = 123 ∷ (echo_members buf req.params ++ (125 ∷ []));
      body_len = length (123 ∷ (echo_members buf req.params ++ (125 ∷ [])));
    })
unfolding echo_param
handle_echo-members_example = handle_echo-members buf req (omega arith)
