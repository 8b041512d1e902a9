-- ===== src/Server/Text.antt =====
-- The text of a request to one of the three handlers, from misc/http/parse.c through
-- misc/http/route.c to the parameters that the handler is given.
use orca_db.Base.{
  ℕ, ◌≤◌, ◌≡◌, ◌≢◌, ◌∙◌, refl, sym, ap, Bool, true, false, ◌&&◌, Option, none, some, List, [], ◌∷◌,
  ◌++◌, Bytes, All, length, drop, bytes_eq, bytes_eq→eq, Bool-cases, inl, inr, ◌==◌, ==_iff,
  if◌then◌else◌, done, arith,
}
use mathlib.Core.Path.{ap₂}
use orca_db.Handler.{req_get_param}
use orca_db.Http.Parse.{parse_http_req, is_space, ends_path, is_newline}
use orca_db.Http.Parse.Lines.{IsHeader, plain_head}
use orca_db.Http.Parse.Printed.{request_line, parse_http_req-printed}
use orca_db.Http.Parse.Query.{IsWord, AllWords, Reads, Spell}
use orca_db.Http.Request.{Span, Param, Request, bytes_of}
use orca_db.Http.Route.{Route, add_route, is_for, route_req}
use orca_db.Server.{
  Api, api_insert, api_get, api_delete, put_method, get_method, delete_method, api_path, add_routes,
  server_routes,
}

-- The value of the first pair with this key.
unfoldable pub first_value : Bytes → List (Bytes × Bytes) → Option Bytes
first_value key [] = none
first_value key ((k, v) ∷ ps) =
    let rest = first_value key ps in if bytes_eq k key then some v else rest

abbrev pub method_of : Api → Bytes
method_of api_insert = put_method
method_of api_get = get_method
method_of api_delete = delete_method

and_false : (b : Bool) → (b && false) ≡ false
and_false true = refl
and_false false = refl

length_eq : (w x : Bytes) → (length w == length x && bytes_eq w x) ≡ bytes_eq w x
length_eq w x = elim (Bool-cases (bytes_eq w x)) [
  | inl e ↦
      rw e (ap (λ b. b && true) ((==_iff (length w) (length x)).1 (ap length (bytes_eq→eq w x e))))
  | inr e ↦ rw e (and_false (length w == length x))
]

Reads-bytes_eq :
    (buf : Bytes) (s : Span) (w x : Bytes)
    → Reads buf s w
    → (s.len == length x && bytes_eq (bytes_of buf s) x) ≡ bytes_eq w x
Reads-bytes_eq buf s w x (len, same) =
    ap₂ (λ n b. n == length x && bytes_eq b x) len same ∙ length_eq w x

req_get_param-Spell :
    (buf key : Bytes) (params : List Param) (ps : List (Bytes × Bytes))
    → Spell buf params ps
    → req_get_param buf key params ≡ first_value key ps
unfolding req_get_param first_value
req_get_param-Spell buf key [] [] spell = refl
req_get_param-Spell buf key [] (p ∷ ps) spell = absurd spell
req_get_param-Spell buf key (q ∷ params) [] spell = absurd spell
req_get_param-Spell buf key (q ∷ params) ((k, v) ∷ ps) (own, value, spell) =
    rw (Reads-bytes_eq buf q.key k key own, value, req_get_param-Spell buf key params ps spell) refl

abbrev route_of : Api → Route Api
route_of api = record { method = method_of api; path = api_path ++ method_of api; handler = api }

is_for-Reads :
    (api : Api) (buf : Bytes) (req : Request) (r : Route Api)
    → Reads buf req.method (method_of api)
    → Reads buf req.path (api_path ++ method_of api)
    → is_for buf req r
      ≡ (bytes_eq (method_of api) r.method && bytes_eq (api_path ++ method_of api) r.path)
unfolding is_for
is_for-Reads api buf req r m p =
    ap₂ ◌&&◌ (Reads-bytes_eq buf req.method (method_of api) r.method m)
      (Reads-bytes_eq buf req.path (api_path ++ method_of api) r.path p)

route-Api :
    (api : Api) (buf : Bytes) (req : Request)
    → Reads buf req.method (method_of api)
    → Reads buf req.path (api_path ++ method_of api)
    → route_req buf server_routes req ≡ some api
unfolding route_req add_routes add_route
route-Api api_insert buf req m p =
    rw (is_for-Reads api_insert buf req (route_of api_insert) m p) refl
route-Api api_get buf req m p =
    rw
      (
        is_for-Reads api_get buf req (route_of api_insert) m p,
        is_for-Reads api_get buf req (route_of api_get) m p,
      )
      refl
route-Api api_delete buf req m p =
    rw
      (
        is_for-Reads api_delete buf req (route_of api_insert) m p,
        is_for-Reads api_delete buf req (route_of api_get) m p,
        is_for-Reads api_delete buf req (route_of api_delete) m p,
      )
      refl

abbrev none_stop : (ℕ → Bool) → Bytes → Bool
none_stop stop [] = true
none_stop stop (c ∷ cs) = if stop c then false else none_stop stop cs

none_stop-All :
    (stop : ℕ → Bool) (w : Bytes) → none_stop stop w ≡ true → All (λ c. stop c ≡ false) w
none_stop-All stop [] h = tt
none_stop-All stop (c ∷ cs) h = elim (Bool-cases (stop c)) [
  | inl e ↦ absurd (false_true (sym (ap (λ b. if b then false else none_stop stop cs) e) ∙ h))
  | inr e ↦
      (e, none_stop-All stop cs (sym (ap (λ b. if b then false else none_stop stop cs) e) ∙ h))
]
  where
    false_true : false ≢ true
    false_true e = ground arith

pub check-IsWord :
    (stop : ℕ → Bool) (w : Bytes)
    → none_stop stop w ≡ true
    → none_stop is_newline w ≡ true
    → IsWord stop w
check-IsWord stop w p q = record {
  passes = none_stop-All stop w p;
  one_line = none_stop-All is_newline w q;
}

method-IsWord : (api : Api) → IsWord is_space (method_of api)
method-IsWord api_insert = check-IsWord is_space put_method refl refl
method-IsWord api_get = check-IsWord is_space get_method refl refl
method-IsWord api_delete = check-IsWord is_space delete_method refl refl

path-IsWord : (api : Api) → IsWord ends_path (api_path ++ method_of api)
path-IsWord api_insert = check-IsWord ends_path (api_path ++ put_method) refl refl
path-IsWord api_get = check-IsWord ends_path (api_path ++ get_method) refl refl
path-IsWord api_delete = check-IsWord ends_path (api_path ++ delete_method) refl refl

-- A request for one of the three handlers that is written with its method and path, at most eight
-- parameters, and header lines that neither are a Content-Length nor begin with a carriage return,
-- parses, whatever stands behind it; a started server routes it to that handler, which reads under
-- every name the value of the first parameter of that name.
pub parse_http_req-route_req :
    (api : Api) (ps : List (Bytes × Bytes)) (version : Bytes) (hs : List Bytes) (tail : Bytes)
    → length ps ≤ 8
    → AllWords ps
    → All (λ c. is_newline c ≡ false) version
    → All IsHeader hs
    → let buf =
        request_line (method_of api) (api_path ++ method_of api) ps version []
        ++ (plain_head hs ++ tail) in
      (n : ℕ) × (req : Request) × (parse_http_req buf ≡ done (some (n, req)))
      × (drop n buf ≡ tail)
      × (route_req buf server_routes req ≡ some api)
      × ((name : Bytes) → req_get_param buf name req.params ≡ first_value name ps)
parse_http_req-route_req api ps version hs tail fits words in_line all =
    let path = api_path ++ method_of api in
    let buf = request_line (method_of api) path ps version [] ++ (plain_head hs ++ tail) in
    let (n, req, parsed, method, at_path, spell, _, left) =
      parse_http_req-printed (method_of api) path version ps (method-IsWord api) (path-IsWord api)
        fits words in_line hs tail all in
    (
      n,
      req,
      parsed,
      left,
      route-Api api buf req method at_path,
      λ name. req_get_param-Spell buf name req.params ps spell,
    )
