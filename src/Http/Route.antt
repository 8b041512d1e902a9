-- ===== src/Http/Route.antt =====
-- misc/http/route.c: the table of routes, and the three handlers that stand beside it.
pub mod First
pub mod Echo
mod Tests
use orca_db.Base.{
  ℕ, zero, suc, ◌+◌, ◌-◌, Bool, true, false, ◌&&◌, Option, none, some, List, [], ◌∷◌, ◌++◌, Bytes,
  length, take, bytes_eq, ltb, leb, ◌==◌, if◌then◌else◌, Run, done, fault, out_of_fuel, ◌>>=◌,
}
use orca_db.Handler.{Response, respond, resp_buffer_size}
use orca_db.Http.Request.{Span, Param, Request, bytes_of, val_bytes}

-- `H` stands for the handlers; neither string has a NUL before its end.
pub record Route {ℓ} (H : Type ℓ) : Type ℓ where
  pub method : Bytes
  pub path : Bytes
  pub handler : H

module _ {ℓ} {H : Type ℓ} where
  -- `routes` has 128 entries, of which `route_count` are used.
  unfoldable pub add_route : List (Route H) → Route H → List (Route H)
  add_route routes r = if leb 128 (length routes) then routes else routes ++ (r ∷ [])

  unfoldable pub is_for : Bytes → Request → Route H → Bool
  is_for buf req r =
      (req.method.len == length r.method && bytes_eq (bytes_of buf req.method) r.method)
      && (req.path.len == length r.path && bytes_eq (bytes_of buf req.path) r.path)

  -- The handler that is called; `none` is `handle_404`.
  unfoldable pub route_req : Bytes → List (Route H) → Request → Option H
  unfolding is_for
  route_req buf [] req = none
  route_req buf (r ∷ routes) req =
      let rest = route_req buf routes req in if is_for buf req r then some r.handler else rest

-- {"status":"ok"}
abbrev pub ping_text : Bytes
ping_text = 123 ∷ 34 ∷ 115 ∷ 116 ∷ 97 ∷ 116 ∷ 117 ∷ 115 ∷ 34 ∷ 58 ∷ 34 ∷ 111 ∷ 107 ∷ 34 ∷ 125 ∷ []

-- {"error":"Not Found"}
abbrev pub not_found_text : Bytes
not_found_text =
    123 ∷ 34 ∷ 101 ∷ 114 ∷ 114 ∷ 111 ∷ 114 ∷ 34 ∷ 58 ∷ 34 ∷ 78 ∷ 111 ∷ 116 ∷ 32 ∷ 70 ∷ 111 ∷ 117
    ∷ 110 ∷ 100 ∷ 34 ∷ 125 ∷ []

abbrev pub handle_ping : Response
handle_ping = respond 200 ping_text

abbrev pub handle_404 : Response
handle_404 = respond 404 not_found_text

-- One `snprintf` at the end of what is printed: `pos` counts what would have been, and a negative
-- room is a huge `size_t`.
pub record Printed : Type 0 where
  pub pos : ℕ
  pub text : Bytes

unfoldable pub print : Bytes → Printed → Run Printed
print chunk w =
    if ltb resp_buffer_size w.pos
    then fault
    else done (record {
      pos = w.pos + length chunk;
      text = w.text ++ take (resp_buffer_size - w.pos - 1) chunk;
    })

-- What `%.*s` prints of bytes: up to a NUL.
unfoldable pub up_to_nul : Bytes → Bytes
up_to_nul [] = []
up_to_nul (c ∷ cs) = let rest = up_to_nul cs in if c == 0 then [] else c ∷ rest

-- A parameter as "key":"val".
unfoldable pub echo_param : Bytes → Param → Bytes
unfolding up_to_nul
echo_param buf p =
    (34 ∷ up_to_nul (bytes_of buf p.key))
    ++ ((34 ∷ 58 ∷ 34 ∷ up_to_nul (val_bytes buf p)) ++ (34 ∷ []))

-- The parameters behind the first.
unfoldable pub echo_loop : Bytes → List Param → Printed → Run Printed
unfolding print echo_param
echo_loop buf [] w = done w
echo_loop buf (p ∷ params) w =
    print (44 ∷ []) w >>= λ w'. print (echo_param buf p) w' >>= echo_loop buf params

unfoldable pub echo_params : Bytes → List Param → Printed → Run Printed
unfolding echo_loop
echo_params buf [] w = done w
echo_params buf (p ∷ params) w = print (echo_param buf p) w >>= echo_loop buf params

unfoldable pub handle_echo : Bytes → Request → Run Response
unfolding echo_params
handle_echo buf req = do
  w₁ ← print (123 ∷ []) (record { pos = 0; text = [] })
  w₂ ← echo_params buf req.params w₁
  w₃ ← print (125 ∷ []) w₂
  done (record { status = 200; text = w₃.text; body_len = w₃.pos })
