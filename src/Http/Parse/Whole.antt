-- ===== src/Http/Parse/Whole.antt =====
-- `parse_http_req` as a whole: its end, and the spans that it hands out.
use orca_db.Base.{
  ℕ, suc, ◌+◌, ◌-◌, ◌≤◌, ◌≡◌, sym, refl, Bool, false, Option, none, some, [], ◌∷◌, Bytes, length,
  take, drop, length-drop, length-take, arith, done, inl, inr, Bool-cases, ltb→le, ◌==◌, ltb,
  if◌then◌else◌, subst, Ends, Ends-bind,
}
use orca_db.Http.Request.{Span, Request}
use orca_db.Http.Parse.{
  scan, parse_req_line, parse_headers, parse_body, parse_end, parse_rest, parse_http_req,
  is_newline,
}
use orca_db.Http.Parse.Bounds.{ValWithin, LineWithin, parse_req_line-LineWithin, AllWithin_grow}
use orca_db.Http.Parse.Headers.{HeadWithin, header_loop-Ends}

-- What a successful parse says of a buffer of `n` bytes.
pub record ReqWithin (n : ℕ) (r : ℕ × Request) : Type 0 where
  pub line : LineWithin n r
  pub body : ValWithin n r.1.body

abbrev pub Parsed : ℕ → Option (ℕ × Request) → Type 0
Parsed n none = Unit
Parsed n (some r) = ReqWithin n r

parse_body-Parsed :
    (n pos len : ℕ) (r : ℕ × Request)
    → LineWithin n r
    → pos ≤ n
    → Parsed n (parse_body n pos len r.1)
unfolding parse_body
parse_body-Parsed n pos len r v h =
    let outcome = λ (b c : Bool). Parsed n (
      if b
      then some (pos, record r.1 { content_length = 0; body = none })
      else if c
      then none
      else some (
        pos + len,
        record r.1 { content_length = len; body = some (record { start = pos; len = len }) },
      )) in
    let short = ltb (n - pos) len in
    elim (Bool-cases (len == 0)) [
      | inl e ↦ subst (λ b. outcome b short) (sym e) (record { line = moved_to pos h _; body = tt })
      | inr e ↦ elim (Bool-cases short) [
        | inl s ↦ subst (λ b. outcome b short) (sym e) (subst (outcome false) (sym s) tt)
        | inr s ↦
            let inside : pos + len ≤ n = omega (arith, h, ltb→le (n - pos) len s) in
            subst (λ b. outcome b short) (sym e)
              (subst (outcome false) (sym s)
                (record { line = moved_to (pos + len) inside _; body = inside }))
      ]
    ]
  where
    moved_to :
        (q : ℕ)
        → q ≤ n
        → (x : ℕ × Option Span) → LineWithin n (q, record r.1 { content_length = x.0; body = x.1 })
    moved_to q k x = record {
      consumed = k;
      method = v.method;
      path = v.path;
      params = v.params;
      few = v.few;
    }

parse_end-Parsed :
    (n : ℕ) (r : ℕ × Request) (header : Option (ℕ × ℕ))
    → LineWithin n r
    → HeadWithin (n - r.0) header
    → Parsed n (parse_end n r.0 r.1 header)
unfolding parse_end
parse_end-Parsed n r none v h = tt
parse_end-Parsed n r (some (pos, len)) v h =
    parse_body-Parsed n (r.0 + pos) len r v (omega (arith, h, v.consumed))

LineWithin_grow : (m n : ℕ) (r : ℕ × Request) → m ≤ n → LineWithin m r → LineWithin n r
LineWithin_grow m n r h v = record {
  consumed = omega (arith, v.consumed);
  method = omega (arith, v.method);
  path = omega (arith, v.path);
  params = AllWithin_grow m n r.1.params h v.params;
  few = v.few;
}

parse_rest-Ends :
    (buf : Bytes) (line : Option (ℕ × Request))
    → ((r : ℕ × Request) → line ≡ some r → LineWithin (length buf) r)
    → Ends (Parsed (length buf)) (parse_rest buf line)
unfolding parse_rest parse_headers
parse_rest-Ends buf none v = tt
parse_rest-Ends buf (some (consumed, req)) v =
    let rest = drop consumed buf in
    let n = length buf in
    let zero_add : 0 + length rest ≡ length rest = omega arith in
    Ends-bind (HeadWithin (length rest)) (Parsed n) (parse_headers rest) _
      (subst (λ j. Ends (HeadWithin j) (parse_headers rest)) zero_add
        (header_loop-Ends (suc (length rest)) 0 0 rest (omega arith)))
      (λ header k.
        parse_end-Parsed n (consumed, req) header (v (consumed, req) refl)
          (subst (λ j. HeadWithin j header) (length-drop consumed buf) k))

-- For every buffer the parser ends within its fuel, with a fault or a result, and a request that it
-- returns consumes at most the buffer, with method, path, body and at most eight parameters all
-- inside it.
pub parse_http_req-Ends : (buf : Bytes) → Ends (Parsed (length buf)) (parse_http_req buf)
unfolding parse_http_req
parse_http_req-Ends buf =
    let (eol, rest) = scan is_newline 0 buf in
    let line = take (eol + 1) buf in
    let n = length buf in
    let outcome = λ (rest : Bytes).
      Ends (Parsed n)
        (elim rest [ [] ↦ done none | _ ∷ _ ↦ parse_rest buf (parse_req_line line) ]) in
    go rest outcome tt (λ c cs. parse_rest-Ends buf (parse_req_line line) (λ r e.
      LineWithin_grow (length line) n r (omega (arith, length-take (eol + 1) buf))
        (parse_req_line-LineWithin line r e)))
  where
    go : (rest : Bytes) (P : Bytes → Type 0) → P [] → ((c : ℕ) (cs : Bytes) → P (c ∷ cs)) → P rest
    go [] P z s = z
    go (c ∷ cs) P z s = s c cs
