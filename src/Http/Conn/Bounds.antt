-- ===== src/Http/Conn/Bounds.antt =====
-- What a connection keeps of the bytes that it reads.
use orca_db.Base.{
  ℕ, ◌+◌, ◌-◌, ◌≤◌, ◌<◌, ◌≡◌, refl, sym, Bool, true, false, Option, none, some, List, [], ◌∷◌, ◌++◌,
  Bytes, length, length-append, length-drop, length-take, take, ltb, leb, leb-lt, ◌==◌,
  if◌then◌else◌, Run, done, fault, Ends, Ends-bind, Bool-cases, inl, inr, subst, arith,
}
use orca_db.Handler.{Response, resp_buffer_size}
use orca_db.Http.Conn.{
  Conn, conn_reading, buffer_size, build_resp, resp_head, ReadResult, got, end_of_stream,
  read_failed, read_again, closed, answer, handle_readable,
}
use orca_db.Http.Parse.{parse_http_req}
use orca_db.Http.Parse.Whole.{Parsed, parse_http_req-Ends}
use orca_db.Http.Request.{Request}

abbrev pub BufferFits : Conn → Type 0
BufferFits ctx = length ctx.read_buf ≤ 16384

-- The bytes fit, and a connection that reads on has room for more.
abbrev pub KeepsRoom : Conn → Type 0
KeepsRoom ctx = BufferFits ctx × (ctx.state ≡ conn_reading → length ctx.read_buf < 16384)

abbrev Any : Bytes → Type 0
Any out = Unit

build_resp-Ends : (res : Response) → Ends Any (build_resp res)
unfolding build_resp
build_resp-Ends res =
    let head = resp_head res in
    let outcome =
      λ (b : Bool). Ends Any (if b then fault else done (head ++ take res.body_len res.text)) in
    elim (Bool-cases (ltb resp_buffer_size (length head + res.body_len))) [
      | inl e ↦ subst outcome (sym e) tt
      | inr e ↦ subst outcome (sym e) tt
    ]

closed-KeepsRoom : (ctx : Conn) → BufferFits ctx → KeepsRoom (closed ctx)
closed-KeepsRoom ctx h = (h, λ e. ground arith)

module _ (respond_to : Bytes → Request → Run Response)
    (total : (buf : Bytes) (req : Request) → Ends (λ _. Unit) (respond_to buf req)) where
  answer-Ends :
      (ctx : Conn) (p : ℕ × Request) → BufferFits ctx → Ends KeepsRoom (answer respond_to ctx p)
  unfolding answer
  answer-Ends ctx p h =
      Ends-bind (λ _. Unit) KeepsRoom (respond_to ctx.read_buf p.1) _ (total ctx.read_buf p.1)
        (λ res _.
          Ends-bind Any KeepsRoom (build_resp res) _ (build_resp-Ends res)
            (λ out _. (omega (arith, length-drop p.0 ctx.read_buf, h), λ e. ground arith)))

  -- What one round does with what the parser says.
  after_parse-Ends :
      (ctx : Conn) (more : Run Conn) (parsed : Option (ℕ × Request))
      → BufferFits ctx
      → Ends KeepsRoom more
      → Ends KeepsRoom (elim parsed [
        | none ↦ more
        | some p ↦ if p.0 == 0 then more else answer respond_to ctx p
      ])
  after_parse-Ends ctx more none h k = k
  after_parse-Ends ctx more (some p) h k =
      let outcome = λ (b : Bool). Ends KeepsRoom (if b then more else answer respond_to ctx p) in
      elim (Bool-cases (p.0 == 0)) [
        | inl e ↦ subst outcome (sym e) k
        | inr e ↦ subst outcome (sym e) (answer-Ends ctx p h)
      ]

  close_if :
      (b : Bool) (ctx : Conn) (next : Run Conn)
      → BufferFits ctx
      → (b ≡ false → Ends KeepsRoom next)
      → Ends KeepsRoom (if b then done (closed ctx) else next)
  close_if true ctx next h k = closed-KeepsRoom ctx h
  close_if false ctx next h k = k refl

  unless_full :
      (ctx : Conn) (next : Run Conn)
      → BufferFits ctx
      → (length ctx.read_buf < 16384 → Ends KeepsRoom next)
      → Ends KeepsRoom (if leb buffer_size (length ctx.read_buf) then done (closed ctx) else next)
  unless_full ctx next h k =
      close_if (leb buffer_size (length ctx.read_buf)) ctx next h
        (λ e. k (leb-lt buffer_size (length ctx.read_buf) e))

  -- Whatever `read` finds, `handle_readable` ends, with a fault or a connection, if the handlers do.
  -- The bytes that are kept fit into the read buffer, and a connection that goes on reading has room
  -- for more.
  pub handle_readable-Ends :
      (results : List ReadResult) (ctx : Conn)
      → BufferFits ctx
      → Ends KeepsRoom (handle_readable respond_to results ctx)
  unfolding handle_readable
  handle_readable-Ends [] ctx h =
      let outcome = λ (b : Bool). Ends KeepsRoom (done (if b then closed ctx else ctx)) in
      elim (Bool-cases (leb buffer_size (length ctx.read_buf))) [
        | inl e ↦ subst outcome (sym e) (closed-KeepsRoom ctx h)
        | inr e ↦ subst outcome (sym e) (h, λ _. leb-lt buffer_size (length ctx.read_buf) e)
      ]
  handle_readable-Ends (read_again ∷ results) ctx h =
      unless_full ctx (done ctx) h (λ room. (h, λ _. room))
  handle_readable-Ends (read_failed ∷ results) ctx h =
      unless_full ctx (done (closed ctx)) h (λ _. closed-KeepsRoom ctx h)
  handle_readable-Ends (end_of_stream ∷ results) ctx h =
      unless_full ctx (done (closed ctx)) h (λ _. closed-KeepsRoom ctx h)
  handle_readable-Ends (got bytes ∷ results) ctx h =
      let space = 16384 - length ctx.read_buf in
      let buf = ctx.read_buf ++ take space bytes in
      let ctx' = record ctx { read_buf = buf } in
      let fits : BufferFits ctx' =
        omega (arith, length-append ctx.read_buf (take space bytes), length-take space bytes, h) in
      let more = handle_readable respond_to results ctx' in
      unless_full ctx _ h (λ _. close_if (length (take space bytes) == 0) ctx _ h (λ _.
        Ends-bind (Parsed (length buf)) KeepsRoom (parse_http_req buf) _ (parse_http_req-Ends buf)
          (λ parsed _.
            after_parse-Ends ctx' more parsed fits (handle_readable-Ends results ctx' fits))))
