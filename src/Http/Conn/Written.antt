-- ===== src/Http/Conn/Written.antt =====
-- What is written: the whole response, and the bytes that are sent of it.
use orca_db.Aof.{digits}
use orca_db.Aof.Digits.{digits-length}
use orca_db.Base.{
  ℕ, ◌+◌, ◌-◌, ◌≤◌, ◌<◌, ◌≡◌, refl, sym, ap, ◌∙◌, Bool, false, List, [], ◌∷◌, ◌++◌, Bytes, length,
  length-append, take, take-all, take-drop, drop-all, drop-drop, min, map, ltb, ==_ne, le→ltb,
  lt→leb, leb-true, if◌then◌else◌, done, fault, subst, arith,
}
use orca_db.Handler.{Response, respond, resp_buffer_size}
use orca_db.Http.Conn.{
  Conn, conn_reading, reason, http_version, header_type, header_end, resp_head, build_resp, took,
  remaining, finish_writing, handle_writable,
}

reason-length : (status : ℕ) → length (reason status) ≤ 9
unfolding reason
reason-length status = ground arith

resp_head-length : (res : Response) → length (resp_head res) ≤ 162
unfolding resp_head
resp_head-length res =
    let first = http_version ++ (digits res.status ++ (32 ∷ reason res.status)) in
    let second = header_type ++ (digits res.body_len ++ header_end) in
    omega (
      arith,
      length-append first second,
      length-append (digits res.status) (32 ∷ reason res.status),
      length-append (digits res.body_len) header_end,
      digits-length res.status,
      digits-length res.body_len,
      reason-length res.status,
    )

-- A response whose text has at most 32600 bytes is built whole: the head, then the text.
pub build_resp-whole :
    (status : ℕ) (text : Bytes)
    → length text ≤ 32600
    → build_resp (respond status text) ≡ done (resp_head (respond status text) ++ text)
unfolding build_resp
build_resp-whole status text h =
    let res = respond status text in
    let head = resp_head res in
    let outcome =
      λ (b : Bool) (t : Bytes). (if b then fault else done (head ++ t)) ≡ done (head ++ text) in
    let whole : take (length text) (take 32767 text) ≡ text =
      ap (take (length text)) (take-all 32767 text (omega arith))
      ∙ take-all (length text) text (omega arith) in
    let fits : ltb resp_buffer_size (length head + length text) ≡ false =
      le→ltb resp_buffer_size (length head + length text)
        (omega (arith, resp_head-length res, h)) in
    subst (λ b. outcome b (take (length text) (take 32767 text))) (sym fits)
      (subst (outcome false) (sym whole) refl)

-- The connection once all is sent.
abbrev pub reset : Conn → Conn
reset ctx = record ctx { state = conn_reading; write_buf = []; write_pos = 0 }

abbrev pub total : List ℕ → ℕ
total [] = 0
total (n ∷ ns) = n + total ns

abbrev pub AllPositive : List ℕ → Type 0
AllPositive [] = Unit
AllPositive (n ∷ ns) = (0 < n) × AllPositive ns

-- When `send` takes the bytes that are left in pieces, none of them empty, `handle_writable` sends
-- exactly these bytes, in their order, and goes back to reading with an empty write buffer.
pub handle_writable-reset :
    (ns : List ℕ) (ctx : Conn)
    → AllPositive ns
    → ctx.write_pos + total ns ≡ length ctx.write_buf
    → handle_writable (map took ns) ctx ≡ (remaining ctx, reset ctx)
unfolding handle_writable finish_writing
handle_writable-reset [] ctx h e =
    rw (leb-true (length ctx.write_buf) ctx.write_pos (omega (arith, e)))
      (ap (λ l. (l, reset ctx)) (sym (drop-all ctx.write_pos ctx.write_buf (omega (arith, e)))))
handle_writable-reset (n ∷ ns) ctx h e =
    let ctx' : Conn = record ctx { write_pos = ctx.write_pos + n } in
    let all : min n (length ctx.write_buf - ctx.write_pos) ≡ n = omega (arith, e) in
    rw (lt→leb (length ctx.write_buf) ctx.write_pos (omega (arith, e, h)), all)
      (rw (==_ne n 0 (λ z. omega (arith, z, h))) (
        ap (λ r. (take n (remaining ctx) ++ r.0, r.1))
          (handle_writable-reset ns ctx' h.1 (omega (arith, e)))
        ∙ ap (λ l. (take n (remaining ctx) ++ l, reset ctx))
            (sym (drop-drop ctx.write_pos n ctx.write_buf))
        ∙ ap (λ l. (l, reset ctx)) (take-drop n (remaining ctx))))
