-- ===== src/Http/Parse/Body.antt =====
-- The parser on the text of a request with a body.
use orca_db.Base.{
  ℕ, ◌+◌, ◌-◌, ◌≤◌, ◌<◌, ◌≡◌, ◌∙◌, refl, sym, ap, false, some, List, [], ◌++◌, Bytes, All, length,
  length-append, length-drop, take, drop, take-append, drop-append, drop-drop, ltb, ◌==◌, done,
  arith,
}
use orca_db.Http.Parse.{int_max, is_space, ends_path, is_newline, parse_body, parse_http_req}
use orca_db.Http.Parse.Length.{body_head, body_head-Gives}
use orca_db.Http.Parse.Lines.{IsHeader}
use orca_db.Http.Parse.Printed.{request_line, parse_http_req-head}
use orca_db.Http.Parse.Query.{Reads, IsWord, AllWords, Spell}
use orca_db.Http.Request.{Span, Request}

-- The body that stands at `pos`.
parse_body-there :
    (buf body tail : Bytes) (pos : ℕ) (req : Request)
    → drop pos buf ≡ body ++ tail
    → 0 < length body
    → parse_body (length buf) pos (length body) req
      ≡ some (
        pos + length body,
        record req {
          content_length = length body;
          body = some (record { start = pos; len = length body });
        },
      )
unfolding parse_body
parse_body-there buf body tail pos req at some_bytes =
    let whole : ltb (length buf - pos) (length body) ≡ false =
      ground (arith, ap length at, length-drop pos buf, length-append body tail) in
    let filled : (length body == 0) ≡ false = ground (arith, some_bytes) in
    rw filled (rw whole refl)

-- A request of a method, a path without `?`, at most eight parameters and a version, whose headers
-- give the length of its body once, as it is printed, and are else any lines that neither are a
-- Content-Length nor begin with a carriage return, parses when its body has been read: the method,
-- the path, the parameters and the body are read as they were written, and what is consumed ends
-- where the bytes behind the body begin. The body has between one byte and INT_MAX.
pub parse_http_req-body :
    (method path version : Bytes) (ps : List (Bytes × Bytes)) (hs more : List Bytes)
    (body tail : Bytes)
    → IsWord is_space method
    → IsWord ends_path path
    → length ps ≤ 8
    → AllWords ps
    → All (λ c. is_newline c ≡ false) version
    → All IsHeader hs
    → All IsHeader more
    → 0 < length body
    → length body ≤ int_max
    → let buf =
        request_line method path ps version []
        ++ (body_head hs (length body) more ++ (body ++ tail)) in
      (n : ℕ) × (req : Request) × (span : Span) × (parse_http_req buf ≡ done (some (n, req)))
      × Reads buf req.method method
      × Reads buf req.path path
      × Spell buf req.params ps
      × (req.content_length ≡ length body)
      × (req.body ≡ some span)
      × Reads buf span body
      × (drop n buf ≡ tail)
parse_http_req-body method path version ps hs more body tail method_word path_word fits words
      in_line all all_more some_bytes small =
    let head = body_head hs (length body) more in
    let buf = request_line method path ps version [] ++ (head ++ (body ++ tail)) in
    let (n, req, parsed, method_read, path_read, spell, left) =
      parse_http_req-head method path version ps method_word path_word fits words in_line head
        (length body) (body ++ tail) (body_head-Gives hs more (length body) all all_more small) in
    let pos = n + length head in
    let span : Span = record { start = pos; len = length body } in
    (
      pos + length body,
      record req { content_length = length body; body = some span },
      span,
      parsed ∙ ap done (parse_body-there buf body tail pos req left some_bytes),
      method_read,
      path_read,
      spell,
      refl,
      refl,
      (refl, ap (take (length body)) left ∙ take-append (length body) body tail refl),
      sym (drop-drop pos (length body) buf)
          ∙ ap (drop (length body)) left
          ∙ drop-append (length body) body tail refl,
    )
