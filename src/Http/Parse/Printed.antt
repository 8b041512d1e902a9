-- ===== src/Http/Parse/Printed.antt =====
-- The parser on the text of a request line with parameters, and header lines behind it.
use orca_db.Base.{
  ℕ, ◌+◌, ◌-◌, ◌≤◌, ◌≡◌, ◌∙◌, refl, sym, ap, false, Option, none, some, List, [], ◌∷◌, ◌++◌, Bytes,
  All, All-append, length, length-append, take, drop, take-append, drop-append, Run, done, ◌>>=◌,
  arith,
}
use mathlib.Core.List.{append_assoc}
use orca_db.Http.Parse.{
  scan, skip, is_space, ends_path, is_newline, parse_query, skip_line, parse_path, parse_method,
  parse_req_line, parse_headers, parse_body, parse_end, parse_rest, parse_http_req,
}
use orca_db.Http.Request.{Param, Request, bytes_of}
use orca_db.Http.Parse.Lines.{IsHeader, plain_head, plain_head-Gives, Gives}
use orca_db.Http.Parse.Query.{
  Reads, IsWord, AllWords, Spell, query, scan-word, At, At-behind, At-bytes, parse_params-query,
}

-- A request line, with `end` behind its newline.
abbrev pub request_line : Bytes → Bytes → List (Bytes × Bytes) → Bytes → Bytes → Bytes
request_line method path ps version end =
    method ++ (32 ∷ (path ++ (63 ∷ query ps (32 ∷ (version ++ (10 ∷ end))))))

module _ (method path version : Bytes) (ps : List (Bytes × Bytes))
    (method_word : IsWord is_space method) (path_word : IsWord ends_path path)
    (fits : length ps ≤ 8) (words : AllWords ps)
    (version_line : All (λ c. is_newline c ≡ false) version) where
  abbrev line : Bytes
  line = request_line method path ps version []

  skip_line-version :
      (p : ℕ) → skip_line p (32 ∷ (version ++ (10 ∷ []))) ≡ (p + length (32 ∷ version) + 1, [])
  unfolding skip_line skip
  skip_line-version p =
      ap (λ r. skip 10 r.0 r.1)
        (scan-word is_newline p (32 ∷ version) 10 [] (refl, version_line) refl)

  parse_req_line-printed :
      (buf behind : Bytes)
      → buf ≡ line ++ behind
      → (n : ℕ) × (req : Request) × (parse_req_line line ≡ some (n, req))
        × Reads buf req.method method
        × Reads buf req.path path
        × Spell buf req.params ps
        × At buf behind n []
  unfolding parse_req_line parse_method parse_path parse_query
  parse_req_line-printed buf behind e =
      let rest = 32 ∷ (version ++ (10 ∷ [])) in
      let in_query = query ps rest in
      let in_path = path ++ (63 ∷ in_query) in
      let m = 0 + length method in
      let start = m + 1 in
      let p' = start + length path in
      let at_0 : At buf behind 0 line = ([], e, refl) in
      let at_path =
        At-behind buf behind m (32 ∷ []) in_path
          (At-behind buf behind 0 method (32 ∷ in_path) at_0) in
      let at_query =
        At-behind buf behind p' (63 ∷ []) in_query
          (At-behind buf behind start path (63 ∷ in_query) at_path) in
      let (params, p₂, run, spell, at₂) =
        parse_params-query buf behind 8 (p' + 1) ps (version ++ (10 ∷ [])) fits words at_query in
      let last = p₂ + length (32 ∷ version) in
      let at_end =
        At-behind buf behind last (10 ∷ []) []
          (At-behind buf behind p₂ (32 ∷ version) (10 ∷ []) at₂) in
      let request : List Param → Request = λ found. record {
        method = record { start = 0; len = m };
        path = record { start = start; len = p' - start };
        params = found;
        content_length = 0;
        body = none;
      } in
      let finish : List Param × ℕ × Bytes → Option (ℕ × Request) =
        λ r. some ((skip_line r.1 r.2).0, request r.0) in
      (
        last + 1,
        request params,
        ap parse_method (scan-word is_space 0 method 32 in_path method_word.passes refl)
            ∙ ap (parse_path (record { start = 0; len = m }) start)
                (scan-word ends_path start path 63 in_query path_word.passes refl)
            ∙ ap finish run
            ∙ ap (λ r. some (r.0, request params)) (skip_line-version p₂),
        (
          omega arith,
          ap (λ n. bytes_of buf (record { start = 0; len = n })) (omega arith)
              ∙ At-bytes buf behind 0 method (32 ∷ in_path) at_0,
        ),
        (
          omega arith,
          ap (λ n. bytes_of buf (record { start = start; len = n })) (omega arith)
              ∙ At-bytes buf behind start path (63 ∷ in_query) at_path,
        ),
        spell,
        at_end,
      )

  -- The line without its newline.
  abbrev line_body : Bytes
  line_body = method ++ (32 ∷ (path ++ (63 ∷ query ps (32 ∷ version))))

  query-append :
      (qs : List (Bytes × Bytes)) (xs ys : Bytes) → query qs xs ++ ys ≡ query qs (xs ++ ys)
  unfolding query
  query-append [] xs ys = refl
  query-append ((k, v) ∷ []) xs ys =
      append_assoc k (61 ∷ (v ++ xs)) ys ∙ ap (λ l. k ++ (61 ∷ l)) (append_assoc v xs ys)
  query-append ((k, v) ∷ q ∷ qs) xs ys =
      append_assoc k (61 ∷ (v ++ (38 ∷ query (q ∷ qs) xs))) ys
      ∙ ap (λ l. k ++ (61 ∷ l))
          (append_assoc v (38 ∷ query (q ∷ qs) xs) ys
            ∙ ap (λ l. v ++ (38 ∷ l)) (query-append (q ∷ qs) xs ys))

  line-body : (end : Bytes) → line_body ++ (10 ∷ end) ≡ request_line method path ps version end
  line-body end =
      append_assoc method (32 ∷ (path ++ (63 ∷ query ps (32 ∷ version)))) (10 ∷ end)
      ∙ ap (λ l. method ++ (32 ∷ l))
          (append_assoc path (63 ∷ query ps (32 ∷ version)) (10 ∷ end)
            ∙ ap (λ l. path ++ (63 ∷ l)) (query-append ps (32 ∷ version) (10 ∷ end)))

  abbrev InLine : Bytes → Type 0
  InLine xs = All (λ c. is_newline c ≡ false) xs

  query-InLine :
      (qs : List (Bytes × Bytes)) (end : Bytes) → AllWords qs → InLine end → InLine (query qs end)
  unfolding query
  query-InLine [] end ws h = h
  query-InLine ((k, v) ∷ []) end ws h =
      All-append (λ c. is_newline c ≡ false) k (61 ∷ (v ++ end)) ws.0.one_line
        (refl, All-append (λ c. is_newline c ≡ false) v end ws.1.one_line h)
  query-InLine ((k, v) ∷ q ∷ qs) end ws h =
      All-append (λ c. is_newline c ≡ false) k (61 ∷ (v ++ (38 ∷ query (q ∷ qs) end))) ws.0.one_line
        (
          refl,
          All-append (λ c. is_newline c ≡ false) v (38 ∷ query (q ∷ qs) end) ws.1.one_line
              (refl, query-InLine (q ∷ qs) end ws.2 h),
        )

  line_body-InLine : InLine line_body
  line_body-InLine =
      All-append (λ c. is_newline c ≡ false) method _ method_word.one_line
        (
          refl,
          All-append (λ c. is_newline c ≡ false) path _ path_word.one_line
              (refl, query-InLine ps (32 ∷ version) words (refl, version_line)),
        )

  -- What is read of the line when headers that give the length `len` stand behind it.
  pub parse_http_req-head :
      (head : Bytes) (len : ℕ) (tail : Bytes)
      → Gives head len
      → let buf = request_line method path ps version [] ++ (head ++ tail) in
        (n : ℕ) × (req : Request) × (parse_http_req buf
          ≡ done (parse_body (length buf) (n + length head) len req))
        × Reads buf req.method method
        × Reads buf req.path path
        × Spell buf req.params ps
        × (drop (n + length head) buf ≡ tail)
  unfolding parse_http_req parse_rest parse_end
  parse_http_req-head head len tail gives =
      let behind = head ++ tail in
      let buf = line ++ behind in
      let ended = line-body [] in
      let whole : buf ≡ line_body ++ (10 ∷ behind) =
        ap (λ l. l ++ behind) (sym ended) ∙ append_assoc line_body (10 ∷ []) behind in
      let eol = 0 + length line_body in
      let size : length line ≡ eol + 1 =
        omega (arith, ap length ended, length-append line_body (10 ∷ [])) in
      let (n, req, parsed, method_read, path_read, spell, (before, at_n, at)) =
        parse_req_line-printed buf behind refl in
      let headers : drop n buf ≡ behind = ap (drop n) at_n ∙ drop-append n before behind at in
      let after_line : ℕ × Bytes → Run (Option (ℕ × Request)) = λ r. elim r.1 [
        | [] ↦ done none
        | _ ∷ _ ↦ parse_rest buf (parse_req_line (take (r.0 + 1) buf))
      ] in
      let after_headers : Run (Option (ℕ × ℕ)) → Run (Option (ℕ × Request)) =
        λ r. r >>= λ header. done (parse_end (length buf) n req header) in
      (
        n,
        req,
        ap after_line (
              ap (scan is_newline 0) whole
              ∙ scan-word is_newline 0 line_body 10 behind line_body-InLine refl)
            ∙ ap (λ l. parse_rest buf (parse_req_line l)) (take-append (eol + 1) line behind size)
            ∙ ap (parse_rest buf) parsed
            ∙ ap (λ l. after_headers (parse_headers l)) headers
            ∙ ap after_headers (gives tail),
        method_read,
        path_read,
        spell,
        ap (drop (n + length head)) (at_n ∙ sym (append_assoc before head tail))
            ∙ drop-append (n + length head) (before ++ head) tail
                (omega (arith, at, length-append before head)),
      )

  -- A request line of a method, a path without `?`, at most eight parameters and a version, followed
  -- by any header lines that neither are a Content-Length nor begin with a carriage return, parses:
  -- the method, the path and the parameters are read as they were written, there is no body, and what
  -- is consumed ends where the bytes behind the request begin.
  pub parse_http_req-printed :
      (hs : List Bytes) (tail : Bytes)
      → All IsHeader hs
      → let buf = request_line method path ps version [] ++ (plain_head hs ++ tail) in
        (n : ℕ) × (req : Request) × (parse_http_req buf ≡ done (some (n, req)))
        × Reads buf req.method method
        × Reads buf req.path path
        × Spell buf req.params ps
        × (req.content_length ≡ 0)
        × (drop n buf ≡ tail)
  unfolding parse_body
  parse_http_req-printed hs tail all =
      let (n, req, parsed, method_read, path_read, spell, left) =
        parse_http_req-head (plain_head hs) 0 tail (plain_head-Gives hs all) in
      (
        n + length (plain_head hs),
        record req { content_length = 0; body = none },
        parsed,
        method_read,
        path_read,
        spell,
        refl,
        left,
      )
