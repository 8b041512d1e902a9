-- ===== src/Http/Parse/Length.antt =====
-- The header loop on a Content-Length whose number was printed.
use orca_db.Aof.{digits}
use orca_db.Aof.Digits.{AllDigits, worth, worth-ge, digits-worth}
use orca_db.Base.{
  ℕ, suc, ◌+◌, ◌-◌, ◌*◌, ◌≤◌, ◌≡◌, ◌∙◌, refl, ap, true, false, ◌&&◌, some, List, [], ◌∷◌, ◌++◌,
  Bytes, All, length, length-append, leb, ltb, Option, Run, done, ◌>>=◌, arith,
}
use mathlib.Core.List.{append_assoc}
use orca_db.Http.Parse.{
  int_max, scan, skip_line, not_blank, parse_digits, parse_length, content_length_name, header_loop,
  parse_headers,
}
use orca_db.Http.Parse.Lines.{
  IsHeader, header_lines, header_loop-lines, length-header_lines, skip_line-header, plain_head,
  Gives,
}
use orca_db.Http.Parse.Query.{scan-word}

parse_digits-digits :
    (n p : ℕ) (cs rest : Bytes)
    → AllDigits cs
    → worth n cs ≤ int_max
    → parse_digits n p (cs ++ (13 ∷ rest)) ≡ done (worth n cs, p + length cs, 13 ∷ rest)
unfolding parse_digits
parse_digits-digits n p [] rest all fits = ap (λ q. done (n, q, 13 ∷ rest)) (omega arith)
parse_digits-digits n p (c ∷ cs) rest all fits =
    let m = n * 10 + (c - 48) in
    let digit : (leb 48 c && leb c 57) ≡ true = ground (arith, all.0, all.1) in
    let small : ltb int_max m ≡ false = ground (arith, worth-ge m cs, fits) in
    rw digit (
      rw small (
        parse_digits-digits m (p + 1) cs rest all.2 fits
        ∙ ap (λ q. done (worth m cs, q, 13 ∷ rest)) (omega arith)))

-- Content-Length, a space, the number, and a carriage return.
abbrev pub length_line : ℕ → Bytes
length_line n = content_length_name ++ (32 ∷ (digits n ++ (13 ∷ [])))

parse_length-printed :
    (old p n : ℕ) (rest : Bytes)
    → n ≤ int_max
    → parse_length old p (content_length_name ++ (32 ∷ (digits n ++ (13 ∷ rest))))
      ≡ done (n, p + 16 + length (digits n), 13 ∷ rest)
unfolding parse_length
parse_length-printed old p n rest fits =
    let (c, cs, e, all, value) = digits-worth n (omega (arith, fits)) in
    let text = content_length_name ++ (32 ∷ (digits n ++ (13 ∷ rest))) in
    let long : leb 15 (length text) ≡ true = ground arith in
    let starts : not_blank c ≡ true = ground (arith, all.0) in
    let blank : scan not_blank (p + 15) (32 ∷ (c ∷ (cs ++ (13 ∷ rest))))
        ≡ (p + 15 + 1, c ∷ (cs ++ (13 ∷ rest))) =
      scan-word not_blank (p + 15) (32 ∷ []) c (cs ++ (13 ∷ rest)) (refl, tt) starts in
    rw long (
      rw e (
        ap (λ r. parse_digits 0 r.0 r.1) blank
        ∙ parse_digits-digits 0 (p + 15 + 1) (c ∷ cs) rest all (omega (arith, value, fits))
        ∙ ap (λ m. done (m, p + 15 + 1 + length (c ∷ cs), 13 ∷ rest)) value
        ∙ ap (λ q. done (n, q, 13 ∷ rest)) (omega arith)))

header_loop-length :
    (fuel old p n : ℕ) (rest : Bytes)
    → n ≤ int_max
    → header_loop (suc fuel) old p (length_line n ++ (10 ∷ rest))
      ≡ header_loop fuel n (p + length (length_line n) + 1) rest
unfolding header_loop
header_loop-length fuel old p n rest fits =
    let next : ℕ × ℕ × Bytes → Run (Option (ℕ × ℕ)) =
      λ r. header_loop fuel r.0 (skip_line r.1 r.2).0 (skip_line r.1 r.2).1 in
    let q = p + 16 + length (digits n) in
    ap (λ l. header_loop (suc fuel) old p (content_length_name ++ (32 ∷ l)))
      (append_assoc (digits n) (13 ∷ []) (10 ∷ rest))
    ∙ ap (λ r. r >>= next) (parse_length-printed old p n (10 ∷ rest) fits)
    ∙ ap (λ r. header_loop fuel n r.0 r.1) (skip_line-header q (13 ∷ []) rest (refl, tt))
    ∙ ap (λ m. header_loop fuel n m rest) (omega (arith, length-append (digits n) (13 ∷ [])))

-- The headers of a request with a body: lines, the length, lines, and the empty line.
abbrev pub body_head : List Bytes → ℕ → List Bytes → Bytes
body_head hs n more = header_lines hs ++ (length_line n ++ (10 ∷ plain_head more))

pub body_head-Gives :
    (hs more : List Bytes) (n : ℕ)
    → All IsHeader hs
    → All IsHeader more
    → n ≤ int_max
    → Gives (body_head hs n more) n
unfolding parse_headers header_loop
body_head-Gives hs more n all all_more fits rest =
    let end = 13 ∷ 10 ∷ rest in
    let lines = header_lines hs in
    let lines' = header_lines more in
    let head = body_head hs n more in
    let size : length head ≡ length lines + length (length_line n) + 1 + length lines' + 2 = omega (
      arith,
      length-append lines (length_line n ++ (10 ∷ plain_head more)),
      length-append (length_line n) (10 ∷ plain_head more),
      length-append lines' (13 ∷ 10 ∷ []),
    ) in
    let left = length (head ++ rest) - length hs - 1 - length more in
    let p = 0 + length lines in
    let p' = p + length (length_line n) + 1 in
    let text : head ++ rest ≡ lines ++ (length_line n ++ (10 ∷ (lines' ++ end))) =
      append_assoc lines (length_line n ++ (10 ∷ plain_head more)) rest
      ∙ ap (λ l. lines ++ l)
          (append_assoc (length_line n) (10 ∷ plain_head more) rest
            ∙ ap (λ l. length_line n ++ (10 ∷ l)) (append_assoc lines' (13 ∷ 10 ∷ []) rest)) in
    ap (λ f. header_loop f 0 0 (head ++ rest)) {x = suc (length (head ++ rest))}
      (omega
        (arith, size, length-append head rest, length-header_lines hs, length-header_lines more))
    ∙ ap (header_loop (length hs + suc (length more + suc left)) 0 0) text
    ∙ header_loop-lines hs (suc (length more + suc left)) 0 0 _ all
    ∙ header_loop-length (length more + suc left) 0 p n (lines' ++ end) fits
    ∙ header_loop-lines more (suc left) n p' end all_more
    ∙ ap (λ m. done (some (m, n))) (omega (arith, size))
