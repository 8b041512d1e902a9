-- ===== src/Http/Parse/Lines.antt =====
-- The header loop over lines that give no length.
use orca_db.Base.{
  ℕ, suc, ◌+◌, ◌-◌, ◌≤◌, ◌≡◌, ◌∙◌, refl, ap, false, some, List, [], ◌∷◌, ◌++◌, Bytes, All, length,
  length-append, take, leb, bytes_eq, ◌==◌, done, Bool-cases, inl, inr, arith,
}
use mathlib.Core.List.{append_assoc}
use mathlib.Core.Path.{ap₂}
use orca_db.Http.Parse.{
  skip, is_newline, skip_line, parse_length, content_length_name, header_loop, parse_headers,
}
use orca_db.Http.Parse.Query.{scan-word}

-- It does not begin with a carriage return.
abbrev Starts : Bytes → Type 0
Starts [] = ⊥
Starts (c ∷ cs) = (c == 13) ≡ false

-- A line of a header, without its newline, that is not and does not become a Content-Length.
pub record IsHeader (h : Bytes) : Type 0 where
  pub starts : Starts h
  pub one_line : All (λ c. is_newline c ≡ false) h
  pub other : (rest : Bytes) → bytes_eq (take 15 (h ++ rest)) content_length_name ≡ false

-- The lines, each with its newline.
abbrev pub header_lines : List Bytes → Bytes
header_lines [] = []
header_lines (h ∷ hs) = h ++ (10 ∷ header_lines hs)

parse_length-other :
    (old p : ℕ) (rest : Bytes)
    → bytes_eq (take 15 rest) content_length_name ≡ false
    → parse_length old p rest ≡ done (old, p, rest)
unfolding parse_length
parse_length-other old p rest e = elim (Bool-cases (leb 15 (length rest))) [
  | inl long ↦ rw long (rw e refl)
  | inr short ↦ rw short refl
]

pub skip_line-header :
    (p : ℕ) (h rest : Bytes)
    → All (λ c. is_newline c ≡ false) h
    → skip_line p (h ++ (10 ∷ rest)) ≡ (p + length h + 1, rest)
unfolding skip_line skip
skip_line-header p h rest one_line =
    ap (λ r. skip 10 r.0 r.1) (scan-word is_newline p h 10 rest one_line refl)

header_loop-next :
    (fuel len p a b : ℕ) (rest : Bytes)
    → (a == 13) ≡ false
    → parse_length len p (a ∷ b ∷ rest) ≡ done (len, p, a ∷ b ∷ rest)
    → header_loop (suc fuel) len p (a ∷ b ∷ rest)
      ≡ header_loop fuel len (skip_line p (a ∷ b ∷ rest)).0 (skip_line p (a ∷ b ∷ rest)).1
unfolding header_loop
header_loop-next fuel len p a b rest start read = rw start (rw read refl)

header_loop-header :
    (fuel len p : ℕ) (h rest : Bytes)
    → IsHeader h
    → header_loop (suc fuel) len p (h ++ (10 ∷ rest)) ≡ header_loop fuel len (p + length h + 1) rest
header_loop-header fuel len p [] rest is = absurd is.starts
header_loop-header fuel len p (a ∷ []) rest is =
    header_loop-next fuel len p a 10 rest is.starts
      (parse_length-other len p (a ∷ 10 ∷ rest) (is.other (10 ∷ rest)))
    ∙ ap (λ r. header_loop fuel len r.0 r.1) (skip_line-header p (a ∷ []) rest is.one_line)
header_loop-header fuel len p (a ∷ b ∷ h) rest is =
    header_loop-next fuel len p a b (h ++ (10 ∷ rest)) is.starts
      (parse_length-other len p (a ∷ b ∷ (h ++ (10 ∷ rest))) (is.other (10 ∷ rest)))
    ∙ ap (λ r. header_loop fuel len r.0 r.1) (skip_line-header p (a ∷ b ∷ h) rest is.one_line)

-- The loop passes over the lines, one round for each.
pub header_loop-lines :
    (hs : List Bytes) (fuel len p : ℕ) (rest : Bytes)
    → All IsHeader hs
    → header_loop (length hs + fuel) len p (header_lines hs ++ rest)
      ≡ header_loop fuel len (p + length (header_lines hs)) rest
header_loop-lines [] fuel len p rest all =
    ap₂ (λ f q. header_loop f len q rest) (omega arith) (omega arith)
header_loop-lines (x ∷ hs) fuel len p rest all =
    ap (λ f. header_loop f len p ((x ++ (10 ∷ header_lines hs)) ++ rest)) (omega arith)
    ∙ ap (header_loop (suc (length hs + fuel)) len p) (append_assoc x (10 ∷ header_lines hs) rest)
    ∙ header_loop-header (length hs + fuel) len p x (header_lines hs ++ rest) all.0
    ∙ header_loop-lines hs fuel len (p + length x + 1) rest all.1
    ∙ ap (λ q. header_loop fuel len q rest) (omega (arith, length-append x (10 ∷ header_lines hs)))

pub length-header_lines : (hs : List Bytes) → length hs ≤ length (header_lines hs)
length-header_lines [] = omega arith
length-header_lines (h ∷ hs) =
    omega (arith, length-append h (10 ∷ header_lines hs), length-header_lines hs)

-- What `parse_headers` reads of text that stands in front of anything: its end, and a length.
abbrev pub Gives : Bytes → ℕ → Type 0
Gives head len = (rest : Bytes) → parse_headers (head ++ rest) ≡ done (some (length head, len))

-- The lines, and the empty line that ends the headers.
abbrev pub plain_head : List Bytes → Bytes
plain_head hs = header_lines hs ++ (13 ∷ 10 ∷ [])

pub plain_head-Gives : (hs : List Bytes) → All IsHeader hs → Gives (plain_head hs) 0
unfolding parse_headers header_loop
plain_head-Gives hs all rest =
    let text = plain_head hs ++ rest in
    let left = length text - length hs in
    ap (λ f. header_loop f 0 0 text) {x = suc (length text)}
      (omega (
        arith,
        length-header_lines hs,
        length-append (header_lines hs) (13 ∷ 10 ∷ []),
        length-append (plain_head hs) rest,
      ))
    ∙ ap (header_loop (length hs + suc left) 0 0)
        (append_assoc (header_lines hs) (13 ∷ 10 ∷ []) rest)
    ∙ header_loop-lines hs (suc left) 0 0 (13 ∷ 10 ∷ rest) all
    ∙ ap (λ n. done (some (n, 0))) (omega (arith, length-append (header_lines hs) (13 ∷ 10 ∷ [])))
