-- ===== src/Http/Parse.antt =====
-- misc/http/parse.c. `p` is an index into the buffer and `rest` the bytes from there to `end`.
-- A parser that returns -1 leaves fields of `req` half written; no caller reads them, since every
-- field is written again before the next request is routed. `none` stands for -1.
pub mod Bounds
pub mod Headers
pub mod Whole
pub mod Lines
pub mod Length
pub mod Query
pub mod Printed
pub mod Body
mod Tests
use orca_db.Base.{
  ℕ, zero, suc, ◌+◌, ◌-◌, ◌*◌, ◌^◌, Bool, true, false, ◌&&◌, ◌||◌, not, Option, none, some, List,
  [], ◌∷◌, Bytes, length, take, drop, bytes_eq, ltb, leb, ◌==◌, if◌then◌else◌, Run, done, fault,
  out_of_fuel, ◌>>=◌,
}
use orca_db.Http.Request.{Span, Param, Request}

-- `while (p < end && !stop(*p)) p++`
unfoldable pub scan : (ℕ → Bool) → ℕ → Bytes → ℕ × Bytes
scan stop p [] = (p, [])
scan stop p (c ∷ rest) = if stop c then (p, c ∷ rest) else scan stop (p + 1) rest

abbrev pub is_space : ℕ → Bool
is_space c = c == b' '

abbrev pub ends_path : ℕ → Bool
ends_path c = c == b' ' || c == b'?'

abbrev pub ends_key : ℕ → Bool
ends_key c = c == b'=' || (c == b'&' || c == b' ')

abbrev pub ends_val : ℕ → Bool
ends_val c = c == b'&' || c == b' '

abbrev pub is_newline : ℕ → Bool
is_newline c = c == 10

-- `if (p < end && *p == c) p++`
unfoldable pub skip : ℕ → ℕ → Bytes → ℕ × Bytes
skip c p [] = (p, [])
skip c p (d ∷ rest) = if d == c then (p + 1, rest) else (p, d ∷ rest)

-- The value of a parameter: after `=` up to `&` or a space, or the literal "".
unfoldable pub parse_val : ℕ → Bytes → Option Span × ℕ × Bytes
unfolding scan
parse_val p [] = (none, p, [])
parse_val p (c ∷ rest) =
    let (p', rest') = scan ends_val (p + 1) rest in
    if c == b'='
    then (some (record { start = p + 1; len = p' - (p + 1) }), p', rest')
    else (none, p, c ∷ rest)

-- The loop over the parameters, with `left` entries of `params[8]` still free.
unfoldable pub parse_params : ℕ → ℕ → Bytes → List Param × ℕ × Bytes
unfolding parse_val skip
parse_params zero p rest = ([], p, rest)
parse_params (suc left) p [] = ([], p, [])
parse_params (suc left) p (c ∷ rest) =
    let (p₁, rest₁) = scan ends_key p (c ∷ rest) in
    let (val, p₂, rest₂) = parse_val p₁ rest₁ in
    let (p₃, rest₃) = skip b'&' p₂ rest₂ in
    let (params, p₄, rest₄) = parse_params left p₃ rest₃ in
    if c == b' '
    then ([], p, c ∷ rest)
    else (record { key = record { start = p; len = p₁ - p }; val = val } ∷ params, p₄, rest₄)

-- `if (*p == '?')`
unfoldable pub parse_query : ℕ → ℕ → Bytes → List Param × ℕ × Bytes
unfolding parse_params
parse_query c p rest = if c == b'?' then parse_params 8 (p + 1) rest else ([], p, c ∷ rest)

-- The rest of the line, its newline included.
unfoldable pub skip_line : ℕ → Bytes → ℕ × Bytes
unfolding scan skip
skip_line p rest = let (p', rest') = scan is_newline p rest in skip 10 p' rest'

-- From the path on, which begins at `p`.
unfoldable pub parse_path : Span → ℕ → ℕ × Bytes → Option (ℕ × Request)
unfolding parse_query skip_line
parse_path method p (p', []) = none
parse_path method p (p', c ∷ rest) =
    let (params, p₁, rest₁) = parse_query c p' rest in
    let (p₂, _) = skip_line p₁ rest₁ in
    some (
      p₂,
      record {
        method = method;
        path = record { start = p; len = p' - p };
        params = params;
        content_length = 0;
        body = none;
      },
    )

unfoldable pub parse_method : ℕ × Bytes → Option (ℕ × Request)
unfolding parse_path scan
parse_method (p, []) = none
parse_method (p, _ ∷ rest) =
    parse_path (record { start = 0; len = p }) (p + 1) (scan ends_path (p + 1) rest)

unfoldable pub parse_req_line : Bytes → Option (ℕ × Request)
unfolding parse_method
parse_req_line buf = parse_method (scan is_space 0 buf)

abbrev pub int_max : ℕ
int_max = 2 ^ 31 - 1

-- "Content-Length:"
abbrev pub content_length_name : Bytes
content_length_name =
    67 ∷ 111 ∷ 110 ∷ 116 ∷ 101 ∷ 110 ∷ 116 ∷ 45 ∷ 76 ∷ 101 ∷ 110 ∷ 103 ∷ 116 ∷ 104 ∷ 58 ∷ []

-- The digits of a length; a sum above INT_MAX is undefined in C.
unfoldable pub parse_digits : ℕ → ℕ → Bytes → Run (ℕ × ℕ × Bytes)
parse_digits len p [] = done (len, p, [])
parse_digits len p (c ∷ rest) =
    let more = parse_digits (len * 10 + (c - b'0')) (p + 1) rest in
    if not (leb b'0' c && leb c b'9')
    then done (len, p, c ∷ rest)
    else if ltb int_max (len * 10 + (c - b'0'))
    then fault
    else more

abbrev pub not_blank : ℕ → Bool
not_blank c = not (c == b' ' || c == 9)

-- The header at `p`, if it is a Content-Length: the length, and where its digits end.
unfoldable pub parse_length : ℕ → ℕ → Bytes → Run (ℕ × ℕ × Bytes)
unfolding parse_digits scan
parse_length old p rest =
    let (p', rest') = scan not_blank (p + 15) (drop 15 rest) in
    if leb 15 (length rest) && bytes_eq (take 15 rest) content_length_name
    then parse_digits 0 p' rest'
    else done (old, p, rest)

-- The loop of `parse_headers`: `some` with the index after the empty line and the content length.
-- Each round drops a byte or ends, so one more than the length of the input is enough fuel.
unfoldable pub header_loop : ℕ → ℕ → ℕ → Bytes → Run (Option (ℕ × ℕ))
unfolding parse_length skip_line
header_loop zero len p rest = out_of_fuel
header_loop (suc fuel) len p [] = done none
header_loop (suc fuel) len p (a ∷ []) = done none
header_loop (suc fuel) len p (a ∷ b ∷ rest) =
    let next = do
      (len', p₁, rest₁) ← parse_length len p (a ∷ b ∷ rest)
      let (p₂, rest₂) = skip_line p₁ rest₁
      header_loop fuel len' p₂ rest₂
    in if a == 13 && b == 10 then done (some (p + 2, len)) else next

unfoldable pub parse_headers : Bytes → Run (Option (ℕ × ℕ))
unfolding header_loop
parse_headers buf = header_loop (suc (length buf)) 0 0 buf

-- The body, of `len` bytes from `pos` on.
unfoldable pub parse_body : ℕ → ℕ → ℕ → Request → Option (ℕ × Request)
parse_body total pos len req =
    if len == 0
    then some (pos, record req { content_length = 0; body = none })
    else if ltb (total - pos) len
    then none
    else some (
      pos + len,
      record req { content_length = len; body = some (record { start = pos; len = len }) },
    )

-- After the headers of a request whose line ends at `consumed`.
unfoldable pub parse_end : ℕ → ℕ → Request → Option (ℕ × ℕ) → Option (ℕ × Request)
unfolding parse_body
parse_end total consumed req none = none
parse_end total consumed req (some (header_consumed, content_length)) =
    parse_body total (consumed + header_consumed) content_length req

-- After the request line.
unfoldable pub parse_rest : Bytes → Option (ℕ × Request) → Run (Option (ℕ × Request))
unfolding parse_headers parse_end
parse_rest buf none = done none
parse_rest buf (some (consumed, req)) = do
  header ← parse_headers (drop consumed buf)
  done (parse_end (length buf) consumed req header)

-- `memchr` for the end of the first line; `buf` is the `read_total` bytes that have been read.
unfoldable pub parse_http_req : Bytes → Run (Option (ℕ × Request))
unfolding parse_rest parse_req_line
parse_http_req buf =
    let (eol, rest) = scan is_newline 0 buf in
    elim rest [ [] ↦ done none | _ ∷ _ ↦ parse_rest buf (parse_req_line (take (eol + 1) buf)) ]
