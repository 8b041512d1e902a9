-- ===== src/Http/Parse/Tests.antt =====
-- The parser on a request with a parameter and a body.
use orca_db.Base.{
  All, ℕ, List, drop, arith, ◌≡◌, refl, none, some, [], ◌∷◌, ◌++◌, Bytes, done, Ends,
}
use orca_db.Http.Request.{Span, Request}
use orca_db.Http.Parse.{is_space, ends_path, parse_req_line, parse_http_req}
use orca_db.Http.Parse.Bounds.{LineWithin, parse_req_line-LineWithin}
use orca_db.Http.Parse.Lines.{IsHeader, plain_head}
use orca_db.Http.Parse.Printed.{request_line, parse_http_req-printed}
use orca_db.Http.Parse.Query.{Reads, Spell, IsWord, AllWords}
use orca_db.Http.Parse.Body.{parse_http_req-body}
use orca_db.Http.Parse.Length.{body_head}
use orca_db.Http.Parse.Whole.{Parsed, parse_http_req-Ends}

-- "GET /db/get?key=a HTTP/1.1" and its line end.
abbrev line : Bytes
line =
    71 ∷ 69 ∷ 84 ∷ 32 ∷ 47 ∷ 100 ∷ 98 ∷ 47 ∷ 103 ∷ 101 ∷ 116 ∷ 63 ∷ 107 ∷ 101 ∷ 121 ∷ 61 ∷ 97 ∷ 32
    ∷ 72 ∷ 84 ∷ 84 ∷ 80 ∷ 47 ∷ 49 ∷ 46 ∷ 49 ∷ 13 ∷ 10 ∷ []

-- A header of length 2, the empty line, and "hi".
abbrev buf : Bytes
buf =
    line
    ++ 67 ∷ 111 ∷ 110 ∷ 116 ∷ 101 ∷ 110 ∷ 116 ∷ 45 ∷ 76 ∷ 101 ∷ 110 ∷ 103 ∷ 116 ∷ 104 ∷ 58 ∷ 32 ∷ 50
      ∷ 13 ∷ 10 ∷ 13 ∷ 10 ∷ 104 ∷ 105 ∷ []

abbrev span : ℕ → ℕ → Span
span start len = record { start = start; len = len }

abbrev parsed_line : ℕ × Request
parsed_line = (
  28,
  record {
    method = span 0 3;
    path = span 4 7;
    params = record { key = span 12 3; val = some (span 16 1) } ∷ [];
    content_length = 0;
    body = none;
  },
)

line_parses : parse_req_line line ≡ some parsed_line
unfolding parse_req_line
line_parses = refl

buf_parses :
    parse_http_req buf
    ≡ done (some (51, record parsed_line.1 { content_length = 2; body = some (span 49 2) }))
unfolding parse_http_req
buf_parses = refl

parse_req_line-LineWithin_example : LineWithin 28 parsed_line
parse_req_line-LineWithin_example = parse_req_line-LineWithin line parsed_line line_parses

parse_http_req-Ends_example : Ends (Parsed 51) (parse_http_req buf)
parse_http_req-Ends_example = parse_http_req-Ends buf

-- GET, and /db
abbrev method : Bytes
method = 71 ∷ 69 ∷ 84 ∷ []

abbrev path : Bytes
path = 47 ∷ 100 ∷ 98 ∷ []

-- k=v&w=
abbrev pairs : List (Bytes × Bytes)
pairs = (b'k' ∷ [], b'v' ∷ []) ∷ (b'w' ∷ [], []) ∷ []

-- Host:x and a carriage return
abbrev headers : List Bytes
headers = (72 ∷ 111 ∷ 115 ∷ 116 ∷ 58 ∷ 120 ∷ 13 ∷ []) ∷ []

headers-IsHeader : All IsHeader headers
headers-IsHeader = (
  record {
    starts = refl;
    one_line = (refl, (refl, (refl, (refl, (refl, (refl, (refl, tt)))))));
    other = λ rest. refl;
  },
  tt,
)

method-IsWord : IsWord is_space method
method-IsWord = record {
  passes = (refl, (refl, (refl, tt)));
  one_line = (refl, (refl, (refl, tt)));
}

path-IsWord : IsWord ends_path path
path-IsWord = record { passes = (refl, (refl, (refl, tt))); one_line = (refl, (refl, (refl, tt))) }

pairs-AllWords : AllWords pairs
pairs-AllWords = (
  record { passes = (refl, tt); one_line = (refl, tt) },
  record { passes = (refl, tt); one_line = (refl, tt) },
  (
    record { passes = (refl, tt); one_line = (refl, tt) },
    record { passes = tt; one_line = tt },
    tt,
  ),
)

-- The line end of the version, one header, and two bytes of the next request.
parse_http_req-printed_example :
    let buf =
      request_line method path pairs (13 ∷ []) [] ++ (plain_head headers ++ (71 ∷ 69 ∷ [])) in
    (n : ℕ) × (req : Request) × (parse_http_req buf ≡ done (some (n, req)))
    × Reads buf req.method method
    × Reads buf req.path path
    × Spell buf req.params pairs
    × (req.content_length ≡ 0)
    × (drop n buf ≡ 71 ∷ 69 ∷ [])
parse_http_req-printed_example =
    parse_http_req-printed method path (13 ∷ []) pairs method-IsWord path-IsWord (omega arith)
      pairs-AllWords (refl, tt) headers (71 ∷ 69 ∷ []) headers-IsHeader

-- A body of two bytes, and one of the next request.
parse_http_req-body_example :
    let buf =
      request_line method path pairs (13 ∷ []) []
      ++ (body_head headers 2 headers ++ ((1 ∷ 10 ∷ []) ++ (71 ∷ []))) in
    (n : ℕ) × (req : Request) × (span : Span) × (parse_http_req buf ≡ done (some (n, req)))
    × Reads buf req.method method
    × Reads buf req.path path
    × Spell buf req.params pairs
    × (req.content_length ≡ 2)
    × (req.body ≡ some span)
    × Reads buf span (1 ∷ 10 ∷ [])
    × (drop n buf ≡ 71 ∷ [])
parse_http_req-body_example =
    parse_http_req-body method path (13 ∷ []) pairs headers headers (1 ∷ 10 ∷ []) (71 ∷ [])
      method-IsWord path-IsWord (omega arith) pairs-AllWords (refl, tt) headers-IsHeader
      headers-IsHeader (omega arith) (omega arith)
