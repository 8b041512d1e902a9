-- ===== src/Http/Conn/Tests.antt =====
-- A connection that reads half a request line, and one that has three bytes to send.
use orca_db.Base.{◌≡◌, refl, List, [], ◌∷◌, ◌++◌, Bytes, map, Run, done, Ends, arith}
use orca_db.Handler.{Response, respond}
use orca_db.Http.Conn.{
  Conn, conn_reading, conn_writing, ReadResult, got, read_again, took, handle_readable, remaining,
  handle_writable, build_resp, resp_head,
}
use orca_db.Http.Conn.Bounds.{KeepsRoom, handle_readable-Ends}
use orca_db.Http.Conn.Written.{reset, build_resp-whole, handle_writable-reset}
use orca_db.Http.Parse.{parse_http_req}
use orca_db.Http.Request.{Request}
use orca_db.Http.Route.{handle_404}

abbrev not_found : Bytes → Request → Run Response
not_found buf req = done handle_404

abbrev idle : Conn
idle = record { state = conn_reading; read_buf = []; write_buf = []; write_pos = 0 }

-- "GET / HTTP/1.1", its line end and the empty line, in two reads.
abbrev reads : List ReadResult
reads =
    got (71 ∷ 69 ∷ 84 ∷ 32 ∷ 47 ∷ 32 ∷ [])
    ∷ got (72 ∷ 84 ∷ 84 ∷ 80 ∷ 13 ∷ 10 ∷ 13 ∷ 10 ∷ 33 ∷ [])
    ∷ read_again
    ∷ []

answered :
    handle_readable not_found reads idle
    ≡ done (record {
      state = conn_writing;
      read_buf = 33 ∷ [];
      write_buf = resp_head handle_404 ++ handle_404.text;
      write_pos = 0;
    })
unfolding handle_readable parse_http_req build_resp resp_head
answered = refl

handle_readable-Ends_example : Ends KeepsRoom (handle_readable not_found reads idle)
handle_readable-Ends_example =
    handle_readable-Ends not_found (λ buf req. tt) reads idle (omega arith)

abbrev sending : Conn
sending = record { state = conn_writing; read_buf = []; write_buf = 1 ∷ 2 ∷ 3 ∷ []; write_pos = 0 }

handle_writable-reset_example :
    handle_writable (map took (1 ∷ 2 ∷ [])) sending ≡ (remaining sending, reset sending)
handle_writable-reset_example =
    handle_writable-reset (1 ∷ 2 ∷ []) sending (omega arith, (omega arith, tt)) refl

build_resp-whole_example :
    build_resp (respond 200 (7 ∷ [])) ≡ done (resp_head (respond 200 (7 ∷ [])) ++ (7 ∷ []))
build_resp-whole_example = build_resp-whole 200 (7 ∷ []) (omega arith)
