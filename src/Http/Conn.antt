-- ===== src/Http/Conn.antt =====
-- misc/http/response.c and conn.c: the response writer, and the connection as a state machine.
-- A connection sees the kernel through the results of its `read` and `send` calls, one for each
-- round of a loop; a loop that finds none left is told that the call would block.
pub mod Written
pub mod Bounds
mod Tests
use orca_db.Aof.{digits}
use orca_db.Base.{
  ℕ, zero, suc, ◌+◌, ◌-◌, Bool, true, false, Option, none, some, List, [], ◌∷◌, ◌++◌, Bytes, length,
  take, drop, min, ltb, leb, ◌==◌, if◌then◌else◌, Run, done, fault, out_of_fuel, ◌>>=◌,
}
use orca_db.Handler.{Response, resp_buffer_size}
use orca_db.Http.Parse.{parse_http_req}
use orca_db.Http.Request.{Request}

-- HTTP/1.1
abbrev pub http_version : Bytes
http_version = 72 ∷ 84 ∷ 84 ∷ 80 ∷ 47 ∷ 49 ∷ 46 ∷ 49 ∷ 32 ∷ []

-- OK
abbrev pub reason_ok : Bytes
reason_ok = 79 ∷ 75 ∷ []

-- Not Found
abbrev pub reason_not_found : Bytes
reason_not_found = 78 ∷ 111 ∷ 116 ∷ 32 ∷ 70 ∷ 111 ∷ 117 ∷ 110 ∷ 100 ∷ []

-- Error
abbrev pub reason_error : Bytes
reason_error = 69 ∷ 114 ∷ 114 ∷ 111 ∷ 114 ∷ []

-- \r\nContent-Type: application/json\r\nContent-Length:
abbrev pub header_type : Bytes
header_type =
    13 ∷ 10 ∷ 67 ∷ 111 ∷ 110 ∷ 116 ∷ 101 ∷ 110 ∷ 116 ∷ 45 ∷ 84 ∷ 121 ∷ 112 ∷ 101 ∷ 58 ∷ 32 ∷ 97
    ∷ 112 ∷ 112 ∷ 108 ∷ 105 ∷ 99 ∷ 97 ∷ 116 ∷ 105 ∷ 111 ∷ 110 ∷ 47 ∷ 106 ∷ 115 ∷ 111 ∷ 110 ∷ 13 ∷ 10
    ∷ 67 ∷ 111 ∷ 110 ∷ 116 ∷ 101 ∷ 110 ∷ 116 ∷ 45 ∷ 76 ∷ 101 ∷ 110 ∷ 103 ∷ 116 ∷ 104 ∷ 58 ∷ 32 ∷ []

-- \r\nConnection: keep-alive\r\nCache-Control: no-cache\r\n\r\n
abbrev pub header_end : Bytes
header_end =
    13 ∷ 10 ∷ 67 ∷ 111 ∷ 110 ∷ 110 ∷ 101 ∷ 99 ∷ 116 ∷ 105 ∷ 111 ∷ 110 ∷ 58 ∷ 32 ∷ 107 ∷ 101 ∷ 101
    ∷ 112 ∷ 45 ∷ 97 ∷ 108 ∷ 105 ∷ 118 ∷ 101 ∷ 13 ∷ 10 ∷ 67 ∷ 97 ∷ 99 ∷ 104 ∷ 101 ∷ 45 ∷ 67 ∷ 111
    ∷ 110 ∷ 116 ∷ 114 ∷ 111 ∷ 108 ∷ 58 ∷ 32 ∷ 110 ∷ 111 ∷ 45 ∷ 99 ∷ 97 ∷ 99 ∷ 104 ∷ 101 ∷ 13 ∷ 10
    ∷ 13 ∷ 10 ∷ []

unfoldable pub reason : ℕ → Bytes
reason status =
    if status == 200 then reason_ok else if status == 404 then reason_not_found else reason_error

-- Both `snprintf` calls.
unfoldable pub resp_head : Response → Bytes
unfolding reason digits
resp_head res =
    (http_version ++ (digits res.status ++ (32 ∷ reason res.status)))
    ++ (header_type ++ (digits res.body_len ++ header_end))

-- The bytes of `write_buf` up to `write_total`. The head always fits; a body that does not is copied
-- over the end of the buffer.
unfoldable pub build_resp : Response → Run Bytes
unfolding resp_head
build_resp res =
    if ltb resp_buffer_size (length (resp_head res) + res.body_len)
    then fault
    else done (resp_head res ++ take res.body_len res.text)

pub data ConnState : Type 0 where
  conn_reading conn_writing conn_close conn_proxy : ConnState

-- `read_buf` holds the `read_total` bytes that have been read, `write_buf` the `write_total` bytes
-- to be sent.
pub record Conn : Type 0 where
  pub state : ConnState
  pub read_buf : Bytes
  pub write_buf : Bytes
  pub write_pos : ℕ

abbrev pub buffer_size : ℕ
buffer_size = 16384

-- What a call of `read` finds: bytes, of which it takes what fits into the space it is given, the end
-- of the stream, a failure, or that it would block.
pub data ReadResult : Type 0 where
  got : Bytes → ReadResult
  end_of_stream read_failed read_again : ReadResult

abbrev pub closed : Conn → Conn
closed ctx = record ctx { state = conn_close }

module _ (respond_to : Bytes → Request → Run Response) where
  -- Once a request is parsed: route it, build the response, and keep the bytes behind it.
  unfoldable pub answer : Conn → ℕ × Request → Run Conn
  unfolding build_resp
  answer ctx (consumed, req) = do
    res ← respond_to ctx.read_buf req
    out ← build_resp res
    done (record {
      state = conn_writing;
      read_buf = drop consumed ctx.read_buf;
      write_buf = out;
      write_pos = 0;
    })

  unfoldable pub handle_readable : List ReadResult → Conn → Run Conn
  unfolding answer
  handle_readable [] ctx = done (if leb buffer_size (length ctx.read_buf) then closed ctx else ctx)
  handle_readable (r ∷ results) ctx =
      let full = leb buffer_size (length ctx.read_buf) in
      let space = buffer_size - length ctx.read_buf in
      let next : Run Conn = elim r [
        | read_again ↦ done ctx
        | read_failed ↦ done (closed ctx)
        | end_of_stream ↦ done (closed ctx)
        | got bytes ↦
            let ctx' = record ctx { read_buf = ctx.read_buf ++ take space bytes } in
            let more = handle_readable results ctx' in
            let parse = parse_http_req ctx'.read_buf >>= λ parsed. elim parsed [
              | none ↦ more
              | some p ↦ if p.0 == 0 then more else answer ctx' p
            ] in
            if length (take space bytes) == 0 then done (closed ctx) else parse
      ] in
      if full then done (closed ctx) else next

-- What a call of `send` finds: room for a number of bytes, of which it fills what it is given bytes
-- for, a failure, or that it would block.
pub data SendResult : Type 0 where
  took : ℕ → SendResult
  send_failed send_again : SendResult

-- After the loop.
unfoldable pub finish_writing : Conn → Conn
finish_writing ctx =
    if leb (length ctx.write_buf) ctx.write_pos
    then record ctx { state = conn_reading; write_buf = []; write_pos = 0 }
    else ctx

-- The bytes from `write_pos` to `write_total`, which `send` is given.
abbrev pub remaining : Conn → Bytes
remaining ctx = drop ctx.write_pos ctx.write_buf

-- The bytes that are sent, and the connection.
unfoldable pub handle_writable : List SendResult → Conn → Bytes × Conn
unfolding finish_writing
handle_writable [] ctx = ([], finish_writing ctx)
handle_writable (r ∷ results) ctx =
    let next : Bytes × Conn = elim r [
      | send_again ↦ ([], finish_writing ctx)
      | send_failed ↦ ([], closed ctx)
      | took room ↦
          let n = min room (length ctx.write_buf - ctx.write_pos) in
          let more = handle_writable results (record ctx { write_pos = ctx.write_pos + n }) in
          if n == 0 then ([], closed ctx) else (take n (remaining ctx) ++ more.0, more.1)
    ] in
    if leb (length ctx.write_buf) ctx.write_pos then ([], finish_writing ctx) else next
