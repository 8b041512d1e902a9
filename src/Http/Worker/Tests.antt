-- ===== src/Http/Worker/Tests.antt =====
-- A worker that accepts a connection, reads a request in two parts, and answers it.
use orca_db.Base.{
  ◌≡◌, refl, true, false, some, List, [], ◌∷◌, Bytes, All, get_elem?, Run, done, Yields, arith,
}
use orca_db.Handler.{Response}
use orca_db.Http.Conn.{
  conn_reading, closed, got, read_again, took, handle_readable, resp_head, build_resp,
}
use orca_db.Http.Parse.{parse_http_req}
use orca_db.Http.Request.{Request}
use orca_db.Http.Route.{handle_ping}
use orca_db.Http.Worker.Pool.{origin_at, accept_all-origin, worker_events-exhausted}
use orca_db.Http.Worker.Watching.{IsWatched, worker_events-AllWatched}
use orca_db.Http.Worker.{
  pooled, calloced, reads, gone, Worker, Event, incoming, ready, accepted, accept_all, handle_event,
  worker_events,
}

-- GET / HTTP/1.1\r\n, and the end of the headers.
abbrev first_part : Bytes
first_part = 71 ∷ 69 ∷ 84 ∷ 32 ∷ 47 ∷ 32 ∷ 72 ∷ 84 ∷ 84 ∷ 80 ∷ 47 ∷ 49 ∷ 46 ∷ 49 ∷ 13 ∷ 10 ∷ []

abbrev second_part : Bytes
second_part = 13 ∷ 10 ∷ []

abbrev ping : Bytes → Request → Run Response
ping buf req = done handle_ping

abbrev events : List Event
events =
    incoming 1
    ∷ ready 0 false true [] []
    ∷ ready 0 true false (got first_part ∷ read_again ∷ []) []
    ∷ ready 0 true false (got second_part ∷ []) []
    ∷ ready 0 false true [] (took 100 ∷ took 35 ∷ [])
    ∷ []

abbrev idle : Worker
idle = record { conns = []; next = 0 }

-- It ends with all sent, watched for the next request.
events_run :
    worker_events ping events idle
    ≡ done (record {
      conns =
          record {
            origin = pooled 0;
            ctx = record { state = conn_reading; read_buf = []; write_buf = []; write_pos = 0 };
            watch = reads;
          }
          ∷ [];
      next = 1;
    })
unfolding worker_events handle_readable resp_head build_resp parse_http_req
events_run = refl

worker_events-AllWatched_example :
    Yields (λ w. All IsWatched w.conns) (worker_events ping events idle)
worker_events-AllWatched_example = worker_events-AllWatched ping events idle tt

-- One connection, and twenty thousand after it.
abbrev many : Worker
many = accept_all 20000 (accept_all 1 idle)

many_run : worker_events ping (incoming 1 ∷ incoming 20000 ∷ []) idle ≡ done many
unfolding worker_events
many_run = refl

many_last : get_elem? many.conns 20000 ≡ some (accepted (origin_at 20000))
unfolding accept_all
many_last = accept_all-origin 20000 19999 (accept_all 1 idle) refl (omega arith)

worker_events-exhausted_example :
    let c = accepted (origin_at 20000) in
    (c.origin ≡ calloced)
    × (handle_event ping true false (got first_part ∷ []) [] c
        ≡ done (record c { ctx = closed c.ctx; watch = gone }))
unfolding accepted
worker_events-exhausted_example =
    worker_events-exhausted ping (incoming 1 ∷ incoming 20000 ∷ []) many 20000
      (accepted (origin_at 20000)) first_part [] false [] many_run many_last (omega arith) refl
