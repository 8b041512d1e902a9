-- ===== src/Http/Worker.antt =====
-- misc/http/worker.c: the loop of `worker_thread` over the events that `epoll_wait` gives, and
-- misc/http/conn.c: `alloc_conn`. The socket and epoll calls are taken to succeed. A connection is
-- known by its place in the order of acceptance, as the code knows it by its context.
pub mod Pool
pub mod Watching
mod Tests
use orca_db.Base.{
  ℕ, zero, suc, ◌+◌, Bool, true, false, ◌&&◌, Option, none, some, List, [], ◌∷◌, ◌++◌, Bytes, leb,
  get_elem?, set, if◌then◌else◌, Run, done, fault, ◌>>=◌,
}
use orca_db.Handler.{Response}
use orca_db.Http.Conn.{
  Conn, ConnState, conn_reading, conn_writing, conn_close, conn_proxy, ReadResult, got,
  end_of_stream, read_failed, read_again, SendResult, closed, handle_readable, handle_writable,
}
use orca_db.Http.Request.{Request}

abbrev pub conn_pool_size : ℕ
conn_pool_size = 16384

-- Where a context comes from: an entry of the pool, or `calloc`, which sets no buffers.
pub data Origin : Type 0 where
  pooled : ℕ → Origin
  calloced : Origin

-- The context and the next `conn_pool_next`. An entry of the pool is handed out once, so that
-- `malloc`, which is taken to succeed, serves its buffers.
unfoldable pub alloc_conn : ℕ → Origin × ℕ
alloc_conn next = if leb conn_pool_size next then (calloced, next) else (pooled next, next + 1)

-- What a socket is watched for, once: EPOLLIN and EPOLLOUT, one of them, or it is closed.
pub data Watch : Type 0 where
  reads_and_writes reads writes gone : Watch

pub record Watched : Type 0 where
  pub origin : Origin
  pub ctx : Conn
  pub watch : Watch

abbrev pub is_reading : ConnState → Bool
is_reading conn_reading = true
is_reading conn_writing = false
is_reading conn_close = false
is_reading conn_proxy = false

abbrev pub is_writing : ConnState → Bool
is_writing conn_reading = false
is_writing conn_writing = true
is_writing conn_close = false
is_writing conn_proxy = false

-- After the handlers: a closed connection is taken out, any other is watched again.
abbrev pub watch_for : ConnState → Watch
watch_for conn_reading = reads
watch_for conn_writing = writes
watch_for conn_close = gone
watch_for conn_proxy = writes

-- A connection as it is accepted.
unfoldable pub accepted : Origin → Watched
accepted origin = record {
  origin = origin;
  ctx = record { state = conn_reading; read_buf = []; write_buf = []; write_pos = 0 };
  watch = reads_and_writes;
}

-- What a worker's loop changes: its connections and `conn_pool_next`.
pub record Worker : Type 0 where
  pub conns : List Watched
  pub next : ℕ

-- An event of the listening socket, with the number of connections that wait, or of a connection,
-- with the bits EPOLLIN and EPOLLOUT, and what the calls of `read` and `send` will give.
pub data Event : Type 0 where
  incoming : ℕ → Event
  ready : ℕ → Bool → Bool → List ReadResult → List SendResult → Event

-- The loop over `accept4`.
unfoldable pub accept_all : ℕ → Worker → Worker
unfolding alloc_conn accepted
accept_all zero w = w
accept_all (suc n) w =
    let (origin, next) = alloc_conn w.next in
    accept_all n (record { conns = w.conns ++ (accepted origin ∷ []); next = next })

module _ (respond_to : Bytes → Request → Run Response) where
  -- `handle_readable`; without a read buffer, `read` fails with EFAULT if there is anything to read.
  unfoldable pub readable : Origin → List ReadResult → Conn → Run Conn
  unfolding handle_readable
  readable (pooled i) results ctx = handle_readable respond_to results ctx
  readable calloced [] ctx = done ctx
  readable calloced (read_again ∷ results) ctx = done ctx
  readable calloced (read_failed ∷ results) ctx = done (closed ctx)
  readable calloced (end_of_stream ∷ results) ctx = done (closed ctx)
  readable calloced (got bytes ∷ results) ctx = done (closed ctx)

  -- The branch of a connection: both handlers, each if its bit is set and the state is its own. The
  -- bytes that are sent are not followed here.
  unfoldable pub handle_event :
      Bool → Bool → List ReadResult → List SendResult → Watched → Run Watched
  unfolding readable handle_writable
  handle_event epoll_in epoll_out results sends c =
      let read_it = readable c.origin results c.ctx in
      (if epoll_in && is_reading c.ctx.state then read_it else done c.ctx) >>= λ ctx.
      let written = (handle_writable sends ctx).1 in
      let ctx' : Conn = if epoll_out && is_writing ctx.state then written else ctx in
      done (record c { ctx = ctx'; watch = watch_for ctx'.state })

  unfoldable pub worker_event : Event → Worker → Run Worker
  unfolding accept_all handle_event
  worker_event (incoming n) w = done (accept_all n w)
  worker_event (ready i epoll_in epoll_out results sends) w = elim (get_elem? w.conns i) [
    | none ↦ fault
    | some c ↦ handle_event epoll_in epoll_out results sends c >>= λ c'.
        done (record w { conns = set w.conns i c' })
  ]

  -- The events of one or more calls of `epoll_wait`.
  unfoldable pub worker_events : List Event → Worker → Run Worker
  unfolding worker_event
  worker_events [] w = done w
  worker_events (e ∷ events) w = worker_event e w >>= worker_events events
