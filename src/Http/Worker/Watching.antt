-- ===== src/Http/Worker/Watching.antt =====
-- What holds of every connection of a worker: its state, what it is watched for, and what it has
-- to send.
use orca_db.Base.{
  ℕ, zero, suc, ◌+◌, ◌-◌, ◌<◌, ◌≡◌, refl, sym, subst, Bool, true, false, ◌&&◌, Option, none, some,
  List, [], ◌∷◌, ◌++◌, Bytes, length, take, min, length-append, leb, ltb, leb-lt, get_elem?, All,
  All-get, All-set, All-append, ◌==◌, if◌then◌else◌, Bool-cases, Option-cases, inl, inr, Run, done,
  fault, Yields, Yields-bind, Yields-any, arith,
}
use orca_db.Handler.{Response, resp_buffer_size}
use orca_db.Http.Conn.{
  Conn, ConnState, conn_reading, conn_writing, conn_close, conn_proxy, ReadResult, got,
  end_of_stream, read_failed, read_again, SendResult, took, send_failed, send_again, closed,
  buffer_size, resp_head, build_resp, answer, handle_readable, finish_writing, remaining,
  handle_writable,
}
use orca_db.Http.Parse.{parse_http_req}
use orca_db.Http.Request.{Request}
use orca_db.Http.Worker.{
  Origin, pooled, calloced, Watch, reads_and_writes, reads, writes, gone, Watched, Worker, Event,
  incoming, ready, is_reading, is_writing, watch_for, accepted, accept_all, readable, handle_event,
  worker_event, worker_events,
}

-- A connection that reads has nothing to send; one that writes has.
abbrev pub SoundIn : ConnState → ℕ → Bytes → Type 0
SoundIn conn_reading pos buf = pos ≡ length buf
SoundIn conn_writing pos buf = pos < length buf
SoundIn conn_close pos buf = Unit
SoundIn conn_proxy pos buf = ⊥

abbrev pub Sound : Conn → Type 0
Sound ctx = SoundIn ctx.state ctx.write_pos ctx.write_buf

abbrev pub Matches : Watch → ConnState → Type 0
Matches reads_and_writes state = state ≡ conn_reading
Matches reads state = state ≡ conn_reading
Matches writes state = state ≡ conn_writing
Matches gone state = state ≡ conn_close

-- The invariant of one connection.
pub record IsWatched (c : Watched) : Type 0 where
  pub sound : Sound c.ctx
  pub watched : Matches c.watch c.ctx.state

resp_head-long : (res : Response) → 0 < length (resp_head res)
unfolding resp_head
resp_head-long res = omega arith

build_resp-long : (res : Response) → Yields (λ out. 0 < length out) (build_resp res)
unfolding build_resp
build_resp-long res =
    let head = resp_head res in
    let outcome = λ (b : Bool).
      Yields (λ (out : Bytes). 0 < length out)
        (if b then fault else done (head ++ take res.body_len res.text)) in
    elim (Bool-cases (ltb resp_buffer_size (length head + res.body_len))) [
      | inl e ↦ subst outcome (sym e) tt
      | inr e ↦
          subst outcome (sym e)
            (omega (arith, resp_head-long res, length-append head (take res.body_len res.text)))
    ]

if-Yields {ℓ κ} :
    {A : Type ℓ} (Q : A → Type κ) (b : Bool) (x y : Run A)
    → Yields Q x
    → Yields Q y
    → Yields Q (if b then x else y)
if-Yields Q true x y p q = p
if-Yields Q false x y p q = q

module _ (respond_to : Bytes → Request → Run Response) where
  answer-Sound : (ctx : Conn) (p : ℕ × Request) → Yields Sound (answer respond_to ctx p)
  unfolding answer
  answer-Sound ctx p = Yields-any Sound (respond_to ctx.read_buf p.1) _ (λ res.
      Yields-bind (λ out. 0 < length out) Sound (build_resp res) _ (build_resp-long res)
        (λ out h. h))

  after_parse-Sound :
      (ctx : Conn) (more : Run Conn) (parsed : Option (ℕ × Request))
      → Yields Sound more
      → Yields Sound (elim parsed [
        | none ↦ more
        | some p ↦ if p.0 == 0 then more else answer respond_to ctx p
      ])
  after_parse-Sound ctx more none k = k
  after_parse-Sound ctx more (some p) k =
      if-Yields Sound (p.0 == 0) more (answer respond_to ctx p) k (answer-Sound ctx p)

  unless_full :
      (ctx : Conn) (next : Run Conn)
      → Yields Sound next
      → Yields Sound (if leb buffer_size (length ctx.read_buf) then done (closed ctx) else next)
  unless_full ctx next k =
      if-Yields Sound (leb buffer_size (length ctx.read_buf)) (done (closed ctx)) next tt k

  readable-Sound :
      (results : List ReadResult) (ctx : Conn)
      → Sound ctx
      → ctx.state ≡ conn_reading
      → Yields Sound (handle_readable respond_to results ctx)
  unfolding handle_readable
  readable-Sound [] ctx s e =
      let outcome = λ (b : Bool). Yields Sound (done (if b then closed ctx else ctx)) in
      elim (Bool-cases (leb buffer_size (length ctx.read_buf))) [
        | inl h ↦ subst outcome (sym h) tt
        | inr h ↦ subst outcome (sym h) s
      ]
  readable-Sound (read_again ∷ results) ctx s e = unless_full ctx (done ctx) s
  readable-Sound (read_failed ∷ results) ctx s e = unless_full ctx (done (closed ctx)) tt
  readable-Sound (end_of_stream ∷ results) ctx s e = unless_full ctx (done (closed ctx)) tt
  readable-Sound (got bytes ∷ results) ctx s e =
      let taken = take (buffer_size - length ctx.read_buf) bytes in
      let ctx' = record ctx { read_buf = ctx.read_buf ++ taken } in
      let more = handle_readable respond_to results ctx' in
      unless_full ctx _ (
        if-Yields Sound (length taken == 0) (done (closed ctx)) _ tt (
          Yields-any Sound (parse_http_req ctx'.read_buf) _
            (λ parsed. after_parse-Sound ctx' more parsed (readable-Sound results ctx' s e))))

if-Sound : (b : Bool) (x y : Bytes × Conn) → Sound x.1 → Sound y.1 → Sound (if b then x else y).1
if-Sound true x y p q = p
if-Sound false x y p q = q

finish-Sound : (ctx : Conn) → ctx.state ≡ conn_writing → Sound (finish_writing ctx)
unfolding finish_writing
finish-Sound ctx e = elim (Bool-cases (leb (length ctx.write_buf) ctx.write_pos)) [
  | inl all ↦ rw all refl
  | inr part ↦ rw (part, e) (leb-lt (length ctx.write_buf) ctx.write_pos part)
]

writable-Sound :
    (sends : List SendResult) (ctx : Conn)
    → ctx.state ≡ conn_writing
    → Sound (handle_writable sends ctx).1
unfolding handle_writable
writable-Sound [] ctx e = finish-Sound ctx e
writable-Sound (send_again ∷ sends) ctx e =
    if-Sound (leb (length ctx.write_buf) ctx.write_pos) ([], finish_writing ctx)
      ([], finish_writing ctx) (finish-Sound ctx e) (finish-Sound ctx e)
writable-Sound (send_failed ∷ sends) ctx e =
    if-Sound (leb (length ctx.write_buf) ctx.write_pos) ([], finish_writing ctx) ([], closed ctx)
      (finish-Sound ctx e) tt
writable-Sound (took room ∷ sends) ctx e =
    let n = min room (length ctx.write_buf - ctx.write_pos) in
    let ctx' = record ctx { write_pos = ctx.write_pos + n } in
    let more = handle_writable sends ctx' in
    let sent : Bytes × Conn = (take n (remaining ctx) ++ more.0, more.1) in
    if-Sound (leb (length ctx.write_buf) ctx.write_pos) ([], finish_writing ctx)
      (if n == 0 then ([], closed ctx) else sent) (finish-Sound ctx e)
      (if-Sound (n == 0) ([], closed ctx) sent tt (writable-Sound sends ctx' e))

-- The state of a sound connection is the one that it is watched for.
Matches-sound :
    (state : ConnState) (pos : ℕ) (buf : Bytes)
    → SoundIn state pos buf
    → Matches (watch_for state) state
Matches-sound conn_reading pos buf s = refl
Matches-sound conn_writing pos buf s = refl
Matches-sound conn_close pos buf s = refl
Matches-sound conn_proxy pos buf s = absurd s

reads_only : (b : Bool) (state : ConnState) → (b && is_reading state) ≡ true → state ≡ conn_reading
reads_only false state h = ground arith
reads_only true conn_reading h = refl
reads_only true conn_writing h = ground arith
reads_only true conn_close h = ground arith
reads_only true conn_proxy h = ground arith

writes_only : (b : Bool) (state : ConnState) → (b && is_writing state) ≡ true → state ≡ conn_writing
writes_only false state h = ground arith
writes_only true conn_reading h = ground arith
writes_only true conn_writing h = refl
writes_only true conn_close h = ground arith
writes_only true conn_proxy h = ground arith

module _ (respond_to : Bytes → Request → Run Response) where
  origin-Sound :
      (origin : Origin) (results : List ReadResult) (ctx : Conn)
      → Sound ctx
      → ctx.state ≡ conn_reading
      → Yields Sound (readable respond_to origin results ctx)
  unfolding readable
  origin-Sound (pooled i) results ctx s e = readable-Sound respond_to results ctx s e
  origin-Sound calloced [] ctx s e = s
  origin-Sound calloced (read_again ∷ results) ctx s e = s
  origin-Sound calloced (read_failed ∷ results) ctx s e = tt
  origin-Sound calloced (end_of_stream ∷ results) ctx s e = tt
  origin-Sound calloced (got bytes ∷ results) ctx s e = tt

  read_it-Sound :
      (epoll_in : Bool) (results : List ReadResult) (c : Watched)
      → Sound c.ctx
      → Yields Sound (
          if epoll_in && is_reading c.ctx.state
          then readable respond_to c.origin results c.ctx
          else done c.ctx)
  read_it-Sound epoll_in results c s =
      let read_it = readable respond_to c.origin results c.ctx in
      let outcome = λ (b : Bool). Yields Sound (if b then read_it else done c.ctx) in
      elim (Bool-cases (epoll_in && is_reading c.ctx.state)) [
        | inl h ↦
            subst outcome (sym h)
              (origin-Sound c.origin results c.ctx s (reads_only epoll_in c.ctx.state h))
        | inr h ↦ subst outcome (sym h) s
      ]

  write_it-Sound :
      (epoll_out : Bool) (sends : List SendResult) (ctx : Conn)
      → Sound ctx
      → Sound (if epoll_out && is_writing ctx.state then (handle_writable sends ctx).1 else ctx)
  write_it-Sound epoll_out sends ctx s =
      let outcome = λ (b : Bool). Sound (if b then (handle_writable sends ctx).1 else ctx) in
      elim (Bool-cases (epoll_out && is_writing ctx.state)) [
        | inl h ↦
            subst outcome (sym h) (writable-Sound sends ctx (writes_only epoll_out ctx.state h))
        | inr h ↦ subst outcome (sym h) s
      ]

  event-IsWatched :
      (epoll_in epoll_out : Bool) (results : List ReadResult) (sends : List SendResult)
      (c : Watched)
      → IsWatched c
      → Yields IsWatched (handle_event respond_to epoll_in epoll_out results sends c)
  unfolding handle_event
  event-IsWatched epoll_in epoll_out results sends c w =
      Yields-bind Sound IsWatched
        (if epoll_in && is_reading c.ctx.state
          then readable respond_to c.origin results c.ctx
          else done c.ctx)
        _ (read_it-Sound epoll_in results c w.sound)
        (λ ctx s.
          let sound = write_it-Sound epoll_out sends ctx s in
          record { sound = sound; watched = Matches-sound _ _ _ sound })

  accept_all-AllWatched :
      (n : ℕ) (w : Worker) → All IsWatched w.conns → All IsWatched (accept_all n w).conns
  unfolding accept_all accepted
  accept_all-AllWatched zero w all = all
  accept_all-AllWatched (suc n) w all =
      accept_all-AllWatched n _
        (All-append IsWatched w.conns _ all (record { sound = refl; watched = refl }, tt))

  worker_event-AllWatched :
      (e : Event) (w : Worker)
      → All IsWatched w.conns
      → Yields (λ w'. All IsWatched w'.conns) (worker_event respond_to e w)
  unfolding worker_event
  worker_event-AllWatched (incoming n) w all = accept_all-AllWatched n w all
  worker_event-AllWatched (ready i epoll_in epoll_out results sends) w all =
      elim (Option-cases (get_elem? w.conns i)) [
        | inl out ↦ rw (out, worker_event) tt
        | inr (c, at_i) ↦
            rw (at_i, worker_event)
              (Yields-bind IsWatched (λ w'. All IsWatched w'.conns)
                (handle_event respond_to epoll_in epoll_out results sends c) _
                (event-IsWatched epoll_in epoll_out results sends c
                  (All-get IsWatched w.conns i c all at_i))
                (λ c' h. All-set IsWatched w.conns i c' all h))
      ]

  -- Whatever the kernel reports, and whatever the handlers answer, after every event of a worker's
  -- loop each of its connections is sound and watched for what it waits for: an open connection for
  -- reading, with nothing left to send, or for writing, with bytes left to send. `conn_proxy` is
  -- never reached.
  pub worker_events-AllWatched :
      (events : List Event) (w : Worker)
      → All IsWatched w.conns
      → Yields (λ w'. All IsWatched w'.conns) (worker_events respond_to events w)
  unfolding worker_events
  worker_events-AllWatched [] w all = all
  worker_events-AllWatched (e ∷ events) w all =
      Yields-bind (λ w'. All IsWatched w'.conns) (λ w'. All IsWatched w'.conns)
        (worker_event respond_to e w) (worker_events respond_to events)
        (worker_event-AllWatched e w all) (λ w' all'. worker_events-AllWatched events w' all')
