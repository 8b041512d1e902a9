-- ===== src/Http/Worker/Pool.antt =====
-- misc/http/conn.c: the contexts that `alloc_conn` gives to the connections.
use orca_db.Base.{
  ℕ, zero, suc, ◌+◌, ◌≤◌, ◌<◌, ◌≡◌, ◌∙◌, refl, sym, ap, subst, Bool, true, false, ◌&&◌, some,
  some-inj, List, [], ◌∷◌, ◌++◌, Bytes, length, length-append, length-set, leb-true, lt→leb, ltb,
  lt→ltb, le→ltb, get_elem?, get_elem?-append, get_elem?-last, get_elem?-snoc, get_elem?-set_self,
  get_elem?-set_ne, get_elem?-some-lt, set, min, dec_lt, ℕ_discrete, if◌then◌else◌, Run, done,
  Yields, Yields-bind, Yields-any, Yields-done, Option-cases, inl, inr, arith,
}
use orca_db.Handler.{Response}
use orca_db.Http.Conn.{closed, conn_reading, ReadResult, got, SendResult}
use orca_db.Http.Request.{Request}
use orca_db.Http.Worker.{
  Origin, pooled, calloced, Watched, Worker, Event, incoming, ready, gone, accepted, accept_all,
  alloc_conn, is_reading, readable, handle_event, worker_event, worker_events,
}

-- The context that the connection after `i` others is given.
abbrev pub origin_at : ℕ → Origin
origin_at i = if ltb i 16384 then pooled i else calloced

alloc_conn-origin :
    (i next : ℕ)
    → next ≡ min i 16384
    → ((alloc_conn next).0 ≡ origin_at i) × ((alloc_conn next).1 ≡ min (i + 1) 16384)
unfolding alloc_conn
alloc_conn-origin i next e = elim (dec_lt i 16384) [
  | yes below ↦
      rw (lt→leb 16384 next (omega arith), lt→ltb i 16384 below)
        (ap pooled (omega arith), omega arith)
  | no above ↦
      rw (leb-true 16384 next (omega arith), le→ltb i 16384 (omega arith)) (refl, omega arith)
]

-- As many entries are taken as connections were accepted, up to 16384, and each connection has its
-- own.
pub record IsTaken (w : Worker) : Type 0 where
  pub counted : w.next ≡ min (length w.conns) 16384
  pub origins : (i : ℕ) (c : Watched) → get_elem? w.conns i ≡ some c → c.origin ≡ origin_at i

snoc-origins :
    (cs : List Watched) (c : Watched)
    → ((i : ℕ) (d : Watched) → get_elem? cs i ≡ some d → d.origin ≡ origin_at i)
    → c.origin ≡ origin_at (length cs)
    → (i : ℕ) (d : Watched) → get_elem? (cs ++ (c ∷ [])) i ≡ some d
    → d.origin ≡ origin_at i
snoc-origins cs c own last i d e = elim (get_elem?-snoc cs c i d e) [
  | inl before ↦ own i d before
  | inr (at, same) ↦ ap (λ x. x.origin) same ∙ last ∙ ap origin_at (sym at)
]

accept_all-IsTaken : (n : ℕ) (w : Worker) → IsTaken w → IsTaken (accept_all n w)
unfolding accept_all accepted
accept_all-IsTaken zero w t = t
accept_all-IsTaken (suc n) w t =
    let (own, next) = alloc_conn-origin (length w.conns) w.next t.counted in
    let c = accepted (alloc_conn w.next).0 in
    accept_all-IsTaken n (record { conns = w.conns ++ (c ∷ []); next = (alloc_conn w.next).1 })
      (record {
        counted = next ∙ ap (λ k. min k 16384) (sym (length-append w.conns (c ∷ [])));
        origins = snoc-origins w.conns c t.origins own;
      })

set-origins :
    (cs : List Watched) (i : ℕ) (c c' : Watched)
    → get_elem? cs i ≡ some c
    → c'.origin ≡ c.origin
    → ((j : ℕ) (d : Watched) → get_elem? cs j ≡ some d → d.origin ≡ origin_at j)
    → (j : ℕ) (d : Watched) → get_elem? (set cs i c') j ≡ some d
    → d.origin ≡ origin_at j
set-origins cs i c c' at same own j d e = elim (ℕ_discrete i j) [
  | yes here ↦
      let below = get_elem?-some-lt cs i c at in
      let it : some c' ≡ some d =
        sym (get_elem?-set_self cs i c' below) ∙ ap (get_elem? (set cs i c')) here ∙ e in
      ap (λ x. x.origin) (sym (some-inj c' d it)) ∙ same ∙ own i c at ∙ ap origin_at here
  | no other ↦ own j d (sym (get_elem?-set_ne cs i j c' other) ∙ e)
]

-- What `accept_all` does first.
abbrev accept_one : Worker → Worker
accept_one w = record {
  conns = w.conns ++ (accepted (alloc_conn w.next).0 ∷ []);
  next = (alloc_conn w.next).1;
}

length-accept_one : (w : Worker) → length (accept_one w).conns ≡ length w.conns + 1
length-accept_one w = length-append w.conns (accepted (alloc_conn w.next).0 ∷ [])

accept_all-kept :
    (n i : ℕ) (w : Worker)
    → i < length w.conns
    → get_elem? (accept_all n w).conns i ≡ get_elem? w.conns i
unfolding accept_all
accept_all-kept zero i w h = refl
accept_all-kept (suc n) i w h =
    accept_all-kept n i (accept_one w) (omega (arith, length-accept_one w, h))
    ∙ get_elem?-append w.conns (accepted (alloc_conn w.next).0 ∷ []) i h

-- Of the connections that a worker accepts, as long as no other takes from the pool, each is given
-- its own entry of the pool, up to 16384, and those behind them contexts without buffers.
pub accept_all-origin :
    (n j : ℕ) (w : Worker)
    → w.next ≡ min (length w.conns) 16384
    → j < n
    → get_elem? (accept_all n w).conns (length w.conns + j)
      ≡ some (accepted (origin_at (length w.conns + j)))
unfolding accept_all
accept_all-origin zero j w e h = absurd (omega arith)
accept_all-origin (suc n) zero w e h =
    let one = alloc_conn-origin (length w.conns) w.next e in
    let here : length w.conns + 0 ≡ length w.conns = omega arith in
    subst (λ i. get_elem? (accept_all n (accept_one w)).conns i ≡ some (accepted (origin_at i)))
      (sym here)
      (accept_all-kept n (length w.conns) (accept_one w) (omega (arith, length-accept_one w))
        ∙ get_elem?-last w.conns (accepted (alloc_conn w.next).0)
        ∙ ap (λ o. some (accepted o)) one.0)
accept_all-origin (suc n) (suc j) w e h =
    let one = alloc_conn-origin (length w.conns) w.next e in
    let size = length-accept_one w in
    let there : length (accept_one w).conns + j ≡ length w.conns + suc j = omega (arith, size) in
    subst (λ i. get_elem? (accept_all n (accept_one w)).conns i ≡ some (accepted (origin_at i)))
      there
      (accept_all-origin n j (accept_one w) (one.1 ∙ ap (λ i. min i 16384) (sym size))
        (omega arith))

module _ (respond_to : Bytes → Request → Run Response) where
  event-origin :
      (epoll_in epoll_out : Bool) (results : List ReadResult) (sends : List SendResult)
      (c : Watched)
      → Yields
          (λ c'. c'.origin ≡ c.origin)
          (handle_event respond_to epoll_in epoll_out results sends c)
  unfolding handle_event
  event-origin epoll_in epoll_out results sends c =
      Yields-any (λ c'. c'.origin ≡ c.origin)
        (if epoll_in && is_reading c.ctx.state
          then readable respond_to c.origin results c.ctx
          else done c.ctx)
        _ (λ ctx. refl)

  event-IsTaken :
      (e : Event) (w : Worker) → IsTaken w → Yields IsTaken (worker_event respond_to e w)
  unfolding worker_event
  event-IsTaken (incoming n) w t = accept_all-IsTaken n w t
  event-IsTaken (ready i epoll_in epoll_out results sends) w t =
      elim (Option-cases (get_elem? w.conns i)) [
        | inl out ↦ rw (out, worker_event) tt
        | inr (c, at) ↦
            rw (at, worker_event)
              (Yields-bind (λ c'. c'.origin ≡ c.origin) IsTaken
                (handle_event respond_to epoll_in epoll_out results sends c) _
                (event-origin epoll_in epoll_out results sends c)
                (λ c' same. record {
                  counted = t.counted ∙ ap (λ k. min k 16384) (sym (length-set w.conns i c'));
                  origins = set-origins w.conns i c c' at same t.origins;
                }))
      ]

  events-IsTaken :
      (events : List Event) (w : Worker)
      → IsTaken w
      → Yields IsTaken (worker_events respond_to events w)
  unfolding worker_events
  events-IsTaken [] w t = t
  events-IsTaken (e ∷ events) w t =
      Yields-bind IsTaken IsTaken (worker_event respond_to e w) (worker_events respond_to events)
        (event-IsTaken e w t) (λ w' t'. events-IsTaken events w' t')

  -- Without buffers, a connection that reads is closed by its first bytes.
  no_buffer-closed :
      (c : Watched) (epoll_out : Bool) (bytes : Bytes) (results : List ReadResult)
      (sends : List SendResult)
      → c.origin ≡ calloced
      → c.ctx.state ≡ conn_reading
      → handle_event respond_to true epoll_out (got bytes ∷ results) sends c
        ≡ done (record c { ctx = closed c.ctx; watch = gone })
  unfolding handle_event readable
  no_buffer-closed c true bytes results sends o e = rw (o, e) refl
  no_buffer-closed c false bytes results sends o e = rw (o, e) refl

  -- However connections are accepted, served and closed, in a worker that takes alone from the pool
  -- no entry comes back: a connection that was accepted after 16384 others or more has no buffers,
  -- and is closed by the first bytes that arrive while it reads.
  pub worker_events-exhausted :
      (events : List Event) (w : Worker) (i : ℕ) (c : Watched) (bytes : Bytes)
      (results : List ReadResult) (epoll_out : Bool) (sends : List SendResult)
      → worker_events respond_to events (record { conns = []; next = 0 }) ≡ done w
      → get_elem? w.conns i ≡ some c
      → 16384 ≤ i
      → c.ctx.state ≡ conn_reading
      → (c.origin ≡ calloced)
        × (handle_event respond_to true epoll_out (got bytes ∷ results) sends c
            ≡ done (record c { ctx = closed c.ctx; watch = gone }))
  worker_events-exhausted events w i c bytes results epoll_out sends run at late reads =
      let start : IsTaken (record { conns = []; next = 0 }) = record {
        counted = refl;
        origins = λ j d e. absurd (ground arith);
      } in
      let t =
        Yields-done IsTaken (worker_events respond_to events (record { conns = []; next = 0 })) w
          run (events-IsTaken events (record { conns = []; next = 0 }) start) in
      let none_left : c.origin ≡ calloced = t.origins i c at ∙ rw (le→ltb i 16384 late) refl in
      (none_left, no_buffer-closed c epoll_out bytes results sends none_left reads)
