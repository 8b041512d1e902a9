-- ===== src/Server.antt =====
-- misc/server.c: start-up, the handshake with the manager, and a round of the thread that writes
-- snapshots, which the source defines and does not start; misc/http/http.c: `CreateServer`, which
-- starts the workers of Http.Worker. `file_exists` of utils/util.c says whether there is a snapshot.
pub mod Session
pub mod Store
pub mod Refine
pub mod Restart
pub mod Text
mod Tests
use orca_db.Aof.{Aof, aof_open, aof_sync_everysec}
use orca_db.Aof.Replay.{aof_replay}
use orca_db.Aof.Rewrite.{aof_rewrite}
use orca_db.Base.{
  ℕ, ◌*◌, Bool, true, false, not, Option, none, some, List, [], ◌∷◌, ◌++◌, Bytes, take,
  if◌then◌else◌, Run, done, ◌>>=◌,
}
use orca_db.Handler.{Db, Response, insert_handler, get_handler, delete_handler}
use orca_db.Hashmap.{Hashmap, hm_create}
use orca_db.Http.Request.{Request}
use orca_db.Http.Route.{Route, add_route, route_req, handle_404}
use orca_db.Storage.{Disk, db_save}
use orca_db.Storage.Read.{db_load}

-- Which of the handlers of misc/handler/server.handler.c a route calls.
pub data Api : Type 0 where
  api_insert api_get api_delete : Api

-- misc/http/http.c: `CreateServer`. `mapped` says whether `mmap` gives the pool of connections. The
-- result is whether the pointer is not NULL, and how many worker threads are started.
unfoldable pub create_server : Bool → Bool × ℕ
create_server mapped = if mapped then (true, 3) else (false, 0)

-- `global`, `db` and the table of routes, with the number of workers.
pub record Globals {ℓ} (K V : Type ℓ) : Type ℓ where
  pub workers : ℕ
  pub aof : Option Aof
  pub hm : Option (Hashmap K V)
  pub routes : List (Route Api)

-- PUT
abbrev pub put_method : Bytes
put_method = 80 ∷ 85 ∷ 84 ∷ []

-- GET
abbrev pub get_method : Bytes
get_method = 71 ∷ 69 ∷ 84 ∷ []

-- DELETE
abbrev pub delete_method : Bytes
delete_method = 68 ∷ 69 ∷ 76 ∷ 69 ∷ 84 ∷ 69 ∷ []

-- /api/v1/
abbrev pub api_path : Bytes
api_path = 47 ∷ 97 ∷ 112 ∷ 105 ∷ 47 ∷ 118 ∷ 49 ∷ 47 ∷ []

-- The three `add_route` calls.
unfoldable pub add_routes : List (Route Api) → List (Route Api)
unfolding add_route
add_routes routes =
    let route : Bytes → Api → Route Api =
      λ method handler. record { method = method; path = api_path ++ method; handler = handler } in
    add_route
      (add_route (add_route routes (route put_method api_insert)) (route get_method api_get))
      (route delete_method api_delete)

-- The table of a server that has started.
abbrev pub server_routes : List (Route Api)
server_routes = add_routes []

-- `route_req` with the call that it makes; `none` is `handle_404`.
module _ {ℓ} {K V : Type ℓ} (mem : K → Bytes) (val_mem : V → Bytes) (alloc : Bytes → K)
    (alloc_val : Bytes → V) (fuel : ℕ) (printed : Bool) (now : ℕ) where
  unfoldable pub call_api : Option Api → Bytes → Request → Db K V → Run (Response × Db K V)
  unfolding insert_handler get_handler delete_handler
  call_api none buf req db = done (handle_404, db)
  call_api (some api_insert) buf req db =
      insert_handler mem val_mem alloc alloc_val fuel printed now buf req.params db
  call_api (some api_get) buf req db =
      get_handler mem val_mem alloc alloc_val fuel printed now buf req.params db
  call_api (some api_delete) buf req db =
      delete_handler mem val_mem alloc alloc_val fuel printed now buf req.params db

  unfoldable pub dispatch : List (Route Api) → Bytes → Request → Db K V → Run (Response × Db K V)
  unfolding call_api route_req
  dispatch routes buf req = call_api (route_req buf routes req) buf req

-- `space` says whether `malloc` has the memory that a snapshot asks for.
module _ {ℓ} {K V : Type ℓ} (space : ℕ → Bool) (mem : ℕ → K → Bytes) (alloc : ℕ → Bytes → K)
    (alloc_val : ℕ → Bytes → V) (fuel : ℕ) where
  -- The table that the server starts with: the snapshot's, which `readable` says can be opened, or
  -- a new one of `capacity` buckets.
  unfoldable pub first_table :
      ℕ → (ℕ → Bool × Bool) → Bool → Option Bytes → Run (Option (Hashmap K V))
  unfolding db_load hm_create
  first_table capacity created readable none =
      done (hm_create (created capacity).0 (created capacity).1 capacity)
  first_table capacity created readable (some snapshot) =
      db_load space mem alloc alloc_val fuel created (if readable then some snapshot else none)
      >>= λ r. done (elim r [ none ↦ none | some t ↦ some t.0 ])

  unfoldable pub replay_global :
      Bytes → Option Aof → Option (Hashmap K V) → Run (Option (Hashmap K V))
  unfolding aof_replay
  replay_global line none hm = done hm
  replay_global line (some aof) hm =
      aof_replay mem alloc alloc_val fuel line aof.file hm >>= λ r. done r.1

  -- `server` up to the loop in which it sleeps; it does not look at the pointer of `CreateServer`.
  -- `existing` is what the append-only file holds.
  unfoldable pub server :
      Bool
      → Bool
      → Option Bytes
      → ℕ
      → (ℕ → Bool × Bool)
      → Bool
      → Option Bytes
      → Bytes
      → List (Route Api)
      → Run (Globals K V)
  unfolding create_server aof_open first_table replay_global add_routes
  server mapped allocated existing now created readable snapshot line routes = do
    let (_, workers) = create_server mapped
    let global = aof_open allocated existing aof_sync_everysec now
    loaded ← first_table (4096 * 16 * 16) created readable snapshot
    hm ← replay_global line global loaded
    done (record { workers = workers; aof = global; hm = hm; routes = add_routes routes })

-- SERVER, and a blank
abbrev pub server_word : Bytes
server_word = 83 ∷ 69 ∷ 82 ∷ 86 ∷ 69 ∷ 82 ∷ 32 ∷ []

-- What `snprintf` leaves in the 256 bytes of `buf`, for an id without a NUL.
unfoldable pub handshake_text : Bytes → Bytes
handshake_text server_id = take 255 (server_word ++ (server_id ++ (10 ∷ [])))

-- `opened`, `parsed` and `connected` say whether `socket`, `inet_pton` and `connect` succeed. The
-- result is what is sent, if anything, and whether the socket is left open.
unfoldable pub handshake : Bool → Bool → Bool → Bytes → Option Bytes × Bool
unfolding handshake_text
handshake opened parsed connected server_id =
    if not opened
    then (none, false)
    else if not parsed
    then (none, false)
    else if not connected
    then (none, false)
    else (some (handshake_text server_id), true)

-- One round of `snapshot_worker`, under the lock. `saved` says of `db_save`, and `rewritten` of
-- `aof_rewrite`, whether their calls of `fopen` and `rename` succeed, and `reopened` whether the last
-- `fopen` does. The status of `db_save` is only printed.
unfoldable pub snapshot_round {ℓ} :
    {K V : Type ℓ}
    → (K → Bytes)
    → (V → Bytes)
    → ℕ
    → Bool × Bool
    → Bool × Bool
    → Bool
    → ℕ
    → Db K V
    → Disk
    → Run (Db K V × Disk)
unfolding db_save aof_rewrite
snapshot_round mem val_mem fuel saved rewritten reopened timestamp db disk = do
  (_, disk') ← db_save mem val_mem fuel saved.0 saved.1 timestamp db.hm disk
  (_, aof) ← aof_rewrite mem val_mem fuel rewritten.0 rewritten.1 reopened db.aof (some db.hm)
  done (record db { aof = aof }, disk')
