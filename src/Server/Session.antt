-- ===== src/Server/Session.antt =====
-- A session of requests that misc/http/route.c routes to the handlers of
-- misc/handler/server.handler.c, one after the other as the mutex orders them, beside a store that is a plain list of pairs.
use orca_db.Aof.Log.{Fits}
use orca_db.Base.{
  ℕ, ◌≢◌, Bool, true, Option, none, some, List, [], ◌∷◌, ◌++◌, Bytes, length, bytes_eq, ◌==◌,
  if◌then◌else◌, Run, done, ◌>>=◌,
}
use orca_db.Handler.{
  Db, Response, respond, missing_pair, missing_key, not_found, inserted, value_text, key_name,
  value_name, req_get_param,
}
use orca_db.Hash.{fnv_1a}
use orca_db.Http.Request.{Request}
use orca_db.Http.Route.{route_req, handle_404}
use orca_db.Server.{Api, api_insert, api_get, api_delete, server_routes, dispatch}

-- A request with the time at which it is served and the buffer it stands in.
pub record Call : Type 0 where
  pub now : ℕ
  pub buf : Bytes
  pub req : Request

-- Where a started server routes it to.
abbrev pub routed : Call → Option Api
routed c = route_req c.buf server_routes c.req

module _ {ℓ} {K V : Type ℓ} (mem : K → Bytes) (val_mem : V → Bytes) (alloc : Bytes → K)
    (alloc_val : Bytes → V) (fuel : ℕ) where
  -- Every append to the file is taken to succeed.
  unfoldable pub handle : Call → Db K V → Run (Response × Db K V)
  unfolding dispatch
  handle c = dispatch mem val_mem alloc alloc_val fuel true c.now server_routes c.buf c.req

  -- The answers, in their order, and the state after them.
  unfoldable pub serve : List Call → Db K V → Run (List Response × Db K V)
  unfolding handle
  serve [] db = done ([], db)
  serve (c ∷ calls) db = do
    (answer, db₁) ← handle c db
    (answers, db₂) ← serve calls db₁
    done (answer ∷ answers, db₂)

-- The pairs that have been stored, the latest first.
abbrev pub Store : Type 0
Store = List (Bytes × Bytes)

unfoldable pub lookup : Bytes → Store → Option Bytes
lookup q [] = none
lookup q ((k, v) ∷ store) = let rest = lookup q store in if bytes_eq q k then some v else rest

unfoldable pub store_all : List (Bytes × Bytes) → Store → Store
store_all [] store = store
store_all (e ∷ es) store = store_all es (e ∷ store)

abbrev pub pair_unless : Bool → Bytes → Bytes → List (Bytes × Bytes)
pair_unless empty key value = if empty then [] else (key, value) ∷ []

-- The pair that a request stores, if any.
abbrev pub stored_pair : Option Bytes → Option Bytes → List (Bytes × Bytes)
stored_pair none value = []
stored_pair (some key) none = []
stored_pair (some key) (some value) = pair_unless (length key == 0) key value

abbrev pub key_of : Call → Option Bytes
key_of c = req_get_param c.buf key_name c.req.params

abbrev pub value_of : Call → Option Bytes
value_of c = req_get_param c.buf value_name c.req.params

abbrev pub stored_by : Option Api → Call → List (Bytes × Bytes)
stored_by none c = []
stored_by (some api_insert) c = stored_pair (key_of c) (value_of c)
stored_by (some api_get) c = []
stored_by (some api_delete) c = []

abbrev pub stored : Call → List (Bytes × Bytes)
stored c = stored_by (routed c) c

unfoldable pub all_stored : List Call → List (Bytes × Bytes)
all_stored [] = []
all_stored (c ∷ calls) = stored c ++ all_stored calls

-- What a store answers.
abbrev pub found_response : Option Bytes → Response
found_response none = respond 404 not_found
found_response (some value) = respond 200 (value_text value)

abbrev pub insert_answer : Option Bytes → Option Bytes → Response
insert_answer none value = respond 400 missing_pair
insert_answer (some key) none = respond 400 missing_pair
insert_answer (some key) (some value) =
    if length key == 0 then respond 400 missing_pair else respond 200 inserted

abbrev pub get_answer : Store → Option Bytes → Response
get_answer store none = respond 400 missing_key
get_answer store (some key) =
    if length key == 0 then respond 400 missing_key else found_response (lookup key store)

-- For a request to the delete handler it stands for nothing.
abbrev pub answer_by : Option Api → Store → Call → Response
answer_by none store c = handle_404
answer_by (some api_insert) store c = insert_answer (key_of c) (value_of c)
answer_by (some api_get) store c = get_answer store (key_of c)
answer_by (some api_delete) store c = handle_404

abbrev pub answer_of : Store → Call → Response
answer_of store c = answer_by (routed c) store c

unfoldable pub answers_of : List Call → Store → List Response
unfolding store_all
answers_of [] store = []
answers_of (c ∷ calls) store = answer_of store c ∷ answers_of calls (store_all (stored c) store)

-- No byte is NUL.
abbrev pub NoNul : Bytes → Type 0
NoNul [] = Unit
NoNul (c ∷ cs) = (c ≢ 0) × NoNul cs

-- A key that C holds as a string and that the table can find.
pub record IsName (key : Bytes) : Type 0 where
  pub text : NoNul key
  pub visible : fnv_1a key ≢ 0

-- A pair that the table and a line of the append-only file can hold.
pub record IsEntry (key value : Bytes) : Type 0 where
  pub name : IsName key
  pub value_text : NoNul value
  pub fits : Fits key value

abbrev pub AllEntries : List (Bytes × Bytes) → Type 0
AllEntries [] = Unit
AllEntries ((k, v) ∷ es) = IsEntry k v × AllEntries es

abbrev pub IsAskable : Option Bytes → Type 0
IsAskable none = Unit
IsAskable (some key) = IsName key

-- A request that is not for the delete handler, and whose key and value can be held if it is for
-- one of the two others.
abbrev pub CanHoldBy : Option Api → Call → Type 0
CanHoldBy none c = Unit
CanHoldBy (some api_insert) c = AllEntries (stored_pair (key_of c) (value_of c))
CanHoldBy (some api_get) c = IsAskable (key_of c)
CanHoldBy (some api_delete) c = ⊥

abbrev pub CanHold : Call → Type 0
CanHold c = CanHoldBy (routed c) c

abbrev pub AllCanHold : List Call → Type 0
AllCanHold [] = Unit
AllCanHold (c ∷ calls) = CanHold c × AllCanHold calls
