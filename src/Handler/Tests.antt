-- ===== src/Handler/Tests.antt =====
-- The handlers on "key=a&value=x"; keys and values are their own bytes.
use orca_db.Aof.{Aof, aof_sync_always, set_line}
use orca_db.Base.{ℕ, ◌^◌, ◌≡◌, ◌≢◌, refl, true, none, some, List, [], ◌∷◌, Bytes, done, arith}
use orca_db.Handler.{
  Db, Response, respond, inserted, deleted_text, value_text, insert_handler, get_handler,
  delete_handler, req_get_param,
}
use orca_db.Handler.Reads.{insert-get, get-delete_handler}
use orca_db.Hash.{fnv_1a}
use orca_db.Hashmap.{Node, Hashmap, zero_ok, empty_node, hm_create, hm_get, hm_delete}
use orca_db.Hashmap.Create.{hm_create-IsValid}
use orca_db.Hashmap.Room.{HasRoom}
use orca_db.Hashmap.Count.{view}
use orca_db.Hashmap.Update.{IsKey}
use orca_db.Hashmap.Valid.{IsValid}
use orca_db.Http.Request.{Span, Param}

abbrev own : Bytes → Bytes
own k = k

abbrev key_a : Bytes
key_a = b'a' ∷ []

abbrev value_x : Bytes
value_x = b'x' ∷ []

key_a-IsKey : IsKey own key_a
unfolding fnv_1a
key_a-IsKey = record { visible = omega arith; short = omega arith }

-- "key=a&value=x"
abbrev buf : Bytes
buf = 107 ∷ 101 ∷ 121 ∷ 61 ∷ 97 ∷ 38 ∷ 118 ∷ 97 ∷ 108 ∷ 117 ∷ 101 ∷ 61 ∷ 120 ∷ []

abbrev span : ℕ → ℕ → Span
span start len = record { start = start; len = len }

abbrev params : List Param
params =
    record { key = span 0 3; val = some (span 4 1) }
    ∷ record { key = span 6 5; val = some (span 12 1) }
    ∷ []

abbrev aof : Aof
aof = record {
  file = some [];
  durable = 0;
  sync_policy = aof_sync_always;
  last_sync = 0;
  bytes_written = 0;
}

created :
    (hm : Hashmap Bytes Bytes) × (hm_create true true (2 ^ 4) ≡ some hm)
    × IsValid own 16 hm
    × (hm.count ≡ 0)
    × ((q : Bytes) → fnv_1a q ≢ 0 → view own q hm.buckets ≡ none)
    × ((k : Bytes) → HasRoom own 16 hm k)
created = hm_create-IsValid Bytes own 4 16 (omega arith) (omega arith) (omega arith) (omega arith)

abbrev fresh : Db Bytes Bytes
fresh = record { hm = created.0; aof = aof }

insert-get_example :
    (db : Db Bytes Bytes) × (insert_handler own own own own 17 true 5 buf params fresh
      ≡ done (respond 200 inserted, db))
    × IsValid own 16 db.hm
    × (db.aof.file ≡ some (set_line key_a value_x))
    × (get_handler own own own own 17 true 5 buf params db
        ≡ done (respond 200 (value_text value_x), db))
unfolding req_get_param
insert-get_example =
    insert-get own own own own 17 true 5 16 key_a value_x fresh created.2 key_a-IsKey (omega arith)
      (omega arith) (λ _. created.5 key_a) buf buf params params [] refl refl refl refl refl

-- The entry of `key_a`, which stands in bucket 0 of 4.
abbrev entry : ℕ → Node Bytes Bytes
entry flags = record {
  key = some key_a;
  value = some value_x;
  hash = 0xaf63dc4c8601ec8c;
  key_len = 1;
  val_len = 1;
  dib = 0;
  flags = flags;
}

abbrev holding : ℕ → ℕ → Hashmap Bytes Bytes
holding flags count = record {
  buckets = entry flags ∷ empty_node ∷ empty_node ∷ empty_node ∷ [];
  capacity = 4;
  count = count;
}

holding_deleted : hm_delete own 5 (holding 0 1) (some key_a) true ≡ done (zero_ok, holding 1 0)
unfolding hm_delete fnv_1a
holding_deleted = refl

holding_reads : hm_get own 5 (holding 0 1) (some key_a) ≡ done (some value_x)
unfolding hm_get fnv_1a
holding_reads = refl

abbrev held : Db Bytes Bytes
held = record { hm = holding 0 1; aof = aof }

get-delete_handler_example :
    (db : Db Bytes Bytes) × (delete_handler own own own own 5 true 5 buf params held
      ≡ done (respond 200 deleted_text, db))
    × (answer : Response) × (get_handler own own own own 5 true 5 buf params held
        ≡ done (answer, held))
    × (get_handler own own own own 5 true 5 buf params db ≡ done (answer, db))
unfolding req_get_param
get-delete_handler_example =
    get-delete_handler own own own own 5 true 5 buf buf params params key_a key_a held (holding 1 0)
      (some value_x) refl (omega arith) holding_deleted refl (omega arith) holding_reads
