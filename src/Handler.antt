-- ===== src/Handler.antt =====
-- misc/handler/server.handler.c: the handlers over the table and the append-only file. The mutex
-- that they hold makes each call one step. `alloc` and `alloc_val` are where the copies of key and
-- value are put, since `malloc` is taken to succeed, `mem` and `val_mem` what memory holds there, up
-- to the NUL.
pub mod Reads
mod Tests
use orca_db.Aof.{Aof, aof_append_set, aof_append_del}
use orca_db.Base.{
  ℕ, zero, suc, ◌+◌, ◌-◌, Bool, true, false, ◌&&◌, Option, none, some, List, [], ◌∷◌, ◌++◌, Bytes,
  length, take, bytes_eq, ◌==◌, if◌then◌else◌, Run, done, fault, out_of_fuel, ◌>>=◌,
}
use orca_db.Hashmap.{Hashmap, Status, zero_ok, minus_one, hm_insert, hm_get, hm_delete}
use orca_db.Http.Request.{Span, Param, Request, bytes_of, val_bytes}

-- `text` is what stands in the response buffer.
pub record Response : Type 0 where
  pub status : ℕ
  pub text : Bytes
  pub body_len : ℕ

abbrev pub resp_buffer_size : ℕ
resp_buffer_size = 32768

-- One `snprintf` into the buffer: it cuts the text, and returns the length of the whole.
abbrev pub respond : ℕ → Bytes → Response
respond status text = record {
  status = status;
  text = take (resp_buffer_size - 1) text;
  body_len = length text;
}

-- key
abbrev pub key_name : Bytes
key_name = 107 ∷ 101 ∷ 121 ∷ []

-- value
abbrev pub value_name : Bytes
value_name = 118 ∷ 97 ∷ 108 ∷ 117 ∷ 101 ∷ []

-- { "error": "missing key or value" }
abbrev pub missing_pair : Bytes
missing_pair =
    123 ∷ 32 ∷ 34 ∷ 101 ∷ 114 ∷ 114 ∷ 111 ∷ 114 ∷ 34 ∷ 58 ∷ 32 ∷ 34 ∷ 109 ∷ 105 ∷ 115 ∷ 115 ∷ 105
    ∷ 110 ∷ 103 ∷ 32 ∷ 107 ∷ 101 ∷ 121 ∷ 32 ∷ 111 ∷ 114 ∷ 32 ∷ 118 ∷ 97 ∷ 108 ∷ 117 ∷ 101 ∷ 34 ∷ 32
    ∷ 125 ∷ []

-- {"insert": "successful"}
abbrev pub inserted : Bytes
inserted =
    123 ∷ 34 ∷ 105 ∷ 110 ∷ 115 ∷ 101 ∷ 114 ∷ 116 ∷ 34 ∷ 58 ∷ 32 ∷ 34 ∷ 115 ∷ 117 ∷ 99 ∷ 99 ∷ 101
    ∷ 115 ∷ 115 ∷ 102 ∷ 117 ∷ 108 ∷ 34 ∷ 125 ∷ []

-- {"error":"missing key"}
abbrev pub missing_key : Bytes
missing_key =
    123 ∷ 34 ∷ 101 ∷ 114 ∷ 114 ∷ 111 ∷ 114 ∷ 34 ∷ 58 ∷ 34 ∷ 109 ∷ 105 ∷ 115 ∷ 115 ∷ 105 ∷ 110 ∷ 103
    ∷ 32 ∷ 107 ∷ 101 ∷ 121 ∷ 34 ∷ 125 ∷ []

-- {"error":"key not found"}
abbrev pub not_found : Bytes
not_found =
    123 ∷ 34 ∷ 101 ∷ 114 ∷ 114 ∷ 111 ∷ 114 ∷ 34 ∷ 58 ∷ 34 ∷ 107 ∷ 101 ∷ 121 ∷ 32 ∷ 110 ∷ 111 ∷ 116
    ∷ 32 ∷ 102 ∷ 111 ∷ 117 ∷ 110 ∷ 100 ∷ 34 ∷ 125 ∷ []

-- {key deleted}
abbrev pub deleted_text : Bytes
deleted_text = 123 ∷ 107 ∷ 101 ∷ 121 ∷ 32 ∷ 100 ∷ 101 ∷ 108 ∷ 101 ∷ 116 ∷ 101 ∷ 100 ∷ 125 ∷ []

-- {"value":"
abbrev pub value_open : Bytes
value_open = 123 ∷ 34 ∷ 118 ∷ 97 ∷ 108 ∷ 117 ∷ 101 ∷ 34 ∷ 58 ∷ 34 ∷ []

-- "}
abbrev pub value_close : Bytes
value_close = 34 ∷ 125 ∷ []

-- The bytes of the first parameter with this name; `none` is NULL.
unfoldable pub req_get_param : Bytes → Bytes → List Param → Option Bytes
req_get_param buf key [] = none
req_get_param buf key (p ∷ params) =
    let rest = req_get_param buf key params in
    if p.key.len == length key && bytes_eq (bytes_of buf p.key) key
    then some (val_bytes buf p)
    else rest

-- The globals `db` and `global`.
pub record Db {ℓ} (K V : Type ℓ) : Type ℓ where
  pub hm : Hashmap K V
  pub aof : Aof

abbrev pub value_text : Bytes → Bytes
value_text value = value_open ++ (value ++ value_close)

module _ {ℓ} {K V : Type ℓ} (mem : K → Bytes) (val_mem : V → Bytes) (alloc : Bytes → K)
    (alloc_val : Bytes → V) (fuel : ℕ) (printed : Bool) (now : ℕ) where
  -- The part of `insert_handler` under the lock.
  unfoldable pub insert_pair : Bytes → Bytes → Db K V → Run (Response × Db K V)
  insert_pair key value db = do
    (_, hm) ← hm_insert mem fuel db.hm (some (alloc key)) (some (alloc_val value)) (length value)
    let (_, aof) = aof_append_set printed now db.aof (some (mem (alloc key))) (some value)
    done (respond 200 inserted, record { hm = hm; aof = aof })

  unfoldable pub insert_params : Option Bytes → Option Bytes → Db K V → Run (Response × Db K V)
  unfolding insert_pair
  insert_params none value db = done (respond 400 missing_pair, db)
  insert_params (some key) none db = done (respond 400 missing_pair, db)
  insert_params (some key) (some value) db =
      let pair = insert_pair key value db in
      if length key == 0 then done (respond 400 missing_pair, db) else pair

  unfoldable pub insert_handler : Bytes → List Param → Db K V → Run (Response × Db K V)
  unfolding insert_params req_get_param
  insert_handler buf params =
      insert_params (req_get_param buf key_name params) (req_get_param buf value_name params)

  unfoldable pub get_response : Option V → Response
  get_response none = respond 404 not_found
  get_response (some value) = respond 200 (value_text (val_mem value))

  unfoldable pub get_param : Option Bytes → Db K V → Run (Response × Db K V)
  unfolding get_response
  get_param none db = done (respond 400 missing_key, db)
  get_param (some key) db =
      let found = hm_get mem fuel db.hm (some (alloc key)) >>= λ v. done (get_response v, db) in
      if length key == 0 then done (respond 400 missing_key, db) else found

  unfoldable pub get_handler : Bytes → List Param → Db K V → Run (Response × Db K V)
  unfolding get_param req_get_param
  get_handler buf params = get_param (req_get_param buf key_name params)

  unfoldable pub delete_response : Status → Response
  delete_response zero_ok = respond 200 deleted_text
  delete_response minus_one = respond 404 not_found

  -- The part of `delete_handler` under the lock.
  unfoldable pub delete_key : Bytes → Db K V → Run (Response × Db K V)
  unfolding delete_response
  delete_key key db = do
    (status, hm) ← hm_delete mem fuel db.hm (some (alloc key)) true
    let (_, aof) = aof_append_del printed now db.aof (some (mem (alloc key)))
    done (delete_response status, record { hm = hm; aof = aof })

  unfoldable pub delete_param : Option Bytes → Db K V → Run (Response × Db K V)
  unfolding delete_key
  delete_param none db = done (respond 400 missing_key, db)
  delete_param (some key) db =
      let found = delete_key key db in
      if length key == 0 then done (respond 400 missing_key, db) else found

  unfoldable pub delete_handler : Bytes → List Param → Db K V → Run (Response × Db K V)
  unfolding delete_param req_get_param
  delete_handler buf params = delete_param (req_get_param buf key_name params)
