-- ===== src/Handler/Reads.antt =====
-- What a client reads back of its own writes.
use orca_db.Aof.{aof_append_set, aof_append_del, set_line}
use orca_db.Aof.Log.{append_set-file}
use orca_db.Base.{
  ℕ, ◌<◌, ◌≡◌, ◌∙◌, ap, sym, subst, ◌++◌, Bool, true, Option, some, List, Bytes, length, ==_ne,
  bytes_eq_refl, if◌then◌else◌, done, ◌>>=◌, bind_done, arith,
}
use orca_db.Handler.{
  Db, Response, respond, value_text, inserted, deleted_text, key_name, value_name, req_get_param,
  insert_pair, insert_params, get_param, get_response, delete_param, delete_key, delete_response,
  insert_handler, get_handler, delete_handler,
}
use orca_db.Hashmap.{Hashmap, Status, zero_ok, matches, hm_insert, hm_get, hm_delete}
use orca_db.Hashmap.Count.{count, view}
use orca_db.Hashmap.Delete.{hm_get-delete}
use orca_db.Hashmap.Get.{hm_get-view}
use orca_db.Hashmap.Insert.{hm_insert-Writes}
use orca_db.Hashmap.Room.{HasRoom}
use orca_db.Hashmap.Update.{IsKey}
use orca_db.Hashmap.Valid.{IsValid}
use orca_db.Http.Request.{Param}

module _ {ℓ} {K V : Type ℓ} (mem : K → Bytes) (val_mem : V → Bytes) (alloc : Bytes → K)
    (alloc_val : Bytes → V) (fuel : ℕ) (printed : Bool) (now : ℕ) where
  get_param-found :
      (key : Bytes) (db : Db K V) (v : Option V)
      → 0 < length key
      → hm_get mem fuel db.hm (some (alloc key)) ≡ done v
      → get_param mem val_mem alloc alloc_val fuel printed now (some key) db
        ≡ done (get_response mem val_mem alloc alloc_val fuel printed now v, db)
  unfolding get_param
  get_param-found key db v h e = rw (==_ne (length key) 0 (λ z. omega (arith, z, h))) (
      bind_done (hm_get mem fuel db.hm (some (alloc key))) v
        (λ v'. done (get_response mem val_mem alloc alloc_val fuel printed now v', db)) e)

  insert_params-stored :
      (key value : Bytes) (db : Db K V) (r : Status × Hashmap K V)
      → 0 < length key
      → hm_insert mem fuel db.hm (some (alloc key)) (some (alloc_val value)) (length value) ≡ done r
      → insert_params mem val_mem alloc alloc_val fuel printed now (some key) (some value) db
        ≡ done (
          respond 200 inserted,
          record {
            hm = r.1;
            aof = (aof_append_set printed now db.aof (some (mem (alloc key))) (some value)).1;
          },
        )
  unfolding insert_params insert_pair
  insert_params-stored key value db r h e = rw (==_ne (length key) 0 (λ z. omega (arith, z, h))) (
      ap
        (λ x. x >>= λ s. done (
          respond 200 inserted,
          record {
            hm = s.1;
            aof = (aof_append_set printed now db.aof (some (mem (alloc key))) (some value)).1;
          },
        ))
        e)

  delete_param-gone :
      (key : Bytes) (db : Db K V) (hm' : Hashmap K V)
      → 0 < length key
      → hm_delete mem fuel db.hm (some (alloc key)) true ≡ done (zero_ok, hm')
      → delete_param mem val_mem alloc alloc_val fuel printed now (some key) db
        ≡ done (
          respond 200 deleted_text,
          record { hm = hm'; aof = (aof_append_del printed now db.aof (some (mem (alloc key)))).1 },
        )
  unfolding delete_param delete_key delete_response
  delete_param-gone key db hm' h e = rw (==_ne (length key) 0 (λ z. omega (arith, z, h))) (
      ap
        (λ x. x >>= λ s. done (
          delete_response mem val_mem alloc alloc_val fuel printed now s.0,
          record { hm = s.1; aof = (aof_append_del printed now db.aof (some (mem (alloc key)))).1 },
        ))
        e)

  module _ (b : ℕ) (key value : Bytes) (db : Db K V) (valid : IsValid mem b db.hm)
      (name : IsKey mem (alloc key)) (enough : b < fuel) (nonempty : 0 < length key)
      (room : count (matches mem (alloc key)) db.hm.buckets ≡ 0
        → HasRoom mem b db.hm (alloc key)) where
    -- With a valid table that has room for the key, a key that is not empty, has a hash other than 0
    -- and is shorter than 65536 bytes, and a file that can be printed to, `insert_handler` answers
    -- 200, the table stays valid, and the file has grown by the set command of the pair.
    -- `get_handler` for the same key, in whatever request, then answers 200 with the value that was
    -- inserted.
    pub insert-get :
        (buf buf' : Bytes) (params params' : List Param) (file : Bytes)
        → printed ≡ true
        → db.aof.file ≡ some file
        → req_get_param buf key_name params ≡ some key
        → req_get_param buf value_name params ≡ some value
        → req_get_param buf' key_name params' ≡ some key
        → (db' : Db K V) × (insert_handler mem val_mem alloc alloc_val fuel printed now buf params
              db
            ≡ done (respond 200 inserted, db'))
          × IsValid mem b db'.hm
          × (db'.aof.file ≡ some (file ++ set_line (mem (alloc key)) value))
          × (get_handler mem val_mem alloc alloc_val fuel printed now buf' params' db'
              ≡ done (respond 200 (value_text (val_mem (alloc_val value))), db'))
    unfolding insert_handler get_handler get_response
    insert-get buf buf' params params' file prints has_file has_key has_value asks =
        let k = alloc key in
        let v = some (alloc_val value) in
        let (r, run, writes) =
          hm_insert-Writes mem b valid k name v (length value) fuel enough room in
        let reads_own : view mem k r.1.buckets ≡ v =
          writes.reads k name.visible
          ∙ ap (λ c. if c then v else view mem k db.hm.buckets) (bytes_eq_refl (mem k)) in
        let db' : Db K V = record {
          hm = r.1;
          aof = (aof_append_set printed now db.aof (some (mem k)) (some value)).1;
        } in
        (
          db',
          rw has_key (rw has_value (insert_params-stored key value db r nonempty run)),
          writes.valid,
          subst
              (λ ok.
                (aof_append_set ok now db.aof (some (mem k)) (some value)).1.file
                ≡ some (file ++ set_line (mem k) value))
              (sym prints) (append_set-file now db.aof file (mem k) value has_file),
          rw asks (
              get_param-found key db' v nonempty
                (hm_get-view mem b writes.valid k fuel name.visible enough ∙ ap done reads_own)),
        )

  -- A `delete_handler` that answers 200 changes no later answer of `get_handler`: for the deleted
  -- key too it is what it was before.
  pub get-delete_handler :
      (buf buf' : Bytes) (params params' : List Param) (key q : Bytes) (db : Db K V)
      (hm' : Hashmap K V) (v : Option V)
      → req_get_param buf key_name params ≡ some key
      → 0 < length key
      → hm_delete mem fuel db.hm (some (alloc key)) true ≡ done (zero_ok, hm')
      → req_get_param buf' key_name params' ≡ some q
      → 0 < length q
      → hm_get mem fuel db.hm (some (alloc q)) ≡ done v
      → (db' : Db K V) × (delete_handler mem val_mem alloc alloc_val fuel printed now buf params db
          ≡ done (respond 200 deleted_text, db'))
        × (answer : Response) × (get_handler mem val_mem alloc alloc_val fuel printed now buf'
              params' db
            ≡ done (answer, db))
        × (get_handler mem val_mem alloc alloc_val fuel printed now buf' params' db'
            ≡ done (answer, db'))
  unfolding delete_handler get_handler
  get-delete_handler buf buf' params params' key q db hm' v has_key nonempty gone asks some_q
        reads =
      let db' : Db K V = record {
        hm = hm';
        aof = (aof_append_del printed now db.aof (some (mem (alloc key)))).1;
      } in
      let same = hm_get-delete mem db.hm hm' (alloc key) true fuel gone (alloc q) fuel in
      (
        db',
        rw has_key (delete_param-gone key db hm' nonempty gone),
        get_response mem val_mem alloc alloc_val fuel printed now v,
        rw asks (get_param-found q db v some_q reads),
        rw asks (get_param-found q db' v some_q (same ∙ reads)),
      )
