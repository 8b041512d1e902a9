-- ===== src/Server/Refine.antt =====
-- The handlers on the table, against a store of pairs.
use orca_db.Aof.{aof_append_set, set_line}
use mathlib.Core.List.{append_assoc, append-nil}
use orca_db.Aof.Log.{log, append_set-file}
use orca_db.Base.{
  ℕ, ◌+◌, ◌≤◌, ◌<◌, ◌≡◌, ◌∙◌, refl, sym, ap, subst, true, false, Option, none, some, List, [], ◌∷◌,
  ◌++◌, Bytes, length, if◌then◌else◌, Bool, Bool-cases, ◌==◌, Run, done, length-append, inl, inr,
  arith,
}
use orca_db.Handler.{
  Db, Response, respond, inserted, missing_pair, missing_key, insert_params, insert_pair, get_param,
  get_response, insert_handler, get_handler,
}
use orca_db.Server.Store.{
  value_bytes, HoldsStore, Copies, ValueCopies, hm_insert-store, hm_get-store,
}
use orca_db.Http.Route.{handle_404}
use orca_db.Server.{Api, api_insert, api_get, api_delete, call_api, dispatch}
use orca_db.Server.Session.{
  pair_unless, IsAskable, Call, routed, key_of, value_of, stored_by, answer_by, CanHoldBy, handle,
  serve, stored, all_stored, answer_of, answers_of, get_answer, found_response, CanHold, AllCanHold,
  Store, lookup, store_all, stored_pair, insert_answer, AllEntries,
}

pub length-store_all :
    (es : List (Bytes × Bytes)) (store : Store)
    → length (store_all es store) ≡ length es + length store
unfolding store_all
length-store_all [] store = omega arith
length-store_all (e ∷ es) store = omega (arith, length-store_all es (e ∷ store))

store_all-append :
    (es fs : List (Bytes × Bytes)) (store : Store)
    → store_all fs (store_all es store) ≡ store_all (es ++ fs) store
unfolding store_all
store_all-append [] fs store = refl
store_all-append (e ∷ es) fs store = store_all-append es fs (e ∷ store)

log-append : (es fs : List (Bytes × Bytes)) → log (es ++ fs) ≡ log es ++ log fs
unfolding log
log-append [] fs = refl
log-append ((k, v) ∷ es) fs =
    ap (λ l. set_line k v ++ l) (log-append es fs)
    ∙ sym (append_assoc (set_line k v) (log es) (log fs))

module _ {ℓ} {K V : Type ℓ} (mem : K → Bytes) (val_mem : V → Bytes) (alloc : Bytes → K)
    (alloc_val : Bytes → V) (copies : Copies mem val_mem alloc)
    (value_copies : ValueCopies mem val_mem alloc_val) (b fuel : ℕ) (enough : b < fuel) where
  -- `db` stands for the store, and its file has the given text.
  abbrev pub Stands : Store → Bytes → Db K V → Type ℓ
  Stands store text db = HoldsStore mem val_mem alloc b store db.hm × (db.aof.file ≡ some text)

  abbrev pub Handled :
      Store → Bytes → List (Bytes × Bytes) → Response → Run (Response × Db K V) → Type ℓ
  Handled store text es answer run =
      (db' : Db K V) × (run ≡ done (answer, db')) × Stands (store_all es store) (text ++ log es) db'

  get_response-found :
      (now : ℕ) (o : Option V)
      → get_response mem val_mem alloc alloc_val fuel true now o
        ≡ found_response (value_bytes mem val_mem o)
  unfolding get_response
  get_response-found now none = refl
  get_response-found now (some v) = refl

  stays :
      (store : Store) (text : Bytes) (answer : Response) (db : Db K V)
      → Stands store text db
      → Handled store text [] answer (done (answer, db))
  unfolding store_all log
  stays store text answer db stands =
      (db, refl, (stands.0, stands.1 ∙ ap some (sym (append-nil text))))

  pair-store :
      (now : ℕ) (empty : Bool) (key value : Bytes) (store : Store) (text : Bytes) (db : Db K V)
      → AllEntries (pair_unless empty key value)
      → Stands store text db
      → length store + length (pair_unless empty key value) ≤ b
      → Handled store text
          (pair_unless empty key value)
          (if empty then respond 400 missing_pair else respond 200 inserted)
          (if empty
            then done (respond 400 missing_pair, db)
            else insert_pair mem val_mem alloc alloc_val fuel true now key value db)
  unfolding insert_pair store_all log
  pair-store now true key value store text db entries stands space =
      stays store text (respond 400 missing_pair) db stands
  pair-store now false key value store text db entries stands space =
      let (r, run, holds) =
        hm_insert-store mem val_mem alloc alloc_val copies value_copies b fuel enough key value
          store db.hm entries.0 stands.0 (omega arith) in
      let db' : Db K V = record {
        hm = r.1;
        aof = (aof_append_set true now db.aof (some (mem (alloc key))) (some value)).1;
      } in
      let written : db'.aof.file ≡ some (text ++ (set_line key value ++ [])) =
        append_set-file now db.aof text (mem (alloc key)) value stands.1
        ∙ ap (λ l. some (text ++ l))
            (ap (λ k. set_line k value) (copies key entries.0.name.text)
              ∙ sym (append-nil (set_line key value))) in
      (db', rw run, (holds, written))

  insert_params-store :
      (now : ℕ) (key value : Option Bytes) (store : Store) (text : Bytes) (db : Db K V)
      → AllEntries (stored_pair key value)
      → Stands store text db
      → length store + length (stored_pair key value) ≤ b
      → Handled store text
          (stored_pair key value)
          (insert_answer key value)
          (insert_params mem val_mem alloc alloc_val fuel true now key value db)
  unfolding insert_params insert_pair
  insert_params-store now none value store text db entries stands space =
      stays store text _ db stands
  insert_params-store now (some key) none store text db entries stands space =
      stays store text _ db stands
  insert_params-store now (some key) (some value) store text db entries stands space =
      pair-store now (length key == 0) key value store text db entries stands space

  get_param-store :
      (now : ℕ) (key : Option Bytes) (store : Store) (text : Bytes) (db : Db K V)
      → IsAskable key
      → Stands store text db
      → Handled store text []
          (get_answer store key)
          (get_param mem val_mem alloc alloc_val fuel true now key db)
  unfolding get_param
  get_param-store now none store text db name stands = stays store text _ db stands
  get_param-store now (some key) store text db name stands =
      let (o, run, same) =
        hm_get-store mem val_mem alloc alloc_val copies value_copies b fuel enough key store db.hm
          name stands.0 in
      let answered : get_response mem val_mem alloc alloc_val fuel true now o
          ≡ found_response (lookup key store) =
        get_response-found now o ∙ ap found_response same in
      elim (Bool-cases (length key == 0)) [
        | inl empty ↦ rw empty (stays store text (respond 400 missing_key) db stands)
        | inr full ↦
            rw (full, run, answered)
              (stays store text (found_response (lookup key store)) db stands)
      ]

  call_api-store :
      (api : Option Api) (c : Call) (store : Store) (text : Bytes) (db : Db K V)
      → CanHoldBy api c
      → Stands store text db
      → length store + length (stored_by api c) ≤ b
      → Handled store text
          (stored_by api c)
          (answer_by api store c)
          (call_api mem val_mem alloc alloc_val fuel true c.now api c.buf c.req db)
  unfolding call_api insert_handler get_handler
  call_api-store none c store text db hold stands space = stays store text handle_404 db stands
  call_api-store (some api_insert) c store text db hold stands space =
      insert_params-store c.now (key_of c) (value_of c) store text db hold stands space
  call_api-store (some api_get) c store text db hold stands space =
      get_param-store c.now (key_of c) store text db hold stands
  call_api-store (some api_delete) c store text db hold stands space = absurd hold

  -- One request.
  handle-store :
      (c : Call) (store : Store) (text : Bytes) (db : Db K V)
      → CanHold c
      → Stands store text db
      → length store + length (stored c) ≤ b
      → Handled store text
          (stored c)
          (answer_of store c)
          (handle mem val_mem alloc alloc_val fuel c db)
  unfolding handle dispatch
  handle-store c = call_api-store (routed c) c

  -- On a state that stands for a store, with room for what the requests store, requests that are
  -- not for the delete handler are answered as the store answers them, and with 404 if they are for
  -- no route, as long as no key or value has a NUL, every key has a hash other than 0, and every pair
  -- that is stored fits without a newline into a line of the file. The state then stands for the store after them, and the file has grown by the set
  -- commands of the pairs that were stored, in their order.
  pub serve-store :
      (calls : List Call) (store : Store) (text : Bytes) (db : Db K V)
      → AllCanHold calls
      → Stands store text db
      → length store + length (all_stored calls) ≤ b
      → (db' : Db K V) × (serve mem val_mem alloc alloc_val fuel calls db
          ≡ done (answers_of calls store, db'))
        × Stands (store_all (all_stored calls) store) (text ++ log (all_stored calls)) db'
  unfolding serve answers_of all_stored store_all log
  serve-store [] store text db hold stands space =
      (db, refl, (stands.0, stands.1 ∙ ap some (sym (append-nil text))))
  serve-store (c ∷ calls) store text db hold stands space =
      let (db₁, run₁, stands₁) =
        handle-store c store text db hold.0 stands
          (omega (arith, length-append (stored c) (all_stored calls))) in
      let (db₂, run₂, stands₂) =
        serve-store calls (store_all (stored c) store) (text ++ log (stored c)) db₁ hold.1 stands₁ (
          omega (
            arith,
            length-append (stored c) (all_stored calls),
            length-store_all (stored c) store,
          )) in
      let joined : store_all (all_stored calls) (store_all (stored c) store)
          ≡ store_all (stored c ++ all_stored calls) store =
        store_all-append (stored c) (all_stored calls) store in
      (
        db₂,
        rw (run₁, run₂) refl,
        (
          subst (λ s. HoldsStore mem val_mem alloc b s db₂.hm) joined stands₂.0,
          stands₂.1
              ∙ ap some (
                  append_assoc text (log (stored c)) (log (all_stored calls))
                  ∙ ap (λ l. text ++ l) (sym (log-append (stored c) (all_stored calls)))),
        ),
      )
