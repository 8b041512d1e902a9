-- ===== src/Server/Restart.antt =====
-- The start-up of misc/server.c on a disk without a snapshot, and what a restart reads back.
use orca_db.Aof.{Aof, aof_open, aof_sync_everysec}
use orca_db.Aof.Log.{AllFit, log, insert_each, aof_replay-log}
use orca_db.Base.{
  ℕ, ◌^◌, ◌≤◌, ◌<◌, ◌≡◌, ◌∙◌, refl, ap, Bool, true, Option, none, some, List, [], ◌∷◌, ◌++◌, Bytes,
  length, Run, done, ◌>>=◌, bind_assoc, arith,
}
use orca_db.Handler.{Db}
use orca_db.Aof.Replay.{aof_replay}
use orca_db.Hashmap.{zero_ok, Hashmap, hm_create}
use orca_db.Hashmap.Create.{hm_create-IsValid, hm_create-unoccupied}
use orca_db.Server.{
  Api, api_insert, api_get, api_delete, server_routes, Globals, create_server, server, first_table,
  replay_global,
}
use orca_db.Server.Refine.{Stands, serve-store}
use orca_db.Server.Store.{value_bytes, HoldsStore, Copies, ValueCopies}
use orca_db.Server.Session.{
  lookup, Call, routed, stored_by, CanHoldBy, stored, serve, all_stored, answers_of, AllEntries,
  AllCanHold,
}

AllEntries-AllFit : (es : List (Bytes × Bytes)) → AllEntries es → AllFit es
AllEntries-AllFit [] entries = tt
AllEntries-AllFit ((k, v) ∷ es) entries = (entries.0.fits, AllEntries-AllFit es entries.1)

AllEntries-append :
    (es fs : List (Bytes × Bytes)) → AllEntries es → AllEntries fs → AllEntries (es ++ fs)
AllEntries-append [] fs e f = f
AllEntries-append ((k, v) ∷ es) fs e f = (e.0, AllEntries-append es fs e.1 f)

CanHoldBy-stored : (api : Option Api) (c : Call) → CanHoldBy api c → AllEntries (stored_by api c)
CanHoldBy-stored none c hold = tt
CanHoldBy-stored (some api_insert) c hold = hold
CanHoldBy-stored (some api_get) c hold = tt
CanHoldBy-stored (some api_delete) c hold = tt

AllCanHold-stored : (calls : List Call) → AllCanHold calls → AllEntries (all_stored calls)
unfolding all_stored
AllCanHold-stored [] hold = tt
AllCanHold-stored (c ∷ calls) hold =
    AllEntries-append (stored c) (all_stored calls) (CanHoldBy-stored (routed c) c hold.0)
      (AllCanHold-stored calls hold.1)

-- The stream of a server that was started on a file.
abbrev pub opened : ℕ → Bytes → Aof
opened now text = record {
  file = some text;
  durable = length text;
  sync_policy = aof_sync_everysec;
  last_sync = now;
  bytes_written = 0;
}

module _ {ℓ} {K V : Type ℓ} (space : ℕ → Bool) (mem : ℕ → K → Bytes) (alloc : ℕ → Bytes → K)
    (alloc_val : ℕ → Bytes → V) (fuel : ℕ) (readable : Bool) where
  -- Start-up on the text of set commands.
  server-log :
      (now : ℕ) (line : Bytes) (es : List (Bytes × Bytes)) (hm : Hashmap K V)
      → AllFit es
      → hm_create true true (2 ^ 20) ≡ some hm
      → server space mem alloc alloc_val fuel true true
          (some (log es))
          now
          (λ _. (true, true))
          readable
          none
          line
          []
        ≡ (insert_each mem alloc alloc_val fuel 0 es hm >>= λ hm'. done (record {
          workers = 3;
          aof = some (opened now (log es));
          hm = some hm';
          routes = server_routes;
        }))
  unfolding server create_server aof_open first_table replay_global
  server-log now line es hm fit made =
      let finish : Option (Hashmap K V) → Run (Globals K V) = λ h. done (record {
        workers = 3;
        aof = some (opened now (log es));
        hm = h;
        routes = server_routes;
      }) in
      let replay : Option (Hashmap K V) → Run (Globals K V) = λ h.
        (aof_replay mem alloc alloc_val fuel line (some (log es)) h >>= λ r. done r.1) >>= finish in
      let inserts = insert_each mem alloc alloc_val fuel 0 es hm in
      ap replay made
      ∙ ap (λ x. (x >>= λ r. done r.1) >>= finish)
          (aof_replay-log mem alloc alloc_val fuel line es hm fit)
      ∙ ap (λ x. x >>= finish)
          (bind_assoc inserts (λ hm'. done (zero_ok, some hm')) (λ r. done r.1))
      ∙ bind_assoc inserts (λ hm'. done (some hm')) finish

module _ {ℓ} {K V : Type ℓ} (mem : K → Bytes) (val_mem : V → Bytes) (alloc : Bytes → K)
    (alloc_val : Bytes → V) (copies : Copies mem val_mem alloc)
    (value_copies : ValueCopies mem val_mem alloc_val) (b fuel : ℕ) (enough : b < fuel)
    (positive : 0 < b) (counted : b < 2 ^ 16) (space : ℕ → Bool) (readable : Bool) where
  -- `server` on an empty append-only file, without a snapshot, where every allocation succeeds.
  abbrev pub boot : ℕ → Bytes → Run (Globals K V)
  boot now line =
      server space (λ _. mem) (λ _. alloc) (λ _. alloc_val) fuel true true (some []) now
        (λ _. (true, true)) readable none line []

  -- The globals of a server that has a table and a file.
  abbrev pub up : Db K V → Globals K V
  up db = record { workers = 3; aof = some db.aof; hm = some db.hm; routes = server_routes }

  created :
      (hm : Hashmap K V) × (hm_create true true (2 ^ 20) ≡ some hm)
      × HoldsStore mem val_mem alloc b [] hm
  unfolding lookup
  created =
      let (hm, made, valid, _, empty, _) =
        hm_create-IsValid V mem 20 b (omega arith) positive (omega arith) counted in
      (
        hm,
        made,
        record {
          valid = valid;
          filled = omega (arith, hm_create-unoccupied V mem (2 ^ 20) hm made);
          reads = λ q name.
              ap (value_bytes mem val_mem) (empty (alloc q) (rw (copies q name.text) name.visible));
        },
      )

  -- Start-up on an empty file.
  boot-empty :
      (now : ℕ) (line : Bytes)
      → (db : Db K V) × (boot now line ≡ done (up db))
        × Stands mem val_mem alloc alloc_val copies value_copies b fuel enough [] [] db
  unfolding insert_each log
  boot-empty now line =
      let (hm, made, holds) = created in
      (
        record { hm = hm; aof = opened now [] },
        server-log space (λ _. mem) (λ _. alloc) (λ _. alloc_val) fuel readable now line [] hm tt
            made,
        (holds, refl),
      )

  -- A server that is started on an empty append-only file, without a snapshot, and serves requests
  -- that are not for the delete handler and store at most `b` pairs, `b` at most 65535, answers them
  -- as a plain list of pairs does, and with 404 if they are for no route. No key or value has
  -- a NUL, every key has a hash other than 0, and every pair fits, without a newline, into a line of
  -- the file. A
  -- server started later on the file that this leaves, again without a snapshot, inserts copies of
  -- exactly the pairs that were stored, in their order, into a new table, and goes on with that
  -- table, whatever memory holds behind the keys that the replay frees.
  pub restart :
      (now now' : ℕ) (line line' : Bytes) (calls : List Call) (mem' : ℕ → K → Bytes)
      (alloc' : ℕ → Bytes → K) (alloc_val' : ℕ → Bytes → V) (fuel' : ℕ)
      → AllCanHold calls
      → length (all_stored calls) ≤ b
      → (db db₁ : Db K V) × (hm : Hashmap K V) × (boot now line ≡ done (up db))
        × (serve mem val_mem alloc alloc_val fuel calls db ≡ done (answers_of calls [], db₁))
        × (hm_create true true (2 ^ 20) ≡ some hm)
        × (server space mem' alloc' alloc_val' fuel' true true db₁.aof.file now'
              (λ _. (true, true))
              readable
              none
              line'
              []
            ≡ (insert_each mem' alloc' alloc_val' fuel' 0 (all_stored calls) hm >>= λ hm'.
                done (up (record { hm = hm'; aof = opened now' (log (all_stored calls)) }))))
  restart now now' line line' calls mem' alloc' alloc_val' fuel' hold fits =
      let es = all_stored calls in
      let (db, started, stands) = boot-empty now line in
      let (db₁, served, stands₁) =
        serve-store mem val_mem alloc alloc_val copies value_copies b fuel enough calls [] [] db
          hold stands (omega arith) in
      let (hm, made, _) = created in
      (
        db,
        db₁,
        hm,
        started,
        served,
        made,
        ap
              (λ text.
                server space mem' alloc' alloc_val' fuel' true true text now' (λ _. (true, true))
                  readable none line' [])
              stands₁.1
            ∙ server-log space mem' alloc' alloc_val' fuel' readable now' line' es hm
                (AllEntries-AllFit es (AllCanHold-stored calls hold)) made,
      )
