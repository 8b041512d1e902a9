-- ===== src/Server/Tests.antt =====
-- A server that stores a pair, reads it, and is started again; keys and values are their own bytes.
use orca_db.Aof.{aof_sync_everysec, set_line}
use orca_db.Aof.Log.{log}
use orca_db.Base.{
  ◌>>=◌, zero, suc, drop, ◌++◌, none, ℕ, ◌^◌, ◌≡◌, refl, ap, true, some, List, [], ◌∷◌, Bytes, Run,
  done, arith,
}
use orca_db.Handler.{
  key_name, value_name, Db, respond, inserted, value_text, missing_key, not_found, req_get_param,
}
use orca_db.Hash.{fnv_1a}
use orca_db.Hashmap.{Hashmap, hm_create}
use orca_db.Hashmap.Create.{hm_create-IsValid, hm_create-unoccupied}
use orca_db.Http.Request.{Request, Span, Param}
use orca_db.Http.Route.{route_req, handle_404}
use orca_db.Server.Refine.{Stands, serve-store}
use orca_db.Aof.Log.{log, insert_each}
use orca_db.Server.Restart.{boot, up, opened, restart}
use orca_db.Server.Session.{
  Call, all_stored, serve, answers_of, store_all, lookup, AllCanHold, IsName,
}
use orca_db.Server.Store.{HoldsStore, value_bytes}
use orca_db.Server.Text.{first_value, check-IsWord, parse_http_req-route_req}
use orca_db.Http.Parse.{parse_http_req, ends_key, ends_val}
use orca_db.Http.Parse.Lines.{plain_head}
use orca_db.Http.Parse.Printed.{request_line}
use orca_db.Server.{
  server, server_routes, api_insert, Globals, handshake, api_path, put_method, get_method,
  add_routes,
}

abbrev own : Bytes → Bytes
own k = k

-- A method, its path, and "?key=a&value=x".
abbrev line : Bytes → Bytes
line method =
    method
    ++ (32
        ∷ (api_path
            ++ (method
                ++ (63 ∷ 107 ∷ 101 ∷ 121 ∷ 61 ∷ 97 ∷ 38 ∷ 118 ∷ 97 ∷ 108 ∷ 117 ∷ 101 ∷ 61 ∷ 120
                    ∷ []))))

abbrev span : ℕ → ℕ → Span
span start len = record { start = start; len = len }

abbrev params : List Param
params =
    record { key = span 16 3; val = some (span 20 1) }
    ∷ record { key = span 22 5; val = some (span 28 1) }
    ∷ []

abbrev call : ℕ → Bytes → ℕ → List Param → Call
call now method path_len ps = record {
  now = now;
  buf = line method;
  req = record {
    method = span 0 3;
    path = span 4 path_len;
    params = ps;
    content_length = 0;
    body = none;
  };
}

abbrev calls : List Call
calls = call 1 get_method 11 params ∷ call 2 put_method 11 params ∷ []

-- The second has no parameter, the third another path.
abbrev later : List Call
later = call 9 get_method 11 params ∷ call 9 get_method 11 [] ∷ call 9 get_method 10 params ∷ []

key_a-IsName : IsName (b'a' ∷ [])
unfolding fnv_1a
key_a-IsName = record { text = (λ e. omega (arith, e), tt); visible = omega arith }

calls-AllCanHold : AllCanHold calls
unfolding req_get_param fnv_1a set_line route_req add_routes
calls-AllCanHold = (
  key_a-IsName,
  (
    (
      record {
        name = key_a-IsName;
        value_text = (λ e. omega (arith, e), tt);
        fits = record {
          key_line = (λ e. omega (arith, e), tt);
          value_line = (λ e. omega (arith, e), tt);
          short = omega arith;
        };
      },
      tt,
    ),
    tt,
  ),
)

later-AllCanHold : AllCanHold later
unfolding req_get_param fnv_1a route_req add_routes
later-AllCanHold = (key_a-IsName, (tt, (tt, tt)))

-- A miss, then the stored pair is read, also after the restart.
answers_before : answers_of calls [] ≡ respond 404 not_found ∷ respond 200 inserted ∷ []
unfolding answers_of req_get_param lookup route_req add_routes
answers_before = refl

answers_after :
    answers_of later (store_all (all_stored calls) [])
    ≡ respond 200 (value_text (b'x' ∷ [])) ∷ respond 400 missing_key ∷ handle_404 ∷ []
unfolding answers_of req_get_param lookup store_all all_stored route_req add_routes
answers_after = refl

handshake_sends :
    handshake true true true (b'a' ∷ [])
    ≡ (some (83 ∷ 69 ∷ 82 ∷ 86 ∷ 69 ∷ 82 ∷ 32 ∷ b'a' ∷ 10 ∷ []), true)
unfolding handshake
handshake_sends = refl

abbrev start : ℕ → Bytes → Run (Globals Bytes Bytes)
start =
    boot own own own own (λ k _. refl) (λ v _. refl) 16 17 (omega arith) (omega arith) (omega arith)
      (λ _. true) true

abbrev up_with : Db Bytes Bytes → Globals Bytes Bytes
up_with =
    up own own own own (λ k _. refl) (λ v _. refl) 16 17 (omega arith) (omega arith) (omega arith)
      (λ _. true) true

abbrev own_at : ℕ → Bytes → Bytes
own_at i k = k

-- The keys of the first round are overwritten once they are freed.
abbrev reused : ℕ → Bytes → Bytes
reused zero k = k
reused (suc i) k = []

restart_example :
    (db db₁ : Db Bytes Bytes) × (hm : Hashmap Bytes Bytes) × (start 0 [] ≡ done (up_with db))
    × (serve own own own own 17 calls db ≡ done (answers_of calls [], db₁))
    × (hm_create true true (2 ^ 20) ≡ some hm)
    × (server
          (λ _. true)
          reused
          own_at
          own_at
          9
          true
          true
          db₁.aof.file
          8
          (λ _. (true, true))
          true
          none
          []
          []
        ≡ (insert_each reused own_at own_at 9 0 (all_stored calls) hm >>= λ hm'.
            done (up_with (record { hm = hm'; aof = opened 8 (log (all_stored calls)) }))))
unfolding req_get_param all_stored route_req add_routes
restart_example =
    restart own own own own (λ k _. refl) (λ v _. refl) 16 17 (omega arith) (omega arith)
      (omega arith) (λ _. true) true 0 8 [] [] calls reused own_at own_at 9 calls-AllCanHold
      (omega arith)

created :
    (hm : Hashmap Bytes Bytes) × (hm_create true true (2 ^ 4) ≡ some hm)
    × HoldsStore own own own 16 [] hm
unfolding lookup
created =
    let (hm, made, valid, _, empty, _) =
      hm_create-IsValid Bytes own 4 16 (omega arith) (omega arith) (omega arith) (omega arith) in
    (
      hm,
      made,
      record {
        valid = valid;
        filled = omega (arith, hm_create-unoccupied Bytes own (2 ^ 4) hm made);
        reads = λ q name. ap (value_bytes own own) (empty q name.visible);
      },
    )

abbrev fresh : Db Bytes Bytes
fresh = record {
  hm = created.0;
  aof = record {
    file = some [];
    durable = 0;
    sync_policy = aof_sync_everysec;
    last_sync = 0;
    bytes_written = 0;
  };
}

serve-store_example :
    (db : Db Bytes Bytes) × (serve own own own own 17 calls fresh ≡ done (answers_of calls [], db))
    × Stands own own own own
        (λ k _. refl)
        (λ v _. refl)
        16
        17
        (omega arith)
        (store_all (all_stored calls) [])
        (log (all_stored calls))
        db
unfolding req_get_param all_stored route_req add_routes
serve-store_example =
    serve-store own own own own (λ k _. refl) (λ v _. refl) 16 17 (omega arith) calls [] [] fresh
      calls-AllCanHold (created.2, refl) (omega arith)

-- PUT /api/v1/PUT?key=a&value=x, a header of one letter, and no more.
abbrev put_pairs : List (Bytes × Bytes)
put_pairs = (key_name, b'a' ∷ []) ∷ (value_name, b'x' ∷ []) ∷ []

-- A:
abbrev headers : List Bytes
headers = (65 ∷ 58 ∷ []) ∷ []

parse_http_req-route_req_example :
    let buf =
      request_line put_method (api_path ++ put_method) put_pairs (13 ∷ []) []
      ++ (plain_head headers ++ []) in
    (n : ℕ) × (req : Request) × (parse_http_req buf ≡ done (some (n, req)))
    × (drop n buf ≡ [])
    × (route_req buf server_routes req ≡ some api_insert)
    × ((name : Bytes) → req_get_param buf name req.params ≡ first_value name put_pairs)
parse_http_req-route_req_example =
    parse_http_req-route_req api_insert put_pairs (13 ∷ []) headers [] (omega arith)
      (
        check-IsWord ends_key key_name refl refl,
        check-IsWord ends_val (b'a' ∷ []) refl refl,
        (
          check-IsWord ends_key value_name refl refl,
          check-IsWord ends_val (b'x' ∷ []) refl refl,
          tt,
        ),
      )
      (refl, tt) (record { starts = refl; one_line = (refl, (refl, tt)); other = λ rest. refl }, tt)
