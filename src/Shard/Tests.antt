-- ===== src/Shard/Tests.antt =====
-- One shard with a ring of four slots; keys and values are their own bytes.
use orca_db.Base.{
  fault, ◌⊎◌, ◌<◌, ℕ, Option, Yields, ◌≡◌, ◌≢◌, refl, none, some, List, [], ◌∷◌, ◌++◌, Bytes,
  get_elem?, replicate, done, arith,
}
use orca_db.Hash.{djb2, fnv_1a}
use orca_db.Hashmap.{empty_node, hm_get}
use orca_db.Ring.{r_buff_init, r_buff_write, r_buff_read}
use orca_db.Ring.Session.{IsEarly}
use orca_db.Shard.{Shard, Round, shard_id, get_request, db_insert, worker_round}
use orca_db.Shard.Endless.{db_get-endless}
use orca_db.Shard.Get.{Pc, pushing, waiting, returned, Thread, caller, worker, db_get}
use orca_db.Shard.Returns.{db_get-returns}
use orca_db.Shard.Served.{db_get-reads}
use orca_db.Shard.Crash.{worker-db_insert}

abbrev own : Bytes → Bytes
own k = k

abbrev at : ℕ → Bytes
at i = b'a' ∷ []

abbrev idle : Shard Bytes Bytes
idle = record {
  hm = record { buckets = replicate 4 empty_node; capacity = 4; count = 0 };
  ring = record { hp = 0; rp = 0; cap = 4; proc = replicate 4 none };
  key_arena = record { size = 64; offset = 0 };
  val_arena = record { size = 64; offset = 0 };
}

abbrev key_a : Bytes
key_a = b'a' ∷ []

-- A request with `status` set is served.
served :
    worker_round own at at 5 (record idle {
      ring = record {
        hp = 1;
        rp = 0;
        cap = 4;
        proc = some (get_request own key_a) ∷ none ∷ none ∷ none ∷ [];
      };
    })
    ≡ done (
      record idle {
        ring = record {
          hp = 1;
          rp = 1;
          cap = 4;
          proc = some (get_request own key_a) ∷ none ∷ none ∷ none ∷ [];
        };
      },
      some none,
    )
unfolding worker_round hm_get fnv_1a r_buff_read
served = refl

only_shard : shard_id 1 key_a ≡ done 0
unfolding shard_id djb2
only_shard = refl

idle-IsEarly : IsEarly 1 idle.ring
idle-IsEarly = record {
  ring = record {
    bits = 2;
    small = omega arith;
    power = refl;
    width = refl;
    ordered = omega arith;
    room = omega arith;
    early = omega arith;
  };
  first = omega arith;
  free = omega arith;
}

worker-db_insert_example :
    (shards : List (Shard Bytes Bytes)) × (s : Shard Bytes Bytes) × (db_insert own 1 key_a
        (b'x' ∷ [])
        1
        (idle ∷ [])
      ≡ done shards)
    × (get_elem? shards 0 ≡ some s)
    × ((round : Round Bytes Bytes) → worker_round own at at 5 s ≢ done round)
worker-db_insert_example =
    worker-db_insert own at at 5 1 0 key_a (b'x' ∷ []) 1 (idle ∷ []) idle only_shard refl
      idle-IsEarly refl (omega arith)

-- A new shard with the ring of four slots.
abbrev fresh : Shard Bytes Bytes
fresh = record idle { ring = r_buff_init 4 }

-- Three pushes, a fourth that finds the ring full, one round of the worker, and the return.
abbrev schedule : List Thread
schedule = caller ∷ caller ∷ caller ∷ caller ∷ worker ∷ caller ∷ []

idle_reads : hm_get own 5 fresh.hm (some key_a) ≡ done none
unfolding hm_get fnv_1a
idle_reads = refl

get_returns :
    (shards : List (Shard Bytes Bytes)) × (db_get own at at 5 1 key_a schedule (fresh ∷ [])
      ≡ done (returned none, shards))
unfolding db_get shard_id djb2 r_buff_init r_buff_write worker_round r_buff_read hm_get fnv_1a
get_returns = (_, refl)

-- One more step of the worker reads the second copy of the request.
get_gone : db_get own at at 5 1 key_a (schedule ++ (worker ∷ [])) (fresh ∷ []) ≡ fault
unfolding db_get shard_id djb2 r_buff_init r_buff_write worker_round r_buff_read hm_get fnv_1a
get_gone = refl

-- A request of another thread, which stands in the ring first.
abbrev other : Shard Bytes Bytes
other = record idle {
  ring = record {
    hp = 1;
    rp = 0;
    cap = 4;
    proc = some (get_request own (b'b' ∷ [])) ∷ none ∷ none ∷ none ∷ [];
  };
}

-- Its answer is not the caller's.
other_waits :
    (shards : List (Shard Bytes Bytes)) × (db_get own at at 5 1 key_a
        (caller ∷ caller ∷ caller ∷ worker ∷ caller ∷ caller ∷ [])
        (other ∷ [])
      ≡ done (waiting, shards))
unfolding db_get shard_id djb2 r_buff_write worker_round r_buff_read hm_get fnv_1a
other_waits = (_, refl)

db_get-reads_example :
    ((pc : Pc Bytes) × (s : Shard Bytes Bytes) × (db_get own at at 5 1 key_a schedule (fresh ∷ [])
        ≡ done (pc, s ∷ []))
      × (s.hm ≡ fresh.hm)
      × ((u : Option Bytes) → pc ≡ returned u → u ≡ none))
    ⊎ ((before rest : List Thread) × (s : Shard Bytes Bytes) × (schedule
          ≡ before ++ (worker ∷ rest))
        × (db_get own at at 5 1 key_a before (fresh ∷ []) ≡ done (returned none, s ∷ []))
        × (db_get own at at 5 1 key_a schedule (fresh ∷ []) ≡ fault))
db_get-reads_example =
    db_get-reads own at at 5 key_a fresh.hm none idle_reads 1 0 4 schedule (fresh ∷ []) fresh
      only_shard refl refl refl

abbrev late : Shard Bytes Bytes
late = record idle { ring = record { hp = 4; rp = 4; cap = 4; proc = replicate 4 none } }

db_get-endless_example :
    Yields (λ r. r.0 ≡ pushing) (db_get own at at 5 1 key_a schedule (late ∷ []))
db_get-endless_example =
    db_get-endless own at at 5 1 0 key_a schedule (late ∷ []) late only_shard refl (record {
      bits = 2;
      small = omega arith;
      power = refl;
      late = omega arith;
      ordered = omega arith;
      far = omega arith;
    })

db_get-returns_example :
    let schedule = replicate 3 caller ++ (caller ∷ worker ∷ caller ∷ []) in
    (s : Shard Bytes Bytes) × (db_get own at at 5 1 key_a schedule (fresh ∷ [])
      ≡ done (returned none, s ∷ []))
    × (s.hm ≡ fresh.hm)
    × (s.ring.hp ≡ 3)
    × (s.ring.rp ≡ 1)
    × ((i : ℕ) → i < 3 → get_elem? s.ring.proc i ≡ some (some (get_request own key_a)))
    × (db_get own at at 5 1 key_a (schedule ++ (worker ∷ [])) (fresh ∷ []) ≡ fault)
db_get-returns_example =
    db_get-returns own at at 5 key_a fresh.hm none idle_reads 2 (omega arith) 1 0 (fresh ∷ []) fresh
      (omega arith) only_shard refl refl refl
