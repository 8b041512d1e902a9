-- ===== src/Shard.antt =====
-- core/shard/proc.h and shard.c: a shard, the calls that put requests into its ring, and one round
-- of its worker. A request is the struct that the ring points to; the struct of `db_insert` stands
-- on the caller's stack and is taken to be still there when the worker reads it. A copy in an arena
-- is found by its distance: `key_at` and `val_at` are the pointers, and `mem` is what memory holds.
pub mod Init
pub mod Get
pub mod Served
pub mod Endless
pub mod Returns
pub mod Crash
mod Tests
use orca_db.Arena.{Arena, arena_alloc}
use orca_db.Base.{
  ℕ, zero, suc, ◌+◌, ◌-◌, ◌%◌, Bool, true, false, Option, none, some, List, Bytes, length,
  get_elem?, set, ◌==◌, if◌then◌else◌, Run, done, fault, out_of_fuel, ◌>>=◌,
}
use orca_db.Hash.{djb2}
use orca_db.Hashmap.{Hashmap, Status, hm_insert, hm_get, hm_delete}
use orca_db.Ring.{Ring, r_buff_write, r_buff_read}

pub data OpCode : Type 0 where
  op_put op_del op_get : OpCode

-- Whether `out_val` and `status` are set, instead of the pointers.
pub record Proc {ℓ} (K V : Type ℓ) : Type ℓ where
  pub op : OpCode
  pub key : K
  pub value : Option V
  pub val_len : ℕ
  pub free_value : Bool
  pub out_val : Bool
  pub status : Bool

pub record Shard {ℓ} (K V : Type ℓ) : Type ℓ where
  pub hm : Hashmap K V
  pub ring : Ring (Proc K V)
  pub key_arena : Arena
  pub val_arena : Arena

-- What a round leaves: the shard, and what it has written through `out_val`.
abbrev pub Round {ℓ} : Type ℓ → Type ℓ → Type ℓ
Round K V = Shard K V × Option (Option V)

-- `l0 mod NSLAVE`; with one processor `NSLAVE` is 0.
unfoldable pub shard_id : ℕ → Bytes → Run ℕ
shard_id nslave key = if nslave == 0 then fault else done (djb2 key % nslave)

module _ {ℓ} {K V : Type ℓ} (mem : K → Bytes) where
  -- The request of `db_insert`: the fields that it does not name are zero, `status` too.
  abbrev pub put_request : K → V → ℕ → Proc K V
  put_request key value val_len = record {
    op = op_put;
    key = key;
    value = some value;
    val_len = val_len;
    free_value = false;
    out_val = false;
    status = false;
  }

  abbrev pub get_request : K → Proc K V
  get_request key = record {
    op = op_get;
    key = key;
    value = none;
    val_len = 0;
    free_value = false;
    out_val = true;
    status = true;
  }

  -- `rBuff_write` to one of the shards, whose result is not looked at.
  unfoldable pub send_to : List (Shard K V) → ℕ → Proc K V → Run (List (Shard K V))
  send_to shards id p = elim (get_elem? shards id) [
    | none ↦ fault
    | some s ↦ done (set shards id (record s { ring = (r_buff_write s.ring p).1 }))
  ]

  unfoldable pub db_insert : ℕ → K → V → ℕ → List (Shard K V) → Run (List (Shard K V))
  unfolding send_to shard_id
  db_insert nslave key value val_len shards =
      shard_id nslave (mem key) >>= λ id. send_to shards id (put_request key value val_len)

  module _ (key_at : ℕ → K) (val_at : ℕ → V) (fuel : ℕ) where
    -- Once both blocks are allocated; `memcpy` to a block that is NULL is undefined.
    unfoldable pub put_copies : Proc K V → Shard K V → Option ℕ → Option ℕ → Run (Round K V)
    put_copies p s none v = fault
    put_copies p s (some k) none = fault
    put_copies p s (some k) (some v) =
        hm_insert mem fuel s.hm (some (key_at k)) (some (val_at v)) p.val_len >>= λ r.
        done (record s { hm = r.1 }, none)

    unfoldable pub worker_put : Proc K V → Shard K V → Run (Round K V)
    unfolding put_copies
    worker_put p s =
        let (k, keys) = arena_alloc s.key_arena (length (mem p.key) + 1) in
        let (v, vals) = arena_alloc s.val_arena p.val_len in
        put_copies p (record s { key_arena = keys; val_arena = vals }) k v

    unfoldable pub worker_do : OpCode → Proc K V → Shard K V → Run (Round K V)
    unfolding worker_put
    worker_do op_put p s = worker_put p s
    worker_do op_get p s =
        hm_get mem fuel s.hm (some p.key) >>= λ v. if p.out_val then done (s, some v) else fault
    worker_do op_del p s = hm_delete mem fuel s.hm (some p.key) p.free_value >>= λ r.
        done (record s { hm = r.1 }, none)

    -- One round of the loop, up to `p->done = 1`.
    unfoldable pub worker_round : Shard K V → Run (Round K V)
    unfolding worker_do
    worker_round s =
        let (next, ring) = r_buff_read s.ring in
        elim next [
          | none ↦ done (s, none)
          | some p ↦ worker_do p.op p (record s { ring = ring }) >>= λ r.
              if p.status then done r else fault
        ]
