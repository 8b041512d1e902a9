-- ===== src/Shard/Init.antt =====
-- core/shard/shard.c: `shard_init` and `db_start`. The allocations are taken to succeed.
use orca_db.Arena.{Arena, arena_create}
use orca_db.Base.{
  ℕ, zero, suc, ◌+◌, ◌*◌, ◌^◌, ◌≤◌, ◌<◌, ◌≡◌, ◌≢◌, refl, ap, true, Bool, Option, none, some, List,
  [], ◌∷◌, Bytes, get_elem?, replicate, if◌then◌else◌, arith,
}
use orca_db.Hash.{fnv_1a}
use orca_db.Hashmap.{Hashmap, hm_create}
use orca_db.Hashmap.Count.{view}
use orca_db.Hashmap.Create.{hm_create-IsValid}
use orca_db.Hashmap.Valid.{IsValid}
use orca_db.Ring.{r_buff_init}
use orca_db.Ring.Index.{IsRing, contents}
use orca_db.Ring.Session.{init-IsRing}
use orca_db.Shard.{Proc, Shard}

module _ {ℓ} (K V : Type ℓ) where
  abbrev pub make_shard : Option (Hashmap K V) → Option Arena → Option Arena → Option (Shard K V)
  make_shard none keys vals = none
  make_shard (some hm) none vals = none
  make_shard (some hm) (some keys) none = none
  make_shard (some hm) (some keys) (some vals) =
      some (record { hm = hm; ring = r_buff_init 1024; key_arena = keys; val_arena = vals })

  -- The shard as each round of the loop makes it, with a table of `capacity` buckets.
  unfoldable pub new_shard : ℕ → Option (Shard K V)
  unfolding arena_create
  new_shard capacity =
      make_shard (hm_create true true capacity) (arena_create true true (8 * 1024 * 1024))
        (arena_create true true (32 * 1024 * 1024))

  -- `started` says whether the thread of a shard can be started: the first that cannot ends the
  -- loop, which leaves the shards behind it as `malloc` gave them, here `none`.
  unfoldable pub init_loop : (ℕ → Bool) → ℕ → ℕ → ℕ → List (Option (Shard K V))
  unfolding new_shard
  init_loop started capacity zero i = []
  init_loop started capacity (suc left) i =
      let rest = init_loop started capacity left (i + 1) in
      new_shard capacity ∷ (if started i then rest else replicate left none)

  unfoldable pub shard_init : (ℕ → Bool) → ℕ → List (Option (Shard K V))
  unfolding init_loop
  shard_init started nslave = init_loop started (2 ^ 16) nslave 0

  -- It prints a line first.
  unfoldable pub db_start : (ℕ → Bool) → ℕ → List (Option (Shard K V))
  unfolding shard_init
  db_start started nslave = shard_init started nslave

-- A shard that holds nothing.
pub record IsNew {ℓ} {K V : Type ℓ} (mem : K → Bytes) (b : ℕ) (s : Shard K V) : Type ℓ where
  pub valid : IsValid mem b s.hm
  pub empty : (q : K) → fnv_1a (mem q) ≢ 0 → view mem q s.hm.buckets ≡ none
  pub ring : IsRing s.ring
  pub idle : contents s.ring ≡ []
  pub keys : s.key_arena.offset ≡ 0
  pub vals : s.val_arena.offset ≡ 0

module _ {ℓ} (K V : Type ℓ) (mem : K → Bytes) where
  new_shard-IsNew :
      (bits b : ℕ)
      → bits ≤ 63
      → 0 < b
      → b ≤ 2 ^ bits
      → b < 2 ^ 16
      → (s : Shard K V) × (new_shard K V (2 ^ bits) ≡ some s) × IsNew mem b s
  unfolding new_shard arena_create
  new_shard-IsNew bits b small pos reach counted =
      let (hm, made, valid, _, empty, _) = hm_create-IsValid V mem bits b small pos reach counted in
      let ring = init-IsRing {P = Proc K V} 10 (omega arith) in
      let s : Shard K V = record {
        hm = hm;
        ring = r_buff_init 1024;
        key_arena = record { size = 8 * 1024 * 1024; offset = 0 };
        val_arena = record { size = 32 * 1024 * 1024; offset = 0 };
      } in
      (
        s,
        rw made refl,
        record {
          valid = valid;
          empty = empty;
          ring = ring.0;
          idle = ring.1;
          keys = refl;
          vals = refl;
        },
      )

  init_loop-at :
      (capacity : ℕ) (s : Shard K V)
      → new_shard K V capacity ≡ some s
      → (n i j : ℕ) → j < n
      → get_elem? (init_loop K V (λ _. true) capacity n i) j ≡ some (some s)
  unfolding init_loop
  init_loop-at capacity s made zero i j h = absurd (omega arith)
  init_loop-at capacity s made (suc n) i zero h = ap some made
  init_loop-at capacity s made (suc n) i (suc j) h =
      init_loop-at capacity s made n (i + 1) j (omega arith)

  -- When every thread starts, every shard of `db_start` has an empty valid table, an empty ring
  -- and unused arenas.
  db_start-IsNew :
      (nslave j b : ℕ)
      → j < nslave
      → 0 < b
      → b < 2 ^ 16
      → (s : Shard K V) × (get_elem? (db_start K V (λ _. true) nslave) j ≡ some (some s))
        × IsNew mem b s
  unfolding db_start shard_init
  db_start-IsNew nslave j b below pos counted =
      let (s, made, new) = new_shard-IsNew 16 b (omega arith) pos (omega arith) counted in
      (s, init_loop-at (2 ^ 16) s made nslave 0 j below, new)
