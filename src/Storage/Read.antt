-- ===== src/Storage/Read.antt =====
-- core/storage/storage.c: `db_load`. `malloc` is a parameter: `room` says whether it serves a size,
-- `alloc` and `alloc_val` where the copies of the i-th entry are put. `db_load` frees each key after
-- its insert, so `mem`, what memory holds behind a key, depends on the round. A failed `fread` whose
-- result is not tested leaves a variable unset, and its use is a fault.
use orca_db.Base.{
  ℕ, zero, suc, ◌+◌, ◌*◌, Bool, not, Option, none, some, [], ◌∷◌, Bytes, u32, u64, length, take,
  drop, bytes_eq, ltb, ◌==◌, if◌then◌else◌, Run, done, fault, ◌>>=◌, and_then,
}
use orca_db.Hashmap.{Hashmap, hm_create, hm_insert}
use orca_db.Storage.{checksum, db_magic, db_version}

-- The value of bytes, the lowest first.
unfoldable pub le_value : Bytes → ℕ
le_value [] = 0
le_value (b ∷ bs) = b + 256 * le_value bs

-- `fread` of `n` bytes, if there are so many.
unfoldable pub fread : ℕ → Bytes → Option (Bytes × Bytes)
fread n file = if ltb (length file) n then none else some (take n file, drop n file)

-- An `fread` whose result is not tested.
unfoldable pub fread_blind : ℕ → Bytes → Run (Bytes × Bytes)
unfolding fread
fread_blind n file = elim (fread n file) [ none ↦ fault | some r ↦ done r ]

-- What `fread` does to a block of no bytes.
unfoldable pub overflow : Bytes → Run (Option (Bytes × Bytes))
overflow [] = done none
overflow (_ ∷ _) = fault

-- `_checksum` after a key and a value.
unfoldable pub add_sums : ℕ → Bytes → Bytes → ℕ
add_sums sum key value =
    if length value == 0
    then u32 (sum + checksum key)
    else u32 (u32 (sum + checksum key) + checksum value)

-- No block is allocated for an empty value.
abbrev pub value_at {ℓ} : {V : Type ℓ} → (ℕ → Bytes → V) → ℕ → Bytes → Option V
value_at alloc_val i [] = none
value_at alloc_val i (b ∷ bs) = some (alloc_val i (b ∷ bs))

unfoldable pub load_capacity : ℕ → ℕ
load_capacity count = if ltb (u64 (2 * count)) 1024 then 1024 else u64 (2 * count)

-- After the loop: the table, and whether the stored checksum matches, which is only printed.
unfoldable pub load_footer {ℓ} :
    {K V : Type ℓ} → Option (Hashmap K V × ℕ × Bytes) → Run (Option (Hashmap K V × Bool))
unfolding fread_blind
load_footer none = done none
load_footer (some (hm, sum, file)) = do
  (stored, _) ← fread_blind 4 file
  done (some (hm, sum == le_value stored))

module _ (room : ℕ → Bool) where
  -- A key or a value of `len` bytes; `len + 1` is an `unsigned int`.
  unfoldable pub load_data : ℕ → Bytes → Run (Option (Bytes × Bytes))
  unfolding fread overflow
  load_data len file =
      if not (room (u32 (len + 1)))
      then done none
      else if u32 (len + 1) == 0
      then overflow file
      else done (fread len file)

  unfoldable pub load_key : Bytes → Run (Option (Bytes × Bytes))
  unfolding load_data
  load_key file = and_then (done (fread 4 file)) (λ r. load_data (le_value r.0) r.1)

  unfoldable pub load_value : Bytes → Run (Option (Bytes × Bytes))
  unfolding load_data
  load_value file = and_then (done (fread 4 file)) (λ r.
      let loaded = load_data (le_value r.0) r.1 in
      if le_value r.0 == 0 then done (some ([], r.1)) else loaded)

  module _ {ℓ} {K V : Type ℓ} (mem : ℕ → K → Bytes) (alloc : ℕ → Bytes → K)
      (alloc_val : ℕ → Bytes → V) where
    -- The loop over the entries, with `left` still to come.
    unfoldable pub load_loop :
        ℕ → ℕ → ℕ → Bytes → Hashmap K V → ℕ → Run (Option (Hashmap K V × ℕ × Bytes))
    unfolding load_key load_value add_sums
    load_loop fuel zero i file hm sum = done (some (hm, sum, file))
    load_loop fuel (suc left) i file hm sum = and_then (load_key file) (λ k.
        and_then (load_value k.1) (λ v. do
          (_, hm') ←
              hm_insert (mem i) fuel hm (some (alloc i k.0)) (value_at alloc_val i v.0) (length v.0)
          load_loop fuel left (i + 1) v.1 hm' (add_sums sum k.0 v.0)))

    -- After the count.
    unfoldable pub load_table :
        ℕ → ℕ → Bytes → Option (Hashmap K V) → Run (Option (Hashmap K V × Bool))
    unfolding load_loop load_footer
    load_table fuel count file none = done none
    load_table fuel count file (some hm) = load_loop fuel count 0 file hm 0 >>= load_footer

    -- After the timestamp, which is read and not used. `created` says whether each allocation of
    -- `hm_create` succeeds.
    unfoldable pub load_count :
        ℕ → (ℕ → Bool × Bool) → Bytes × Bytes → Run (Option (Hashmap K V × Bool))
    unfolding load_table
    load_count fuel created (count, file) =
        let capacity = load_capacity (le_value count) in
        load_table fuel (le_value count) file
          (hm_create (created capacity).0 (created capacity).1 capacity)

    -- After the version.
    unfoldable pub load_version :
        ℕ → (ℕ → Bool × Bool) → Bytes × Bytes → Run (Option (Hashmap K V × Bool))
    unfolding load_count fread_blind
    load_version fuel created (version, file) =
        let accepted = do
          (_, file₁) ← fread_blind 8 file
          fread_blind 8 file₁ >>= load_count fuel created
        in if le_value version == db_version then accepted else done none

    -- After the magic.
    unfoldable pub load_magic :
        ℕ → (ℕ → Bool × Bool) → Bytes × Bytes → Run (Option (Hashmap K V × Bool))
    unfolding load_version fread_blind
    load_magic fuel created (magic, file) =
        let accepted = fread_blind 4 file >>= load_version fuel created in
        if bytes_eq db_magic magic then accepted else done none

    -- `none` is a file that `fopen` does not find, and a result of NULL.
    unfoldable pub db_load :
        ℕ → (ℕ → Bool × Bool) → Option Bytes → Run (Option (Hashmap K V × Bool))
    unfolding load_magic fread_blind
    db_load fuel created none = done none
    db_load fuel created (some file) = fread_blind 6 file >>= load_magic fuel created
