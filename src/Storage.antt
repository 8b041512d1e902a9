-- ===== src/Storage.antt =====
-- core/storage/storage.c: `checksum`, `db_save` and `db_save_proc`. A file is the list of its bytes; `mem` is what
-- memory holds behind a key up to its NUL, and `val_mem` behind a value.
pub mod Read
pub mod Save
pub mod Format
pub mod Load
mod Tests
use orca_db.Base.{
  ℕ, zero, suc, ◌+◌, ◌-◌, ◌*◌, ◌/◌, ◌%◌, ◌^◌, Bool, true, false, not, Option, none, some, List, [],
  ◌∷◌, ◌++◌, Bytes, u32, u64, length, get_elem?, take, drop, bytes_eq, ltb, ◌==◌, if◌then◌else◌,
  Run, done, fault, out_of_fuel, ◌>>=◌, and_then,
}
use orca_db.Hashmap.{Node, Hashmap, Status, zero_ok, minus_one, next_idx, hm_create, hm_insert}

unfoldable pub checksum_loop : ℕ → Bytes → ℕ
checksum_loop sum [] = sum
checksum_loop sum (b ∷ rest) = checksum_loop (u32 (sum * 31 + b)) rest

unfoldable pub checksum : Bytes → ℕ
unfolding checksum_loop
checksum bytes = checksum_loop 0 bytes

-- The bytes of a `uint32_t` and of a `uint64_t`, the lowest first.
abbrev pub u32_bytes : ℕ → Bytes
u32_bytes n = n % 256 ∷ n / 2 ^ 8 % 256 ∷ n / 2 ^ 16 % 256 ∷ n / 2 ^ 24 % 256 ∷ []

abbrev pub u64_bytes : ℕ → Bytes
u64_bytes n = u32_bytes n ++ u32_bytes (n / 2 ^ 32)

-- "OrcaDB", and the seven bytes that `db_save` writes of it.
abbrev pub db_magic : Bytes
db_magic = 79 ∷ 114 ∷ 99 ∷ 97 ∷ 68 ∷ 66 ∷ []

abbrev pub db_version : ℕ
db_version = 1

unfoldable pub save_header : ℕ → ℕ → Bytes
save_header timestamp count =
    (db_magic ++ 0 ∷ []) ++ u32_bytes db_version ++ u64_bytes timestamp ++ u64_bytes count

-- What has been written, with `_checksum` and `entries_written`.
pub record Written : Type 0 where
  pub bytes : Bytes
  pub sum : ℕ
  pub entries : ℕ

-- The file and its `.tmp`.
pub record Disk : Type 0 where
  pub file : Option Bytes
  pub temp : Option Bytes

module _ {ℓ} {K V : Type ℓ} (mem : K → Bytes) (val_mem : V → Bytes) where
  -- The value of a node, written if there is one and it is not empty.
  unfoldable pub save_value : Option V → ℕ → Written → Written
  unfolding checksum
  save_value none val_len w = w
  save_value (some v) val_len w =
      let bytes = take val_len (val_mem v) in
      if ltb 0 val_len
      then record w { bytes = w.bytes ++ bytes; sum = u32 (w.sum + checksum bytes) }
      else w

  -- The body of `while(node)`.
  unfoldable pub save_node : Node K V → Written → Written
  unfolding save_value
  save_node node w =
      let key : Bytes = elim node.key [ none ↦ [] | some k ↦ take node.key_len (mem k) ] in
      let written = save_value node.value node.val_len (record {
        bytes = w.bytes ++ u32_bytes node.key_len ++ key ++ u32_bytes node.val_len;
        sum = u32 (w.sum + checksum key);
        entries = w.entries;
      }) in
      record written { entries = w.entries + 1 }

  -- `while(node)`; the pointer is never NULL and the body leaves it as it is.
  unfoldable pub node_loop : ℕ → ℕ → Option (Node K V) → ℕ → Written → Run (ℕ × Written)
  unfolding save_node next_idx
  node_loop zero capacity ptr i w = out_of_fuel
  node_loop (suc fuel) capacity none i w = done (i, w)
  node_loop (suc fuel) capacity (some node) i w =
      node_loop fuel capacity (some node) (next_idx capacity i) (save_node node w)

  -- `for(i = 0; i < CAP; i++)`, on the same fuel.
  unfoldable pub bucket_loop : ℕ → Hashmap K V → ℕ → Written → Run Written
  unfolding node_loop
  bucket_loop zero hm i w = out_of_fuel
  bucket_loop (suc fuel) hm i w =
      let body = do
        (j, w') ← elim (get_elem? hm.buckets i) [
          | none ↦ fault
          | some node ↦ node_loop fuel hm.capacity (some node) i w
        ]
        bucket_loop fuel hm (u64 (j + 1)) w'
      in if ltb i hm.capacity then body else done w

  -- `opened` and `renamed` say whether `fopen` and `rename` succeed.
  unfoldable pub db_save : ℕ → Bool → Bool → ℕ → Hashmap K V → Disk → Run (Status × Disk)
  unfolding bucket_loop save_header
  db_save fuel opened renamed timestamp hm disk =
      let start : Written = record {
        bytes = save_header timestamp hm.count;
        sum = 0;
        entries = 0;
      } in
      let saved = do
        w ← bucket_loop fuel hm 0 start
        done (
            if renamed
            then (zero_ok, record { file = some (w.bytes ++ u32_bytes w.sum); temp = none })
            else (minus_one, record disk { temp = none }))
      in if not opened then done (minus_one, disk) else saved

-- What `fork` returns: it fails, or the caller goes on as the parent or as the child.
pub data Fork : Type 0 where
  fork_failed in_parent in_child : Fork

-- How `db_save_proc` is left: by a return, or by `exit` with a code.
pub data Left : Type 0 where
  returned : Status → Left
  exited : ℕ → Left

abbrev pub exit_code : Status → ℕ
exit_code zero_ok = 0
exit_code minus_one = 1

-- On a system with `fork`. The parent leaves the disk as it is; the child works on its own copy of
-- the table.
unfoldable pub db_save_proc {ℓ} :
    {K V : Type ℓ}
    → (K → Bytes)
    → (V → Bytes)
    → ℕ
    → Fork
    → Bool
    → Bool
    → ℕ
    → Hashmap K V
    → Disk
    → Run (Left × Disk)
unfolding db_save
db_save_proc mem val_mem fuel fork_failed opened renamed timestamp hm disk =
    done (returned minus_one, disk)
db_save_proc mem val_mem fuel in_parent opened renamed timestamp hm disk =
    done (returned zero_ok, disk)
db_save_proc mem val_mem fuel in_child opened renamed timestamp hm disk =
    db_save mem val_mem fuel opened renamed timestamp hm disk >>= λ r.
    done (exited (exit_code r.0), r.1)
