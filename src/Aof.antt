-- ===== src/Aof.antt =====
-- core/storage/aof.h and aof.c: the append-only file, with what stdio's printing writes.
pub mod Scan
pub mod Replay
pub mod Rewrite
pub mod Digits
pub mod Line
pub mod Roundtrip
pub mod Log
pub mod Commands
pub mod Durable
mod Tests
use orca_db.Base.{
  ℕ, zero, suc, ◌+◌, ◌-◌, ◌*◌, ◌/◌, ◌%◌, ◌^◌, Bool, true, false, not, Option, none, some, List, [],
  ◌∷◌, ◌++◌, Bytes, u64, length, ltb, leb, ◌==◌, if◌then◌else◌,
}
use orca_db.Hashmap.{Status, zero_ok, minus_one}

pub data SyncPolicy : Type 0 where
  aof_sync_always aof_sync_everysec aof_sync_no : SyncPolicy

-- `file` is what has been written to the stream, `none` for a NULL stream; `durable` counts the
-- bytes of it that an `fsync` has covered.
pub record Aof : Type 0 where
  pub file : Option Bytes
  pub durable : ℕ
  pub sync_policy : SyncPolicy
  pub last_sync : ℕ
  pub bytes_written : ℕ

-- `existing` is what `fopen(…, "a+")` finds, `none` if it fails; `now` is the clock.
unfoldable pub aof_open : Bool → Option Bytes → SyncPolicy → ℕ → Option Aof
aof_open allocated none policy now = none
aof_open allocated (some existing) policy now =
    if not allocated
    then none
    else some (record {
      file = some existing;
      durable = length existing;
      sync_policy = policy;
      last_sync = now;
      bytes_written = 0;
    })

-- The decimal digits of `%zu`; a `size_t` has at most 20.
unfoldable pub digits_loop : ℕ → ℕ → Bytes → Bytes
digits_loop zero n acc = acc
digits_loop (suc fuel) n acc =
    let more = digits_loop fuel (n / 10) ((b'0' + n % 10) ∷ acc) in
    if ltb n 10 then (b'0' + n) ∷ acc else more

unfoldable pub digits : ℕ → Bytes
unfolding digits_loop
digits n = digits_loop 20 n []

-- `fsync`, after `fflush`.
abbrev pub fsync : Bytes → Aof → Aof
fsync file aof = record aof { durable = length file }

unfoldable pub sync_by : SyncPolicy → ℕ → Bytes → Aof → Aof
sync_by aof_sync_always now file aof = fsync file aof
sync_by aof_sync_everysec now file aof =
    if leb (aof.last_sync + 1) now then record (fsync file aof) { last_sync = now } else aof
sync_by aof_sync_no now file aof = aof

unfoldable pub aof_sync : ℕ → Aof → Aof
unfolding sync_by
aof_sync now aof = elim aof.file [ none ↦ aof | some file ↦ sync_by aof.sync_policy now file aof ]

-- "SET "
abbrev pub set_word : Bytes
set_word = 83 ∷ 69 ∷ 84 ∷ 32 ∷ []

-- "DEL "
abbrev pub del_word : Bytes
del_word = 68 ∷ 69 ∷ 76 ∷ 32 ∷ []

-- The line of a set command up to its value, and the whole.
unfoldable pub set_prefix : Bytes → ℕ → Bytes
unfolding digits
set_prefix key val_len =
    set_word ++ (digits (length key) ++ (32 ∷ (key ++ (32 ∷ (digits val_len ++ (32 ∷ []))))))

unfoldable pub set_line : Bytes → Bytes → Bytes
unfolding set_prefix
set_line key value = set_prefix key (length value) ++ (value ++ (10 ∷ []))

unfoldable pub del_line : Bytes → Bytes
unfolding digits
del_line key = del_word ++ (digits (length key) ++ (32 ∷ (key ++ (10 ∷ []))))

-- Both appends; `printed` says whether the first `fprintf` succeeds, and `line` is what is written,
-- `count` of it counted.
unfoldable pub append : Bool → ℕ → Bytes → ℕ → Aof → Status × Aof
unfolding aof_sync
append printed now line count aof = elim aof.file [
  | none ↦ (minus_one, aof)
  | some file ↦
      let aof' = record aof {
        file = some (file ++ line);
        bytes_written = u64 (aof.bytes_written + count);
      } in
      if not printed then (minus_one, aof) else (zero_ok, aof_sync now aof')
]

-- A NULL key or value is `none`.
unfoldable pub aof_append_set : Bool → ℕ → Aof → Option Bytes → Option Bytes → Status × Aof
unfolding append set_line
aof_append_set printed now aof none value = (minus_one, aof)
aof_append_set printed now aof (some key) none = (minus_one, aof)
aof_append_set printed now aof (some key) (some value) =
    append printed now (set_line key value)
      (length (set_prefix key (length value)) + length value + 1) aof

unfoldable pub aof_append_del : Bool → ℕ → Aof → Option Bytes → Status × Aof
unfolding append del_line
aof_append_del printed now aof none = (minus_one, aof)
aof_append_del printed now aof (some key) =
    append printed now (del_line key) (length (del_line key)) aof

-- What is on the disk after `aof_close`, which flushes all.
unfoldable pub aof_close : Option Aof → Option Bytes
aof_close none = none
aof_close (some aof) = aof.file
