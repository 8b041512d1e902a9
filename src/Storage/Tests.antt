-- ===== src/Storage/Tests.antt =====
-- The snapshot of one entry, and a table of one bucket.
use orca_db.Base.{
  ℕ, ◌≡◌, refl, Bool, true, none, some, List, [], ◌∷◌, ◌++◌, Bytes, done, out_of_fuel, ◌>>=◌, arith,
  replicate,
}
use orca_db.Hashmap.{Hashmap, empty_node, hm_create}
use orca_db.Storage.{Disk, checksum, save_header, db_save}
use orca_db.Storage.Read.{db_load, load_capacity}
use orca_db.Storage.Save.{db_save-endless}
use orca_db.Storage.Format.{snapshot}
use orca_db.Storage.Load.{insert_all, db_load-snapshot, db_load-save_header}

checksum_ab : checksum (b'a' ∷ b'b' ∷ []) ≡ 3105
unfolding checksum
checksum_ab = refl

abbrev own : Bytes → Bytes
own k = k

abbrev own_at : ℕ → Bytes → Bytes
own_at i k = k

abbrev always : ℕ → Bool
always n = true

abbrev both : ℕ → Bool × Bool
both n = (true, true)

abbrev one_bucket : Hashmap Bytes Bytes
one_bucket = record { buckets = empty_node ∷ []; capacity = 1; count = 0 }

abbrev no_files : Disk
no_files = record { file = none; temp = none }

abbrev entry : List (Bytes × Bytes)
entry = (b'a' ∷ [], b'x' ∷ b'y' ∷ []) ∷ []

abbrev blank : Hashmap Bytes Bytes
blank = record { buckets = replicate 1024 empty_node; capacity = 1024; count = 0 }

db_save-endless_example : db_save own own 100 true true 0 one_bucket no_files ≡ out_of_fuel
db_save-endless_example =
    db_save-endless own own 100 true 0 one_bucket no_files (omega arith) (omega arith)

db_load-snapshot_example :
    db_load always own_at own_at own_at 3 both (some (snapshot 7 entry))
    ≡ (insert_all own_at own_at own_at 3 0 entry blank >>= λ hm. done (some (hm, true)))
unfolding db_load hm_create load_capacity
db_load-snapshot_example =
    db_load-snapshot own_at own_at own_at always (λ n. refl) 3 7 both entry blank
      (omega arith, omega arith, tt) (omega arith) refl

db_load-save_header_example :
    db_load always own_at own_at own_at 3 both (some (save_header 7 2 ++ b'z' ∷ [])) ≡ done none
db_load-save_header_example = db_load-save_header own_at own_at own_at always 3 7 2 both (b'z' ∷ [])
