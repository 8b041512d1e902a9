-- ===== src/Hashmap/Tests.antt =====
-- The table at small capacities: keys are their own bytes, values are numbers.
use orca_db.Base.{
  Yields, ℕ, ◌^◌, ◌≡◌, ◌≢◌, ◌⊎◌, refl, true, false, Option, some, none, List, [], ◌∷◌, Bytes, Run,
  done, ◌>>=◌, get_elem?, arith,
}
use orca_db.Hash.{fnv_1a}
use orca_db.Hashmap.{
  Node, Hashmap, Status, zero_ok, minus_one, empty_node, hm_create, hm_insert, hm_get, hm_delete,
  matches,
}
use orca_db.Hashmap.Count.{count, view}
use orca_db.Hashmap.Create.{hm_create-IsValid}
use orca_db.Hashmap.Delete.{hm_delete-deleted, hm_get-delete, hm_delete_twice, Again}
use orca_db.Hashmap.Find.{deleted}
use orca_db.Hashmap.Get.{hm_get-view}
use orca_db.Hashmap.Hidden.{zero_hash_hidden}
use orca_db.Hashmap.Insert.{Writes, hm_insert-Writes}
use orca_db.Hashmap.Room.{HasRoom}
use orca_db.Hashmap.Update.{IsKey}
use orca_db.Hashmap.Valid.{IsValid}

abbrev own : Bytes → Bytes
own k = k

abbrev key_a : Bytes
key_a = b'a' ∷ []

abbrev key_b : Bytes
key_b = b'b' ∷ []

key_a-IsKey : IsKey own key_a
unfolding fnv_1a
key_a-IsKey = record { visible = omega arith; short = omega arith }

abbrev Table : Type 0
Table = Hashmap Bytes ℕ

-- Insert two keys, update the first, delete the second: it is still read, and counted out.
abbrev session : Run (Option ℕ × Option ℕ × ℕ)
session = do
  (_, h₁) ←
      hm_insert own 5 (record { buckets = hm_buckets; capacity = 4; count = 0 }) (some key_a)
        (some 1) 1
  (_, h₂) ← hm_insert own 5 h₁ (some key_b) (some 2) 1
  (_, h₃) ← hm_insert own 5 h₂ (some key_a) (some 3) 1
  (_, h₄) ← hm_delete own 5 h₃ (some key_b) false
  a ← hm_get own 5 h₄ (some key_a)
  b ← hm_get own 5 h₄ (some key_b)
  done (a, b, h₄.count)
  where
    blank : Node Bytes ℕ
    blank = empty_node

    hm_buckets : List (Node Bytes ℕ)
    hm_buckets = blank ∷ blank ∷ blank ∷ blank ∷ []

session_reads : session ≡ done (some 3, some 2, 1)
unfolding hm_insert hm_get hm_delete fnv_1a
session_reads = refl

hm_create-IsValid_example :
    (hm : Table) × (hm_create true true (2 ^ 4) ≡ some hm)
    × IsValid own 16 hm
    × (hm.count ≡ 0)
    × ((q : Bytes) → fnv_1a q ≢ 0 → view own q hm.buckets ≡ none)
    × ((k : Bytes) → HasRoom own 16 hm k)
hm_create-IsValid_example =
    hm_create-IsValid ℕ own 4 16 (omega arith) (omega arith) (omega arith) (omega arith)

abbrev fresh : Table
fresh = hm_create-IsValid_example.0

hm_insert-Writes_example :
    (r : Status × Table) × (hm_insert own 17 fresh (some key_a) (some 7) 1 ≡ done r)
    × Writes own 16 fresh key_a (some 7) r
hm_insert-Writes_example =
    hm_insert-Writes own 16 hm_create-IsValid_example.2 key_a key_a-IsKey (some 7) 1 17
      (omega arith) (λ _. hm_create-IsValid_example.5 key_a)

abbrev sample : Table
sample = hm_insert-Writes_example.0.1

hm_get-view_example : hm_get own 17 sample (some key_a) ≡ done (view own key_a sample.buckets)
hm_get-view_example =
    hm_get-view own 16 hm_insert-Writes_example.2.valid key_a 17 key_a-IsKey.visible (omega arith)

hm_delete-deleted_example :
    ((count (matches own key_a) sample.buckets ≡ 0)
      × (hm_delete own 17 sample (some key_a) true ≡ done (minus_one, sample)))
    ⊎ ((i : ℕ) × (n : Node Bytes ℕ) × (get_elem? sample.buckets i ≡ some n)
        × (matches own key_a n ≡ true)
        × (hm_delete own 17 sample (some key_a) true ≡ done (zero_ok, deleted own sample i n)))
hm_delete-deleted_example =
    hm_delete-deleted own 16 hm_insert-Writes_example.2.valid key_a true 17 key_a-IsKey.visible
      (omega arith)

-- The entry of `key_a` with these flags, which stands in bucket 0 of 4.
abbrev entry : ℕ → Node Bytes ℕ
entry flags = record {
  key = some key_a;
  value = some 7;
  hash = 0xaf63dc4c8601ec8c;
  key_len = 1;
  val_len = 1;
  dib = 0;
  flags = flags;
}

abbrev holding : ℕ → ℕ → Table
holding flags count = record {
  buckets = entry flags ∷ empty_node ∷ empty_node ∷ empty_node ∷ [];
  capacity = 4;
  count = count;
}

holding_deleted : hm_delete own 1 (holding 0 1) (some key_a) false ≡ done (zero_ok, holding 1 0)
unfolding hm_delete fnv_1a
holding_deleted = refl

hm_get-delete_example :
    hm_get own 5 (holding 1 0) (some key_a) ≡ hm_get own 5 (holding 0 1) (some key_a)
hm_get-delete_example =
    hm_get-delete own (holding 0 1) (holding 1 0) key_a false 1 holding_deleted key_a 5

still_read : hm_get own 5 (holding 1 0) (some key_a) ≡ done (some 7)
unfolding hm_get fnv_1a
still_read = refl

hm_delete_twice_example :
    Again own (holding 0 1) (holding 1 0) key_a false 1 holding_deleted true (holding 1 0)
hm_delete_twice_example =
    hm_delete_twice own (holding 0 1) (holding 1 0) key_a false 1 holding_deleted true

-- 77kepQFQ8Kl, whose hash is 0.
abbrev hidden : Bytes
hidden = 55 ∷ 55 ∷ 107 ∷ 101 ∷ 112 ∷ 81 ∷ 70 ∷ 81 ∷ 56 ∷ 75 ∷ 108 ∷ []

hidden_hash : fnv_1a hidden ≡ 0
unfolding fnv_1a
hidden_hash = refl

-- Its insert succeeds, and it is not read.
abbrev hidden_read : Run (Status × Option ℕ)
hidden_read = do
  (status, hm) ← hm_insert own 5 (holding 0 1) (some hidden) (some 8) 1
  v ← hm_get own 5 hm (some hidden)
  done (status, v)

hidden_insert : hidden_read ≡ done (zero_ok, none)
unfolding hm_insert hm_get fnv_1a
hidden_insert = refl

zero_hash_hidden_example :
    Yields (λ v. v ≡ none) (hm_get own 5 (holding 0 1) (some hidden))
    × Yields (λ r. r ≡ (minus_one, holding 0 1)) (hm_delete own 5 (holding 0 1) (some hidden) true)
zero_hash_hidden_example = zero_hash_hidden own hidden hidden_hash 5 (holding 0 1) true
