-- ===== src/Storage/Format.antt =====
-- The snapshot that `db_load` reads, written out: a header with the six bytes of the magic, the
-- entries, and the sum of their checksums.
use orca_db.Base.{
  ℕ, suc, ◌+◌, ◌^◌, ◌<◌, ◌≡◌, refl, Bool, true, some, List, [], ◌∷◌, ◌++◌, Bytes, u32, length,
  length-append, take-append, drop-append, le→ltb, ◌==◌, ==_ne, if◌then◌else◌, done, arith,
}
use orca_db.Storage.{u32_bytes, u64_bytes, db_magic, db_version}
use orca_db.Storage.Read.{le_value, fread, load_data, load_key, load_value, add_sums}

pub le_value-u32 : (n : ℕ) → n < 2 ^ 32 → le_value (u32_bytes n) ≡ n
unfolding le_value
le_value-u32 n h = omega arith

pub le_value-u64 : (n : ℕ) → n < 2 ^ 64 → le_value (u64_bytes n) ≡ n
unfolding le_value
le_value-u64 n h = omega arith

pub fread-append : (n : ℕ) (xs ys : Bytes) → length xs ≡ n → fread n (xs ++ ys) ≡ some (xs, ys)
unfolding fread
fread-append n xs ys h =
    rw (le→ltb (length (xs ++ ys)) n (omega (arith, length-append xs ys, h)))
      (rw (take-append n xs ys h) (rw (drop-append n xs ys h) refl))

-- A block of bytes behind its length.
abbrev pub block_bytes : Bytes → Bytes
block_bytes xs = u32_bytes (length xs) ++ xs

module _ (room : ℕ → Bool) (served : (n : ℕ) → room n ≡ true) where
  load_data-append :
      (xs ys : Bytes)
      → suc (length xs) < 2 ^ 32
      → load_data room (length xs) (xs ++ ys) ≡ done (some (xs, ys))
  unfolding load_data
  load_data-append xs ys h = rw (served (u32 (length xs + 1))) (
      rw (==_ne (u32 (length xs + 1)) 0 (λ e. omega (arith, e, h)))
        (rw (fread-append (length xs) xs ys refl) refl))

  pub load_key-append :
      (xs ys : Bytes)
      → suc (length xs) < 2 ^ 32
      → load_key room (u32_bytes (length xs) ++ xs ++ ys) ≡ done (some (xs, ys))
  unfolding load_key
  load_key-append xs ys h =
      rw (fread-append 4 (u32_bytes (length xs)) (xs ++ ys) refl)
        (rw (le_value-u32 (length xs) (omega arith)) (load_data-append xs ys h))

  value_or_null :
      (xs ys : Bytes)
      → suc (length xs) < 2 ^ 32
      → (if length xs == 0
          then done (some ([], xs ++ ys))
          else load_data room (length xs) (xs ++ ys))
        ≡ done (some (xs, ys))
  value_or_null [] ys h = refl
  value_or_null (x ∷ xs) ys h =
      rw (==_ne (suc (length xs)) 0 (λ e. omega (arith, e))) (load_data-append (x ∷ xs) ys h)

  pub load_value-append :
      (xs ys : Bytes)
      → suc (length xs) < 2 ^ 32
      → load_value room (u32_bytes (length xs) ++ xs ++ ys) ≡ done (some (xs, ys))
  unfolding load_value
  load_value-append xs ys h =
      rw (fread-append 4 (u32_bytes (length xs)) (xs ++ ys) refl)
        (rw (le_value-u32 (length xs) (omega arith)) (value_or_null xs ys h))

-- The bytes of the entries, and what their checksums add up to.
abbrev pub entries_bytes : List (Bytes × Bytes) → Bytes → Bytes
entries_bytes [] rest = rest
entries_bytes ((k, v) ∷ es) rest =
    u32_bytes (length k) ++ (k ++ (u32_bytes (length v) ++ (v ++ entries_bytes es rest)))

abbrev pub sums : ℕ → List (Bytes × Bytes) → ℕ
sums sum [] = sum
sums sum ((k, v) ∷ es) = sums (add_sums sum k v) es

abbrev pub AllShort : List (Bytes × Bytes) → Type 0
AllShort [] = Unit
AllShort ((k, v) ∷ es) = (suc (length k) < 2 ^ 32) × (suc (length v) < 2 ^ 32) × AllShort es

-- A whole snapshot of a format that `db_load` accepts.
unfoldable pub snapshot : ℕ → List (Bytes × Bytes) → Bytes
snapshot timestamp es =
    db_magic
    ++ u32_bytes db_version
    ++ u64_bytes timestamp
    ++ u64_bytes (length es)
    ++ entries_bytes es (u32_bytes (sums 0 es))
