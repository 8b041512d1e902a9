-- ===== src/Storage/Load.antt =====
-- `db_load` against the format: it inserts the entries in their order. And what it does of a file
-- that `db_save` begins.
use orca_db.Base.{
  ℕ, ◌+◌, ◌^◌, ◌<◌, ◌≡◌, refl, sym, ◌∙◌, Bool, true, Option, none, some, List, [], ◌∷◌, ◌++◌, Bytes,
  length, ◌==◌, Run, done, ◌>>=◌, arith, and_then, bind_congr, bind_assoc, bind_done, and_then-some,
}
use orca_db.Hashmap.{Hashmap, Status, hm_create, hm_insert}
use orca_db.Storage.{u32_bytes, u64_bytes, db_magic, db_version, save_header}
use orca_db.Storage.Read.{
  le_value, fread_blind, load_key, load_value, load_loop, load_footer, load_table, load_capacity,
  load_count, load_version, load_magic, db_load, value_at, add_sums,
}
use orca_db.Storage.Format.{
  fread-append, load_key-append, load_value-append, le_value-u32, le_value-u64, entries_bytes, sums,
  AllShort, snapshot,
}

fread_blind-append :
    (n : ℕ) (xs ys : Bytes) → length xs ≡ n → fread_blind n (xs ++ ys) ≡ done (xs, ys)
unfolding fread_blind
fread_blind-append n xs ys h = rw (fread-append n xs ys h, fread_blind) refl

sums-lt : (sum : ℕ) (es : List (Bytes × Bytes)) → sum < 2 ^ 32 → sums sum es < 2 ^ 32
unfolding add_sums
sums-lt sum [] h = h
sums-lt sum ((k, v) ∷ es) h = sums-lt (add_sums sum k v) es (ground arith)

==_refl : (n : ℕ) → (n == n) ≡ true
==_refl n = ground arith

module _ {ℓ} {K V : Type ℓ} (mem : ℕ → K → Bytes) (alloc : ℕ → Bytes → K)
    (alloc_val : ℕ → Bytes → V) where
  -- The entries inserted one after the other, the first as number `i`.
  unfoldable pub insert_all : ℕ → ℕ → List (Bytes × Bytes) → Hashmap K V → Run (Hashmap K V)
  insert_all fuel i [] hm = done hm
  insert_all fuel i ((k, v) ∷ es) hm = do
    (_, hm') ← hm_insert (mem i) fuel hm (some (alloc i k)) (value_at alloc_val i v) (length v)
    insert_all fuel (i + 1) es hm'

  module _ (room : ℕ → Bool) (served : (n : ℕ) → room n ≡ true) where
    load_loop-entries :
        (fuel i : ℕ) (es : List (Bytes × Bytes)) (rest : Bytes) (hm : Hashmap K V) (sum : ℕ)
        → AllShort es
        → load_loop room mem alloc alloc_val fuel (length es) i (entries_bytes es rest) hm sum
          ≡ (insert_all fuel i es hm >>= λ hm'. done (some (hm', sums sum es, rest)))
    unfolding load_loop insert_all
    load_loop-entries fuel i [] rest hm sum short = refl
    load_loop-entries fuel i ((k, v) ∷ es) rest hm sum short =
        let rest₁ = entries_bytes es rest in
        let finish : Hashmap K V → Run (Option (Hashmap K V × ℕ × Bytes)) =
          λ hm'. done (some (hm', sums (add_sums sum k v) es, rest)) in
        let step = λ (k' : Bytes) (v' : Bytes × Bytes).
          hm_insert (mem i) fuel hm (some (alloc i k')) (value_at alloc_val i v'.0) (length v'.0)
          >>= λ r.
              load_loop room mem alloc alloc_val fuel (length es) (i + 1) v'.1 r.1
                (add_sums sum k' v'.0) in
        and_then-some
          (load_key room (u32_bytes (length k) ++ k ++ (u32_bytes (length v) ++ v ++ rest₁)))
          (k, u32_bytes (length v) ++ v ++ rest₁)
          (λ k'. and_then (load_value room k'.1) (step k'.0))
          (load_key-append room served k (u32_bytes (length v) ++ v ++ rest₁) short.0)
        ∙ and_then-some (load_value room (u32_bytes (length v) ++ v ++ rest₁)) (v, rest₁) (step k)
            (load_value-append room served v rest₁ short.1)
        ∙ bind_congr inserted _ (λ r. insert_all fuel (i + 1) es r.1 >>= finish)
            (λ r. load_loop-entries fuel (i + 1) es rest r.1 (add_sums sum k v) short.2)
        ∙ sym (bind_assoc inserted (λ r. insert_all fuel (i + 1) es r.1) finish)
      where
        inserted : Run (Status × Hashmap K V)
        inserted = hm_insert (mem i) fuel hm (some (alloc i k)) (value_at alloc_val i v) (length v)

    load_table-entries :
        (fuel : ℕ) (es : List (Bytes × Bytes)) (hm : Hashmap K V)
        → AllShort es
        → load_table room mem alloc alloc_val fuel
            (length es)
            (entries_bytes es (u32_bytes (sums 0 es)))
            (some hm)
          ≡ (insert_all fuel 0 es hm >>= λ hm'. done (some (hm', true)))
    unfolding load_table load_footer
    load_table-entries fuel es hm short =
        rw (load_loop-entries fuel 0 es (u32_bytes (sums 0 es)) hm 0 short) (
          bind_assoc (insert_all fuel 0 es hm) _ _
          ∙ bind_congr (insert_all fuel 0 es hm) _ _ (λ hm'. footer hm'))
      where
        footer :
            (hm' : Hashmap K V)
            → load_footer (some (hm', sums 0 es, u32_bytes (sums 0 es))) ≡ done (some (hm', true))
        footer hm' =
            rw (le_value-u32 (sums 0 es) (sums-lt 0 es (omega arith)))
              (rw (==_refl (sums 0 es)) refl)

    -- Of a snapshot in the format that it reads, whose entries are shorter than 2 ^ 32 - 1 bytes,
    -- `db_load` inserts exactly the entries, in their order, into the table that it creates, and
    -- the checksum matches, when every allocation succeeds and the inserts return.
    pub db_load-snapshot :
        (fuel timestamp : ℕ) (created : ℕ → Bool × Bool) (es : List (Bytes × Bytes))
        (hm : Hashmap K V)
        → AllShort es
        → length es < 2 ^ 64
        → hm_create
            (created (load_capacity (length es))).0
            (created (load_capacity (length es))).1
            (load_capacity (length es))
          ≡ some hm
        → db_load room mem alloc alloc_val fuel created (some (snapshot timestamp es))
          ≡ (insert_all fuel 0 es hm >>= λ hm'. done (some (hm', true)))
    unfolding db_load load_magic load_version load_count snapshot le_value
    db_load-snapshot fuel timestamp created es hm short few made =
        let file₄ = entries_bytes es (u32_bytes (sums 0 es)) in
        let file₃ = u64_bytes (length es) ++ file₄ in
        let file₂ = u64_bytes timestamp ++ file₃ in
        let file₁ = u32_bytes db_version ++ file₂ in
        bind_done (fread_blind 6 (db_magic ++ file₁)) (db_magic, file₁)
          (load_magic room mem alloc alloc_val fuel created)
          (fread_blind-append 6 db_magic file₁ refl)
        ∙ bind_done (fread_blind 4 file₁) (u32_bytes db_version, file₂)
            (load_version room mem alloc alloc_val fuel created)
            (fread_blind-append 4 (u32_bytes db_version) file₂ refl)
        ∙ bind_done (fread_blind 8 file₂) (u64_bytes timestamp, file₃)
            (λ r. fread_blind 8 r.1 >>= load_count room mem alloc alloc_val fuel created)
            (fread_blind-append 8 (u64_bytes timestamp) file₃ refl)
        ∙ bind_done (fread_blind 8 file₃) (u64_bytes (length es), file₄)
            (load_count room mem alloc alloc_val fuel created)
            (fread_blind-append 8 (u64_bytes (length es)) file₄ refl)
        ∙ counted
      where
        counted :
            load_count room mem alloc alloc_val fuel created
              (u64_bytes (length es), entries_bytes es (u32_bytes (sums 0 es)))
            ≡ (insert_all fuel 0 es hm >>= λ hm'. done (some (hm', true)))
        counted = rw (le_value-u64 (length es) few) (rw made (load_table-entries fuel es hm short))

  -- `db_load` gives NULL for every file that begins with the header that `db_save` writes: the
  -- seventh byte of the magic is read as the lowest byte of the version.
  pub db_load-save_header :
      (room : ℕ → Bool) (fuel timestamp count : ℕ) (created : ℕ → Bool × Bool) (rest : Bytes)
      → db_load room mem alloc alloc_val fuel created (some (save_header timestamp count ++ rest))
        ≡ done none
  unfolding db_load load_magic load_version save_header le_value
  db_load-save_header room fuel timestamp count created rest =
      let version : Bytes = 0 ∷ 1 ∷ 0 ∷ 0 ∷ [] in
      let tail : Bytes = 0 ∷ (u64_bytes timestamp ++ (u64_bytes count ++ rest)) in
      bind_done (fread_blind 6 (db_magic ++ (version ++ tail))) (db_magic, version ++ tail)
        (load_magic room mem alloc alloc_val fuel created)
        (fread_blind-append 6 db_magic (version ++ tail) refl)
      ∙ bind_done (fread_blind 4 (version ++ tail)) (version, tail)
          (load_version room mem alloc alloc_val fuel created)
          (fread_blind-append 4 version tail refl)
