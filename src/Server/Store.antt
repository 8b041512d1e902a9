-- ===== src/Server/Store.antt =====
-- A table that holds what a store of pairs holds: `hm_insert` and `hm_get` of copies, and the
-- inserts that the replay makes.
use mathlib.Core.Path.{ap₂}
use orca_db.Aof.Log.{insert_each, set_line-long}
use orca_db.Base.{
  ℕ, ◌+◌, ◌^◌, ◌≤◌, ◌<◌, ◌≡◌, ◌≢◌, ◌∙◌, refl, ap, true, false, Option, none, some, List, [], ◌∷◌,
  Bytes, length, bytes_eq, if◌then◌else◌, Bool, done, arith,
}
use orca_db.Hash.{fnv_1a}
use orca_db.Hashmap.{Hashmap, Status, hm_insert, hm_get}
use orca_db.Hashmap.Count.{count, occupied, view}
use orca_db.Hashmap.Get.{hm_get-view}
use orca_db.Hashmap.Insert.{hm_insert-Writes}
use orca_db.Hashmap.Room.{few-HasRoom}
use orca_db.Hashmap.Update.{IsKey}
use orca_db.Hashmap.Valid.{IsValid}
use orca_db.Server.Session.{Store, lookup, store_all, NoNul, IsName, IsEntry, AllEntries}

module _ {ℓ} {K V : Type ℓ} (mem : K → Bytes) (val_mem : V → Bytes) where
  abbrev pub value_bytes : Option V → Option Bytes
  value_bytes none = none
  value_bytes (some v) = some (val_mem v)

  module _ (alloc : Bytes → K) (b : ℕ) where
    -- The table is valid, has at most as many buckets in use as the store has pairs, and reads what
    -- the store reads.
    pub record HoldsStore (store : Store) (hm : Hashmap K V) : Type ℓ where
      pub valid : IsValid mem b hm
      pub filled : count occupied hm.buckets ≤ length store
      pub reads :
          (q : Bytes) → IsName q → value_bytes (view mem (alloc q) hm.buckets) ≡ lookup q store

  -- Where copies are put: memory holds there what was copied.
  abbrev pub Copies : (Bytes → K) → Type 0
  Copies alloc = (k : Bytes) → NoNul k → mem (alloc k) ≡ k

  abbrev pub ValueCopies : (Bytes → V) → Type 0
  ValueCopies alloc_val = (v : Bytes) → NoNul v → val_mem (alloc_val v) ≡ v

  module _ (alloc : Bytes → K) (alloc_val : Bytes → V) (copies : Copies alloc)
      (value_copies : ValueCopies alloc_val) (b fuel : ℕ) (enough : b < fuel) where
    IsName-IsKey : (k : Bytes) → IsName k → length k < 2 ^ 16 → IsKey mem (alloc k)
    IsName-IsKey k name short = record {
      visible = rw (copies k name.text) name.visible;
      short = rw (copies k name.text) short;
    }

    updated_reads :
        (c : Bool) (v : Bytes) (o : Option V) (rest : Option Bytes)
        → NoNul v
        → value_bytes o ≡ rest
        → value_bytes (if c then some (alloc_val v) else o) ≡ (if c then some v else rest)
    updated_reads true v o rest plain e = ap some (value_copies v plain)
    updated_reads false v o rest plain e = e

    -- An insert of copies is a pair more in the store.
    pub hm_insert-store :
        (k v : Bytes) (store : Store) (hm : Hashmap K V)
        → IsEntry k v
        → HoldsStore alloc b store hm
        → length store < b
        → (r : Status × Hashmap K V) × (hm_insert mem fuel hm
              (some (alloc k))
              (some (alloc_val v))
              (length v)
            ≡ done r)
          × HoldsStore alloc b ((k, v) ∷ store) r.1
    unfolding lookup
    hm_insert-store k v store hm entry holds space =
        let key = IsName-IsKey k entry.name (omega (arith, set_line-long k v, entry.fits.short)) in
        let (r, run, writes) =
          hm_insert-Writes mem b holds.valid (alloc k) key (some (alloc_val v)) (length v) fuel
            enough (λ _. few-HasRoom mem b holds.valid (alloc k) (omega (arith, holds.filled))) in
        (
          r,
          run,
          record {
            valid = writes.valid;
            filled = omega (arith, writes.filled, holds.filled);
            reads = λ q name.
                let seen : fnv_1a (mem (alloc q)) ≢ 0 = rw (copies q name.text) name.visible in
                let read = λ (x y : Bytes).
                  value_bytes
                    (if bytes_eq x y then some (alloc_val v) else view mem (alloc q) hm.buckets) in
                ap value_bytes (writes.reads (alloc q) seen)
                ∙ ap₂ read (copies q name.text) (copies k entry.name.text)
                ∙ updated_reads (bytes_eq q k) v (view mem (alloc q) hm.buckets) (lookup q store)
                    entry.value_text (holds.reads q name);
          },
        )

    -- A read is a read of the store.
    pub hm_get-store :
        (q : Bytes) (store : Store) (hm : Hashmap K V)
        → IsName q
        → HoldsStore alloc b store hm
        → (o : Option V) × (hm_get mem fuel hm (some (alloc q)) ≡ done o)
          × (value_bytes o ≡ lookup q store)
    hm_get-store q store hm name holds = (
      view mem (alloc q) hm.buckets,
      hm_get-view mem b holds.valid (alloc q) fuel (rw (copies q name.text) name.visible) enough,
      holds.reads q name,
    )

    -- Inserts of copies, as the replay makes them.
    pub insert_each-store :
        (i : ℕ) (es : List (Bytes × Bytes)) (store : Store) (hm : Hashmap K V)
        → AllEntries es
        → HoldsStore alloc b store hm
        → length store + length es ≤ b
        → (hm' : Hashmap K V) × (insert_each (λ _. mem) (λ _. alloc) (λ _. alloc_val) fuel i es hm
            ≡ done hm')
          × HoldsStore alloc b (store_all es store) hm'
    unfolding insert_each store_all
    insert_each-store i [] store hm entries holds space = (hm, refl, holds)
    insert_each-store i ((k, v) ∷ es) store hm entries holds space =
        let (r, run, holds₁) = hm_insert-store k v store hm entries.0 holds (omega arith) in
        let (hm', rest, holds₂) =
          insert_each-store (i + 1) es ((k, v) ∷ store) r.1 entries.1 holds₁ (omega arith) in
        (hm', rw run rest, holds₂)
