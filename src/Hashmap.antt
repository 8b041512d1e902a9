-- ===== src/Hashmap.antt =====
-- core/hashmap/hashmap.h and hashmap.c: the open-addressing table with Robin Hood probing.
-- A key is a pointer of a type `K`; `mem` is what memory holds behind a pointer during the call,
-- up to the terminating NUL. A value is a pointer that the table only stores, of a type `V`.
-- `load_factor` is written by `hm_create` and never read, so it is left out.
-- The probing loops have no bound in the source: they take fuel, one unit for each round.
pub mod Index
pub mod Shape
pub mod Count
pub mod Valid
pub mod Find
pub mod Get
pub mod Update
pub mod Fresh
pub mod Carry
pub mod Loop
pub mod Present
pub mod Room
pub mod Insert
pub mod Delete
pub mod Hidden
pub mod Create
mod Tests
use orca_db.Base.{
  ℕ, zero, suc, ◌+◌, ◌-◌, ◌%◌, ◌^◌, bit_and, bit_or, Bool, true, false, ◌&&◌, ◌||◌, not, Option,
  none, some, List, [], ◌∷◌, Bytes, u16, u64, length, get_elem?, set, take, replicate, bytes_eq,
  ltb, ◌==◌, if◌then◌else◌, Run, done, fault, out_of_fuel,
}
use orca_db.Hash.{fnv_1a}

-- `value` is `none` for NULL.
pub record Node {ℓ} (K V : Type ℓ) : Type ℓ where
  pub key : Option K
  pub value : Option V
  pub hash : ℕ
  pub key_len : ℕ
  pub val_len : ℕ
  pub dib : ℕ
  pub flags : ℕ

pub record Hashmap {ℓ} (K V : Type ℓ) : Type ℓ where
  pub buckets : List (Node K V)
  pub capacity : ℕ
  pub count : ℕ

-- What an operation returns beside the table: 0 or -1.
pub data Status : Type 0 where
  zero_ok minus_one : Status

-- `capacity - 1` and the next index, in `size_t`.
abbrev pub mask : ℕ → ℕ
mask capacity = u64 (capacity + (2 ^ 64 - 1))

unfoldable pub idx : ℕ → ℕ → ℕ
idx capacity hash = bit_and hash (mask capacity)

unfoldable pub next_idx : ℕ → ℕ → ℕ
next_idx capacity i = bit_and (u64 (i + 1)) (mask capacity)

-- `HM_FLAG_TOMB` is the lowest bit.
abbrev pub hm_flag_tomb : ℕ
hm_flag_tomb = 1

module _ {ℓ} {K V : Type ℓ} where
  -- `calloc` zeroes the buckets.
  abbrev pub empty_node : Node K V
  empty_node = record {
    key = none;
    value = none;
    hash = 0;
    key_len = 0;
    val_len = 0;
    dib = 0;
    flags = 0;
  }

  -- `allocated` says whether each of the two allocations succeeds.
  unfoldable pub hm_create : Bool → Bool → ℕ → Option (Hashmap K V)
  hm_create header buckets capacity =
      if not header
      then none
      else if not buckets
      then none
      else some (record { buckets = replicate capacity empty_node; capacity = capacity; count = 0 })

  unfoldable pub is_tomb : Node K V → Bool
  is_tomb node = not (bit_and node.flags hm_flag_tomb == 0)

  -- `node->hash == 0 || (node->flags & HM_FLAG_TOMB)`
  unfoldable pub is_free : Node K V → Bool
  unfolding is_tomb
  is_free node = node.hash == 0 || is_tomb node

module _ {ℓ} {K V : Type ℓ} (mem : K → Bytes) where
  -- The bytes behind `node->key`; a zeroed bucket has none.
  abbrev pub key_bytes : Node K V → Bytes
  key_bytes node = elim node.key [ none ↦ [] | some p ↦ mem p ]

  -- The test that both loops make for an occupied bucket, `memcmp` over `key_len` bytes.
  unfoldable pub matches : K → Node K V → Bool
  matches key node =
      let key_len = length (mem key) in
      node.hash == fnv_1a (mem key)
      && (node.key_len == key_len
          && bytes_eq (take key_len (key_bytes node)) (take key_len (mem key)))

  unfoldable pub new_node : K → Option V → ℕ → Node K V
  new_node key value val_len = record {
    key = some key;
    value = value;
    hash = fnv_1a (mem key);
    key_len = u16 (length (mem key));
    val_len = u16 val_len;
    dib = 0;
    flags = 0;
  }

  -- The loop of `hm_insert`, at bucket `i`, carrying `cur`.
  unfoldable pub insert_loop :
      ℕ → K → Option V → ℕ → Hashmap K V → Node K V → ℕ → Run (Status × Hashmap K V)
  unfolding is_free matches next_idx
  insert_loop zero key value val_len hm cur i = out_of_fuel
  insert_loop (suc fuel) key value val_len hm cur i = elim (get_elem? hm.buckets i) [
    | none ↦ fault
    | some node ↦
        let next = next_idx hm.capacity i in
        let placed = set hm.buckets i cur in
        let updated = set hm.buckets i (record node { value = value; val_len = u16 val_len }) in
        let swapped =
          insert_loop fuel key value val_len (record hm { buckets = placed })
            (record node { dib = u16 (node.dib + 1) }) next in
        let passed =
          insert_loop fuel key value val_len hm (record cur { dib = u16 (cur.dib + 1) }) next in
        if is_free node
        then done (zero_ok, record hm { buckets = placed; count = u64 (hm.count + 1) })
        else if matches key node
        then done (zero_ok, record hm { buckets = updated })
        else if ltb node.dib cur.dib
        then swapped
        else passed
  ]

  -- `none` is a NULL argument; a missing table is `hm_insert(NULL, …)`, which changes nothing.
  unfoldable pub hm_insert : ℕ → Hashmap K V → Option K → Option V → ℕ → Run (Status × Hashmap K V)
  unfolding insert_loop new_node idx
  hm_insert fuel hm none value val_len = done (minus_one, hm)
  hm_insert fuel hm (some key) value val_len =
      insert_loop fuel key value val_len hm (new_node key value val_len)
        (idx hm.capacity (fnv_1a (mem key)))

  -- The loop of `hm_get`.
  unfoldable pub get_loop : ℕ → K → Hashmap K V → ℕ → ℕ → Run (Option V)
  unfolding matches next_idx
  get_loop zero key hm dib i = out_of_fuel
  get_loop (suc fuel) key hm dib i = elim (get_elem? hm.buckets i) [
    | none ↦ fault
    | some node ↦
        let rest = get_loop fuel key hm (u16 (dib + 1)) (next_idx hm.capacity i) in
        if node.hash == 0 || ltb node.dib dib
        then done none
        else if matches key node
        then done node.value
        else rest
  ]

  unfoldable pub hm_get : ℕ → Hashmap K V → Option K → Run (Option V)
  unfolding get_loop idx
  hm_get fuel hm none = done none
  hm_get fuel hm (some key) = get_loop fuel key hm 0 (idx hm.capacity (fnv_1a (mem key)))

  -- The loop of `hm_delete`: a node that is found stays in its bucket, with its flag set.
  unfoldable pub delete_loop : ℕ → K → Hashmap K V → ℕ → ℕ → Run (Status × Hashmap K V)
  unfolding matches next_idx
  delete_loop zero key hm dib i = out_of_fuel
  delete_loop (suc fuel) key hm dib i = elim (get_elem? hm.buckets i) [
    | none ↦ fault
    | some node ↦
        let rest = delete_loop fuel key hm (u16 (dib + 1)) (next_idx hm.capacity i) in
        let flagged = record node { flags = bit_or node.flags hm_flag_tomb } in
        if node.hash == 0 || ltb node.dib dib
        then done (minus_one, hm)
        else if matches key node
        then done (
          zero_ok,
          record hm { buckets = set hm.buckets i flagged; count = u64 (hm.count + (2 ^ 64 - 1)) },
        )
        else rest
  ]

  -- The body never reads `free_value`.
  unfoldable pub hm_delete : ℕ → Hashmap K V → Option K → Bool → Run (Status × Hashmap K V)
  unfolding delete_loop idx
  hm_delete fuel hm none free_value = done (minus_one, hm)
  hm_delete fuel hm (some key) free_value =
      delete_loop fuel key hm 0 (idx hm.capacity (fnv_1a (mem key)))

-- What `hm_free` hands to `free`: it never reads `free_values`.
pub data Freed : Type 0 where
  bucket_array header : Freed

unfoldable pub hm_free {ℓ} : {K V : Type ℓ} → Option (Hashmap K V) → Bool → List Freed
hm_free none free_values = []
hm_free (some hm) free_values = bucket_array ∷ header ∷ []
