-- ===== src/Hashmap/Create.antt =====
-- `hm_create`, and the table that it gives.
use orca_db.Base.{
  ℕ, zero, suc, ◌+◌, ◌%◌, ◌^◌, ◌≤◌, ◌<◌, ◌≡◌, ◌≢◌, ap, refl, sym, ◌∙◌, true, false, some, none,
  Bytes, replicate, length-replicate, replicate-some, arith,
}
use orca_db.Hash.{fnv_1a}
use orca_db.Hashmap.{Node, Hashmap, empty_node, hm_create, matches, is_tomb}
use orca_db.Hashmap.Count.{count, occupied, view, view_missing}
use orca_db.Hashmap.Room.{HasRoom}
use orca_db.Hashmap.Shape.{bucket, bucket-some, IsShape}
use orca_db.Hashmap.Valid.{IsValid, matches-hash}

module _ {ℓ} {K : Type ℓ} (V : Type ℓ) (mem : K → Bytes) where
  empty_not_matched : (q : K) → fnv_1a (mem q) ≢ 0 → matches {V = V} mem q empty_node ≡ false
  empty_not_matched q visible = ground (arith, matches-hash {V = V} mem q empty_node)

  count-empty :
      (q : K)
      → fnv_1a (mem q) ≢ 0
      → (c : ℕ) → count (matches {V = V} mem q) (replicate c empty_node) ≡ 0
  unfolding count
  count-empty q visible zero = refl
  count-empty q visible (suc c) = rw (empty_not_matched q visible) (rw (count-empty q visible c))

  count-unoccupied : (c : ℕ) → count occupied (replicate {A = Node K V} c empty_node) ≡ 0
  unfolding count
  count-unoccupied zero = refl
  count-unoccupied (suc c) = omega (arith, count-unoccupied c)

  pub hm_create-unoccupied :
      (c : ℕ) (hm : Hashmap K V)
      → hm_create {V = V} true true c ≡ some hm
      → count occupied hm.buckets ≡ 0
  unfolding hm_create
  hm_create-unoccupied c hm e =
      ap (λ o. elim o [ none ↦ 0 | some h ↦ count occupied h.buckets ]) (sym e) ∙ count-unoccupied c

  empty-IsShape : (b c : ℕ) → IsShape b c (replicate {A = Node K V} c empty_node)
  unfolding is_tomb
  empty-IsShape b c =
      let blank = λ (x : ℕ) (n : Node K V) (e : bucket c (replicate c empty_node) x ≡ some n).
        replicate-some c (x % c) empty_node n e in
      record {
        width = length-replicate c empty_node;
        near = λ x n e occ. absurd (occ (ap (λ m. m.hash) (blank x n e)));
        placed = λ x n e occ. absurd (occ (ap (λ m. m.hash) (blank x n e)));
        linked = λ x p n ep en occ. absurd (occ (ap (λ m. m.hash) (blank (x + 1) n en)));
        whole = λ x n e. ap is_tomb (blank x n e);
      }

  -- With both allocations made, a capacity that is a power of two gives a valid table, for every
  -- bound `b` that the capacity and a `uint16_t` allow, which reads NULL under every key that has
  -- a hash other than 0, counts no entry, and has room for every key.
  pub hm_create-IsValid :
      (bits b : ℕ)
      → bits ≤ 63
      → 0 < b
      → b ≤ 2 ^ bits
      → b < 2 ^ 16
      → (hm : Hashmap K V) × (hm_create true true (2 ^ bits) ≡ some hm)
        × IsValid mem b hm
        × (hm.count ≡ 0)
        × ((q : K) → fnv_1a (mem q) ≢ 0 → view mem q hm.buckets ≡ none)
        × ((k : K) → HasRoom mem b hm k)
  unfolding hm_create
  hm_create-IsValid bits b small pos reach counted =
      let c = 2 ^ bits in
      let missing = λ (q : K) (visible : fnv_1a (mem q) ≢ 0). count-empty q visible c in
      (
        record { buckets = replicate c empty_node; capacity = c; count = 0 },
        refl,
        record {
          bits = bits;
          small = small;
          power = refl;
          reach = reach;
          counted = counted;
          shape = empty-IsShape b c;
          unique = λ q visible. omega (arith, missing q visible);
        },
        refl,
        λ q visible. view_missing mem q (replicate c empty_node) (missing q visible),
        λ k.
            let (n, at_n) =
              bucket-some c (replicate {A = Node K V} c empty_node) (length-replicate c empty_node)
                (omega arith) (fnv_1a (mem k) + 0) in
            (
              0,
              n,
              pos,
              at_n,
              ap (λ m. m.hash) (replicate-some c ((fnv_1a (mem k) + 0) % c) empty_node n at_n),
            ),
      )
