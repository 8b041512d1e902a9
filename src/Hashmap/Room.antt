-- ===== src/Hashmap/Room.antt =====
-- When `hm_insert` finds an empty bucket in reach of a key.
use orca_db.Base.{
  ℕ, zero, suc, ◌+◌, ◌-◌, ◌%◌, ◌≤◌, ◌<◌, ◌≡◌, ◌≢◌, ◌⊎◌, inl, inr, sym, ◌∙◌, ap, not, ◌==◌,
  Bool-cases, some, List, length, set, length-set, get_elem?-set_ne, Bytes, arith,
}
use orca_db.Hash.{fnv_1a}
use orca_db.Hashmap.{Node, Hashmap}
use orca_db.Hashmap.Count.{count, count-set, occupied, to_nat}
use orca_db.Hashmap.Index.{step-mod-ne}
use orca_db.Hashmap.Shape.{bucket, bucket-some}
use orca_db.Hashmap.Valid.{IsValid, capacity-pos}

module _ {ℓ} {K V : Type ℓ} (mem : K → Bytes) (b : ℕ) where
  -- An empty bucket fewer than `b` steps from the key's home.
  abbrev pub HasRoom : Hashmap K V → K → Type ℓ
  HasRoom hm k =
      (d : ℕ) × (f : Node K V) × (d < b)
      × (bucket hm.capacity hm.buckets (fnv_1a (mem k) + d) ≡ some f)
      × (f.hash ≡ 0)

module _ {ℓ} {K V : Type ℓ} (c x : ℕ) where
  -- Of the `b` buckets from `x` on, one is empty, or `b` buckets of the table are occupied.
  free_or_full :
      (b : ℕ) (t : List (Node K V))
      → length t ≡ c
      → 0 < c
      → b ≤ c
      → ((d : ℕ) × (f : Node K V) × (d < b) × (bucket c t (x + d) ≡ some f) × (f.hash ≡ 0))
        ⊎ (b ≤ count occupied t)
  free_or_full zero t width pos le = inr (omega arith)
  free_or_full (suc b) t width pos le =
      let (f, at_f) = bucket-some c t width pos (x + b) in
      elim (Bool-cases (f.hash == 0)) [
        | inl free ↦ inl (b, f, omega arith, at_f, ground arith)
        | inr taken ↦
            let cleared : Node K V = record f { hash = 0 } in
            let t' = set t ((x + b) % c) cleared in
            elim (free_or_full b t' (length-set t ((x + b) % c) cleared ∙ width) pos
              (omega arith)) [
                | inl (d, g, near, at_g, free) ↦
                    let apart : (x + b) % c ≢ (x + d) % c = λ e.
                      step-mod-ne c (x + d) (b - d) (omega arith) (omega arith)
                        (ap (λ i. i % c) (omega arith) ∙ e) in
                    inl (
                      d,
                      g,
                      omega arith,
                      sym (get_elem?-set_ne t ((x + b) % c) ((x + d) % c) cleared apart) ∙ at_g,
                      free,
                    )
                | inr full ↦ inr (
                    omega (
                      arith,
                      full,
                      count-set occupied t ((x + b) % c) f cleared at_f,
                      ap (λ p. to_nat (not p)) taken,
                    ))
              ]
      ]

module _ {ℓ} {K V : Type ℓ} (mem : K → Bytes) (b : ℕ) {hm : Hashmap K V} (v : IsValid mem b hm)
    (k : K) where
  -- Fewer than `b` buckets in use leave an empty one within `b` steps from any home.
  pub few-HasRoom : count occupied hm.buckets < b → HasRoom mem b hm k
  few-HasRoom few =
      elim (free_or_full hm.capacity (fnv_1a (mem k)) b hm.buckets v.shape.width
        (capacity-pos mem b v) v.reach) [
          | inl room ↦ room
          | inr full ↦ absurd (omega (arith, few, full))
        ]
