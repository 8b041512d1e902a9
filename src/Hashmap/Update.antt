-- ===== src/Hashmap/Update.antt =====
-- Keys that a table can hold, and when a table stands for an updated map.
use orca_db.Base.{
  ◌^◌, ◌≤◌, ◌<◌, ◌≡◌, ◌≢◌, ◌∙◌, ◌⊎◌, sym, refl, inl, inr, true, false, Option, List, Bytes, length,
  bytes_eq, if◌then◌else◌, Bool-cases,
}
use orca_db.Hash.{fnv_1a}
use orca_db.Hashmap.{Node, matches}
use orca_db.Hashmap.Count.{count, count_cases, view, view_found, view_missing}
use orca_db.Hashmap.Fresh.{Holds}

module _ {ℓ} {K : Type ℓ} (mem : K → Bytes) where
  -- A key that a table can hold: its hash is not the mark of an empty bucket, and its length fits
  -- the node's `uint16_t`.
  pub record IsKey (k : K) : Type 0 where
    pub visible : fnv_1a (mem k) ≢ 0
    pub short : length (mem k) < 2 ^ 16

module _ {ℓ} {K V : Type ℓ} (mem : K → Bytes) where
  view-Holds :
      (q : K) (t : List (Node K V)) (v : Option V)
      → count (matches mem q) t ≤ 1
      → Holds mem q t v
      → view mem q t ≡ v
  view-Holds q t v once (j, n, at_j, m, e) = view_found mem q t j n once at_j m ∙ e

  Holds-cases :
      (q : K) (t : List (Node K V))
      → (count (matches mem q) t ≡ 0) ⊎ ((v : Option V) × Holds mem q t v)
  Holds-cases q t = elim (count_cases (matches mem q) t) [
    | inl absent ↦ inl absent
    | inr (i, n, at_i, m) ↦ inr (n.value, (i, n, at_i, m, refl))
  ]

  -- A table that keeps what it held under the other keys stands for the updated map.
  pub view_update :
      (q k : K) (t t' : List (Node K V)) (v : Option V)
      → count (matches mem q) t ≤ 1
      → count (matches mem q) t' ≤ 1
      → (bytes_eq (mem q) (mem k) ≡ true → Holds mem q t' v)
      → (bytes_eq (mem q) (mem k) ≡ false
          → (count (matches mem q) t ≡ 0 → count (matches mem q) t' ≡ 0)
            × ((u : Option V) → Holds mem q t u → Holds mem q t' u))
      → view mem q t' ≡ (if bytes_eq (mem q) (mem k) then v else view mem q t)
  view_update q k t t' v once once' own rest = elim (Bool-cases (bytes_eq (mem q) (mem k))) [
    | inl same ↦ rw same (view-Holds q t' v once' (own same))
    | inr other ↦ rw other (elim (Holds-cases q t) [
      | inl absent ↦
          view_missing mem q t' ((rest other).0 absent) ∙ sym (view_missing mem q t absent)
      | inr (u, h) ↦ view-Holds q t' u once' ((rest other).1 u h) ∙ sym (view-Holds q t u once h)
    ])
  ]
