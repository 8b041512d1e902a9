-- ===== src/Hashmap/Fresh.antt =====
-- The loop of `hm_insert` for a key that the table does not hold, when a free bucket is in reach.
use orca_db.Base.{
  ℕ, ◌+◌, ◌≤◌, ◌≡◌, ◌≢◌, ◌∙◌, ◌⊎◌, inl, inr, ap, refl, sym, subst, true, false, Option, some, List,
  Bytes, u64, arith, get_elem?, get_elem?-some-lt, get_elem?-set_self, get_elem?-set_ne, set,
  ℕ_discrete,
}
use orca_db.Hash.{fnv_1a}
use orca_db.Hashmap.{Node, Hashmap, Status, zero_ok, matches}
use orca_db.Hashmap.Count.{count, count-set, occupied, to_nat}
use orca_db.Hashmap.Shape.{IsShape}
use orca_db.Hashmap.Valid.{matches-hash, matches_congr}

module _ {ℓ} {K V : Type ℓ} (mem : K → Bytes) where
  -- Some bucket matches the key and holds the value.
  abbrev pub Holds : K → List (Node K V) → Option V → Type ℓ
  Holds q t v =
      (j : ℕ) × (n : Node K V) × (get_elem? t j ≡ some n) × (matches mem q n ≡ true) × (n.value ≡ v)

  -- What a loop that carries `cur` has done to the table `hm` when it ends.
  pub record Inserted (b : ℕ) (hm : Hashmap K V) (cur : Node K V) (r : Status × Hashmap K V)
      : Type ℓ where
    pub status : r.0 ≡ zero_ok
    pub capacity : r.1.capacity ≡ hm.capacity
    pub counted : r.1.count ≡ u64 (hm.count + 1)
    pub shape : IsShape b hm.capacity r.1.buckets
    pub matched :
        (q : K)
        → fnv_1a (mem q) ≢ 0
        → count (matches mem q) r.1.buckets
          ≡ count (matches mem q) hm.buckets + to_nat (matches mem q cur)
    pub filled : count occupied r.1.buckets ≤ count occupied hm.buckets + to_nat (occupied cur)
    pub keeps :
        (q : K) (v : Option V) → fnv_1a (mem q) ≢ 0 → Holds q hm.buckets v → Holds q r.1.buckets v
    pub adds :
        (q : K) → fnv_1a (mem q) ≢ 0 → matches mem q cur ≡ true → Holds q r.1.buckets cur.value

  -- Where one bucket is written, an entry of another bucket stays.
  pub Holds-set :
      (q : K) (t : List (Node K V)) (i : ℕ) (old cur : Node K V) (v : Option V)
      → get_elem? t i ≡ some old
      → Holds q t v
      → ((matches mem q old ≡ true) × (old.value ≡ v)) ⊎ Holds q (set t i cur) v
  Holds-set q t i old cur v at_i (j, n, at_j, m, e) = elim (ℕ_discrete i j) [
    | no ne ↦ inr (j, n, get_elem?-set_ne t i j cur ne ∙ at_j, m, e)
    | yes same ↦
        let own : some n ≡ some old = sym at_j ∙ ap (get_elem? t) (sym same) ∙ at_i in
        inl (ground (arith, own), ground (arith, own))
  ]

  free-not-matched :
      (q : K) (n : Node K V) → fnv_1a (mem q) ≢ 0 → n.hash ≡ 0 → matches mem q n ≡ false
  free-not-matched q n visible free = ground (arith, matches-hash mem q n)

  module _ (b : ℕ) (hm : Hashmap K V) (cur old : Node K V) (i : ℕ)
      (at_i : get_elem? hm.buckets i ≡ some old) where
    at_set : get_elem? (set hm.buckets i cur) i ≡ some cur
    at_set = get_elem?-set_self hm.buckets i cur (get_elem?-some-lt hm.buckets i old at_i)

    -- The loop ends at a free bucket.
    pub place-Inserted :
        IsShape b hm.capacity (set hm.buckets i cur)
        → old.hash ≡ 0
        → Inserted b hm cur
            (zero_ok, record hm { buckets = set hm.buckets i cur; count = u64 (hm.count + 1) })
    place-Inserted shape free = record {
      status = refl;
      capacity = refl;
      counted = refl;
      shape = shape;
      matched = λ q visible. ground (
        arith,
        count-set (matches mem q) hm.buckets i old cur at_i,
        free-not-matched q old visible free,
      );
      filled = omega (arith, count-set occupied hm.buckets i old cur at_i);
      keeps = λ q v visible h. elim (Holds-set q hm.buckets i old cur v at_i h) [
        | inl (m, e) ↦ absurd (ground (arith, free-not-matched q old visible free))
        | inr there ↦ there
      ];
      adds = λ q visible m. (i, cur, at_set, m, refl);
    }

    -- The loop swaps `cur` for the entry of the bucket, and goes on with that.
    pub swap-Inserted :
        (d : ℕ) (r : Status × Hashmap K V)
        → Inserted b (record hm { buckets = set hm.buckets i cur }) (record old { dib = d }) r
        → Inserted b hm cur r
    swap-Inserted d r s =
        let moved = λ (q : K). matches_congr mem q (record old { dib = d }) old refl refl refl in
        record {
          status = s.status;
          capacity = s.capacity;
          counted = s.counted;
          shape = s.shape;
          matched = λ q visible. omega (
            arith,
            s.matched q visible,
            ap to_nat (moved q),
            count-set (matches mem q) hm.buckets i old cur at_i,
          );
          filled = omega (arith, s.filled, count-set occupied hm.buckets i old cur at_i);
          keeps = λ q v visible h. elim (Holds-set q hm.buckets i old cur v at_i h) [
            | inl (m, e) ↦ subst (Holds q r.1.buckets) e (s.adds q visible (moved q ∙ m))
            | inr there ↦ s.keeps q v visible there
          ];
          adds = λ q visible m. s.keeps q cur.value visible (i, cur, at_set, m, refl);
        }

    -- The loop passes on; only the distance of `cur` has changed.
    pub pass-Inserted :
        (d : ℕ) (r : Status × Hashmap K V)
        → Inserted b hm (record cur { dib = d }) r
        → Inserted b hm cur r
    pass-Inserted d r s =
        let moved = λ (q : K). matches_congr mem q (record cur { dib = d }) cur refl refl refl in
        record {
          status = s.status;
          capacity = s.capacity;
          counted = s.counted;
          shape = s.shape;
          matched = λ q visible. omega (arith, s.matched q visible, ap to_nat (moved q));
          filled = s.filled;
          keeps = s.keeps;
          adds = λ q visible m. s.adds q visible (moved q ∙ m);
        }
