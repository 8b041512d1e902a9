-- ===== src/Hashmap/Valid.antt =====
-- The invariant of a table, and what a match of a key says.
use orca_db.Base.{
  ℕ, ◌+◌, ◌%◌, ◌^◌, ◌≤◌, ◌<◌, ◌≡◌, ◌≢◌, ap, sym, true, Bytes, length, take, take-all, bytes_eq,
  bytes_eq→eq, bytes_eq_refl, arith, subst, Bool-cases, inl, inr, Option, ℕ_discrete, ◌==◌, ◌&&◌,
  ◌∙◌,
}
use native.Mathlib.Nat.{one-le-pow}
use orca_db.Hash.{fnv_1a}
use orca_db.Hashmap.{Node, Hashmap, matches, new_node, key_bytes, idx, next_idx}
use orca_db.Hashmap.Index.{idx-mod, next_idx-mod}
use orca_db.Hashmap.Count.{count}
use orca_db.Hashmap.Shape.{IsShape}

module _ {ℓ} {K V : Type ℓ} (mem : K → Bytes) (b : ℕ) where
  -- The capacity is a power of two, every entry stands fewer than `b` steps from its home, and no
  -- key is matched twice, but for keys whose hash is 0, which a table cannot hold. `b` is at most the capacity, and what a `uint16_t` counts.
  pub record IsValid (hm : Hashmap K V) : Type ℓ where
    pub bits : ℕ
    pub small : bits ≤ 63
    pub power : hm.capacity ≡ 2 ^ bits
    pub reach : b ≤ hm.capacity
    pub counted : b < 2 ^ 16
    pub shape : IsShape b hm.capacity hm.buckets
    pub unique : (q : K) → fnv_1a (mem q) ≢ 0 → count (matches mem q) hm.buckets ≤ 1

  module _ {hm : Hashmap K V} (v : IsValid hm) where
    pub capacity-pos : 0 < hm.capacity
    capacity-pos = omega (arith, v.power, one-le-pow v.bits 2 (omega arith))

    pub valid-idx : (h : ℕ) → idx hm.capacity h ≡ h % hm.capacity
    valid-idx h = subst (λ c. idx c h ≡ h % c) (sym v.power) (idx-mod v.bits v.small h)

    pub valid-next : (x : ℕ) → next_idx hm.capacity (x % hm.capacity) ≡ (x + 1) % hm.capacity
    valid-next x =
        subst (λ c. next_idx c (x % c) ≡ (x + 1) % c) (sym v.power) (next_idx-mod v.bits v.small x)

module _ {ℓ} {K V : Type ℓ} (mem : K → Bytes) where
  pub matches-hash : (q : K) (n : Node K V) → matches mem q n ≡ true → n.hash ≡ fnv_1a (mem q)
  unfolding matches
  matches-hash q n m = ground arith

  -- A match does not read the value, the distance or the flags.
  pub matches_congr :
      (q : K) (n m : Node K V)
      → n.hash ≡ m.hash
      → n.key_len ≡ m.key_len
      → n.key ≡ m.key
      → matches mem q n ≡ matches mem q m
  unfolding matches
  matches_congr q n m h l k = cc

  -- A new entry is matched by the keys with its bytes only.
  pub matches-new :
      (q k : K) (value : Option V) (val_len : ℕ)
      → length (mem k) < 2 ^ 16
      → matches mem q (new_node mem k value val_len) ≡ bytes_eq (mem q) (mem k)
  unfolding matches new_node
  matches-new q k value val_len h = elim (Bool-cases (bytes_eq (mem q) (mem k))) [
    | inl same ↦
        let e = bytes_eq→eq (mem q) (mem k) same in
        ground (
          arith,
          ap length e,
          ap fnv_1a e,
          ap (take (length (mem q))) e,
          bytes_eq_refl (take (length (mem q)) (mem k)),
        )
    | inr other ↦
        let own = take-all (length (mem q)) (mem q) (omega arith) in
        elim (ℕ_discrete (length (mem k)) (length (mem q))) [
          | no ne ↦ ground arith
          | yes e ↦
              let whole = take-all (length (mem q)) (mem k) (omega arith) in
              let back = bytes_eq→eq (mem k) (mem q) in
              rw (own, whole) (ground (arith, back, bytes_eq_refl (mem q)))
        ]
  ]

  -- What a match asks depends on the bytes of the key only.
  pub matches_bytes : (q k : K) → mem q ≡ mem k → matches {V = V} mem q ≡ matches mem k
  unfolding matches
  matches_bytes q k e = λ i n.
      n.hash == fnv_1a (e i)
      && (n.key_len == length (e i)
          && bytes_eq (take (length (e i)) (key_bytes mem n)) (take (length (e i)) (e i)))

  -- One entry is not matched by two keys.
  pub matches_inj :
      (q k : K) (n : Node K V) → matches mem q n ≡ true → matches mem k n ≡ true → mem q ≡ mem k
  unfolding matches
  matches_inj q k n mq mk =
      let bytes = key_bytes mem n in
      let len : length (mem q) ≡ length (mem k) = ground arith in
      let of_q : bytes_eq (take (length (mem q)) bytes) (take (length (mem q)) (mem q)) ≡ true =
        ground arith in
      let of_k : bytes_eq (take (length (mem k)) bytes) (take (length (mem k)) (mem k)) ≡ true =
        ground arith in
      sym (take-all (length (mem q)) (mem q) (omega arith))
      ∙ sym (bytes_eq→eq _ _ of_q)
      ∙ ap (λ l. take l bytes) len
      ∙ bytes_eq→eq _ _ of_k
      ∙ take-all (length (mem k)) (mem k) (omega arith)
