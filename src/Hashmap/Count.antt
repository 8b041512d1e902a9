-- ===== src/Hashmap/Count.antt =====
-- How many buckets match a key, and the map that a table stands for: the value of the first
-- bucket that matches.
use orca_db.Base.{
  ℕ, zero, suc, ◌+◌, ◌≤◌, ◌≡◌, ◌⊎◌, inl, inr, refl, ap, Bool, true, false, Option, none, some, List,
  [], ◌∷◌, Bytes, get_elem?, set, arith, if◌then◌else◌, Bool-cases, not, ◌==◌,
}
use orca_db.Hashmap.{Node, matches}

abbrev pub to_nat : Bool → ℕ
to_nat true = 1
to_nat false = 0

pub to_nat-le : (p : Bool) → to_nat p ≤ 1
to_nat-le true = omega arith
to_nat-le false = omega arith

-- A bucket that holds an entry, or the rest of a deleted one.
abbrev pub occupied {ℓ} : {K V : Type ℓ} → Node K V → Bool
occupied n = not (n.hash == 0)

-- Any test on a bucket.
module _ {ℓ} {A : Type ℓ} (p : A → Bool) where
  unfoldable pub count : List A → ℕ
  count [] = 0
  count (n ∷ t) = to_nat (p n) + count t

  pub count-set :
      (t : List A) (i : ℕ) (old new : A)
      → get_elem? t i ≡ some old
      → count (set t i new) + to_nat (p old) ≡ count t + to_nat (p new)
  unfolding count
  count-set [] i old new e = ground arith
  count-set (n ∷ t) zero old new e = ground arith
  count-set (n ∷ t) (suc i) old new e = omega (arith, count-set t i old new e)

  pub count-pos : (t : List A) (i : ℕ) (n : A) → get_elem? t i ≡ some n → p n ≡ true → 1 ≤ count t
  unfolding count
  count-pos [] i n e m = ground arith
  count-pos (a ∷ t) zero n e m = ground arith
  count-pos (a ∷ t) (suc i) n e m = omega (arith, count-pos t i n e m)

  -- With at most one match, two matches stand at one index.
  pub count_unique :
      (t : List A) (i j : ℕ) (a b : A)
      → count t ≤ 1
      → get_elem? t i ≡ some a
      → p a ≡ true
      → get_elem? t j ≡ some b
      → p b ≡ true
      → i ≡ j
  unfolding count
  count_unique [] i j a b h ea pa eb pb = ground arith
  count_unique (n ∷ t) zero zero a b h ea pa eb pb = refl
  count_unique (n ∷ t) zero (suc j) a b h ea pa eb pb = ground (arith, count-pos t j b eb pb)
  count_unique (n ∷ t) (suc i) zero a b h ea pa eb pb = ground (arith, count-pos t i a ea pa)
  count_unique (n ∷ t) (suc i) (suc j) a b h ea pa eb pb =
      ap suc (count_unique t i j a b (omega arith) ea pa eb pb)

  pub count_cases :
      (t : List A) → (count t ≡ 0) ⊎ ((i : ℕ) × (n : A) × (get_elem? t i ≡ some n) × (p n ≡ true))
  unfolding count
  count_cases [] = inl refl
  count_cases (a ∷ t) = elim (Bool-cases (p a)) [
    | inl here ↦ inr (0, a, refl, here)
    | inr other ↦ elim (count_cases t) [
      | inl rest ↦ inl (ground arith)
      | inr (i, n, e, m) ↦ inr (suc i, n, e, m)
    ]
  ]

module _ {ℓ} {K V : Type ℓ} (mem : K → Bytes) (q : K) where
  unfoldable pub view : List (Node K V) → Option V
  view [] = none
  view (n ∷ t) = if matches mem q n then n.value else view t

  pub view_found :
      (t : List (Node K V)) (i : ℕ) (n : Node K V)
      → count (matches mem q) t ≤ 1
      → get_elem? t i ≡ some n
      → matches mem q n ≡ true
      → view t ≡ n.value
  unfolding view count
  view_found [] i n h e m = ground arith
  view_found (a ∷ t) zero n h e m = ground arith
  view_found (a ∷ t) (suc i) n h e m =
      ground (arith, count-pos (matches mem q) t i n e m, view_found t i n)

  pub view_missing : (t : List (Node K V)) → count (matches mem q) t ≡ 0 → view t ≡ none
  unfolding view count
  view_missing [] h = refl
  view_missing (a ∷ t) h = ground (arith, view_missing t)
