-- ===== src/Hashmap/Index.antt =====
-- Bucket indices. The code wraps an index by the mask `capacity - 1`; the proofs use indices that
-- are not reduced, and reduce them by `%` where they read a bucket.
use native.Mathlib.Nat.{mod-add-mod, mod-eq_of_lt, mod-eq-sub-mod, one-le-pow, pow-le-pow_right}
use native.Mathlib.Decide.{dec_lt}
use mathlib.Core.Path.{ap₂}
use orca_db.Base.{
  ℕ, ◌+◌, ◌-◌, ◌%◌, ◌^◌, ◌≤◌, ◌<◌, ◌≡◌, ◌≢◌, ◌⊎◌, inl, inr, bit_and, sym, ap, ◌∙◌, arith, u64,
}
use orca_db.Base.Bits.{bit_and_mask}
use orca_db.Hashmap.{mask, idx, next_idx}

-- One step of less than a round either stays below `c` or goes round once.
wrap_cases :
    (c r t : ℕ) → r < c → t < c → ((r + t) % c ≡ r + t) ⊎ ((c ≤ r + t) × ((r + t) % c + c ≡ r + t))
wrap_cases c r t p q = elim (dec_lt (r + t) c) [
  | yes h ↦ inl (mod-eq_of_lt h)
  | no h ↦ inr (
    omega arith,
    omega (
      arith,
      mod-eq-sub-mod {n = r + t} {m = c} (omega arith),
      mod-eq_of_lt {n = r + t - c} {m = c} (omega arith),
    ),
  )
]

pub congr-mod : (c x y t : ℕ) → x % c ≡ y % c → (x + t) % c ≡ (y + t) % c
congr-mod c x y t e = sym (mod-add-mod x c t) ∙ ap (λ r. (r + t) % c) e ∙ mod-add-mod y c t

-- Fewer than `c` steps round the table do not come back to the start.
pub step-mod-ne : (c x t : ℕ) → 0 < t → t < c → (x + t) % c ≢ x % c
step-mod-ne c x t p q e =
    let r : x % c < c = omega arith in omega (arith, mod-add-mod x c t, wrap_cases c (x % c) t r q)

-- Equal successors come from equal indices.
pub suc-mod-cancel : (c x y : ℕ) → 0 < c → (x + 1) % c ≡ (y + 1) % c → x % c ≡ y % c
suc-mod-cancel c x y h e = elim (dec_lt 1 c) [
  | yes p ↦
      let r : x % c < c = omega arith in
      let s : y % c < c = omega arith in
      omega (
        arith,
        mod-add-mod x c 1,
        mod-add-mod y c 1,
        wrap_cases c (x % c) 1 r p,
        wrap_cases c (y % c) 1 s p,
      )
  | no p ↦ let r : x % c < c = omega arith in let s : y % c < c = omega arith in omega arith
]

module _ (k : ℕ) (small : k ≤ 63) where
  pow_bounds : (1 ≤ 2 ^ k) × (2 ^ k ≤ 2 ^ 63)
  pow_bounds = (one-le-pow k 2 (omega arith), pow-le-pow_right (omega arith) small)

  mask-pow : mask (2 ^ k) ≡ 2 ^ k - 1
  mask-pow = omega (arith, pow_bounds)

  pub idx-mod : (h : ℕ) → idx (2 ^ k) h ≡ h % 2 ^ k
  unfolding idx
  idx-mod h = ap (λ m. bit_and h m) mask-pow ∙ bit_and_mask k h

  pub next_idx-mod : (x : ℕ) → next_idx (2 ^ k) (x % 2 ^ k) ≡ (x + 1) % 2 ^ k
  unfolding next_idx
  next_idx-mod x =
      let below : x % 2 ^ k < 2 ^ k = omega (arith, pow_bounds) in
      let fits : u64 (x % 2 ^ k + 1) ≡ x % 2 ^ k + 1 = omega (arith, pow_bounds) in
      ap₂ bit_and fits mask-pow ∙ bit_and_mask k (x % 2 ^ k + 1) ∙ mod-add-mod x (2 ^ k) 1
