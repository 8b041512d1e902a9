-- ===== src/Base/Bits.antt =====
-- The mask of `k` low bits, as the program uses it for `% 2 ^ k`.
use Prim.Native.Nat.{
  ℕ, zero, suc, ◌+◌, ◌-◌, ◌*◌, ◌/◌, ◌%◌, ◌^◌, ◌≤◌, ◌<◌, min, digits, bit_and, bit_and-bitwise,
}
use mathlib.Core.Path.{◌≡◌, refl, ap, ◌∙◌}
use native.Mathlib.Nat.{one-le-pow, pow-le-pow_right, pow-suc}
use native.Mathlib.Omega.{arith}

abbrev conj : ℕ → ℕ → ℕ → ℕ
conj n a b = digits (λ b. zero) min n a b

-- More rounds than digits change nothing.
conj_rounds : (n m a b : ℕ) → a ≤ n → a ≤ m → conj n a b ≡ conj m a b
conj_rounds zero zero a b p q = refl
conj_rounds zero (suc m) zero b p q = refl
conj_rounds zero (suc m) (suc a) b p q = absurd (omega arith)
conj_rounds (suc n) zero zero b p q = refl
conj_rounds (suc n) zero (suc a) b p q = absurd (omega arith)
conj_rounds (suc n) (suc m) zero b p q = refl
conj_rounds (suc n) (suc m) (suc a) b p q =
    omega (arith, conj_rounds n m (suc a / 2) (b / 2) (omega arith) (omega arith))

zero-bit_and : (b : ℕ) → bit_and 0 b ≡ 0
zero-bit_and b = bit_and-bitwise 0 b

bit_and_halves : (a b : ℕ) → bit_and a b ≡ bit_and (a / 2) (b / 2) * 2 + min (a % 2) (b % 2)
bit_and_halves zero b = omega (arith, zero-bit_and b, zero-bit_and (b / 2))
bit_and_halves (suc a) b = omega (
  arith,
  bit_and-bitwise (suc a) b,
  bit_and-bitwise (suc a / 2) (b / 2),
  conj_rounds a (suc a / 2) (suc a / 2) (b / 2) (omega arith) (omega arith),
)

bit_and-zero_below : (n a : ℕ) → a ≤ n → bit_and a 0 ≡ 0
bit_and-zero_below n zero h = refl
bit_and-zero_below zero (suc a) h = absurd (omega arith)
bit_and-zero_below (suc n) (suc a) h =
    omega (arith, bit_and_halves (suc a) 0, bit_and-zero_below n (suc a / 2) (omega arith))

double-mod : (a p : ℕ) → 1 ≤ p → a / 2 % p * 2 + a % 2 ≡ a % (p * 2)
double-mod a p h = grind arith

-- `a & (2^k - 1)` is the remainder by `2^k`.
pub bit_and_mask : (k a : ℕ) → bit_and a (2 ^ k - 1) ≡ a % 2 ^ k
bit_and_mask zero a = omega (arith, bit_and-zero_below a a (omega arith))
bit_and_mask (suc k) a =
    let one_le = one-le-pow k 2 (omega arith) in
    let half : (2 ^ suc k - 1) / 2 ≡ 2 ^ k - 1 = omega (arith, pow-suc 2 k, one_le) in
    let odd : (2 ^ suc k - 1) % 2 ≡ 1 = omega (arith, pow-suc 2 k, one_le) in
    let whole : a % 2 ^ suc k ≡ a % (2 ^ k * 2) = ap (λ p. a % p) (pow-suc 2 k) in
    omega (
      arith,
      bit_and_halves a (2 ^ suc k - 1),
      ap (λ m. bit_and (a / 2) m) half,
      odd,
      bit_and_mask k (a / 2),
      double-mod a (2 ^ k) one_le,
      whole,
    )

-- The same with `2^k - 1` computed in `size_t`, as in `x & (capacity - 1)`.
pub bit_and_capacity : (k x : ℕ) → k ≤ 63 → bit_and x ((2 ^ k + (2 ^ 64 - 1)) % 2 ^ 64) ≡ x % 2 ^ k
bit_and_capacity k x small =
    let one_le = one-le-pow k 2 (omega arith) in
    let bound : 2 ^ k ≤ 2 ^ 63 = pow-le-pow_right (omega arith) small in
    let minus_one : (2 ^ k + (2 ^ 64 - 1)) % 2 ^ 64 ≡ 2 ^ k - 1 = omega (arith, one_le, bound) in
    ap (λ m. bit_and x m) minus_one ∙ bit_and_mask k x

-- `x & ~7` rounds down to a multiple of 8.
pub bit_and_align : (x : ℕ) → x < 2 ^ 64 → bit_and x (2 ^ 64 - 8) ≡ x / 8 * 8
bit_and_align x h = omega (
  arith,
  bit_and_halves x (2 ^ 64 - 8),
  bit_and_halves (x / 2) (2 ^ 63 - 4),
  bit_and_halves (x / 2 / 2) (2 ^ 62 - 2),
  bit_and_mask 61 (x / 2 / 2 / 2),
)
