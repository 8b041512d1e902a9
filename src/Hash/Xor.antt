-- ===== src/Hash/Xor.antt =====
-- Exclusive or at variables: its range, and that either side cancels.
use Prim.Native.Nat.{digits, differ, bit_xor-bitwise}
use native.Mathlib.Nat.{pow-suc}
use orca_db.Base.{ℕ, zero, suc, ◌+◌, ◌*◌, ◌/◌, ◌%◌, ◌^◌, ◌≤◌, ◌<◌, ◌≡◌, refl, bit_xor, arith}

abbrev disj : ℕ → ℕ → ℕ → ℕ
disj n a b = digits (λ b. b) differ n a b

disj_rounds : (n m a b : ℕ) → a ≤ n → a ≤ m → disj n a b ≡ disj m a b
disj_rounds zero zero a b p q = refl
disj_rounds zero (suc m) zero b p q = refl
disj_rounds zero (suc m) (suc a) b p q = absurd (omega arith)
disj_rounds (suc n) zero zero b p q = refl
disj_rounds (suc n) zero (suc a) b p q = absurd (omega arith)
disj_rounds (suc n) (suc m) zero b p q = refl
disj_rounds (suc n) (suc m) (suc a) b p q =
    omega (arith, disj_rounds n m (suc a / 2) (b / 2) (omega arith) (omega arith))

differ_bits : (a b : ℕ) → a < 2 → b < 2 → differ a b ≡ (a + b) % 2
differ_bits zero b p q = omega arith
differ_bits (suc zero) zero p q = refl
differ_bits (suc zero) (suc b) p q = omega arith
differ_bits (suc (suc a)) b p q = absurd (omega arith)

zero-bit_xor : (b : ℕ) → bit_xor 0 b ≡ b
zero-bit_xor b = bit_xor-bitwise 0 b

-- The lowest binary digit of a result, and the rest.
bit_xor_halves : (a b : ℕ) → bit_xor a b ≡ bit_xor (a / 2) (b / 2) * 2 + (a % 2 + b % 2) % 2
bit_xor_halves zero b = omega (arith, zero-bit_xor b, zero-bit_xor (b / 2))
bit_xor_halves (suc a) b = omega (
  arith,
  bit_xor-bitwise (suc a) b,
  bit_xor-bitwise (suc a / 2) (b / 2),
  disj_rounds a (suc a / 2) (suc a / 2) (b / 2) (omega arith) (omega arith),
  differ_bits (suc a % 2) (b % 2) (omega arith) (omega arith),
)

pub bit_xor-lt : (k a b : ℕ) → a < 2 ^ k → b < 2 ^ k → bit_xor a b < 2 ^ k
bit_xor-lt zero zero b ha hb = omega (arith, zero-bit_xor b)
bit_xor-lt zero (suc a) b ha hb = absurd (omega arith)
bit_xor-lt (suc k) a b ha hb = omega (
  arith,
  pow-suc 2 k,
  bit_xor_halves a b,
  bit_xor-lt k (a / 2) (b / 2) (omega (arith, pow-suc 2 k)) (omega (arith, pow-suc 2 k)),
)

cancel_left : (n c a b : ℕ) → c ≤ n → a ≤ n → b ≤ n → bit_xor c a ≡ bit_xor c b → a ≡ b
cancel_left zero c a b hc ha hb e = omega arith
cancel_left (suc n) c a b hc ha hb e =
    let top : bit_xor (c / 2) (a / 2) ≡ bit_xor (c / 2) (b / 2) =
      omega (arith, bit_xor_halves c a, bit_xor_halves c b) in
    let rest =
      cancel_left n (c / 2) (a / 2) (b / 2) (omega arith) (omega arith) (omega arith) top in
    omega (arith, bit_xor_halves c a, bit_xor_halves c b)

cancel_right : (n c a b : ℕ) → c ≤ n → a ≤ n → b ≤ n → bit_xor a c ≡ bit_xor b c → a ≡ b
cancel_right zero c a b hc ha hb e = omega arith
cancel_right (suc n) c a b hc ha hb e =
    let top : bit_xor (a / 2) (c / 2) ≡ bit_xor (b / 2) (c / 2) =
      omega (arith, bit_xor_halves a c, bit_xor_halves b c) in
    let rest =
      cancel_right n (c / 2) (a / 2) (b / 2) (omega arith) (omega arith) (omega arith) top in
    omega (arith, bit_xor_halves a c, bit_xor_halves b c)

pub bit_xor_cancel_left : (c a b : ℕ) → bit_xor c a ≡ bit_xor c b → a ≡ b
bit_xor_cancel_left c a b e =
    cancel_left (a + b + c) c a b (omega arith) (omega arith) (omega arith) e

pub bit_xor_cancel_right : (c a b : ℕ) → bit_xor a c ≡ bit_xor b c → a ≡ b
bit_xor_cancel_right c a b e =
    cancel_right (a + b + c) c a b (omega arith) (omega arith) (omega arith) e
