-- ===== src/Hash/Laws.antt =====
-- `FNV_1a` and `djb2` against arithmetic without words.
use orca_db.Base.{
  ℕ, ◌+◌, ◌*◌, ◌^◌, ◌<◌, ◌≡◌, ◌≢◌, ◌∙◌, ap, sym, refl, [], ◌∷◌, ◌++◌, Bytes, bit_xor, u64, arith,
}
use orca_db.Hash.Xor.{bit_xor-lt, bit_xor_cancel_left, bit_xor_cancel_right}
use orca_db.Hash.{fnv_step, fnv_loop, fnv_1a, djb2_step, djb2_loop, djb2}

-- Every element is a byte.
abbrev pub IsBytes : Bytes → Type 0
IsBytes [] = Unit
IsBytes (byte ∷ rest) = (byte < 256) × IsBytes rest

-- The hash without the wrap of `uint64_t`: hash * 33 + byte.
unfoldable pub polynomial : ℕ → Bytes → ℕ
polynomial hash [] = hash
polynomial hash (byte ∷ rest) = polynomial (hash * 33 + byte) rest

polynomial-mod : (a b : ℕ) (p : Bytes) → u64 a ≡ u64 b → u64 (polynomial a p) ≡ u64 (polynomial b p)
unfolding polynomial
polynomial-mod a b [] e = e
polynomial-mod a b (byte ∷ rest) e =
    polynomial-mod (a * 33 + byte) (b * 33 + byte) rest (omega arith)

djb2_loop-polynomial :
    (hash : ℕ) (p : Bytes) → hash < 2 ^ 64 → djb2_loop hash p ≡ u64 (polynomial hash p)
unfolding djb2_loop djb2_step polynomial
djb2_loop-polynomial hash [] h = omega arith
djb2_loop-polynomial hash (byte ∷ rest) h =
    djb2_loop-polynomial (djb2_step hash byte) rest (omega arith)
    ∙ polynomial-mod (djb2_step hash byte) (hash * 33 + byte) rest (omega arith)

-- djb2 is the polynomial in 33 of the bytes, started at 5381, modulo 2 ^ 64.
pub djb2-polynomial : (p : Bytes) → djb2 p ≡ u64 (polynomial 5381 p)
unfolding djb2
djb2-polynomial p = djb2_loop-polynomial 5381 p (omega arith)

fnv_step-lt : (hash byte : ℕ) → fnv_step hash byte < 2 ^ 64
unfolding fnv_step
fnv_step-lt hash byte = omega arith

fnv_loop-lt : (hash : ℕ) (p : Bytes) → hash < 2 ^ 64 → fnv_loop hash p < 2 ^ 64
unfolding fnv_loop
fnv_loop-lt hash [] h = h
fnv_loop-lt hash (byte ∷ rest) h = fnv_loop-lt (fnv_step hash byte) rest (fnv_step-lt hash byte)

-- The multiplier is odd, so a product modulo 2 ^ 64 gives its other factor back.
odd_factor :
    (x y : ℕ) → x < 2 ^ 64 → y < 2 ^ 64 → u64 (x * 1099511628211) ≡ u64 (y * 1099511628211) → x ≡ y
odd_factor x y hx hy e =
    let back : (z : ℕ) → z < 2 ^ 64 → u64 (u64 (z * 1099511628211) * 14886173955864302971) ≡ z =
      λ z h. omega arith in
    sym (back x hx) ∙ ap (λ z. u64 (z * 14886173955864302971)) e ∙ back y hy

fnv_step-inj :
    (g h a b : ℕ)
    → g < 2 ^ 64
    → h < 2 ^ 64
    → a < 256
    → b < 256
    → fnv_step g a ≡ fnv_step h b
    → bit_xor g a ≡ bit_xor h b
unfolding fnv_step
fnv_step-inj g h a b hg hh ha hb e =
    odd_factor (bit_xor g a) (bit_xor h b) (bit_xor-lt 64 g a hg (omega arith))
      (bit_xor-lt 64 h b hh (omega arith)) e

-- Equal hashes after equal bytes come from equal hashes before them.
fnv_loop-inj :
    (g h : ℕ) (p : Bytes)
    → IsBytes p
    → g < 2 ^ 64
    → h < 2 ^ 64
    → fnv_loop g p ≡ fnv_loop h p
    → g ≡ h
unfolding fnv_loop
fnv_loop-inj g h [] bytes hg hh e = e
fnv_loop-inj g h (a ∷ p) bytes hg hh e =
    let before =
      fnv_loop-inj (fnv_step g a) (fnv_step h a) p bytes.1 (fnv_step-lt g a) (fnv_step-lt h a) e in
    bit_xor_cancel_right a g h (fnv_step-inj g h a a hg hh bytes.0 bytes.0 before)

fnv_loop-append : (g : ℕ) (p q : Bytes) → fnv_loop g (p ++ q) ≡ fnv_loop (fnv_loop g p) q
unfolding fnv_loop
fnv_loop-append g [] q = refl
fnv_loop-append g (a ∷ p) q = fnv_loop-append (fnv_step g a) p q

-- FNV_1a tells two inputs apart that differ in one byte, wherever it stands, if what follows it
-- are bytes.
pub fnv_1a-one_byte :
    (p rest : Bytes) (a b : ℕ)
    → IsBytes rest
    → a < 256
    → b < 256
    → a ≢ b
    → fnv_1a (p ++ a ∷ rest) ≢ fnv_1a (p ++ b ∷ rest)
unfolding fnv_1a fnv_loop
fnv_1a-one_byte p rest a b bytes ha hb ne e =
    let g = fnv_loop 14695981039346656037 p in
    let below = fnv_loop-lt 14695981039346656037 p (omega arith) in
    let after =
      sym (fnv_loop-append 14695981039346656037 p (a ∷ rest))
      ∙ e
      ∙ fnv_loop-append 14695981039346656037 p (b ∷ rest) in
    ne (
      bit_xor_cancel_left g a b (
        fnv_step-inj g g a b below below ha hb (
          fnv_loop-inj (fnv_step g a) (fnv_step g b) rest bytes (fnv_step-lt g a) (fnv_step-lt g b)
            after)))

-- Both hashes are `uint64_t` values.
pub hashes-lt : (p : Bytes) → (fnv_1a p < 2 ^ 64) × (djb2 p < 2 ^ 64)
unfolding fnv_1a
hashes-lt p = (fnv_loop-lt 14695981039346656037 p (omega arith), omega (arith, djb2-polynomial p))
