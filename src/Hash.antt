-- ===== src/Hash.antt =====
-- core/hash/hash.c: FNV_1a, djb2 and the xxHash64 variant, over the bytes of a buffer. Every
-- result is a `uint64_t`, so each sum, product and shift is taken modulo 2 ^ 64.
pub mod Laws
pub mod Xxhash
mod Xor
mod Tests
use orca_db.Base.{ℕ, ◌+◌, ◌*◌, ◌^◌, bit_xor, [], ◌∷◌, Bytes, u64}

-- One round of the loop of `FNV_1a`.
unfoldable pub fnv_step : ℕ → ℕ → ℕ
fnv_step hash byte = u64 (bit_xor hash byte * 1099511628211)

unfoldable pub fnv_loop : ℕ → Bytes → ℕ
unfolding fnv_step
fnv_loop hash [] = hash
fnv_loop hash (byte ∷ rest) = fnv_loop (fnv_step hash byte) rest

unfoldable pub fnv_1a : Bytes → ℕ
unfolding fnv_loop
fnv_1a p = fnv_loop 14695981039346656037 p

-- `((hash << 5) + hash) + byte`
unfoldable pub djb2_step : ℕ → ℕ → ℕ
djb2_step hash byte = u64 (u64 (u64 (hash * 2 ^ 5) + hash) + byte)

unfoldable pub djb2_loop : ℕ → Bytes → ℕ
unfolding djb2_step
djb2_loop hash [] = hash
djb2_loop hash (byte ∷ rest) = djb2_loop (djb2_step hash byte) rest

unfoldable pub djb2 : Bytes → ℕ
unfolding djb2_loop
djb2 p = djb2_loop 5381 p
