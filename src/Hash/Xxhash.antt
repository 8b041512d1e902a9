-- ===== src/Hash/Xxhash.antt =====
-- core/hash/hash.c, `xxhash64`. The remaining input is a list of bytes, the pointer `p` to `end`.
-- A read of eight or four bytes is little-endian, as on the machines that the makefile builds for.
-- The loops take fuel: each round drops at least one byte, so the length of the input is enough.
use orca_db.Base.{
  ℕ, zero, suc, ◌+◌, ◌-◌, ◌*◌, ◌/◌, ◌^◌, ◌≤◌, ◌<◌, bit_xor, bit_or, [], ◌∷◌, Bytes, length, take,
  drop, u64, leb, if◌then◌else◌, arith, length-drop,
}

abbrev pub prime_1 : ℕ
prime_1 = 0x9E3779B185EBCA87

abbrev pub prime_2 : ℕ
prime_2 = 0xC2B2AE3D27D4EB4F

abbrev pub prime_3 : ℕ
prime_3 = 0x165667B19E3779F9

abbrev pub prime_4 : ℕ
prime_4 = 0x85EBCA77C2B2AE63

abbrev pub prime_5 : ℕ
prime_5 = 0x27D4EB2F165667C5

unfoldable pub xxh_rotl64 : ℕ → ℕ → ℕ
xxh_rotl64 x r = bit_or (u64 (x * 2 ^ r)) (x / 2 ^ (64 - r))

unfoldable pub read_le : Bytes → ℕ
read_le [] = 0
read_le (b ∷ rest) = b + 256 * read_le rest

pub record Lanes : Type 0 where
  pub v1 : ℕ
  pub v2 : ℕ
  pub v3 : ℕ
  pub v4 : ℕ

abbrev pub first_lanes : Lanes
first_lanes = record { v1 = u64 (prime_1 + prime_2); v2 = prime_2; v3 = 0; v4 = 2 ^ 64 - prime_1 }

-- `v += *(uint64_t*)p * P2; v = rotl(v, 31); v *= P1`
unfoldable pub lane_round : ℕ → Bytes → ℕ
unfolding xxh_rotl64 read_le
lane_round v p = u64 (xxh_rotl64 (u64 (v + u64 (read_le (take 8 p) * prime_2))) 31 * prime_1)

unfoldable pub stripe : Lanes → Bytes → Lanes
unfolding lane_round
stripe v p = record {
  v1 = lane_round v.v1 p;
  v2 = lane_round v.v2 (drop 8 p);
  v3 = lane_round v.v3 (drop 16 p);
  v4 = lane_round v.v4 (drop 24 p);
}

-- `do … while (p <= limit)`: another round while at least 32 bytes are left.
unfoldable pub stripes : ℕ → Lanes → Bytes → Lanes × Bytes
unfolding stripe
stripes zero v p = (v, p)
stripes (suc fuel) v p =
    let next = stripe v p in
    let rest = drop 32 p in
    let more = stripes fuel next rest in if leb 32 (length rest) then more else (next, rest)

-- `v *= P2; v = rotl(v, 31); v *= P1; h64 ^= v; h64 = h64 * P1 + P4`
unfoldable pub merge : ℕ → ℕ → ℕ
unfolding xxh_rotl64
merge h64 v =
    let w = u64 (xxh_rotl64 (u64 (v * prime_2)) 31 * prime_1) in
    u64 (u64 (bit_xor h64 w * prime_1) + prime_4)

unfoldable pub converge : Lanes → ℕ
unfolding xxh_rotl64 merge
converge v =
    let h64 = u64 (
      u64 (u64 (xxh_rotl64 v.v1 1 + xxh_rotl64 v.v2 7) + xxh_rotl64 v.v3 12)
      + xxh_rotl64 v.v4 18) in
    merge (merge (merge (merge h64 v.v1) v.v2) v.v3) v.v4

-- `while (p + 8 <= end)`
unfoldable pub eights : ℕ → ℕ → Bytes → ℕ × Bytes
unfolding xxh_rotl64 read_le
eights zero h64 p = (h64, p)
eights (suc fuel) h64 p =
    let k1 = u64 (xxh_rotl64 (u64 (read_le (take 8 p) * prime_2)) 31 * prime_1) in
    let next = u64 (u64 (xxh_rotl64 (bit_xor h64 k1) 27 * prime_1) + prime_4) in
    let more = eights fuel next (drop 8 p) in if leb 8 (length p) then more else (h64, p)

-- `if (p + 4 <= end)`
unfoldable pub four : ℕ → Bytes → ℕ × Bytes
unfolding xxh_rotl64 read_le
four h64 p =
    let mixed = bit_xor h64 (u64 (read_le (take 4 p) * prime_1)) in
    let next = u64 (u64 (xxh_rotl64 mixed 23 * prime_2) + prime_3) in
    if leb 4 (length p) then (next, drop 4 p) else (h64, p)

-- `while (p < end)`
unfoldable pub ones : ℕ → Bytes → ℕ
unfolding xxh_rotl64
ones h64 [] = h64
ones h64 (b ∷ rest) = ones (u64 (xxh_rotl64 (bit_xor h64 (u64 (b * prime_5))) 11 * prime_1)) rest

unfoldable pub finalize : ℕ → ℕ
finalize h64 =
    let a = u64 (bit_xor h64 (h64 / 2 ^ 33) * prime_2) in
    let b = u64 (bit_xor a (a / 2 ^ 29) * prime_3) in bit_xor b (b / 2 ^ 32)

-- The state before the tail: the accumulator and the bytes that the stripes leave.
unfoldable pub head : Bytes → ℕ × Bytes
unfolding stripes converge
head key =
    let (v, rest) = stripes (length key) first_lanes key in
    if leb 32 (length key) then (converge v, rest) else (prime_5, key)

unfoldable pub xxhash64 : Bytes → ℕ
unfolding head eights four ones finalize
xxhash64 key =
    let (h64, p) = head key in
    let (h8, p8) = eights (length key) (u64 (h64 + u64 (length key))) p in
    let (h4, p4) = four h8 p8 in finalize (ones h4 p4)

stripes-le : (fuel : ℕ) (v : Lanes) (p : Bytes) → length (stripes fuel v p).1 ≤ length p
unfolding stripes
stripes-le zero v p = omega arith
stripes-le (suc fuel) v p =
    ground (arith, length-drop 32 p, stripes-le fuel (stripe v p) (drop 32 p))

-- After the stripes fewer than 32 bytes are left.
stripes_rest :
    (fuel : ℕ) (v : Lanes) (p : Bytes)
    → length p ≤ fuel * 32
    → 1 ≤ fuel
    → length (stripes fuel v p).1 < 32
unfolding stripes
stripes_rest zero v p h pos = absurd (omega arith)
stripes_rest (suc fuel) v p h pos =
    ground (arith, length-drop 32 p, stripes_rest fuel (stripe v p) (drop 32 p))

eights_rest : (fuel h64 : ℕ) (p : Bytes) → length p ≤ fuel * 8 → length (eights fuel h64 p).1 < 8
unfolding eights
eights_rest zero h64 p h = omega arith
eights_rest (suc fuel) h64 p h =
    let k1 = u64 (xxh_rotl64 (u64 (read_le (take 8 p) * prime_2)) 31 * prime_1) in
    let next = u64 (u64 (xxh_rotl64 (bit_xor h64 k1) 27 * prime_1) + prime_4) in
    ground (arith, length-drop 8 p, eights_rest fuel next (drop 8 p))

head_rest : (key : Bytes) → (length (head key).1 < 32) × (length (head key).1 ≤ length key)
unfolding head
head_rest key =
    ground
      (arith, stripes_rest (length key) first_lanes key, stripes-le (length key) first_lanes key)

-- The fuel of the two loops is enough: when they end, fewer than 32 and fewer than 8 bytes are
-- left, so both have ended by their test.
pub xxhash64_loops_end :
    (key : Bytes)
    → (length (head key).1 < 32) × ((h64 : ℕ) → length (eights (length key) h64 (head key).1).1 < 8)
xxhash64_loops_end key =
    let rest = head_rest key in
    (rest.0, λ h64. eights_rest (length key) h64 (head key).1 (omega (arith, rest)))
