-- ===== src/Hash/Tests.antt =====
-- The hashes at short inputs, and the theorems there.
use orca_db.Base.{◌+◌, ◌*◌, ◌^◌, ◌<◌, ◌≡◌, ◌≢◌, refl, [], ◌∷◌, ◌++◌, Bytes, u64, arith}
use orca_db.Hash.{fnv_1a, djb2}
use orca_db.Hash.Laws.{fnv_1a-one_byte, djb2-polynomial, hashes-lt, polynomial}

abbrev key_ab : Bytes
key_ab = b'a' ∷ b'b' ∷ []

-- The published value of FNV-1a for "a".
fnv_1a_a : fnv_1a (b'a' ∷ []) ≡ 0xaf63dc4c8601ec8c
unfolding fnv_1a
fnv_1a_a = refl

djb2_ab : djb2 key_ab ≡ (5381 * 33 + b'a') * 33 + b'b'
unfolding djb2
djb2_ab = refl

fnv_1a-one_byte_example : fnv_1a (key_ab ++ b'x' ∷ key_ab) ≢ fnv_1a (key_ab ++ b'y' ∷ key_ab)
fnv_1a-one_byte_example =
    fnv_1a-one_byte key_ab key_ab b'x' b'y' (omega arith) (omega arith) (omega arith) (omega arith)

djb2-polynomial_example : djb2 key_ab ≡ u64 (polynomial 5381 key_ab)
djb2-polynomial_example = djb2-polynomial key_ab

hashes-lt_example : (fnv_1a key_ab < 2 ^ 64) × (djb2 key_ab < 2 ^ 64)
hashes-lt_example = hashes-lt key_ab
