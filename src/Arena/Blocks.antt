-- ===== src/Arena/Blocks.antt =====
-- The blocks that `arena_alloc` hands out.
use orca_db.Base.{
  ℕ, ◌+◌, ◌*◌, ◌/◌, ◌%◌, ◌^◌, ◌≤◌, ◌<◌, ◌≡◌, ◌⊎◌, inl, inr, subst, sym, Option, none, some, List,
  [], ◌∷◌, u64, arith, dec_lt, lt→ltb, le→ltb,
}
use orca_db.Base.Bits.{bit_and_align}
use orca_db.Arena.{Arena, aligned, arena_alloc}

-- No sum wraps while the block is below half the address space.
pub record IsArena (a : Arena) : Type 0 where
  pub within : a.offset ≤ a.size
  pub half : a.size < 2 ^ 63
  pub even : a.offset % 8 ≡ 0

-- The size that a request takes up.
abbrev pub rounded : ℕ → ℕ
rounded n = (n + 7) / 8 * 8

aligned-rounded : (n : ℕ) → n < 2 ^ 63 → aligned n ≡ rounded n
unfolding aligned
aligned-rounded n h = omega (arith, bit_and_align (u64 (n + 7)) (omega arith))

-- A request below half the address space is served exactly when its rounded size fits. It then
-- gets the bytes from the old offset on, a multiple of 8, in range, and the offset moves past
-- them; otherwise NULL, and nothing changes.
arena_alloc_cases :
    (a : Arena) (n : ℕ)
    → IsArena a
    → n < 2 ^ 63
    → ((a.size < a.offset + rounded n) × (arena_alloc a n ≡ (none, a)))
      ⊎ ((a.offset + rounded n ≤ a.size)
          × (arena_alloc a n ≡ (some a.offset, record a { offset = a.offset + rounded n }))
          × (a.offset % 8 ≡ 0)
          × (a.offset + n ≤ a.size)
          × IsArena (record a { offset = a.offset + rounded n }))
unfolding arena_alloc
arena_alloc_cases a n v small =
    let fits : u64 (a.offset + aligned n) ≡ a.offset + rounded n =
      omega (arith, aligned-rounded n small, v.within, v.half) in
    elim (dec_lt a.size (a.offset + rounded n)) [
      | yes over ↦ inl (over, rw fits (rw (lt→ltb a.size (a.offset + rounded n) over)))
      | no room ↦ inr (
        omega arith,
        rw fits (rw (le→ltb a.size (a.offset + rounded n) (omega arith))),
        v.even,
        omega arith,
        omega (arith, v.even, v.half),
      )
    ]

abbrev block : Option ℕ → ℕ → List (ℕ × ℕ) → List (ℕ × ℕ)
block none n rest = rest
block (some at) n rest = (at, n) ∷ rest

-- The blocks that a sequence of requests gets, each as its first byte and its size.
unfoldable pub serve : Arena → List ℕ → List (ℕ × ℕ)
serve a [] = []
serve a (n ∷ ns) = let (p, a') = arena_alloc a n in block p n (serve a' ns)

-- Each block ends, within `size`, before the next one begins.
abbrev pub Apart : ℕ → ℕ → List (ℕ × ℕ) → Type 0
Apart low size [] = Unit
Apart low size ((at, n) ∷ rest) =
    (low ≤ at) × (at + n ≤ size) × (at % 8 ≡ 0) × Apart (at + n) size rest

abbrev pub AllSmall : List ℕ → Type 0
AllSmall [] = Unit
AllSmall (n ∷ ns) = (n < 2 ^ 63) × AllSmall ns

Apart-weaken :
    (low low' size : ℕ) (bs : List (ℕ × ℕ)) → low' ≤ low → Apart low size bs → Apart low' size bs
Apart-weaken low low' size [] h b = tt
Apart-weaken low low' size ((at, n) ∷ rest) h b = (omega (arith, b.0), b.1, b.2, b.3)

-- The blocks of any sequence of such requests are aligned, in range and disjoint, and lie behind
-- the offset at its start.
pub serve-Apart :
    (ns : List ℕ) (a : Arena) → IsArena a → AllSmall ns → Apart a.offset a.size (serve a ns)
unfolding serve
serve-Apart [] a v small = tt
serve-Apart (n ∷ ns) a v small =
    let outcome = λ (r : Option ℕ × Arena). Apart a.offset a.size (block r.0 n (serve r.1 ns)) in
    elim (arena_alloc_cases a n v small.0) [
      | inl (over, e) ↦ subst outcome (sym e) (serve-Apart ns a v small.1)
      | inr (room, e, even, inside, v') ↦ subst outcome (sym e) (
        omega arith,
        inside,
        even,
        Apart-weaken (a.offset + rounded n) (a.offset + n) a.size _ (omega arith)
            (serve-Apart ns (record a { offset = a.offset + rounded n }) v' small.1),
      )
    ]

-- A request within 7 bytes of 2 ^ 64 wraps to 0 when it is rounded: it gets a block of no bytes,
-- and nothing changes.
pub arena_alloc_wraps :
    (a : Arena) (n : ℕ)
    → IsArena a
    → 2 ^ 64 ≤ n + 7
    → n < 2 ^ 64
    → arena_alloc a n ≡ (some a.offset, a)
unfolding arena_alloc aligned
arena_alloc_wraps a n v big word =
    let nothing : aligned n ≡ 0 = omega (arith, bit_and_align (u64 (n + 7)) (omega arith)) in
    let same : u64 (a.offset + aligned n) ≡ a.offset = omega (arith, nothing, v.within, v.half) in
    rw same (rw (le→ltb a.size a.offset v.within))
