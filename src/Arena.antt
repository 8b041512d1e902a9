-- ===== src/Arena.antt =====
-- core/arena/arena.h and arena.c: a bump allocator. A pointer into the block is its distance from
-- `base`; `arena_free` hands the block and the header to `free`.
pub mod Blocks
mod Tests
use orca_db.Base.{
  ℕ, ◌+◌, ◌-◌, ◌%◌, ◌^◌, bit_and, Bool, Option, none, some, List, [], ◌∷◌, u64, ltb, not,
  if◌then◌else◌,
}

pub record Arena : Type 0 where
  pub size : ℕ
  pub offset : ℕ

-- The two arguments say whether `malloc` and `aligned_alloc` succeed.
unfoldable pub arena_create : Bool → Bool → ℕ → Option Arena
arena_create header base size =
    if not header
    then none
    else if not base
    then none
    else some (record { size = size; offset = 0 })

-- `(size + 7) & ~7UL`
unfoldable pub aligned : ℕ → ℕ
aligned size = bit_and (u64 (size + 7)) (2 ^ 64 - 8)

-- `none` is NULL.
unfoldable pub arena_alloc : Arena → ℕ → Option ℕ × Arena
unfolding aligned
arena_alloc a size =
    if ltb a.size (u64 (a.offset + aligned size))
    then (none, a)
    else (some a.offset, record a { offset = u64 (a.offset + aligned size) })

unfoldable pub arena_reset : Arena → Arena
arena_reset a = record a { offset = 0 }

pub data Freed : Type 0 where
  base header : Freed

unfoldable pub arena_free : Arena → List Freed
arena_free a = base ∷ header ∷ []
