-- ===== src/Arena/Tests.antt =====
-- The theorems on an arena of 32 bytes.
use orca_db.Base.{◌≡◌, refl, [], ◌∷◌, arith}
use orca_db.Arena.{Arena, arena_alloc}
use orca_db.Arena.Blocks.{IsArena, serve, Apart, serve-Apart}

abbrev small_arena : Arena
small_arena = record { size = 32; offset = 8 }

small_arena-IsArena : IsArena small_arena
small_arena-IsArena = omega arith

serve_three : serve small_arena (3 ∷ 30 ∷ 9 ∷ []) ≡ (8, 3) ∷ (16, 9) ∷ []
unfolding serve arena_alloc
serve_three = refl

serve-Apart_example : Apart 8 32 (serve small_arena (3 ∷ 30 ∷ 9 ∷ []))
serve-Apart_example = serve-Apart (3 ∷ 30 ∷ 9 ∷ []) small_arena small_arena-IsArena (omega arith)
