-- ===== src/Ring/Queue.antt =====
-- The specification: a queue of at most `bound` requests, oldest first, and a client's calls.
use orca_db.Base.{
  ℕ, Bool, true, false, Option, none, some, List, [], ◌∷◌, ◌++◌, length, ltb, if◌then◌else◌,
}

module _ {ℓ} {P : Type ℓ} where
  unfoldable pub push : ℕ → List (Option P) → P → Bool × List (Option P)
  push bound q p = if ltb (length q) bound then (true, q ++ some p ∷ []) else (false, q)

  unfoldable pub pop : List (Option P) → Option P × List (Option P)
  pop [] = (none, [])
  pop (p ∷ q) = (p, q)
