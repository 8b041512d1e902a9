-- ===== src/Ring/Tests.antt =====
-- The theorems on a ring of four slots; a request is a number.
use orca_db.Base.{ℕ, ◌≡◌, refl, true, false, none, some, List, [], ◌∷◌, arith}
use orca_db.Ring.{Ring, r_buff_write, r_buff_read}
use orca_db.Ring.Index.{IsRing}
use orca_db.Ring.Late.{late-overwrite}
use orca_db.Ring.Session.{Op, write, read, wrote, got, run, run_queue, IsEarly, run_refines}

-- 7 and 8 wait.
abbrev busy : Ring ℕ
busy = record { hp = 3; rp = 1; cap = 4; proc = none ∷ some 7 ∷ some 8 ∷ none ∷ [] }

busy-IsRing : IsRing busy
busy-IsRing = record {
  bits = 2;
  small = omega arith;
  power = refl;
  width = refl;
  ordered = omega arith;
  room = omega arith;
  early = omega arith;
}

abbrev script : List (Op ℕ)
script = write 9 ∷ write 10 ∷ read ∷ []

busy-IsEarly : IsEarly 1 busy
busy-IsEarly = record { ring = busy-IsRing; first = omega arith; free = omega arith }

run_refines_example : run busy script ≡ run_queue 3 (some 7 ∷ some 8 ∷ []) script
run_refines_example = run_refines script busy-IsEarly

run-busy : run busy script ≡ wrote true ∷ wrote false ∷ got (some 7) ∷ []
unfolding run r_buff_write r_buff_read
run-busy = refl

-- The reader has gone round once, and four requests wait in four slots.
abbrev late : Ring ℕ
late = record { hp = 8; rp = 4; cap = 4; proc = some 1 ∷ some 2 ∷ some 3 ∷ some 4 ∷ [] }

late-IsRing : IsRing late
late-IsRing = record {
  bits = 2;
  small = omega arith;
  power = refl;
  width = refl;
  ordered = omega arith;
  room = omega arith;
  early = omega arith;
}

late-overwrite_example :
    ((r_buff_write late 9).0 ≡ true) × ((r_buff_read (r_buff_write late 9).1).0 ≡ some 9)
late-overwrite_example = late-overwrite 9 late-IsRing (omega arith) refl
