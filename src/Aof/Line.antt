-- ===== src/Aof/Line.antt =====
-- What `fgets` takes of a file that begins with a whole line.
use orca_db.Base.{
  ℕ, zero, suc, ◌+◌, ◌<◌, ◌≡◌, ◌≢◌, refl, ap, some, [], ◌∷◌, ◌++◌, Bytes, length, drop, ==_ne,
  arith,
}
use orca_db.Aof.Scan.{fgets, fgets_bytes}

-- No byte is a newline.
abbrev pub OneLine : Bytes → Type 0
OneLine [] = Unit
OneLine (c ∷ cs) = (c ≢ 10) × OneLine cs

pub OneLine-append : (xs ys : Bytes) → OneLine xs → OneLine ys → OneLine (xs ++ ys)
OneLine-append [] ys h k = k
OneLine-append (x ∷ xs) ys h k = (h.0, OneLine-append xs ys h.1 k)

fgets_bytes-line :
    (n : ℕ) (xs rest : Bytes)
    → OneLine xs
    → length xs < n
    → fgets_bytes n (xs ++ (10 ∷ rest)) ≡ (xs ++ (10 ∷ []), rest)
unfolding fgets_bytes
fgets_bytes-line zero xs rest h k = absurd (omega arith)
fgets_bytes-line (suc n) [] rest h k = refl
fgets_bytes-line (suc n) (x ∷ xs) rest h k =
    rw (==_ne x 10 h.0) (ap (λ r. (x ∷ r.0, r.1)) (fgets_bytes-line n xs rest h.1 (omega arith)))

-- The buffer after `fgets` of a line: the line, its newline, the NUL, and what stood behind it.
abbrev pub with_line : Bytes → Bytes → Bytes
with_line xs line = (xs ++ (10 ∷ [])) ++ (0 ∷ drop (length (xs ++ (10 ∷ [])) + 1) line)

pub fgets-line :
    (line xs rest : Bytes)
    → OneLine xs
    → length xs < 4095
    → fgets line (xs ++ (10 ∷ rest)) ≡ some (with_line xs line, rest)
unfolding fgets
fgets-line line [] rest h k = refl
fgets-line line (x ∷ xs) rest h k =
    ap (λ r. some (r.0 ++ (0 ∷ drop (length r.0 + 1) line), r.1))
      (fgets_bytes-line 4095 (x ∷ xs) rest h k)
