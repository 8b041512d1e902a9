-- ===== src/Http/Parse/Headers.antt =====
-- Where the header loop ends.
use orca_db.Base.{
  ℕ, zero, suc, ◌+◌, ◌-◌, ◌*◌, ◌≤◌, ◌<◌, ◌∙◌, sym, Bool, ◌&&◌, Option, none, some, [], ◌∷◌, Bytes,
  length, take, drop, length-drop, arith, Run, done, ◌>>=◌, inl, inr, Bool-cases, ◌==◌, leb,
  bytes_eq, if◌then◌else◌, subst, Ends, Ends-bind, Ends-weaken, leb-and,
}
use orca_db.Http.Parse.{
  scan, skip, skip_line, parse_digits, parse_length, header_loop, not_blank, content_length_name,
}
use orca_db.Http.Parse.Bounds.{Moved, scan-Moved, skip_line-Moved}

abbrev MovedTo : ℕ → Bytes → ℕ × ℕ × Bytes → Type 0
MovedTo p rest r = Moved p rest r.1 r.2

parse_digits-Ends : (len p : ℕ) (rest : Bytes) → Ends (MovedTo p rest) (parse_digits len p rest)
unfolding parse_digits
parse_digits-Ends len p [] = omega arith
parse_digits-Ends len p (c ∷ rest) =
    ground (arith, parse_digits-Ends (len * 10 + (c - b'0')) (p + 1) rest)

parse_length-Ends : (old p : ℕ) (rest : Bytes) → Ends (MovedTo p rest) (parse_length old p rest)
unfolding parse_length
parse_length-Ends old p rest =
    let (q, left) = scan not_blank (p + 15) (drop 15 rest) in
    let m = scan-Moved not_blank (p + 15) (drop 15 rest) in
    let named = bytes_eq (take 15 rest) content_length_name in
    let outcome = λ (b : Bool).
      Ends (MovedTo p rest) (if b then parse_digits 0 q left else done (old, p, rest)) in
    elim (Bool-cases (leb 15 (length rest) && named)) [
      | inr e ↦ subst outcome (sym e) (omega arith)
      | inl e ↦ subst outcome (sym e) (
          Ends-weaken (MovedTo q left) (MovedTo p rest) (parse_digits 0 q left)
            (λ r k. omega (arith, k, m, length-drop 15 rest, leb-and 15 (length rest) named e))
            (parse_digits-Ends 0 q left))
    ]

-- A line that is skipped is not empty.
skip_line-drops : (p : ℕ) (c : ℕ) (rest : Bytes) → length (skip_line p (c ∷ rest)).1 ≤ length rest
unfolding skip_line scan skip
skip_line-drops p c [] = ground arith
skip_line-drops p c (d ∷ rest) = ground (arith, skip_line-drops (p + 1) d rest)

-- Where the headers end, for a buffer whose end is `n`.
abbrev pub HeadWithin : ℕ → Option (ℕ × ℕ) → Type 0
HeadWithin n none = Unit
HeadWithin n (some h) = h.0 ≤ n

skip_line-lt :
    (p m : ℕ) (rest : Bytes) → length rest < suc m → 0 < m → length (skip_line p rest).1 < m
unfolding skip_line scan skip
skip_line-lt p m [] h k = omega arith
skip_line-lt p m (c ∷ rest) h k = omega (arith, skip_line-drops p c rest)

pub header_loop-Ends :
    (fuel len p : ℕ) (rest : Bytes)
    → length rest < fuel
    → Ends (HeadWithin (p + length rest)) (header_loop fuel len p rest)
unfolding header_loop
header_loop-Ends zero len p rest h = absurd (omega arith)
header_loop-Ends (suc fuel) len p [] h = tt
header_loop-Ends (suc fuel) len p (a ∷ []) h = tt
header_loop-Ends (suc fuel) len p (a ∷ b ∷ rest) h =
    let all = a ∷ b ∷ rest in
    let n = p + length all in
    let next : Run (Option (ℕ × ℕ)) = parse_length len p all >>= λ r.
    header_loop fuel r.0 (skip_line r.1 r.2).0 (skip_line r.1 r.2).1 in
    let outcome =
      λ (c : Bool). Ends (HeadWithin n) (if c then done (some (p + 2, len)) else next) in
    elim (Bool-cases (a == 13 && b == 10)) [
      | inl e ↦ subst outcome (sym e) (omega arith)
      | inr e ↦ subst outcome (sym e) (
          Ends-bind (MovedTo p all) (HeadWithin n) (parse_length len p all) _
            (parse_length-Ends len p all)
            (λ r k.
              subst
                (λ j.
                  Ends (HeadWithin j)
                    (header_loop fuel r.0 (skip_line r.1 r.2).0 (skip_line r.1 r.2).1))
                ((skip_line-Moved r.1 r.2).1 ∙ k.1)
                (header_loop-Ends fuel r.0 (skip_line r.1 r.2).0 (skip_line r.1 r.2).1
                  (skip_line-lt r.1 fuel r.2 (omega (arith, k, h)) (omega (arith, h))))))
    ]
