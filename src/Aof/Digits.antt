-- ===== src/Aof/Digits.antt =====
-- `sscanf` of "%zu" on what `fprintf` of "%zu" has written.
use orca_db.Base.{
  length, ℕ, zero, suc, ◌+◌, ◌-◌, ◌*◌, ◌/◌, ◌%◌, ◌^◌, ◌<◌, ◌≤◌, ◌≡◌, refl, sym, ap, ◌∙◌, Bool, true,
  false, Option, none, some, [], ◌∷◌, ◌++◌, Bytes, ltb, leb, if◌then◌else◌, ltb→lt, lt→ltb, lt→leb,
  ==_ne, Bool-cases, inl, inr, Run, done, ◌>>=◌, arith, subst,
}
use orca_db.Aof.{digits, digits_loop}
use orca_db.Aof.Scan.{
  number, number_or_none, signed, skip_space, scan_size, after_space, is_digit, is_space,
}

-- Every byte is a digit.
abbrev pub AllDigits : Bytes → Type 0
AllDigits [] = Unit
AllDigits (c ∷ cs) = (48 ≤ c) × (c ≤ 57) × AllDigits cs

-- What the digits are worth behind a number `n`.
abbrev pub worth : ℕ → Bytes → ℕ
worth n [] = n
worth n (c ∷ cs) = worth (n * 10 + (c - 48)) cs

is_space-false : (c : ℕ) → 48 ≤ c → c ≤ 57 → is_space c ≡ false
is_space-false c h k = ground arith

digits_loop-AllDigits :
    (fuel n : ℕ) (acc : Bytes) → AllDigits acc → AllDigits (digits_loop fuel n acc)
unfolding digits_loop
digits_loop-AllDigits zero n acc h = h
digits_loop-AllDigits (suc fuel) n acc h =
    let digit = 48 + n % 10 in
    let outcome = λ (b : Bool).
      AllDigits (if b then (48 + n) ∷ acc else digits_loop fuel (n / 10) (digit ∷ acc)) in
    elim (Bool-cases (ltb n 10)) [
      | inl e ↦ subst outcome (sym e) (omega arith, omega (arith, ltb→lt n 10 e), h)
      | inr e ↦
          subst outcome (sym e)
            (digits_loop-AllDigits fuel (n / 10) (digit ∷ acc) (omega arith, omega arith, h))
    ]

abbrev pow_ten : ℕ → ℕ
pow_ten zero = 1
pow_ten (suc k) = 10 * pow_ten k

worth-cons : (n : ℕ) (acc : Bytes) → worth 0 ((48 + n) ∷ acc) ≡ worth n acc
worth-cons n acc = ap (λ m. worth m acc) (omega arith)

digits_loop-worth :
    (fuel n : ℕ) (acc : Bytes)
    → n < 10 * pow_ten fuel
    → worth 0 (digits_loop (suc fuel) n acc) ≡ worth n acc
unfolding digits_loop
digits_loop-worth zero n acc h = rw (lt→ltb n 10 (omega arith)) (worth-cons n acc)
digits_loop-worth (suc fuel) n acc h =
    let more = digits_loop (suc fuel) (n / 10) ((48 + n % 10) ∷ acc) in
    let outcome = λ (b : Bool). worth 0 (if b then (48 + n) ∷ acc else more) ≡ worth n acc in
    elim (Bool-cases (ltb n 10)) [
      | inl e ↦ subst outcome (sym e) (worth-cons n acc)
      | inr e ↦ subst outcome (sym e) (
          digits_loop-worth fuel (n / 10) ((48 + n % 10) ∷ acc) (omega arith)
          ∙ ap (λ m. worth m acc) (omega arith))
    ]

digits_loop-cons :
    (fuel n : ℕ) (acc : Bytes) → (c : ℕ) × (cs : Bytes) × (digits_loop (suc fuel) n acc ≡ c ∷ cs)
unfolding digits_loop
digits_loop-cons zero n acc =
    let outcome = λ (b : Bool).
      (c : ℕ) × (cs : Bytes) × ((if b then (48 + n) ∷ acc else (48 + n % 10) ∷ acc) ≡ c ∷ cs) in
    elim (Bool-cases (ltb n 10)) [
      | inl e ↦ subst outcome (sym e) (48 + n, acc, refl)
      | inr e ↦ subst outcome (sym e) (48 + n % 10, acc, refl)
    ]
digits_loop-cons (suc fuel) n acc =
    let more = digits_loop (suc fuel) (n / 10) ((48 + n % 10) ∷ acc) in
    let outcome =
      λ (b : Bool). (c : ℕ) × (cs : Bytes) × ((if b then (48 + n) ∷ acc else more) ≡ c ∷ cs) in
    elim (Bool-cases (ltb n 10)) [
      | inl e ↦ subst outcome (sym e) (48 + n, acc, refl)
      | inr e ↦ subst outcome (sym e) (digits_loop-cons fuel (n / 10) ((48 + n % 10) ∷ acc))
    ]

pub worth-ge : (n : ℕ) (cs : Bytes) → n ≤ worth n cs
worth-ge n [] = omega arith
worth-ge n (c ∷ cs) = omega (arith, worth-ge (n * 10 + (c - 48)) cs)

is_digit-true : (c : ℕ) → 48 ≤ c → c ≤ 57 → is_digit c ≡ true
is_digit-true c h k = ground arith

number-digits :
    (n : ℕ) (cs rest : Bytes)
    → AllDigits cs
    → worth n cs < 2 ^ 64
    → number n (cs ++ (32 ∷ rest)) ≡ done (worth n cs)
unfolding number
number-digits n [] rest h k = refl
number-digits n (c ∷ cs) rest h k =
    let fits : leb (2 ^ 64) (n * 10 + (c - 48)) ≡ false =
      lt→leb (2 ^ 64) (n * 10 + (c - 48)) (omega (arith, worth-ge (n * 10 + (c - 48)) cs, k)) in
    rw (is_digit-true c h.0 h.1) (rw fits (number-digits (n * 10 + (c - 48)) cs rest h.2 k))

number_or_none-digits :
    (c : ℕ) (cs rest : Bytes)
    → AllDigits (c ∷ cs)
    → worth 0 (c ∷ cs) < 2 ^ 64
    → number_or_none false (c ∷ (cs ++ (32 ∷ rest))) ≡ done (some (worth 0 (c ∷ cs)))
unfolding number_or_none
number_or_none-digits c cs rest h k =
    let value : Run (Option ℕ) = number 0 ((c ∷ cs) ++ (32 ∷ rest)) >>= λ n. done (some n) in
    let outcome = λ (b : Bool). (if b then value else done none) ≡ done (some (worth 0 (c ∷ cs))) in
    subst outcome (sym (is_digit-true c h.0 h.1))
      (ap (λ x. x >>= λ n. done (some n)) (number-digits 0 (c ∷ cs) rest h k))

scan_size-digits :
    (c : ℕ) (cs rest : Bytes)
    → AllDigits (c ∷ cs)
    → worth 0 (c ∷ cs) < 2 ^ 64
    → scan_size (c ∷ (cs ++ (32 ∷ rest))) ≡ done (some (worth 0 (c ∷ cs)))
unfolding scan_size signed skip_space
scan_size-digits c cs rest h k = rw (is_space-false c h.0 h.1) (
    rw (==_ne c 45 (λ e. omega (arith, e, h)))
      (rw (==_ne c 43 (λ e. omega (arith, e, h))) (number_or_none-digits c cs rest h k)))

after_space-digits : (cs rest : Bytes) → AllDigits cs → after_space (cs ++ (32 ∷ rest)) ≡ done rest
unfolding after_space
after_space-digits [] rest h = refl
after_space-digits (c ∷ cs) rest h =
    rw (==_ne c 32 (λ e. omega (arith, e, h)))
      (rw (==_ne c 0 (λ e. omega (arith, e, h))) (after_space-digits cs rest h.2))

-- A number that was printed: its digits, the first of which is there, and what they are worth.
pub digits-worth :
    (n : ℕ)
    → n < 2 ^ 64
    → (c : ℕ) × (cs : Bytes) × (digits n ≡ c ∷ cs) × AllDigits (c ∷ cs) × (worth 0 (c ∷ cs) ≡ n)
unfolding digits
digits-worth n h =
    let (c, cs, e) = digits_loop-cons 19 n [] in
    (
      c,
      cs,
      e,
      subst AllDigits e (digits_loop-AllDigits 20 n [] tt),
      ap (worth 0) (sym e) ∙ digits_loop-worth 19 n [] (omega arith),
    )

-- Both read what stands in front of the space behind a number that `fprintf` wrote.
pub scan_size-digits_of :
    (n : ℕ) (rest : Bytes)
    → n < 2 ^ 64
    → (scan_size (digits n ++ (32 ∷ rest)) ≡ done (some n))
      × (after_space (digits n ++ (32 ∷ rest)) ≡ done rest)
scan_size-digits_of n rest h =
    let (c, cs, e, all, value) = digits-worth n h in
    (
      rw e (scan_size-digits c cs rest all (omega (arith, value)) ∙ ap (λ m. done (some m)) value),
      rw e (after_space-digits (c ∷ cs) rest all),
    )

pub digits-AllDigits : (n : ℕ) → AllDigits (digits n)
unfolding digits
digits-AllDigits n = digits_loop-AllDigits 20 n [] tt

digits_loop-length :
    (fuel n : ℕ) (acc : Bytes) → length (digits_loop fuel n acc) ≤ fuel + length acc
unfolding digits_loop
digits_loop-length zero n acc = omega arith
digits_loop-length (suc fuel) n acc =
    let more = digits_loop fuel (n / 10) ((48 + n % 10) ∷ acc) in
    let outcome =
      λ (b : Bool). length (if b then (48 + n) ∷ acc else more) ≤ suc fuel + length acc in
    let longer = digits_loop-length fuel (n / 10) ((48 + n % 10) ∷ acc) in
    elim (Bool-cases (ltb n 10)) [
      | inl e ↦ subst outcome (sym e) (omega arith)
      | inr e ↦ subst outcome (sym e) (omega (arith, longer))
    ]

pub digits-length : (n : ℕ) → length (digits n) ≤ 20
unfolding digits
digits-length n = digits_loop-length 20 n []
