-- ===== src/Http/Parse/Bounds.antt =====
-- The spans that the parser hands out, against the bytes that have been read.
use orca_db.Base.{
  ℕ, zero, suc, ◌+◌, ◌-◌, ◌≤◌, ◌≡◌, ◌∙◌, sym, refl, Bool, Option, none, some, List, [], ◌∷◌, Bytes,
  length, arith, inl, inr, Bool-cases, ◌==◌, if◌then◌else◌, subst,
}
use Prim.Native.Nat.{suc-le-suc}
use mathlib.Core.Option.{some-injective, none-ne-some}
use native.Mathlib.Nat.{le_trans}
use orca_db.Http.Request.{Span, Param, Request}
use orca_db.Http.Parse.{
  scan, skip, parse_val, parse_params, parse_query, skip_line, parse_path, parse_method,
  parse_req_line, ends_key, ends_val, ends_path, is_space, is_newline,
}

-- From `p` with `rest` the parser has come to `q` with `left`, and dropped what lies between.
abbrev pub Moved : ℕ → Bytes → ℕ → Bytes → Type 0
Moved p rest q left = (p ≤ q) × (q + length left ≡ p + length rest)

pub scan-Moved :
    (stop : ℕ → Bool) (p : ℕ) (rest : Bytes)
    → let (q, left) = scan stop p rest in Moved p rest q left
unfolding scan
scan-Moved stop p [] = omega arith
scan-Moved stop p (c ∷ rest) = ground (arith, scan-Moved stop (p + 1) rest)

skip-Moved : (c p : ℕ) (rest : Bytes) → let (q, left) = skip c p rest in Moved p rest q left
unfolding skip
skip-Moved c p [] = omega arith
skip-Moved c p (d ∷ rest) = ground arith

pub skip_line-Moved :
    (p : ℕ) (rest : Bytes) → let (q, left) = skip_line p rest in Moved p rest q left
unfolding skip_line
skip_line-Moved p rest =
    let (q, left) = scan is_newline p rest in
    omega (arith, scan-Moved is_newline p rest, skip-Moved 10 q left)

-- The span lies in the first `n` bytes.
abbrev pub Within : ℕ → Span → Type 0
Within n s = s.start + s.len ≤ n

abbrev pub ValWithin : ℕ → Option Span → Type 0
ValWithin n none = Unit
ValWithin n (some s) = Within n s

abbrev pub AllWithin : ℕ → List Param → Type 0
AllWithin n [] = Unit
AllWithin n (p ∷ ps) = Within n p.key × ValWithin n p.val × AllWithin n ps

pub AllWithin_grow : (m n : ℕ) (ps : List Param) → m ≤ n → AllWithin m ps → AllWithin n ps
AllWithin_grow m n [] h v = tt
AllWithin_grow m n (p ∷ ps) h v =
    (omega (arith, v.0), ValWithin_grow p.val v.1, AllWithin_grow m n ps h v.2)
  where
    ValWithin_grow : (s : Option Span) → ValWithin m s → ValWithin n s
    ValWithin_grow none k = tt
    ValWithin_grow (some s) k = omega (arith, k)

parse_val-Moved :
    (p : ℕ) (rest : Bytes)
    → let (val, q, left) = parse_val p rest in
      (p ≤ q) × (q + length left ≡ p + length rest) × ValWithin (p + length rest) val
unfolding parse_val
parse_val-Moved p [] = (omega arith, omega arith, tt)
parse_val-Moved p (c ∷ rest) =
    let moved = scan-Moved ends_val (p + 1) rest in
    elim (Bool-cases (c == b'=')) [
      | inl e ↦ rw e (omega (arith, moved), omega (arith, moved), omega (arith, moved))
      | inr e ↦ rw e (omega arith, omega arith, tt)
    ]

span-Within : (p q n : ℕ) → p ≤ q → q ≤ n → p + (q - p) ≤ n
span-Within p q n h k = omega arith

le_of_sum : {q n : ℕ} (r : ℕ) → q + r ≡ n → q ≤ n
le_of_sum r e = omega arith

-- The parameters parsed from `p` on, where `n` is the end of the buffer.
abbrev Parsed : ℕ → ℕ → ℕ → List Param × ℕ × Bytes → Type 0
Parsed left p n r = (p ≤ r.1) × (r.1 + length r.2 ≡ n) × AllWithin n r.0 × (length r.0 ≤ left)

parse_params-Parsed :
    (left p : ℕ) (rest : Bytes) → Parsed left p (p + length rest) (parse_params left p rest)
unfolding parse_params
parse_params-Parsed zero p rest = (omega arith, refl, tt, omega arith)
parse_params-Parsed (suc left) p [] = (omega arith, refl, tt, omega arith)
parse_params-Parsed (suc left) p (c ∷ rest) =
    let n = p + suc (length rest) in
    let (p₁, rest₁) = scan ends_key p (c ∷ rest) in
    let m₁ = scan-Moved ends_key p (c ∷ rest) in
    let (val, p₂, rest₂) = parse_val p₁ rest₁ in
    let m₂ = parse_val-Moved p₁ rest₁ in
    let (p₃, rest₃) = skip b'&' p₂ rest₂ in
    let m₃ = skip-Moved b'&' p₂ rest₂ in
    let m₄ = parse_params-Parsed left p₃ rest₃ in
    let total₃ = m₃.1 ∙ m₂.1 ∙ m₁.1 in
    let end_params : List Param × ℕ × Bytes = ([], p, c ∷ rest) in
    let more : List Param × ℕ × Bytes = (
      record { key = record { start = p; len = p₁ - p }; val = val }
          ∷ (parse_params left p₃ rest₃).0,
      (parse_params left p₃ rest₃).1,
      (parse_params left p₃ rest₃).2,
    ) in
    let outcome = λ (b : Bool). Parsed (suc left) p n (if b then end_params else more) in
    elim (Bool-cases (c == b' ')) [
      | inl e ↦ subst outcome (sym e) (omega arith, refl, tt, omega arith)
      | inr e ↦ subst outcome (sym e) (
        le_trans m₁.0 (le_trans m₂.0 (le_trans m₃.0 m₄.0)),
        m₄.1 ∙ total₃,
        (
          span-Within p p₁ n m₁.0 (le_of_sum _ m₁.1),
          subst (λ k. ValWithin k val) m₁.1 m₂.2,
          subst (λ k. AllWithin k (parse_params left p₃ rest₃).0) total₃ m₄.2,
        ),
        suc-le-suc m₄.3,
      )
    ]

parse_query-Parsed :
    (c p : ℕ) (rest : Bytes) → Parsed 8 p (p + suc (length rest)) (parse_query c p rest)
unfolding parse_query
parse_query-Parsed c p rest =
    let m = parse_params-Parsed 8 (p + 1) rest in
    let n = p + suc (length rest) in
    let total : p + 1 + length rest ≡ n = omega arith in
    let outcome =
      λ (b : Bool). Parsed 8 p n (if b then parse_params 8 (p + 1) rest else ([], p, c ∷ rest)) in
    elim (Bool-cases (c == b'?')) [
      | inr e ↦ subst outcome (sym e) (omega arith, refl, tt, omega arith)
      | inl e ↦ subst outcome (sym e) (
        le_trans (omega arith) m.0,
        m.1 ∙ total,
        subst (λ k. AllWithin k (parse_params 8 (p + 1) rest).0) total m.2,
        m.3,
      )
    ]

-- What a successful parse of the request line says of its result.
pub record LineWithin (n : ℕ) (r : ℕ × Request) : Type 0 where
  pub consumed : r.0 ≤ n
  pub method : Within n r.1.method
  pub path : Within n r.1.path
  pub params : AllWithin n r.1.params
  pub few : length r.1.params ≤ 8

parse_path-LineWithin :
    (method : Span) (p q n : ℕ) (rest : Bytes) (r : ℕ × Request)
    → Within n method
    → p ≤ q
    → q + length rest ≡ n
    → parse_path method p (q, rest) ≡ some r
    → LineWithin n r
unfolding parse_path
parse_path-LineWithin method p q n [] r m h k e = absurd (none-ne-some _ e)
parse_path-LineWithin method p q n (c ∷ rest) r m h k e =
    let (params, p₁, rest₁) = parse_query c q rest in
    let parsed = parse_query-Parsed c q rest in
    let moved = skip_line-Moved p₁ rest₁ in
    subst (LineWithin n) (some-injective _ _ e) (record {
      consumed = le_of_sum _ (moved.1 ∙ parsed.1 ∙ k);
      method = m;
      path = span-Within p q n h (le_of_sum _ k);
      params = subst (λ j. AllWithin j params) k parsed.2;
      few = parsed.3;
    })

parse_method-LineWithin :
    (p n : ℕ) (rest : Bytes) (r : ℕ × Request)
    → p + length rest ≡ n
    → parse_method (p, rest) ≡ some r
    → LineWithin n r
unfolding parse_method
parse_method-LineWithin p n [] r k e = absurd (none-ne-some _ e)
parse_method-LineWithin p n (c ∷ rest) r k e =
    let m = scan-Moved ends_path (p + 1) rest in
    parse_path-LineWithin (record { start = 0; len = p }) (p + 1) _ n _ r (omega (arith, k)) m.0
      (m.1 ∙ omega (arith, k)) e

-- The request line consumes at most the bytes that it is given, all its spans lie in them, and at
-- most eight parameters are stored.
pub parse_req_line-LineWithin :
    (buf : Bytes) (r : ℕ × Request) → parse_req_line buf ≡ some r → LineWithin (length buf) r
unfolding parse_req_line
parse_req_line-LineWithin buf r e =
    let (p, rest) = scan is_space 0 buf in
    parse_method-LineWithin p (length buf) rest r (omega (arith, scan-Moved is_space 0 buf)) e
