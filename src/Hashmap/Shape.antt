-- ===== src/Hashmap/Shape.antt =====
-- The Robin Hood layout of a table of `c` buckets whose entries stand fewer than `b` steps from
-- their home, with no tombstone, and what writing one bucket does to it.
use orca_db.Base.{
  ℕ, zero, suc, ◌+◌, ◌%◌, ◌≤◌, ◌<◌, ◌≡◌, ◌≢◌, sym, ◌∙◌, ap, false, Option, some, List, length,
  get_elem?, set, length-set, get_elem?-lt, get_elem?-set_self, get_elem?-set_ne, arith, ℕ_discrete,
}
use orca_db.Hashmap.{Node, is_tomb}
use orca_db.Hashmap.Index.{congr-mod}

-- The bucket at an index that is not reduced.
abbrev pub bucket {ℓ} : {A : Type ℓ} → ℕ → List A → ℕ → Option A
bucket c t x = get_elem? t (x % c)

module _ {ℓ} {A : Type ℓ} (c : ℕ) (t : List A) (width : length t ≡ c) (pos : 0 < c) where
  pub bucket-some : (x : ℕ) → (a : A) × (bucket c t x ≡ some a)
  bucket-some x = get_elem?-lt t (x % c) (omega arith)

  pub bucket-set_self : (x y : ℕ) (v : A) → y % c ≡ x % c → bucket c (set t (x % c) v) y ≡ some v
  bucket-set_self x y v e =
      ap (λ i. get_elem? (set t (x % c) v) i) e ∙ get_elem?-set_self t (x % c) v (omega arith)

  pub bucket-set_ne :
      (x y : ℕ) (v : A) → y % c ≢ x % c → bucket c (set t (x % c) v) y ≡ bucket c t y
  bucket-set_ne x y v e = get_elem?-set_ne t (x % c) (y % c) v (λ h. e (sym h))

module _ {ℓ} {K V : Type ℓ} (b c : ℕ) where
  -- `linked`: an entry away from its home stands behind an entry that is at most one step nearer.
  pub record IsShape (t : List (Node K V)) : Type ℓ where
    pub width : length t ≡ c
    pub near : (x : ℕ) (n : Node K V) → bucket c t x ≡ some n → n.hash ≢ 0 → n.dib < b
    pub placed :
        (x : ℕ) (n : Node K V) → bucket c t x ≡ some n → n.hash ≢ 0 → (n.hash + n.dib) % c ≡ x % c
    pub linked :
        (x : ℕ) (p n : Node K V)
        → bucket c t x ≡ some p
        → bucket c t (x + 1) ≡ some n
        → n.hash ≢ 0
        → 0 < n.dib
        → (p.hash ≢ 0) × (n.dib ≤ p.dib + 1)
    pub whole : (x : ℕ) (n : Node K V) → bucket c t x ≡ some n → is_tomb n ≡ false

  -- An entry that may be written to the bucket `x`.
  pub record Fits (t : List (Node K V)) (cur : Node K V) (x : ℕ) : Type ℓ where
    pub occupied : cur.hash ≢ 0
    pub alive : is_tomb cur ≡ false
    pub near : cur.dib < b
    pub home : (cur.hash + cur.dib) % c ≡ x % c
    pub behind :
        (y : ℕ) (p : Node K V)
        → (y + 1) % c ≡ x % c
        → bucket c t y ≡ some p
        → 0 < cur.dib
        → (p.hash ≢ 0) × (cur.dib ≤ p.dib + 1)

  module _ (t : List (Node K V)) (pos : 0 < c) (shape : IsShape t) (cur old : Node K V) (x : ℕ)
      (fits : Fits t cur x) (at_x : bucket c t x ≡ some old)
      (closer : old.hash ≢ 0 → old.dib ≤ cur.dib) where
    same : (y : ℕ) → y % c ≡ x % c → bucket c (set t (x % c) cur) y ≡ some cur
    same y e = bucket-set_self c t shape.width pos x y cur e

    other : (y : ℕ) → y % c ≢ x % c → bucket c (set t (x % c) cur) y ≡ bucket c t y
    other y e = bucket-set_ne c t shape.width pos x y cur e

    set-linked :
        (y : ℕ) (p n : Node K V)
        → bucket c (set t (x % c) cur) y ≡ some p
        → bucket c (set t (x % c) cur) (y + 1) ≡ some n
        → n.hash ≢ 0
        → 0 < n.dib
        → (p.hash ≢ 0) × (n.dib ≤ p.dib + 1)
    set-linked y p n ep en h d = elim (ℕ_discrete ((y + 1) % c) (x % c)) [
      | yes e₁ ↦ elim (ℕ_discrete (y % c) (x % c)) [
        | yes e₂ ↦ ground (arith, same y e₂, same (y + 1) e₁, fits.occupied)
        | no ne ↦ ground (arith, same (y + 1) e₁, other y ne, fits.behind y p e₁)
      ]
      | no ne₁ ↦ elim (ℕ_discrete (y % c) (x % c)) [
        | yes e₂ ↦
            let at_next : bucket c t (x + 1) ≡ some n =
              ap (λ i. get_elem? t i) (sym (congr-mod c y x 1 e₂)) ∙ sym (other (y + 1) ne₁) ∙ en in
            ground (arith, same y e₂, fits.occupied, closer, shape.linked x old n at_x at_next h d)
        | no ne ↦ ground (arith, other (y + 1) ne₁, other y ne, shape.linked y p n)
      ]
    ]

    set-near :
        (y : ℕ) (n : Node K V) → bucket c (set t (x % c) cur) y ≡ some n → n.hash ≢ 0 → n.dib < b
    set-near y n e h = elim (ℕ_discrete (y % c) (x % c)) [
      | yes e₂ ↦ ground (arith, same y e₂, fits.near)
      | no ne ↦ ground (arith, other y ne, shape.near y n)
    ]

    set-placed :
        (y : ℕ) (n : Node K V)
        → bucket c (set t (x % c) cur) y ≡ some n
        → n.hash ≢ 0
        → (n.hash + n.dib) % c ≡ y % c
    set-placed y n e h = elim (ℕ_discrete (y % c) (x % c)) [
      | yes e₂ ↦ ground (arith, same y e₂, fits.home)
      | no ne ↦ ground (arith, other y ne, shape.placed y n)
    ]

    set-whole : (y : ℕ) (n : Node K V) → bucket c (set t (x % c) cur) y ≡ some n → is_tomb n ≡ false
    set-whole y n e = elim (ℕ_discrete (y % c) (x % c)) [
      | yes e₂ ↦ ground (arith, same y e₂, fits.alive)
      | no ne ↦ ground (arith, other y ne, shape.whole y n)
    ]

    -- Writing such an entry over a free bucket, or over an entry that is nearer to its home,
    -- keeps the layout.
    pub set-IsShape : IsShape (set t (x % c) cur)
    set-IsShape = record {
      width = length-set t (x % c) cur ∙ shape.width;
      near = set-near;
      placed = set-placed;
      linked = set-linked;
      whole = set-whole;
    }

  -- Walking back from an entry to its home meets entries only, each at least as far out as the
  -- walk is long.
  pub walk :
      (t : List (Node K V))
      → 0 < c
      → IsShape t
      → (s y : ℕ) (n : Node K V) → bucket c t (y + s) ≡ some n
      → n.hash ≢ 0
      → s ≤ n.dib
      → (p : Node K V) × (bucket c t y ≡ some p) × (p.hash ≢ 0) × (n.dib ≤ p.dib + s)
  walk t pos shape zero y n e h d = (n, ap (λ i. bucket c t i) (omega arith) ∙ e, h, omega arith)
  walk t pos shape (suc s) y n e h d =
      let (m, at_m) = bucket-some c t shape.width pos (y + s) in
      let at_n : bucket c t (y + s + 1) ≡ some n = ap (λ i. bucket c t i) (omega arith) ∙ e in
      let step = shape.linked (y + s) m n at_m at_n h (omega arith) in
      let (p, at_p, occupied, far) = walk t pos shape s y m at_m step.0 (omega (arith, step)) in
      (p, at_p, occupied, omega (arith, far, step))
