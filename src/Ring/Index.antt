-- ===== src/Ring/Index.antt =====
-- The slots of a ring, by indices that are not reduced.
use native.Mathlib.Nat.{one-le-pow}
use orca_db.Base.{
  ℕ, zero, suc, ◌+◌, ◌-◌, ◌%◌, ◌^◌, ◌≤◌, ◌<◌, ◌≡◌, ◌≢◌, ◌∙◌, ap, sym, refl, subst, Option, some,
  List, [], ◌∷◌, ◌++◌, length, get_elem?, set, get_elem?-set_self, get_elem?-set_ne, arith,
}
use mathlib.Core.Path.{ap₂}
use orca_db.Base.Bits.{bit_and_capacity}
use orca_db.Hashmap.Index.{step-mod-ne}
use orca_db.Ring.{Ring, wrap, slot, default}

module _ {ℓ} {P : Type ℓ} where
  -- The capacity is a power of two, the indices have not wrapped, and at most `cap` requests wait.
  pub record IsRing (r : Ring P) : Type ℓ where
    pub bits : ℕ
    pub small : bits ≤ 63
    pub power : r.cap ≡ 2 ^ bits
    pub width : length r.proc ≡ r.cap
    pub ordered : r.rp ≤ r.hp
    pub room : r.hp ≤ r.rp + r.cap
    pub early : r.hp + 1 < 2 ^ 64

  module _ {r : Ring P} (v : IsRing r) where
    pub cap-pos : 0 < r.cap
    cap-pos = omega (arith, v.power, one-le-pow v.bits 2 (omega arith))

    pub wrap-mod : (i : ℕ) → wrap r.cap i ≡ i % r.cap
    wrap-mod i = subst (λ c. wrap c i ≡ i % c) (sym v.power) (bit_and_capacity v.bits i v.small)

  -- The `n` requests from index `x` on.
  abbrev pub window : ℕ → List (Option P) → ℕ → ℕ → List (Option P)
  window cap proc x zero = []
  window cap proc x (suc n) = slot proc (x % cap) ∷ window cap proc (x + 1) n

  pub length-window :
      (cap : ℕ) (proc : List (Option P)) (x n : ℕ) → length (window cap proc x n) ≡ n
  length-window cap proc x zero = refl
  length-window cap proc x (suc n) = ap suc (length-window cap proc (x + 1) n)

  -- What the reader will be given, oldest first.
  abbrev pub contents : Ring P → List (Option P)
  contents r = window r.cap r.proc r.rp (r.hp - r.rp)

  -- Writing the slot after a window of fewer than `cap` requests extends it.
  pub window-set :
      (cap : ℕ) (proc : List (Option P)) (p : P) (n x i : ℕ)
      → length proc ≡ cap
      → 0 < cap
      → n < cap
      → i ≡ (x + n) % cap
      → window cap (set proc i (some p)) x (suc n) ≡ window cap proc x n ++ some p ∷ []
  window-set cap proc p zero x i width pos below e =
      let at_x : i ≡ x % cap = e ∙ ap (λ j. j % cap) (omega arith) in
      let own : get_elem? (set proc i (some p)) (x % cap) ≡ some (some p) =
        ap (get_elem? (set proc i (some p))) (sym at_x)
        ∙ get_elem?-set_self proc i (some p) (omega arith) in
      ap (λ o. default o ∷ []) own
  window-set cap proc p (suc n) x i width pos below e =
      let apart : i ≢ x % cap = λ h. step-mod-ne cap x (suc n) (omega arith) below (sym e ∙ h) in
      let shift : i ≡ (x + 1 + n) % cap = e ∙ ap (λ j. j % cap) (omega arith) in
      ap₂ ◌∷◌ (ap default (get_elem?-set_ne proc i (x % cap) (some p) apart))
        (window-set cap proc p n (x + 1) i width pos (omega arith) shift)

  -- A window of the whole ring, after a write at its start, begins with what was written.
  pub window-set_full :
      (cap : ℕ) (proc : List (Option P)) (p : P) (n x i : ℕ)
      → length proc ≡ cap
      → 0 < cap
      → i ≡ x % cap
      → window cap (set proc i (some p)) x (suc n)
        ≡ some p ∷ window cap (set proc i (some p)) (x + 1) n
  window-set_full cap proc p n x i width pos e =
      let own : get_elem? (set proc i (some p)) (x % cap) ≡ some (some p) =
        ap (get_elem? (set proc i (some p))) (sym e)
        ∙ get_elem?-set_self proc i (some p) (omega arith) in
      ap (λ o. default o ∷ window cap (set proc i (some p)) (x + 1) n) own
