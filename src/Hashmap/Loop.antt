-- ===== src/Hashmap/Loop.antt =====
-- The loop of `hm_insert` for a key that the table does not hold, from its home to the end.
use orca_db.Base.{
  ℕ, zero, suc, ◌+◌, ◌%◌, ◌^◌, ◌≤◌, ◌<◌, ◌≡◌, ◌≢◌, ◌∙◌, ap, sym, true, false, Option, some, Bytes,
  u16, arith, done, Run, set, dec_lt, ℕ_discrete, lt→ltb, le→ltb,
}
use mathlib.Core.Path.{ap₂}
use orca_db.Hashmap.{Node, Hashmap, Status, matches, next_idx, is_free, is_tomb, insert_loop}
use orca_db.Hashmap.Index.{step-mod-ne}
use orca_db.Hashmap.Shape.{bucket, bucket-some, bucket-set_ne, IsShape, Fits, set-IsShape}
use orca_db.Hashmap.Fresh.{Inserted, place-Inserted, swap-Inserted, pass-Inserted}
use orca_db.Hashmap.Carry.{swap-Fits, pass-Fits}

module _ {ℓ} {K V : Type ℓ} (mem : K → Bytes) (b : ℕ) (small : b < 2 ^ 16) (k : K)
    (value : Option V) (val_len : ℕ) where
  free-empty : (n : Node K V) → n.hash ≡ 0 → is_free n ≡ true
  unfolding is_free
  free-empty n h = ground arith

  pub free-occupied : (n : Node K V) → n.hash ≢ 0 → is_tomb n ≡ false → is_free n ≡ false
  unfolding is_free
  free-occupied n h t = ground arith

  -- The outcome of a run of the loop.
  abbrev Ends : Hashmap K V → Node K V → Run (Status × Hashmap K V) → Type ℓ
  Ends hm cur run = (r : Status × Hashmap K V) × (run ≡ done r) × Inserted mem b hm cur r

  place_step :
      (fuel x : ℕ) (hm : Hashmap K V) (cur n : Node K V)
      → 0 < hm.capacity
      → IsShape b hm.capacity hm.buckets
      → Fits b hm.capacity hm.buckets cur x
      → bucket hm.capacity hm.buckets x ≡ some n
      → n.hash ≡ 0
      → Ends hm cur (insert_loop mem (suc fuel) k value val_len hm cur (x % hm.capacity))
  unfolding insert_loop
  place_step fuel x hm cur n pos shape fits at_x empty = (
    _,
    rw (at_x, insert_loop) (rw (free-empty n empty)),
    place-Inserted mem b hm cur n (x % hm.capacity) at_x
        (set-IsShape b hm.capacity hm.buckets pos shape cur n x fits at_x
          (λ occ. absurd (occ empty)))
        empty,
  )

  module _ (fuel x : ℕ) (hm : Hashmap K V) (cur n : Node K V)
      (at_x : bucket hm.capacity hm.buckets x ≡ some n) (busy : is_free n ≡ false)
      (other : matches mem k n ≡ false)
      (next : next_idx hm.capacity (x % hm.capacity) ≡ (x + 1) % hm.capacity) where
    -- A round that swaps.
    swap_step :
        n.dib < cur.dib
        → n.dib + 1 < 2 ^ 16
        → insert_loop mem (suc fuel) k value val_len hm cur (x % hm.capacity)
          ≡ insert_loop mem fuel k value val_len
              (record hm { buckets = set hm.buckets (x % hm.capacity) cur })
              (record n { dib = n.dib + 1 })
              ((x + 1) % hm.capacity)
    unfolding insert_loop
    swap_step closer fits =
        let counter : u16 (n.dib + 1) ≡ n.dib + 1 = omega arith in
        rw (at_x, insert_loop)
          (rw (busy, other, lt→ltb n.dib cur.dib closer)
            (ap₂
              (λ d i.
                insert_loop mem fuel k value val_len
                  (record hm { buckets = set hm.buckets (x % hm.capacity) cur })
                  (record n { dib = d }) i)
              counter next))

    -- A round that goes past an entry.
    pub pass_step :
        cur.dib ≤ n.dib
        → cur.dib + 1 < 2 ^ 16
        → insert_loop mem (suc fuel) k value val_len hm cur (x % hm.capacity)
          ≡ insert_loop mem fuel k value val_len hm
              (record cur { dib = cur.dib + 1 })
              ((x + 1) % hm.capacity)
    unfolding insert_loop
    pass_step farther fits =
        let counter : u16 (cur.dib + 1) ≡ cur.dib + 1 = omega arith in
        rw (at_x, insert_loop)
          (rw (busy, other, le→ltb n.dib cur.dib farther)
            (ap₂ (λ d i. insert_loop mem fuel k value val_len hm (record cur { dib = d }) i) counter
              next))

  -- With a free bucket `d` steps ahead and no match up to it, the loop ends in `d + 1` rounds.
  pub insert_loop_fresh :
      (d fuel x : ℕ) (hm : Hashmap K V) (cur f : Node K V)
      → b ≤ hm.capacity
      → ((y : ℕ) → next_idx hm.capacity (y % hm.capacity) ≡ (y + 1) % hm.capacity)
      → IsShape b hm.capacity hm.buckets
      → Fits b hm.capacity hm.buckets cur x
      → cur.dib + d < b
      → bucket hm.capacity hm.buckets (x + d) ≡ some f
      → f.hash ≡ 0
      → ((e : ℕ) (n : Node K V)
          → e ≤ d
          → bucket hm.capacity hm.buckets (x + e) ≡ some n
          → matches mem k n ≡ false)
      → d < fuel
      → Ends hm cur (insert_loop mem fuel k value val_len hm cur (x % hm.capacity))
  unfolding insert_loop
  insert_loop_fresh d zero x hm cur f reach next shape fits room at_f free ahead h =
      absurd (omega arith)
  insert_loop_fresh zero (suc fuel) x hm cur f reach next shape fits room at_f free ahead h =
      place_step fuel x hm cur f (omega arith) shape fits
        (ap (λ i. bucket hm.capacity hm.buckets i) (omega arith) ∙ at_f) free
  insert_loop_fresh (suc d) (suc fuel) x hm cur f reach next shape fits room at_f free ahead h =
      let c = hm.capacity in
      let t = hm.buckets in
      let (n, at_x) = bucket-some c t shape.width (omega arith) x in
      elim (ℕ_discrete n.hash 0) [
        | yes empty ↦ place_step fuel x hm cur n (omega arith) shape fits at_x empty
        | no occ ↦
            let busy = free-occupied n occ (shape.whole x n at_x) in
            let other = ahead 0 n (omega arith) (ap (λ i. bucket c t i) (omega arith) ∙ at_x) in
            let shift : (e : ℕ) → bucket c t (x + 1 + e) ≡ bucket c t (x + suc e) =
              λ e. ap (λ i. bucket c t i) (omega arith) in
            let rest =
              λ (e : ℕ) (m : Node K V) (below : e ≤ d) (at_m : bucket c t (x + 1 + e) ≡ some m).
                ahead (suc e) m (omega arith) (sym (shift e) ∙ at_m) in
            elim (dec_lt n.dib cur.dib) [
              | yes closer ↦
                  let t' = set t (x % c) cur in
                  let kept : (e : ℕ) → e ≤ d → bucket c t' (x + 1 + e) ≡ bucket c t (x + 1 + e) =
                    λ e below. bucket-set_ne c t shape.width (omega arith) x (x + 1 + e) cur (λ h.
                      step-mod-ne c x (suc e) (omega arith) (omega arith)
                        (ap (λ i. i % c) (omega arith) ∙ h)) in
                  let (r, run, s) =
                    insert_loop_fresh d fuel (x + 1) (record hm { buckets = t' })
                      (record n { dib = n.dib + 1 }) f reach next
                      (set-IsShape b c t (omega arith) shape cur n x fits at_x (λ _. omega arith))
                      (swap-Fits b c t (omega arith) shape cur n x fits at_x occ (omega arith)
                        (omega arith))
                      (omega arith) (kept d (omega arith) ∙ shift d ∙ at_f) free
                      (λ e m below at_m. rest e m below (sym (kept e below) ∙ at_m))
                      (omega arith) in
                  (
                    r,
                    swap_step fuel x hm cur n at_x busy other (next x) closer (omega arith) ∙ run,
                    swap-Inserted mem b hm cur n (x % c) at_x (n.dib + 1) r s,
                  )
              | no farther ↦
                  let (r, run, s) =
                    insert_loop_fresh d fuel (x + 1) hm (record cur { dib = cur.dib + 1 }) f reach
                      next shape
                      (pass-Fits b c t (omega arith) shape cur n x fits at_x occ (omega arith)
                        (omega arith))
                      (omega arith) (shift d ∙ at_f) free rest (omega arith) in
                  (
                    r,
                    pass_step fuel x hm cur n at_x busy other (next x) (omega arith) (omega arith)
                        ∙ run,
                    pass-Inserted mem b hm cur n (x % c) at_x (cur.dib + 1) r s,
                  )
            ]
      ]
