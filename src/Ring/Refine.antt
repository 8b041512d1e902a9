-- ===== src/Ring/Refine.antt =====
-- The ring against the bounded queue, call by call.
use orca_db.Base.{
  ℕ, zero, suc, ◌+◌, ◌-◌, ◌%◌, ◌<◌, ◌≡◌, ◌≢◌, ◌∙◌, ◌⊎◌, inl, inr, ap, sym, refl, true, false,
  Option, none, some, List, ◌∷◌, u64, length, set, arith, dec_lt, ℕ_discrete, ==_ne, ==_iff, lt→ltb,
  le→ltb,
}
use native.Mathlib.Nat.{mod-eq_of_lt, mod-eq-sub-mod}
use orca_db.Ring.{Ring, wrap, slot, r_buff_write, r_buff_read}
use orca_db.Ring.Index.{IsRing, cap-pos, wrap-mod, window, length-window, contents, window-set}
use orca_db.Ring.Queue

module _ {ℓ} {P : Type ℓ} where
  window_pos :
      (cap : ℕ) (proc : List (Option P)) (x n : ℕ)
      → n ≢ 0
      → window cap proc x n ≡ slot proc (x % cap) ∷ window cap proc (x + 1) (n - 1)
  window_pos cap proc x zero h = absurd (h refl)
  window_pos cap proc x (suc n) h = ap (λ m. window cap proc x (suc m)) (omega arith)

  -- `hp + 1` stays in range.
  bump : {r : Ring P} → IsRing r → (u64 (r.hp + 1) ≡ r.hp + 1) × (u64 (r.rp + 1) ≡ r.rp + 1)
  bump v = (omega (arith, v.early), omega (arith, v.early, v.ordered))

  unfoldable pub taken : Ring P → Ring P
  taken r = record r { rp = r.rp + 1 }

  unfoldable pub added : Ring P → P → Ring P
  added r p = record r { proc = set r.proc (r.hp % r.cap) (some p); hp = r.hp + 1 }

  -- The two branches of each call, without the wrap of `size_t`.
  pub read_empty : (r : Ring P) → r.rp ≡ r.hp → r_buff_read r ≡ (none, r)
  unfolding r_buff_read
  read_empty r e = rw ((==_iff r.rp r.hp).1 e)

  pub read_some :
      {r : Ring P} → IsRing r → r.rp ≢ r.hp → r_buff_read r ≡ (slot r.proc (r.rp % r.cap), taken r)
  unfolding r_buff_read taken
  read_some {r} v ne = rw (==_ne r.rp r.hp ne, wrap-mod v r.rp, (bump v).1)

  pub next_slot : {r : Ring P} → IsRing r → wrap r.cap (u64 (r.hp + 1)) ≡ (r.hp + 1) % r.cap
  next_slot {r} v = ap (wrap r.cap) (bump v).0 ∙ wrap-mod v (r.hp + 1)

  pub write_full :
      {r : Ring P} (p : P) → IsRing r → (r.hp + 1) % r.cap ≡ r.rp → r_buff_write r p ≡ (false, r)
  unfolding r_buff_write
  write_full {r} p v e = rw (next_slot v, (==_iff ((r.hp + 1) % r.cap) r.rp).1 e)

  pub write_added :
      {r : Ring P} (p : P)
      → IsRing r
      → (r.hp + 1) % r.cap ≢ r.rp
      → r_buff_write r p ≡ (true, added r p)
  unfolding r_buff_write added
  write_added {r} p v ne =
      rw (next_slot v, ==_ne ((r.hp + 1) % r.cap) r.rp ne, wrap-mod v r.hp, (bump v).0)

  -- Before the reader has gone round once, the test of the writer is that one slot is free.
  pub full_test :
      {r : Ring P}
      → IsRing r
      → r.rp < r.cap
      → r.hp < r.rp + r.cap
      → (((r.hp + 1) % r.cap ≡ r.rp) × (r.hp + 1 ≡ r.rp + r.cap))
        ⊎ (((r.hp + 1) % r.cap ≢ r.rp) × (r.hp + 1 < r.rp + r.cap))
  full_test {r} v first below = elim (dec_lt (r.hp + 1) r.cap) [
    | yes p ↦ inr (omega (arith, mod-eq_of_lt p, v.ordered), omega arith)
    | no p ↦
        let down = mod-eq-sub-mod {n = r.hp + 1} {m = r.cap} (omega arith) in
        elim (dec_lt (r.hp + 1 - r.cap) r.cap) [
          | yes q ↦
              let last = mod-eq_of_lt {n = r.hp + 1 - r.cap} {m = r.cap} q in
              elim (ℕ_discrete (r.hp + 1) (r.rp + r.cap)) [
                | yes e ↦ inl (omega arith, e)
                | no ne ↦ inr (omega arith, omega arith)
              ]
          | no q ↦ absurd (omega arith)
        ]
  ]

  -- `rBuff_read` gives the oldest waiting request and leaves the others, or NULL if none waits.
  pub read_refines :
      {r : Ring P}
      → IsRing r
      → let (out, r') = r_buff_read r in (out, contents r') ≡ Queue.pop (contents r)
  unfolding Queue.pop taken
  read_refines {r} v = elim (ℕ_discrete r.rp r.hp) [
    | yes e ↦
        let nothing : r.hp - r.rp ≡ 0 = omega arith in
        let left = ap (λ n. window r.cap r.proc r.rp n) nothing in
        rw (read_empty r e) (ap (λ q. (none, q)) left ∙ ap Queue.pop (sym left))
    | no ne ↦
        let oldest = window_pos r.cap r.proc r.rp (r.hp - r.rp) (omega (arith, v.ordered)) in
        let fewer : r.hp - (r.rp + 1) ≡ r.hp - r.rp - 1 = omega arith in
        rw (read_some v ne) (
          ap (λ n. (slot r.proc (r.rp % r.cap), window r.cap r.proc (r.rp + 1) n)) fewer
          ∙ ap Queue.pop (sym oldest))
  ]

  -- While fewer than `cap` reads have been done and a slot is free, `rBuff_write` appends the
  -- request to a queue of at most `cap - 1`, and refuses exactly when that is full.
  pub write_refines :
      {r : Ring P} (p : P)
      → IsRing r
      → r.rp < r.cap
      → r.hp < r.rp + r.cap
      → let (ok, r') = r_buff_write r p in (ok, contents r') ≡ Queue.push (r.cap - 1) (contents r) p
  unfolding Queue.push added
  write_refines {r} p v first below =
      let size = length-window r.cap r.proc r.rp (r.hp - r.rp) in
      elim (full_test v first below) [
        | inl (full, e) ↦
            rw (write_full p v full)
              (ground (arith, size, le→ltb (length (contents r)) (r.cap - 1)))
        | inr (free, lt) ↦
            let more : r.hp + 1 - r.rp ≡ suc (r.hp - r.rp) = omega (arith, v.ordered) in
            let here : r.rp + (r.hp - r.rp) ≡ r.hp = omega (arith, v.ordered) in
            let longer =
              window-set r.cap r.proc p (r.hp - r.rp) r.rp (r.hp % r.cap) v.width (cap-pos v)
                (omega arith) (ap (λ j. j % r.cap) (sym here)) in
            let room = lt→ltb (length (contents r)) (r.cap - 1) (omega (arith, size)) in
            rw (write_added p v free) (
              rw room (
                ap (λ n. (true, window r.cap (set r.proc (r.hp % r.cap) (some p)) r.rp n)) more
                ∙ ap (λ q. (true, q)) longer))
      ]
