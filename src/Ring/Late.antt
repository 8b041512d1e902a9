-- ===== src/Ring/Late.antt =====
-- A ring that has been read as often as it has slots.
use orca_db.Base.{
  ◌+◌, ◌%◌, ◌≤◌, ◌<◌, ◌≡◌, ◌≢◌, ◌∙◌, ap, sym, true, false, some, u64, arith, ==_ne, set,
  get_elem?-set_self, get_elem?, length,
}
use native.Mathlib.Nat.{add-mod_right}
use orca_db.Ring.{Ring, r_buff_write, r_buff_read, is_full, default, wrap}
use orca_db.Ring.Index.{IsRing, cap-pos, wrap-mod}
use orca_db.Ring.Refine.{added, write_added, next_slot}

module _ {ℓ} {P : Type ℓ} where
  late_test : {r : Ring P} → IsRing r → r.cap ≤ r.rp → (r.hp + 1) % r.cap ≢ r.rp
  late_test {r} v late e = omega (arith, cap-pos v)

  -- From the read on that brings `rp` to `cap`, `isFull` is false and `rBuff_write` succeeds,
  -- however many requests wait.
  pub late-write :
      {r : Ring P} (p : P)
      → IsRing r
      → r.cap ≤ r.rp
      → (is_full r ≡ false) × ((r_buff_write r p).0 ≡ true)
  unfolding is_full
  late-write {r} p v late = (
    ==_ne (wrap r.cap (u64 (r.hp + 1))) r.rp (λ e. late_test v late (sym (next_slot v) ∙ e)),
    ap (λ x. x.0) (write_added p v (late_test v late)),
  )

  -- Then a write to a ring with `cap` waiting requests succeeds and destroys the oldest: the next
  -- read gives what was just written.
  pub late-overwrite :
      {r : Ring P} (p : P)
      → IsRing r
      → r.cap ≤ r.rp
      → r.hp ≡ r.rp + r.cap
      → ((r_buff_write r p).0 ≡ true) × ((r_buff_read (r_buff_write r p).1).0 ≡ some p)
  unfolding r_buff_read added
  late-overwrite {r} p v late full =
      let place : r.hp % r.cap ≡ wrap r.cap r.rp =
        ap (λ i. i % r.cap) full ∙ add-mod_right r.rp r.cap ∙ sym (wrap-mod v r.rp) in
      let below : r.hp % r.cap < length r.proc = omega (arith, cap-pos v, v.width) in
      let own =
        ap (get_elem? (set r.proc (r.hp % r.cap) (some p))) (sym place)
        ∙ get_elem?-set_self r.proc (r.hp % r.cap) (some p) below in
      (
        ap (λ x. x.0) (write_added p v (late_test v late)),
        rw (write_added p v (late_test v late))
            (rw (==_ne r.rp (r.hp + 1) (omega arith)) (ap default own)),
      )
