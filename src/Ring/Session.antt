-- ===== src/Ring/Session.antt =====
-- Sequences of calls on a ring that has been read less often than it has slots, against a queue.
use native.Mathlib.Nat.{pow-le-pow_right}
use orca_db.Base.{
  ℕ, suc, ◌+◌, ◌-◌, ◌%◌, ◌^◌, ◌≤◌, ◌<◌, ◌≡◌, ◌≢◌, ◌∙◌, inl, inr, refl, Bool, Option, none, some,
  List, [], ◌∷◌, length-set, arith, ℕ_discrete, length-replicate,
}
use orca_db.Ring.{Ring, r_buff_init, r_buff_write, r_buff_read}
use orca_db.Ring.Index.{IsRing, contents}
use orca_db.Ring.Queue
use orca_db.Ring.Refine.{
  added, taken, full_test, read_empty, read_some, write_full, write_added, read_refines,
  write_refines,
}

pub data Op {ℓ} (P : Type ℓ) : Type ℓ where
  write : P → Op P
  read : Op P

pub data Reply {ℓ} (P : Type ℓ) : Type ℓ where
  wrote : Bool → Reply P
  got : Option P → Reply P

module _ {ℓ} {P : Type ℓ} where
  -- The replies to a sequence of calls, of the ring and of a queue of at most `bound`.
  unfoldable pub run : Ring P → List (Op P) → List (Reply P)
  run r [] = []
  run r (write p ∷ ops) = let (ok, r') = r_buff_write r p in wrote ok ∷ run r' ops
  run r (read ∷ ops) = let (out, r') = r_buff_read r in got out ∷ run r' ops

  unfoldable pub run_queue : ℕ → List (Option P) → List (Op P) → List (Reply P)
  run_queue bound q [] = []
  run_queue bound q (write p ∷ ops) =
      let (ok, q') = Queue.push bound q p in wrote ok ∷ run_queue bound q' ops
  run_queue bound q (read ∷ ops) = let (out, q') = Queue.pop q in got out ∷ run_queue bound q' ops

  -- `rBuff_init` with a power of two gives an empty ring.
  pub init-IsRing :
      (bits : ℕ)
      → bits ≤ 63
      → IsRing {P = P} (r_buff_init (2 ^ bits)) × (contents {P = P} (r_buff_init (2 ^ bits)) ≡ [])
  unfolding r_buff_init
  init-IsRing bits small = (
    record {
      bits = bits;
      small = small;
      power = refl;
      width = length-replicate (2 ^ bits) none;
      ordered = omega arith;
      room = omega arith;
      early = omega arith;
    },
    refl,
  )

  abbrev pub reads : List (Op P) → ℕ
  reads [] = 0
  reads (write p ∷ ops) = reads ops
  reads (read ∷ ops) = suc (reads ops)

  -- A ring that may be read `n` times more, and has then been read less than `cap` times.
  pub record IsEarly (n : ℕ) (r : Ring P) : Type ℓ where
    pub ring : IsRing r
    pub first : r.rp + n < r.cap
    pub free : r.hp < r.rp + r.cap

  cap-bound : {r : Ring P} → IsRing r → r.cap ≤ 2 ^ 63
  cap-bound v = omega (arith, v.power, pow-le-pow_right {n = 2} (omega arith) v.small)

  taken-IsEarly : {n : ℕ} {r : Ring P} → IsEarly (suc n) r → r.rp ≢ r.hp → IsEarly n (taken r)
  unfolding taken
  taken-IsEarly {n} {r} v ne = record {
    ring = record {
      bits = v.ring.bits;
      small = v.ring.small;
      power = v.ring.power;
      width = v.ring.width;
      ordered = omega (arith, v.ring.ordered);
      room = omega (arith, v.ring.room);
      early = v.ring.early;
    };
    first = omega (arith, v.first);
    free = omega (arith, v.free);
  }

  same-IsEarly : {n : ℕ} {r : Ring P} → IsEarly (suc n) r → IsEarly n r
  same-IsEarly v = record { ring = v.ring; first = omega (arith, v.first); free = v.free }

  added-IsEarly :
      {n : ℕ} {r : Ring P} (p : P) → IsEarly n r → r.hp + 1 < r.rp + r.cap → IsEarly n (added r p)
  unfolding added
  added-IsEarly {n} {r} p v lt = record {
    ring = record {
      bits = v.ring.bits;
      small = v.ring.small;
      power = v.ring.power;
      width = length-set r.proc (r.hp % r.cap) (some p) ∙ v.ring.width;
      ordered = omega (arith, v.ring.ordered);
      room = omega arith;
      early = omega (arith, lt, v.first, cap-bound v.ring);
    };
    first = v.first;
    free = lt;
  }

  read-IsEarly : {n : ℕ} {r : Ring P} → IsEarly (suc n) r → IsEarly n (r_buff_read r).1
  read-IsEarly {n} {r} v = elim (ℕ_discrete r.rp r.hp) [
    | yes e ↦ rw (read_empty r e) (same-IsEarly v)
    | no ne ↦ rw (read_some v.ring ne) (taken-IsEarly v ne)
  ]

  below : {n : ℕ} {r : Ring P} → IsEarly n r → r.rp < r.cap
  below v = omega (arith, v.first)

  pub write-IsEarly : {n : ℕ} {r : Ring P} (p : P) → IsEarly n r → IsEarly n (r_buff_write r p).1
  write-IsEarly {n} {r} p v = elim (full_test v.ring (below v) v.free) [
    | inl (full, e) ↦ rw (write_full p v.ring full) v
    | inr (free, lt) ↦ rw (write_added p v.ring free) (added-IsEarly p v lt)
  ]

  write-cap : {n : ℕ} {r : Ring P} (p : P) → IsEarly n r → (r_buff_write r p).1.cap ≡ r.cap
  unfolding added
  write-cap {n} {r} p v = elim (full_test v.ring (below v) v.free) [
    | inl (full, e) ↦ rw (write_full p v.ring full)
    | inr (free, lt) ↦ rw (write_added p v.ring free)
  ]

  read-cap : {n : ℕ} {r : Ring P} → IsEarly (suc n) r → (r_buff_read r).1.cap ≡ r.cap
  unfolding taken
  read-cap {n} {r} v = elim (ℕ_discrete r.rp r.hp) [
    | yes e ↦ rw (read_empty r e)
    | no ne ↦ rw (read_some v.ring ne)
  ]

  -- No sequence of calls, as long as the ring has been read less often than it has slots, its reads
  -- included, tells the ring from the queue of at most `cap - 1` requests that it holds.
  pub run_refines :
      (ops : List (Op P)) {r : Ring P}
      → IsEarly (reads ops) r
      → run r ops ≡ run_queue (r.cap - 1) (contents r) ops
  unfolding run run_queue
  run_refines [] v = refl
  run_refines (write p ∷ ops) {r} v = rw (
    run_refines ops (write-IsEarly p v),
    ← write_refines p v.ring (below v) v.free,
    write-cap p v,
  )
  run_refines (read ∷ ops) {r} v =
      rw (run_refines ops (read-IsEarly v), ← read_refines v.ring, read-cap v)
