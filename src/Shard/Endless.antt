-- ===== src/Shard/Endless.antt =====
-- `db_get` on a shard whose ring has been read as often as it has slots.
use native.Mathlib.Nat.{one-le-pow}
use orca_db.Base.{
  ℕ, suc, ◌+◌, ◌%◌, ◌^◌, ◌≤◌, ◌<◌, ◌≡◌, ◌≢◌, refl, sym, ap, subst, true, false, Bool, ◌&&◌, Run,
  Option, none, some, List, [], ◌∷◌, Bytes, length, get_elem?, set, u64, done, fault, Yields,
  Yields-bind, Yields-any, Bool-cases, Option-cases, inl, inr, ◌==◌, ==_ne, if◌then◌else◌, arith,
}
use orca_db.Base.Bits.{bit_and_capacity}
use orca_db.Hashmap.{hm_insert, hm_get, hm_delete}
use orca_db.Ring.{Ring, r_buff_write, r_buff_read, wrap}
use orca_db.Shard.{
  Proc, OpCode, op_put, op_get, op_del, Shard, Round, get_request, put_copies, worker_put,
  worker_do, worker_round, shard_id,
}
use orca_db.Arena.{arena_alloc}
use orca_db.Shard.Get.{
  Getting, pushing, Thread, caller, worker, caller_step, get_step, get_steps, get_started, get_from,
  db_get, seen, pushed, is_back, takes_own,
}

module _ {ℓ} {P : Type ℓ} where
  -- A ring that has been read at least `cap` times, however many requests wait, and whose indices
  -- may go on for `n` steps.
  pub record IsLate (n : ℕ) (r : Ring P) : Type ℓ where
    pub bits : ℕ
    pub small : bits ≤ 63
    pub power : r.cap ≡ 2 ^ bits
    pub late : r.cap ≤ r.rp
    pub ordered : r.rp ≤ r.hp
    pub far : r.hp + n < 2 ^ 64

  late_test :
      {n : ℕ} {r : Ring P} → IsLate (suc n) r → (wrap r.cap (u64 (r.hp + 1)) == r.rp) ≡ false
  late_test {n} {r} v =
      let reduced : wrap r.cap (u64 (r.hp + 1)) ≡ u64 (r.hp + 1) % r.cap =
        subst (λ c. wrap c (u64 (r.hp + 1)) ≡ u64 (r.hp + 1) % c) (sym v.power)
          (bit_and_capacity v.bits (u64 (r.hp + 1)) v.small) in
      ==_ne _ _ (λ e. omega (arith, e, reduced, v.late, v.power, one-le-pow v.bits 2 (omega arith)))

  write-IsLate :
      {n : ℕ} {r : Ring P} (p : P)
      → IsLate (suc n) r
      → ((r_buff_write r p).0 ≡ true) × IsLate n (r_buff_write r p).1
  unfolding r_buff_write
  write-IsLate {n} {r} p v = rw (late_test v) (
    refl,
    record {
      bits = v.bits;
      small = v.small;
      power = v.power;
      late = v.late;
      ordered = omega (arith, v.ordered, v.far);
      far = omega (arith, v.far);
    },
  )

  stay-IsLate : {n : ℕ} {r : Ring P} → IsLate (suc n) r → IsLate n r
  stay-IsLate v = record {
    bits = v.bits;
    small = v.small;
    power = v.power;
    late = v.late;
    ordered = v.ordered;
    far = omega (arith, v.far);
  }

  read-IsLate : {n : ℕ} {r : Ring P} → IsLate (suc n) r → IsLate n (r_buff_read r).1
  unfolding r_buff_read
  read-IsLate {n} {r} v = elim (Bool-cases (r.rp == r.hp)) [
    | inl empty ↦ rw empty (stay-IsLate v)
    | inr waits ↦
        let ne : r.rp ≢ r.hp = λ e. ground arith in
        rw waits (record {
          bits = v.bits;
          small = v.small;
          power = v.power;
          late = omega (arith, v.late, v.ordered, v.far);
          ordered = omega (arith, v.ordered, v.far, ne);
          far = omega (arith, v.far);
        })
  ]

if-Yields {ℓ κ} :
    {A : Type ℓ} (Q : A → Type κ) (b : Bool) (a : A) → Q a → Yields Q (if b then done a else fault)
if-Yields Q true a q = q
if-Yields Q false a q = tt

module _ {ℓ} {K V : Type ℓ} (mem : K → Bytes) (key_at : ℕ → K) (val_at : ℕ → V) (fuel : ℕ) where
  -- What a round leaves of the ring.
  abbrev Leaves : Ring (Proc K V) → Round K V → Type ℓ
  Leaves ring r = r.0.ring ≡ ring

  put-Leaves :
      (p : Proc K V) (s : Shard K V) (k v : Option ℕ)
      → Yields (Leaves s.ring) (put_copies mem key_at val_at fuel p s k v)
  unfolding put_copies
  put-Leaves p s none v = tt
  put-Leaves p s (some k) none = tt
  put-Leaves p s (some k) (some v) =
      Yields-any (Leaves s.ring)
        (hm_insert mem fuel s.hm (some (key_at k)) (some (val_at v)) p.val_len)
        (λ r. done (record s { hm = r.1 }, none)) (λ r. refl)

  do-Leaves :
      (op : OpCode) (p : Proc K V) (s : Shard K V)
      → Yields (Leaves s.ring) (worker_do mem key_at val_at fuel op p s)
  unfolding worker_do worker_put
  do-Leaves op_put p s =
      let keys = arena_alloc s.key_arena (length (mem p.key) + 1) in
      let vals = arena_alloc s.val_arena p.val_len in
      put-Leaves p (record s { key_arena = keys.1; val_arena = vals.1 }) keys.0 vals.0
  do-Leaves op_get p s =
      Yields-any (Leaves s.ring) (hm_get mem fuel s.hm (some p.key))
        (λ v. if p.out_val then done (s, some v) else fault)
        (λ v. if-Yields (Leaves s.ring) p.out_val (s, some v) refl)
  do-Leaves op_del p s =
      Yields-any (Leaves s.ring) (hm_delete mem fuel s.hm (some p.key) p.free_value)
        (λ r. done (record s { hm = r.1 }, none)) (λ r. refl)

  round-IsLate :
      {n : ℕ} (s : Shard K V)
      → IsLate (suc n) s.ring
      → Yields (λ r. IsLate n r.0.ring) (worker_round mem key_at val_at fuel s)
  unfolding worker_round
  round-IsLate {n} s late =
      let ring = (r_buff_read s.ring).1 in
      elim (Option-cases (r_buff_read s.ring).0) [
        | inl idle ↦ rw (idle, worker_round) (stay-IsLate late)
        | inr (p, waits) ↦
            rw (waits, worker_round)
              (Yields-bind (Leaves ring) (λ r. IsLate n r.0.ring)
                (worker_do mem key_at val_at fuel p.op p (record s { ring = ring }))
                (λ r. if p.status then done r else fault)
                (do-Leaves p.op p (record s { ring = ring }))
                (λ r e.
                  if-Yields (λ r. IsLate n r.0.ring) p.status r
                    (subst (IsLate n) (sym e) (read-IsLate late))))
      ]

  -- The caller is in its first loop, and the ring is late.
  abbrev Pushing : ℕ → Getting K V → Type ℓ
  Pushing n g = IsLate n g.shard.ring × (g.pc ≡ pushing)

  seen-Pushing :
      {n : ℕ} (g : Getting K V) (mine : Bool) (r : Round K V)
      → g.pc ≡ pushing
      → IsLate n r.0.ring
      → Pushing n (seen mem g mine r)
  seen-Pushing g false (s, answer) e late = (late, e)
  seen-Pushing g true (s, none) e late = (late, e)
  seen-Pushing g true (s, some v) e late = (late, e)

  unless-Yields :
      (n : ℕ) (b : Bool) (x : Run (Getting K V))
      → Yields (Pushing n) x
      → Yields (Pushing n) (if b then fault else x)
  unless-Yields n true x h = tt
  unless-Yields n false x h = h

  step-Pushing :
      {n : ℕ} (t : Thread) (key : K) (g : Getting K V)
      → Pushing (suc n) g
      → Yields (Pushing n) (get_step mem key_at val_at fuel t key g)
  unfolding get_step caller_step
  step-Pushing {n} caller key g (late, e) =
      let (ok, late') = write-IsLate (get_request mem key) late in rw e (late', ap (pushed mem) ok)
  step-Pushing {n} worker key g (late, e) = unless-Yields n (takes_own mem g && is_back g.pc) _ (
      Yields-bind (λ r. IsLate n r.0.ring) (Pushing n) (worker_round mem key_at val_at fuel g.shard)
        (λ r. done (seen mem g (takes_own mem g) r)) (round-IsLate g.shard late)
        (λ r late'. seen-Pushing g (takes_own mem g) r e late'))

  steps-Pushing :
      (schedule : List Thread) (key : K) (g : Getting K V)
      → Pushing (length schedule) g
      → Yields (Pushing 0) (get_steps mem key_at val_at fuel schedule key g)
  unfolding get_steps
  steps-Pushing [] key g p = p
  steps-Pushing (t ∷ schedule) key g p =
      Yields-bind (Pushing (length schedule)) (Pushing 0) (get_step mem key_at val_at fuel t key g)
        (get_steps mem key_at val_at fuel schedule key) (step-Pushing t key g p)
        (λ g'. steps-Pushing schedule key g')

  -- Once a shard's ring has been read as often as it has slots, `db_get` of a key of that shard
  -- stays in its first loop: whatever waits in the ring, and in whatever order the caller and the
  -- worker run, as long as the indices do not overflow, its next push succeeds, and it pushes again.
  pub db_get-endless :
      (nslave id : ℕ) (key : K) (schedule : List Thread) (shards : List (Shard K V)) (s : Shard K V)
      → shard_id nslave (mem key) ≡ done id
      → get_elem? shards id ≡ some s
      → IsLate (length schedule) s.ring
      → Yields (λ r. r.0 ≡ pushing) (db_get mem key_at val_at fuel nslave key schedule shards)
  unfolding db_get get_from
  db_get-endless nslave id key schedule shards s to_id there late = rw to_id (
      rw (there, get_from)
        (Yields-bind (Pushing 0) (λ r. r.0 ≡ pushing)
          (get_steps mem key_at val_at fuel schedule key (get_started mem s))
          (λ g. done (g.pc, set shards id g.shard))
          (steps-Pushing schedule key (get_started mem s) (late, refl)) (λ g p. p.1)))
