-- ===== src/Shard/Returns.antt =====
-- `db_get` on a new ring, when the worker runs only once the ring is full.
use native.Mathlib.Nat.{mod-eq_of_lt, mod-eq-sub-mod, one-le-pow, pow-le-pow_right}
use orca_db.Base.{
  ℕ, zero, suc, ◌+◌, ◌-◌, ◌%◌, ◌^◌, ◌≤◌, ◌<◌, ◌≡◌, ◌∙◌, refl, sym, ap, subst, true, false, Bool,
  Option, none, some, List, [], ◌∷◌, ◌++◌, Bytes, length, get_elem?, set, replicate, u64, done, Run,
  fault, if◌then◌else◌, ◌>>=◌, bind_assoc, bind_congr, length-set, length-replicate,
  get_elem?-set_self, get_elem?-set_ne, ◌==◌, ==_ne, ==_iff, ℕ_discrete, arith,
}
use orca_db.Base.Bits.{bit_and_capacity}
use orca_db.Hashmap.{Hashmap, hm_get}
use orca_db.Ring.{Ring, r_buff_init, r_buff_write, r_buff_read, wrap, slot, default}
use orca_db.Shard.{Proc, Shard, get_request, shard_id}
use orca_db.Shard.Get.{
  Getting, pushing, waiting, returned, Thread, caller, worker, caller_step, get_step, get_steps,
  get_started, get_from, db_get, pushed, marked,
}
use orca_db.Shard.Served.{step_get, step_gone}

marked-below :
    (j k : ℕ) (own : ℕ → Bool)
    → j ≡ k
    → ((i : ℕ) → i < k → own i ≡ true)
    → (i : ℕ) → i < k + 1
    → marked j own i ≡ true
marked-below j k own e all i h = elim (ℕ_discrete i j) [
  | yes here ↦ ap (λ b. if b then true else own i) ((==_iff i j).1 here)
  | no other ↦
      ap (λ b. if b then true else own i) (==_ne i j other) ∙ all i (omega (arith, h, e, other))
]

module _ {ℓ} {P : Type ℓ} (p : P) (bits : ℕ) (small : bits ≤ 63) where
  -- A ring that holds `k` times the request, and has not been read.
  pub record Filled (k : ℕ) (r : Ring P) : Type ℓ where
    pub written : r.hp ≡ k
    pub unread : r.rp ≡ 0
    pub power : r.cap ≡ 2 ^ bits
    pub width : length r.proc ≡ 2 ^ bits
    pub held : (i : ℕ) → i < k → get_elem? r.proc i ≡ some (some p)

  wrap-pow : (r : Ring P) (i : ℕ) → r.cap ≡ 2 ^ bits → wrap r.cap i ≡ i % 2 ^ bits
  wrap-pow r i e = ap (λ c. wrap c i) e ∙ bit_and_capacity bits i small

  bound : (1 ≤ 2 ^ bits) × (2 ^ bits ≤ 2 ^ 63)
  bound = (one-le-pow bits 2 (omega arith), pow-le-pow_right (omega arith) small)

  next-mod :
      {k : ℕ} {r : Ring P}
      → Filled k r
      → k < 2 ^ bits
      → wrap r.cap (u64 (r.hp + 1)) ≡ (k + 1) % 2 ^ bits
  next-mod {k} {r} f below =
      let plain : u64 (r.hp + 1) ≡ k + 1 = omega (arith, f.written, bound) in
      wrap-pow r (u64 (r.hp + 1)) f.power ∙ ap (λ i. i % 2 ^ bits) plain

  next-slot : {k : ℕ} {r : Ring P} → Filled k r → k < 2 ^ bits → wrap r.cap r.hp ≡ k
  next-slot {k} {r} f below =
      wrap-pow r r.hp f.power ∙ ap (λ j. j % 2 ^ bits) f.written ∙ mod-eq_of_lt below

  write-Filled :
      {k : ℕ} {r : Ring P}
      → Filled k r
      → k + 1 < 2 ^ bits
      → ((r_buff_write r p).0 ≡ true) × Filled (k + 1) (r_buff_write r p).1
  unfolding r_buff_write
  write-Filled {k} {r} f below =
      let j = wrap r.cap r.hp in
      let at_k : j ≡ k = next-slot f (omega arith) in
      let free : (wrap r.cap (u64 (r.hp + 1)) == r.rp) ≡ false = ==_ne _ _ (λ e. omega (
        arith,
        e,
        next-mod f (omega arith),
        mod-eq_of_lt {n = k + 1} {m = 2 ^ bits} below,
        f.unread,
      )) in
      rw free (
        refl,
        record {
          written = omega (arith, f.written, bound);
          unread = f.unread;
          power = f.power;
          width = length-set r.proc j (some p) ∙ f.width;
          held = λ i h. elim (ℕ_discrete j i) [
            | yes here ↦
                ap (get_elem? (set r.proc j (some p))) (sym here)
                ∙ get_elem?-set_self r.proc j (some p) (omega (arith, at_k, f.width))
            | no other ↦
                get_elem?-set_ne r.proc j i (some p) other
                ∙ f.held i (omega (arith, h, at_k, other))
          ];
        },
      )

  write-Filled_full :
      {k : ℕ} {r : Ring P} → Filled k r → k + 1 ≡ 2 ^ bits → r_buff_write r p ≡ (false, r)
  unfolding r_buff_write
  write-Filled_full {k} {r} f full =
      let back : (k + 1) % 2 ^ bits ≡ 0 =
        ap (λ n. n % 2 ^ bits) full
        ∙ omega (
          arith,
          mod-eq-sub-mod {n = 2 ^ bits} {m = 2 ^ bits} (omega arith),
          mod-eq_of_lt {n = 2 ^ bits - 2 ^ bits} {m = 2 ^ bits} (omega (arith, bound)),
        ) in
      rw
        ((==_iff (wrap r.cap (u64 (r.hp + 1))) r.rp).1
          (next-mod f (omega arith) ∙ back ∙ sym f.unread))
        refl

  -- A read of a slot that holds the request.
  read-held :
      (r : Ring P) (m : ℕ)
      → r.rp ≡ m
      → m < r.hp
      → m < 2 ^ bits
      → r.cap ≡ 2 ^ bits
      → get_elem? r.proc m ≡ some (some p)
      → ((r_buff_read r).0 ≡ some p)
        × ((r_buff_read r).1 ≡ record r { rp = m + 1 })
        × (wrap r.cap r.rp ≡ m)
  unfolding r_buff_read
  read-held r m at waits below power there =
      let slot_at : wrap r.cap r.rp ≡ m =
        wrap-pow r r.rp power ∙ ap (λ j. j % 2 ^ bits) at ∙ mod-eq_of_lt below in
      let once : u64 (r.rp + 1) ≡ m + 1 = omega (arith, at, below, bound) in
      rw (==_ne r.rp r.hp (λ e. omega (arith, e, at, waits)))
        (ap (slot r.proc) slot_at ∙ ap default there, ap (λ n. record r { rp = n }) once, slot_at)

  new-Filled : Filled 0 (r_buff_init (2 ^ bits))
  unfolding r_buff_init
  new-Filled = record {
    written = refl;
    unread = refl;
    power = refl;
    width = length-replicate (2 ^ bits) none;
    held = λ i h. absurd (omega arith);
  }

module _ {ℓ} {K V : Type ℓ} (mem : K → Bytes) (key_at : ℕ → K) (val_at : ℕ → V) (fuel : ℕ) (key : K)
    (hm : Hashmap K V) (v : Option V) (reads : hm_get mem fuel hm (some key) ≡ done v) (bits : ℕ)
    (small : bits ≤ 63) where
  -- The caller pushes, and has pushed `k` times.
  pub record HasPushed (k : ℕ) (g : Getting K V) : Type ℓ where
    pub ring : Filled (get_request mem key) bits small k g.shard.ring
    pub at : g.pc ≡ pushing
    pub table : g.shard.hm ≡ hm
    pub own : (i : ℕ) → i < k → g.own i ≡ true

  push-HasPushed :
      (k : ℕ) (g : Getting K V)
      → HasPushed k g
      → k + 1 < 2 ^ bits
      → HasPushed (k + 1) (caller_step mem key g)
  unfolding caller_step
  push-HasPushed k g s below =
      let (ok, filled) = write-Filled (get_request mem key) bits small s.ring below in
      let at_k = next-slot (get_request mem key) bits small s.ring (omega arith) in
      let own' =
        λ (b : Bool). if b then marked (wrap g.shard.ring.cap g.shard.ring.hp) g.own else g.own in
      let mark = λ (i : ℕ) (h : i < k + 1).
        marked-below (wrap g.shard.ring.cap g.shard.ring.hp) k g.own at_k s.own i h in
      rw s.at (record {
        ring = filled;
        at = ap (pushed mem) ok;
        table = s.table;
        own = λ i h. subst (λ b. own' b i ≡ true) (sym ok) (mark i h);
      })

  pushes-HasPushed :
      (left k : ℕ) (g : Getting K V) (rest : List Thread)
      → HasPushed k g
      → k + left + 1 ≡ 2 ^ bits
      → (g' : Getting K V) × (get_steps mem key_at val_at fuel (replicate left caller ++ rest) key g
          ≡ get_steps mem key_at val_at fuel rest key g')
        × HasPushed (k + left) g'
  unfolding get_steps get_step
  pushes-HasPushed zero k g rest s full = (g, refl, subst (λ n. HasPushed n g) (omega arith) s)
  pushes-HasPushed (suc left) k g rest s full =
      let (g', run, s') =
        pushes-HasPushed left (k + 1) (caller_step mem key g) rest
          (push-HasPushed k g s (omega arith)) (omega arith) in
      (g', run, subst (λ n. HasPushed n g') (omega arith) s')

  abbrev after_push : Getting K V → Bool × Ring (Proc K V) → Getting K V
  after_push g (ok, ring) = record g {
    shard = record g.shard { ring = ring };
    own = if ok then marked (wrap g.shard.ring.cap g.shard.ring.hp) g.own else g.own;
    pc = pushed mem ok;
  }

  caller_push :
      (g : Getting K V)
      → g.pc ≡ pushing
      → caller_step mem key g ≡ after_push g (r_buff_write g.shard.ring (get_request mem key))
  unfolding caller_step
  caller_push g e = rw e refl

  -- The last push, which finds the ring full, the worker's round, and the return.
  last_steps :
      (k : ℕ) (g : Getting K V)
      → HasPushed k g
      → 0 < k
      → k + 1 ≡ 2 ^ bits
      → get_steps mem key_at val_at fuel (caller ∷ worker ∷ caller ∷ []) key g
        ≡ done (record g {
          shard = record g.shard { ring = record g.shard.ring { rp = 1 } };
          pc = returned v;
          result = v;
          finished = true;
        })
  unfolding get_steps get_step caller_step
  last_steps k g s pos full =
      let r = g.shard.ring in
      let g₁ : Getting K V = record g { pc = waiting } in
      let (waits, left, slot_0) =
        read-held (get_request mem key) bits small r 0 s.ring.unread (omega (arith, s.ring.written))
          (omega arith) s.ring.power (s.ring.held 0 pos) in
      let pushed_last : caller_step mem key g ≡ g₁ =
        caller_push g s.at
        ∙ ap (after_push g) (write-Filled_full (get_request mem key) bits small s.ring full) in
      let served =
        step_get mem key_at val_at fuel key hm v reads g₁ s.table waits
          (ap g.own slot_0 ∙ s.own 0 pos) refl
        ∙ ap
            (λ ring.
              done
                (record g₁ { shard = record g.shard { ring = ring }; result = v; finished = true }))
            left in
      ap (get_steps mem key_at val_at fuel (worker ∷ caller ∷ []) key) pushed_last
      ∙ ap (λ x. x >>= get_steps mem key_at val_at fuel (caller ∷ []) key) served

  get_steps-append :
      (xs ys : List Thread) (g : Getting K V)
      → get_steps mem key_at val_at fuel (xs ++ ys) key g
        ≡ (get_steps mem key_at val_at fuel xs key g >>= get_steps mem key_at val_at fuel ys key)
  unfolding get_steps
  get_steps-append [] ys g = refl
  get_steps-append (t ∷ xs) ys g =
      bind_congr (get_step mem key_at val_at fuel t key g) _ _ (get_steps-append xs ys)
      ∙ sym (
          bind_assoc (get_step mem key_at val_at fuel t key g)
            (get_steps mem key_at val_at fuel xs key) (get_steps mem key_at val_at fuel ys key))

  abbrev done_all : Getting K V → Run (Getting K V)
  done_all g = done g

  one_step :
      (t : Thread) (g : Getting K V)
      → get_steps mem key_at val_at fuel (t ∷ []) key g
        ≡ (get_step mem key_at val_at fuel t key g >>= done_all)
  unfolding get_steps
  one_step t g = refl

  -- On a new ring of at least four slots, when the worker runs only once the ring is full, `db_get`
  -- returns what `hm_get` reads of the shard's table. All its requests but the first still stand in
  -- the ring, waiting to be read, and the next step of the worker is undefined: it goes through
  -- pointers into the frame that `db_get` has left.
  pub db_get-returns :
      (nslave id : ℕ) (shards : List (Shard K V)) (s : Shard K V)
      → 1 < bits
      → shard_id nslave (mem key) ≡ done id
      → get_elem? shards id ≡ some s
      → s.hm ≡ hm
      → s.ring ≡ r_buff_init (2 ^ bits)
      → let schedule = replicate (2 ^ bits - 1) caller ++ (caller ∷ worker ∷ caller ∷ []) in
        (s' : Shard K V) × (db_get mem key_at val_at fuel nslave key schedule shards
          ≡ done (returned v, set shards id s'))
        × (s'.hm ≡ hm)
        × (s'.ring.hp ≡ 2 ^ bits - 1)
        × (s'.ring.rp ≡ 1)
        × ((i : ℕ)
            → i < 2 ^ bits - 1
            → get_elem? s'.ring.proc i ≡ some (some (get_request mem key)))
        × (db_get mem key_at val_at fuel nslave key (schedule ++ (worker ∷ [])) shards ≡ fault)
  unfolding db_get get_from
  db_get-returns nslave id shards s wide_bits to_id there table new =
      let wide : 2 ^ 2 ≤ 2 ^ bits =
        pow-le-pow_right {n = 2} (omega arith) {i = 2} {j = bits} wide_bits in
      let p = get_request mem key in
      let start : HasPushed 0 (get_started mem s) = record {
        ring = subst (Filled p bits small 0) (sym new) (new-Filled p bits small);
        at = refl;
        table = table;
        own = λ i h. absurd (omega arith);
      } in
      let last = caller ∷ worker ∷ caller ∷ [] in
      let schedule = replicate (2 ^ bits - 1) caller ++ last in
      let (g, pushes, filled) =
        pushes-HasPushed (2 ^ bits - 1) 0 (get_started mem s) last start (omega (arith, wide)) in
      let k = 0 + (2 ^ bits - 1) in
      let ring = record g.shard.ring { rp = 1 } in
      let g' : Getting K V = record g {
        shard = record g.shard { ring = ring };
        pc = returned v;
        result = v;
        finished = true;
      } in
      let run : get_steps mem key_at val_at fuel schedule key (get_started mem s) ≡ done g' =
        pushes ∙ last_steps k g filled (omega (arith, wide)) (omega (arith, wide)) in
      let (waits, _, slot_1) =
        read-held p bits small ring 1 refl (omega (arith, filled.ring.written, wide))
          (omega (arith, wide)) filled.ring.power (filled.ring.held 1 (omega (arith, wide))) in
      let gone : get_step mem key_at val_at fuel worker key g' ≡ fault =
        step_gone mem key_at val_at fuel key hm v reads g' waits
          (ap g.own slot_1 ∙ filled.own 1 (omega (arith, wide))) refl in
      let dead =
        get_steps-append schedule (worker ∷ []) (get_started mem s)
        ∙ ap (λ x. x >>= get_steps mem key_at val_at fuel (worker ∷ []) key) run
        ∙ one_step worker g'
        ∙ ap (λ x. x >>= done_all) gone in
      (
        g'.shard,
        rw to_id (rw (there, get_from) (rw run refl)),
        filled.table,
        filled.ring.written ∙ omega arith,
        refl,
        λ i h. filled.ring.held i (omega (arith, h)),
        rw to_id (rw (there, get_from) (rw dead refl)),
      )
