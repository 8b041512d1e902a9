-- ===== src/Hashmap/Present.antt =====
-- The loop of `hm_insert` for a key that the table holds.
use orca_db.Base.{
  ℕ, zero, suc, ◌+◌, ◌%◌, ◌<◌, ◌≡◌, ◌≢◌, ◌∙◌, ap, sym, inl, inr, true, Option, some, Bytes, u16,
  arith, done, get_elem?, set, Bool-cases,
}
use orca_db.Hashmap.{Node, Hashmap, zero_ok, matches, is_tomb, insert_loop}
use orca_db.Hashmap.Count.{count_unique}
use orca_db.Hashmap.Index.{step-mod-ne}
use orca_db.Hashmap.Shape.{bucket, walk, IsShape, set-IsShape}
use orca_db.Hashmap.Valid.{IsValid, capacity-pos, valid-next, matches-hash}
use orca_db.Hashmap.Loop.{free-occupied, pass_step}

module _ {ℓ} {K V : Type ℓ} (mem : K → Bytes) (b : ℕ) {hm : Hashmap K V} (v : IsValid mem b hm)
    (k : K) (value : Option V) (val_len : ℕ) where
  abbrev pub updated : Node K V → Node K V
  updated n = record n { value = value; val_len = u16 val_len }

  -- From `s` buckets before the entry the loop reaches it and writes the value there.
  pub insert_loop_present :
      (s fuel x : ℕ) (cur n : Node K V)
      → bucket hm.capacity hm.buckets (x + s) ≡ some n
      → matches mem k n ≡ true
      → n.hash ≢ 0
      → n.dib ≡ cur.dib + s
      → s < fuel
      → insert_loop mem fuel k value val_len hm cur (x % hm.capacity)
        ≡ done (zero_ok, record hm { buckets = set hm.buckets ((x + s) % hm.capacity) (updated n) })
  unfolding insert_loop
  insert_loop_present s zero x cur n at_n m occ d h = absurd (omega arith)
  insert_loop_present zero (suc fuel) x cur n at_n m occ d h =
      let here : x ≡ x + 0 = omega arith in
      let at_x : bucket hm.capacity hm.buckets x ≡ some n =
        ap (λ i. bucket hm.capacity hm.buckets i) here ∙ at_n in
      let busy = free-occupied mem b v.counted k value val_len n occ (v.shape.whole x n at_x) in
      rw (at_x, insert_loop)
        (rw (busy, m)
          (ap
            (λ i.
              done (zero_ok, record hm { buckets = set hm.buckets (i % hm.capacity) (updated n) }))
            here))
  insert_loop_present (suc s) (suc fuel) x cur n at_n m occ d h =
      let c = hm.capacity in
      let t = hm.buckets in
      let near = v.shape.near (x + suc s) n at_n occ in
      let (p, at_p, occ_p, far) =
        walk b c t (capacity-pos mem b v) v.shape (suc s) x n at_n occ (omega arith) in
      let busy = free-occupied mem b v.counted k value val_len p occ_p (v.shape.whole x p at_p) in
      let along : x + 1 + s ≡ x + suc s = omega arith in
      let rest =
        insert_loop_present s fuel (x + 1) (record cur { dib = cur.dib + 1 }) n
          (ap (λ i. bucket c t i) along ∙ at_n) m occ (omega arith) (omega arith) in
      elim (Bool-cases (matches mem k p)) [
        | inr other ↦
            pass_step mem b v.counted k value val_len fuel x hm cur p at_p busy other
              (valid-next mem b v x) (omega (arith, far)) (omega (arith, near, v.counted))
            ∙ rest
            ∙ ap (λ i. done (zero_ok, record hm { buckets = set t (i % c) (updated n) })) along
        | inl same ↦
            let place =
              count_unique (matches mem k) t (x % c) ((x + suc s) % c) p n
                (v.unique k (λ z. occ (matches-hash mem k n m ∙ z))) at_p same at_n m in
            absurd
              (step-mod-ne c x (suc s) (omega arith) (omega (arith, near, v.reach)) (sym place))
      ]

  -- The update keeps the layout.
  pub updated-IsShape :
      (x : ℕ) (n : Node K V)
      → bucket hm.capacity hm.buckets x ≡ some n
      → n.hash ≢ 0
      → IsShape b hm.capacity (set hm.buckets (x % hm.capacity) (updated n))
  unfolding is_tomb
  updated-IsShape x n at_x occ =
      set-IsShape b hm.capacity hm.buckets (capacity-pos mem b v) v.shape (updated n) n x
        (record {
          occupied = occ;
          alive = v.shape.whole x n at_x;
          near = v.shape.near x n at_x occ;
          home = v.shape.placed x n at_x occ;
          behind = λ y p e at_y far.
              v.shape.linked y p n at_y (ap (λ i. get_elem? hm.buckets i) e ∙ at_x) occ far;
        })
        at_x (λ _. omega arith)
