-- ===== src/Hashmap/Insert.antt =====
-- `hm_insert` against the map that the table stands for.
use orca_db.Base.{
  ℕ, ◌+◌, ◌%◌, ◌≤◌, ◌<◌, ◌≡◌, ◌≢◌, ◌∙◌, ap, sym, refl, subst, inl, inr, true, false, Option, some,
  Bytes, u64, arith, done, get_elem?, set, bytes_eq, bytes_eq→eq, bytes_eq_refl, if◌then◌else◌,
  ◌==◌, ==_ne, Bool-cases, get_elem?-set_self, get_elem?-some-lt,
}
use mathlib.Core.Path.{ap₂}
use orca_db.Hash.{fnv_1a}
use orca_db.Hashmap.{Node, Hashmap, Status, zero_ok, matches, new_node, is_tomb, hm_insert}
use orca_db.Hashmap.Count.{
  count, count-pos, count-set, count_cases, occupied, view, to_nat, to_nat-le,
}
use orca_db.Hashmap.Fresh.{Holds, Holds-set, Inserted}
use orca_db.Hashmap.Find.{match_home}
use orca_db.Hashmap.Loop.{insert_loop_fresh}
use orca_db.Hashmap.Room.{HasRoom}
use orca_db.Hashmap.Present.{updated, insert_loop_present, updated-IsShape}
use orca_db.Hashmap.Shape.{IsShape, Fits}
use orca_db.Hashmap.Update.{IsKey, view_update}
use orca_db.Hashmap.Valid.{
  IsValid, valid-idx, valid-next, matches_congr, matches-new, matches_bytes, matches_inj,
}

module _ {ℓ} {K V : Type ℓ} (mem : K → Bytes) (b : ℕ) where
  -- What `hm_insert` has done to a valid table.
  pub record Writes (hm : Hashmap K V) (k : K) (value : Option V) (r : Status × Hashmap K V)
      : Type ℓ where
    pub status : r.0 ≡ zero_ok
    pub valid : IsValid mem b r.1
    pub capacity : r.1.capacity ≡ hm.capacity
    pub counted :
        r.1.count ≡ (if count (matches mem k) hm.buckets == 0 then u64 (hm.count + 1) else hm.count)
    pub filled : count occupied r.1.buckets ≤ count occupied hm.buckets + 1
    pub reads :
        (q : K)
        → fnv_1a (mem q) ≢ 0
        → view mem q r.1.buckets
          ≡ (if bytes_eq (mem q) (mem k) then value else view mem q hm.buckets)

  module _ {hm : Hashmap K V} (v : IsValid mem b hm) (k : K) (key : IsKey mem k) (value : Option V)
      (val_len : ℕ) where
    cur : Node K V
    cur = new_node mem k value val_len

    cur-Fits : 0 < b → Fits b hm.capacity hm.buckets cur (fnv_1a (mem k))
    unfolding cur new_node is_tomb
    cur-Fits room = record {
      occupied = key.visible;
      alive = refl;
      near = room;
      home = ap (λ i. i % hm.capacity) (omega arith);
      behind = λ y p e at_y far. absurd (omega arith);
    }

    module _ (absent : count (matches mem k) hm.buckets ≡ 0) where
      unique-fresh :
          (r : Status × Hashmap K V)
          → Inserted mem b hm cur r
          → (q : K) → fnv_1a (mem q) ≢ 0
          → count (matches mem q) r.1.buckets ≤ 1
      unfolding cur
      unique-fresh r s q visible = elim (Bool-cases (bytes_eq (mem q) (mem k))) [
        | inl same ↦
            let e = matches_bytes mem q k (bytes_eq→eq (mem q) (mem k) same) in
            let none_yet : count (matches mem q) hm.buckets ≡ 0 =
              ap (λ p. count p hm.buckets) e ∙ absent in
            ground (arith, s.matched q visible, to_nat-le (matches mem q cur), none_yet)
        | inr other ↦
            let no_match = matches-new mem q k value val_len key.short ∙ other in
            ground (arith, s.matched q visible, no_match, v.unique q visible)
      ]

      fresh-Writes : (r : Status × Hashmap K V) → Inserted mem b hm cur r → Writes hm k value r
      unfolding cur new_node
      fresh-Writes r s =
          let unique = unique-fresh r s in
          record {
            status = s.status;
            valid = record {
              bits = v.bits;
              small = v.small;
              power = s.capacity ∙ v.power;
              reach = omega (arith, s.capacity, v.reach);
              counted = v.counted;
              shape = subst (λ c. IsShape b c r.1.buckets) (sym s.capacity) s.shape;
              unique = unique;
            };
            capacity = s.capacity;
            counted = rw absent s.counted;
            filled = omega (arith, s.filled, to_nat-le (occupied cur));
            reads = λ q visible.
                view_update mem q k hm.buckets r.1.buckets value (v.unique q visible)
                  (unique q visible)
                  (λ same. s.adds q visible (matches-new mem q k value val_len key.short ∙ same))
                  (λ other.
                    let no_match = matches-new mem q k value val_len key.short ∙ other in
                    (
                      λ gone. s.matched q visible ∙ ap₂ (λ n m. n + to_nat m) gone no_match,
                      λ u. s.keeps q u visible,
                    ));
          }

    module _ (i : ℕ) (n : Node K V) (at_i : get_elem? hm.buckets i ≡ some n)
        (m : matches mem k n ≡ true)
        (shape : IsShape b hm.capacity (set hm.buckets i (updated mem b v k value val_len n))) where
      new : Node K V
      new = updated mem b v k value val_len n

      same_count :
          (q : K) → count (matches mem q) (set hm.buckets i new) ≡ count (matches mem q) hm.buckets
      unfolding new
      same_count q = omega (
        arith,
        count-set (matches mem q) hm.buckets i n new at_i,
        ap to_nat (matches_congr mem q new n refl refl refl),
      )

      kept :
          (q : K) (u : Option V)
          → bytes_eq (mem q) (mem k) ≡ false
          → Holds mem q hm.buckets u
          → Holds mem q (set hm.buckets i new) u
      kept q u other h = elim (Holds-set mem q hm.buckets i n new u at_i h) [
        | inr there ↦ there
        | inl (mq, e) ↦
            let same =
              ap (λ x. bytes_eq x (mem k)) (matches_inj mem q k n mq m) ∙ bytes_eq_refl (mem k) in
            absurd (cc (sym other ∙ same))
      ]

      present-Writes : Writes hm k value (zero_ok, record hm { buckets = set hm.buckets i new })
      unfolding new
      present-Writes =
          let held = count-pos (matches mem k) hm.buckets i n at_i m in
          let below = get_elem?-some-lt hm.buckets i n at_i in
          let unique = λ (q : K) (visible : fnv_1a (mem q) ≢ 0).
            subst (λ c. c ≤ 1) (sym (same_count q)) (v.unique q visible) in
          record {
            status = refl;
            valid = record {
              bits = v.bits;
              small = v.small;
              power = v.power;
              reach = v.reach;
              counted = v.counted;
              shape = shape;
              unique = unique;
            };
            capacity = refl;
            filled = omega (arith, count-set occupied hm.buckets i n new at_i);
            counted = rw (==_ne (count (matches mem k) hm.buckets) 0 (λ z. omega (arith, held, z)));
            reads = λ q visible.
                view_update mem q k hm.buckets (set hm.buckets i new) value (v.unique q visible)
                  (unique q visible)
                  (λ same. (
                    i,
                    new,
                    get_elem?-set_self hm.buckets i new below,
                    matches_congr mem q new n refl refl refl
                        ∙ ap (λ p. p n) (matches_bytes mem q k (bytes_eq→eq (mem q) (mem k) same))
                        ∙ m,
                    refl,
                  ))
                  (λ other. (λ gone. same_count q ∙ gone, λ u h. kept q u other h));
          }

    -- On a valid table, `hm_insert` of a key that is held, or that has an empty bucket in reach, and
    -- whose hash is not 0 and length below 65536, ends in at most `b + 1` rounds with status 0. The
    -- table stays valid, reads the value under the key and what it read under every other key, and
    -- counts a key that is new.
    pub hm_insert-Writes :
        (fuel : ℕ)
        → b < fuel
        → (count (matches mem k) hm.buckets ≡ 0 → HasRoom mem b hm k)
        → (r : Status × Hashmap K V) × (hm_insert mem fuel hm (some k) value val_len ≡ done r)
          × Writes hm k value r
    unfolding hm_insert cur new_node new
    hm_insert-Writes fuel enough room = elim (count_cases (matches mem k) hm.buckets) [
      | inl absent ↦
          let (d, f, near, at_f, free) = room absent in
          let (r, run, s) =
            insert_loop_fresh mem b v.counted k value val_len d fuel (fnv_1a (mem k)) hm cur f
              v.reach (valid-next mem b v) v.shape (cur-Fits (omega arith)) (omega arith) at_f free
              (λ e n below at_n. ground (
                arith,
                count-pos (matches mem k) hm.buckets ((fnv_1a (mem k) + e) % hm.capacity) n at_n,
                absent,
              ))
              (omega arith) in
          (r, rw (valid-idx mem b v) run, fresh-Writes absent r s)
      | inr (i, n, at_i, m) ↦
          let (occ, at_home, near) = match_home mem b v k i n at_i m key.visible in
          let run =
            insert_loop_present mem b v k value val_len n.dib fuel (fnv_1a (mem k)) cur n at_home m
              occ (omega arith) (omega arith) in
          (
            _,
            rw (valid-idx mem b v) run,
            present-Writes ((fnv_1a (mem k) + n.dib) % hm.capacity) n at_home m
                (updated-IsShape mem b v k value val_len (fnv_1a (mem k) + n.dib) n at_home occ),
          )
    ]
