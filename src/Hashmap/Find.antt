-- ===== src/Hashmap/Find.antt =====
-- The search that `hm_get` and `hm_delete` make, one loop for both proofs.
use orca_db.Base.{
  ℕ, zero, suc, ◌+◌, ◌%◌, ◌≤◌, ◌<◌, ◌≡◌, ◌≢◌, ◌∙◌, ap, sym, inl, inr, true, some, none, Bytes, u16,
  arith, Bool-cases, done, fault, out_of_fuel, Run, ◌>>=◌, Option, u64, set, bit_or, if◌then◌else◌,
  ◌-◌, ◌^◌, refl, get_elem?, get_elem?-some-lt, dec_lt, ltb, ◌==◌, ◌||◌,
}
use mathlib.Core.Path.{ap₂}
use native.Mathlib.Nat.{mod-eq_of_lt}
use orca_db.Hash.{fnv_1a}
use orca_db.Hashmap.{
  Node, Hashmap, zero_ok, minus_one, matches, next_idx, get_loop, delete_loop, hm_flag_tomb, Status,
}
use orca_db.Hashmap.Count.{count, count-pos, count_unique}
use orca_db.Hashmap.Shape.{bucket, bucket-some, walk}
use orca_db.Hashmap.Index.{step-mod-ne}
use orca_db.Hashmap.Valid.{IsValid, capacity-pos, valid-next, matches-hash}

module _ {ℓ} {K V : Type ℓ} (mem : K → Bytes) where
  -- The index and the entry where the search stops.
  unfoldable pub find_loop : ℕ → K → Hashmap K V → ℕ → ℕ → Run (Option (ℕ × Node K V))
  find_loop zero key hm dib i = out_of_fuel
  find_loop (suc fuel) key hm dib i = elim (get_elem? hm.buckets i) [
    | none ↦ fault
    | some node ↦
        let rest = find_loop fuel key hm (u16 (dib + 1)) (next_idx hm.capacity i) in
        if node.hash == 0 || ltb node.dib dib
        then done none
        else if matches mem key node
        then done (some (i, node))
        else rest
  ]

  -- What `hm_get` returns there.
  abbrev pub found_value : Option (ℕ × Node K V) → Run (Option V)
  found_value none = done none
  found_value (some (i, node)) = done node.value

  pub get_loop-find :
      (fuel : ℕ) (key : K) (hm : Hashmap K V) (dib i : ℕ)
      → get_loop mem fuel key hm dib i ≡ (find_loop fuel key hm dib i >>= found_value)
  unfolding get_loop find_loop
  get_loop-find zero key hm dib i = refl
  get_loop-find (suc fuel) key hm dib i =
      ground (arith, get_loop-find fuel key hm (u16 (dib + 1)) (next_idx hm.capacity i))

  -- The table after `hm_delete` has stopped there.
  abbrev pub deleted : Hashmap K V → ℕ → Node K V → Hashmap K V
  deleted hm i node = record hm {
    buckets = set hm.buckets i (record node { flags = bit_or node.flags hm_flag_tomb });
    count = u64 (hm.count + (2 ^ 64 - 1));
  }

  abbrev pub delete_found : Hashmap K V → Option (ℕ × Node K V) → Run (Status × Hashmap K V)
  delete_found hm none = done (minus_one, hm)
  delete_found hm (some (i, node)) = done (zero_ok, deleted hm i node)

  pub delete_loop-find :
      (fuel : ℕ) (key : K) (hm : Hashmap K V) (dib i : ℕ)
      → delete_loop mem fuel key hm dib i ≡ (find_loop fuel key hm dib i >>= delete_found hm)
  unfolding delete_loop find_loop
  delete_loop-find zero key hm dib i = refl
  delete_loop-find (suc fuel) key hm dib i =
      ground (arith, delete_loop-find fuel key hm (u16 (dib + 1)) (next_idx hm.capacity i))

module _ {ℓ} {K V : Type ℓ} (mem : K → Bytes) (b : ℕ) {hm : Hashmap K V} (v : IsValid mem b hm)
    (q : K) where
  -- A matching entry stands as far from the key's home as it says.
  pub match_home :
      (i : ℕ) (n : Node K V)
      → get_elem? hm.buckets i ≡ some n
      → matches mem q n ≡ true
      → fnv_1a (mem q) ≢ 0
      → (n.hash ≢ 0)
        × (bucket hm.capacity hm.buckets (fnv_1a (mem q) + n.dib) ≡ some n)
        × (n.dib < b)
  match_home i n at_i m visible =
      let below : i < hm.capacity =
        omega (arith, get_elem?-some-lt hm.buckets i n at_i, v.shape.width) in
      let at_i' : bucket hm.capacity hm.buckets i ≡ some n =
        ap (λ j. get_elem? hm.buckets j) (mod-eq_of_lt below) ∙ at_i in
      let hash = matches-hash mem q n m in
      let occ : n.hash ≢ 0 = λ z. visible (sym hash ∙ z) in
      let home : (fnv_1a (mem q) + n.dib) % hm.capacity ≡ i % hm.capacity =
        ap (λ h. (h + n.dib) % hm.capacity) (sym hash) ∙ v.shape.placed i n at_i' occ in
      (occ, ap (λ j. get_elem? hm.buckets j) home ∙ at_i', v.shape.near i n at_i' occ)

  -- The next round of a loop, with its index and its counter reduced.
  pub step_args :
      (x e : ℕ)
      → e < b
      → (u16 (e + 1) ≡ e + 1) × (next_idx hm.capacity (x % hm.capacity) ≡ (x + 1) % hm.capacity)
  step_args x e h = (omega (arith, v.counted), valid-next mem b v x)

  -- From `s` buckets before the matching entry the loop reaches it.
  pub find_loop_found :
      (s fuel x e : ℕ) (n : Node K V)
      → bucket hm.capacity hm.buckets (x + s) ≡ some n
      → matches mem q n ≡ true
      → n.hash ≢ 0
      → n.dib ≡ e + s
      → s < fuel
      → find_loop mem fuel q hm e (x % hm.capacity) ≡ done (some ((x + s) % hm.capacity, n))
  unfolding find_loop
  find_loop_found s zero x e n at_n m occ d h = absurd (omega arith)
  find_loop_found zero (suc fuel) x e n at_n m occ d h =
      let here : x ≡ x + 0 = omega arith in
      let at_x : bucket hm.capacity hm.buckets x ≡ some n =
        ap (λ i. bucket hm.capacity hm.buckets i) here ∙ at_n in
      let place = ap (λ i. i % hm.capacity) here in ground (arith, place)
  find_loop_found (suc s) (suc fuel) x e n at_n m occ d h =
      let near = v.shape.near (x + suc s) n at_n occ in
      let (p, at_p, occ_p, far) =
        walk b hm.capacity hm.buckets (capacity-pos mem b v) v.shape (suc s) x n at_n occ
          (omega arith) in
      let along : x + 1 + s ≡ x + suc s = omega arith in
      let at_next : bucket hm.capacity hm.buckets (x + 1 + s) ≡ some n =
        ap (λ i. bucket hm.capacity hm.buckets i) along ∙ at_n in
      let rest =
        find_loop_found s fuel (x + 1) (e + 1) n at_next m occ (omega arith) (omega arith) in
      let (counter, index) = step_args x e (omega (arith, near)) in
      let args = ap₂ (λ d i. find_loop mem fuel q hm d i) counter index in
      elim (Bool-cases (matches mem q p)) [
        | inr other ↦
            let place = ap (λ i. i % hm.capacity) along in ground (arith, args, rest, place)
        | inl same ↦
            let place =
              count_unique (matches mem q) hm.buckets (x % hm.capacity) ((x + suc s) % hm.capacity)
                p n (v.unique q (λ z. occ (matches-hash mem q n m ∙ z))) at_p same at_n m in
            absurd (
              step-mod-ne hm.capacity x (suc s) (omega arith) (omega (arith, near, v.reach))
                (sym place))
      ]

  -- Without a match the loop ends when its counter has passed every distance of the table.
  pub find_loop_missing :
      (fuel x e : ℕ)
      → count (matches mem q) hm.buckets ≡ 0
      → b < fuel + e
      → e ≤ b
      → find_loop mem fuel q hm e (x % hm.capacity) ≡ done none
  unfolding find_loop
  find_loop_missing zero x e absent h below = absurd (omega arith)
  find_loop_missing (suc fuel) x e absent h below =
      let (n, at_n) = bucket-some hm.capacity hm.buckets v.shape.width (capacity-pos mem b v) x in
      let no_match = count-pos (matches mem q) hm.buckets (x % hm.capacity) n at_n in
      elim (dec_lt e b) [
        | no last ↦
            let stop : (n.hash == 0 || ltb n.dib e) ≡ true =
              ground (arith, v.shape.near x n at_n) in
            rw (at_n, find_loop) (rw stop)
        | yes more ↦
            let rest = find_loop_missing fuel (x + 1) (e + 1) absent (omega arith) (omega arith) in
            let (counter, index) = step_args x e more in
            let args = ap₂ (λ d i. find_loop mem fuel q hm d i) counter index in
            ground (arith, args, rest, no_match)
      ]
