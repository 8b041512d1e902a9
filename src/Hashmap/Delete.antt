-- ===== src/Hashmap/Delete.antt =====
-- `hm_delete`, and what is read after it.
use orca_db.Base.{
  ℕ, zero, suc, ◌+◌, ◌-◌, ◌%◌, ◌^◌, ◌<◌, ◌≡◌, ◌≢◌, ◌⊎◌, ◌∙◌, ap, refl, subst, sym, inl, inr, true,
  Bool, Option, some, none, Bytes, Run, done, fault, out_of_fuel, ◌>>=◌, u16, u64, get_elem?, set,
  arith, get_elem?-set_self, get_elem?-set_ne, get_elem?-some-lt, ℕ_discrete, bit_or,
}
use orca_db.Hash.{fnv_1a}
use orca_db.Hashmap.{
  Node, Hashmap, zero_ok, minus_one, matches, next_idx, hm_get, hm_delete, hm_flag_tomb, idx,
}
use orca_db.Hashmap.Count.{count, count_cases}
use orca_db.Hashmap.Find.{
  find_loop, get_loop-find, delete_loop-find, found_value, delete_found, deleted, find_loop_found,
  find_loop_missing, match_home,
}
use orca_db.Hashmap.Valid.{IsValid, valid-idx, matches_congr}

module _ {ℓ} {K V : Type ℓ} (mem : K → Bytes) where
  -- On a valid table `hm_delete` of a key with a hash other than 0 ends in at most `b + 1` rounds.
  -- Without an entry that matches
  -- the key it returns -1 and changes nothing. With one it returns 0, sets the flag of that entry,
  -- which stays in its bucket, and counts one entry less.
  pub hm_delete-deleted :
      (b : ℕ) {hm : Hashmap K V} (v : IsValid mem b hm) (k : K) (free_value : Bool) (fuel : ℕ)
      → fnv_1a (mem k) ≢ 0
      → b < fuel
      → ((count (matches mem k) hm.buckets ≡ 0)
          × (hm_delete mem fuel hm (some k) free_value ≡ done (minus_one, hm)))
        ⊎ ((i : ℕ) × (n : Node K V) × (get_elem? hm.buckets i ≡ some n)
            × (matches mem k n ≡ true)
            × (hm_delete mem fuel hm (some k) free_value ≡ done (zero_ok, deleted mem hm i n)))
  unfolding hm_delete
  hm_delete-deleted b {hm} v k free_value fuel visible h =
      let home = fnv_1a (mem k) in
      rw (valid-idx mem b v, delete_loop-find)
        (elim (count_cases (matches mem k) hm.buckets) [
          | inl absent ↦ inl (
            absent,
            ap (λ o. o >>= delete_found mem hm)
                (find_loop_missing mem b v k fuel home 0 absent (omega arith) (omega arith)),
          )
          | inr (i, n, at_i, m) ↦
              let (occ, at_home, near) = match_home mem b v k i n at_i m visible in
              inr (
                (home + n.dib) % hm.capacity,
                n,
                at_home,
                m,
                ap (λ o. o >>= delete_found mem hm)
                    (find_loop_found mem b v k n.dib fuel home 0 n at_home m occ (omega arith)
                      (omega arith)),
              )
        ])

  -- A search that stops at the flagged entry returns it with its flag.
  reflag : ℕ → ℕ → Option (ℕ × Node K V) → Option (ℕ × Node K V)
  reflag i f none = none
  reflag i f (some (j, m)) = elim (ℕ_discrete i j) [
    | yes _ ↦ some (j, record m { flags = f })
    | no _ ↦ some (j, m)
  ]

  find_loop-flags :
      (hm : Hashmap K V) (i f c : ℕ) (n : Node K V)
      → get_elem? hm.buckets i ≡ some n
      → (fuel : ℕ) (q : K) (dib j : ℕ)
      → find_loop mem fuel q
          (record hm { buckets = set hm.buckets i (record n { flags = f }); count = c })
          dib
          j
        ≡ (find_loop mem fuel q hm dib j >>= λ o. done (reflag i f o))
  unfolding find_loop reflag
  find_loop-flags hm i f c n at_i zero q dib j = refl
  find_loop-flags hm i f c n at_i (suc fuel) q dib j =
      let ih = find_loop-flags hm i f c n at_i fuel q (u16 (dib + 1)) (next_idx hm.capacity j) in
      let here =
        get_elem?-set_self hm.buckets i (record n { flags = f })
          (get_elem?-some-lt hm.buckets i n at_i) in
      let same = matches_congr mem q (record n { flags = f }) n refl refl refl in
      elim (ℕ_discrete i j) [
        | yes e ↦
            let own = ap (get_elem? hm.buckets) (sym e) ∙ at_i in
            let own' = ap (get_elem? (set hm.buckets i (record n { flags = f }))) (sym e) ∙ here in
            ground (arith, own, own', same, ih)
        | no ne ↦
            let there = get_elem?-set_ne hm.buckets i j (record n { flags = f }) ne in
            ground (arith, there, ih)
      ]

  find_loop-some :
      (fuel : ℕ) (q : K) (hm : Hashmap K V) (dib j i : ℕ) (n : Node K V)
      → find_loop mem fuel q hm dib j ≡ done (some (i, n))
      → get_elem? hm.buckets i ≡ some n
  unfolding find_loop
  find_loop-some zero q hm dib j i n e = cc
  find_loop-some (suc fuel) q hm dib j i n e =
      ground (arith, find_loop-some fuel q hm (u16 (dib + 1)) (next_idx hm.capacity j) i n)

  delete_found-done :
      (hm hm' : Hashmap K V) (o : Run (Option (ℕ × Node K V)))
      → (o >>= delete_found mem hm) ≡ done (zero_ok, hm')
      → (i : ℕ) × (n : Node K V) × (o ≡ done (some (i, n))) × (deleted mem hm i n ≡ hm')
  delete_found-done hm hm' (done none) e = absurd (cc e)
  delete_found-done hm hm' (done (some (i, n))) e = (i, n, refl, cc e)
  delete_found-done hm hm' fault e = absurd (cc e)
  delete_found-done hm hm' out_of_fuel e = absurd (cc e)

  found_value-reflag :
      (i f : ℕ) (o : Run (Option (ℕ × Node K V)))
      → (o >>= (λ x. done (reflag i f x)) >>= found_value mem) ≡ (o >>= found_value mem)
  unfolding reflag
  found_value-reflag i f (done none) = refl
  found_value-reflag i f (done (some (j, m))) = ground arith
  found_value-reflag i f fault = refl
  found_value-reflag i f out_of_fuel = refl

  module _ (hm hm' : Hashmap K V) (k : K) (free_value : Bool) (fuel : ℕ)
      (gone : hm_delete mem fuel hm (some k) free_value ≡ done (zero_ok, hm')) where
    deleted_entry :
        (i : ℕ) × (n : Node K V) × (find_loop mem fuel k hm 0 (idx hm.capacity (fnv_1a (mem k)))
          ≡ done (some (i, n)))
        × (deleted mem hm i n ≡ hm')
    unfolding hm_delete
    deleted_entry = delete_found-done hm hm' _ (sym (delete_loop-find mem fuel k hm 0 _) ∙ gone)

    -- On every table, an `hm_delete` that returns 0 changes the result of no later `hm_get`: the
    -- deleted key too is still read.
    pub hm_get-delete :
        (q : K) (rounds : ℕ) → hm_get mem rounds hm' (some q) ≡ hm_get mem rounds hm (some q)
    unfolding hm_get
    hm_get-delete q rounds =
        let (i, n, found, same) = deleted_entry in
        let at_i = find_loop-some fuel k hm 0 _ i n found in
        rw (← same, get_loop-find)
          (rw (find_loop-flags hm i _ _ n at_i rounds q 0 _)
            (found_value-reflag i _ _ ∙ sym (get_loop-find mem rounds q hm 0 _)))

    reflag_self :
        (i f : ℕ) (n : Node K V) → reflag i f (some (i, n)) ≡ some (i, record n { flags = f })
    unfolding reflag
    reflag_self i f n = ground arith

    abbrev pub Again : Bool → Hashmap K V → Type ℓ
    Again again table =
        (next : Hashmap K V) × (hm_delete mem fuel table (some k) again ≡ done (zero_ok, next))
        × (table.count ≡ u64 (hm.count + (2 ^ 64 - 1)))
        × (next.count ≡ u64 (table.count + (2 ^ 64 - 1)))

    -- On every table, an `hm_delete` that returns 0 returns 0 again when it is repeated, and
    -- counts one entry less each time, modulo 2 ^ 64.
    pub hm_delete_twice : (again : Bool) → Again again hm'
    unfolding hm_delete
    hm_delete_twice again =
        let (i, n, found, same) = deleted_entry in
        let at_i = find_loop-some fuel k hm 0 _ i n found in
        let f = bit_or n.flags hm_flag_tomb in
        let table = deleted mem hm i n in
        let found_again =
          find_loop-flags hm i f table.count n at_i fuel k 0 (idx hm.capacity (fnv_1a (mem k)))
          ∙ ap (λ o. o >>= λ x. done (reflag i f x)) found
          ∙ ap done (reflag_self i f n) in
        subst (Again again) same (
          deleted mem table i (record n { flags = f }),
          delete_loop-find mem fuel k table 0 _
              ∙ ap (λ o. o >>= delete_found mem table) found_again,
          refl,
          refl,
        )
