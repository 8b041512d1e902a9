-- ===== src/Hashmap/Get.antt =====
-- `hm_get` against the map that the table stands for.
use orca_db.Base.{ℕ, ◌<◌, ◌≡◌, ◌≢◌, ◌∙◌, ap, sym, inl, inr, some, Bytes, arith, done, ◌>>=◌}
use orca_db.Hash.{fnv_1a}
use orca_db.Hashmap.{Hashmap, matches, hm_get}
use orca_db.Hashmap.Count.{count_cases, view, view_found, view_missing}
use orca_db.Hashmap.Find.{
  get_loop-find, find_loop_found, find_loop_missing, match_home, found_value,
}
use orca_db.Hashmap.Valid.{IsValid, valid-idx}

module _ {ℓ} {K V : Type ℓ} (mem : K → Bytes) (b : ℕ) {hm : Hashmap K V} (v : IsValid mem b hm)
    (q : K) where
  -- On a valid table `hm_get` of a key with a hash other than 0 returns, in at most `b + 1` rounds,
  -- the value of the entry that matches the key, or NULL if none does.
  pub hm_get-view :
      (fuel : ℕ)
      → fnv_1a (mem q) ≢ 0
      → b < fuel
      → hm_get mem fuel hm (some q) ≡ done (view mem q hm.buckets)
  unfolding hm_get
  hm_get-view fuel visible h =
      let home = fnv_1a (mem q) in
      rw (valid-idx mem b v, get_loop-find)
        (elim (count_cases (matches mem q) hm.buckets) [
          | inl absent ↦
              ap (λ o. o >>= found_value mem)
                (find_loop_missing mem b v q fuel home 0 absent (omega arith) (omega arith))
              ∙ ap done (sym (view_missing mem q hm.buckets absent))
          | inr (i, n, at_i, m) ↦
              let (occ, at_home, near) = match_home mem b v q i n at_i m visible in
              ap (λ o. o >>= found_value mem)
                (find_loop_found mem b v q n.dib fuel home 0 n at_home m occ (omega arith)
                  (omega arith))
              ∙ ap done (sym (view_found mem q hm.buckets i n (v.unique q visible) at_i m))
        ])
