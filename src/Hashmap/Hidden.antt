-- ===== src/Hashmap/Hidden.antt =====
-- Keys whose hash is 0, which core/hashmap/hashmap.c takes for the mark of an empty bucket.
use orca_db.Base.{
  ℕ, zero, suc, ◌≡◌, ◌∙◌, refl, Bool, true, false, ◌||◌, none, some, Bytes, get_elem?, ltb, ◌==◌,
  ==_iff, if◌then◌else◌, Bool-cases, Option-cases, inl, inr, Run, done, Yields, arith,
}
use orca_db.Hash.{fnv_1a}
use orca_db.Hashmap.{Hashmap, Node, minus_one, matches, get_loop, hm_get, delete_loop, hm_delete}
use orca_db.Hashmap.Valid.{matches-hash}

module _ {ℓ} {K V : Type ℓ} (mem : K → Bytes) (q : K) (zero_hash : fnv_1a (mem q) ≡ 0) where
  -- A bucket that stops no search does not match.
  not_matched : (n : Node K V) (b : Bool) → (n.hash == 0 || b) ≡ false → matches mem q n ≡ false
  not_matched n b on = elim (Bool-cases (matches mem q n)) [
    | inr other ↦ other
    | inl same ↦
        let empty : (n.hash == 0) ≡ true =
          (==_iff n.hash 0).1 (matches-hash mem q n same ∙ zero_hash) in
        absurd (ground (arith, empty, on))
  ]

  -- One round of both loops.
  round-Yields {κ} :
      {A : Type κ} (Q : A → Type κ) (n : Node K V) (b : Bool) (stop found : A) (rest : Run A)
      → Q stop
      → Yields Q rest
      → Yields Q
          (if n.hash == 0 || b then done stop else if matches mem q n then done found else rest)
  round-Yields Q n b stop found rest s r = elim (Bool-cases (n.hash == 0 || b)) [
    | inl ends ↦ rw ends s
    | inr on ↦ rw (on, not_matched n b on) r
  ]

  get_loop-none :
      (fuel : ℕ) (hm : Hashmap K V) (dib i : ℕ)
      → Yields (λ v. v ≡ none) (get_loop mem fuel q hm dib i)
  unfolding get_loop
  get_loop-none zero hm dib i = tt
  get_loop-none (suc fuel) hm dib i = elim (Option-cases (get_elem? hm.buckets i)) [
    | inl out ↦ rw (out, get_loop) tt
    | inr (n, at) ↦
        rw (at, get_loop)
          (round-Yields (λ v. v ≡ none) n (ltb n.dib dib) none n.value _ refl
            (get_loop-none fuel hm _ _))
  ]

  delete_loop-refused :
      (fuel : ℕ) (hm : Hashmap K V) (dib i : ℕ)
      → Yields (λ r. r ≡ (minus_one, hm)) (delete_loop mem fuel q hm dib i)
  unfolding delete_loop
  delete_loop-refused zero hm dib i = tt
  delete_loop-refused (suc fuel) hm dib i = elim (Option-cases (get_elem? hm.buckets i)) [
    | inl out ↦ rw (out, delete_loop) tt
    | inr (n, at) ↦
        rw (at, delete_loop)
          (round-Yields (λ r. r ≡ (minus_one, hm)) n (ltb n.dib dib) (minus_one, hm) _ _ refl
            (delete_loop-refused fuel hm _ _))
  ]

  -- A key whose hash is 0 is never found, whatever the table holds: if `hm_get` returns, it returns
  -- NULL, and if `hm_delete` returns, it returns -1 and has changed nothing.
  pub zero_hash_hidden :
      (fuel : ℕ) (hm : Hashmap K V) (free_value : Bool)
      → Yields (λ v. v ≡ none) (hm_get mem fuel hm (some q))
        × Yields (λ r. r ≡ (minus_one, hm)) (hm_delete mem fuel hm (some q) free_value)
  unfolding hm_get hm_delete
  zero_hash_hidden fuel hm free_value = (get_loop-none fuel hm 0 _, delete_loop-refused fuel hm 0 _)
