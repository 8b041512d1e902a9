-- ===== src/Aof/Rewrite.antt =====
-- `aof_rewrite`.
use orca_db.Base.{
  ℕ, zero, suc, ◌+◌, ◌<◌, ◌≤◌, ◌≡◌, refl, Bool, true, Option, none, some, [], ◌∷◌, ◌++◌, Bytes, u64,
  length, take, get_elem?, get_elem?-lt, ltb, lt→ltb, if◌then◌else◌, not, Run, done, fault,
  out_of_fuel, ◌>>=◌, arith,
}
use orca_db.Aof.{Aof, digits, set_word}
use orca_db.Hashmap.{Node, Hashmap, Status, zero_ok, minus_one, next_idx}

module _ {ℓ} {K V : Type ℓ} (mem : K → Bytes) (val_mem : V → Bytes) where
  -- What is written for a node: `%s` of the key, and `val_len` bytes of the value. `%s` of the NULL
  -- key of an empty bucket, undefined in C, is nothing, as is a NULL value, whose length is 0.
  unfoldable pub rewrite_entry : Node K V → Bytes
  unfolding digits
  rewrite_entry node =
      let key : Bytes = elim node.key [ none ↦ [] | some k ↦ mem k ] in
      let value : Bytes = elim node.value [ none ↦ [] | some v ↦ take node.val_len (val_mem v) ] in
      set_word
      ++ (digits node.key_len
          ++ (32 ∷ (key ++ (32 ∷ (digits node.val_len ++ (32 ∷ (value ++ (10 ∷ []))))))))

  -- `while(node)`; the pointer is never NULL and the body leaves it as it is.
  unfoldable pub rewrite_node : ℕ → ℕ → Option (Node K V) → ℕ → Bytes → Run (ℕ × Bytes)
  unfolding rewrite_entry next_idx
  rewrite_node zero capacity ptr i out = out_of_fuel
  rewrite_node (suc fuel) capacity none i out = done (i, out)
  rewrite_node (suc fuel) capacity (some node) i out =
      rewrite_node fuel capacity (some node) (next_idx capacity i) (out ++ rewrite_entry node)

  -- `for(i = 0; i < hm->capacity; i++)`, on the same fuel.
  unfoldable pub rewrite_loop : ℕ → Hashmap K V → ℕ → Bytes → Run Bytes
  unfolding rewrite_node
  rewrite_loop zero hm i out = out_of_fuel
  rewrite_loop (suc fuel) hm i out =
      let body = do
        (j, out') ← elim (get_elem? hm.buckets i) [
          | none ↦ fault
          | some node ↦ rewrite_node fuel hm.capacity (some node) i out
        ]
        rewrite_loop fuel hm (u64 (j + 1)) out'
      in if ltb i hm.capacity then body else done out

  -- The stream after the rewrite: `renamed` and `reopened` say whether `rename` and the `fopen`
  -- after it succeed, `out` is the temporary file.
  unfoldable pub rewrite_finish : Bool → Bool → Aof → Bytes → Status × Aof
  rewrite_finish renamed reopened aof out =
      if not renamed
      then (minus_one, if reopened then aof else record aof { file = none })
      else if not reopened
      then (minus_one, record aof { file = none })
      else (zero_ok, record aof { file = some out; durable = length out; bytes_written = 0 })

  -- `opened` says whether the temporary file can be made; `none` is a NULL table.
  unfoldable pub aof_rewrite :
      ℕ → Bool → Bool → Bool → Aof → Option (Hashmap K V) → Run (Status × Aof)
  unfolding rewrite_loop rewrite_finish
  aof_rewrite fuel opened renamed reopened aof none = done (minus_one, aof)
  aof_rewrite fuel opened renamed reopened aof (some hm) =
      let rewritten =
        rewrite_loop fuel hm 0 [] >>= λ out. done (rewrite_finish renamed reopened aof out) in
      if not opened then done (minus_one, aof) else rewritten

  rewrite_node-endless :
      (fuel capacity : ℕ) (node : Node K V) (i : ℕ) (out : Bytes)
      → rewrite_node fuel capacity (some node) i out ≡ out_of_fuel
  unfolding rewrite_node
  rewrite_node-endless zero capacity node i out = refl
  rewrite_node-endless (suc fuel) capacity node i out =
      rewrite_node-endless fuel capacity node (next_idx capacity i) (out ++ rewrite_entry node)

  rewrite_loop-endless :
      (fuel : ℕ) (hm : Hashmap K V) (out : Bytes)
      → 0 < hm.capacity
      → hm.capacity ≤ length hm.buckets
      → rewrite_loop fuel hm 0 out ≡ out_of_fuel
  unfolding rewrite_loop
  rewrite_loop-endless zero hm out h k = refl
  rewrite_loop-endless (suc fuel) hm out h k =
      let (node, e) = get_elem?-lt hm.buckets 0 (omega (arith, h, k)) in
      rw (lt→ltb 0 hm.capacity h)
        (rw e (rw (rewrite_node-endless fuel hm.capacity node 0 out) refl))

  -- Once the temporary file is open, `aof_rewrite` of a table that has a bucket never returns: no
  -- number of rounds is enough.
  pub aof_rewrite-endless :
      (fuel : ℕ) (renamed reopened : Bool) (aof : Aof) (hm : Hashmap K V)
      → 0 < hm.capacity
      → hm.capacity ≤ length hm.buckets
      → aof_rewrite fuel true renamed reopened aof (some hm) ≡ out_of_fuel
  unfolding aof_rewrite
  aof_rewrite-endless fuel renamed reopened aof hm h k =
      rw (rewrite_loop-endless fuel hm [] h k) refl
