-- ===== src/Storage/Save.antt =====
-- `db_save` of a table with buckets.
use orca_db.Base.{
  ℕ, zero, suc, ◌<◌, ◌≤◌, ◌≡◌, refl, Bool, true, some, Bytes, length, get_elem?-lt, lt→ltb,
  out_of_fuel, arith,
}
use orca_db.Hashmap.{Node, Hashmap, next_idx}
use orca_db.Storage.{
  in_child, db_save_proc, Written, Disk, save_header, node_loop, bucket_loop, db_save, save_node,
}

module _ {ℓ} {K V : Type ℓ} (mem : K → Bytes) (val_mem : V → Bytes) where
  node_loop-endless :
      (fuel capacity : ℕ) (node : Node K V) (i : ℕ) (w : Written)
      → node_loop mem val_mem fuel capacity (some node) i w ≡ out_of_fuel
  unfolding node_loop
  node_loop-endless zero capacity node i w = refl
  node_loop-endless (suc fuel) capacity node i w =
      node_loop-endless fuel capacity node (next_idx capacity i) (save_node mem val_mem node w)

  bucket_loop-endless :
      (fuel : ℕ) (hm : Hashmap K V) (w : Written)
      → 0 < hm.capacity
      → hm.capacity ≤ length hm.buckets
      → bucket_loop mem val_mem fuel hm 0 w ≡ out_of_fuel
  unfolding bucket_loop
  bucket_loop-endless zero hm w h k = refl
  bucket_loop-endless (suc fuel) hm w h k =
      let (node, e) = get_elem?-lt hm.buckets 0 (omega (arith, h, k)) in
      rw (lt→ltb 0 hm.capacity h) (rw e (rw (node_loop-endless fuel hm.capacity node 0 w) refl))

  -- Once the temporary file is open, `db_save` of a table that has a bucket never returns: no
  -- number of rounds is enough.
  pub db_save-endless :
      (fuel : ℕ) (renamed : Bool) (timestamp : ℕ) (hm : Hashmap K V) (disk : Disk)
      → 0 < hm.capacity
      → hm.capacity ≤ length hm.buckets
      → db_save mem val_mem fuel true renamed timestamp hm disk ≡ out_of_fuel
  unfolding db_save
  db_save-endless fuel renamed timestamp hm disk h k =
      rw
        (bucket_loop-endless fuel hm
          (record { bytes = save_header timestamp hm.count; sum = 0; entries = 0 }) h k)
        refl

  -- The child of `db_save_proc` then never exits.
  db_save_proc-endless :
      (fuel : ℕ) (renamed : Bool) (timestamp : ℕ) (hm : Hashmap K V) (disk : Disk)
      → 0 < hm.capacity
      → hm.capacity ≤ length hm.buckets
      → db_save_proc mem val_mem fuel in_child true renamed timestamp hm disk ≡ out_of_fuel
  unfolding db_save_proc
  db_save_proc-endless fuel renamed timestamp hm disk h k =
      rw (db_save-endless fuel renamed timestamp hm disk h k) refl
