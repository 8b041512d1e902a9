-- ===== src/Shard/Crash.antt =====
-- What becomes of a request of `db_insert`.
use orca_db.Base.{
  ℕ, ◌-◌, ◌<◌, ◌≡◌, ◌≢◌, refl, sym, ap, ◌∙◌, true, false, Option, none, some, List, [], ◌∷◌, Bytes,
  get_elem?, get_elem?-some-lt, get_elem?-set_self, set, lt→ltb, if◌then◌else◌, Run, done, fault,
  out_of_fuel, ◌>>=◌, arith,
}
use orca_db.Ring.{Ring, r_buff_write, r_buff_read}
use orca_db.Ring.Index.{contents}
use orca_db.Ring.Queue
use orca_db.Ring.Refine.{write_refines, read_refines}
use orca_db.Ring.Session.{IsEarly, write-IsEarly}
use orca_db.Shard.{
  Proc, Shard, Round, shard_id, put_request, send_to, db_insert, worker_do, worker_round,
}

-- A request that is written to an empty ring is the next one read.
write-read {ℓ} :
    {P : Type ℓ} (r : Ring P) (p : P)
    → IsEarly 1 r
    → contents r ≡ []
    → 1 < r.cap
    → (r_buff_read (r_buff_write r p).1).0 ≡ some p
unfolding Queue.push Queue.pop
write-read r p v idle wide =
    let written : ((r_buff_write r p).0, contents (r_buff_write r p).1) ≡ (true, some p ∷ []) =
      write_refines p v.ring (omega (arith, v.first)) v.free
      ∙ ap (λ q. Queue.push (r.cap - 1) q p) idle
      ∙ rw (lt→ltb 0 (r.cap - 1) (omega arith)) refl in
    let early = write-IsEarly p v in
    ap (λ x. x.0) (read_refines early.ring ∙ ap Queue.pop (ap (λ x. x.1) written))

never-done {ℓ κ} : {A : Type ℓ} {B : Type κ} (x : Run A) (b : B) → (x >>= λ _. fault) ≢ done b
never-done (done a) b e = ground arith
never-done fault b e = ground arith
never-done out_of_fuel b e = ground arith

module _ {ℓ} {K V : Type ℓ} (mem : K → Bytes) (key_at : ℕ → K) (val_at : ℕ → V) (fuel : ℕ) where
  round_faults :
      (s : Shard K V) (p : Proc K V) (round : Round K V)
      → (r_buff_read s.ring).0 ≡ some p
      → p.status ≡ false
      → worker_round mem key_at val_at fuel s ≢ done round
  unfolding worker_round
  round_faults s p round e unset ends =
      let done_do =
        worker_do mem key_at val_at fuel p.op p (record s { ring = (r_buff_read s.ring).1 }) in
      let served : Option (Proc K V) → Run (Round K V) = λ next. elim next [
        | none ↦ done (s, none)
        | some q ↦
            worker_do mem key_at val_at fuel q.op q (record s { ring = (r_buff_read s.ring).1 })
            >>= λ r. if q.status then done r else fault
      ] in
      never-done done_do round (
        sym (ap (λ b. done_do >>= λ r. if b then done r else fault) unset)
        ∙ sym (ap served e)
        ∙ ends)

  -- After a `db_insert` into an empty ring that has not gone round, the worker's next round returns
  -- nothing, whatever table and arenas hold: it writes through the NULL `status` of the request.
  pub worker-db_insert :
      (nslave id : ℕ) (key : K) (value : V) (val_len : ℕ) (shards : List (Shard K V))
      (s : Shard K V)
      → shard_id nslave (mem key) ≡ done id
      → get_elem? shards id ≡ some s
      → IsEarly 1 s.ring
      → contents s.ring ≡ []
      → 1 < s.ring.cap
      → (shards' : List (Shard K V)) × (s' : Shard K V) × (db_insert mem nslave key value val_len
            shards
          ≡ done shards')
        × (get_elem? shards' id ≡ some s')
        × ((round : Round K V) → worker_round mem key_at val_at fuel s' ≢ done round)
  unfolding db_insert send_to
  worker-db_insert nslave id key value val_len shards s to_id there early idle wide =
      let p = put_request mem key value val_len in
      let s' : Shard K V = record s { ring = (r_buff_write s.ring p).1 } in
      (
        set shards id s',
        s',
        rw to_id (rw (there, send_to) refl),
        get_elem?-set_self shards id s' (get_elem?-some-lt shards id s there),
        λ round. round_faults s' p round (write-read s.ring p early idle wide) refl,
      )
