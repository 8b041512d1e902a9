-- ===== src/Shard/Get.antt =====
-- core/shard/shard.c: `db_get`, as steps of its caller and of the shard's worker in any order. No
-- other thread pushes meanwhile, but requests of others may wait; those are taken to be alive.
use orca_db.Base.{
  ℕ, Bool, true, false, ◌&&◌, Option, none, some, List, [], ◌∷◌, Bytes, get_elem?, set, ◌==◌,
  if◌then◌else◌, Run, done, fault, ◌>>=◌,
}
use orca_db.Ring.{r_buff_write, r_buff_read, wrap}
use orca_db.Shard.{Shard, Round, shard_id, get_request, worker_round}

-- Where the caller stands: in the loop that pushes, in the loop that waits, or back with a result.
pub data Pc {ℓ} (V : Type ℓ) : Type ℓ where
  pushing waiting : Pc V
  returned : Option V → Pc V

-- `own` marks the slots of the ring that point to the caller's request. That request, its `result`
-- and its `done`, which is `finished`, are locals of `db_get`, and are gone once it has returned.
pub record Getting {ℓ} (K V : Type ℓ) : Type ℓ where
  pub shard : Shard K V
  pub own : ℕ → Bool
  pub pc : Pc V
  pub result : Option V
  pub finished : Bool

pub data Thread : Type 0 where
  caller worker : Thread

abbrev pub marked : ℕ → (ℕ → Bool) → ℕ → Bool
marked j own i = if i == j then true else own i

abbrev pub is_back {ℓ} : {V : Type ℓ} → Pc V → Bool
is_back pushing = false
is_back waiting = false
is_back (returned v) = true

module _ {ℓ} {K V : Type ℓ} (mem : K → Bytes) where
  abbrev pub get_started : Shard K V → Getting K V
  get_started s = record {
    shard = s;
    own = λ _. false;
    pc = pushing;
    result = none;
    finished = false;
  }

  -- The test of `while (rBuff_write(&s->ring, &p) != 0)`: a push that succeeds is repeated.
  abbrev pub pushed : Bool → Pc V
  pushed true = pushing
  pushed false = waiting

  -- One round of the loop that the caller is in.
  unfoldable pub caller_step : K → Getting K V → Getting K V
  caller_step key g = elim g.pc [
    | pushing ↦
        let (ok, ring) = r_buff_write g.shard.ring (get_request mem key) in
        record g {
          shard = record g.shard { ring = ring };
          own = if ok then marked (wrap g.shard.ring.cap g.shard.ring.hp) g.own else g.own;
          pc = pushed ok;
        }
    | waiting ↦ if g.finished then record g { pc = returned g.result } else g
    | returned v ↦ g
  ]

  -- Whether the request that the worker reads next is the caller's.
  unfoldable pub takes_own : Getting K V → Bool
  takes_own g = elim (r_buff_read g.shard.ring).0 [
    | none ↦ false
    | some p ↦ g.own (wrap g.shard.ring.cap g.shard.ring.rp)
  ]

  -- What a round of the worker has written, through the pointers of the request if it is the
  -- caller's.
  abbrev pub seen : Getting K V → Bool → Round K V → Getting K V
  seen g false (s, answer) = record g { shard = s }
  seen g true (s, none) = record g { shard = s }
  seen g true (s, some v) = record g { shard = s; result = v; finished = true }

  module _ (key_at : ℕ → K) (val_at : ℕ → V) (fuel : ℕ) where
    unfoldable pub get_step : Thread → K → Getting K V → Run (Getting K V)
    unfolding caller_step takes_own worker_round
    get_step caller key g = done (caller_step key g)
    get_step worker key g =
        let mine = takes_own g in
        let round = worker_round mem key_at val_at fuel g.shard >>= λ r. done (seen g mine r) in
        if mine && is_back g.pc then fault else round

    unfoldable pub get_steps : List Thread → K → Getting K V → Run (Getting K V)
    unfolding get_step
    get_steps [] key g = done g
    get_steps (t ∷ schedule) key g = get_step t key g >>= get_steps schedule key

    -- `db_get` on one of the shards, as far as the schedule takes it.
    unfoldable pub get_from : K → List Thread → List (Shard K V) → ℕ → Run (Pc V × List (Shard K V))
    unfolding get_steps
    get_from key schedule shards id = elim (get_elem? shards id) [
      | none ↦ fault
      | some s ↦ get_steps schedule key (get_started s) >>= λ g. done (g.pc, set shards id g.shard)
    ]

    unfoldable pub db_get : ℕ → K → List Thread → List (Shard K V) → Run (Pc V × List (Shard K V))
    unfolding get_from shard_id
    db_get nslave key schedule shards = shard_id nslave (mem key) >>= get_from key schedule shards
