-- ===== src/Ring.antt =====
-- core/shard/ringbuffer/ringbuffer.h and ringbuffer.c: the request ring of a shard. One thread
-- writes and one reads, and each call is one step: the atomic loads and stores of `hp` and `rp`
-- are the reads and writes of two fields. An element is a pointer of a type `P`; a slot that was
-- never written holds `none`, whatever `malloc` left there.
pub mod Queue
pub mod Index
pub mod Refine
pub mod Session
pub mod Late
mod Tests
use orca_db.Base.{
  ℕ, ◌+◌, ◌-◌, ◌%◌, ◌^◌, bit_and, Bool, true, false, Option, none, some, List, u64, get_elem?, set,
  replicate, ◌==◌, if◌then◌else◌,
}

pub record Ring {ℓ} (P : Type ℓ) : Type ℓ where
  pub hp : ℕ
  pub rp : ℕ
  pub cap : ℕ
  pub proc : List (Option P)

-- `i & (r->cap - 1)`
abbrev pub wrap : ℕ → ℕ → ℕ
wrap cap i = bit_and i (u64 (cap + (2 ^ 64 - 1)))

-- The bounds of an array hold by the invariant: a slot out of range reads as `none`.
abbrev pub default {ℓ} : {P : Type ℓ} → Option (Option P) → Option P
default none = none
default (some p) = p

abbrev pub slot {ℓ} : {P : Type ℓ} → List (Option P) → ℕ → Option P
slot proc i = default (get_elem? proc i)

module _ {ℓ} {P : Type ℓ} where
  unfoldable pub r_buff_init : ℕ → Ring P
  r_buff_init cap = record { hp = 0; rp = 0; cap = cap; proc = replicate cap none }

  unfoldable pub r_buff_write : Ring P → P → Bool × Ring P
  r_buff_write r p =
      if wrap r.cap (u64 (r.hp + 1)) == r.rp
      then (false, r)
      else (true, record r { proc = set r.proc (wrap r.cap r.hp) (some p); hp = u64 (r.hp + 1) })

  -- `none` is NULL.
  unfoldable pub r_buff_read : Ring P → Option P × Ring P
  r_buff_read r =
      if r.rp == r.hp
      then (none, r)
      else (slot r.proc (wrap r.cap r.rp), record r { rp = u64 (r.rp + 1) })

  unfoldable pub is_full : Ring P → Bool
  is_full r = wrap r.cap (u64 (r.hp + 1)) == r.rp
