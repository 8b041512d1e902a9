-- ===== src/Aof/Tests.antt =====
-- The append-only file on small commands; keys and values are their own bytes.
use orca_db.Base.{
  ℕ, ◌≡◌, refl, true, Option, none, some, List, [], ◌∷◌, Bytes, Run, done, out_of_fuel, ◌>>=◌,
  arith, replicate, take,
}
use orca_db.Aof.{
  del_line, Aof, aof_sync_always, aof_sync_everysec, digits, set_line, aof_append_set,
  aof_append_del,
}
use orca_db.Aof.Commands.{
  Command, set_pair, del_key, AllCommandsFit, commands_text, append_commands, run_commands,
  aof_replay-commands,
}
use orca_db.Aof.Durable.{Dated, append_dated, after_crash, Survives, append_dated-Survives}
use orca_db.Aof.Replay.{aof_replay}
use orca_db.Aof.Rewrite.{aof_rewrite, aof_rewrite-endless}
use orca_db.Hashmap.{Hashmap, zero_ok, empty_node, hm_insert, hm_get, hm_delete}
use orca_db.Hash.{fnv_1a}

abbrev own : Bytes → Bytes
own k = k

abbrev own_at : ℕ → Bytes → Bytes
own_at i k = k

abbrev new_aof : Aof
new_aof = record {
  file = some [];
  durable = 0;
  sync_policy = aof_sync_always;
  last_sync = 0;
  bytes_written = 0;
}

abbrev blank : Hashmap Bytes Bytes
blank = record { buckets = replicate 4 empty_node; capacity = 4; count = 0 }

abbrev commands : List Command
commands =
    set_pair (b'a' ∷ []) (b'x' ∷ b' ' ∷ []) ∷ del_key (b'a' ∷ []) ∷ set_pair (b'b' ∷ []) [] ∷ []

digits_of_120 : digits 120 ≡ 49 ∷ 50 ∷ 48 ∷ []
unfolding digits
digits_of_120 = refl

-- Set, then delete: the table ends with the flag set and reads the value.
abbrev set_and_del : Aof
set_and_del =
    (aof_append_del true 5 (aof_append_set true 5 new_aof (some (b'a' ∷ [])) (some (b'x' ∷ []))).1
      (some (b'a' ∷ []))).1

abbrev replayed : Run (Option Bytes × ℕ)
replayed = do
  (_, t) ← aof_replay own_at own_at own_at 5 (replicate 4096 7) set_and_del.file (some blank)
  elim t [
    | none ↦ done (none, 0)
    | some hm ↦ hm_get own 5 hm (some (b'a' ∷ [])) >>= λ v. done (v, hm.count)
  ]

replayed_reads : replayed ≡ done (some (b'x' ∷ []), 0)
unfolding aof_replay hm_get hm_insert hm_delete fnv_1a aof_append_set aof_append_del
replayed_reads = refl

commands-AllCommandsFit : AllCommandsFit commands
unfolding set_line del_line
commands-AllCommandsFit = (
  record {
    key_line = (λ e. omega (arith, e), tt);
    value_line = (λ e. omega (arith, e), (λ e. omega (arith, e), tt));
    short = omega arith;
  },
  (
    ((λ e. omega (arith, e), tt), omega arith),
    (record { key_line = (λ e. omega (arith, e), tt); value_line = tt; short = omega arith }, tt),
  ),
)

aof_replay-commands_example :
    aof_replay own_at own_at own_at 5
      (replicate 4096 7)
      (append_commands 1 commands new_aof).file
      (some blank)
    ≡ (run_commands own_at own_at own_at 5 0 commands blank >>= λ hm. done (zero_ok, some hm))
aof_replay-commands_example =
    aof_replay-commands own_at own_at own_at 5 1 (replicate 4096 7) commands new_aof blank refl
      commands-AllCommandsFit

aof_rewrite-endless_example :
    aof_rewrite own own 50 true true true new_aof (some blank) ≡ out_of_fuel
aof_rewrite-endless_example =
    aof_rewrite-endless own own 50 true true new_aof blank (omega arith) (omega arith)

-- Two commands in the second 3, and one in the second 4.
abbrev dated : List Dated
dated =
    (3, set_pair (b'a' ∷ []) (b'x' ∷ b' ' ∷ []))
    ∷ (3, del_key (b'a' ∷ []))
    ∷ (4, set_pair (b'b' ∷ []) [])
    ∷ []

abbrev everysec_aof : Aof
everysec_aof = record new_aof { sync_policy = aof_sync_everysec; last_sync = 1 }

-- The delete of the second 3 came after the sync of that second, and the sync of the second 4 has
-- covered it.
two_syncs : after_crash (append_dated dated everysec_aof) ≡ some (commands_text commands)
unfolding append_dated aof_append_set aof_append_del set_line del_line commands_text
two_syncs = refl

-- A crash in between loses the delete.
one_lost :
    after_crash (append_dated (take 2 dated) everysec_aof)
    ≡ some (set_line (b'a' ∷ []) (b'x' ∷ b' ' ∷ []))
unfolding append_dated aof_append_set aof_append_del set_line del_line
one_lost = refl

append_dated-Survives_example :
    Survives own_at own_at own_at 5 (replicate 4096 7) dated (append_dated dated everysec_aof) blank
append_dated-Survives_example =
    append_dated-Survives own_at own_at own_at 5 (replicate 4096 7) dated everysec_aof blank refl
      refl (omega arith, (omega arith, (omega arith, tt))) commands-AllCommandsFit
