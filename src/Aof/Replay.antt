-- ===== src/Aof/Replay.antt =====
-- `aof_replay`. `malloc` is taken to succeed: `alloc` and `alloc_val` are where the copies of the
-- i-th line are put, and `mem` what memory holds in that round, since each key is freed after it.
-- `line` is the buffer, whose first contents are what the stack held.
use orca_db.Base.{
  ℕ, zero, suc, ◌+◌, true, Option, none, some, [], ◌∷◌, Bytes, length, drop, bytes_eq,
  if◌then◌else◌, Run, done, out_of_fuel, ◌>>=◌,
}
use orca_db.Aof.Scan.{scan_word, scan_size, after_space, copy, fgets}
use orca_db.Hashmap.{Hashmap, Status, minus_one, zero_ok, hm_insert, hm_get, hm_delete}

module _ {ℓ} {K V : Type ℓ} (mem : ℕ → K → Bytes) (alloc : ℕ → Bytes → K)
    (alloc_val : ℕ → Bytes → V) where
  abbrev Table : Type ℓ
  Table = Hashmap K V

  -- A set command, from its value length on, which stands at `p`.
  unfoldable pub replay_value : ℕ → ℕ → Bytes → Bytes → Table → Option ℕ → Run Table
  unfolding after_space copy
  replay_value fuel i key p hm none = done hm
  replay_value fuel i key p hm (some val_len) = do
    q ← after_space p
    value ← copy val_len q
    (_, hm') ← hm_insert (mem i) fuel hm (some (alloc i key)) (some (alloc_val i value)) val_len
    done hm'

  -- Behind "SET ", once the key length is read.
  unfoldable pub replay_set : ℕ → ℕ → Bytes → Table → Option ℕ → Run Table
  unfolding replay_value scan_size
  replay_set fuel i p hm none = done hm
  replay_set fuel i p hm (some key_len) = do
    q ← after_space p
    key ← copy key_len q
    scan_size (drop (key_len + 1) q) >>= replay_value fuel i key (drop (key_len + 1) q) hm

  -- A key that reads NULL is not deleted.
  unfoldable pub replay_delete : ℕ → ℕ → Bytes → Table → Option V → Run Table
  replay_delete fuel i key hm none = done hm
  replay_delete fuel i key hm (some _) =
      hm_delete (mem i) fuel hm (some (alloc i key)) true >>= λ r. done r.1

  -- Behind "DEL ", once the key length is read.
  unfoldable pub replay_del : ℕ → ℕ → Bytes → Table → Option ℕ → Run Table
  unfolding replay_delete after_space copy
  replay_del fuel i p hm none = done hm
  replay_del fuel i p hm (some key_len) = do
    q ← after_space p
    key ← copy key_len q
    hm_get (mem i) fuel hm (some (alloc i key)) >>= replay_delete fuel i key hm

  -- One line, whose command is `cmd`; an empty one is a line without a command.
  unfoldable pub replay_line : ℕ → ℕ → Bytes → Table → Bytes → Run Table
  unfolding replay_set replay_del scan_size
  replay_line fuel i line hm cmd =
      let set_it = scan_size (drop 4 line) >>= replay_set fuel i (drop 4 line) hm in
      let del_it = scan_size (drop 4 line) >>= replay_del fuel i (drop 4 line) hm in
      if bytes_eq cmd (83 ∷ 69 ∷ 84 ∷ [])
      then set_it
      else if bytes_eq cmd (68 ∷ 69 ∷ 76 ∷ [])
      then del_it
      else done hm

  -- The loop over the lines. Each takes a byte at least, so one round more than the file has bytes
  -- is enough.
  unfoldable pub replay_loop : ℕ → ℕ → ℕ → Bytes → Bytes → Table → Run Table
  unfolding replay_line fgets scan_word
  replay_loop fuel zero i line file hm = out_of_fuel
  replay_loop fuel (suc rounds) i line file hm = elim (fgets line file) [
    | none ↦ done hm
    | some r ↦ do
      cmd ← scan_word r.0
      hm' ← replay_line fuel i r.0 hm cmd
      replay_loop fuel rounds (i + 1) r.0 r.1 hm'
  ]

  -- `none` is a NULL stream or table.
  unfoldable pub aof_replay : ℕ → Bytes → Option Bytes → Option Table → Run (Status × Option Table)
  unfolding replay_loop
  aof_replay fuel line none hm = done (minus_one, hm)
  aof_replay fuel line (some file) none = done (minus_one, none)
  aof_replay fuel line (some file) (some hm) =
      replay_loop fuel (length file + 1) 0 line file hm >>= λ hm'. done (zero_ok, some hm')
