-- ===== src/Aof/Commands.antt =====
-- Set and delete commands appended one after the other, and `aof_replay` of the whole file.
use orca_db.Base.{
  ℕ, zero, suc, ◌+◌, ◌^◌, ◌<◌, ◌≤◌, ◌≡◌, refl, sym, ap, ◌∙◌, true, some, List, [], ◌∷◌, ◌++◌, Bytes,
  length, length-append, drop, Run, done, ◌>>=◌, bind_congr, bind_assoc, bind_done, arith,
}
use mathlib.Core.List.{append_assoc, append-nil}
use orca_db.Aof.{
  Aof, digits, set_word, del_word, set_line, del_line, aof_append_set, aof_append_del, append,
  aof_sync,
}
use orca_db.Aof.Digits.{scan_size-digits_of, digits-AllDigits}
use orca_db.Aof.Line.{OneLine, OneLine-append, with_line, fgets-line}
use orca_db.Aof.Log.{
  Fits, body, set_line-body, body-short, body-OneLine, sync_by-file, append_set-file, set_line-long,
  replay_loop-next,
}
use orca_db.Aof.Replay.{replay_delete, replay_del, replay_line, replay_loop, aof_replay}
use orca_db.Aof.Roundtrip.{
  behind-append, digits-OneLine, copy-append, insert_copy, replay_line-behind,
}
use orca_db.Aof.Scan.{scan_word, scan_size, after_space, copy}
use orca_db.Hashmap.{Hashmap, zero_ok, hm_get}

pub data Command : Type 0 where
  set_pair : Bytes → Bytes → Command
  del_key : Bytes → Command

-- A command that fits into one line of the reader.
abbrev pub CommandFits : Command → Type 0
CommandFits (set_pair k v) = Fits k v
CommandFits (del_key k) = OneLine k × (length (del_line k) < 4096)

abbrev pub AllCommandsFit : List Command → Type 0
AllCommandsFit [] = Unit
AllCommandsFit (c ∷ cs) = CommandFits c × AllCommandsFit cs

abbrev pub command_line : Command → Bytes
command_line (set_pair k v) = set_line k v
command_line (del_key k) = del_line k

-- The text of the commands.
unfoldable pub commands_text : List Command → Bytes
commands_text [] = []
commands_text (c ∷ cs) = command_line c ++ commands_text cs

abbrev pub append_command : ℕ → Command → Aof → Aof
append_command now (set_pair k v) aof = (aof_append_set true now aof (some k) (some v)).1
append_command now (del_key k) aof = (aof_append_del true now aof (some k)).1

-- The stream after the appends.
unfoldable pub append_commands : ℕ → List Command → Aof → Aof
append_commands now [] aof = aof
append_commands now (c ∷ cs) aof = append_commands now cs (append_command now c aof)

pub append_command-file :
    (now : ℕ) (c : Command) (aof : Aof) (file : Bytes)
    → aof.file ≡ some file
    → (append_command now c aof).file ≡ some (file ++ command_line c)
unfolding aof_append_del append aof_sync
append_command-file now (set_pair k v) aof file e = append_set-file now aof file k v e
append_command-file now (del_key k) aof file e = rw e (sync_by-file aof.sync_policy now _ _)

append_commands-file :
    (now : ℕ) (cs : List Command) (aof : Aof) (file : Bytes)
    → aof.file ≡ some file
    → (append_commands now cs aof).file ≡ some (file ++ commands_text cs)
unfolding append_commands commands_text
append_commands-file now [] aof file e = e ∙ ap some (sym (append-nil file))
append_commands-file now (c ∷ cs) aof file e =
    append_commands-file now cs (append_command now c aof) (file ++ command_line c)
      (append_command-file now c aof file e)
    ∙ ap some (append_assoc file (command_line c) (commands_text cs))

-- The line of a delete command without its newline.
abbrev del_body : Bytes → Bytes
del_body k = del_word ++ (digits (length k) ++ (32 ∷ k))

del_line-body : (k rest : Bytes) → del_line k ++ rest ≡ del_body k ++ (10 ∷ rest)
unfolding del_line
del_line-body k rest =
    ap (λ l. del_word ++ l)
      (append_assoc (digits (length k)) (32 ∷ (k ++ (10 ∷ []))) rest
        ∙ ap (λ l. digits (length k) ++ (32 ∷ l)) (append_assoc k (10 ∷ []) rest)
        ∙ sym (append_assoc (digits (length k)) (32 ∷ k) (10 ∷ rest)))

del_body-OneLine : (k : Bytes) → OneLine k → OneLine (del_body k)
del_body-OneLine k h = (
  (λ e. omega (arith, e)),
  (
    (λ e. omega (arith, e)),
    (
      (λ e. omega (arith, e)),
      (
        (λ e. omega (arith, e)),
        OneLine-append (digits (length k)) (32 ∷ k) (digits-OneLine _ (digits-AllDigits (length k)))
            ((λ e. omega (arith, e)), h),
      ),
    ),
  ),
)

del_body-short : (k : Bytes) → length (del_line k) < 4096 → length (del_body k) < 4095
del_body-short k h =
    let e : length (del_line k ++ []) ≡ length (del_body k ++ (10 ∷ [])) =
      ap length (del_line-body k []) in
    omega (arith, e, length-append (del_line k) [], length-append (del_body k) (10 ∷ []), h)

del_key-short : (k : Bytes) → length k ≤ length (del_body k)
del_key-short k = omega (arith, length-append (digits (length k)) (32 ∷ k))

module _ {ℓ} {K V : Type ℓ} (mem : ℕ → K → Bytes) (alloc : ℕ → Bytes → K)
    (alloc_val : ℕ → Bytes → V) where
  -- What a command stands for. A key that reads NULL is not deleted.
  abbrev pub run_command : ℕ → ℕ → Command → Hashmap K V → Run (Hashmap K V)
  run_command fuel i (set_pair k v) hm = insert_copy mem alloc alloc_val fuel i k v hm
  run_command fuel i (del_key k) hm =
      hm_get (mem i) fuel hm (some (alloc i k)) >>= replay_delete mem alloc alloc_val fuel i k hm

  -- The commands, the first as number `i`.
  unfoldable pub run_commands : ℕ → ℕ → List Command → Hashmap K V → Run (Hashmap K V)
  run_commands fuel i [] hm = done hm
  run_commands fuel i (c ∷ cs) hm = run_command fuel i c hm >>= run_commands fuel (i + 1) cs

  replay_del-line :
      (fuel i : ℕ) (k t : Bytes) (hm : Hashmap K V)
      → length k < 2 ^ 64
      → (scan_word (del_body k ++ t)
          >>= replay_line mem alloc alloc_val fuel i (del_body k ++ t) hm)
        ≡ run_command fuel i (del_key k) hm
  unfolding replay_line scan_word replay_del
  replay_del-line fuel i k t hm short =
      let p = digits (length k) ++ (32 ∷ (k ++ t)) in
      let delete = λ (key : Bytes).
        hm_get (mem i) fuel hm (some (alloc i key))
        >>= replay_delete mem alloc alloc_val fuel i key hm in
      let (after, sized) = scan_size-digits_of (length k) (k ++ t) short in
      ap (λ l. scan_size l >>= replay_del mem alloc alloc_val fuel i l hm)
        (append_assoc (digits (length k)) (32 ∷ k) t)
      ∙ bind_done (scan_size p) (some (length k)) (replay_del mem alloc alloc_val fuel i p hm) after
      ∙ bind_done (after_space p) (k ++ t) (λ q. copy (length k) q >>= delete) sized
      ∙ bind_done (copy (length k) (k ++ t)) k delete (copy-append k t)

  -- One round of the reader on a line that holds the command.
  abbrev Replays : ℕ → Command → Hashmap K V → Bytes → Type ℓ
  Replays fuel c hm line_body =
      (t : Bytes) (i : ℕ)
      → (scan_word (line_body ++ t) >>= replay_line mem alloc alloc_val fuel i (line_body ++ t) hm)
        ≡ run_command fuel i c hm

  round_line :
      (fuel rounds i : ℕ) (c : Command) (line line_body rest : Bytes) (hm : Hashmap K V)
      → OneLine line_body
      → length line_body < 4095
      → Replays fuel c hm line_body
      → (buffer : Bytes) × (replay_loop mem alloc alloc_val fuel
            (suc rounds)
            i
            line
            (line_body ++ (10 ∷ rest))
            hm
          ≡ (run_command fuel i c hm
              >>= replay_loop mem alloc alloc_val fuel rounds (i + 1) buffer rest))
  round_line fuel rounds i c line line_body rest hm one short runs =
      let buffer = with_line line_body line in
      let rest_of = replay_loop mem alloc alloc_val fuel rounds (i + 1) buffer rest in
      let step = replay_line mem alloc alloc_val fuel i buffer hm in
      let t = (10 ∷ []) ++ (0 ∷ drop (length (line_body ++ (10 ∷ [])) + 1) line) in
      (
        buffer,
        replay_loop-next mem alloc alloc_val fuel rounds i line (line_body ++ (10 ∷ rest)) hm
              (buffer, rest) (fgets-line line line_body rest one short)
            ∙ sym (bind_assoc (scan_word buffer) step rest_of)
            ∙ ap (λ l. (scan_word l >>= replay_line mem alloc alloc_val fuel i l hm) >>= rest_of)
                (append_assoc line_body (10 ∷ []) _)
            ∙ ap (λ x. x >>= rest_of) (runs t i),
      )

  round_command :
      (fuel rounds i : ℕ) (c : Command) (line rest : Bytes) (hm : Hashmap K V)
      → CommandFits c
      → (buffer : Bytes) × (replay_loop mem alloc alloc_val fuel
            (suc rounds)
            i
            line
            (command_line c ++ rest)
            hm
          ≡ (run_command fuel i c hm
              >>= replay_loop mem alloc alloc_val fuel rounds (i + 1) buffer rest))
  round_command fuel rounds i (set_pair k v) line rest hm fit =
      let long = set_line-long k v in
      let runs : Replays fuel (set_pair k v) hm (body k v) = λ t j.
        ap (λ l. scan_word l >>= replay_line mem alloc alloc_val fuel j l hm)
          (ap (λ l. set_word ++ l) (behind-append k v [] t))
        ∙ replay_line-behind mem alloc alloc_val fuel j k v t hm (omega (arith, long, fit.short))
            (omega (arith, long, fit.short)) in
      let (buffer, run) =
        round_line fuel rounds i (set_pair k v) line (body k v) rest hm (body-OneLine k v fit)
          (body-short k v fit) runs in
      (
        buffer,
        ap (λ l. replay_loop mem alloc alloc_val fuel (suc rounds) i line l hm)
              (set_line-body k v rest)
            ∙ run,
      )
  round_command fuel rounds i (del_key k) line rest hm fit =
      let short = del_body-short k fit.1 in
      let (buffer, run) =
        round_line fuel rounds i (del_key k) line (del_body k) rest hm (del_body-OneLine k fit.0)
          short (λ t j. replay_del-line fuel j k t hm (omega (arith, short, del_key-short k))) in
      (
        buffer,
        ap (λ l. replay_loop mem alloc alloc_val fuel (suc rounds) i line l hm)
              (del_line-body k rest)
            ∙ run,
      )

  replay_loop-commands :
      (fuel rounds i : ℕ) (line : Bytes) (cs : List Command) (hm : Hashmap K V)
      → AllCommandsFit cs
      → length cs < rounds
      → replay_loop mem alloc alloc_val fuel rounds i line (commands_text cs) hm
        ≡ run_commands fuel i cs hm
  unfolding replay_loop run_commands commands_text
  replay_loop-commands fuel zero i line cs hm fit h = absurd (omega arith)
  replay_loop-commands fuel (suc rounds) i line [] hm fit h = refl
  replay_loop-commands fuel (suc rounds) i line (c ∷ cs) hm fit h =
      let (buffer, run) = round_command fuel rounds i c line (commands_text cs) hm fit.0 in
      run
      ∙ bind_congr (run_command fuel i c hm)
          (replay_loop mem alloc alloc_val fuel rounds (i + 1) buffer (commands_text cs))
          (run_commands fuel (i + 1) cs)
          (λ hm'. replay_loop-commands fuel rounds (i + 1) buffer cs hm' fit.1 (omega arith))

  command-pos : (c : Command) → 0 < length (command_line c)
  unfolding del_line
  command-pos (set_pair k v) = omega (arith, set_line-long k v)
  command-pos (del_key k) = omega arith

  commands-length : (cs : List Command) → length cs ≤ length (commands_text cs)
  unfolding commands_text
  commands-length [] = omega arith
  commands-length (c ∷ cs) =
      omega (
        arith,
        commands-length cs,
        length-append (command_line c) (commands_text cs),
        command-pos c,
      )

  pub aof_replay-text :
      (fuel : ℕ) (line : Bytes) (cs : List Command) (hm : Hashmap K V)
      → AllCommandsFit cs
      → aof_replay mem alloc alloc_val fuel line (some (commands_text cs)) (some hm)
        ≡ (run_commands fuel 0 cs hm >>= λ hm'. done (zero_ok, some hm'))
  unfolding aof_replay
  aof_replay-text fuel line cs hm fit =
      ap (λ x. x >>= λ hm'. done (zero_ok, some hm'))
        (replay_loop-commands fuel (length (commands_text cs) + 1) 0 line cs hm fit
          (omega (arith, commands-length cs)))

  -- When set and delete commands that fit into a line of the reader are appended to an empty file,
  -- `aof_replay` of it runs exactly these commands, in their order, whatever the buffer held: it
  -- inserts copies of the keys and values that were set, and deletes the keys that were deleted
  -- unless they read NULL. It returns 0 if the inserts, reads and deletes return.
  pub aof_replay-commands :
      (fuel now : ℕ) (line : Bytes) (cs : List Command) (aof : Aof) (hm : Hashmap K V)
      → aof.file ≡ some []
      → AllCommandsFit cs
      → aof_replay mem alloc alloc_val fuel line (append_commands now cs aof).file (some hm)
        ≡ (run_commands fuel 0 cs hm >>= λ hm'. done (zero_ok, some hm'))
  aof_replay-commands fuel now line cs aof hm e fit =
      rw (append_commands-file now cs aof [] e) (aof_replay-text fuel line cs hm fit)
