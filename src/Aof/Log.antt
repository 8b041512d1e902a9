-- ===== src/Aof/Log.antt =====
-- Set commands appended one after the other, and `aof_replay` of the whole file.
use orca_db.Base.{
  ℕ, zero, suc, ◌+◌, ◌<◌, ◌≤◌, ◌≡◌, refl, sym, ap, ◌∙◌, true, some, List, [], ◌∷◌, ◌++◌, Bytes,
  length, length-append, drop, Run, done, ◌>>=◌, bind_congr, bind_assoc, arith,
}
use mathlib.Core.List.{append_assoc, append-nil}
use orca_db.Aof.{
  Aof, digits, set_word, set_line, aof_append_set, append, aof_sync, sync_by, SyncPolicy,
  aof_sync_always, aof_sync_everysec, aof_sync_no,
}
use orca_db.Aof.Line.{OneLine, with_line, fgets-line}
use orca_db.Aof.Replay.{replay_line, replay_loop, aof_replay}
use orca_db.Aof.Roundtrip.{
  behind, behind-append, behind-OneLine, set_line-behind, insert_copy, replay_line-behind,
}
use orca_db.Aof.Scan.{scan_word, fgets}
use orca_db.Hashmap.{Hashmap, zero_ok}

-- A command that fits into one line of the reader.
pub record Fits (key value : Bytes) : Type 0 where
  pub key_line : OneLine key
  pub value_line : OneLine value
  pub short : length (set_line key value) < 4096

abbrev pub AllFit : List (Bytes × Bytes) → Type 0
AllFit [] = Unit
AllFit ((k, v) ∷ es) = Fits k v × AllFit es

-- The text of the commands.
unfoldable pub log : List (Bytes × Bytes) → Bytes
log [] = []
log ((k, v) ∷ es) = set_line k v ++ log es

-- The stream after the appends.
unfoldable pub append_all : ℕ → List (Bytes × Bytes) → Aof → Aof
append_all now [] aof = aof
append_all now ((k, v) ∷ es) aof =
    append_all now es (aof_append_set true now aof (some k) (some v)).1

pub sync_by-file :
    (policy : SyncPolicy) (now : ℕ) (file : Bytes) (aof : Aof)
    → (sync_by policy now file aof).file ≡ aof.file
unfolding sync_by
sync_by-file aof_sync_always now file aof = refl
sync_by-file aof_sync_everysec now file aof = ground arith
sync_by-file aof_sync_no now file aof = refl

pub append_set-file :
    (now : ℕ) (aof : Aof) (file k v : Bytes)
    → aof.file ≡ some file
    → (aof_append_set true now aof (some k) (some v)).1.file ≡ some (file ++ set_line k v)
unfolding aof_append_set append aof_sync
append_set-file now aof file k v e = rw e (sync_by-file aof.sync_policy now _ _)

append_all-file :
    (now : ℕ) (es : List (Bytes × Bytes)) (aof : Aof) (file : Bytes)
    → aof.file ≡ some file
    → (append_all now es aof).file ≡ some (file ++ log es)
unfolding append_all log
append_all-file now [] aof file e = e ∙ ap some (sym (append-nil file))
append_all-file now ((k, v) ∷ es) aof file e =
    append_all-file now es (aof_append_set true now aof (some k) (some v)).1 (file ++ set_line k v)
      (append_set-file now aof file k v e)
    ∙ ap some (append_assoc file (set_line k v) (log es))

pub set_line-long : (k v : Bytes) → length k + length v + 4 ≤ length (set_line k v)
set_line-long k v =
    let val_part = digits (length v) ++ (32 ∷ (v ++ (10 ∷ []))) in
    rw (set_line-behind k v) (
      omega (
        arith,
        length-append (digits (length k)) (32 ∷ (k ++ (32 ∷ val_part))),
        length-append k (32 ∷ val_part),
        length-append (digits (length v)) (32 ∷ (v ++ (10 ∷ []))),
        length-append v (10 ∷ []),
      ))

-- The line without its newline.
abbrev pub body : Bytes → Bytes → Bytes
body k v = set_word ++ behind k v []

pub set_line-body : (k v rest : Bytes) → set_line k v ++ rest ≡ body k v ++ (10 ∷ rest)
set_line-body k v rest =
    ap (λ l. l ++ rest) (set_line-behind k v)
    ∙ ap (λ l. set_word ++ l)
        (behind-append k v (10 ∷ []) rest ∙ sym (behind-append k v [] (10 ∷ rest)))

pub body-short : (k v : Bytes) → Fits k v → length (body k v) < 4095
body-short k v fit =
    let e : length (set_line k v ++ []) ≡ length (body k v ++ (10 ∷ [])) =
      ap length (set_line-body k v []) in
    omega (arith, e, length-append (set_line k v) [], length-append (body k v) (10 ∷ []), fit.short)

pub body-OneLine : (k v : Bytes) → Fits k v → OneLine (body k v)
body-OneLine k v fit = (
  (λ e. omega (arith, e)),
  (
    (λ e. omega (arith, e)),
    (
      (λ e. omega (arith, e)),
      ((λ e. omega (arith, e)), behind-OneLine k v fit.key_line fit.value_line),
    ),
  ),
)

module _ {ℓ} {K V : Type ℓ} (mem : ℕ → K → Bytes) (alloc : ℕ → Bytes → K)
    (alloc_val : ℕ → Bytes → V) where
  -- The inserts of the commands, the first as number `i`.
  unfoldable pub insert_each : ℕ → ℕ → List (Bytes × Bytes) → Hashmap K V → Run (Hashmap K V)
  insert_each fuel i [] hm = done hm
  insert_each fuel i ((k, v) ∷ es) hm =
      insert_copy mem alloc alloc_val fuel i k v hm >>= insert_each fuel (i + 1) es

  log-length : (es : List (Bytes × Bytes)) → length es ≤ length (log es)
  unfolding log
  log-length [] = omega arith
  log-length ((k, v) ∷ es) =
      omega (arith, log-length es, length-append (set_line k v) (log es), set_line-long k v)

  -- What one round does once `fgets` has read a line.
  abbrev pub next : ℕ → ℕ → ℕ → Hashmap K V → Bytes × Bytes → Run (Hashmap K V)
  next fuel rounds i hm r = scan_word r.0 >>= λ cmd.
      replay_line mem alloc alloc_val fuel i r.0 hm cmd
      >>= replay_loop mem alloc alloc_val fuel rounds (i + 1) r.0 r.1

  pub replay_loop-next :
      (fuel rounds i : ℕ) (line file : Bytes) (hm : Hashmap K V) (r : Bytes × Bytes)
      → fgets line file ≡ some r
      → replay_loop mem alloc alloc_val fuel (suc rounds) i line file hm ≡ next fuel rounds i hm r
  unfolding replay_loop
  replay_loop-next fuel rounds i line file hm r e = rw (e, replay_loop) refl

  replay_loop-log :
      (fuel rounds i : ℕ) (line : Bytes) (es : List (Bytes × Bytes)) (hm : Hashmap K V)
      → AllFit es
      → length es < rounds
      → replay_loop mem alloc alloc_val fuel rounds i line (log es) hm ≡ insert_each fuel i es hm
  unfolding replay_loop insert_each log
  replay_loop-log fuel zero i line es hm fit h = absurd (omega arith)
  replay_loop-log fuel (suc rounds) i line [] hm fit h = refl
  replay_loop-log fuel (suc rounds) i line ((k, v) ∷ es) hm fit h =
      let t = 10 ∷ (0 ∷ drop (length (body k v ++ (10 ∷ [])) + 1) line) in
      let read : with_line (body k v) line ≡ set_word ++ behind k v t =
        ap (λ l. set_word ++ l)
          (append_assoc (behind k v []) (10 ∷ []) _ ∙ behind-append k v [] t) in
      let got : fgets line (log ((k, v) ∷ es)) ≡ some (set_word ++ behind k v t, log es) =
        ap (fgets line) (set_line-body k v (log es))
        ∙ fgets-line line (body k v) (log es) (body-OneLine k v fit.0) (body-short k v fit.0)
        ∙ ap (λ l. some (l, log es)) read in
      let buffer = set_word ++ behind k v t in
      let rest_of = replay_loop mem alloc alloc_val fuel rounds (i + 1) buffer (log es) in
      let step = replay_line mem alloc alloc_val fuel i buffer hm in
      replay_loop-next fuel rounds i line (log ((k, v) ∷ es)) hm (buffer, log es) got
      ∙ sym (bind_assoc (scan_word buffer) step rest_of)
      ∙ ap (λ x. x >>= rest_of)
          (replay_line-behind mem alloc alloc_val fuel i k v t hm
            (omega (arith, set_line-long k v, fit.0.short))
            (omega (arith, set_line-long k v, fit.0.short)))
      ∙ bind_congr (insert_copy mem alloc alloc_val fuel i k v hm) rest_of
          (insert_each fuel (i + 1) es)
          (λ hm'. replay_loop-log fuel rounds (i + 1) buffer es hm' fit.1 (omega arith))

  -- `aof_replay` of the text of set commands.
  pub aof_replay-log :
      (fuel : ℕ) (line : Bytes) (es : List (Bytes × Bytes)) (hm : Hashmap K V)
      → AllFit es
      → aof_replay mem alloc alloc_val fuel line (some (log es)) (some hm)
        ≡ (insert_each fuel 0 es hm >>= λ hm'. done (zero_ok, some hm'))
  unfolding aof_replay
  aof_replay-log fuel line es hm fit =
      ap (λ x. x >>= λ hm'. done (zero_ok, some hm'))
        (replay_loop-log fuel (length (log es) + 1) 0 line es hm fit (omega (arith, log-length es)))

  -- When set commands of at most 4095 bytes, without a newline in key or value, are appended to an
  -- empty file, `aof_replay` of it inserts copies of exactly these keys and values, in their order,
  -- whatever the buffer held, and returns 0 if the inserts return.
  pub aof_replay-appended :
      (fuel now : ℕ) (line : Bytes) (es : List (Bytes × Bytes)) (aof : Aof) (hm : Hashmap K V)
      → aof.file ≡ some []
      → AllFit es
      → aof_replay mem alloc alloc_val fuel line (append_all now es aof).file (some hm)
        ≡ (insert_each fuel 0 es hm >>= λ hm'. done (zero_ok, some hm'))
  aof_replay-appended fuel now line es aof hm e fit =
      ap (λ file. aof_replay mem alloc alloc_val fuel line file (some hm))
        (append_all-file now es aof [] e)
      ∙ aof_replay-log fuel line es hm fit
