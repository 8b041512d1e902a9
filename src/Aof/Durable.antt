-- ===== src/Aof/Durable.antt =====
-- What a crash leaves of the append-only file under each sync policy, and what the next start reads.
use orca_db.Base.{
  ℕ, ◌+◌, ◌≤◌, ◌<◌, leb, leb-lt, Bool-cases, inl, inr, ◌⊎◌, ◌≡◌, refl, sym, ap, ◌∙◌, Option, none,
  some, List, [], ◌∷◌, ◌++◌, subst, Bytes, length, take, take-append, All, All-append, done, ◌>>=◌,
  arith,
}
use mathlib.Core.List.{append_assoc, append-nil}
use orca_db.Aof.{
  Aof, SyncPolicy, aof_sync_always, aof_sync_everysec, aof_sync_no, sync_by, aof_sync, append,
  aof_append_set, aof_append_del,
}
use orca_db.Aof.Commands.{
  Command, set_pair, del_key, AllCommandsFit, command_line, commands_text, append_command,
  append_command-file, run_commands, aof_replay-text,
}
use orca_db.Aof.Replay.{aof_replay}
use orca_db.Hashmap.{Hashmap, zero_ok}

-- A command and the second in which it is appended.
abbrev pub Dated : Type 0
Dated = ℕ × Command

abbrev pub commands_of : List Dated → List Command
commands_of [] = []
commands_of (d ∷ ds) = d.1 ∷ commands_of ds

-- The stream after the appends.
unfoldable pub append_dated : List Dated → Aof → Aof
append_dated [] aof = aof
append_dated (d ∷ ds) aof = append_dated ds (append_command d.0 d.1 aof)

-- The clock does not run backwards.
abbrev pub Ordered : ℕ → List Dated → Type 0
Ordered last [] = Unit
Ordered last (d ∷ ds) = (last ≤ d.0) × Ordered d.0 ds

-- The commands that a crash may lose, by the policy and the time of the last sync.
abbrev pub AtRisk : SyncPolicy → ℕ → Dated → Type 0
AtRisk aof_sync_always last d = ⊥
AtRisk aof_sync_everysec last d = d.0 ≡ last
AtRisk aof_sync_no last d = Unit

-- What the disk holds after a crash of the machine, when it holds no more than it was made to.
abbrev pub after_crash : Aof → Option Bytes
after_crash aof = elim aof.file [ none ↦ none | some file ↦ some (take aof.durable file) ]

commands_text-append :
    (xs ys : List Dated)
    → commands_text (commands_of (xs ++ ys))
      ≡ commands_text (commands_of xs) ++ commands_text (commands_of ys)
unfolding commands_text
commands_text-append [] ys = refl
commands_text-append (x ∷ xs) ys =
    ap (λ l. command_line x.1 ++ l) (commands_text-append xs ys)
    ∙ sym (append_assoc (command_line x.1) _ _)

abbrev text : List Dated → Bytes
text ds = commands_text (commands_of ds)

-- `ds` has been appended by the second `now`: its text is the file, and up to the end of `kept` it is
-- on the disk.
record Split (policy : SyncPolicy) (now : ℕ) (ds : List Dated) (aof : Aof) : Type 0 where
  kept : List Dated
  lost : List Dated
  parts : ds ≡ kept ++ lost
  written : aof.file ≡ some (text ds)
  synced : aof.durable ≡ length (text kept)
  risk : All (AtRisk policy aof.last_sync) lost
  same : aof.sync_policy ≡ policy
  past : aof.last_sync ≤ now

-- What a sync at the second `now` does: it has covered all of the file, or it left the stream alone
-- and the command of this second is at risk.
abbrev Outcome : SyncPolicy → ℕ → Dated → Bytes → Aof → Aof → Type 0
Outcome policy now d file aof synced =
    (synced.sync_policy ≡ aof.sync_policy)
    × (synced.last_sync ≤ now)
    × ((synced.durable ≡ length file)
        ⊎ ((synced.durable ≡ aof.durable)
            × (synced.last_sync ≡ aof.last_sync)
            × AtRisk policy aof.last_sync d))

sync_by-Outcome :
    (policy : SyncPolicy) (now : ℕ) (c : Command) (file : Bytes) (aof : Aof)
    → aof.last_sync ≤ now
    → Outcome policy now (now, c) file aof (sync_by policy now file aof)
unfolding sync_by
sync_by-Outcome aof_sync_always now c file aof h = (refl, h, inl refl)
sync_by-Outcome aof_sync_everysec now c file aof h =
    elim (Bool-cases (leb (aof.last_sync + 1) now)) [
      | inl due ↦ rw due (refl, omega arith, inl refl)
      | inr early ↦
          let late : now < aof.last_sync + 1 = leb-lt (aof.last_sync + 1) now early in
          rw early (refl, h, inr (refl, refl, omega (arith, late)))
    ]
sync_by-Outcome aof_sync_no now c file aof h = (refl, h, inr (refl, refl, tt))

append_command-Outcome :
    (now : ℕ) (c : Command) (file : Bytes) (aof : Aof)
    → aof.file ≡ some file
    → aof.last_sync ≤ now
    → Outcome aof.sync_policy now (now, c) (file ++ command_line c) aof (append_command now c aof)
unfolding aof_append_set aof_append_del append aof_sync
append_command-Outcome now (set_pair k v) file aof e h =
    rw e (sync_by-Outcome aof.sync_policy now (set_pair k v) _ _ h)
append_command-Outcome now (del_key k) file aof e h =
    rw e (sync_by-Outcome aof.sync_policy now (del_key k) _ _ h)

text-last : (ds : List Dated) (d : Dated) → text (ds ++ (d ∷ [])) ≡ text ds ++ command_line d.1
unfolding commands_text
text-last ds d =
    commands_text-append ds (d ∷ []) ∙ ap (λ l. text ds ++ l) (append-nil (command_line d.1))

append_command-Split :
    (policy : SyncPolicy) (now : ℕ) (ds : List Dated) (d : Dated) (aof : Aof)
    → Split policy now ds aof
    → now ≤ d.0
    → Split policy d.0 (ds ++ (d ∷ [])) (append_command d.0 d.1 aof)
append_command-Split policy now ds d aof s later =
    let aof' = append_command d.0 d.1 aof in
    let written =
      append_command-file d.0 d.1 aof (text ds) s.written ∙ ap some (sym (text-last ds d)) in
    let (same, past, outcome) =
      append_command-Outcome d.0 d.1 (text ds) aof s.written (omega (arith, s.past, later)) in
    elim outcome [
      | inl synced ↦ record {
        kept = ds ++ (d ∷ []);
        lost = [];
        parts = sym (append-nil (ds ++ (d ∷ [])));
        written = written;
        synced = synced ∙ ap length (sym (text-last ds d));
        risk = tt;
        same = same ∙ s.same;
        past = past;
      }
      | inr (durable, at, risk) ↦ record {
        kept = s.kept;
        lost = s.lost ++ (d ∷ []);
        parts = ap (λ l. l ++ (d ∷ [])) s.parts ∙ append_assoc s.kept s.lost (d ∷ []);
        written = written;
        synced = durable ∙ s.synced;
        risk =
            subst (λ last. All (AtRisk policy last) (s.lost ++ (d ∷ []))) (sym at)
              (All-append (AtRisk policy aof.last_sync) s.lost (d ∷ []) s.risk
                (subst (λ p. AtRisk p aof.last_sync d) s.same risk, tt));
        same = same ∙ s.same;
        past = past;
      }
    ]

append_dated-Split :
    (policy : SyncPolicy) (now : ℕ) (ds es : List Dated) (aof : Aof)
    → Split policy now ds aof
    → Ordered now es
    → (end : ℕ) × Split policy end (ds ++ es) (append_dated es aof)
unfolding append_dated
append_dated-Split policy now ds [] aof s ordered =
    (now, subst (λ l. Split policy now l aof) (sym (append-nil ds)) s)
append_dated-Split policy now ds (e ∷ es) aof s ordered =
    let (end, split) =
      append_dated-Split policy e.0 (ds ++ (e ∷ [])) es (append_command e.0 e.1 aof)
        (append_command-Split policy now ds e aof s ordered.0) ordered.1 in
    (
      end,
      subst (λ l. Split policy end l (append_dated (e ∷ es) aof)) (append_assoc ds (e ∷ []) es)
          split,
    )

after_crash-kept :
    (policy : SyncPolicy) (now : ℕ) (ds : List Dated) (aof : Aof) (s : Split policy now ds aof)
    → after_crash aof ≡ some (text s.kept)
after_crash-kept policy now ds aof s =
    let whole = ap text s.parts ∙ commands_text-append s.kept s.lost in
    ap (λ file. elim file [ none ↦ none | some f ↦ some (take aof.durable f) ]) s.written
    ∙ ap (λ n. some (take n (text ds))) s.synced
    ∙ ap (λ l. some (take (length (text s.kept)) l)) whole
    ∙ ap some (take-append (length (text s.kept)) (text s.kept) (text s.lost) refl)

AllCommandsFit-kept :
    (kept lost : List Dated)
    → AllCommandsFit (commands_of (kept ++ lost))
    → AllCommandsFit (commands_of kept)
AllCommandsFit-kept [] lost fit = tt
AllCommandsFit-kept (d ∷ ds) lost fit = (fit.0, AllCommandsFit-kept ds lost fit.1)

module _ {ℓ} {K V : Type ℓ} (mem : ℕ → K → Bytes) (alloc : ℕ → Bytes → K)
    (alloc_val : ℕ → Bytes → V) where
  -- After a crash, the first commands of `ds` are replayed, and the others were at risk.
  pub record Survives (fuel : ℕ) (line : Bytes) (ds : List Dated) (aof : Aof) (hm : Hashmap K V)
      : Type ℓ where
    pub kept : List Dated
    pub lost : List Dated
    pub parts : ds ≡ kept ++ lost
    pub risk : All (AtRisk aof.sync_policy aof.last_sync) lost
    pub replays : aof_replay mem alloc alloc_val fuel line (after_crash aof) (some hm) ≡ (
        run_commands mem alloc alloc_val fuel 0 (commands_of kept) hm >>= λ hm'.
        done (zero_ok, some hm'))

  -- Commands that fit into a line of the reader are appended to an empty file, and the clock does not
  -- run backwards. If the machine crashes then, and the disk holds what the last `fsync` covered,
  -- `aof_replay` at the next start runs exactly the first of them, in their order. None is lost if the
  -- policy is to sync always; if it is to sync every second, those that are lost were appended in the
  -- second of the last sync.
  pub append_dated-Survives :
      (fuel : ℕ) (line : Bytes) (ds : List Dated) (aof : Aof) (hm : Hashmap K V)
      → aof.file ≡ some []
      → aof.durable ≡ 0
      → Ordered aof.last_sync ds
      → AllCommandsFit (commands_of ds)
      → Survives fuel line ds (append_dated ds aof) hm
  unfolding commands_text
  append_dated-Survives fuel line ds aof hm e synced ordered fit =
      let start : Split aof.sync_policy aof.last_sync [] aof = record {
        kept = [];
        lost = [];
        parts = refl;
        written = e;
        synced = synced;
        risk = tt;
        same = refl;
        past = omega arith;
      } in
      let (end, s) = append_dated-Split aof.sync_policy aof.last_sync [] ds aof start ordered in
      let aof' = append_dated ds aof in
      record {
        kept = s.kept;
        lost = s.lost;
        parts = s.parts;
        risk = subst (λ p. All (AtRisk p aof'.last_sync) s.lost) (sym s.same) s.risk;
        replays =
            ap (λ file. aof_replay mem alloc alloc_val fuel line file (some hm))
              (after_crash-kept aof.sync_policy end ds aof' s)
            ∙ aof_replay-text mem alloc alloc_val fuel line (commands_of s.kept) hm (
                AllCommandsFit-kept s.kept s.lost
                  (subst (λ l. AllCommandsFit (commands_of l)) s.parts fit));
      }
