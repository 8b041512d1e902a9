-- ===== src/Aof/Roundtrip.antt =====
-- `aof_replay` of a line that `aof_append_set` has written.
use orca_db.Base.{
  ℕ, suc, ◌+◌, ◌^◌, ◌<◌, ◌≡◌, ◌≢◌, refl, ap, ◌∙◌, some, [], ◌∷◌, ◌++◌, Bytes, length, length-append,
  drop, take-append, le→ltb, Run, done, ◌>>=◌, bind_done, arith,
}
use mathlib.Core.List.{append_assoc}
use orca_db.Aof.{digits, set_word, set_prefix, set_line}
use orca_db.Aof.Digits.{AllDigits, scan_size-digits_of, digits-AllDigits}
use orca_db.Aof.Line.{OneLine, OneLine-append}
use orca_db.Aof.Replay.{replay_value, replay_set, replay_line}
use orca_db.Aof.Scan.{scan_word, scan_size, after_space, copy}
use orca_db.Hashmap.{Hashmap, hm_insert}

pub copy-append : (xs ys : Bytes) → copy (length xs) (xs ++ ys) ≡ done xs
unfolding copy
copy-append xs ys =
    rw (le→ltb (length (xs ++ ys)) (length xs) (omega (arith, length-append xs ys)))
      (rw (take-append (length xs) xs ys refl) refl)

drop_suc-append : (xs ys : Bytes) (c : ℕ) → drop (length xs + 1) (xs ++ (c ∷ ys)) ≡ ys
drop_suc-append [] ys c = refl
drop_suc-append (x ∷ xs) ys c =
    let e : suc (length xs) + 1 ≡ suc (length xs + 1) = omega arith in
    ap (λ n. drop n (x ∷ (xs ++ (c ∷ ys)))) e ∙ drop_suc-append xs ys c

-- Behind "SET ", with `t` behind the value.
abbrev pub behind : Bytes → Bytes → Bytes → Bytes
behind key value t =
    digits (length key) ++ (32 ∷ (key ++ (32 ∷ (digits (length value) ++ (32 ∷ (value ++ t))))))

pub behind-append : (key value t u : Bytes) → behind key value t ++ u ≡ behind key value (t ++ u)
behind-append key value t u =
    append_assoc (digits (length key)) _ u
    ∙ ap (λ l. digits (length key) ++ (32 ∷ l))
        (append_assoc key _ u
          ∙ ap (λ l. key ++ (32 ∷ l))
              (append_assoc (digits (length value)) _ u
                ∙ ap (λ l. digits (length value) ++ (32 ∷ l)) (append_assoc value t u)))

pub set_line-behind :
    (key value : Bytes) → set_line key value ≡ set_word ++ behind key value (10 ∷ [])
unfolding set_line set_prefix
set_line-behind key value =
    ap (λ l. set_word ++ l)
      (append_assoc (digits (length key)) _ (value ++ (10 ∷ []))
        ∙ ap (λ l. digits (length key) ++ (32 ∷ l))
            (append_assoc key _ (value ++ (10 ∷ []))
              ∙ ap (λ l. key ++ (32 ∷ l))
                  (append_assoc (digits (length value)) _ (value ++ (10 ∷ [])))))

pub digits-OneLine : (cs : Bytes) → AllDigits cs → OneLine cs
digits-OneLine [] h = tt
digits-OneLine (c ∷ cs) h = ((λ e. omega (arith, e, h)), digits-OneLine cs h.2)

pub behind-OneLine :
    (key value : Bytes) → OneLine key → OneLine value → OneLine (behind key value [])
behind-OneLine key value k v =
    let gap : (32 ≢ 10) = λ e. omega (arith, e) in
    OneLine-append (digits (length key)) _ (digits-OneLine _ (digits-AllDigits (length key))) (
      gap,
      OneLine-append key _ k (
        gap,
        OneLine-append (digits (length value)) _
            (digits-OneLine _ (digits-AllDigits (length value)))
            (gap, OneLine-append value [] v tt),
      ),
    )

module _ {ℓ} {K V : Type ℓ} (mem : ℕ → K → Bytes) (alloc : ℕ → Bytes → K)
    (alloc_val : ℕ → Bytes → V) where
  -- The insert that a set command stands for.
  abbrev pub insert_copy : ℕ → ℕ → Bytes → Bytes → Hashmap K V → Run (Hashmap K V)
  insert_copy fuel i key value hm =
      hm_insert (mem i) fuel hm (some (alloc i key)) (some (alloc_val i value)) (length value)
      >>= λ r. done r.1

  module _ (fuel i : ℕ) (key value t : Bytes) (hm : Hashmap K V) (short_key : length key < 2 ^ 64)
      (short_value : length value < 2 ^ 64) where
    -- Where the value length stands.
    abbrev val_part : Bytes
    val_part = digits (length value) ++ (32 ∷ (value ++ t))

    replay_value-behind :
        replay_value mem alloc alloc_val fuel i key val_part hm (some (length value))
        ≡ insert_copy fuel i key value hm
    unfolding replay_value
    replay_value-behind =
        let insert = λ (v : Bytes).
          hm_insert (mem i) fuel hm (some (alloc i key)) (some (alloc_val i v)) (length value)
          >>= λ r. done r.1 in
        bind_done (after_space val_part) (value ++ t) (λ q. copy (length value) q >>= insert)
          (scan_size-digits_of (length value) (value ++ t) short_value).1
        ∙ bind_done (copy (length value) (value ++ t)) value insert (copy-append value t)

    replay_set-behind :
        replay_set mem alloc alloc_val fuel i (behind key value t) hm (some (length key))
        ≡ insert_copy fuel i key value hm
    unfolding replay_set
    replay_set-behind =
        let q = key ++ (32 ∷ val_part) in
        let rest_of = λ (k : Bytes).
          scan_size (drop (length key + 1) q)
          >>= replay_value mem alloc alloc_val fuel i k (drop (length key + 1) q) hm in
        bind_done (after_space (behind key value t)) q
          (λ q'. copy (length key) q' >>= λ k.
            scan_size (drop (length key + 1) q')
            >>= replay_value mem alloc alloc_val fuel i k (drop (length key + 1) q') hm)
          (scan_size-digits_of (length key) q short_key).1
        ∙ bind_done (copy (length key) q) key rest_of (copy-append key (32 ∷ val_part))
        ∙ ap (λ l. scan_size l >>= replay_value mem alloc alloc_val fuel i key l hm)
            (drop_suc-append key val_part 32)
        ∙ bind_done (scan_size val_part) (some (length value))
            (replay_value mem alloc alloc_val fuel i key val_part hm)
            (scan_size-digits_of (length value) (value ++ t) short_value).0
        ∙ replay_value-behind

    pub replay_line-behind :
        (scan_word (set_word ++ behind key value t)
          >>= replay_line mem alloc alloc_val fuel i (set_word ++ behind key value t) hm)
        ≡ insert_copy fuel i key value hm
    unfolding replay_line scan_word
    replay_line-behind =
        bind_done (scan_size (behind key value t)) (some (length key))
          (replay_set mem alloc alloc_val fuel i (behind key value t) hm)
          (scan_size-digits_of (length key) (key ++ (32 ∷ val_part)) short_key).0
        ∙ replay_set-behind
