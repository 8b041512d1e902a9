-- ===== src/Http/Parse/Query.antt =====
-- The parameters of a request line: `parse_params` on the text of a query.
use orca_db.Base.{
  ℕ, zero, suc, ◌+◌, ◌-◌, ◌≤◌, ◌≡◌, ◌∙◌, refl, sym, ap, Bool, true, false, some, List, [], ◌∷◌,
  ◌++◌, Bytes, All, length, length-append, take, drop, take-append, drop-append, ◌==◌, arith,
}
use mathlib.Core.List.{append_assoc}
use mathlib.Core.Path.{ap₂}
use orca_db.Http.Parse.{scan, skip, ends_key, ends_val, is_newline, parse_val, parse_params}
use orca_db.Http.Request.{Span, Param, bytes_of, val_bytes}

-- A word that the test does not end, in one line.
pub record IsWord (stop : ℕ → Bool) (w : Bytes) : Type 0 where
  pub passes : All (λ c. stop c ≡ false) w
  pub one_line : All (λ c. is_newline c ≡ false) w

pub scan-word :
    (stop : ℕ → Bool) (p : ℕ) (w : Bytes) (c : ℕ) (rest : Bytes)
    → All (λ c. stop c ≡ false) w
    → stop c ≡ true
    → scan stop p (w ++ (c ∷ rest)) ≡ (p + length w, c ∷ rest)
unfolding scan
scan-word stop p [] c rest passes ends = rw ends (ap (λ q. (q, c ∷ rest)) (omega arith))
scan-word stop p (x ∷ w) c rest passes ends =
    rw passes.0
      (scan-word stop (p + 1) w c rest passes.1 ends ∙ ap (λ q. (q, c ∷ rest)) (omega arith))

-- `rest` stands in the buffer at `p`, with `behind` behind it.
abbrev pub At : Bytes → Bytes → ℕ → Bytes → Type 0
At buf behind p rest = (before : Bytes) × (buf ≡ before ++ (rest ++ behind)) × (length before ≡ p)

pub At-behind :
    (buf behind : Bytes) (p : ℕ) (xs rest : Bytes)
    → At buf behind p (xs ++ rest)
    → At buf behind (p + length xs) rest
At-behind buf behind p xs rest (before, e, size) = (
  before ++ xs,
  e
      ∙ ap (λ l. before ++ l) (append_assoc xs rest behind)
      ∙ sym (append_assoc before xs (rest ++ behind)),
  omega (arith, size, length-append before xs),
)

pub At-bytes :
    (buf behind : Bytes) (p : ℕ) (w rest : Bytes)
    → At buf behind p (w ++ rest)
    → bytes_of buf (record { start = p; len = length w }) ≡ w
At-bytes buf behind p w rest (before, e, size) =
    ap (λ b. take (length w) (drop p b)) e
    ∙ ap (take (length w)) (drop-append p before ((w ++ rest) ++ behind) size)
    ∙ ap (take (length w)) (append_assoc w rest behind)
    ∙ take-append (length w) w (rest ++ behind) refl

-- k=v&k=v…, with `end` behind it.
unfoldable pub query : List (Bytes × Bytes) → Bytes → Bytes
query [] end = end
query ((k, v) ∷ []) end = k ++ (61 ∷ (v ++ end))
query ((k, v) ∷ p ∷ ps) end = k ++ (61 ∷ (v ++ (38 ∷ query (p ∷ ps) end)))

-- The span is one of this word.
abbrev pub Reads : Bytes → Span → Bytes → Type 0
Reads buf span w = (span.len ≡ length w) × (bytes_of buf span ≡ w)

-- The parameters are spans of these keys and values.
abbrev pub Spell : Bytes → List Param → List (Bytes × Bytes) → Type 0
Spell buf [] [] = Unit
Spell buf [] (p ∷ ps) = ⊥
Spell buf (q ∷ params) [] = ⊥
Spell buf (q ∷ params) ((k, v) ∷ ps) =
    Reads buf q.key k × (val_bytes buf q ≡ v) × Spell buf params ps

abbrev pub AllWords : List (Bytes × Bytes) → Type 0
AllWords [] = Unit
AllWords ((k, v) ∷ ps) = IsWord ends_key k × IsWord ends_val v × AllWords ps

-- One parameter, up to what ends its value.
abbrev one_param : ℕ → Bytes → Bytes → Param
one_param p k v = record {
  key = record { start = p; len = length k };
  val = some (record { start = p + length k + 1; len = length v });
}

abbrev parse_more : ℕ → ℕ × Bytes → List Param × ℕ × Bytes
parse_more left (p, rest) = let (p', rest') = skip b'&' p rest in parse_params left p' rest'

-- The parameter whose key ends at `p₁` and whose value ends at `p₂`, and those behind it.
abbrev with_param : ℕ → ℕ → ℕ → ℕ × Bytes → List Param × ℕ × Bytes
with_param left p p₁ (p₂, rest) =
    let (params, p₃, rest₃) = parse_more left (p₂, rest) in
    (
      record {
        key = record { start = p; len = p₁ - p };
        val = some (record { start = p₁ + 1; len = p₂ - (p₁ + 1) });
      }
          ∷ params,
      p₃,
      rest₃,
    )

-- What `parse_params` does once the key is scanned.
abbrev after_key : ℕ → ℕ → ℕ × Bytes → List Param × ℕ × Bytes
after_key left p (p₁, rest₁) =
    let (val, p₂, rest₂) = parse_val p₁ rest₁ in
    let (params, p₃, rest₃) = parse_more left (p₂, rest₂) in
    (record { key = record { start = p; len = p₁ - p }; val = val } ∷ params, p₃, rest₃)

parse_params-key :
    (left p c : ℕ) (rest : Bytes)
    → (c == b' ') ≡ false
    → parse_params (suc left) p (c ∷ rest) ≡ after_key left p (scan ends_key p (c ∷ rest))
unfolding parse_params
parse_params-key left p c rest e = rw e refl

parse_params-scan :
    (left p : ℕ) (k rest : Bytes)
    → IsWord ends_key k
    → parse_params (suc left) p (k ++ (61 ∷ rest)) ≡ after_key left p (p + length k, 61 ∷ rest)
parse_params-scan left p [] rest word =
    parse_params-key left p 61 rest refl
    ∙ ap (after_key left p) (scan-word ends_key p [] 61 rest tt refl)
parse_params-scan left p (x ∷ k) rest word =
    parse_params-key left p x (k ++ (61 ∷ rest)) (not_space x word.passes.0)
    ∙ ap (after_key left p) (scan-word ends_key p (x ∷ k) 61 rest word.passes refl)
  where
    not_space : (x : ℕ) → ends_key x ≡ false → (x == b' ') ≡ false
    not_space x h = ground (arith, h)

parse_params-step :
    (left p c : ℕ) (k v rest : Bytes)
    → IsWord ends_key k
    → IsWord ends_val v
    → ends_val c ≡ true
    → parse_params (suc left) p (k ++ (61 ∷ (v ++ (c ∷ rest)))) ≡ (
        let (params, p', rest') = parse_more left (p + length k + 1 + length v, c ∷ rest) in
        (one_param p k v ∷ params, p', rest'))
unfolding parse_val
parse_params-step left p c k v rest key value ends =
    let p₁ = p + length k in
    let next = parse_more left (p₁ + 1 + length v, c ∷ rest) in
    let spans : ℕ → ℕ → List Param × ℕ × Bytes = λ n m. (
      record {
        key = record { start = p; len = n };
        val = some (record { start = p₁ + 1; len = m });
      }
          ∷ next.0,
      next.1,
      next.2,
    ) in
    parse_params-scan left p k (v ++ (c ∷ rest)) key
    ∙ ap (with_param left p p₁) (scan-word ends_val (p₁ + 1) v c rest value.passes ends)
    ∙ ap₂ spans (omega arith) (omega arith)

parse_params-end :
    (left p : ℕ) (rest : Bytes) → parse_params left p (32 ∷ rest) ≡ ([], p, 32 ∷ rest)
unfolding parse_params
parse_params-end zero p rest = refl
parse_params-end (suc left) p rest = refl

module _ (buf behind : Bytes) where
  one_param-Spell :
      (p : ℕ) (k v rest : Bytes)
      → At buf behind p (k ++ (61 ∷ (v ++ rest)))
      → Reads buf (one_param p k v).key k
        × (val_bytes buf (one_param p k v) ≡ v)
        × At buf behind (p + length k + 1 + length v) rest
  one_param-Spell p k v rest at =
      let at_equals = At-behind buf behind p k (61 ∷ (v ++ rest)) at in
      let at_value = At-behind buf behind (p + length k) (61 ∷ []) (v ++ rest) at_equals in
      (
        (refl, At-bytes buf behind p k (61 ∷ (v ++ rest)) at),
        At-bytes buf behind (p + length k + 1) v rest at_value,
        At-behind buf behind (p + length k + 1) v rest at_value,
      )

  -- The parameters of a query are read as its keys and values, up to the blank behind them.
  pub parse_params-query :
      (left p : ℕ) (ps : List (Bytes × Bytes)) (rest : Bytes)
      → length ps ≤ left
      → AllWords ps
      → At buf behind p (query ps (32 ∷ rest))
      → (params : List Param) × (p' : ℕ) × (parse_params left p (query ps (32 ∷ rest))
          ≡ (params, p', 32 ∷ rest))
        × Spell buf params ps
        × At buf behind p' (32 ∷ rest)
  unfolding query skip
  parse_params-query left p [] rest fits words at = ([], p, parse_params-end left p rest, tt, at)
  parse_params-query zero p ((k, v) ∷ ps) rest fits words at = absurd (omega arith)
  parse_params-query (suc left) p ((k, v) ∷ []) rest fits words at =
      let (key, value, at') = one_param-Spell p k v (32 ∷ rest) at in
      let p' = p + length k + 1 + length v in
      (
        one_param p k v ∷ [],
        p',
        parse_params-step left p 32 k v rest words.0 words.1 refl
            ∙ ap (λ r. (one_param p k v ∷ r.0, r.1, r.2)) (parse_params-end left p' rest),
        (key, value, tt),
        at',
      )
  parse_params-query (suc left) p ((k, v) ∷ q ∷ ps) rest fits words at =
      let more = query (q ∷ ps) (32 ∷ rest) in
      let (key, value, at') = one_param-Spell p k v (38 ∷ more) at in
      let p' = p + length k + 1 + length v in
      let (params, p₂, run, spell, at₂) =
        parse_params-query left (p' + 1) (q ∷ ps) rest (omega arith) words.2
          (At-behind buf behind p' (38 ∷ []) more at') in
      (
        one_param p k v ∷ params,
        p₂,
        parse_params-step left p 38 k v more words.0 words.1 refl
            ∙ ap (λ r. (one_param p k v ∷ r.0, r.1, r.2)) run,
        (key, value, spell),
        at₂,
      )
