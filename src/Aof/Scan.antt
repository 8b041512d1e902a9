-- ===== src/Aof/Scan.antt =====
-- What `aof_replay` uses of stdio and string.h, on a buffer of which `rest` is the part behind a
-- pointer: running off its end is a fault.
use orca_db.Base.{
  ℕ, zero, suc, ◌+◌, ◌-◌, ◌*◌, ◌^◌, Bool, true, false, not, ◌&&◌, ◌||◌, Option, none, some, [], ◌∷◌,
  ◌++◌, Bytes, length, take, drop, ltb, leb, ◌==◌, if◌then◌else◌, Run, done, fault, ◌>>=◌,
}

-- `isspace`
abbrev pub is_space : ℕ → Bool
is_space c = c == 32 || (leb 9 c && leb c 13)

abbrev pub is_digit : ℕ → Bool
is_digit c = leb b'0' c && leb c b'9'

unfoldable pub skip_space : Bytes → Run Bytes
skip_space [] = fault
skip_space (c ∷ rest) = let more = skip_space rest in if is_space c then more else done (c ∷ rest)

-- The characters of `%15s`, at most `n` of them.
unfoldable pub word : ℕ → Bytes → Run Bytes
word zero rest = done []
word (suc n) [] = fault
word (suc n) (c ∷ rest) =
    let more = word n rest >>= λ w. done (c ∷ w) in if is_space c || c == 0 then done [] else more

unfoldable pub scan_word : Bytes → Run Bytes
unfolding skip_space word
scan_word rest = skip_space rest >>= word 15

-- The digits of `%zu`; a value above SIZE_MAX is undefined.
unfoldable pub number : ℕ → Bytes → Run ℕ
number n [] = fault
number n (c ∷ rest) =
    let more = number (n * 10 + (c - b'0')) rest in
    if not (is_digit c) then done n else if leb (2 ^ 64) (n * 10 + (c - b'0')) then fault else more

-- At least one digit, with the sign that stands before it.
unfoldable pub number_or_none : Bool → Bytes → Run (Option ℕ)
unfolding number
number_or_none minus [] = fault
number_or_none minus (c ∷ rest) =
    let value =
      number 0 (c ∷ rest) >>= λ n. done (some (if minus && not (n == 0) then 2 ^ 64 - n else n)) in
    if is_digit c then value else done none

unfoldable pub signed : Bytes → Run (Option ℕ)
unfolding number_or_none
signed [] = fault
signed (c ∷ rest) =
    if c == b'-'
    then number_or_none true rest
    else if c == b'+'
    then number_or_none false rest
    else number_or_none false (c ∷ rest)

-- `sscanf(p, "%zu", …)`: `none` if it does not return 1.
unfoldable pub scan_size : Bytes → Run (Option ℕ)
unfolding skip_space signed
scan_size rest = skip_space rest >>= signed

-- `strchr(p, ' ') + 1`; without a space it is no pointer.
unfoldable pub after_space : Bytes → Run Bytes
after_space [] = fault
after_space (c ∷ rest) =
    let more = after_space rest in if c == 32 then done rest else if c == 0 then fault else more

-- `memcpy` of `n` bytes
unfoldable pub copy : ℕ → Bytes → Run Bytes
copy n rest = if ltb (length rest) n then fault else done (take n rest)

-- The bytes that `fgets` takes, and the rest: up to a newline, and at most `n`.
unfoldable pub fgets_bytes : ℕ → Bytes → Bytes × Bytes
fgets_bytes zero file = ([], file)
fgets_bytes (suc n) [] = ([], [])
fgets_bytes (suc n) (c ∷ file) =
    let (got, rest) = fgets_bytes n file in if c == 10 then (c ∷ [], file) else (c ∷ got, rest)

-- `fgets` into `line`, which keeps its bytes behind the NUL; `none` at the end of the file.
unfoldable pub fgets : Bytes → Bytes → Option (Bytes × Bytes)
unfolding fgets_bytes
fgets line [] = none
fgets line (c ∷ file) =
    let (got, rest) = fgets_bytes 4095 (c ∷ file) in
    some (got ++ (0 ∷ drop (length got + 1) line), rest)
