-- ===== src/CText.antt =====
-- What the sources use of the C library's functions on text, over lists of bytes without the
-- terminating 0: `fgets`, the conversions of `sscanf`, `atoi`, `strtoul`, `strtok`, `strchr` and
-- the comparisons. Bytes are those of the "C" locale.
pub mod Numeral
pub mod Integers
pub mod Lines
use Prim.Native.Char.{code}
use Prim.Native.String.{String}
use kumf.Base.{
  ℕ, zero, suc, ◌+◌, ◌-◌, ◌*◌, ◌^◌, ◌%◌, min, ltb, leb, ◌==◌, if◌then◌else◌, Bool, true, false,
  ◌&&◌, ◌||◌, List, [], ◌∷◌, Option, none, some,
}
use kumf.Base.Int.{ℤ, signed32}

abbrev pub codes : String → List ℕ
codes String.[] = []
codes (String.◌∷◌ c s) = code c ∷ codes s

unfoldable pub is_space : ℕ → Bool
is_space c = c == 32 || (leb 9 c && leb c 13)

unfoldable pub skip_space : List ℕ → List ℕ
skip_space [] = []
skip_space (c ∷ s) = if is_space c then skip_space s else c ∷ s

-- The value of a digit, 99 for any other byte.
unfoldable pub digit_value : ℕ → ℕ
digit_value c =
    if leb 48 c && leb c 57
    then c - 48
    else if leb 97 c && leb c 122
    then c - 87
    else if leb 65 c && leb c 90
    then c - 55
    else 99

unfoldable pub is_digit : ℕ → ℕ → Bool
is_digit base c = ltb (digit_value c) base

-- The number that a run of digits stands for, after those already read, and what follows the run.
unfoldable pub read_digits : ℕ → ℕ → List ℕ → ℕ × List ℕ
read_digits base acc [] = (acc, [])
read_digits base acc (c ∷ s) =
    let rest = read_digits base (acc * base + digit_value c) s in
    if is_digit base c then rest else (acc, c ∷ s)

abbrev pub starts_digit : ℕ → List ℕ → Bool
starts_digit base [] = false
starts_digit base (c ∷ s) = is_digit base c

-- Text that begins with the given bytes, which are taken off.
unfoldable pub strip : List ℕ → List ℕ → Option (List ℕ)
strip [] s = some s
strip (p ∷ ps) [] = none
strip (p ∷ ps) (c ∷ s) = let rest = strip ps s in if p == c then rest else none

-- An optional sign: whether it is `-`, and what follows.
unfoldable pub read_sign : List ℕ → Bool × List ℕ
read_sign [] = (false, [])
read_sign (c ∷ s) = if c == 45 then (true, s) else if c == 43 then (false, s) else (false, c ∷ s)

-- The prefix `0x` or `0X`, where a number in base 16 may have it.
unfoldable pub strip_hex_prefix : List ℕ → List ℕ
strip_hex_prefix (z ∷ x ∷ s) = if z == 48 && (x == 120 || x == 88) then s else z ∷ x ∷ s
strip_hex_prefix s = s

abbrev pub ulong_mod : ℕ
ulong_mod = 2 ^ 64

-- An unsigned long: past its range it is `ULONG_MAX`, with a minus sign it is negated.
unfoldable pub to_ulong : Bool → ℕ → ℕ
to_ulong negative n =
    if leb ulong_mod n then ulong_mod - 1 else if negative then (ulong_mod - n) % ulong_mod else n

-- `%zu` (base 10) and `%lx` (base 16): white space, a sign, at least one digit.
unfoldable pub scan_unsigned : ℕ → List ℕ → Option (ℕ × List ℕ)
unfolding read_sign strip_hex_prefix to_ulong skip_space
scan_unsigned base s =
    let (negative, t) = read_sign (skip_space s) in
    let digits = if base == 16 then strip_hex_prefix t else t in
    let (n, rest) = read_digits base 0 digits in
    if starts_digit base digits then some (to_ulong negative n, rest) else none

unfoldable pub take_word : ℕ → List ℕ → List ℕ × List ℕ
take_word zero s = ([], s)
take_word (suc n) [] = ([], [])
take_word (suc n) (c ∷ s) =
    let rest = take_word n s in if is_space c then ([], c ∷ s) else (c ∷ rest.0, rest.1)

-- `%<n>s`: white space, then at least one and at most n bytes that are not white space.
unfoldable pub scan_word : ℕ → List ℕ → Option (List ℕ × List ℕ)
unfolding skip_space
scan_word n s =
    let (w, rest) = take_word n (skip_space s) in
    elim w [ [] ↦ none | c ∷ cs ↦ some (c ∷ cs, rest) ]

infixl 5 ◌>>=◌
abbrev pub ◌>>=◌ {ℓ κ} : {A : Type ℓ} {B : Type κ} → Option A → (A → Option B) → Option B
none >>= f = none
some a >>= f = f a

-- The part ` = %31s` that ends every rule.
unfoldable pub scan_node : List ℕ → Option (List ℕ)
unfolding skip_space
scan_node s = do t ← strip (codes "=") (skip_space s); (w, rest) ← scan_word 31 t; some w

-- `atoi`: `strtol` in base 10, which stops at the ends of `long`, cut to an `int`.
unfoldable pub atoi : List ℕ → ℤ
unfolding read_sign skip_space
atoi s =
    let (negative, t) = read_sign (skip_space s) in
    let n = (read_digits 10 0 t).0 in
    if negative then signed32 (ulong_mod - min n (2 ^ 63)) else signed32 (min n (2 ^ 63 - 1))

-- `%d`: white space, a sign, at least one digit, read as by `atoi`.
unfoldable pub scan_int : List ℕ → Option ℤ
unfolding read_sign skip_space
scan_int s = if starts_digit 10 (read_sign (skip_space s)).1 then some (atoi s) else none

-- `strtoul(s, NULL, 16)`
unfoldable pub strtoul_hex : List ℕ → ℕ
unfolding read_sign strip_hex_prefix to_ulong skip_space
strtoul_hex s =
    let (negative, t) = read_sign (skip_space s) in
    to_ulong negative (read_digits 16 0 (strip_hex_prefix t)).0

-- `strcmp(a, b) == 0`
unfoldable pub text_eq : List ℕ → List ℕ → Bool
text_eq [] [] = true
text_eq [] (c ∷ t) = false
text_eq (c ∷ s) [] = false
text_eq (c ∷ s) (d ∷ t) = c == d && text_eq s t

-- `strncmp(a, b, n) == 0`: the terminating 0 is compared too, if it stands among the first n.
unfoldable pub text_eq_upto : ℕ → List ℕ → List ℕ → Bool
text_eq_upto zero s t = true
text_eq_upto (suc n) [] [] = true
text_eq_upto (suc n) [] (d ∷ t) = false
text_eq_upto (suc n) (c ∷ s) [] = false
text_eq_upto (suc n) (c ∷ s) (d ∷ t) = c == d && text_eq_upto n s t

-- The bytes before the first `c`, and those after it where there is one.
unfoldable pub split_at : ℕ → List ℕ → List ℕ × Option (List ℕ)
split_at c [] = ([], none)
split_at c (d ∷ s) =
    let rest = split_at c s in if d == c then ([], some s) else (d ∷ rest.0, rest.1)

-- the text up to a terminating 0
unfoldable pub c_string : List ℕ → List ℕ
unfolding split_at
c_string s = (split_at 0 s).0

-- One `fgets(line, n + 1, f)`: a line with its newline, or n bytes.
unfoldable pub fgets : ℕ → List ℕ → List ℕ × List ℕ
fgets zero s = ([], s)
fgets (suc n) [] = ([], [])
fgets (suc n) (c ∷ s) =
    let rest = fgets n s in if c == 10 then (c ∷ [], s) else (c ∷ rest.0, rest.1)

-- The lines that repeated calls of `fgets` read, with fuel.
unfoldable pub read_lines : ℕ → ℕ → List ℕ → List (List ℕ)
read_lines n zero s = []
read_lines n (suc fuel) [] = []
read_lines n (suc fuel) (c ∷ s) = let r = fgets n (c ∷ s) in r.0 ∷ read_lines n fuel r.1

-- The text between the delimiters `d`: the first piece, and the others.
unfoldable pub pieces : ℕ → List ℕ → List ℕ × List (List ℕ)
pieces d [] = ([], [])
pieces d (c ∷ s) =
    let rest = pieces d s in if c == d then ([], rest.0 ∷ rest.1) else (c ∷ rest.0, rest.1)

unfoldable pub drop_empty : List (List ℕ) → List (List ℕ)
drop_empty [] = []
drop_empty ([] ∷ ws) = drop_empty ws
drop_empty ((c ∷ w) ∷ ws) = (c ∷ w) ∷ drop_empty ws

-- The tokens that repeated calls of `strtok` with the one delimiter `d` return.
unfoldable pub tokens : ℕ → List ℕ → List (List ℕ)
unfolding pieces drop_empty
tokens d s = let (w, ws) = pieces d s in drop_empty (w ∷ ws)
