-- ===== src/CText/Integers.antt =====
-- Numbers written in base 10, and the reading of them as an `int`.
use kumf.Base.{
  ℕ, suc, ◌-◌, ◌^◌, ◌%◌, ◌<◌, ◌≡◌, min, refl, false, true, List, [], ◌∷◌, ◌++◌, some, length, arith,
}
use kumf.Base.Int.{pos, signed32}
use native.Mathlib.Nat.{mod-eq_of_lt}
use kumf.CText.{is_digit, starts_digit, skip_space, read_sign, atoi, scan_int}
use kumf.CText.Numeral.{
  IsDigits, numeral, numeral-IsDigits, numeral_some, digit-solid, digit-unsigned, read_whole,
}

-- A run of digits is read from its first one on.
digits_start :
    (ds : List ℕ) (c : ℕ) (s : List ℕ)
    → IsDigits 10 ds
    → 0 < length ds
    → (read_sign (skip_space (ds ++ c ∷ s)) ≡ (false, ds ++ c ∷ s))
      × (starts_digit 10 (ds ++ c ∷ s) ≡ true)
unfolding skip_space read_sign
digits_start [] c s h some_digit = absurd (omega arith)
digits_start (d ∷ ds) c s h some_digit =
    (ground (arith, digit-solid 10 d (omega arith) h.0, digit-unsigned 10 d (omega arith) h.0), h.0)

wrapped : (n : ℕ) → n < 2 ^ 31 → n % 2 ^ 32 ≡ n
wrapped n h = mod-eq_of_lt (omega arith)

signed32_small : (n : ℕ) → n < 2 ^ 31 → signed32 (min n (2 ^ 63 - 1)) ≡ pos n
unfolding signed32
signed32_small n h = ground (arith, wrapped n h)

pub atoi-numeral :
    (fuel n c : ℕ) (s : List ℕ)
    → n < 10 ^ suc fuel
    → n < 2 ^ 31
    → is_digit 10 c ≡ false
    → atoi (numeral 10 (suc fuel) n [] ++ c ∷ s) ≡ pos n
unfolding atoi
atoi-numeral fuel n c s fits small ends =
    let ds = numeral 10 (suc fuel) n [] in
    let read = read_whole 10 fuel n c s (omega arith) (omega arith) fits ends in
    let (start, _) =
      digits_start ds c s (numeral-IsDigits 10 (omega arith) (omega arith) (suc fuel) n [] tt)
        (ground (arith, numeral_some 10 (omega arith) (omega arith) fuel n [])) in
    rw start (rw read (signed32_small n small))

pub scan_int-numeral :
    (fuel n c : ℕ) (s : List ℕ)
    → n < 10 ^ suc fuel
    → n < 2 ^ 31
    → is_digit 10 c ≡ false
    → scan_int (numeral 10 (suc fuel) n [] ++ c ∷ s) ≡ some (pos n)
unfolding scan_int
scan_int-numeral fuel n c s fits small ends =
    let ds = numeral 10 (suc fuel) n [] in
    let (start, digit) =
      digits_start ds c s (numeral-IsDigits 10 (omega arith) (omega arith) (suc fuel) n [] tt)
        (ground (arith, numeral_some 10 (omega arith) (omega arith) fuel n [])) in
    let n_read = atoi-numeral fuel n c s fits small ends in rw (start, digit, n_read) refl
