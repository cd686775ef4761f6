-- ===== src/CText/Numeral.antt =====
-- Numbers written in base 10 or 16, and the reading of them by `%zu` and `%lx`.
use kumf.Base.{
  ℕ, zero, suc, ◌+◌, ◌*◌, ◌/◌, ◌%◌, ◌^◌, ◌<◌, ◌≤◌, ◌≡◌, refl, sym, ap, ◌∙◌, ◌==◌, ltb, ◌||◌,
  if◌then◌else◌, true, false, List, [], ◌∷◌, ◌++◌, some, length, All, arith, Bool-cases, if_cases,
  inl, inr,
}
use mathlib.Core.List.{append_assoc}
use native.Mathlib.Nat.{pow-zero, pow-suc, div-lt_iff_lt-mul, div-add-mod', mod-lt}
use kumf.CText.{
  is_space, skip_space, digit_value, is_digit, read_digits, read_sign, strip_hex_prefix, ulong_mod,
  to_ulong, scan_unsigned,
}

abbrev pub digit_char : ℕ → ℕ
digit_char d = if ltb d 10 then 48 + d else 87 + d

-- The digits of a number below base ^ fuel, at least one where there is fuel, before `tail`.
unfoldable pub numeral : ℕ → ℕ → ℕ → List ℕ → List ℕ
numeral base zero n tail = tail
numeral base (suc fuel) n tail =
    let more = numeral base fuel (n / base) (digit_char (n % base) ∷ tail) in
    if ltb n base then digit_char n ∷ tail else more

digit_value_char : (d : ℕ) → d < 16 → digit_value (digit_char d) ≡ d
unfolding digit_value
digit_value_char d h = ground arith

module _ (base : ℕ) (low : 0 < base) (high : base ≤ 16) where
  read_digit :
      (acc d : ℕ) (tail : List ℕ)
      → d < base
      → read_digits base acc (digit_char d ∷ tail) ≡ read_digits base (acc * base + d) tail
  unfolding read_digits is_digit
  read_digit acc d tail h = rw (digit_value_char d (omega arith)) (ground arith)

  read_last :
      (n : ℕ) (tail : List ℕ)
      → n < base
      → read_digits base 0 (digit_char n ∷ tail) ≡ read_digits base n tail
  read_last n tail h = read_digit 0 n tail h ∙ ap (λ k. read_digits base k tail) (omega arith)

  read_numeral :
      (fuel n : ℕ) (tail : List ℕ)
      → n < base ^ suc fuel
      → read_digits base 0 (numeral base (suc fuel) n tail) ≡ read_digits base n tail
  unfolding numeral
  read_numeral zero n tail h =
      let small : ltb n base ≡ true = ground (arith, pow-suc base 0, pow-zero base) in
      rw small (read_last n tail (ground arith))
  read_numeral (suc fuel) n tail h = elim (Bool-cases (ltb n base)) [
    | inl small ↦ rw small (read_last n tail (ground arith))
    | inr large ↦
        let less : n / base < base ^ suc fuel =
          (div-lt_iff_lt-mul low).1 (rw (pow-suc base (suc fuel)) at h) in
        let all : n / base * base + n % base ≡ n = div-add-mod' n base in
        rw large (
          read_numeral fuel (n / base) (digit_char (n % base) ∷ tail) less
          ∙ read_digit (n / base) (n % base) tail (mod-lt n low)
          ∙ ap (λ k. read_digits base k tail) all)
  ]

-- A text of digits alone.
abbrev pub IsDigits : ℕ → List ℕ → Type 0
IsDigits base = All (λ c. is_digit base c ≡ true)

-- A text without white space, and so without the end of a line.
abbrev pub IsSolid : List ℕ → Type 0
IsSolid = All (λ c. is_space c ≡ false)

module _ (base : ℕ) (low : 0 < base) (high : base ≤ 16) where
  pub numeral-IsDigits :
      (fuel n : ℕ) (tail : List ℕ) → IsDigits base tail → IsDigits base (numeral base fuel n tail)
  unfolding numeral is_digit
  numeral-IsDigits zero n tail h = h
  numeral-IsDigits (suc fuel) n tail h =
      if_cases (IsDigits base) (ltb n base)
        (λ small. (rw (digit_value_char n (ground arith)) (small), h))
        (λ _.
          let d = mod-lt n low in
          numeral-IsDigits fuel (n / base) _
            ((rw (digit_value_char (n % base) (omega arith)) (ground arith)), h))

  numeral-append :
      (fuel n : ℕ) (tail : List ℕ) → numeral base fuel n tail ≡ numeral base fuel n [] ++ tail
  unfolding numeral
  numeral-append zero n tail = refl
  numeral-append (suc fuel) n tail = elim (Bool-cases (ltb n base)) [
    | inl small ↦ rw small refl
    | inr large ↦ rw large (
        numeral-append fuel (n / base) (digit_char (n % base) ∷ tail)
        ∙ sym (
            ap (λ ds. ds ++ tail) (numeral-append fuel (n / base) (digit_char (n % base) ∷ []))
            ∙ append_assoc (numeral base fuel (n / base) []) (digit_char (n % base) ∷ []) tail))
  ]

  pub length-numeral :
      (fuel n : ℕ) (tail : List ℕ) → length (numeral base fuel n tail) ≤ fuel + length tail
  unfolding numeral
  length-numeral zero n tail = omega arith
  length-numeral (suc fuel) n tail =
      ground (arith, length-numeral fuel (n / base) (digit_char (n % base) ∷ tail))

  pub numeral_some :
      (fuel n : ℕ) (tail : List ℕ) → length tail < length (numeral base (suc fuel) n tail)
  unfolding numeral
  numeral_some zero n tail = ground arith
  numeral_some (suc fuel) n tail =
      ground (arith, numeral_some fuel (n / base) (digit_char (n % base) ∷ tail))

pub digit-solid : (base c : ℕ) → base ≤ 16 → is_digit base c ≡ true → is_space c ≡ false
unfolding is_space is_digit digit_value
digit-solid base c high h = ground arith

pub digit-unsigned :
    (base c : ℕ) → base ≤ 16 → is_digit base c ≡ true → (c == 45 || c == 43) ≡ false
unfolding is_digit digit_value
digit-unsigned base c high h = ground arith

digit-no_x : (base c : ℕ) → base ≤ 16 → is_digit base c ≡ true → (c == 120 || c == 88) ≡ false
unfolding is_digit digit_value
digit-no_x base c high h = ground arith

pub IsDigits-IsSolid : (base : ℕ) (ds : List ℕ) → base ≤ 16 → IsDigits base ds → IsSolid ds
IsDigits-IsSolid base [] high h = tt
IsDigits-IsSolid base (d ∷ ds) high h =
    (digit-solid base d high h.0, IsDigits-IsSolid base ds high h.1)

scan_plain :
    (base c : ℕ) (s : List ℕ)
    → base ≤ 16
    → is_digit base c ≡ true
    → strip_hex_prefix (c ∷ s) ≡ c ∷ s
    → let r = read_digits base 0 (c ∷ s) in
      scan_unsigned base (c ∷ s) ≡ some (to_ulong false r.0, r.1)
unfolding scan_unsigned skip_space read_sign
scan_plain base c s high h plain =
    ground (arith, digit-solid base c high h, digit-unsigned base c high h)

-- A run of digits that neither a digit nor an `x` follows.
scan_digits :
    (base : ℕ) (ds : List ℕ) (c : ℕ) (s : List ℕ)
    → base ≤ 16
    → IsDigits base ds
    → 0 < length ds
    → (c == 120 || c == 88) ≡ false
    → let r = read_digits base 0 (ds ++ c ∷ s) in
      scan_unsigned base (ds ++ c ∷ s) ≡ some (to_ulong false r.0, r.1)
unfolding strip_hex_prefix
scan_digits base [] c s high h some_digit no_x = absurd (omega arith)
scan_digits base (d ∷ []) c s high h some_digit no_x =
    scan_plain base d (c ∷ s) high h.0 (ground arith)
scan_digits base (d ∷ e ∷ ds) c s high h some_digit no_x =
    scan_plain base d (e ∷ ds ++ c ∷ s) high h.0 (ground (arith, digit-no_x base e high h.1.0))

read_end :
    (base n c : ℕ) (s : List ℕ) → is_digit base c ≡ false → read_digits base n (c ∷ s) ≡ (n, c ∷ s)
unfolding read_digits
read_end base n c s h = ground arith

-- a numeral that no digit follows, read digit by digit
pub read_whole :
    (base fuel n c : ℕ) (s : List ℕ)
    → 0 < base
    → base ≤ 16
    → n < base ^ suc fuel
    → is_digit base c ≡ false
    → read_digits base 0 (numeral base (suc fuel) n [] ++ c ∷ s) ≡ (n, c ∷ s)
read_whole base fuel n c s low high fits ends =
    rw⁻¹ (numeral-append base low high (suc fuel) n (c ∷ s))
      (read_numeral base low high fuel n (c ∷ s) fits ∙ read_end base n c s ends)

pub scan_unsigned-numeral :
    (base fuel n c : ℕ) (s : List ℕ)
    → 0 < base
    → base ≤ 16
    → n < base ^ suc fuel
    → n < ulong_mod
    → is_digit base c ≡ false
    → (c == 120 || c == 88) ≡ false
    → scan_unsigned base (numeral base (suc fuel) n [] ++ c ∷ s) ≡ some (n, c ∷ s)
unfolding to_ulong
scan_unsigned-numeral base fuel n c s low high fits small ends no_x =
    let ds = numeral base (suc fuel) n [] in
    let read = read_whole base fuel n c s low high fits ends in
    scan_digits base ds c s high (numeral-IsDigits base low high (suc fuel) n [] tt)
      (ground (arith, numeral_some base low high fuel n [])) no_x
    ∙ rw read (ground arith)
