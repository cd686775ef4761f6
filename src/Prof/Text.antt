-- ===== src/Prof/Text.antt =====
-- src/lib/prof/ldlib.c: the text of a line that `prof_cleanup` prints, with what `dladdr` answers.
use kumf.Base.{
  ℕ, suc, ◌+◌, ◌-◌, ◌^◌, ◌%◌, ◌<◌, ◌≡◌, refl, ◌∙◌, List, [], ◌∷◌, ◌++◌, Option, none, some, take,
  arith,
}
use kumf.Base.Int.{ℤ, pos, negsuc}
use kumf.CText.{
  ◌>>=◌, codes, is_space, skip_space, is_digit, digit_value, scan_unsigned, scan_int, atoi,
  ulong_mod,
}
use kumf.CText.Integers.{scan_int-numeral}
use kumf.CText.Numeral.{numeral, scan_unsigned-numeral}
use kumf.Prof.Dump.{Caller, init, at_address, Line}

abbrev dec : ℕ → List ℕ
dec n = numeral 10 20 n []

abbrev hex : ℕ → List ℕ
hex n = numeral 16 16 n []

-- `%d`
abbrev int_text : ℤ → List ℕ
int_text (pos n) = dec n
int_text (negsuc k) = b'-' ∷ dec (suc k)

-- The name of the nearest symbol and its distance, or the address; 127 bytes at most.
unfoldable symbol_text : Option (List ℕ × ℕ) → ℕ → List ℕ
symbol_text none a = take 127 (codes "[0x" ++ (hex a ++ codes "]"))
symbol_text (some (name, start)) a =
    take 127 (name ++ (codes "+0x" ++ hex ((a + ulong_mod - start) % ulong_mod)))

-- `caller_sym`, where `dladdr` gives the name and the address of a symbol.
unfoldable caller_sym : (ℕ → Option (List ℕ × ℕ)) → Caller → List ℕ
unfolding symbol_text
caller_sym dladdr init = codes "[init]"
caller_sym dladdr (at_address a) = symbol_text (dladdr a) a

-- `%lu %lu %lx %d\n`
unfoldable fields_text : Line → List ℕ
fields_text l =
    dec l.rdt
    ++ (32 ∷ (dec l.size ++ (32 ∷ (hex l.addr ++ (32 ∷ (int_text l.entry_type ++ 10 ∷ []))))))

unfoldable line_text : (ℕ → Option (List ℕ × ℕ)) → Line → List ℕ
unfolding caller_sym fields_text
line_text dladdr l = caller_sym dladdr l.caller ++ (32 ∷ fields_text l)

-- The four fields as `sscanf` with the same conversions reads them.
unfoldable read_fields : List ℕ → Option (ℕ × ℕ × ℕ × ℤ)
read_fields s = do
  (rdt, s) ← scan_unsigned 10 s
  (size, s) ← scan_unsigned 10 s
  (addr, s) ← scan_unsigned 16 s
  entry_type ← scan_int s
  some (rdt, size, addr, entry_type)

read_fields_found :
    (s a b c : List ℕ) (rdt size addr : ℕ) (entry_type : ℤ)
    → scan_unsigned 10 s ≡ some (rdt, a)
    → scan_unsigned 10 a ≡ some (size, b)
    → scan_unsigned 16 b ≡ some (addr, c)
    → scan_int c ≡ some entry_type
    → read_fields s ≡ some (rdt, size, addr, entry_type)
unfolding read_fields
read_fields_found s a b c rdt size addr entry_type e f g h = rw (e, f, g, h) refl

after_space : (base : ℕ) (s : List ℕ) → scan_unsigned base (32 ∷ s) ≡ scan_unsigned base s
unfolding scan_unsigned skip_space is_space
after_space base s = refl

after_space_int : (s : List ℕ) → scan_int (32 ∷ s) ≡ scan_int s
unfolding scan_int atoi skip_space is_space
after_space_int s = refl

-- The fields of a line with times, sizes and addresses of 64 bits and a type that is not negative
-- are read back.
read_fields-text :
    (l : Line) (n : ℕ)
    → l.rdt < ulong_mod
    → l.size < ulong_mod
    → l.addr < ulong_mod
    → l.entry_type ≡ pos n
    → n < 2 ^ 31
    → read_fields (fields_text l) ≡ some (l.rdt, l.size, l.addr, pos n)
unfolding fields_text is_digit digit_value
read_fields-text l n rdt size addr type small =
    let last = 32 ∷ (dec n ++ 10 ∷ []) in
    rw type (
      read_fields_found _ _ _ _ l.rdt l.size l.addr (pos n)
        (scan_unsigned-numeral 10 19 l.rdt 32 (dec l.size ++ (32 ∷ (hex l.addr ++ last)))
          (omega arith) (omega arith) (omega arith) rdt refl refl)
        (after_space 10 _
          ∙ scan_unsigned-numeral 10 19 l.size 32 (hex l.addr ++ last) (omega arith) (omega arith)
              (omega arith) size refl refl)
        (after_space 16 _
          ∙ scan_unsigned-numeral 16 15 l.addr 32 (dec n ++ 10 ∷ []) (omega arith) (omega arith)
              (omega arith) addr refl refl)
        (after_space_int _ ∙ scan_int-numeral 19 n 10 [] (omega arith) small refl))
