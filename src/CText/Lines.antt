-- ===== src/CText/Lines.antt =====
-- The lines of a file and the last word of a line, as `fgets` and `sscanf` read them.
use kumf.Base.{
  ℕ, zero, suc, ◌<◌, ◌≤◌, ◌≡◌, refl, ap, ◌∙◌, ◌==◌, false, List, [], ◌∷◌, ◌++◌, map, Option, none,
  some, length, All, arith, length-append,
}
use kumf.CText.{
  codes, is_space, skip_space, strip, take_word, scan_word, scan_node, fgets, read_lines, split_at,
  c_string,
}
use kumf.CText.Numeral.{IsSolid}

-- a text without the byte `c`
abbrev pub Lacks : ℕ → List ℕ → Type 0
Lacks c = All (λ x. (x == c) ≡ false)

split_at-Lacks : (c : ℕ) (s : List ℕ) → Lacks c s → split_at c s ≡ (s, none)
unfolding split_at
split_at-Lacks c [] h = refl
split_at-Lacks c (x ∷ s) h = ground (arith, h.0, split_at-Lacks c s h.1)

-- Such a text is a C string as it stands.
pub c_string-Lacks : (s : List ℕ) → Lacks 0 s → c_string s ≡ s
unfolding c_string
c_string-Lacks s h = ap (λ r. r.0) (split_at-Lacks 0 s h)

fgets-line :
    (n : ℕ) (body rest : List ℕ)
    → Lacks 10 body
    → length body < n
    → fgets n (body ++ 10 ∷ rest) ≡ (body ++ 10 ∷ [], rest)
unfolding fgets
fgets-line zero body rest h short = absurd (omega arith)
fgets-line (suc n) [] rest h short = refl
fgets-line (suc n) (c ∷ body) rest h short = rw (h.0, fgets-line n body rest h.1 (omega arith)) refl

-- A file of these lines.
abbrev pub lines_text : List (List ℕ) → List ℕ
lines_text [] = []
lines_text (b ∷ bs) = b ++ 10 ∷ lines_text bs

abbrev pub ended : List ℕ → List ℕ
ended body = body ++ 10 ∷ []

-- A body of a line that a buffer of n + 1 bytes takes as a whole.
abbrev pub FitsLine : ℕ → List ℕ → Type 0
FitsLine n b = Lacks 10 b × (length b < n)

pub read_lines-text :
    (n fuel : ℕ) (bs : List (List ℕ))
    → All (FitsLine n) bs
    → length bs ≤ fuel
    → read_lines n fuel (lines_text bs) ≡ map ended bs
unfolding read_lines
read_lines-text n zero [] fits enough = refl
read_lines-text n (suc fuel) [] fits enough = refl
read_lines-text n zero (b ∷ bs) fits enough = absurd (omega arith)
read_lines-text n (suc fuel) ([] ∷ bs) (fit, fits) enough =
    rw (fgets-line n [] (lines_text bs) fit.0 fit.1, read_lines-text n fuel bs fits (omega arith))
      refl
read_lines-text n (suc fuel) ((c ∷ b) ∷ bs) (fit, fits) enough =
    rw
      (
        fgets-line n (c ∷ b) (lines_text bs) fit.0 fit.1,
        read_lines-text n fuel bs fits (omega arith),
      )
      refl

pub length-lines_text : (bs : List (List ℕ)) → length bs ≤ length (lines_text bs)
length-lines_text [] = omega arith
length-lines_text (b ∷ bs) =
    omega (arith, length-append b (10 ∷ lines_text bs), length-lines_text bs)

take_word-solid :
    (n : ℕ) (w s : List ℕ) → IsSolid w → length w ≤ n → take_word n (w ++ 10 ∷ s) ≡ (w, 10 ∷ s)
unfolding take_word is_space
take_word-solid zero [] s h short = refl
take_word-solid zero (c ∷ w) s h short = absurd (omega arith)
take_word-solid (suc n) [] s h short = refl
take_word-solid (suc n) (c ∷ w) s h short =
    ground (arith, take_word-solid n w s h.1 (omega arith), h.0)

equals_solid : is_space 61 ≡ false
unfolding is_space
equals_solid = refl

skip_one : (c : ℕ) (s : List ℕ) → is_space c ≡ false → skip_space (32 ∷ c ∷ s) ≡ c ∷ s
unfolding skip_space is_space
skip_one c s h = ground arith

-- what `scan_word` makes of the word and the rest
abbrev nonempty : List ℕ × List ℕ → Option (List ℕ × List ℕ)
nonempty r = elim r.0 [ [] ↦ none | c ∷ cs ↦ some (c ∷ cs, r.1) ]

scan_word_found :
    (n c : ℕ) (s t w rest : List ℕ)
    → skip_space s ≡ t
    → take_word n t ≡ (c ∷ w, rest)
    → scan_word n s ≡ some (c ∷ w, rest)
unfolding scan_word
scan_word_found n c s t w rest e f = ap (λ u. nonempty (take_word n u)) e ∙ ap nonempty f

scan_node_found :
    (s t u w rest : List ℕ)
    → skip_space s ≡ t
    → strip (codes "=") t ≡ some u
    → scan_word 31 u ≡ some (w, rest)
    → scan_node s ≡ some w
unfolding scan_node
scan_node_found s t u w rest e f g = rw (e, f, g) refl

-- ` = ` and a word of at most 31 bytes, at the end of a line
pub scan_node-word :
    (w s : List ℕ)
    → IsSolid w
    → 0 < length w
    → length w ≤ 31
    → scan_node (codes " = " ++ (w ++ 10 ∷ s)) ≡ some w
unfolding strip
scan_node-word [] s h some_byte short = absurd (omega arith)
scan_node-word (c ∷ w) s h some_byte short =
    scan_node_found _ (61 ∷ 32 ∷ c ∷ (w ++ 10 ∷ s)) (32 ∷ c ∷ (w ++ 10 ∷ s)) (c ∷ w) (10 ∷ s)
      (skip_one 61 (32 ∷ c ∷ (w ++ 10 ∷ s)) equals_solid) refl
      (scan_word_found 31 c _ (c ∷ (w ++ 10 ∷ s)) w (10 ∷ s) (skip_one c (w ++ 10 ∷ s) h.0)
        (take_word-solid 31 (c ∷ w) s h short))
