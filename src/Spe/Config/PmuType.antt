-- ===== src/Spe/Config/PmuType.antt =====
-- The type of the performance unit, as the kernel's file for it gives it.
use kumf.Base.{ℕ, ◌<◌, ◌≡◌, refl, ap, ◌^◌, List, [], ◌∷◌, ◌++◌, Option, none, some, arith}
use kumf.CText.{is_digit, digit_value}
use kumf.CText.Integers.{scan_int-numeral}
use kumf.CText.Numeral.{numeral}
use kumf.Spe.Config.{get_spe_pmu_type, type_of, found_type}

-- Where the file holds the type in decimal digits and a newline, that type is found at once;
-- where it opens at no try, none is.
pub get_spe_pmu_type-numeral :
    (n : ℕ) (again : Option (List ℕ))
    → n < 2 ^ 31
    → (found_type (get_spe_pmu_type (some (numeral 10 10 n [] ++ 10 ∷ [])) again) ≡ some n)
      × (found_type (get_spe_pmu_type none none) ≡ none)
unfolding get_spe_pmu_type is_digit digit_value
get_spe_pmu_type-numeral n again small =
    (ap (λ r. found_type (type_of r)) (scan_int-numeral 9 n 10 [] (omega arith) small refl), refl)
