-- ===== src/Spe/Config.antt =====
-- src/tools/spe_self_profile.c: `get_spe_pmu_type`, and `read_format_bits` and `spe_event_config`, which put the event's
-- configuration together from the positions that the files in
-- /sys/bus/event_source/devices/arm_spe_0/format name.
pub mod Bits
pub mod PmuType
use kumf.Base.{
  ℕ, zero, suc, ◌+◌, ◌*◌, ◌/◌, ◌^◌, ◌%◌, ltb, if◌then◌else◌, ◌==◌, Bool, true, false, ◌&&◌, ◌||◌,
  List, [], ◌∷◌, Option, none, some,
}
use kumf.Base.Int.{ℤ, pos, negsuc}
use kumf.CText.{◌>>=◌, codes, fgets, split_at, atoi, scan_int}

-- The number that `fscanf` reads, if there is one.
abbrev pub type_of : Option ℤ → ℤ
type_of none = negsuc 0
type_of (some type) = type

-- `get_spe_pmu_type`, for what the first and the second `fopen` find, both of the same file.
unfoldable pub get_spe_pmu_type : Option (List ℕ) → Option (List ℕ) → ℤ
get_spe_pmu_type (some text) again = type_of (scan_int text)
get_spe_pmu_type none (some text) = type_of (scan_int text)
get_spe_pmu_type none none = negsuc 0

-- a type that is not negative
abbrev pub found_type : ℤ → Option ℕ
found_type (pos type) = some type
found_type (negsuc k) = none

abbrev pub bits_of : Option (List ℕ) → ℤ
bits_of none = pos 0
bits_of (some digits) = atoi digits

-- `read_format_bits`, for the file's text, if there is the file.
unfoldable pub read_format_bits : Option (List ℕ) → ℤ
read_format_bits none = negsuc 0
read_format_bits (some text) = bits_of (split_at b':' (fgets 63 text).0).1

-- `|` on numbers of `w` bits
unfoldable pub or_bits : ℕ → ℕ → ℕ → ℕ
or_bits zero a b = 0
or_bits (suc w) a b =
    let high = or_bits w (a / 2) (b / 2) in (if a % 2 == 1 || b % 2 == 1 then 1 else 0) + 2 * high

-- `config |= (value << bits)`, if `bits` is not negative: a shift out of `long long` is `none`.
unfoldable pub add_field : ℕ → ℤ → ℕ → Option ℕ
add_field value (negsuc b) config = some config
add_field value (pos b) config =
    if ltb b 63 && ltb (value * 2 ^ b) (2 ^ 63)
    then some (or_bits 64 config (value * 2 ^ b))
    else none

-- `spe_event_config`, for the texts of the files load_filter, store_filter and min_latency.
unfoldable pub spe_event_config :
    (Option (List ℕ)) → (Option (List ℕ)) → (Option (List ℕ)) → Bool → Bool → ℕ → Option ℕ
spe_event_config load_file store_file latency_file load store min_latency = do
  c ← if load then add_field 1 (read_format_bits load_file) 0 else some 0
  d ← if store then add_field 1 (read_format_bits store_file) c else some c
  if ltb 0 min_latency then add_field min_latency (read_format_bits latency_file) d else some d
