-- ===== src/Spe/Config/Bits.antt =====
-- The bits of the event's configuration.
use kumf.Base.{
  ℕ, zero, suc, ◌+◌, ◌-◌, ◌*◌, ◌/◌, ◌^◌, ◌%◌, ◌<◌, ◌≤◌, ◌≡◌, refl, ltb, leb, ◌==◌, Bool, true,
  false, ◌&&◌, ◌||◌, List, Option, some, arith, Bool-cases, ap, sym, ◌∙◌, inl, inr,
}
use kumf.Base.Int.{pos}
use kumf.Spe.Config.{read_format_bits, or_bits, add_field, spe_event_config}
use native.Mathlib.Nat.{pow-suc, mul_assoc, pow-le-pow_right}

-- Bit `k` of a number.
unfoldable pub bit : ℕ → ℕ → Bool
bit zero n = n % 2 == 1
bit (suc k) n = bit k (n / 2)

bit_zero : (k : ℕ) → bit k 0 ≡ false
unfolding bit
bit_zero zero = refl
bit_zero (suc k) = bit_zero k

or_bits_half :
    (w a b : ℕ)
    → (or_bits (suc w) a b / 2 ≡ or_bits w (a / 2) (b / 2))
      × ((or_bits (suc w) a b % 2 == 1) ≡ (a % 2 == 1 || b % 2 == 1))
unfolding or_bits
or_bits_half w a b = elim (Bool-cases (a % 2 == 1 || b % 2 == 1)) [
  | inl one ↦ rw one (omega arith, ground arith)
  | inr none_set ↦ rw none_set (omega arith, ground arith)
]

bit-or_bits : (k w a b : ℕ) → bit k (or_bits w a b) ≡ (ltb k w && (bit k a || bit k b))
unfolding bit or_bits
bit-or_bits k zero a b = let never : ltb k 0 ≡ false = ground arith in rw never (bit_zero k)
bit-or_bits zero (suc w) a b =
    let low : ltb 0 (suc w) ≡ true = ground arith in rw low (or_bits_half w a b).1
bit-or_bits (suc k) (suc w) a b =
    let same : ltb (suc k) (suc w) ≡ ltb k w = ground arith in
    rw same (ap (bit k) (or_bits_half w a b).0 ∙ bit-or_bits k w (a / 2) (b / 2))

double_shift : (b v : ℕ) → v * 2 ^ suc b ≡ 2 * (v * 2 ^ b)
double_shift b v =
    let split = ap (λ p. v * p) (pow-suc 2 b) ∙ sym (mul_assoc v (2 ^ b) 2) in omega (arith, split)

bit_shift : (k b v : ℕ) → bit k (v * 2 ^ b) ≡ (leb b k && bit (k - b) v)
unfolding bit
bit_shift k zero v =
    let low : leb 0 k ≡ true = ground arith in
    let same : v * 2 ^ 0 ≡ v = omega arith in
    let same' : k - 0 ≡ k = omega arith in rw (low, same, same') refl
bit_shift zero (suc b) v =
    let never : leb (suc b) 0 ≡ false = ground arith in
    let double : v * 2 ^ suc b ≡ 2 * (v * 2 ^ b) = double_shift b v in
    rw (never, double) (ground arith)
bit_shift (suc k) (suc b) v =
    let same : leb (suc b) (suc k) ≡ leb b k = ground arith in
    let same' : suc k - suc b ≡ k - b = omega arith in
    let half : v * 2 ^ suc b / 2 ≡ v * 2 ^ b = omega (arith, double_shift b v) in
    rw (same, same') (ap (bit k) half ∙ bit_shift k b v)

-- The bits of 1 and 32.
bit_one : (k : ℕ) → bit k 1 ≡ (k == 0)
unfolding bit
bit_one zero = refl
bit_one (suc k) = let other : (suc k == 0) ≡ false = ground arith in rw other (bit_zero k)

bit_32 : (k : ℕ) → bit k 32 ≡ (k == 5)
bit_32 k = elim (Bool-cases (leb 5 k)) [
  | inl high ↦ let one = bit_one (k - 5) in bit_shift k 5 1 ∙ rw (high, one) (ground arith)
  | inr low ↦ let other : (k == 5) ≡ false = ground arith in bit_shift k 5 1 ∙ rw (low, other) refl
]

pow_bound : (b c : ℕ) → b ≤ c → 2 ^ b ≤ 2 ^ c
pow_bound b c less = pow-le-pow_right (omega arith) less

-- Where the files give positions below 63 for the loads and the stores and below 58 for the
-- latency, spe_event_config with both filters and a latency of 32 is defined, and the bits of its
-- result are the two positions and the one five above the latency's.
pub spe_event_config-bits :
    (load_file store_file latency_file : Option (List ℕ)) (load store latency : ℕ)
    → read_format_bits load_file ≡ pos load
    → read_format_bits store_file ≡ pos store
    → read_format_bits latency_file ≡ pos latency
    → load < 63
    → store < 63
    → latency < 58
    → (config : ℕ) × (spe_event_config load_file store_file latency_file true true 32 ≡ some config)
      × ((k : ℕ) → bit k config ≡ (k == load || (k == store || k == latency + 5)))
unfolding spe_event_config add_field
spe_event_config-bits load_file store_file latency_file load store latency l s m hl hs hm =
    let fits_l : (ltb load 63 && ltb (1 * 2 ^ load) (2 ^ 63)) ≡ true =
      let p = pow_bound load 62 (omega arith) in ground arith in
    let fits_s : (ltb store 63 && ltb (1 * 2 ^ store) (2 ^ 63)) ≡ true =
      let p = pow_bound store 62 (omega arith) in ground arith in
    let fits_m : (ltb latency 63 && ltb (32 * 2 ^ latency) (2 ^ 63)) ≡ true =
      let p = pow_bound latency 57 (omega arith) in ground arith in
    let c1 = or_bits 64 0 (1 * 2 ^ load) in
    let c2 = or_bits 64 c1 (1 * 2 ^ store) in
    (
      or_bits 64 c2 (32 * 2 ^ latency),
      rw (l, s, m, fits_l, fits_s, fits_m) refl,
      λ k.
          let three = bit-or_bits k 64 c2 (32 * 2 ^ latency) in
          let two = bit-or_bits k 64 c1 (1 * 2 ^ store) in
          let one = bit-or_bits k 64 0 (1 * 2 ^ load) in
          let f1 = bit_shift k load 1 in
          let f2 = bit_shift k store 1 in
          let f3 = bit_shift k latency 32 in
          let g1 = bit_one (k - load) in
          let g2 = bit_one (k - store) in
          let g3 = bit_32 (k - latency) in
          let z = bit_zero k in rw (three, two, one, f1, f2, f3, g1, g2, g3, z) (ground arith),
    )
