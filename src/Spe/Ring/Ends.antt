-- ===== src/Spe/Ring/Ends.antt =====
-- The end of the loop of `parse_spe_buffer`, and a sample at the buffer's end.
use kumf.Base.{
  ℕ, zero, suc, ◌+◌, ◌-◌, ◌^◌, ◌%◌, ◌<◌, ◌≤◌, ◌≡◌, ◌≢◌, refl, ltb, ◌==◌, true, false, arith,
  Bool-cases, if_cases, ap, sym, inl, inr, ◌⊎◌, List, [],
}
use kumf.Spe.Ring.{
  buf_size, ulong_mod, record_sample, Page, Sample, Scan, lines, past_end, out_of_fuel, before,
  header_type, header_size, printed, scan, released, parse_spe_buffer,
}
use kumf.Spe.Ring.Records.{
  Record, record_size, encode, Written, IsRecord, header_size-Written, header_type-Written,
}

header_size_bound : (b : ℕ → ℕ) (o : ℕ) → ((i : ℕ) → b i < 256) → header_size b o < 2 ^ 16
unfolding header_size
header_size_bound b o bytes = omega (arith, bytes (o + 6), bytes (o + 7))

before_fuel : (s : Sample) (r : Scan) → r ≢ out_of_fuel → before s r ≢ out_of_fuel
before_fuel s (lines ls) h = λ e. cc
before_fuel s past_end h = λ e. cc
before_fuel s out_of_fuel h = λ e. h refl

abbrev Ends : Scan → Type 0
Ends s = s ≢ out_of_fuel

scan_ends :
    (fuel cpu : ℕ) (b : ℕ → ℕ) (head tail consumed : ℕ)
    → ((i : ℕ) → b i < 256)
    → head + 2 ^ 16 ≤ ulong_mod
    → tail + consumed < head + 2 ^ 16
    → head - (tail + consumed) < fuel
    → scan fuel cpu b head tail consumed ≢ out_of_fuel
unfolding scan
scan_ends zero cpu b head tail consumed bytes room near fuels = absurd (omega arith)
scan_ends (suc fuel) cpu b head tail consumed bytes room near fuels =
    let at : (tail + consumed) % ulong_mod ≡ tail + consumed = omega arith in
    let o = (tail + consumed) % buf_size in
    let size = header_size b o in
    let after = (consumed + size) % ulong_mod in
    let bound = header_size_bound b o bytes in
    rw at (
      if_cases Ends (ltb (tail + consumed) head)
        (λ inside.
          if_cases Ends (ltb buf_size (o + 8)) (λ cut e. cc)
            (λ header.
              if_cases Ends (size == 0) (λ empty e. cc)
                (λ some_size.
                  let moved : after ≡ consumed + size = ground (arith, bound) in
                  let rest =
                    scan_ends fuel cpu b head tail after bytes room (ground (arith, bound, moved))
                      (ground (arith, bound, moved)) in
                  if_cases Ends (header_type b o == record_sample)
                    (λ sample.
                      if_cases Ends (ltb buf_size (o + printed size)) (λ cut e. cc)
                        (λ whole. before_fuel _ _ rest))
                    (λ other. rest))))
        (λ done e. cc))

abbrev outcome : Scan → Page → Scan × Page
outcome found page = (found, released found page)

scan_outcome :
    (found : Scan) (page : Page)
    → found ≢ out_of_fuel
    → (outcome found page ≡ (past_end, page))
      ⊎ ((ls : List Sample) × (outcome found page
            ≡ (lines ls, record page { data_tail = page.data_head })))
scan_outcome (lines ls) page ended = inr (ls, refl)
scan_outcome past_end page ended = inl refl
scan_outcome out_of_fuel page ended = absurd (ended refl)

-- Whatever bytes the buffer holds, with the head 2 ^ 16 or more below 2 ^ 64 and the tail at most
-- so far ahead of it, parse_spe_buffer takes no more rounds than the model has: either it reads
-- behind the mapped bytes before it gets to the new tail, or it ends with lines, none or more,
-- and the tail set to the head.
pub parse_spe_buffer_ends :
    (cpu : ℕ) (page : Page)
    → ((i : ℕ) → page.bytes i < 256)
    → page.data_head + 2 ^ 16 ≤ ulong_mod
    → page.data_tail < page.data_head + 2 ^ 16
    → (parse_spe_buffer cpu page ≡ (past_end, page))
      ⊎ ((ls : List Sample) × (parse_spe_buffer cpu page
            ≡ (lines ls, record page { data_tail = page.data_head })))
unfolding parse_spe_buffer
parse_spe_buffer_ends cpu page bytes room near =
    let head = page.data_head in
    let tail = page.data_tail in
    elim (Bool-cases (head == tail)) [
      | inl caught_up ↦
          let same : head ≡ tail = ground arith in
          rw caught_up (inr ([], ap (λ t. (lines [], record page { data_tail = t })) (sym same)))
      | inr behind ↦ rw behind (
          scan_outcome _ page (
            scan_ends (head - tail + 1) cpu page.bytes head tail 0 bytes room (omega arith)
              (omega arith)))
    ]

-- A sample that stands first behind the tail, at a multiple of 8, and whose printed part goes
-- round the buffer's end makes parse_spe_buffer read behind the mapped bytes, before the tail is
-- moved.
pub sample_past_end :
    (cpu : ℕ) (page : Page) (r : Record)
    → Written page.bytes page.data_tail (encode r)
    → IsRecord r
    → r.rtype ≡ record_sample
    → page.data_tail % 8 ≡ 0
    → page.data_tail + record_size r ≤ page.data_head
    → page.data_head < ulong_mod
    → buf_size < page.data_tail % buf_size + printed (record_size r)
    → parse_spe_buffer cpu page ≡ (past_end, page)
unfolding parse_spe_buffer scan
sample_past_end cpu page r w fits sample aligned inside small broken =
    let tail = page.data_tail in
    let start : tail + 0 ≡ tail = omega arith in
    let more : (page.data_head == tail) ≡ false = ground arith in
    let fuel : page.data_head - tail + 1 ≡ suc (page.data_head - tail) = omega arith in
    let at : tail % ulong_mod ≡ tail = omega arith in
    let inside' : ltb tail page.data_head ≡ true = ground arith in
    let room : ltb buf_size (tail % buf_size + 8) ≡ false = ground arith in
    let size = header_size-Written page.bytes tail r w fits aligned in
    let type = header_type-Written page.bytes tail r w fits aligned in
    rw (more, fuel, start, at, inside', room, size, type, sample) (ground arith)
