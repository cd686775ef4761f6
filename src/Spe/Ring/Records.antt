-- ===== src/Spe/Ring/Records.antt =====
-- The records that the kernel writes, and the loop of `parse_spe_buffer` over whole records.
use kumf.Base.{
  ℕ, zero, suc, ◌+◌, ◌-◌, ◌/◌, ◌^◌, ◌%◌, ◌<◌, ◌≤◌, ◌≡◌, ◌⊎◌, refl, inl, inr, ltb, ◌==◌,
  if◌then◌else◌, true, false, List, [], ◌∷◌, ◌++◌, length, take, arith, Bool-cases, ap, ◌&&◌, All,
}
use kumf.Spe.Ring.{
  buf_size, ulong_mod, record_sample, Page, Sample, Scan, lines, before, header_type, header_size,
  read_bytes, printed, scan, parse_spe_buffer,
}

-- A record as the kernel writes it; `misc` is not read.
pub record Record : Type 0 where
  pub rtype : ℕ
  pub misc : ℕ
  pub payload : List ℕ

abbrev pub record_size : Record → ℕ
record_size r = 8 + length r.payload

abbrev pub encode : Record → List ℕ
encode r =
    r.rtype % 256
    ∷ (r.rtype / 256) % 256
    ∷ (r.rtype / 65536) % 256
    ∷ (r.rtype / 16777216) % 256
    ∷ r.misc % 256
    ∷ (r.misc / 256) % 256
    ∷ record_size r % 256
    ∷ (record_size r / 256) % 256
    ∷ r.payload

abbrev pub encode_all : List Record → List ℕ
encode_all [] = []
encode_all (r ∷ rs) = encode r ++ encode_all rs

-- The bytes stand in the buffer from a position on, round its end.
abbrev pub Written : (ℕ → ℕ) → ℕ → List ℕ → Type 0
Written b pos [] = Unit
Written b pos (x ∷ xs) = (b (pos % buf_size) ≡ x) × Written b (pos + 1) xs

-- The fields fit, and the records are whole words.
abbrev pub IsRecord : Record → Type 0
IsRecord r = (r.rtype < 2 ^ 32) × (record_size r < 2 ^ 16) × (length r.payload % 8 ≡ 0)

-- The printed part of no sample goes round the buffer's end.
abbrev pub Unbroken : ℕ → List Record → Type 0
Unbroken pos [] = Unit
Unbroken pos (r ∷ rs) =
    ((r.rtype == record_sample && ltb buf_size (pos % buf_size + printed (record_size r))) ≡ false)
    × Unbroken (pos + record_size r) rs

unfoldable pub samples : ℕ → List Record → List Sample
samples cpu [] = []
samples cpu (r ∷ rs) =
    if r.rtype == record_sample
    then record { cpu = cpu; size = record_size r; hex = take (printed (record_size r)) (encode r) }
      ∷ samples cpu rs
    else samples cpu rs

Written-append :
    (b : ℕ → ℕ) (pos : ℕ) (xs ys : List ℕ)
    → Written b pos (xs ++ ys)
    → Written b pos xs × Written b (pos + length xs) ys
Written-append b pos [] ys w = let e : pos ≡ pos + 0 = omega arith in (tt, rw (← e) w)
Written-append b pos (x ∷ xs) ys w =
    let (front, back) = Written-append b (pos + 1) xs ys w.1 in
    let e : pos + 1 + length xs ≡ pos + suc (length xs) = omega arith in
    ((w.0, front), rw e at back)

read_bytes-Written :
    (b : ℕ → ℕ) (pos o n : ℕ) (xs : List ℕ)
    → Written b pos xs
    → (o ≡ pos % buf_size) ⊎ (n ≡ 0)
    → o + n ≤ buf_size
    → n ≤ length xs
    → read_bytes b o n ≡ take n xs
unfolding read_bytes
read_bytes-Written b pos o zero xs w at fits short = refl
read_bytes-Written b pos o (suc n) [] w at fits short = absurd (omega arith)
read_bytes-Written b pos o (suc n) (x ∷ xs) w at fits short =
    let here : o ≡ pos % buf_size = omega arith in
    let next : (o + 1 ≡ (pos + 1) % buf_size) ⊎ (n ≡ 0) = elim (Bool-cases (n == 0)) [
      | inl none_left ↦ inr (ground arith)
      | inr more ↦ inl (ground arith)
    ] in
    let rest = read_bytes-Written b (pos + 1) (o + 1) n xs w.1 next (omega arith) (omega arith) in
    rw (rest, here) (ap (λ y. y ∷ take n xs) w.0)

module _ (b : ℕ → ℕ) (pos : ℕ) (r : Record) (w : Written b pos (encode r)) (fits : IsRecord r)
    (aligned : pos % 8 ≡ 0) where
  pub header_size-Written : header_size b (pos % buf_size) ≡ record_size r
  unfolding header_size
  header_size-Written =
      let low : b (pos % buf_size + 6) ≡ record_size r % 256 =
        let o : (pos + 1 + 1 + 1 + 1 + 1 + 1) % buf_size ≡ pos % buf_size + 6 = omega arith in
        rw o at w.1.1.1.1.1.1.0 in
      let high : b (pos % buf_size + 7) ≡ (record_size r / 256) % 256 =
        let o : (pos + 1 + 1 + 1 + 1 + 1 + 1 + 1) % buf_size ≡ pos % buf_size + 7 = omega arith in
        rw o at w.1.1.1.1.1.1.1.0 in
      omega (arith, low, high)

  pub header_type-Written : header_type b (pos % buf_size) ≡ r.rtype
  unfolding header_type
  header_type-Written =
      let second : b (pos % buf_size + 1) ≡ (r.rtype / 256) % 256 =
        let o : (pos + 1) % buf_size ≡ pos % buf_size + 1 = omega arith in rw o at w.1.0 in
      let third : b (pos % buf_size + 2) ≡ (r.rtype / 65536) % 256 =
        let o : (pos + 1 + 1) % buf_size ≡ pos % buf_size + 2 = omega arith in rw o at w.1.1.0 in
      let fourth : b (pos % buf_size + 3) ≡ (r.rtype / 16777216) % 256 =
        let o : (pos + 1 + 1 + 1) % buf_size ≡ pos % buf_size + 3 = omega arith in
        rw o at w.1.1.1.0 in
      omega (arith, w.0, second, third, fourth)

abbrev sample_of : ℕ → Record → Sample
sample_of cpu r = record {
  cpu = cpu;
  size = record_size r;
  hex = take (printed (record_size r)) (encode r);
}

abbrev add_record : ℕ → Record → Scan → Scan
add_record cpu r rest = if r.rtype == record_sample then before (sample_of cpu r) rest else rest

-- One round, at a record.
scan_record :
    (fuel cpu : ℕ) (b : ℕ → ℕ) (head tail consumed : ℕ) (r : Record)
    → let pos = tail + consumed in
      Written b pos (encode r)
      → IsRecord r
      → pos % 8 ≡ 0
      → pos + record_size r ≤ head
      → head < ulong_mod
      → (r.rtype == record_sample && ltb buf_size (pos % buf_size + printed (record_size r)))
        ≡ false
      → scan (suc fuel) cpu b head tail consumed
        ≡ add_record cpu r (scan fuel cpu b head tail (consumed + record_size r))
unfolding scan
scan_record fuel cpu b head tail consumed r w fits aligned inside small whole =
    let pos = tail + consumed in
    let at : pos % ulong_mod ≡ pos = omega arith in
    let size = header_size-Written b pos r w fits aligned in
    let type = header_type-Written b pos r w fits aligned in
    let next : (consumed + record_size r) % ulong_mod ≡ consumed + record_size r = omega arith in
    let room : ltb buf_size (pos % buf_size + 8) ≡ false = ground arith in
    let more : ltb pos head ≡ true = ground arith in
    let some_size : (record_size r == 0) ≡ false = ground arith in
    rw (at, size, type, next, room, more, some_size)
      (elim (Bool-cases (r.rtype == record_sample)) [
        | inr other ↦ rw other refl
        | inl sample ↦
            let fits_in : ltb buf_size (pos % buf_size + printed (record_size r)) ≡ false =
              rw sample at whole in
            let bytes =
              read_bytes-Written b pos (pos % buf_size) (printed (record_size r)) (encode r) w
                (inl refl) (ground arith) (ground arith) in
            rw (sample, fits_in, bytes) refl
      ])

abbrev pub total_size : List Record → ℕ
total_size [] = 0
total_size (r ∷ rs) = record_size r + total_size rs

scan_end :
    (fuel cpu : ℕ) (b : ℕ → ℕ) (head tail consumed : ℕ)
    → tail + consumed ≡ head
    → head < ulong_mod
    → scan (suc fuel) cpu b head tail consumed ≡ lines []
unfolding scan
scan_end fuel cpu b head tail consumed at_end small =
    let done : ltb ((tail + consumed) % ulong_mod) head ≡ false = ground arith in rw done refl

scan_records :
    (rs : List Record) (fuel cpu : ℕ) (b : ℕ → ℕ) (head tail consumed : ℕ)
    → let pos = tail + consumed in
      Written b pos (encode_all rs)
      → All IsRecord rs
      → Unbroken pos rs
      → pos % 8 ≡ 0
      → head ≡ pos + total_size rs
      → head < ulong_mod
      → total_size rs < fuel
      → scan fuel cpu b head tail consumed ≡ lines (samples cpu rs)
unfolding samples
scan_records [] zero cpu b head tail consumed w fits whole aligned end small fuels =
    absurd (omega arith)
scan_records [] (suc fuel) cpu b head tail consumed w fits whole aligned end small fuels =
    rw (scan_end fuel cpu b head tail consumed (omega arith) small) refl
scan_records (r ∷ rs) zero cpu b head tail consumed w fits whole aligned end small fuels =
    absurd (omega arith)
scan_records (r ∷ rs) (suc fuel) cpu b head tail consumed w fits whole aligned end small fuels =
    let pos = tail + consumed in
    let (front, back) = Written-append b pos (encode r) (encode_all rs) w in
    let step =
      scan_record fuel cpu b head tail consumed r front fits.0 aligned (omega arith) small
        whole.0 in
    let moved : pos + record_size r ≡ tail + (consumed + record_size r) = omega arith in
    let next : pos + length (encode r) ≡ tail + (consumed + record_size r) = omega arith in
    let rest =
      scan_records rs fuel cpu b head tail (consumed + record_size r) (rw next at back) fits.1
        (rw moved at whole.1) (omega arith) (omega arith) small (omega arith) in
    rw (step, rest) (ground arith)

-- Where the kernel has written records behind the tail, round the buffer's end, each of whole
-- words and with fields that fit, up to the head, which is below 2 ^ 64, and the printed part of
-- no sample goes round the end, parse_spe_buffer writes just the lines of their samples, in their
-- order, and moves the tail to their end.
pub parse_spe_buffer_records :
    (cpu : ℕ) (page : Page) (rs : List Record)
    → Written page.bytes page.data_tail (encode_all rs)
    → All IsRecord rs
    → Unbroken page.data_tail rs
    → page.data_tail % 8 ≡ 0
    → page.data_head ≡ page.data_tail + total_size rs
    → page.data_head < ulong_mod
    → parse_spe_buffer cpu page
      ≡ (lines (samples cpu rs), record page { data_tail = page.data_tail + total_size rs })
unfolding parse_spe_buffer samples
parse_spe_buffer_records cpu page [] w fits whole aligned end small = ground arith
parse_spe_buffer_records cpu page (r ∷ rs) w fits whole aligned end small =
    let start : page.data_tail ≡ page.data_tail + 0 = omega arith in
    let all =
      scan_records (r ∷ rs) (page.data_head - page.data_tail + 1) cpu page.bytes page.data_head
        page.data_tail 0 (rw start at w) fits (rw start at whole) (omega arith) (omega arith) small
        (omega arith) in
    let some_left : (page.data_head == page.data_tail) ≡ false = ground arith in
    rw (some_left, all)
      (ap (λ t. (lines (samples cpu (r ∷ rs)), record page { data_tail = t })) end)
