-- ===== src/Spe/Ring.antt =====
-- src/tools/spe_self_profile.c: `parse_spe_buffer`, which reads the records that the kernel has left
-- in the ring buffer of a processor.
pub mod Records
pub mod Ends
use kumf.Base.{
  ℕ, zero, suc, ◌+◌, ◌-◌, ◌*◌, ◌^◌, ◌%◌, ltb, leb, ◌==◌, if◌then◌else◌, Bool, true, false, List, [],
  ◌∷◌, Option, none, some,
}

-- `BUF_SIZE`
abbrev pub buf_size : ℕ
buf_size = 2 ^ 18

abbrev pub ulong_mod : ℕ
ulong_mod = 2 ^ 64

-- `PERF_RECORD_SAMPLE`
abbrev pub record_sample : ℕ
record_sample = 9

-- The buffer's page: the positions that the kernel has written up to and the program has read up
-- to, and the bytes behind `data_offset`, of which `BUF_SIZE` are mapped.
pub record Page : Type 0 where
  pub data_head : ℕ
  pub data_tail : ℕ
  pub bytes : ℕ → ℕ

-- A line of the output file, with the bytes that are printed in hexadecimal.
pub record Sample : Type 0 where
  pub cpu : ℕ
  pub size : ℕ
  pub hex : List ℕ

-- How the loop ends: with the lines, by a read behind the mapped bytes, or for lack of fuel.
pub data Scan : Type 0 where
  lines : List Sample → Scan
  past_end out_of_fuel : Scan

abbrev pub before : Sample → Scan → Scan
before s (lines ls) = lines (s ∷ ls)
before s past_end = past_end
before s out_of_fuel = out_of_fuel

-- The fields of `struct perf_event_header`, which the processor stores low byte first.
unfoldable pub header_type : (ℕ → ℕ) → ℕ → ℕ
header_type b o = b o + 256 * b (o + 1) + 65536 * b (o + 2) + 16777216 * b (o + 3)

unfoldable pub header_size : (ℕ → ℕ) → ℕ → ℕ
header_size b o = b (o + 6) + 256 * b (o + 7)

-- `n` bytes in a row, from `o` on: the copy does not go round the buffer's end.
unfoldable pub read_bytes : (ℕ → ℕ) → ℕ → ℕ → List ℕ
read_bytes b o zero = []
read_bytes b o (suc n) = b o ∷ read_bytes b (o + 1) n

-- `i < size && i < 128`
abbrev pub printed : ℕ → ℕ
printed size = if ltb size 128 then size else 128

-- The loop, `consumed` bytes behind `tail`.
unfoldable pub scan : ℕ → ℕ → (ℕ → ℕ) → ℕ → ℕ → ℕ → Scan
scan zero cpu b head tail consumed = out_of_fuel
scan (suc fuel) cpu b head tail consumed =
    let at = (tail + consumed) % ulong_mod in
    let o = at % buf_size in
    let size = header_size b o in
    let rest = scan fuel cpu b head tail ((consumed + size) % ulong_mod) in
    let sample : Sample = record { cpu = cpu; size = size; hex = read_bytes b o (printed size) } in
    if ltb at head
    then if ltb buf_size (o + 8)
      then past_end
      else if size == 0
      then lines []
      else if header_type b o == record_sample
      then if ltb buf_size (o + printed size) then past_end else before sample rest
      else rest
    else lines []

-- The page behind the loop: a loop that is cut short does not get to the new tail.
abbrev pub released : Scan → Page → Page
released (lines ls) page = record page { data_tail = page.data_head }
released past_end page = page
released out_of_fuel page = page

-- What is written to the file, and the page with its new tail. A round takes a byte at least, so the
-- distance is fuel enough.
unfoldable pub parse_spe_buffer : ℕ → Page → Scan × Page
parse_spe_buffer cpu page =
    let head = page.data_head in
    let tail = page.data_tail in
    if head == tail
    then (lines [], page)
    else (let found = scan (head - tail + 1) cpu page.bytes head tail 0 in
        (found, released found page))
