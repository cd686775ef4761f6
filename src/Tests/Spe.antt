-- ===== src/Tests/Spe.antt =====
-- The profiler on performance events at concrete inputs.
use kumf.Base.{
  false, Option, ℕ, zero, suc, ◌+◌, ◌%◌, ◌^◌, ◌≡◌, refl, if◌then◌else◌, ltb, ◌==◌, true, Bool, ◌&&◌,
  ◌||◌, ◌⊎◌, List, [], ◌∷◌, some, none, arith,
}
use kumf.Base.Int.{pos, signed32}
use kumf.CText.{
  codes, fgets, split_at, atoi, skip_space, read_sign, read_digits, is_space, is_digit, digit_value,
}
use kumf.Spe.Config.{read_format_bits, spe_event_config}
use kumf.Spe.Config.Bits.{bit, spe_event_config-bits}
use kumf.Spe.Events.{Open, opened, open_from, retry_from}
use kumf.Spe.Events.Opened.{mapped_from, opened_lem}
use kumf.Spe.Poll.{poll_loop, Arrival}
use kumf.Spe.Poll.Lossless.{Delivers, all_samples, arrivals}
use kumf.Spe.Ring.{
  Page, Sample, lines, past_end, parse_spe_buffer, scan, header_size, header_type, read_bytes,
  buf_size,
}
use kumf.Spe.Ring.Ends.{parse_spe_buffer_ends, sample_past_end}
use kumf.Spe.Ring.Records.{Record, Written, samples, encode, encode_all, parse_spe_buffer_records}
use kumf.Spe.Thread.{profile_thread_fn}
use kumf.Spe.Thread.Whole.{has_buffer, profile_thread_fn_lem}
use kumf.Spe.Wrapper.{
  Attached, Round, Wrapped, attach_from, exited, is_open, profile_child, reaped, signaled,
  still_running, unattached,
}
use kumf.Spe.Wrapper.Complete.{count, opened_from, profile_child_lem}
use kumf.Spe.Session.{fresh, run_calls, kumf_init, kumf_fini, start, stop}
use kumf.Spe.Session.Balance.{AtRest, kumf_fini-AtRest}

abbrev lost : Record
lost = record { rtype = 2; misc = 0; payload = 1 ∷ 2 ∷ 3 ∷ 4 ∷ 5 ∷ 6 ∷ 7 ∷ 8 ∷ [] }

abbrev sample : Record
sample = record { rtype = 9; misc = 2; payload = 17 ∷ 18 ∷ 19 ∷ 20 ∷ 21 ∷ 22 ∷ 23 ∷ 24 ∷ [] }

abbrev element : List ℕ → ℕ → ℕ
element [] i = 0
element (x ∷ xs) zero = x
element (x ∷ xs) (suc i) = element xs i

-- The bytes of records from 8 bytes before the buffer's end on.
abbrev ring : List Record → ℕ → ℕ
ring rs i = element (encode_all rs) ((i + 8) % 2 ^ 18)

-- A buffer with two records, the first of which goes round its end.
abbrev page : Page
page = record { data_head = 262168; data_tail = 262136; bytes = ring (lost ∷ sample ∷ []) }

abbrev matches : (ℕ → ℕ) → ℕ → List ℕ → Bool
matches b at [] = true
matches b at (x ∷ xs) = b (at % buf_size) == x && matches b (at + 1) xs

matches-Written : (b : ℕ → ℕ) (at : ℕ) (xs : List ℕ) → matches b at xs ≡ true → Written b at xs
matches-Written b at [] all = tt
matches-Written b at (x ∷ xs) all = (ground arith, matches-Written b (at + 1) xs (ground arith))

parse_spe_buffer_records_example :
    parse_spe_buffer 3 page
    ≡ (lines (samples 3 (lost ∷ sample ∷ [])), record page { data_tail = 262168 })
parse_spe_buffer_records_example =
    parse_spe_buffer_records 3 page (lost ∷ sample ∷ [])
      (matches-Written page.bytes 262136 (encode_all (lost ∷ sample ∷ [])) refl)
      ((omega arith, omega arith, refl), ((omega arith, omega arith, refl), tt)) (refl, (refl, tt))
      refl refl (omega arith)

-- What the example prints.
printed_sample :
    (parse_spe_buffer 3 page).0
    ≡ lines (
        record {
          cpu = 3;
          size = 16;
          hex = 9 ∷ 0 ∷ 0 ∷ 0 ∷ 2 ∷ 0 ∷ 16 ∷ 0 ∷ 17 ∷ 18 ∷ 19 ∷ 20 ∷ 21 ∷ 22 ∷ 23 ∷ 24 ∷ [];
        }
        ∷ [])
unfolding parse_spe_buffer scan header_size header_type read_bytes
printed_sample = refl

-- Two processors get the same records twice, and one of them is attached.
abbrev first_page : Page
first_page = record { data_head = 262136; data_tail = 262136; bytes = λ i. 0 }

abbrev news : Arrival
news k = (262168, ring (lost ∷ sample ∷ []))

abbrev rounds : List (Arrival × (ℕ → List Record))
rounds = (news, λ k. lost ∷ sample ∷ []) ∷ (news, λ k. []) ∷ []

rounds-Delivers : (attached : ℕ → Bool) → Delivers 2 attached rounds (λ k. first_page)
rounds-Delivers attached = (
  λ k on inside. record {
    written =
        matches-Written (ring (lost ∷ sample ∷ [])) 262136 (encode_all (lost ∷ sample ∷ [])) refl;
    fits = ((omega arith, omega arith, refl), ((omega arith, omega arith, refl), tt));
    whole = (refl, (refl, tt));
    aligned = refl;
    up_to = refl;
    small = omega arith;
  },
  (
    λ k on inside. record {
      written = tt;
      fits = tt;
      whole = tt;
      aligned = refl;
      up_to = refl;
      small = omega arith;
    },
    tt,
  ),
)

-- A buffer of zeros.
abbrev blank : Page
blank = record { data_head = 64; data_tail = 0; bytes = λ i. 0 }

parse_spe_buffer_ends_example :
    (parse_spe_buffer 0 blank ≡ (past_end, blank))
    ⊎ ((ls : List Sample) × (parse_spe_buffer 0 blank
          ≡ (lines ls, record blank { data_tail = 64 })))
parse_spe_buffer_ends_example =
    parse_spe_buffer_ends 0 blank (λ i. omega arith) (omega arith) (omega arith)

-- A sample that goes round the buffer's end.
abbrev broken : Page
broken = record { data_head = 262152; data_tail = 262136; bytes = ring (sample ∷ []) }

sample_past_end_example : parse_spe_buffer 1 broken ≡ (past_end, broken)
sample_past_end_example =
    sample_past_end 1 broken sample (matches-Written broken.bytes 262136 (encode sample) refl)
      (omega arith, omega arith, refl) refl refl (omega arith) (omega arith) (omega arith)

kumf_fini-AtRest_example : AtRest (
    kumf_fini
      (run_calls (stop ∷ start (some 7) ∷ start (some 8) ∷ []) (kumf_init none (some 5) fresh)))
kumf_fini-AtRest_example =
    kumf_fini-AtRest none (some 5) (stop ∷ start (some 7) ∷ start (some 8) ∷ [])

-- A kernel without the profiler's own events.
abbrev generic_only : Open
generic_only call attr cpu = if attr.sample_period == 10000 then none else some (call + 3)

opened_lem_example : opened generic_only (some 8) 0 4 2 ≡ some 6
opened_lem_example = opened_lem generic_only (some 8) 0 4 2 (omega arith)

-- Two processors, the second of which gets no buffer.
abbrev two_events : ℕ → Option ℕ
two_events = opened generic_only (some 8) 0 2

profile_thread_fn_lem_example :
    ((profile_thread_fn generic_only
        (λ fd. ltb fd 5)
        (some 8)
        0
        2
        (arrivals rounds)
        (λ k. first_page)).written
      ≡ lines (all_samples 2 (λ k. has_buffer (λ fd. ltb fd 5) (two_events k)) rounds))
    × ((profile_thread_fn generic_only
          (λ fd. ltb fd 5)
          (some 8)
          0
          2
          (arrivals rounds)
          (λ k. first_page)).closed
        ≡ mapped_from (λ fd. ltb fd 5) 2 0 two_events)
profile_thread_fn_lem_example =
    profile_thread_fn_lem generic_only (λ fd. ltb fd 5) (some 8) 0 2 rounds (λ k. first_page)
      (rounds-Delivers (λ k. has_buffer (λ fd. ltb fd 5) (two_events k)))

leaked : mapped_from (λ fd. ltb fd 6) 4 0 (opened generic_only (some 8) 0 4) ≡ 4 ∷ 5 ∷ []
unfolding mapped_from opened open_from retry_from
leaked = refl

read_load : read_format_bits (some (codes "config:33\n")) ≡ pos 33
unfolding read_format_bits fgets split_at atoi skip_space read_sign read_digits is_space is_digit
    digit_value signed32
read_load = refl

read_store : read_format_bits (some (codes "config:34\n")) ≡ pos 34
unfolding read_format_bits fgets split_at atoi skip_space read_sign read_digits is_space is_digit
    digit_value signed32
read_store = refl

-- The word before the colon is not looked at.
read_latency : read_format_bits (some (codes "config2:0-11\n")) ≡ pos 0
unfolding read_format_bits fgets split_at atoi skip_space read_sign read_digits is_space is_digit
    digit_value signed32
read_latency = refl

spe_event_config-bits_example :
    (config : ℕ) × (spe_event_config
        (some (codes "config:33\n"))
        (some (codes "config:34\n"))
        (some (codes "config2:0-11\n"))
        true
        true
        32
      ≡ some config)
    × ((k : ℕ) → bit k config ≡ (k == 33 || (k == 34 || k == 0 + 5)))
spe_event_config-bits_example =
    spe_event_config-bits (some (codes "config:33\n")) (some (codes "config:34\n"))
      (some (codes "config2:0-11\n")) 33 34 0 read_load read_store read_latency (omega arith)
      (omega arith) (omega arith)

-- A command that runs for one round and exits with 3 in the next, on processors of which the second
-- has no buffer.
abbrev child_rounds : List Round
child_rounds =
    record { news = news; child_exited = false; final_status = signaled; waited = still_running }
    ∷ record {
      news = news;
      child_exited = false;
      final_status = signaled;
      waited = reaped (exited 3);
    }
    ∷ []

abbrev child_open : ℕ → Option ℕ
child_open i = some (i + 3)

abbrev two_attached : Attached
two_attached = attach_from child_open (λ fd. fd == 3) 2 0 unattached

abbrev wrapped : Wrapped
wrapped = profile_child child_open (λ fd. fd == 3) 2 child_rounds news (λ k. first_page)

profile_child_lem_example :
    (wrapped.output
      ≡ (poll_loop 2
          (λ i. is_open (two_attached.fds i))
          (news ∷ news ∷ news ∷ [])
          (λ k. first_page)).0)
    × (wrapped.code ≡ some 3)
    × ((fd : ℕ) → count fd wrapped.closed ≡ count fd (opened_from child_open 2 0))
profile_child_lem_example =
    profile_child_lem child_open (λ fd. fd == 3) 2 child_rounds news (λ k. first_page) (exited 3)
      refl
