-- ===== src/Spe/Poll.antt =====
-- src/tools/spe_self_profile.c: the loops of the profiling thread over the buffers of the
-- processors, while the profile is active and once more at its end.
pub mod Lossless
use kumf.Base.{ℕ, zero, suc, if◌then◌else◌, Bool, List, [], ◌∷◌, ◌++◌}
use kumf.Base.Store.{update}
use kumf.Spe.Ring.{Page, Sample, Scan, lines, past_end, out_of_fuel, parse_spe_buffer}

-- The lines of one buffer and then those of another.
abbrev pub followed_by : Scan → Scan → Scan
followed_by (lines a) (lines b) = lines (a ++ b)
followed_by (lines a) past_end = past_end
followed_by (lines a) out_of_fuel = out_of_fuel
followed_by past_end s = past_end
followed_by out_of_fuel s = out_of_fuel

-- The loop over the processors: `left` rounds, from processor `i` on. A processor is attached if its
-- event was opened and its buffer mapped.
unfoldable pub poll_cpus : ℕ → ℕ → (ℕ → Bool) → (ℕ → Page) → Scan × (ℕ → Page)
poll_cpus zero i attached pages = (lines [], pages)
poll_cpus (suc left) i attached pages =
    let skipped = poll_cpus left (suc i) attached pages in
    let parsed = parse_spe_buffer i (pages i) in
    let rest = poll_cpus left (suc i) attached (update pages i parsed.1) in
    if attached i then (followed_by parsed.0 rest.0, rest.1) else skipped

-- What the kernel has done since the last round: the new head and the bytes of each buffer.
abbrev pub Arrival : Type 0
Arrival = ℕ → ℕ × (ℕ → ℕ)

abbrev pub arrive : Arrival → (ℕ → Page) → ℕ → Page
arrive news pages k = record (pages k) { data_head = (news k).0; bytes = (news k).1 }

-- The poll loop and the final drain: a round for each second that the profile is active, and the
-- last one.
unfoldable pub poll_loop : ℕ → (ℕ → Bool) → List Arrival → (ℕ → Page) → Scan × (ℕ → Page)
poll_loop n_cpus attached [] pages = (lines [], pages)
poll_loop n_cpus attached (news ∷ rounds) pages =
    let round = poll_cpus n_cpus 0 attached (arrive news pages) in
    let rest = poll_loop n_cpus attached rounds round.1 in (followed_by round.0 rest.0, rest.1)
