-- ===== src/Spe/Thread/Whole.antt =====
-- The profiling thread as a whole, over the lemmas on its loops.
use kumf.Base.{
  ℕ, zero, suc, ◌+◌, ◌≡◌, ◌<◌, ◌≤◌, refl, ◌==◌, ◌&&◌, Bool, true, false, Option, none, some, List,
  [], ◌∷◌, arith, Bool-cases, Option-cases, if_cases, ap, ◌∙◌, inl, inr,
}
use kumf.Base.Store.{update}
use kumf.Spe.Events.{Open, cpus, opened, map_from, closed}
use kumf.Spe.Events.Opened.{map_from_before, mapped_from, closed_lem}
use kumf.Spe.Poll.{Arrival, arrive, poll_cpus, poll_loop}
use kumf.Spe.Poll.Lossless.{Delivers, all_samples, arrivals, poll_loop-samples}
use kumf.Spe.Ring.{Page, lines, parse_spe_buffer}
use kumf.Spe.Ring.Records.{Record}
use kumf.Spe.Thread.{has_event, profile_thread_fn}

-- A processor has an event, and its buffer can be mapped.
abbrev pub has_buffer : (ℕ → Bool) → Option ℕ → Bool
has_buffer mmap none = false
has_buffer mmap (some fd) = mmap fd

-- Processors that are attached alike are polled alike.
poll_cpus-alike :
    (left i : ℕ) (a b : ℕ → Bool) (pages : ℕ → Page)
    → ((k : ℕ) → i ≤ k → k < i + left → a k ≡ b k)
    → poll_cpus left i a pages ≡ poll_cpus left i b pages
unfolding poll_cpus
poll_cpus-alike zero i a b pages alike = refl
poll_cpus-alike (suc left) i a b pages alike =
    let parsed = parse_spe_buffer i (pages i) in
    let here = alike i (omega arith) (omega arith) in
    let rest =
      poll_cpus-alike left (suc i) a b (update pages i parsed.1)
        (λ k from until. alike k (omega arith) (omega arith)) in
    let skipped =
      poll_cpus-alike left (suc i) a b pages
        (λ k from until. alike k (omega arith) (omega arith)) in
    rw (here, rest, skipped) refl

poll_loop-alike :
    (n : ℕ) (a b : ℕ → Bool) (rounds : List Arrival) (pages : ℕ → Page)
    → ((k : ℕ) → k < n → a k ≡ b k)
    → poll_loop n a rounds pages ≡ poll_loop n b rounds pages
unfolding poll_loop
poll_loop-alike n a b [] pages alike = refl
poll_loop-alike n a b (news ∷ rounds) pages alike =
    let round =
      poll_cpus-alike n 0 a b (arrive news pages) (λ k from until. alike k (omega arith)) in
    let rest = poll_loop-alike n a b rounds (poll_cpus n 0 b (arrive news pages)).1 alike in
    rw (round, rest) refl

mapped_before :
    (mmap : ℕ → Bool) (left i : ℕ) (fds : ℕ → Option ℕ) (mapped : ℕ → Bool) (k : ℕ)
    → k < i
    → (map_from mmap left i fds mapped).1 k ≡ mapped k
unfolding map_from
mapped_before mmap zero i fds mapped k before = refl
mapped_before mmap (suc left) i fds mapped k before =
    let other : (i == k) ≡ false = ground arith in
    elim (Option-cases (fds i)) [
      | inl gone ↦ rw gone (mapped_before mmap left (suc i) fds mapped k (omega arith))
      | inr (fd, there) ↦
          let kept = mapped_before mmap left (suc i) fds (update mapped i true) k (omega arith) in
          let lost = mapped_before mmap left (suc i) (update fds i none) mapped k (omega arith) in
          rw there (
            if_cases {A = (ℕ → Option ℕ) × (ℕ → Bool)} (λ r. r.1 k ≡ mapped k) (mmap fd)
              (λ e. kept ∙ rw other refl) (λ e. lost))
    ]

-- After the loop a processor is polled if it has a buffer.
abbrev Polled : (ℕ → Bool) → ℕ → Option ℕ → (ℕ → Option ℕ) × (ℕ → Bool) → Type 0
Polled mmap k fd r = (has_event (r.0 k) && r.1 k) ≡ has_buffer mmap fd

polled_here :
    (mmap : ℕ → Bool) (left i : ℕ) (fds : ℕ → Option ℕ) (mapped : ℕ → Bool)
    → Polled mmap i (fds i) (map_from mmap (suc left) i fds mapped)
unfolding map_from
polled_here mmap left i fds mapped =
    let hit : (i == i) ≡ true = ground arith in
    elim (Option-cases (fds i)) [
      | inl gone ↦
          let same = map_from_before mmap left (suc i) fds mapped i (omega arith) ∙ gone in
          rw (gone, same) refl
      | inr (fd, there) ↦
          let kept =
            map_from_before mmap left (suc i) fds (update mapped i true) i (omega arith) ∙ there in
          let set = mapped_before mmap left (suc i) fds (update mapped i true) i (omega arith) in
          let lost = map_from_before mmap left (suc i) (update fds i none) mapped i (omega arith) in
          rw there (
            if_cases (Polled mmap i (some fd)) (mmap fd) (λ can. rw (can, kept, set, hit) refl)
              (λ cannot. rw (cannot, lost, hit) refl))
    ]

polled_lem :
    (mmap : ℕ → Bool) (left i : ℕ) (fds : ℕ → Option ℕ) (mapped : ℕ → Bool) (k : ℕ)
    → i ≤ k
    → k < i + left
    → Polled mmap k (fds k) (map_from mmap left i fds mapped)
unfolding map_from
polled_lem mmap zero i fds mapped k from until = absurd (omega arith)
polled_lem mmap (suc left) i fds mapped k from until = elim (Bool-cases (i == k)) [
  | inl here ↦ let same : k ≡ i = ground arith in rw same (polled_here mmap left i fds mapped)
  | inr later ↦
      let from' : suc i ≤ k = ground arith in
      let skipped = polled_lem mmap left (suc i) fds mapped k from' (omega arith) in
      let kept = polled_lem mmap left (suc i) fds (update mapped i true) k from' (omega arith) in
      let lost = polled_lem mmap left (suc i) (update fds i none) mapped k from' (omega arith) in
      elim (Option-cases (fds i)) [
        | inl gone ↦ rw gone skipped
        | inr (fd, there) ↦
            rw there (
              if_cases (Polled mmap k (fds k)) (mmap fd) (λ can. kept) (λ cannot. rw later at lost))
      ]
]

-- Where each round finds in the buffer of each processor that has an event and a mapped buffer
-- just the new records, laid out as parse_spe_buffer needs them, the profiling thread as a whole
-- writes each sample of these processors once, and at its end closes, in the order of the
-- processors, just the descriptors whose buffers could be mapped: the others stay open.
pub profile_thread_fn_lem :
    (perf : Open) (mmap : ℕ → Bool) (type : Option ℕ) (config online : ℕ)
    (rounds : List (Arrival × (ℕ → List Record))) (pages : ℕ → Page)
    → let n = cpus online in
      let fds = opened perf type config n in
      Delivers n (λ k. has_buffer mmap (fds k)) rounds pages
      → let t = profile_thread_fn perf mmap type config online (arrivals rounds) pages in
        (t.written ≡ lines (all_samples n (λ k. has_buffer mmap (fds k)) rounds))
        × (t.closed ≡ mapped_from mmap n 0 fds)
unfolding profile_thread_fn closed
profile_thread_fn_lem perf mmap type config online rounds pages delivers =
    let n = cpus online in
    let fds = opened perf type config n in
    let alike =
      poll_loop-alike n _ (λ k. has_buffer mmap (fds k)) (arrivals rounds) pages
        (λ k inside. polled_lem mmap n 0 fds (λ i. false) k (omega arith) (omega arith)) in
    (
      ap (λ r. r.0) alike
          ∙ poll_loop-samples n (λ k. has_buffer mmap (fds k)) rounds pages delivers,
      closed_lem perf mmap type config n,
    )
