-- ===== src/Spe/Poll/Lossless.antt =====
-- The rounds of the poll loop over buffers that hold whole records.
use kumf.Base.{
  ℕ, zero, suc, ◌+◌, ◌%◌, ◌<◌, ◌≤◌, ◌≡◌, refl, ◌==◌, if◌then◌else◌, Bool, true, List, [], ◌∷◌, ◌++◌,
  All, arith, Bool-cases, inl, inr, ◌≢◌, ◌∙◌, ap,
}
use kumf.Base.Store.{update}
use kumf.Spe.Poll.{poll_cpus, poll_loop, Arrival, arrive}
use kumf.Spe.Ring.{ulong_mod, Page, Sample, lines}
use kumf.Spe.Ring.Records.{
  Record, encode_all, Written, IsRecord, Unbroken, total_size, samples, parse_spe_buffer_records,
}

-- The page holds the records behind its tail, and nothing more.
pub record Holds (page : Page) (rs : List Record) : Type 0 where
  pub written : Written page.bytes page.data_tail (encode_all rs)
  pub fits : All IsRecord rs
  pub whole : Unbroken page.data_tail rs
  pub aligned : page.data_tail % 8 ≡ 0
  pub up_to : page.data_head ≡ page.data_tail + total_size rs
  pub small : page.data_head < ulong_mod

-- The samples of the processors from `i` on.
unfoldable pub samples_from : ℕ → ℕ → (ℕ → Bool) → (ℕ → List Record) → List Sample
samples_from zero i attached rs = []
samples_from (suc left) i attached rs =
    if attached i
    then samples i (rs i) ++ samples_from left (suc i) attached rs
    else samples_from left (suc i) attached rs

abbrev pub drained : (ℕ → List Record) → (ℕ → Page) → ℕ → Page
drained rs pages k = record (pages k) { data_tail = (pages k).data_tail + total_size (rs k) }

-- One round over the processors from `i` on: the samples, and the pages of the processors behind
-- and of those that it reads.
abbrev Round : ℕ → ℕ → (ℕ → Bool) → (ℕ → Page) → (ℕ → List Record) → Type 0
Round left i attached pages rs =
    ((poll_cpus left i attached pages).0 ≡ lines (samples_from left i attached rs))
    × ((k : ℕ) → k < i → (poll_cpus left i attached pages).1 k ≡ pages k)
    × ((k : ℕ)
        → attached k ≡ true
        → i ≤ k
        → k < i + left
        → (poll_cpus left i attached pages).1 k ≡ drained rs pages k)

update_here : (pages : ℕ → Page) (i k : ℕ) (p : Page) → k ≡ i → update pages i p k ≡ p
update_here pages i k p e = ground arith

update_other : (pages : ℕ → Page) (i k : ℕ) (p : Page) → k ≢ i → update pages i p k ≡ pages k
update_other pages i k p e = ground arith

poll_cpus-samples :
    (left i : ℕ) (attached : ℕ → Bool) (pages : ℕ → Page) (rs : ℕ → List Record)
    → ((k : ℕ) → attached k ≡ true → i ≤ k → k < i + left → Holds (pages k) (rs k))
    → Round left i attached pages rs
unfolding poll_cpus samples_from
poll_cpus-samples zero i attached pages rs holds =
    (refl, λ k before. refl, λ k on from until. absurd (omega arith))
poll_cpus-samples (suc left) i attached pages rs holds = elim (Bool-cases (attached i)) [
  | inl on ↦
      let h = holds i on (omega arith) (omega arith) in
      let parsed =
        parse_spe_buffer_records i (pages i) (rs i) h.written h.fits h.whole h.aligned h.up_to
          h.small in
      let new = drained rs pages i in
      let pages' = update pages i new in
      let rest = poll_cpus-samples left (suc i) attached pages' rs (λ k on' from until.
        rw (update_other pages i k new (omega arith)) (holds k on' (omega arith) (omega arith))) in
      rw (on, parsed, rest.0)
        (
          refl,
          λ k before. rest.1 k (omega arith) ∙ update_other pages i k new (omega arith),
          λ k on' from until. elim (Bool-cases (k == i)) [
            | inl here ↦
                let same : k ≡ i = ground arith in
                rw same (rest.1 i (omega arith) ∙ update_here pages i i new refl)
            | inr later ↦
                let other = update_other pages i k new (ground arith) in
                rest.2 k on' (ground arith) (omega arith)
                ∙ ap {A = Page} (λ p. record p { data_tail = p.data_tail + total_size (rs k) })
                    other
          ],
        )
  | inr off ↦
      let rest =
        poll_cpus-samples left (suc i) attached pages rs
          (λ k on from until. holds k on (omega arith) (omega arith)) in
      rw (off, rest.0)
        (
          refl,
          λ k before. rest.1 k (omega arith),
          λ k on from until.
              let later : k ≢ i = λ e. let here : attached i ≡ true = rw e at on in cc in
              rest.2 k on (omega arith) (omega arith),
        )
]

-- The records of each round, and of which the kernel's pages are made: each round's news hold, at
-- the processors that are attached, just the records that are new.
abbrev pub Delivers : ℕ → (ℕ → Bool) → List (Arrival × (ℕ → List Record)) → (ℕ → Page) → Type 0
Delivers n attached [] pages = Unit
Delivers n attached ((news, rs) ∷ rounds) pages =
    ((k : ℕ) → attached k ≡ true → k < n → Holds (arrive news pages k) (rs k))
    × Delivers n attached rounds (drained rs (arrive news pages))

abbrev pub all_samples : ℕ → (ℕ → Bool) → List (Arrival × (ℕ → List Record)) → List Sample
all_samples n attached [] = []
all_samples n attached ((news, rs) ∷ rounds) =
    samples_from n 0 attached rs ++ all_samples n attached rounds

abbrev pub arrivals : List (Arrival × (ℕ → List Record)) → List Arrival
arrivals [] = []
arrivals ((news, rs) ∷ rounds) = news ∷ arrivals rounds

poll_loop-samples_like :
    (n : ℕ) (attached : ℕ → Bool) (rounds : List (Arrival × (ℕ → List Record)))
    (pages like : ℕ → Page)
    → Delivers n attached rounds like
    → ((k : ℕ) → attached k ≡ true → k < n → pages k ≡ like k)
    → (poll_loop n attached (arrivals rounds) pages).0 ≡ lines (all_samples n attached rounds)
unfolding poll_loop
poll_loop-samples_like n attached [] pages like delivers agree = refl
poll_loop-samples_like n attached ((news, rs) ∷ rounds) pages like delivers agree =
    let fed = arrive news pages in
    let holds : (k : ℕ) → attached k ≡ true → 0 ≤ k → k < 0 + n → Holds (fed k) (rs k) =
      λ k on from until. rw (agree k on (omega arith)) (delivers.0 k on (omega arith)) in
    let round = poll_cpus-samples n 0 attached fed rs holds in
    let rest =
      poll_loop-samples_like n attached rounds (poll_cpus n 0 attached fed).1
        (drained rs (arrive news like)) delivers.1
        (λ k on until. round.2 k on (omega arith) (omega arith) ∙ rw (agree k on until) refl) in
    rw (round.0, rest) refl

-- Where each round finds in the buffer of each attached processor just the new records, laid out
-- as parse_spe_buffer needs them, the rounds write each sample of these processors once, round by
-- round and processor by processor.
pub poll_loop-samples :
    (n : ℕ) (attached : ℕ → Bool) (rounds : List (Arrival × (ℕ → List Record))) (pages : ℕ → Page)
    → Delivers n attached rounds pages
    → (poll_loop n attached (arrivals rounds) pages).0 ≡ lines (all_samples n attached rounds)
poll_loop-samples n attached rounds pages delivers =
    poll_loop-samples_like n attached rounds pages pages delivers (λ k on until. refl)
