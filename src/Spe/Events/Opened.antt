-- ===== src/Spe/Events/Opened.antt =====
-- The descriptors of the processors, as they are opened, mapped and closed.
use kumf.Base.{
  ℕ, zero, suc, ◌+◌, ◌-◌, ◌<◌, ◌≤◌, ◌≡◌, refl, ◌==◌, if◌then◌else◌, Bool, true, false, Option, none,
  some, Option-cases, if_cases, List, [], ◌∷◌, arith, Bool-cases, ap, ◌∙◌, inl, inr,
}
use kumf.Base.Store.{update}
use kumf.Spe.Events.{
  Attr, spe_attr, fallback, Open, retry_from, open_from, map_from, close_from, opened, closed,
  failed, if_open,
}

retry_from_before :
    (perf : Open) (left j call : ℕ) (attr : Attr) (fds : ℕ → Option ℕ) (k : ℕ)
    → k < j
    → retry_from perf left j call attr fds k ≡ fds k
unfolding retry_from
retry_from_before perf zero j call attr fds k before = refl
retry_from_before perf (suc left) j call attr fds k before =
    let other : (j == k) ≡ false = ground arith in
    retry_from_before perf left (suc j) (call + 1) attr _ k (omega arith) ∙ rw other refl

retry_from_lem :
    (perf : Open) (left j call : ℕ) (attr : Attr) (fds : ℕ → Option ℕ) (k : ℕ)
    → j ≤ k
    → k < j + left
    → retry_from perf left j call attr fds k ≡ perf (call + (k - j)) attr k
unfolding retry_from
retry_from_lem perf zero j call attr fds k from until = absurd (omega arith)
retry_from_lem perf (suc left) j call attr fds k from until = elim (Bool-cases (j == k)) [
  | inl here ↦
      let same : k ≡ j = ground arith in
      let hit : (j == j) ≡ true = ground arith in
      let first : call + (j - j) ≡ call = omega arith in
      rw (same, first)
        (retry_from_before perf left (suc j) (call + 1) attr _ j (omega arith) ∙ rw hit refl)
  | inr later ↦
      let shift : call + 1 + (k - suc j) ≡ call + (k - j) = ground arith in
      retry_from_lem perf left (suc j) (call + 1) attr _ k (ground arith) (omega arith)
      ∙ ap (λ c. perf c attr k) shift
]

open_from_later :
    (perf : Open) (left i call : ℕ) (attr : Attr) (fds : ℕ → Option ℕ)
    → 1 ≤ i
    → open_from perf left i call attr fds ≡ retry_from perf left i call attr fds
unfolding open_from retry_from
open_from_later perf zero i call attr fds later = refl
open_from_later perf (suc left) i call attr fds later =
    let not_first : (i == 0) ≡ false = ground arith in
    let rest =
      open_from_later perf left (suc i) (call + 1) attr (update fds i (perf call attr i))
        (omega arith) in
    let all = retry_from perf left (suc i) (call + 1) attr (update fds i (perf call attr i)) in
    rw (not_first, rest)
      (if_cases (λ v. v ≡ all) (failed (perf call attr i))
        (λ gone.
          if_cases (λ v. v ≡ all) (failed (update fds i (perf call attr i) i)) (λ e. refl)
            (λ e. refl))
        (λ e. refl))

retry_from_first :
    (perf : Open) (left call : ℕ) (attr : Attr) (fds : ℕ → Option ℕ) (k : ℕ)
    → fds 0 ≡ perf call attr 0
    → k < suc left
    → retry_from perf left 1 (call + 1) attr fds k ≡ perf (call + k) attr k
retry_from_first perf left call attr fds k first inside = elim (Bool-cases (k == 0)) [
  | inl here ↦
      let same : k ≡ 0 = ground arith in
      let none_before : call + 0 ≡ call = omega arith in
      rw (same, none_before)
        (retry_from_before perf left 1 (call + 1) attr fds 0 (omega arith) ∙ first)
  | inr later ↦
      let shift : call + 1 + (k - 1) ≡ call + k = ground arith in
      retry_from_lem perf left 1 (call + 1) attr fds k (ground arith) (omega arith)
      ∙ ap (λ c. perf c attr k) shift
]

-- Each processor's descriptor is what one call of perf_event_open gives for it with the same
-- attributes: the first ones if the first call succeeds, and else the fallback for all
-- processors, also where the fallback fails on processor 0.
pub opened_lem :
    (perf : Open) (type : Option ℕ) (config n k : ℕ)
    → k < n
    → opened perf type config n k ≡ (
        if failed (perf 0 (spe_attr type config) 0)
        then perf (1 + k) (fallback (spe_attr type config)) k
        else perf k (spe_attr type config) k)
unfolding opened open_from
opened_lem perf type config zero k inside = absurd (omega arith)
opened_lem perf type config (suc left) k inside =
    let attr = spe_attr type config in
    let first : ℕ → Option ℕ = update (λ i. some 0) 0 (perf 0 attr 0) in
    let again : ℕ → Option ℕ = update first 0 (perf 1 (fallback attr) 0) in
    elim (Bool-cases (failed (perf 0 attr 0))) [
      | inl gone ↦
          let all = retry_from_first perf left 1 (fallback attr) again k refl inside in
          let same = open_from_later perf left 1 2 (fallback attr) again (omega arith) in
          rw (gone, same)
            (if_cases {A = ℕ → Option ℕ} (λ v. v k ≡ perf (1 + k) (fallback attr) k)
              (failed (perf 1 (fallback attr) 0)) (λ e. all) (λ e. all))
      | inr there ↦
          let same = open_from_later perf left 1 1 attr first (omega arith) in
          let none_before : 0 + k ≡ k = omega arith in
          rw (there, same)
            (rw none_before at (retry_from_first perf left 0 attr first k refl inside))
    ]

-- The descriptors whose buffers are mapped, from processor `i` on.
unfoldable pub mapped_from : (ℕ → Bool) → ℕ → ℕ → (ℕ → Option ℕ) → List ℕ
mapped_from mmap zero i fds = []
mapped_from mmap (suc left) i fds =
    let rest = mapped_from mmap left (suc i) fds in
    if_open (fds i) rest (λ fd. if mmap fd then fd ∷ rest else rest)

pub map_from_before :
    (mmap : ℕ → Bool) (left i : ℕ) (fds : ℕ → Option ℕ) (mapped : ℕ → Bool) (k : ℕ)
    → k < i
    → (map_from mmap left i fds mapped).0 k ≡ fds k
unfolding map_from
map_from_before mmap zero i fds mapped k before = refl
map_from_before mmap (suc left) i fds mapped k before =
    let other : (i == k) ≡ false = ground arith in
    elim (Option-cases (fds i)) [
      | inl gone ↦ rw gone (map_from_before mmap left (suc i) fds mapped k (omega arith))
      | inr (fd, there) ↦
          let kept = map_from_before mmap left (suc i) fds (update mapped i true) k (omega arith) in
          let lost = map_from_before mmap left (suc i) (update fds i none) mapped k (omega arith) in
          rw there (
            if_cases {A = (ℕ → Option ℕ) × (ℕ → Bool)} (λ r. r.0 k ≡ fds k) (mmap fd) (λ e. kept)
              (λ e. lost ∙ rw other refl))
    ]

-- Only the descriptors from `i` on are read.
mapped_from-update :
    (mmap : ℕ → Bool) (left i j : ℕ) (fds : ℕ → Option ℕ) (v : Option ℕ)
    → j < i
    → mapped_from mmap left i (update fds j v) ≡ mapped_from mmap left i fds
unfolding mapped_from
mapped_from-update mmap zero i j fds v before = refl
mapped_from-update mmap (suc left) i j fds v before =
    let other : (j == i) ≡ false = ground arith in
    let rest = mapped_from-update mmap left (suc i) j fds v (omega arith) in rw (other, rest) refl

close_from-mapped_from :
    (mmap : ℕ → Bool) (left i : ℕ) (fds : ℕ → Option ℕ) (mapped : ℕ → Bool)
    → close_from left i (map_from mmap left i fds mapped).0 ≡ mapped_from mmap left i fds
unfolding map_from close_from mapped_from
close_from-mapped_from mmap zero i fds mapped = refl
close_from-mapped_from mmap (suc left) i fds mapped = elim (Option-cases (fds i)) [
  | inl gone ↦
      let here = map_from_before mmap left (suc i) fds mapped i (omega arith) ∙ gone in
      rw (gone, here) (close_from-mapped_from mmap left (suc i) fds mapped)
  | inr (fd, there) ↦
      let kept =
        map_from_before mmap left (suc i) fds (update mapped i true) i (omega arith) ∙ there in
      let hit : (i == i) ≡ true = ground arith in
      let lost = map_from_before mmap left (suc i) (update fds i none) mapped i (omega arith) in
      let rest = close_from-mapped_from mmap left (suc i) fds (update mapped i true) in
      let rest' =
        close_from-mapped_from mmap left (suc i) (update fds i none) mapped
        ∙ mapped_from-update mmap left (suc i) i fds none (omega arith) in
      elim (Bool-cases (mmap fd)) [
        | inl can ↦ rw (there, can, kept, rest) refl
        | inr cannot ↦ rw (there, cannot, rw hit at lost, rest') refl
      ]
]

-- At its end the thread closes, in the order of the processors, just those descriptors whose
-- buffers could be mapped: the others stay open.
pub closed_lem :
    (perf : Open) (mmap : ℕ → Bool) (type : Option ℕ) (config n : ℕ)
    → closed perf mmap type config n ≡ mapped_from mmap n 0 (opened perf type config n)
unfolding closed
closed_lem perf mmap type config n =
    close_from-mapped_from mmap n 0 (opened perf type config n) (λ i. false)
