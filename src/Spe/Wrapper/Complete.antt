-- ===== src/Spe/Wrapper/Complete.antt =====
-- The rounds and the descriptors of the wrapper.
use kumf.Base.{
  ℕ, zero, suc, ◌+◌, ◌≡◌, ◌<◌, refl, ◌==◌, if◌then◌else◌, Bool, true, false, Option, none, some,
  List, [], ◌∷◌, ◌++◌, arith, Bool-cases, Option-cases, if_cases, ap, sym, ◌∙◌, inl, inr,
}
use kumf.Spe.Events.{if_open}
use kumf.Spe.Poll.{followed_by, poll_cpus, poll_loop, Arrival, arrive}
use kumf.Spe.Ring.{Page, Scan, lines, past_end, out_of_fuel}
use kumf.Spe.Wrapper.{
  Attached, attach_one, attach_from, Status, Round, round_ends, is_open, poll_child, close_mapped,
  exit_code, unattached, profile_child,
}

-- The first status of two.
abbrev pub first_of : Option Status → Option Status → Option Status
first_of none later = later
first_of (some status) later = some status

-- The status with which the command ends, if it does within the rounds.
abbrev pub ending : List Round → Option Status
ending [] = none
ending (r ∷ rounds) = first_of (round_ends r) (ending rounds)

abbrev pub unless_over : Option Status → List Arrival → List Arrival
unless_over none later = later
unless_over (some status) later = []

-- What the kernel has written in the rounds up to that one.
abbrev pub until_end : List Round → List Arrival
until_end [] = []
until_end (r ∷ rounds) = r.news ∷ unless_over (round_ends r) (until_end rounds)

append_assoc {ℓ} : {A : Type ℓ} (xs ys zs : List A) → (xs ++ ys) ++ zs ≡ xs ++ (ys ++ zs)
append_assoc [] ys zs = refl
append_assoc (x ∷ xs) ys zs = ap (λ t. x ∷ t) (append_assoc xs ys zs)

followed_by_assoc :
    (a b c : Scan) → followed_by (followed_by a b) c ≡ followed_by a (followed_by b c)
followed_by_assoc (lines a) (lines b) (lines c) = ap lines (append_assoc a b c)
followed_by_assoc (lines a) (lines b) past_end = refl
followed_by_assoc (lines a) (lines b) out_of_fuel = refl
followed_by_assoc (lines a) past_end c = refl
followed_by_assoc (lines a) out_of_fuel c = refl
followed_by_assoc past_end b c = refl
followed_by_assoc out_of_fuel b c = refl

followed_by_none : (a : Scan) → followed_by a (lines []) ≡ a
followed_by_none (lines []) = refl
followed_by_none (lines (x ∷ xs)) = ap (followed_by (lines (x ∷ []))) (followed_by_none (lines xs))
followed_by_none past_end = refl
followed_by_none out_of_fuel = refl

last_round :
    (n : ℕ) (attached : ℕ → Bool) (last : Arrival) (pages : ℕ → Page)
    → (poll_cpus n 0 attached (arrive last pages)).0 ≡ (poll_loop n attached (last ∷ []) pages).0
unfolding poll_loop
last_round n attached last pages =
    sym (followed_by_none (poll_cpus n 0 attached (arrive last pages)).0)

poll_child_lem :
    (n : ℕ) (attached : ℕ → Bool) (rounds : List Round) (pages : ℕ → Page) (status : Status)
    (last : Arrival)
    → ending rounds ≡ some status
    → let p = poll_child n attached rounds pages in
      (p.status ≡ some status)
      × (followed_by p.written (poll_cpus n 0 attached (arrive last p.pages)).0
          ≡ (poll_loop n attached (until_end rounds ++ last ∷ []) pages).0)
unfolding poll_child poll_loop
poll_child_lem n attached [] pages status last ends = absurd (cc)
poll_child_lem n attached (r ∷ rounds) pages status last ends =
    let round = poll_cpus n 0 attached (arrive r.news pages) in
    elim (Option-cases (round_ends r)) [
      | inl goes_on ↦
          let rest = poll_child_lem n attached rounds round.1 status last (rw goes_on at ends) in
          rw goes_on (rest.0, followed_by_assoc _ _ _ ∙ ap (followed_by round.0) rest.1)
      | inr (s, over) ↦
          rw over (rw over at ends, ap (followed_by round.0) (last_round n attached last round.1))
    ]

-- How often a descriptor occurs.
abbrev pub count : ℕ → List ℕ → ℕ
count fd [] = 0
count fd (x ∷ xs) = (if x == fd then 1 else 0) + count fd xs

-- The descriptors that are opened, from processor `i` on.
unfoldable pub opened_from : (ℕ → Option ℕ) → ℕ → ℕ → List ℕ
opened_from perf zero i = []
opened_from perf (suc left) i =
    let rest = opened_from perf left (suc i) in if_open (perf i) rest (λ fd. fd ∷ rest)

count-append : (fd : ℕ) (xs ys : List ℕ) → count fd (xs ++ ys) ≡ count fd xs + count fd ys
count-append fd [] ys = omega arith
count-append fd (x ∷ xs) ys = let rest = count-append fd xs ys in omega arith

attach_one_before :
    (mmap : ℕ → Bool) (i : ℕ) (o : Option ℕ) (s : Attached) (k : ℕ)
    → k < i
    → (attach_one mmap i o s).fds k ≡ s.fds k
attach_one_before mmap i none s k before =
    let other : (i == k) ≡ false = ground arith in rw other refl
attach_one_before mmap i (some fd) s k before =
    let other : (i == k) ≡ false = ground arith in
    if_cases {A = Attached} (λ a. a.fds k ≡ s.fds k) (mmap fd) (λ e. rw other refl)
      (λ e. rw other refl)

attach_from_before :
    (perf : ℕ → Option ℕ) (mmap : ℕ → Bool) (left i : ℕ) (s : Attached) (k : ℕ)
    → k < i
    → (attach_from perf mmap left i s).fds k ≡ s.fds k
unfolding attach_from
attach_from_before perf mmap zero i s k before = refl
attach_from_before perf mmap (suc left) i s k before =
    attach_from_before perf mmap left (suc i) (attach_one mmap i (perf i) s) k (omega arith)
    ∙ attach_one_before mmap i (perf i) s k before

-- One round, with the rests of the descriptors that are closed and opened.
attach_one-count :
    (mmap : ℕ → Bool) (i : ℕ) (o : Option ℕ) (s : Attached) (fd d : ℕ) (closed opened : List ℕ)
    → d + count fd closed ≡ count fd (attach_one mmap i o s).dropped + count fd opened
    → d + count fd (if_open ((attach_one mmap i o s).fds i) closed (λ f. f ∷ closed))
      ≡ count fd s.dropped + count fd (if_open o opened (λ f. f ∷ opened))
attach_one-count mmap i none s fd d closed opened rest =
    let hit : (i == i) ≡ true = ground arith in rw hit rest
attach_one-count mmap i (some f) s fd d closed opened rest =
    let hit : (i == i) ≡ true = ground arith in
    elim (Bool-cases (mmap f)) [
      | inl can ↦ let known = rw can at rest in rw (can, hit) (omega (arith, known))
      | inr cannot ↦
          let known = rw (cannot, count-append fd s.dropped (f ∷ [])) at rest in
          rw (cannot, hit) (omega (arith, known))
    ]

-- With what is dropped and what is closed, each descriptor occurs as often as it is opened.
attach_from-count :
    (perf : ℕ → Option ℕ) (mmap : ℕ → Bool) (left i : ℕ) (s : Attached) (fd : ℕ)
    → let t = attach_from perf mmap left i s in
      count fd t.dropped + count fd (close_mapped left i t.fds)
      ≡ count fd s.dropped + count fd (opened_from perf left i)
unfolding attach_from close_mapped opened_from
attach_from-count perf mmap zero i s fd = refl
attach_from-count perf mmap (suc left) i s fd =
    let s1 = attach_one mmap i (perf i) s in
    let rest = attach_from-count perf mmap left (suc i) s1 fd in
    let kept = attach_from_before perf mmap left (suc i) s1 i (omega arith) in
    rw kept (
      attach_one-count mmap i (perf i) s fd
        (count fd (attach_from perf mmap left (suc i) s1).dropped)
        (close_mapped left (suc i) (attach_from perf mmap left (suc i) s1).fds)
        (opened_from perf left (suc i)) rest)

-- Where the command ends within the rounds, the wrapper writes what the poll loop over the rounds
-- up to the end and the last one writes for the attached processors, exits with the command's
-- code, or 1 for one that a signal ended, and closes each descriptor as often as it opened it,
-- also where a buffer could not be mapped.
pub profile_child_lem :
    (perf : ℕ → Option ℕ) (mmap : ℕ → Bool) (n : ℕ) (rounds : List Round) (last : Arrival)
    (pages : ℕ → Page) (status : Status)
    → ending rounds ≡ some status
    → let w = profile_child perf mmap n rounds last pages in
      let s = attach_from perf mmap n 0 unattached in
      (w.output ≡ (poll_loop n (λ i. is_open (s.fds i)) (until_end rounds ++ last ∷ []) pages).0)
      × (w.code ≡ some (exit_code status))
      × ((fd : ℕ) → count fd w.closed ≡ count fd (opened_from perf n 0))
unfolding profile_child
profile_child_lem perf mmap n rounds last pages status ends =
    let s = attach_from perf mmap n 0 unattached in
    let (over, written) = poll_child_lem n (λ i. is_open (s.fds i)) rounds pages status last ends in
    rw over (
      written,
      refl,
      λ fd.
          count-append fd s.dropped (close_mapped n 0 s.fds)
          ∙ attach_from-count perf mmap n 0 unattached fd
          ∙ omega arith,
    )
