-- ===== src/Spe/Events.antt =====
-- src/tools/spe_self_profile.c: the events of the profiling thread: how it opens one for each
-- processor, maps their buffers, and closes them at its end.
pub mod Opened
use kumf.Base.{
  ℕ, zero, suc, ◌+◌, ◌-◌, min, ltb, ◌==◌, if◌then◌else◌, Bool, true, false, Option, none, some,
  List, [], ◌∷◌,
}
use kumf.Base.Store.{update}

abbrev pub max_cpus : ℕ
max_cpus = 160

pub data SampleField : Type 0 where
  ip tid addr cpu weight data_src : SampleField

-- What differs between the events that the thread asks for.
pub record Attr : Type 0 where
  pub type : ℕ
  pub config : ℕ
  pub sample_type : List SampleField
  pub sample_period : ℕ

-- `PERF_TYPE_HARDWARE`
abbrev pub type_hardware : ℕ
type_hardware = 0

-- The attributes at first, with the hardware type if the profiler has no type of its own.
abbrev pub spe_attr : Option ℕ → ℕ → Attr
spe_attr none config = record {
  type = type_hardware;
  config = config;
  sample_type = ip ∷ tid ∷ addr ∷ cpu ∷ weight ∷ data_src ∷ [];
  sample_period = 10000;
}
spe_attr (some type) config = record {
  type = type;
  config = config;
  sample_type = ip ∷ tid ∷ addr ∷ cpu ∷ weight ∷ data_src ∷ [];
  sample_period = 10000;
}

-- What the loop writes into the attributes when processor 0 has no event.
abbrev pub fallback : Attr → Attr
fallback attr = record attr {
  type = type_hardware;
  config = 0;
  sample_type = ip ∷ tid ∷ addr ∷ [];
  sample_period = 100000;
}

-- `n_cpus`
abbrev pub cpus : ℕ → ℕ
cpus online = if ltb max_cpus online then max_cpus else online

-- `perf_event_open` is a parameter: what the call with a number answers for attributes and a
-- processor, a descriptor or an error.
abbrev pub Open : Type 0
Open = ℕ → Attr → ℕ → Option ℕ

-- The inner loop, `left` rounds from processor `j` on.
unfoldable pub retry_from : Open → ℕ → ℕ → ℕ → Attr → (ℕ → Option ℕ) → ℕ → Option ℕ
retry_from perf zero j call attr fds = fds
retry_from perf (suc left) j call attr fds =
    retry_from perf left (suc j) (call + 1) attr (update fds j (perf call attr j))

abbrev pub failed : Option ℕ → Bool
failed none = true
failed (some fd) = false

-- The loop that opens the events, `left` rounds from processor `i` on.
unfoldable pub open_from : Open → ℕ → ℕ → ℕ → Attr → (ℕ → Option ℕ) → ℕ → Option ℕ
open_from perf zero i call attr fds = fds
open_from perf (suc left) i call attr fds =
    let fds = update fds i (perf call attr i) in
    let other = fallback attr in
    let again = update fds i (perf (call + 1) other i) in
    let kept = open_from perf left (suc i) (call + 1) attr fds in
    let continued = open_from perf left (suc i) (call + 2) other again in
    let retried = retry_from perf left (suc i) (call + 2) other again in
    let kept_retried = retry_from perf left (suc i) (call + 1) attr fds in
    if failed (perf call attr i)
    then if i == 0
      then if failed (again i) then continued else retried
      else if failed (fds i)
      then kept
      else kept_retried
    else kept

-- A round of a loop: nothing without a descriptor.
abbrev pub if_open {ℓ} : {A : Type ℓ} → Option ℕ → A → (ℕ → A) → A
if_open none skip go = skip
if_open (some fd) skip go = go fd

-- The loop that maps the buffers: a buffer that is not mapped loses its descriptor, which is not
-- closed.
unfoldable pub map_from :
    (ℕ → Bool) → ℕ → ℕ → (ℕ → Option ℕ) → (ℕ → Bool) → (ℕ → Option ℕ) × (ℕ → Bool)
map_from mmap zero i fds mapped = (fds, mapped)
map_from mmap (suc left) i fds mapped =
    let skipped = map_from mmap left (suc i) fds mapped in
    let done = map_from mmap left (suc i) fds (update mapped i true) in
    let lost = map_from mmap left (suc i) (update fds i none) mapped in
    if_open (fds i) skipped (λ fd. if mmap fd then done else lost)

-- The loop at the end, `left` rounds from processor `i` on: the descriptors that it closes.
unfoldable pub close_from : ℕ → ℕ → (ℕ → Option ℕ) → List ℕ
close_from zero i fds = []
close_from (suc left) i fds =
    let rest = close_from left (suc i) fds in if_open (fds i) rest (λ fd. fd ∷ rest)

-- The thread's descriptors, at first those of a static array.
unfoldable pub opened : Open → Option ℕ → ℕ → ℕ → ℕ → Option ℕ
opened perf type config n = open_from perf n 0 0 (spe_attr type config) (λ i. some 0)

unfoldable pub closed : Open → (ℕ → Bool) → Option ℕ → ℕ → ℕ → List ℕ
closed perf mmap type config n =
    close_from n 0 (map_from mmap n 0 (opened perf type config n) (λ i. false)).0
