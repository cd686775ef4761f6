-- ===== src/Mlock/Hooks.antt =====
-- src/lib/mlock/ldlib.c: the intercepted `malloc`, `calloc`, `realloc` and `free`, and the
-- constructor. C++'s `operator new` and `operator delete` call the first and the last.
use kumf.Base.{ℕ, ◌*◌, ◌%◌, ◌^◌, ◌==◌, if◌then◌else◌, true, false, ◌&&◌, not, List, [], Option}
use kumf.Mlock.HotPages.{load_hot_pages}
use kumf.Mlock.Table.{Libc, State, record_alloc, remove_alloc}

-- `MLOCK_BUDGET_MB * 1024 * 1024`
abbrev pub budget_bytes : ℕ
budget_bytes = 10 * 1024 * 1024

module _ {W : Type 0} (libc : Libc W) where
  unfoldable pub malloc : ℕ → State W → ℕ × State W
  malloc sz s =
      let (ptr, w) = libc.malloc sz s.world in
      let s' = record s { world = w } in
      (ptr, if s.hot_pages_loaded then record_alloc libc ptr sz s' else s')

  unfoldable pub calloc : ℕ → ℕ → State W → ℕ × State W
  calloc nmemb size s =
      let (ptr, w) = libc.calloc nmemb size s.world in
      let s' = record s { world = w } in
      (
        ptr,
        if not (ptr == 0) && s.hot_pages_loaded
            then record_alloc libc ptr ((nmemb * size) % 2 ^ 64) s'
            else s',
      )

  unfoldable pub realloc : ℕ → ℕ → State W → ℕ × State W
  realloc ptr size s =
      let s₁ = remove_alloc libc ptr s in
      let (new_ptr, w) = libc.realloc ptr size s₁.world in
      let s₂ = record s₁ { world = w } in
      (
        new_ptr,
        if not (new_ptr == 0) && s.hot_pages_loaded then record_alloc libc new_ptr size s₂ else s₂,
      )

  unfoldable pub free : ℕ → State W → State W
  free p s =
      let s' = if s.hot_pages_loaded then remove_alloc libc p s else s in
      if p == 0 then s else record s' { world = libc.free p s'.world }

-- The static variables as they are loaded.
abbrev pub unloaded : {W : Type 0} → W → State W
unloaded w = record {
  hot_pages = [];
  hot_pages_loaded = false;
  total_locked_bytes = 0;
  mlock_budget = 0;
  pages_locked = 0;
  pages_skipped = 0;
  alloc_count = 0;
  overflowed = false;
  alloc_table = λ h. [];
  world = w;
}

-- The constructor, with the text of the file of hot pages if it can be opened.
unfoldable pub kumf_mlock_init : {W : Type 0} → Option (List ℕ) → State W → State W
kumf_mlock_init file s = if s.hot_pages_loaded then s else record s {
  hot_pages = load_hot_pages file s.hot_pages;
  hot_pages_loaded = true;
  mlock_budget = budget_bytes;
}
