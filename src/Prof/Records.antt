-- ===== src/Prof/Records.antt =====
-- What the intercepted functions log, and when they log nothing.
use kumf.Base.{ℕ, ◌+◌, ◌<◌, ◌≡◌, ◌≢◌, true, false, none, some, arith}
use kumf.Base.Int.{pos}
use kumf.Base.Store.{update}
use kumf.Prof.Hooks.{
  Libc, Event, write_entry, log_event, log_unless, malloc, calloc, realloc, memalign, free, mmap,
  mmap64, munmap,
}
use kumf.Prof.Log.{
  arr_size, log_bytes, Logs, Thread, returns, ruined, register, open_log, take_slot, get_log,
}

module _ {W : Type 0} (libc : Libc W) where
  abbrev in_world : Logs W → W → Logs W
  in_world l w = record l { world = w }

  -- In a trace nothing is logged by any function.
  pub traced_transparent :
      (me caller a b c : ℕ) (th : Thread) (l : Logs W)
      → th.in_trace ≡ true
      → th.in_our_alloc ≡ false
      → (malloc libc me caller a th l
          ≡ returns ((libc.malloc a l.world).0, th, in_world l (libc.malloc a l.world).1))
        × (calloc libc me caller a b th l
            ≡ returns ((libc.calloc a b l.world).0, th, in_world l (libc.calloc a b l.world).1))
        × (realloc libc me caller a b th l
            ≡ returns ((libc.realloc a b l.world).0, th, in_world l (libc.realloc a b l.world).1))
        × (memalign libc me caller a b th l
            ≡ returns ((libc.memalign a b l.world).0, th, in_world l (libc.memalign a b l.world).1))
        × (free libc me a th l ≡ returns (th, in_world l (libc.free a l.world)))
        × (mmap libc me caller a b c th l
            ≡ returns ((libc.mmap a b c l.world).0, th, in_world l (libc.mmap a b c l.world).1))
        × (munmap libc me caller a b th l
            ≡ returns ((libc.munmap a b l.world).0, th, in_world l (libc.munmap a b l.world).1))
  unfolding malloc calloc realloc memalign free mmap munmap log_unless
  traced_transparent me caller a b c th l traced outside = ground arith

  pub inner_mappings_unlogged :
      (me caller a b c : ℕ) (th : Thread) (l : Logs W)
      → th.in_our_alloc ≡ true
      → (mmap libc me caller a b c th l
          ≡ returns ((libc.mmap a b c l.world).0, th, in_world l (libc.mmap a b c l.world).1))
        × (mmap64 libc me caller a b c th l
            ≡ returns ((libc.mmap64 a b c l.world).0, th, in_world l (libc.mmap64 a b c l.world).1))
        × (munmap libc me caller a b th l
            ≡ returns ((libc.munmap a b l.world).0, th, in_world l (libc.munmap a b l.world).1))
  unfolding mmap mmap64 munmap log_unless
  inner_mappings_unlogged me caller a b c th l inner = ground arith

  -- The place is taken, and filled.
  abbrev appended : Event → ℕ → Logs W → Logs W
  appended ev i l =
      write_entry libc ev i (l.log_index i)
        (record l { log_index = update l.log_index i (l.log_index i + 1) })

  pub log_event_appends :
      (me : ℕ) (ev : Event) (th : Thread) (l : Logs W)
      → th.tid ≢ 0
      → l.log_arr th.tid_index ≢ 0
      → l.log_index th.tid_index < arr_size
      → log_event libc me ev th l ≡ returns (th, appended ev th.tid_index l)
  unfolding log_event get_log register open_log take_slot
  log_event_appends me ev th l known opened room = ground arith

  -- For a registered thread with an open log that has two places left, outside a trace, a malloc
  -- and a free of its result log two entries in a row with that address, of types 1 and 2; the
  -- caller of the second is what its place held before.
  pub malloc_free_logged :
      (me caller sz : ℕ) (th : Thread) (l : Logs W)
      → th.tid ≢ 0
      → th.in_trace ≡ false
      → th.in_our_alloc ≡ false
      → l.log_arr th.tid_index ≢ 0
      → l.log_index th.tid_index + 1 < arr_size
      → let i = th.tid_index in
        let j = l.log_index i in
        (l₁ l₂ : Logs W) × (malloc libc me caller sz th l
          ≡ returns ((libc.malloc sz l.world).0, th, l₁))
        × (free libc me (libc.malloc sz l.world).0 th l₁ ≡ returns (th, l₂))
        × (l₂.log_index i ≡ j + 2)
        × ((l₂.logs i j).addr ≡ (libc.malloc sz l.world).0)
        × ((l₂.logs i j).size ≡ sz)
        × ((l₂.logs i j).entry_type ≡ pos 1)
        × ((l₂.logs i j).caller_addr ≡ caller)
        × ((l₂.logs i (j + 1)).addr ≡ (libc.malloc sz l.world).0)
        × ((l₂.logs i (j + 1)).entry_type ≡ pos 2)
        × ((l₂.logs i (j + 1)).caller_addr ≡ (l.logs i (j + 1)).caller_addr)
  unfolding malloc free log_unless write_entry
  malloc_free_logged me caller sz th l known untraced outside opened room =
      let r = libc.malloc sz l.world in
      let ev₁ : Event = record {
        addr = r.0;
        size = sz;
        entry_type = pos 1;
        caller = some caller;
      } in
      let l₁ = appended ev₁ th.tid_index (in_world l r.1) in
      let ev₂ : Event = record { addr = r.0; size = 0; entry_type = pos 2; caller = none } in
      let l₂ = appended ev₂ th.tid_index (in_world l₁ (libc.free r.0 l₁.world)) in
      (
        l₁,
        l₂,
        ground (arith, log_event_appends me ev₁ th (in_world l r.1) known opened (omega arith)),
        ground (
          arith,
          log_event_appends me ev₂ th (in_world l₁ (libc.free r.0 l₁.world)) known opened
              (ground arith),
        ),
        ground arith,
        ground arith,
        ground arith,
        ground arith,
        ground arith,
        ground arith,
        ground arith,
        ground arith,
      )

  -- Where the memory for a log is refused, the first event of a registered thread is not logged,
  -- and the second writes through an invalid pointer.
  pub refused_log_ruins :
      (me : ℕ) (first second : Event) (th : Thread) (l : Logs W)
      → ((w : W) → (libc.malloc log_bytes w).0 ≡ 0)
      → th.tid ≢ 0
      → l.log_arr th.tid_index ≡ 0
      → l.log_index th.tid_index ≡ 0
      → (l' : Logs W) × (log_event libc me first th l ≡ returns (th, l'))
        × (log_event libc me second th l' ≡ ruined)
  unfolding log_event get_log register open_log take_slot
  refused_log_ruins me first second th l refused known no_log empty =
      let i = th.tid_index in
      let w = (libc.malloc log_bytes l.world).1 in
      (
        record l {
          log_arr = update l.log_arr i (libc.malloc log_bytes l.world).0;
          log_index = update l.log_index i (l.log_index i + 1);
          world = w;
        },
        ground (arith, refused l.world),
        ground (arith, refused l.world, refused w),
      )
