-- ===== src/Metadata/Tests.antt =====
-- A run of the metadata arena: two blocks, one given back and taken again.
use fast_memory_allocator.Base.{
  ℕ, zero, suc, ◌+◌, ◌<◌, ◌*◌, ◌^◌, ◌≡◌, ◌≢◌, ◌↔◌, refl, arith, false, Bool-cases, inl, inr, ◌⊎◌,
  Option, none, some, ltb, if◌then◌else◌, update, OnRun,
}
use fast_memory_allocator.Common.{align_up}
use fast_memory_allocator.Span.{Ptr, null}
use fast_memory_allocator.RangeMap.{cmalloc_get, l1_index, l2_index, l3_index, store_l3}
use fast_memory_allocator.SpanHeap.{
  Mapper, map_failed, SpanHeap, request_pages, pages_size, chunk_pages, span_size,
  cmalloc_initialize_span,
}
use fast_memory_allocator.Metadata.{
  Arena, no_chunk, failed_chunk, meta_chunk_size, head_of, new_chunk, bump_cur,
  alloc_from_new_chunk, alloc_from_arena, add_middle, add_leaf, ensure_middle, ensure_leaf,
  store_entry, map_size, alloc_step, alloc_to, cmalloc_alloc_metadata, ensure_free_list_map,
  cmalloc_free_metadata,
}
use fast_memory_allocator.RangeMap.Ledger.{IsAllocator}
use fast_memory_allocator.Metadata.Recursion.{alloc_to_lem, pop_or_fresh}
use fast_memory_allocator.Common.{round_up_page, class_span_size, entry}
use fast_memory_allocator.SpanHeap.Tests.{big_pages, bare}
use fast_memory_allocator.SpanHeap.Roles.Tests.{pages_in_order, pages_in_order-IsMapper}
use fast_memory_allocator.SpanHeap.Roles.Reach.{Reach, initial, IsNew}
use fast_memory_allocator.Metadata.Spans.{arena_ledger, arena_heap-IsNew}
use fast_memory_allocator.Metadata.AsAllocator.{arena_allocator}
use fast_memory_allocator.Metadata.Interface.{arena_allocator_lem}
use fast_memory_allocator.Metadata.Refusals.{CannotMap, Refuses, refuses_now, refuses_later}
use fast_memory_allocator.RangeMap.Supply.{Serves}
use fast_memory_allocator.SpanHeap.Served.{most_calls}
use fast_memory_allocator.Metadata.Blocks.{IsChunkMapper, no_answer, answer, in_block}
use fast_memory_allocator.Metadata.Live.{MetaRun, started, given, returned, IsLive, MetaRun-IsLive}
use fast_memory_allocator.Metadata.Runs.{
  MetaRun-apart, MetaRun-gives, MetaRun-failed, MetaRun-takes_back,
}

-- Chunks in order from address 2 ^ 22 on, up to 2 ^ 62.
abbrev chunks_in_order : Mapper
chunks_in_order = record {
  Kernel = ℕ;
  mmap = λ len k. if ltb k (2 ^ 40) then ((k + 1) * 2 ^ 22, k + 1) else (map_failed, k);
  munmap = λ p len k. k;
}

chunks_in_order-IsChunkMapper : IsChunkMapper chunks_in_order
chunks_in_order-IsChunkMapper = record {
  mapped = λ k x. ltb x ((k + 1) * 2 ^ 22);
  answers = λ k. elim (Bool-cases (ltb k (2 ^ 40))) [
    | inl e ↦
        rw e
          (answer (omega arith) (ground (arith, e)) (λ x h. ground (arith, h)) (λ x. ground arith))
    | inr e ↦ rw e (no_answer refl (λ x. refl))
  ];
}

abbrev fresh : Arena chunks_in_order
fresh = record { meta_arena = no_chunk; free_list_map = none; links = λ p. 0; kernel = 0 }

abbrev arena_of : Option (Ptr × Arena chunks_in_order) → Arena chunks_in_order
arena_of none = fresh
arena_of (some (p, st)) = st

abbrev state_of : Option (Arena chunks_in_order) → Arena chunks_in_order
state_of none = fresh
state_of (some st) = st

abbrev one : Option (Ptr × Arena chunks_in_order)
one = cmalloc_alloc_metadata chunks_in_order 608 fresh

abbrev two : Option (Ptr × Arena chunks_in_order)
two = cmalloc_alloc_metadata chunks_in_order 608 (arena_of one)

abbrev back : Option (Arena chunks_in_order)
back = cmalloc_free_metadata chunks_in_order 4194336 608 (arena_of two)

one_runs : one ≡ some (4194336, arena_of one)
unfolding alloc_to alloc_step alloc_from_arena alloc_from_new_chunk new_chunk bump_cur align_up
one_runs = refl

two_runs : two ≡ some (4194944, arena_of two)
unfolding alloc_to alloc_step alloc_from_arena alloc_from_new_chunk new_chunk bump_cur align_up
two_runs = refl

-- The first two sizes of the trie's nodes come from the arena.
back_runs : back ≡ some (state_of back)
unfolding alloc_to alloc_step alloc_from_arena alloc_from_new_chunk new_chunk bump_cur align_up
    cmalloc_free_metadata ensure_free_list_map map_size ensure_middle ensure_leaf add_middle
    add_leaf store_entry store_l3 l1_index l2_index l3_index cmalloc_get
back_runs = refl

abbrev live_two : Ptr → ℕ
live_two = update (update (λ p. 0) 4194336 608) 4194944 608

run_two : MetaRun chunks_in_order (arena_of two) live_two
run_two =
    given 608 (given 608 (started (λ p. 0) 0) (omega arith) (omega arith) one_runs (omega arith))
      (omega arith) (omega arith) two_runs (omega arith)

MetaRun-apart_example : in_block 4194944 608 4194400 ≡ false
MetaRun-apart_example =
    MetaRun-apart chunks_in_order-IsChunkMapper (arena_of two) live_two 4194336 4194944 4194400
      run_two (omega arith) refl

-- The first block is given back.
abbrev live_back : Ptr → ℕ
live_back = update live_two 4194336 0

run_back : MetaRun chunks_in_order (state_of back) live_back
run_back = returned 4194336 run_two (omega arith) back_runs

MetaRun-IsLive_example : IsLive chunks_in_order-IsChunkMapper (state_of back) live_back
MetaRun-IsLive_example =
    MetaRun-IsLive chunks_in_order-IsChunkMapper (state_of back) live_back run_back

MetaRun-gives_example :
    OnRun
      ((state_of back).meta_arena ≡ failed_chunk)
      (λ (p, st').
        ((p ≡ null)
          × ((chunks_in_order.mmap meta_chunk_size (state_of back).kernel).0 ≡ map_failed)
          × (st'.meta_arena ≡ failed_chunk))
        ⊎ ((p ≢ null) × (live_back p ≡ 0) × MetaRun chunks_in_order st' (update live_back p 608)))
      (cmalloc_alloc_metadata chunks_in_order 608 (state_of back))
MetaRun-gives_example =
    MetaRun-gives chunks_in_order-IsChunkMapper (state_of back) live_back 608 run_back (omega arith)
      (omega arith)

MetaRun-takes_back_example :
    OnRun
      (CannotMap chunks_in_order 3 (arena_of two))
      (λ st'.
        MetaRun chunks_in_order st' (update live_two 4194336 0)
        × ((st'' : Arena chunks_in_order) × (cmalloc_alloc_metadata chunks_in_order
                (live_two 4194336)
                st'
              ≡ some (4194336, st''))
            × MetaRun chunks_in_order st'' live_two))
      (cmalloc_free_metadata chunks_in_order 4194336 (live_two 4194336) (arena_of two))
MetaRun-takes_back_example =
    MetaRun-takes_back chunks_in_order-IsChunkMapper (arena_of two) live_two 4194336 run_two
      (omega arith)

alloc_to_lem_example :
    alloc_to chunks_in_order 5 608 (state_of back)
    ≡ pop_or_fresh chunks_in_order 608 (state_of back)
alloc_to_lem_example = alloc_to_lem chunks_in_order 4 608 (state_of back)

-- All chunks are taken when the program starts.
abbrev full : Arena chunks_in_order
full = record fresh { kernel = 2 ^ 40 }

abbrev stuck : Arena chunks_in_order
stuck = record full { meta_arena = failed_chunk }

stuck_runs : cmalloc_alloc_metadata chunks_in_order 608 full ≡ some (null, stuck)
unfolding alloc_to alloc_step alloc_from_arena alloc_from_new_chunk new_chunk bump_cur align_up
stuck_runs = refl

MetaRun-failed_example :
    (stuck.meta_arena ≡ failed_chunk)
    × ((size' : ℕ)
        → (cmalloc_alloc_metadata chunks_in_order size' stuck ≡ none)
          ↔ (head_of chunks_in_order stuck size' ≡ null))
MetaRun-failed_example =
    MetaRun-failed chunks_in_order-IsChunkMapper full stuck (λ p. 0) 608 (started (λ p. 0) (2 ^ 40))
      (omega arith) (omega arith) stuck_runs

arena_allocator_lem_example :
    (u : IsAllocator (arena_allocator chunks_in_order)) × ((st : Arena chunks_in_order)
        (live : Ptr → ℕ)
      → MetaRun chunks_in_order st live
      → u.IsSound (some st))
    × ((st : Arena chunks_in_order) (live : Ptr → ℕ) (p : Ptr)
        → MetaRun chunks_in_order st live
        → live p ≢ 0
        → u.IsHeld (some st) p)
    × ((st : Arena chunks_in_order) (n : ℕ)
        → u.IsSound (some st)
        → ¬ CannotMap chunks_in_order n st
        → Serves (arena_allocator chunks_in_order) n (some st))
arena_allocator_lem_example = arena_allocator_lem chunks_in_order-IsChunkMapper

-- The first 2 ^ 40 requests for a chunk are answered.
refused_late : (n kernel : ℕ) → Refuses chunks_in_order n kernel → 2 ^ 40 < kernel + n
refused_late zero kernel refuses = elim refuses [ ]
refused_late (suc n) kernel (refuses_now fails) = elim (Bool-cases (ltb kernel (2 ^ 40))) [
  | inl e ↦ absurd (omega (arith, rw e at fails))
  | inr e ↦ ground (arith, e)
]
refused_late (suc n) kernel (refuses_later later) = elim (Bool-cases (ltb kernel (2 ^ 40))) [
  | inl e ↦ omega (arith, refused_late n (kernel + 1) (rw e at later))
  | inr e ↦ ground (arith, e)
]

-- The span heap over the arena, before the first call.
abbrev start : SpanHeap (arena_allocator chunks_in_order) pages_in_order
start = initial (λ p. bare) (some fresh) 2048

start-Reach :
    Reach pages_in_order big_pages (arena_ledger chunks_in_order-IsChunkMapper) start (λ p. false)
start-Reach =
    Reach.started {spans = λ p. bare} {store = some fresh} {kernel = 2048}
      ((arena_allocator_lem chunks_in_order-IsChunkMapper).1 fresh (λ p. 0) (started (λ p. 0) 0))

start_pages :
    request_pages
      (arena_allocator chunks_in_order)
      pages_in_order
      big_pages
      (span_size (some 47) 30000)
    ≡ 1
unfolding request_pages round_up_page span_size class_span_size entry
start_pages = refl

start_works :
    ¬ CannotMap chunks_in_order
      (most_calls (arena_allocator chunks_in_order) pages_in_order big_pages (
        request_pages
          (arena_allocator chunks_in_order)
          pages_in_order
          big_pages
          (span_size (some 47) 30000)))
      fresh
start_works (inl e) = ground (arith, e)
start_works (inr refuses) = omega (arith, refused_late _ 0 refuses, start_pages)

start_chunk :
    (pages_in_order.mmap
      (pages_size
        (arena_allocator chunks_in_order)
        pages_in_order
        big_pages
        (chunk_pages (arena_allocator chunks_in_order) pages_in_order big_pages 1))
      2048).0
    ≢ map_failed
unfolding chunk_pages
start_chunk = λ e. ground (arith, e)

arena_heap-IsNew_example :
    let n =
      request_pages
        (arena_allocator chunks_in_order)
        pages_in_order
        big_pages
        (span_size (some 47) 30000) in
    (p : Ptr) × (w' : SpanHeap (arena_allocator chunks_in_order) pages_in_order)
    × (cmalloc_initialize_span
          (arena_allocator chunks_in_order)
          pages_in_order
          big_pages
          (some 47)
          30000
          start
        ≡ some (p, w'))
    × IsNew
        (arena_ledger chunks_in_order-IsChunkMapper)
        pages_in_order-IsMapper
        (omega arith)
        start
        (λ p. false)
        n
        p
        w'
arena_heap-IsNew_example =
    arena_heap-IsNew chunks_in_order-IsChunkMapper pages_in_order-IsMapper (omega arith) start
      (λ p. false) fresh (some 47) 30000 start-Reach refl start_works
      (λ le. ground (arith, start_pages)) (λ lt needs. rw start_pages start_chunk)
