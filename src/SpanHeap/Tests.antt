-- ===== src/SpanHeap/Tests.antt =====
-- Spans of pages of 1 MiB, from a kernel that hands out addresses in order and from one that fails.
use fast_memory_allocator.Base.{
  ℕ, zero, suc, ◌+◌, ◌%◌, ◌^◌, ◌≡◌, ◌≢◌, refl, arith, true, false, Option, none, some, List, [],
  ◌∷◌, ◌>>=◌,
}
use fast_memory_allocator.Base.Words.{keep_from, ctz64, trailing_zeros, set_bit}
use fast_memory_allocator.Base.Bits.{bit-zero}
use fast_memory_allocator.Span.Blocks.{bit_of}
use fast_memory_allocator.Common.{
  Runtime, round_up_page, round_down_page_index, class_span_size, entry,
}
use fast_memory_allocator.Span.{Ptr, null, Span}
use fast_memory_allocator.RangeMap.{
  Allocator, empty_map, cmalloc_initialize_range_map, cmalloc_map_range, map_keys, cmalloc_map,
  ensure_l2, ensure_l3, new_node, store_l3, l1_index, l2_index, l3_index,
}
use fast_memory_allocator.RangeMap.Counts.{IsTrie}
use fast_memory_allocator.PageBins.{
  PageBins, mark_binned_span_non_empty, find_best_fitting_uninitialized_span, scan_words, read_word,
  first_in_word,
}
use fast_memory_allocator.PageBins.Marks.{IsTracked}
use fast_memory_allocator.SpanHeap.{
  pop_bin, Mapper, SpanHeap, map_failed, alloc_span, alloc_pages, cmalloc_cache_span,
  cmalloc_initialize_span, span_size, map_pages, request_pages, ensure_page_map, alloc_binned,
  alloc_chunk, chunk_pages, chunk_remainder, new_span, bin_span,
}
use fast_memory_allocator.SpanHeap.Bins.{alloc_span-IsTracked}
use fast_memory_allocator.SpanHeap.Reuse.{uninitialised, alloc_span-cache_span}
use fast_memory_allocator.SpanHeap.Errors.{needs_chunk, cmalloc_initialize_span-mmap_failed}
use fast_memory_allocator.RangeMap.Supply.{Serves}
use fast_memory_allocator.RangeMap.Counts.{IsTrie}
use fast_memory_allocator.SpanHeap.Served.{alloc_pages-unchecked}
use fast_memory_allocator.SpanHeap.Initialize.{small, IsFresh, cmalloc_initialize_span-IsFresh}

abbrev pub bump : Allocator
bump = record {
  Store = ℕ;
  alloc_metadata = λ size st. (suc st, suc st + size);
  free_metadata = λ p size st. st;
}

-- The addresses of metadata go on without end.
pub bump-Serves : (n st : ℕ) → Serves bump n st
unfolding Serves
bump-Serves zero st = refl
bump-Serves (suc n) st = λ size req. (ground arith, bump-Serves n _)

abbrev ample : Mapper
ample = record { Kernel = ℕ; mmap = λ len k. (k, k + len); munmap = λ p len k. k }

abbrev failing : Mapper
failing = record { Kernel = ℕ; mmap = λ len k. (map_failed, k); munmap = λ p len k. k }

abbrev pub big_pages : Runtime
big_pages = record { page_size = 2 ^ 20; page_shift = 20; size_class_table = λ i. 0 }

abbrev pub bare : Span
bare = record {
  phys_next = 0;
  phys_prev = 0;
  next_in_uninitialized_bin = 0;
  base = 2 ^ 30;
  page_count = 1;
  is_initialized = false;
  size_class_index = none;
  block_size = 0;
  block_count = 0;
  free_count = 0;
  nonfull_bitmap = 0;
  block_bitmap = λ i. 0;
  next_in_size_class_bin = 0;
  prev_in_size_class_bin = 0;
}

abbrev no_bins : PageBins
no_bins = record { uninitialized_span_bin = λ n. null; non_empty_bitmap = λ w. 0 }

-- The span at 64 has one page, and is in no bin.
abbrev start : {o : Mapper} → o.Kernel → SpanHeap bump o
start k = record {
  page_map = some empty_map;
  data_arena = 2 ^ 30 ∷ [];
  bins = no_bins;
  spans = λ p. bare;
  store = 4096;
  kernel = k;
}

abbrev empty_heap : SpanHeap bump ample
empty_heap = record (start {o = ample} (2 ^ 31)) { page_map = none; data_arena = [] }

-- Three pages from a new chunk of 32.
abbrev three : Option (Ptr × SpanHeap bump ample)
three = alloc_span bump ample big_pages 3000000 empty_heap

-- What became of it: the span's base and pages, the pages of the span in bin 29, and the search for
-- the next 4 pages.
abbrev summary : Option (Ptr × SpanHeap bump ample) → List ℕ
summary none = []
summary (some (p, w)) =
    (w.spans p).base
    ∷ (w.spans p).page_count
    ∷ (w.spans (w.bins.uninitialized_span_bin 29)).page_count
    ∷ find_best_fitting_uninitialized_span 4 w.bins
    ∷ []

three_run : summary three ≡ 2 ^ 31 ∷ 3 ∷ 29 ∷ 29 ∷ []
unfolding alloc_span ensure_page_map request_pages round_up_page alloc_pages alloc_binned
    alloc_chunk chunk_pages chunk_remainder new_span map_pages round_down_page_index
    cmalloc_initialize_range_map cmalloc_map_range map_keys cmalloc_map ensure_l2 ensure_l3 new_node
    store_l3 l1_index l2_index l3_index mark_binned_span_non_empty
    find_best_fitting_uninitialized_span scan_words read_word first_in_word keep_from ctz64
    trailing_zeros set_bit
three_run = refl

no_bins-IsTracked : IsTracked no_bins
unfolding bit_of
no_bins-IsTracked = record { words_fit = λ w lt. omega arith; marks = λ n lt. bit-zero (n % 64) }

abbrev heap_of : Option (Ptr × SpanHeap bump ample) → SpanHeap bump ample
heap_of none = empty_heap
heap_of (some (p, w)) = w

abbrev span_of : Option (Ptr × SpanHeap bump ample) → Ptr
span_of none = null
span_of (some (p, w)) = p

three_runs : three ≡ some (span_of three, heap_of three)
unfolding alloc_span ensure_page_map request_pages round_up_page alloc_pages alloc_binned
    alloc_chunk chunk_pages chunk_remainder new_span map_pages round_down_page_index
    cmalloc_initialize_range_map cmalloc_map_range map_keys cmalloc_map ensure_l2 ensure_l3 new_node
    store_l3 l1_index l2_index l3_index mark_binned_span_non_empty
    find_best_fitting_uninitialized_span scan_words read_word first_in_word keep_from ctz64
    trailing_zeros set_bit
three_runs = refl

cached_runs :
    cmalloc_cache_span bump ample big_pages 64 (start 0)
    ≡ some (bin_span bump ample big_pages 64 (start 0))
unfolding cmalloc_cache_span
cached_runs = refl

one_page : request_pages bump ample big_pages 900000 ≡ 1
unfolding request_pages round_up_page
one_page = refl

one_page_class : request_pages bump failing big_pages (span_size (some 2) 40) ≡ 1
unfolding request_pages round_up_page span_size class_span_size entry
one_page_class = refl

start_is_empty : needs_chunk bump failing big_pages 1 (start 0) ≡ true
unfolding find_best_fitting_uninitialized_span scan_words read_word keep_from
start_is_empty = refl

alloc_span-IsTracked_example : IsTracked (heap_of three).bins
alloc_span-IsTracked_example =
    alloc_span-IsTracked bump ample big_pages 3000000 empty_heap (heap_of three) (span_of three)
      no_bins-IsTracked three_runs

alloc_span-cache_span_example :
    (cmalloc_cache_span bump ample big_pages 64 (start 0)
      >>= alloc_span bump ample big_pages 900000)
    ≡ some (64, uninitialised bump ample big_pages (start 0) 64)
alloc_span-cache_span_example =
    alloc_span-cache_span bump ample big_pages (start 0) 64 (omega arith) (omega arith)
      no_bins-IsTracked 900000 empty_map refl refl one_page

cmalloc_initialize_span-mmap_failed_example :
    cmalloc_initialize_span bump failing big_pages (some 2) 40 (start 0) ≡ none
cmalloc_initialize_span-mmap_failed_example =
    cmalloc_initialize_span-mmap_failed bump failing big_pages (some 2) 40 1 (start 0) empty_map
      refl one_page_class (omega arith) start_is_empty refl

alloc_pages-unchecked_example :
    (p : Ptr) × (w' : SpanHeap bump failing) × (alloc_pages bump failing big_pages 9000 (start 0)
      ≡ some (p, w'))
    × (p ≢ null)
    × ((w'.spans p).base ≡ map_failed)
alloc_pages-unchecked_example =
    alloc_pages-unchecked bump failing big_pages 9000 (start 0) empty_map refl (omega arith)
      (bump-Serves _ _)

-- A heap whose bin of one page holds the span at 64.
abbrev stocked : SpanHeap bump ample
stocked = bin_span bump ample big_pages 64 (start 0)

abbrev small_span : Option (Ptr × SpanHeap bump ample)
small_span = cmalloc_initialize_span bump ample big_pages (some 47) 30000 stocked

small_runs : small_span ≡ some (span_of small_span, heap_of small_span)
unfolding cmalloc_initialize_span alloc_span ensure_page_map span_size class_span_size entry
    request_pages round_up_page alloc_pages alloc_binned bin_span pop_bin mark_binned_span_non_empty
    find_best_fitting_uninitialized_span scan_words read_word first_in_word keep_from ctz64
    trailing_zeros set_bit
small_runs = refl

cmalloc_initialize_span-IsFresh_example :
    (span_of small_span ≢ null)
    × IsFresh (some 47) 30000 ((heap_of small_span).spans (span_of small_span))
cmalloc_initialize_span-IsFresh_example =
    cmalloc_initialize_span-IsFresh bump ample big_pages (some 47) 30000 stocked
      (heap_of small_span) (span_of small_span) (small (omega arith)) small_runs
