-- ===== src/SpanHeap/Roles/Tests.antt =====
-- A run of the span heap: two spans are initialised, one is cached and handed out again.
use fast_memory_allocator.Base.{
  ℕ, ◌+◌, ◌*◌, ◌/◌, ◌^◌, ◌≤◌, ◌≡◌, ◌≢◌, refl, arith, Bool, true, false, Bool-cases, inl, inr,
  Option, none, some, leb, ltb, if◌then◌else◌, update, update_at,
}
use native.Mathlib.Nat.{mul-div_cancel}
use fast_memory_allocator.Base.Words.{keep_from, ctz64, trailing_zeros, set_bit}
use fast_memory_allocator.Common.{
  round_up_page, round_down_page_index, class_span_size, class_size, class_block_count, entry,
}
use fast_memory_allocator.Span.{Ptr, null, initialize_blocks, fill_words, free_blocks}
use fast_memory_allocator.RangeMap.{
  cmalloc_initialize_range_map, cmalloc_map_range, map_keys, cmalloc_map, ensure_l2, ensure_l3,
  new_node, store_l3, l1_index, l2_index, l3_index,
}
use fast_memory_allocator.RangeMap.Ledger.{IsAllocator}
use fast_memory_allocator.PageBins.{
  mark_binned_span_non_empty, mark_binned_span_empty, find_best_fitting_uninitialized_span,
  scan_words, read_word, first_in_word,
}
use fast_memory_allocator.SpanHeap.{
  set_sizes, pages_size, pop_bin, Mapper, SpanHeap, map_failed, alloc_span, alloc_pages,
  alloc_split, push_remainder, link_split, cmalloc_initialize_span, cmalloc_get_span, span_size,
  map_pages, request_pages, ensure_page_map, alloc_binned, alloc_chunk, chunk_pages,
  chunk_remainder, new_span,
}
use fast_memory_allocator.SpanHeap.Owner.{in_pages}
use fast_memory_allocator.SpanHeap.Tests.{bump, bump-Serves, big_pages, bare}
use fast_memory_allocator.SpanHeap.Roles.{IsMapper, failed, given}
use fast_memory_allocator.SpanHeap.Roles.Reach.{
  Reach, started, handed, initial, IsNew, Reach-apart, Reach-get_span, Reach-IsNew,
}

-- The memory up to the state's address is taken.
bump-IsAllocator : IsAllocator bump
bump-IsAllocator = record {
  IsSound = λ st. true ≡ true;
  IsHeld = λ st p. p ≤ st;
  sound = λ size req st ok. refl;
  fresh = λ size req st ok new. ground arith;
  taken = λ size req st ok new. ground arith;
  kept = λ size req st p ok h. ground arith;
}

-- Pages of 1 MiB in order, up to the 2 ^ 35th.
abbrev pub pages_in_order : Mapper
pages_in_order = record {
  Kernel = ℕ;
  mmap = λ len k.
      if leb (k + len / 2 ^ 20) (2 ^ 35) then (k * 2 ^ 20, k + len / 2 ^ 20) else (map_failed, k);
  munmap = λ p len k. k;
}

pub pages_in_order-IsMapper : IsMapper pages_in_order big_pages
pages_in_order-IsMapper = record {
  mapped = λ k i. ltb i k;
  answers = λ n k lt.
      let whole = mul-div_cancel n {n = 2 ^ 20} (omega arith) in
      elim (Bool-cases (leb (k + n) (2 ^ 35))) [
        | inl e ↦
            let start = mul-div_cancel k {n = 2 ^ 20} (omega arith) in
            rw (whole, e)
              (given (omega arith) (ground arith) (λ i run. ground (arith, start))
                (λ i. ground (arith, start)))
        | inr e ↦ rw (whole, e) (failed refl (λ i. refl))
      ];
}

abbrev Heap : Type 0
Heap = SpanHeap bump pages_in_order

abbrev span_of : Option (Ptr × Heap) → Ptr
span_of none = null
span_of (some (p, w)) = p

abbrev heap_of : Heap → Option (Ptr × Heap) → Heap
heap_of w none = w
heap_of w (some (p, w')) = w'

abbrev empty_heap : Heap
empty_heap = initial (λ p. bare) 4096 2048

abbrev take : Heap → Option (Ptr × Heap)
take = cmalloc_initialize_span bump pages_in_order big_pages (some 47) 30000

abbrev first : Option (Ptr × Heap)
first = take empty_heap

abbrev second : Option (Ptr × Heap)
second = take (heap_of empty_heap first)

first_runs : first ≡ some (span_of first, heap_of empty_heap first)
unfolding cmalloc_initialize_span alloc_span ensure_page_map request_pages round_up_page alloc_pages
    alloc_binned alloc_chunk chunk_pages chunk_remainder new_span map_pages round_down_page_index
    cmalloc_initialize_range_map cmalloc_map_range map_keys cmalloc_map ensure_l2 ensure_l3 new_node
    store_l3 l1_index l2_index l3_index mark_binned_span_non_empty span_size class_span_size entry
    find_best_fitting_uninitialized_span scan_words read_word first_in_word keep_from ctz64
    trailing_zeros set_bit
first_runs = refl

second_runs : second ≡ some (span_of second, heap_of empty_heap second)
unfolding alloc_split pop_bin push_remainder link_split mark_binned_span_empty
    cmalloc_initialize_span alloc_span ensure_page_map request_pages round_up_page alloc_pages
    alloc_binned alloc_chunk chunk_pages chunk_remainder new_span map_pages round_down_page_index
    cmalloc_initialize_range_map cmalloc_map_range map_keys cmalloc_map ensure_l2 ensure_l3 new_node
    store_l3 l1_index l2_index l3_index mark_binned_span_non_empty span_size class_span_size entry
    find_best_fitting_uninitialized_span scan_words read_word first_in_word keep_from ctz64
    trailing_zeros set_bit
second_runs = refl

one_page : request_pages bump pages_in_order big_pages (span_size (some 47) 30000) ≡ 1
unfolding request_pages round_up_page span_size class_span_size entry
one_page = refl

abbrev run_one : Heap
run_one = heap_of empty_heap first

abbrev live_one : Ptr → Bool
live_one = update (λ p. false) (span_of first) true

run_one-Reach : Reach pages_in_order big_pages bump-IsAllocator run_one live_one
unfolding bump-IsAllocator
run_one-Reach =
    handed (some 47) 30000 (started {spans = λ p. bare} {store = 4096} {kernel = 2048} refl)
      (λ le. ground (arith, one_page)) first_runs

abbrev run_two : Heap
run_two = heap_of empty_heap second

abbrev live_two : Ptr → Bool
live_two = update live_one (span_of second) true

run_two-Reach : Reach pages_in_order big_pages bump-IsAllocator run_two live_two
run_two-Reach = handed (some 47) 30000 run_one-Reach (λ le. ground (arith, one_page)) second_runs

two_spans : span_of first ≢ span_of second
unfolding alloc_split pop_bin push_remainder link_split mark_binned_span_empty
    cmalloc_initialize_span alloc_span ensure_page_map request_pages round_up_page alloc_pages
    alloc_binned alloc_chunk chunk_pages chunk_remainder new_span map_pages round_down_page_index
    cmalloc_initialize_range_map cmalloc_map_range map_keys cmalloc_map ensure_l2 ensure_l3 new_node
    store_l3 l1_index l2_index l3_index mark_binned_span_non_empty span_size class_span_size entry
    find_best_fitting_uninitialized_span scan_words read_word first_in_word keep_from ctz64
    trailing_zeros set_bit
two_spans = λ e. ground (arith, e)

first_live : live_two (span_of first) ≡ true
first_live = ground arith

second_live : live_two (span_of second) ≡ true
second_live = update_at live_one (span_of second) true

first_pages :
    in_pages big_pages
      (run_two.spans (span_of first)).base
      (run_two.spans (span_of first)).page_count
      (2 ^ 31 + 5)
    ≡ true
unfolding initialize_blocks fill_words free_blocks set_sizes class_size class_block_count
    alloc_split pop_bin push_remainder link_split mark_binned_span_empty cmalloc_initialize_span
    alloc_span ensure_page_map request_pages round_up_page alloc_pages alloc_binned alloc_chunk
    chunk_pages chunk_remainder new_span map_pages round_down_page_index
    cmalloc_initialize_range_map cmalloc_map_range map_keys cmalloc_map ensure_l2 ensure_l3 new_node
    store_l3 l1_index l2_index l3_index mark_binned_span_non_empty span_size class_span_size entry
    find_best_fitting_uninitialized_span scan_words read_word first_in_word keep_from ctz64
    trailing_zeros set_bit
first_pages = refl

second_pages :
    in_pages big_pages
      (run_two.spans (span_of second)).base
      (run_two.spans (span_of second)).page_count
      (2 ^ 31 + 2 ^ 20 + 7)
    ≡ true
unfolding initialize_blocks fill_words free_blocks set_sizes class_size class_block_count
    alloc_split pop_bin push_remainder link_split mark_binned_span_empty cmalloc_initialize_span
    alloc_span ensure_page_map request_pages round_up_page alloc_pages alloc_binned alloc_chunk
    chunk_pages chunk_remainder new_span map_pages round_down_page_index
    cmalloc_initialize_range_map cmalloc_map_range map_keys cmalloc_map ensure_l2 ensure_l3 new_node
    store_l3 l1_index l2_index l3_index mark_binned_span_non_empty span_size class_span_size entry
    find_best_fitting_uninitialized_span scan_words read_word first_in_word keep_from ctz64
    trailing_zeros set_bit
second_pages = refl

-- The first span has the page at 2 ^ 31, and the second the one behind it.
Reach-apart_example :
    in_pages big_pages
      (run_two.spans (span_of second)).base
      (run_two.spans (span_of second)).page_count
      (2 ^ 31 + 5)
    ≡ false
Reach-apart_example =
    Reach-apart bump-IsAllocator pages_in_order-IsMapper (omega arith) run_two live_two
      (span_of first) (span_of second) (2 ^ 31 + 5) run_two-Reach first_live second_live two_spans
      first_pages

Reach-get_span_example :
    cmalloc_get_span bump pages_in_order big_pages (2 ^ 31 + 2 ^ 20 + 7) run_two
    ≡ some (span_of second)
Reach-get_span_example =
    Reach-get_span bump-IsAllocator pages_in_order-IsMapper (omega arith) run_two live_two
      (span_of second) (2 ^ 31 + 2 ^ 20 + 7) run_two-Reach second_live second_pages

chunk_answers :
    (pages_in_order.mmap
      (pages_size bump pages_in_order big_pages (
        chunk_pages bump pages_in_order big_pages
          (request_pages bump pages_in_order big_pages (span_size (some 47) 30000))))
      run_one.kernel).0
    ≢ map_failed
unfolding cmalloc_initialize_span alloc_span ensure_page_map request_pages round_up_page alloc_pages
    alloc_binned alloc_chunk chunk_pages chunk_remainder new_span map_pages round_down_page_index
    cmalloc_initialize_range_map cmalloc_map_range map_keys cmalloc_map ensure_l2 ensure_l3 new_node
    store_l3 l1_index l2_index l3_index mark_binned_span_non_empty span_size class_span_size entry
    find_best_fitting_uninitialized_span scan_words read_word first_in_word keep_from ctz64
    trailing_zeros set_bit
chunk_answers = λ e. ground (arith, e)

Reach-IsNew_example :
    (p : Ptr) × (w' : Heap) × (take run_one ≡ some (p, w'))
    × IsNew bump-IsAllocator pages_in_order-IsMapper
        (omega arith)
        run_one
        live_one
        (request_pages bump pages_in_order big_pages (span_size (some 47) 30000))
        p
        w'
Reach-IsNew_example =
    Reach-IsNew bump-IsAllocator pages_in_order-IsMapper (omega arith) run_one live_one (some 47)
      30000 run_one-Reach (λ le. ground (arith, one_page)) (λ lt needs. chunk_answers)
      (bump-Serves _ _)
