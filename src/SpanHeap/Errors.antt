-- ===== src/SpanHeap/Errors.antt =====
-- What becomes of a failure of mmap: in `alloc_span` it is noticed for chunks and not for spans that
-- are mapped on their own, and `cmalloc_initialize_span` then stops the program.
use fast_memory_allocator.Base.{
  ℕ, ◌<◌, ◌≡◌, refl, ap, ◌∙◌, Bool, true, false, not, ◌&&◌, arith, Option, none, some, leb, ◌==◌,
  ◌>>=◌, on_either, bind_none, OnResult, no_result, result,
}
use fast_memory_allocator.Common.{Runtime}
use fast_memory_allocator.Span.{null}
use fast_memory_allocator.RangeMap.{Allocator, L1Node}
use fast_memory_allocator.PageBins.{find_best_fitting_uninitialized_span, no_fitting_page_sequence}
use fast_memory_allocator.SpanHeap.{
  Mapper, SpanHeap, alloc_chunk, alloc_binned, alloc_pages, alloc_span, pages_size, chunk_pages,
  request_pages, has_arena, span_size, ensure_page_map, cmalloc_initialize_span, sizeof_data_chunk,
  map_failed,
}

not-true : (b : Bool) → not b ≡ true → b ≡ false
not-true b e = ground arith

module _ (a : Allocator) (o : Mapper) (r : Runtime) where
  -- The state in which no free span fits, so that the next request maps a chunk.
  abbrev pub needs_chunk : ℕ → SpanHeap a o → Bool
  needs_chunk n w = not (
      has_arena a o r w
      && not (find_best_fitting_uninitialized_span n w.bins == no_fitting_page_sequence))

  alloc_chunk-null :
      (n : ℕ) (w : SpanHeap a o)
      → (o.mmap (pages_size a o r (chunk_pages a o r n)) w.kernel).0 ≡ map_failed
      → OnResult (λ (p, w'). p ≡ null) (alloc_chunk a o r n w)
  unfolding alloc_chunk
  alloc_chunk-null n w fails = rw fails (
      on_either ((a.alloc_metadata sizeof_data_chunk w.store).0 == null) (λ e. no_result)
        (λ e. result refl))

  pub ensured :
      (w : SpanHeap a o) (m : L1Node) → w.page_map ≡ some m → ensure_page_map a o r w ≡ some w
  unfolding ensure_page_map
  ensured w m there = rw there refl

  alloc_span_by :
      (size n : ℕ) (w : SpanHeap a o) (m : L1Node)
      → w.page_map ≡ some m
      → request_pages a o r size ≡ n
      → alloc_span a o r size w ≡ alloc_pages a o r n w
  unfolding alloc_span
  alloc_span_by size n w m there pages =
      ap (λ x. x >>= alloc_pages a o r (request_pages a o r size)) (ensured w m there)
      ∙ ap (λ k. alloc_pages a o r k w) pages

  alloc_pages_chunk :
      (n : ℕ) (w : SpanHeap a o)
      → n < 8193
      → needs_chunk n w ≡ true
      → alloc_pages a o r n w ≡ alloc_chunk a o r n w
  unfolding alloc_pages alloc_binned
  alloc_pages_chunk n w lt needs =
      let small : leb 8193 n ≡ false = ground arith in rw (small, not-true _ needs) refl

  initialize_null :
      (size_class_index : Option ℕ) (requested_size : ℕ) (w : SpanHeap a o)
      → OnResult
          (λ (p, w'). p ≡ null)
          (alloc_span a o r (span_size size_class_index requested_size) w)
      → cmalloc_initialize_span a o r size_class_index requested_size w ≡ none
  unfolding cmalloc_initialize_span
  initialize_null size_class_index requested_size w h =
      bind_none h λ (p, w1) e. let here : (p == null) ≡ true = ground arith in rw here refl

  -- For pages that have a bin a failure of mmap stops the program: no free span fits, mmap gives
  -- MAP_FAILED, and `cmalloc_initialize_span` fails an assertion.
  pub cmalloc_initialize_span-mmap_failed :
      (size_class_index : Option ℕ) (requested_size n : ℕ) (w : SpanHeap a o) (m : L1Node)
      → w.page_map ≡ some m
      → request_pages a o r (span_size size_class_index requested_size) ≡ n
      → n < 8193
      → needs_chunk n w ≡ true
      → (o.mmap (pages_size a o r (chunk_pages a o r n)) w.kernel).0 ≡ map_failed
      → cmalloc_initialize_span a o r size_class_index requested_size w ≡ none
  cmalloc_initialize_span-mmap_failed size_class_index requested_size n w m there pages lt needs
        fails =
      let size = span_size size_class_index requested_size in
      let chunk : alloc_span a o r size w ≡ alloc_chunk a o r n w =
        alloc_span_by size n w m there pages ∙ alloc_pages_chunk n w lt needs in
      initialize_null size_class_index requested_size w (rw chunk (alloc_chunk-null n w fails))
