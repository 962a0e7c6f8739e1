-- ===== src/SpanHeap/Served.antt =====
-- `alloc_span` and `cmalloc_initialize_span` of src/span.c as a whole where the allocator of metadata
-- serves the calls they make: what they do when mmap answers, and that for a large span they do not
-- look at its answer.
use fast_memory_allocator.Base.{
  ℕ, suc, ◌+◌, ◌*◌, ◌≤◌, ◌<◌, ◌≡◌, ◌≢◌, refl, sym, subst, arith, true, not, ◌&&◌, leb, Option, some,
  ◌==◌, OnRun, yields, run_bind, run_weaken, run_either, eq_false, Option-cases, ==_iff, inl, inr,
}
use fast_memory_allocator.Common.{Runtime}
use fast_memory_allocator.Span.{Ptr, null}
use fast_memory_allocator.RangeMap.{Allocator, L1Node, sizeof_l1, cmalloc_initialize_range_map}
use fast_memory_allocator.RangeMap.Supply.{result_of, Serves, Serves-suc, Serves-le, Serves-call}
use fast_memory_allocator.PageBins.{
  max_binned_pages, no_fitting_page_sequence, find_best_fitting_uninitialized_span,
}
use fast_memory_allocator.SpanHeap.Supply.{
  alloc_direct-supplied, pop_bin-supplied, alloc_split-supplied, alloc_chunk-supplied,
}
use fast_memory_allocator.PageBins.Marks.{IsTracked, find-nonempty}
use fast_memory_allocator.SpanHeap.{
  Mapper, SpanHeap, map_failed, pages_size, chunk_pages, alloc_binned, alloc_pages, alloc_span,
  has_arena, request_pages, ensure_page_map, span_size, cmalloc_initialize_span,
}
use fast_memory_allocator.SpanHeap.Errors.{needs_chunk, ensured}

module _ (a : Allocator) (o : Mapper) (r : Runtime) where
  abbrev W : Type 0
  W = SpanHeap a o

  -- A failure of mmap stops only a request for which a chunk is mapped.
  abbrev pub MapsChunk : ℕ → W → Type 0
  MapsChunk n w =
      n < 8193
      → needs_chunk a o r n w ≡ true
      → (o.mmap (pages_size a o r (chunk_pages a o r n)) w.kernel).0 ≢ map_failed

  alloc_binned-supplied :
      (n left : ℕ) (w : W) (m : L1Node)
      → w.page_map ≡ some m
      → IsTracked w.bins
      → n < 8193
      → MapsChunk n w
      → Serves a (suc (suc (2 * n + suc (2 * 8192 + left)))) w.store
      → OnRun ⊥ (λ (p, w'). p ≢ null) (alloc_binned a o r n w)
  unfolding alloc_binned
  alloc_binned-supplied n left w m there tracked lt answers h =
      let best = find_best_fitting_uninitialized_span n w.bins in
      run_either (has_arena a o r w && not (best == no_fitting_page_sequence))
        (λ e.
          let fit = find-nonempty w.bins n tracked lt (ground arith) in
          run_either (n == best)
            (λ same.
              run_weaken
                (pop_bin-supplied a o r n w (
                  subst (λ x. w.bins.uninitialized_span_bin x ≢ null) (sym ((==_iff n best).0 same))
                    fit.0))
                λ x given. yields given.0)
            (λ larger.
              alloc_split-supplied a o r n best left w m there fit.0
                (Serves-le a _ _ w.store (omega (arith, fit.1, fit.2)) h)))
        (λ e. alloc_chunk-supplied a o r n left w m there (answers lt (rw e refl)) h)

  alloc_pages-supplied :
      (n left : ℕ) (w : W) (m : L1Node)
      → w.page_map ≡ some m
      → IsTracked w.bins
      → MapsChunk n w
      → Serves a (suc (suc (2 * n + suc (2 * 8192 + left)))) w.store
      → OnRun ⊥ (λ (p, w'). p ≢ null) (alloc_pages a o r n w)
  unfolding alloc_pages
  alloc_pages-supplied n left w m there tracked answers h =
      run_either (leb max_binned_pages n)
        (λ e.
          run_weaken
            (alloc_direct-supplied a o r n left w m there (Serves-le a _ _ w.store (omega arith) h))
            λ x given. yields given.0)
        (λ e. alloc_binned-supplied n left w m there tracked (ground arith) answers h)

  -- The calls for metadata that a request for `n` pages makes at most.
  abbrev pub most_calls : ℕ → ℕ
  most_calls n = 2 * n + 16388

  alloc_span-supplied :
      (size : ℕ) (w : W)
      → IsTracked w.bins
      → MapsChunk (request_pages a o r size) w
      → Serves a (most_calls (request_pages a o r size)) w.store
      → OnRun ⊥ (λ (p, w'). p ≢ null) (alloc_span a o r size w)
  unfolding alloc_span ensure_page_map cmalloc_initialize_range_map
  alloc_span-supplied size w tracked answers h =
      let n = request_pages a o r size in
      let h' : Serves a (suc (suc (suc (2 * n + suc (2 * 8192 + 0))))) w.store =
        Serves-le a _ _ w.store (omega arith) h in
      elim (Option-cases w.page_map) [
        | inl e ↦
            let (real, rest) = Serves-call a _ sizeof_l1 w.store refl h' in
            rw (e, eq_false real) (alloc_pages-supplied n 0 _ _ refl tracked answers rest)
        | inr (m, e) ↦
            rw (ensured a o r w m e)
              (alloc_pages-supplied n 0 w m e tracked answers (Serves-suc a _ w.store h'))
      ]

  pub cmalloc_initialize_span-supplied :
      (c : Option ℕ) (requested : ℕ) (w : W)
      → IsTracked w.bins
      → MapsChunk (request_pages a o r (span_size c requested)) w
      → Serves a (most_calls (request_pages a o r (span_size c requested))) w.store
      → (x : Ptr × W) × (cmalloc_initialize_span a o r c requested w ≡ some x)
  unfolding cmalloc_initialize_span
  cmalloc_initialize_span-supplied c requested w tracked answers h =
      let (x, runs, real) = result_of {P = λ x. x.0 ≢ null} (
        run_bind (alloc_span-supplied (span_size c requested) w tracked answers h)
          λ (p, w1) real. rw (eq_false real) (yields real)) in
      (x, runs)

  -- A request for 8193 pages or more gets a span whose base is what mmap has returned, MAP_FAILED
  -- too, if the next 2 * n + 1 calls for metadata give memory.
  pub alloc_pages-unchecked :
      (n : ℕ) (w : W) (m : L1Node)
      → w.page_map ≡ some m
      → 8193 ≤ n
      → Serves a (2 * n + 1) w.store
      → (p : Ptr) × (w' : W) × (alloc_pages a o r n w ≡ some (p, w'))
        × (p ≢ null)
        × ((w'.spans p).base ≡ (o.mmap (pages_size a o r n) w.kernel).0)
  unfolding alloc_pages
  alloc_pages-unchecked n w m there le h =
      let big : leb max_binned_pages n ≡ true = ground arith in
      let ((p, w'), runs, (real, base)) =
        result_of
          (alloc_direct-supplied a o r n 0 w m there (Serves-le a _ _ w.store (omega arith) h)) in
      (p, w', rw (big, runs) refl, real, base)
