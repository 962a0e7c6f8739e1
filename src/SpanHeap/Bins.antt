-- ===== src/SpanHeap/Bins.antt =====
-- The bitmap of the bins through the operations on spans: it marks exactly the bins that hold a
-- span.
use fast_memory_allocator.Base.{
  ℕ, ◌≡◌, ◌≢◌, subst, sym, not, ◌&&◌, arith, Option, none, some, ltb, leb, ◌==◌, if◌then◌else◌,
  ◌>>=◌, Bool-cases, ==_iff, inl, inr, OnResult, no_result, result, on_equal, on_bind, on_then,
  on_either,
}
use fast_memory_allocator.Base.Words.{sub64}
use fast_memory_allocator.Common.{Runtime}
use fast_memory_allocator.Span.{Ptr, null}
use fast_memory_allocator.RangeMap.{Allocator, L1Node, cmalloc_initialize_range_map}
use fast_memory_allocator.PageBins.{
  PageBins, mark_binned_span_non_empty, mark_binned_span_empty,
  find_best_fitting_uninitialized_span, max_binned_pages, no_fitting_page_sequence,
}
use fast_memory_allocator.PageBins.Marks.{
  IsTracked, non_empty-IsTracked, empty-IsTracked, with_head-IsTracked,
}
use fast_memory_allocator.SpanHeap.{
  Mapper, SpanHeap, put_head, put_bins, ensure_page_map, new_span, map_pages, alloc_direct, pop_bin,
  push_remainder, link_split, alloc_split, chunk_remainder, chunk_pages, pages_size, sizeof_span,
  sizeof_data_chunk, map_failed, alloc_chunk, alloc_binned, alloc_pages, alloc_span, bin_span,
  cmalloc_cache_span, has_arena, release_span, unmap_pages,
}

module _ (a : Allocator) (o : Mapper) (r : Runtime) where
  abbrev W : Type 0
  W = SpanHeap a o

  abbrev Tracked : W → Type 0
  Tracked w = IsTracked w.bins

  new_span-Tracked :
      (w : W) → Tracked w → OnResult (λ (p, w'). (p ≢ null) × Tracked w') (new_span a o r w)
  unfolding new_span
  new_span-Tracked w tracked =
      on_either ((a.alloc_metadata sizeof_span w.store).0 == null) (λ e. no_result)
        (λ e. result (ground (arith, e), tracked))

  -- The page map has no part in the bins.
  map_pages_bins :
      (P : PageBins → Type 0) (p : Ptr) (w : W)
      → P w.bins
      → OnResult (λ w'. P w'.bins) (map_pages a o r p w)
  unfolding map_pages
  map_pages_bins P p w h = on_then w.page_map λ m. on_then _ λ _. result h

  popped-Tracked :
      (n : ℕ) (next : Ptr) (w : W)
      → Tracked w
      → w.bins.uninitialized_span_bin n ≢ null
      → let w1 = put_head n next w in
        Tracked (if next == null then put_bins (mark_binned_span_empty n w1.bins) w1 else w1)
  popped-Tracked n next w tracked ne = elim (Bool-cases (next == null)) [
    | inl last ↦ rw (last, (==_iff next null).0 last) (empty-IsTracked w.bins tracked n)
    | inr more ↦ rw more (with_head-IsTracked w.bins tracked n next (ground arith) ne)
  ]

  pop_bin-Tracked :
      (n : ℕ) (w : W) → Tracked w → OnResult (λ (p, w'). Tracked w') (pop_bin a o r n w)
  unfolding pop_bin
  pop_bin-Tracked n w tracked =
      let p = w.bins.uninitialized_span_bin n in
      on_either (p == null) (λ e. no_result)
        λ e.
          result (popped-Tracked n (w.spans p).next_in_uninitialized_bin w tracked (ground arith))

  push_remainder-Tracked :
      (p : Ptr) (n : ℕ) (w : W)
      → p ≢ null
      → Tracked w
      → OnResult Tracked (push_remainder a o r p n w)
  unfolding push_remainder
  push_remainder-Tracked p n w ne tracked =
      on_bind
        (map_pages_bins (λ b. IsTracked (mark_binned_span_non_empty n b)) p (put_head n p w)
          (non_empty-IsTracked w.bins tracked n p ne))
        λ w1 h. result h

  link_split_bins : (p split : Ptr) (w : W) → (link_split a o r p split w).bins ≡ w.bins
  unfolding link_split
  link_split_bins p split w = ground arith

  alloc_split-Tracked :
      (n best : ℕ) (w : W)
      → Tracked w
      → OnResult (λ (p, w'). Tracked w') (alloc_split a o r n best w)
  unfolding alloc_split
  alloc_split-Tracked n best w tracked =
      on_bind (pop_bin-Tracked best w tracked) λ (p, w1) tracked1.
        on_bind (new_span-Tracked _ tracked1) λ (split, w2) (ne, tracked2).
          on_bind (push_remainder-Tracked split _ _ ne tracked2)
            λ w3 tracked3. result (subst IsTracked (sym (link_split_bins p split w3)) tracked3)

  alloc_direct-Tracked :
      (n : ℕ) (w : W) → Tracked w → OnResult (λ (p, w'). Tracked w') (alloc_direct a o r n w)
  unfolding alloc_direct
  alloc_direct-Tracked n w tracked = on_bind (new_span-Tracked w tracked) λ (p, w1) (ne, tracked1).
      on_bind (map_pages_bins IsTracked p _ tracked1) λ w2 tracked2. result tracked2

  chunk_remainder-Tracked :
      (fit base : Ptr) (n rest : ℕ) (w : W)
      → Tracked w
      → OnResult Tracked (chunk_remainder a o r fit base n rest w)
  unfolding chunk_remainder
  chunk_remainder-Tracked fit base n rest w tracked =
      on_bind (new_span-Tracked w tracked) λ (split, w1) (ne, tracked1).
        on_bind (map_pages_bins IsTracked split _ tracked1)
          λ w2 tracked2. result (non_empty-IsTracked w2.bins tracked2 rest split ne)

  alloc_chunk-Tracked :
      (n : ℕ) (w : W) → Tracked w → OnResult (λ (p, w'). Tracked w') (alloc_chunk a o r n w)
  unfolding alloc_chunk
  alloc_chunk-Tracked n w tracked =
      let chunk = (a.alloc_metadata sizeof_data_chunk w.store).0 in
      let base = (o.mmap (pages_size a o r (chunk_pages a o r n)) w.kernel).0 in
      on_either (chunk == null) (λ e. no_result)
        λ e.
          on_either (base == map_failed) (λ e. result tracked)
            λ e. on_bind (new_span-Tracked _ tracked) λ (fit, w2) (ne, tracked2).
              on_bind (map_pages_bins IsTracked fit _ tracked2) λ w3 tracked3.
                let rest = sub64 (chunk_pages a o r n) n in
                on_bind {P = Tracked}
                  (on_either (ltb 0 rest && ltb rest max_binned_pages)
                    (λ e. chunk_remainder-Tracked fit base n rest _ tracked3)
                    (λ e. result tracked3))
                  λ w5 tracked5. result tracked5

  alloc_binned-Tracked :
      (n : ℕ) (w : W) → Tracked w → OnResult (λ (p, w'). Tracked w') (alloc_binned a o r n w)
  unfolding alloc_binned
  alloc_binned-Tracked n w tracked =
      let best = find_best_fitting_uninitialized_span n w.bins in
      on_either (has_arena a o r w && not (best == no_fitting_page_sequence))
        (λ e.
          on_either (n == best) (λ e. pop_bin-Tracked n w tracked)
            (λ e. alloc_split-Tracked n best w tracked))
        (λ e. alloc_chunk-Tracked n w tracked)

  alloc_pages-Tracked :
      (n : ℕ) (w : W) → Tracked w → OnResult (λ (p, w'). Tracked w') (alloc_pages a o r n w)
  unfolding alloc_pages
  alloc_pages-Tracked n w tracked =
      on_either (leb max_binned_pages n) (λ e. alloc_direct-Tracked n w tracked)
        (λ e. alloc_binned-Tracked n w tracked)

  ensure_page_map_bins : (w : W) → Tracked w → OnResult Tracked (ensure_page_map a o r w)
  unfolding ensure_page_map
  ensure_page_map_bins w tracked = go w.page_map
    where
      go :
          (m : Option L1Node)
          → OnResult Tracked (elim m [
            | some m' ↦ some w
            | none ↦ cmalloc_initialize_range_map a w.store >>= λ (m', st).
                some (record w { page_map = some m'; store = st })
          ])
      go none = on_then (cmalloc_initialize_range_map a w.store) λ _. result tracked
      go (some m) = result tracked

  -- All branches of `alloc_span` that return leave exactly the bins marked that hold a span.
  pub alloc_span-IsTracked :
      (size : ℕ) (w w' : W) (p : Ptr)
      → IsTracked w.bins
      → alloc_span a o r size w ≡ some (p, w')
      → IsTracked w'.bins
  unfolding alloc_span
  alloc_span-IsTracked size w w' p tracked e =
      on_equal e (on_bind (ensure_page_map_bins w tracked) λ w1. alloc_pages-Tracked _ w1)

  unmap_pages_bins : (p : Ptr) (w : W) → Tracked w → OnResult Tracked (unmap_pages a o r p w)
  unfolding unmap_pages
  unmap_pages_bins p w tracked = on_then w.page_map λ m. on_then _ λ _. result tracked

  -- So do both branches of `cmalloc_cache_span`, for a span at an address that is not NULL.
  pub cmalloc_cache_span-IsTracked :
      (p : Ptr) (w w' : W)
      → p ≢ null
      → IsTracked w.bins
      → cmalloc_cache_span a o r p w ≡ some w'
      → IsTracked w'.bins
  unfolding cmalloc_cache_span release_span bin_span
  cmalloc_cache_span-IsTracked p w w' ne tracked e = on_equal {P = Tracked} e (
      on_either (leb max_binned_pages (w.spans p).page_count)
        (λ large. on_bind (unmap_pages_bins p w tracked) λ w1 h. result h)
        (λ small. result (non_empty-IsTracked w.bins tracked (w.spans p).page_count p ne)))
