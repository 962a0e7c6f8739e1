-- ===== src/SpanHeap/Reuse.antt =====
-- A span that `cmalloc_cache_span` has put into its bin is the one that the next request for as many
-- pages gets.
use fast_memory_allocator.Base.{
  ℕ, ◌<◌, ◌≡◌, ◌≢◌, refl, ap, ◌∙◌, true, false, arith, some, leb, ◌==◌, if◌then◌else◌, ◌>>=◌,
  Bool-cases, ==_iff, inl, inr,
}
use fast_memory_allocator.Common.{Runtime}
use fast_memory_allocator.Span.{Ptr, null}
use fast_memory_allocator.RangeMap.{Allocator, L1Node}
use fast_memory_allocator.PageBins.{
  mark_binned_span_non_empty, mark_binned_span_empty, find_best_fitting_uninitialized_span,
  no_fitting_page_sequence,
}
use fast_memory_allocator.PageBins.Marks.{
  IsTracked, with_head, is_marked-non_empty, non_empty-IsTracked, find_self,
}
use fast_memory_allocator.PageBins.Stack.{take_last, take_next}
use fast_memory_allocator.SpanHeap.{
  Mapper, SpanHeap, put_span, put_bins, put_head, pop_bin, alloc_binned, alloc_pages, alloc_span,
  bin_span, cmalloc_cache_span, has_arena, request_pages, ensure_page_map,
}

==-same : (n : ℕ) → (n == n) ≡ true
==-same n = ground arith

-- `pop_bin` by the head of the bin and what it is linked to.
first_of_bin :
    (a : Allocator) (o : Mapper) (r : Runtime) (n : ℕ) (w : SpanHeap a o) (p next : Ptr)
    → p ≢ null
    → w.bins.uninitialized_span_bin n ≡ p
    → (w.spans p).next_in_uninitialized_bin ≡ next
    → let w1 = put_head n next w in
      pop_bin a o r n w
      ≡ some (p, if next == null then put_bins (mark_binned_span_empty n w1.bins) w1 else w1)
unfolding pop_bin
first_of_bin a o r n w p next real first link =
    let here : (p == null) ≡ false = ground arith in rw (first, here, link) refl

module _ (a : Allocator) (o : Mapper) (r : Runtime) (w : SpanHeap a o) (p : Ptr) where
  abbrev n : ℕ
  n = (w.spans p).page_count

  -- The state with the span marked as not initialised, and linked to the former head of its bin.
  abbrev pub uninitialised : SpanHeap a o
  uninitialised =
      put_span p
        (record (w.spans p) {
          is_initialized = false;
          next_in_uninitialized_bin = w.bins.uninitialized_span_bin n;
        })
        w

  module _ (real : p ≢ null) (lt : n < 8193) (tracked : IsTracked w.bins) where
    abbrev cached : SpanHeap a o
    cached = bin_span a o r p w

    best_lem : find_best_fitting_uninitialized_span n cached.bins ≡ n
    unfolding bin_span
    best_lem =
        let after = non_empty-IsTracked w.bins tracked n p real in
        find_self _ n after.words_fit lt
          (is_marked-non_empty (with_head n p w.bins) n n ∙ ground arith)

    head : Ptr
    head = w.bins.uninitialized_span_bin n

    pop_lem : pop_bin a o r n cached ≡ some (p, uninitialised)
    unfolding bin_span head mark_binned_span_non_empty
    pop_lem =
        first_of_bin a o r n cached p head real (ground arith) (ground arith)
        ∙ elim (Bool-cases (head == null)) [
          | inl last ↦
              let e = (==_iff head null).0 last in
              rw last
                (ap (λ b. some (p, put_bins b uninitialised)) (take_last w.bins tracked n lt p e))
          | inr more ↦ rw more (
              ap (λ b. some (p, put_bins b uninitialised))
                (take_next w.bins tracked n lt p (ground arith)))
        ]

    arena_lem : has_arena a o r cached ≡ has_arena a o r w
    unfolding bin_span
    arena_lem = refl

    map_lem : (m : L1Node) → w.page_map ≡ some m → ensure_page_map a o r cached ≡ some cached
    unfolding ensure_page_map bin_span
    map_lem m there = rw there refl

    alloc_lem : has_arena a o r w ≡ true → alloc_pages a o r n cached ≡ some (p, uninitialised)
    unfolding alloc_pages alloc_binned
    alloc_lem arena =
        let small : leb 8193 n ≡ false = ground arith in
        let hit : (n == no_fitting_page_sequence) ≡ false = ground arith in
        rw (small, arena_lem, arena, best_lem, hit, ==-same n) pop_lem

    -- A span that is not too large for the bins, put there by `cmalloc_cache_span`, is the one that the next `alloc_span` of as many
    -- pages returns, and all else is as it was, if a chunk has been mapped and the bitmap marks
    -- exactly the bins that hold a span.
    pub alloc_span-cache_span :
        (size : ℕ) (m : L1Node)
        → w.page_map ≡ some m
        → has_arena a o r w ≡ true
        → request_pages a o r size ≡ n
        → (cmalloc_cache_span a o r p w >>= alloc_span a o r size) ≡ some (p, uninitialised)
    unfolding cmalloc_cache_span alloc_span
    alloc_span-cache_span size m there arena pages =
        let small : leb 8193 n ≡ false = ground arith in
        rw small (
          ap (λ x. x >>= alloc_pages a o r (request_pages a o r size)) (map_lem m there)
          ∙ rw pages (alloc_lem arena))
