-- ===== src/Cmalloc/Threads.antt =====
-- src/cmalloc.c called by several threads, one call after the other: each thread has bins of its own,
-- and all share the state of src/span.c and the bytes of user memory. A call that is made while
-- another one runs is left out.
use fast_memory_allocator.Base.{
  ℕ, ◌/◌, ◌+◌, ◌<◌, ◌≡◌, ◌≢◌, refl, ap, ◌∙◌, sym, arith, false, Option, some, ◌==◌, leb, update,
  update_at, ◌>>=◌, eq_false, eq_true,
}
use fast_memory_allocator.Base.Words.{u64, sub64, set_bit}
use fast_memory_allocator.Common.{Runtime}
use fast_memory_allocator.Span.{Ptr, null, Span, free_block, bitmap_bit_index, bitmap_word_count}
use fast_memory_allocator.RangeMap.{Allocator}
use fast_memory_allocator.PageBins.{max_binned_pages, mark_binned_span_non_empty}
use fast_memory_allocator.SpanHeap.{
  Mapper, SpanHeap, cmalloc_get_span, cmalloc_cache_span, bin_span,
}
use fast_memory_allocator.Cmalloc.{
  Heap, span_at, set_span, set_bin, bin_remove, cache_span, free_small, cfree, cmalloc,
}
use fast_memory_allocator.Cmalloc.RoundTrip.{cfree_by}

-- `bins` is `thread_local_bin` of each thread.
pub record Process (a : Allocator) (o : Mapper) : Type 0 where
  pub spans : SpanHeap a o
  pub bins : ℕ → ℕ → Ptr
  pub memory : ℕ → ℕ

-- What a thread sees, and what its call leaves.
abbrev pub seen_by : {a : Allocator} {o : Mapper} → ℕ → Process a o → Heap a o
seen_by t s = record { spans = s.spans; thread_local_bin = s.bins t; memory = s.memory }

abbrev pub after_call : {a : Allocator} {o : Mapper} → ℕ → Process a o → Heap a o → Process a o
after_call t s h = record {
  spans = h.spans;
  bins = update s.bins t h.thread_local_bin;
  memory = h.memory;
}

module _ (a : Allocator) (o : Mapper) (r : Runtime) where
  unfoldable pub cmalloc_of : ℕ → ℕ → Process a o → Option (Ptr × Process a o)
  cmalloc_of t size s =
      cmalloc a o r size (seen_by t s) >>= λ (ptr, h). some (ptr, after_call t s h)

  unfoldable pub cfree_of : ℕ → Ptr → Process a o → Option (Process a o)
  cfree_of t ptr s = cfree a o r ptr (seen_by t s) >>= λ h. some (after_call t s h)

  -- A span that is in a bin alone.
  bin_remove_alone :
      (i : ℕ) (p : Ptr) (h : Heap a o)
      → (span_at h p).prev_in_size_class_bin ≡ null
      → (span_at h p).next_in_size_class_bin ≡ null
      → bin_remove a o i p h
        ≡ set_span p
            (record (span_at h p) { prev_in_size_class_bin = null; next_in_size_class_bin = null })
            (set_bin i null h)
  unfolding bin_remove
  bin_remove_alone i p h prev next = simp (prev, next)

  cache_span_small :
      (p : Ptr) (h : Heap a o)
      → (span_at h p).page_count < 8193
      → cache_span a o r p h ≡ some (record h { spans = bin_span a o r p h.spans })
  unfolding cache_span cmalloc_cache_span
  cache_span_small p h small =
      let binned : leb max_binned_pages (span_at h p).page_count ≡ false = ground (arith, small) in
      rw binned refl

  -- What is in the bins after a span has been put there.
  bin_span_lem :
      (p : Ptr) (w : SpanHeap a o) (n : ℕ)
      → (w.spans p).page_count ≡ n
      → ((bin_span a o r p w).bins.uninitialized_span_bin n ≡ p)
        × (((bin_span a o r p w).spans p).is_initialized ≡ false)
  unfolding bin_span mark_binned_span_non_empty
  bin_span_lem p w n count = (
    rw count (update_at w.bins.uninitialized_span_bin n p),
    ap (λ (s : Span). s.is_initialized) (update_at w.spans p _),
  )

  -- Freeing the last block in use of a span that is alone in its bin.
  pub free_small_last :
      (i : ℕ) (p ptr : Ptr) (h : Heap a o) (f : Span)
      → (span_at h p).free_count ≢ 0
      → free_block ptr (span_at h p) ≡ some f
      → f.free_count ≡ f.block_count
      → f.prev_in_size_class_bin ≡ null
      → f.next_in_size_class_bin ≡ null
      → f.page_count < 8193
      → (h' : Heap a o) × (free_small a o r i p ptr h ≡ some h')
        × (h'.thread_local_bin ≡ update h.thread_local_bin i null)
        × (h'.spans.bins.uninitialized_span_bin f.page_count ≡ p)
        × ((span_at h' p).is_initialized ≡ false)
  unfolding free_small
  free_small_last i p ptr h f some_free freed full prev next small =
      let h2 = set_span p f h in
      let at : span_at h2 p ≡ f = update_at h.spans.spans p f in
      let g : Span = record (span_at h2 p) {
        prev_in_size_class_bin = null;
        next_in_size_class_bin = null;
      } in
      let h3 = set_span p g (set_bin i null h2) in
      let count : (span_at h3 p).page_count ≡ f.page_count =
        ap (λ (s : Span). s.page_count) (update_at h2.spans.spans p g)
        ∙ ap (λ (s : Span). s.page_count) at in
      let (first, idle) = bin_span_lem p h3.spans f.page_count count in
      (
        record h3 { spans = bin_span a o r p h3.spans },
        rw (eq_false some_free, freed, eq_true full)
            (ap (cache_span a o r p) (
                bin_remove_alone i p h2 (ap (λ (s : Span). s.prev_in_size_class_bin) at ∙ prev)
                  (ap (λ (s : Span). s.next_in_size_class_bin) at ∙ next))
              ∙ cache_span_small p h3 (rw count small)),
        refl,
        first,
        idle,
      )

-- A block is the last one in use of a span that has other blocks free, is the only one in its bin,
-- and is small enough for the bins of page runs.
pub record IsLastOfBin {a : Allocator} {o : Mapper} (r : Runtime) (i : ℕ) (p ptr : Ptr)
    (w : SpanHeap a o) : Type 0 where
  pub given : ptr ≢ null
  pub found : cmalloc_get_span a o r ptr w ≡ some p
  pub real : p ≢ null
  pub class_eq : (w.spans p).size_class_index ≡ some i
  pub some_free : (w.spans p).free_count ≢ 0
  pub prev : (w.spans p).prev_in_size_class_bin ≡ null
  pub next : (w.spans p).next_in_size_class_bin ≡ null
  pub small : (w.spans p).page_count < 8193
  pub size_pos : (w.spans p).block_size ≢ 0
  pub in_bitmap : sub64 ptr (w.spans p).base / (w.spans p).block_size < 4096
  pub last : u64 ((w.spans p).free_count + 1) ≡ (w.spans p).block_count

module _ {a : Allocator} {o : Mapper} (r : Runtime) where
  -- The span after `free_block`.
  freed_span :
      (i : ℕ) (p ptr : Ptr) (w : SpanHeap a o)
      → IsLastOfBin r i p ptr w
      → (f : Span) × (free_block ptr (w.spans p) ≡ some f)
        × (f.free_count ≡ f.block_count)
        × (f.prev_in_size_class_bin ≡ null)
        × (f.next_in_size_class_bin ≡ null)
        × (f.page_count ≡ (w.spans p).page_count)
  unfolding free_block
  freed_span i p ptr w l =
      let block = sub64 ptr (w.spans p).base / (w.spans p).block_size in
      let sized : ((w.spans p).block_size == 0) ≡ false = eq_false l.size_pos in
      let fits : leb bitmap_word_count (block / 64) ≡ false = ground (arith, l.in_bitmap) in
      let f : Span = record (w.spans p) {
        free_count = u64 ((w.spans p).free_count + 1);
        block_bitmap =
            update (w.spans p).block_bitmap (block / 64)
              (set_bit ((w.spans p).block_bitmap (block / 64)) (bitmap_bit_index block));
        nonfull_bitmap = set_bit (w.spans p).nonfull_bitmap (bitmap_bit_index (block / 64));
      } in
      (f, rw (sized, fits) refl, l.last, l.prev, l.next, refl)

  -- A thread frees the block while the span is in another thread's bin. The call returns; the span
  -- has gone to the bins of page runs, from which any thread can get it, and is still in the bin of
  -- the other thread, and the calling thread has lost what its own bin of the class held.
  pub cfree_of-foreign :
      (s : Process a o) (t t' i : ℕ) (p ptr : Ptr)
      → t ≢ t'
      → s.bins t i ≡ p
      → IsLastOfBin r i p ptr s.spans
      → (s' : Process a o) × (cfree_of a o r t' ptr s ≡ some s')
        × (s'.spans.bins.uninitialized_span_bin (s.spans.spans p).page_count ≡ p)
        × ((s'.spans.spans p).is_initialized ≡ false)
        × (s'.bins t i ≡ p)
        × (s'.bins t' i ≡ null)
  unfolding cfree_of
  cfree_of-foreign s t t' i p ptr ne bin l =
      let h = seen_by t' s in
      let (f, freed, full, prev, next, count) = freed_span i p ptr s.spans l in
      let (h', runs, bins, first, idle) =
        free_small_last a o r i p ptr h f l.some_free freed full prev next (rw count l.small) in
      (
        after_call t' s h',
        ap (λ x. x >>= λ h'. some (after_call t' s h'))
            (cfree_by a o r i p ptr h l.given l.found l.real l.class_eq ∙ runs),
        ap h'.spans.bins.uninitialized_span_bin (sym count) ∙ first,
        idle,
        rw (eq_false (λ e. ne (sym e))) bin,
        ap (λ b. b i) (update_at s.bins t' h'.thread_local_bin ∙ bins)
            ∙ update_at (s.bins t') i null,
      )
