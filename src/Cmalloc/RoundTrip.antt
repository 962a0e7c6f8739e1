-- ===== src/Cmalloc/RoundTrip.antt =====
-- src/cmalloc.c: a block from the first span of a bin, and its return by `cfree`.
use fast_memory_allocator.Base.{
  ℕ, ◌+◌, ◌*◌, ◌^◌, ◌≤◌, ◌<◌, ◌≡◌, ◌≢◌, refl, sym, ap, ◌∙◌, false, arith, some, ◌==◌, ◌>>=◌,
  update_at, update-update, update_self,
}
use fast_memory_allocator.Common.{Runtime, get_size_class_index}
use fast_memory_allocator.Span.{Ptr, null, Span, allocate_block, free_block}
use fast_memory_allocator.Span.Blocks.{IsWellFormed}
use fast_memory_allocator.Span.Allocate.{allocate_block_cases}
use fast_memory_allocator.Span.Free.{free-allocate}
use fast_memory_allocator.RangeMap.{Allocator}
use fast_memory_allocator.SpanHeap.{Mapper, cmalloc_get_span}
use fast_memory_allocator.Cmalloc.{
  Heap, span_at, set_span, block_of, from_bin, from_class, cmalloc, free_small, free_in, cfree,
}

module _ (a : Allocator) (o : Mapper) (r : Runtime) where
  -- `cmalloc`, `cfree` by what they test.
  cmalloc_by :
      (size i : ℕ) (p : Ptr) (h : Heap a o)
      → get_size_class_index r size ≡ some i
      → h.thread_local_bin i ≡ p
      → p ≢ null
      → ((span_at h p).free_count == 1) ≡ false
      → cmalloc a o r size h ≡ some (block_of a o p h)
  unfolding cmalloc from_class from_bin
  cmalloc_by size i p h cls bin real more =
      let here : (p == null) ≡ false = ground arith in rw (cls, bin, here, more) refl

  pub cfree_by :
      (i : ℕ) (p ptr : Ptr) (h : Heap a o)
      → ptr ≢ null
      → cmalloc_get_span a o r ptr h.spans ≡ some p
      → p ≢ null
      → (span_at h p).size_class_index ≡ some i
      → cfree a o r ptr h ≡ free_small a o r i p ptr h
  unfolding cfree free_in
  cfree_by i p ptr h given found real cls =
      let here : (p == null) ≡ false = ground arith in
      let there : (ptr == null) ≡ false = ground arith in rw (there, found, here, cls) refl

  free_small_by :
      (i : ℕ) (p ptr : Ptr) (h : Heap a o) (s : Span)
      → ((span_at h p).free_count == 0) ≡ false
      → free_block ptr (span_at h p) ≡ some s
      → (s.free_count == s.block_count) ≡ false
      → free_small a o r i p ptr h ≡ some (set_span p s h)
  unfolding free_small
  free_small_by i p ptr h s some_free freed used = rw (some_free, freed, used) refl

set_back :
    {a : Allocator} {o : Mapper} (p : Ptr) (s : Span) (h : Heap a o)
    → set_span p (span_at h p) (set_span p s h) ≡ h
set_back p s h = λ i. record h {
  spans = record (h.spans) {
    spans =
        (update-update h.spans.spans p s (span_at h p)
            ∙ update_self h.spans.spans p (span_at h p) refl)
          i;
  };
}

-- A span in use whose blocks are where its fields say.
pub record IsPlaced (s : Span) : Type 0 where
  pub well_formed : IsWellFormed s
  pub size_pos : 0 < s.block_size
  pub base_pos : 0 < s.base
  pub fits : s.base + s.block_count * s.block_size ≤ 2 ^ 64

module _ (a : Allocator) (o : Mapper) (r : Runtime) (h : Heap a o) (size i : ℕ) (p : Ptr) where
  abbrev s : Span
  s = span_at h p

  abbrev block : Ptr
  block = (allocate_block s).0

  -- The address of a block of the span is not NULL.
  block_real : IsPlaced s → 0 < s.free_count → block ≢ null
  block_real placed pos =
      let taken = (allocate_block_cases s placed.well_formed).0 pos in
      let room : taken.block * s.block_size + s.block_size ≤ s.block_count * s.block_size =
        grind (arith, taken.in_range) in
      omega (arith, taken.address_eq, room, placed.base_pos, placed.size_pos, placed.fits)

  -- A block that `cmalloc` takes from the first span of the bin is given back by `cfree`, and the
  -- heap is as it was before, if the span is well-formed, has another free block and another block
  -- in use, and the page map leads from the block to the span.
  pub cfree-cmalloc :
      get_size_class_index r size ≡ some i
      → h.thread_local_bin i ≡ p
      → p ≢ null
      → s.size_class_index ≡ some i
      → IsPlaced s
      → 1 < s.free_count
      → s.free_count < s.block_count
      → cmalloc_get_span a o r block h.spans ≡ some p
      → (cmalloc a o r size h >>= λ (ptr, h'). cfree a o r ptr h') ≡ some h
  unfolding block_of cmalloc_get_span
  cfree-cmalloc cls bin real same placed more used found =
      let t = (allocate_block s).1 in
      let taken = (allocate_block_cases s placed.well_formed).0 (omega arith) in
      let h' = set_span p t h in
      let at : span_at h' p ≡ t = update_at h.spans.spans p t in
      let freed : free_block block t ≡ some s =
        free-allocate s placed.well_formed (omega arith) placed.size_pos placed.fits in
      ap (λ x. x >>= λ (ptr, h''). cfree a o r ptr h'')
        (cmalloc_by a o r size i p h cls bin real (ground arith))
      ∙ cfree_by a o r i p block h' (block_real placed (omega arith)) found real (
          ap (λ (u : Span). u.size_class_index) at
          ∙ sym (ap (λ (u : Span). u.size_class_index) taken.shape.rest_same)
          ∙ same)
      ∙ free_small_by a o r i p block h' s
          (ground (arith, ap (λ (u : Span). u.free_count) at, taken.one_less))
          (ap (free_block block) at ∙ freed) (ground arith)
      ∙ ap some (set_back p t h)
