-- ===== src/Metadata/Spans.antt =====
-- src/span.c over src/metadata.c: the span heap with the arena as its allocator of metadata.
use fast_memory_allocator.Base.{ℕ, ◌≡◌, ◌≤◌, sym, subst, Bool, Option, some}
use fast_memory_allocator.Common.{Runtime}
use fast_memory_allocator.Span.{Ptr}
use fast_memory_allocator.RangeMap.Ledger.{IsAllocator}
use fast_memory_allocator.RangeMap.Supply.{Serves}
use fast_memory_allocator.SpanHeap.{
  Mapper, SpanHeap, span_size, request_pages, cmalloc_initialize_span,
}
use fast_memory_allocator.SpanHeap.Served.{MapsChunk, most_calls}
use fast_memory_allocator.SpanHeap.Roles.{IsMapper}
use fast_memory_allocator.SpanHeap.Roles.Alloc.{Answers}
use fast_memory_allocator.SpanHeap.Roles.Reach.{Reach, Reach-IsShared, IsNew, Reach-IsNew}
use fast_memory_allocator.Metadata.{Arena}
use fast_memory_allocator.Metadata.Refusals.{CannotMap}
use fast_memory_allocator.Metadata.Blocks.{IsChunkMapper}
use fast_memory_allocator.Metadata.AsAllocator.{arena_allocator}
use fast_memory_allocator.Metadata.Interface.{arena_allocator_lem}

-- The arena of a process fulfils the interface.
abbrev pub arena_ledger : {o : Mapper} → IsChunkMapper o → IsAllocator (arena_allocator o)
arena_ledger m = (arena_allocator_lem m).0

module _ {o o' : Mapper} {r : Runtime} (m : IsChunkMapper o) (k : IsMapper o' r)
    (small : r.page_shift ≤ 20) where
  -- With the arena as the allocator of metadata `cmalloc_initialize_span` returns a span of the
  -- requested number of `n` pages that was not in use, and leaves base and page count of those in
  -- use. The heap is any that clients bring about without a fault of the arena and without giving
  -- back a span that is too large for the bins. The pages have at most 2 ^ 20 bytes. None of the
  -- arena's next 2 * n + 16388 requests for a chunk gets MAP_FAILED, and mmap answers for 8193 pages
  -- or more, and for fewer if no cached span has enough pages.
  pub arena_heap-IsNew :
      (w : SpanHeap (arena_allocator o) o') (live : Ptr → Bool) (st : Arena o) (c : Option ℕ)
      (requested : ℕ)
      → let n = request_pages (arena_allocator o) o' r (span_size c requested) in
        Reach o' r (arena_ledger m) w live
        → w.store ≡ some st
        → ¬ CannotMap o (most_calls (arena_allocator o) o' r n) st
        → Answers o' r n w.kernel
        → MapsChunk (arena_allocator o) o' r n w
        → (p : Ptr) × (w' : SpanHeap (arena_allocator o) o') × (cmalloc_initialize_span
              (arena_allocator o)
              o'
              r
              c
              requested
              w
            ≡ some (p, w'))
          × IsNew (arena_ledger m) k small w live n p w'
  arena_heap-IsNew w live st c requested run there works answers chunk =
      let sound = (Reach-IsShared (arena_ledger m) k small run).heap.sound in
      let n = request_pages (arena_allocator o) o' r (span_size c requested) in
      Reach-IsNew (arena_ledger m) k small w live c requested run answers chunk (
        subst (Serves (arena_allocator o) (most_calls (arena_allocator o) o' r n)) (sym there)
          ((arena_allocator_lem m).3 st _ (subst (arena_ledger m).IsSound there sound) works))
