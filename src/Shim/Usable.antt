-- ===== src/Shim/Usable.antt =====
-- How much of a block lies behind a pointer into it, and what `shim_realloc` makes of that.
use fast_memory_allocator.Base.{ℕ, ◌+◌, ◌-◌, ◌*◌, ◌^◌, ◌<◌, ◌≡◌, some}
use fast_memory_allocator.Common.{Runtime}
use fast_memory_allocator.Span.{Ptr, Span}
use fast_memory_allocator.RangeMap.{Allocator}
use fast_memory_allocator.SpanHeap.{Mapper}
use fast_memory_allocator.Cmalloc.{Heap, span_at}
use fast_memory_allocator.Shim.{shim_usable_size, shim_realloc}

-- An address `off` bytes into block `i` of a span.
pub record IsInside (s : Span) (i off : ℕ) (ptr : Ptr) : Type 0 where
  pub at : ptr ≡ s.base + i * s.block_size + off
  pub inside : off < s.block_size
  pub below : s.base + i * s.block_size + s.block_size < 2 ^ 64

module _ (a : Allocator) (o : Mapper) (r : Runtime) where
  -- The block is not moved, and the bytes from the pointer to the end of the block are usable.
  pub record IsInPlace (size off : ℕ) (ptr p : Ptr) (h : Heap a o) : Type 0 where
    pub stays : shim_realloc a o r ptr size h ≡ some (ptr, h)
    pub usable : shim_usable_size a o r ptr h ≡ some ((span_at h p).block_size - off)
