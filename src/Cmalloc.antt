-- ===== src/Cmalloc.antt =====
-- src/cmalloc.c: the bins of a thread, and the functions that a program calls.
--
-- The model is of one thread: its locking and unlocking of the mutex, which nobody else holds,
-- changes nothing that the functions read. `none` stands for a failed assertion and for a
-- dereference of NULL.
pub mod Requests
pub mod RoundTrip
pub mod Bins
pub mod Unlink
pub mod Remove
pub mod Threads
pub mod ThreadTests
pub mod Tests
use fast_memory_allocator.Base.{
  ℕ, ◌+◌, ◌-◌, ◌*◌, ◌/◌, Bool, true, false, not, ◌&&◌, ◌||◌, Option, none, some, ltb, leb, ◌==◌,
  if◌then◌else◌, update, ◌>>=◌,
}
use fast_memory_allocator.Base.Words.{u64, max64}
use fast_memory_allocator.Common.{Runtime, get_size_class_index}
use fast_memory_allocator.Span.{Ptr, null, Span, allocate_block, free_block}
use fast_memory_allocator.RangeMap.{Allocator}
use fast_memory_allocator.SpanHeap.{
  Mapper, SpanHeap, put_span, cmalloc_cache_span, cmalloc_initialize_span, cmalloc_get_span,
}

-- What the thread sees: the state of src/span.c, its own bins, and the bytes of user memory.
pub record Heap (a : Allocator) (o : Mapper) : Type 0 where
  pub spans : SpanHeap a o
  pub thread_local_bin : ℕ → Ptr
  pub memory : ℕ → ℕ

-- The span at an address, and an assignment to it.
abbrev pub span_at : {a : Allocator} {o : Mapper} → Heap a o → Ptr → Span
span_at h p = h.spans.spans p

abbrev pub set_span : {a : Allocator} {o : Mapper} → Ptr → Span → Heap a o → Heap a o
set_span p s h = record h { spans = put_span p s (h.spans) }

abbrev pub set_bin : {a : Allocator} {o : Mapper} → ℕ → Ptr → Heap a o → Heap a o
set_bin i p h = record h { thread_local_bin = update h.thread_local_bin i p }

-- `memset(ptr, 0, size)` and `memcpy(to, from, size)`, by address.
abbrev pub clear_bytes : Ptr → ℕ → (ℕ → ℕ) → ℕ → ℕ
clear_bytes ptr size memory addr = if leb ptr addr && ltb addr (ptr + size) then 0 else memory addr

abbrev pub copy_bytes : Ptr → Ptr → ℕ → (ℕ → ℕ) → ℕ → ℕ
copy_bytes to from size memory addr =
    if leb to addr && ltb addr (to + size) then memory (from + (addr - to)) else memory addr

module _ (a : Allocator) (o : Mapper) where
  unfoldable pub bin_push : ℕ → Ptr → Heap a o → Heap a o
  bin_push i p h =
      let head = h.thread_local_bin i in
      let h1 =
        set_span p
          (record (span_at h p) { prev_in_size_class_bin = null; next_in_size_class_bin = head })
          h in
      let h2 =
        if head == null
        then h1
        else set_span head (record (span_at h1 head) { prev_in_size_class_bin = p }) h1 in
      set_bin i p h2

  unfoldable pub bin_remove : ℕ → Ptr → Heap a o → Heap a o
  bin_remove i p h =
      let prev = (span_at h p).prev_in_size_class_bin in
      let next = (span_at h p).next_in_size_class_bin in
      let h1 =
        if prev == null
        then set_bin i next h
        else set_span prev (record (span_at h prev) { next_in_size_class_bin = next }) h in
      let h2 =
        if next == null
        then h1
        else set_span next (record (span_at h1 next) { prev_in_size_class_bin = prev }) h1 in
      set_span p
        (record (span_at h2 p) { prev_in_size_class_bin = null; next_in_size_class_bin = null }) h2

  -- `return allocate_block(span)`
  unfoldable pub block_of : Ptr → Heap a o → Ptr × Heap a o
  block_of p h = let (ptr, s) = allocate_block (span_at h p) in (ptr, set_span p s h)

module _ (a : Allocator) (o : Mapper) (r : Runtime) where
  -- The three ways of `cmalloc`: from the first span of the bin, from a new span of the class, and
  -- from a span of its own.
  unfoldable pub from_bin : ℕ → Ptr → Heap a o → Ptr × Heap a o
  from_bin i p h =
      block_of a o p (if (span_at h p).free_count == 1 then bin_remove a o i p h else h)

  unfoldable pub from_new_span : ℕ → ℕ → Heap a o → Option (Ptr × Heap a o)
  from_new_span i size h = cmalloc_initialize_span a o r (some i) size h.spans >>= λ (p, spans).
      some (block_of a o p (bin_push a o i p (record h { spans = spans })))

  unfoldable pub from_large_span : ℕ → Heap a o → Option (Ptr × Heap a o)
  from_large_span size h = cmalloc_initialize_span a o r none size h.spans >>= λ (p, spans).
      some (block_of a o p (record h { spans = spans }))

  unfoldable pub from_class : Option ℕ → ℕ → Heap a o → Option (Ptr × Heap a o)
  from_class none size h = from_large_span size h
  from_class (some i) size h =
      let p = h.thread_local_bin i in
      if p == null then from_new_span i size h else some (from_bin i p h)

  unfoldable pub cmalloc : ℕ → Heap a o → Option (Ptr × Heap a o)
  cmalloc size h = from_class (get_size_class_index r size) size h

  unfoldable pub cache_span : Ptr → Heap a o → Option (Heap a o)
  cache_span p h = cmalloc_cache_span a o r p h.spans >>= λ spans. some (record h { spans = spans })

  -- `cfree` for a span of a size class.
  unfoldable pub free_small : ℕ → Ptr → Ptr → Heap a o → Option (Heap a o)
  free_small i p ptr h = do
    let h1 = if (span_at h p).free_count == 0 then bin_push a o i p h else h
    s ← free_block ptr (span_at h1 p)
    let h2 = set_span p s h1
    if s.free_count == s.block_count then cache_span p (bin_remove a o i p h2) else some h2

  unfoldable pub free_in : Option ℕ → Ptr → Ptr → Heap a o → Option (Heap a o)
  free_in none p ptr h = cache_span p h
  free_in (some i) p ptr h = free_small i p ptr h

  unfoldable pub cfree : Ptr → Heap a o → Option (Heap a o)
  cfree ptr h =
      let rest = cmalloc_get_span a o r ptr h.spans >>= λ p.
      if p == null then none else free_in (span_at h p).size_class_index p ptr h in
      if ptr == null then some h else rest

  unfoldable pub ccalloc : ℕ → ℕ → Heap a o → Option (Ptr × Heap a o)
  ccalloc num size h =
      let total = u64 (num * size) in
      let cleared = cmalloc total h >>= λ (ptr, h1). some (
        ptr,
        if ptr == null || total == 0
            then h1
            else record h1 { memory = clear_bytes ptr total h1.memory },
      ) in
      if not (num == 0) && ltb (max64 / num) size then some (null, h) else cleared

  -- The end of `crealloc`, for a block of the span at `p` that is too small.
  unfoldable pub move_block : Ptr → Ptr → ℕ → Heap a o → Option (Ptr × Heap a o)
  move_block p ptr size h = do
    (new_ptr, h1) ← cmalloc size h
    let h2 : Heap a o = record h1 {
      memory = copy_bytes new_ptr ptr (span_at h1 p).block_size h1.memory;
    }
    let moved = cfree ptr h2 >>= λ h3. some (new_ptr, h3)
    if new_ptr == null then some (null, h1) else moved

  unfoldable pub crealloc : Ptr → ℕ → Heap a o → Option (Ptr × Heap a o)
  crealloc ptr size h =
      let freed = cfree ptr h >>= λ h1. some (null, h1) in
      let resized = cmalloc_get_span a o r ptr h.spans >>= λ p.
      if p == null
      then none
      else if leb size (span_at h p).block_size
      then some (ptr, h)
      else move_block p ptr size h in
      if ptr == null then cmalloc size h else (if size == 0 then freed else resized)
