-- ===== src/Shim.antt =====
-- bench/shim/alloc_shim.c with the backend cmalloc: the malloc family of the benchmarks over the
-- functions of src/cmalloc.c, with over-aligned allocation by shifting the pointer inside a block.
--
-- strlen and strnlen belong to the C library and are parameters. `none` stands for a failed
-- assertion, a dereference of NULL and a division by 0.
pub mod Operators
pub mod Align
pub mod Usable
pub mod Rounds
pub mod Copies
pub mod Tests
use fast_memory_allocator.Base.{
  ℕ, ◌+◌, ◌-◌, ◌*◌, ◌/◌, ◌%◌, ◌^◌, Bool, true, false, not, ◌&&◌, ◌||◌, Option, none, some, ltb, leb,
  ◌==◌, if◌then◌else◌, update, ◌>>=◌,
}
use fast_memory_allocator.Base.Words.{u64, sub64, not64, max64}
use Prim.Native.Nat.{bit_and}
use fast_memory_allocator.Common.{Runtime}
use fast_memory_allocator.Span.{Ptr, null, Span}
use fast_memory_allocator.RangeMap.{Allocator}
use fast_memory_allocator.SpanHeap.{Mapper, cmalloc_get_span}
use fast_memory_allocator.Cmalloc.{Heap, span_at, copy_bytes, cmalloc, cfree, ccalloc, crealloc}

-- What the shim uses of the C library: the lengths of the string at an address of memory.
pub record Strings : Type 0 where
  pub strlen : (ℕ → ℕ) → Ptr → ℕ
  pub strnlen : (ℕ → ℕ) → Ptr → ℕ → ℕ

-- EINVAL and ENOMEM
abbrev pub einval : ℕ
einval = 22

abbrev pub enomem : ℕ
enomem = 12

-- `*out = ptr` for a `void **`, in eight bytes from the lowest on.
abbrev pub store_pointer : Ptr → Ptr → (ℕ → ℕ) → ℕ → ℕ
store_pointer out ptr memory addr =
    if leb out addr && ltb addr (out + 8) then ptr / 256 ^ (addr - out) % 256 else memory addr

-- The bytes of the span's block from `ptr` on.
unfoldable pub usable_in : Span → Ptr → Option ℕ
usable_in s ptr =
    let block_index = sub64 ptr s.base / s.block_size in
    let block_start = u64 (s.base + u64 (block_index * s.block_size)) in
    if s.block_size == 0 then none else some (sub64 s.block_size (sub64 ptr block_start))

-- `alignment < sizeof(void *) || (alignment & (alignment - 1)) != 0`
unfoldable pub is_bad_alignment : ℕ → Bool
is_bad_alignment alignment = ltb alignment 8 || not (bit_and alignment (sub64 alignment 1) == 0)

module _ (a : Allocator) (o : Mapper) (r : Runtime) where
  unfoldable pub cm_usable : Ptr → Heap a o → Option ℕ
  cm_usable ptr h =
      let found = cmalloc_get_span a o r ptr h.spans >>= λ p.
      if p == null || not (span_at h p).is_initialized
      then some 0
      else usable_in (span_at h p) ptr in
      if ptr == null then some 0 else found

  unfoldable pub shim_malloc : ℕ → Heap a o → Option (Ptr × Heap a o)
  shim_malloc size h = cmalloc a o r size h

  unfoldable pub shim_free : Ptr → Heap a o → Option (Heap a o)
  shim_free ptr h = cfree a o r ptr h

  unfoldable pub shim_calloc : ℕ → ℕ → Heap a o → Option (Ptr × Heap a o)
  shim_calloc n size h = ccalloc a o r n size h

  unfoldable pub shim_usable_size : Ptr → Heap a o → Option ℕ
  shim_usable_size ptr h = cm_usable ptr h

  unfoldable pub shim_realloc : Ptr → ℕ → Heap a o → Option (Ptr × Heap a o)
  shim_realloc ptr size h = crealloc a o r ptr size h

  unfoldable pub shim_memalign : ℕ → ℕ → Heap a o → Option (Ptr × Heap a o)
  shim_memalign alignment size h =
      let shifted = cmalloc a o r (sub64 (u64 (size + alignment)) 1) h >>= λ (raw, h1). some (
        if raw == null
            then null
            else bit_and (sub64 (u64 (raw + alignment)) 1) (not64 (sub64 alignment 1)),
        h1,
      ) in
      if leb alignment 16
      then cmalloc a o r size h
      else (if ltb (sub64 max64 alignment) size then some (null, h) else shifted)

  unfoldable pub shim_aligned_alloc : ℕ → ℕ → Heap a o → Option (Ptr × Heap a o)
  shim_aligned_alloc alignment size h = shim_memalign alignment size h

  unfoldable pub shim_valloc : ℕ → Heap a o → Option (Ptr × Heap a o)
  shim_valloc size h = shim_memalign 4096 size h

  unfoldable pub shim_posix_memalign : Ptr → ℕ → ℕ → Heap a o → Option (ℕ × Heap a o)
  shim_posix_memalign out alignment size h =
      let stored = shim_memalign alignment size h >>= λ (ptr, h1). some (
        if ptr == null
        then (enomem, h1)
        else (0, record h1 { memory = store_pointer out ptr h1.memory })) in
      if out == null || is_bad_alignment alignment then some (einval, h) else stored

  unfoldable pub shim_strdup : Strings → Ptr → Heap a o → Option (Ptr × Heap a o)
  shim_strdup c s h =
      let len = u64 (c.strlen h.memory s + 1) in
      let copied = shim_malloc len h >>= λ (copy, h1). some (
        if copy == null
        then (null, h1)
        else (copy, record h1 { memory = copy_bytes copy s len h1.memory })) in
      if s == null then some (null, h) else copied

  unfoldable pub shim_strndup : Strings → Ptr → ℕ → Heap a o → Option (Ptr × Heap a o)
  shim_strndup c s n h =
      let len = c.strnlen h.memory s n in
      let copied = shim_malloc (u64 (len + 1)) h >>= λ (copy, h1). some (
        if copy == null then (null, h1) else (
          copy,
          record h1 { memory = update (copy_bytes copy s len h1.memory) (u64 (copy + len)) 0 },
        )) in
      if s == null then some (null, h) else copied
