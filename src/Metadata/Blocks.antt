-- ===== src/Metadata/Blocks.antt =====
-- Where the blocks of src/metadata.c stand: apart from each other, in mapped memory, and before the
-- bump pointer. And what the arena relies on in mmap.
use fast_memory_allocator.Base.{
  ℕ, ◌+◌, ◌-◌, ◌^◌, ◌%◌, ◌≤◌, ◌<◌, ◌≡◌, ◌≢◌, refl, ◌∙◌, arith, Bool, true, false, ◌||◌, ◌&&◌, leb,
  ltb, update,
}
use fast_memory_allocator.Base.Words.{u64, sub64}
use fast_memory_allocator.Common.{align_up}
use fast_memory_allocator.Common.Pages.{align_lem}
use fast_memory_allocator.Span.{Ptr, null}
use fast_memory_allocator.SpanHeap.{Mapper, map_failed}
use fast_memory_allocator.Metadata.{
  MetaChunks, no_chunk, failed_chunk, chunk, meta_chunk_size, sizeof_meta_chunk, signed_lt,
}

-- Whether address `x` is in the `size` bytes from `p` on.
abbrev pub in_block : Ptr → ℕ → Ptr → Bool
in_block p size x = leb p x && ltb x (p + size)

-- What mmap answers to a request for a chunk: MAP_FAILED, or memory below 2 ^ 63, aligned to more
-- than 16 bytes, that was not mapped before.
pub data IsChunkAnswer (mapped mapped' : Ptr → Bool) (base : Ptr) : Type 0 where
  no_answer :
      base ≡ map_failed → ((x : Ptr) → mapped' x ≡ mapped x) → IsChunkAnswer mapped mapped' base
  answer :
      base % 16 ≡ 0
      → base + meta_chunk_size ≤ 2 ^ 63
      → ((x : Ptr) → in_block base meta_chunk_size x ≡ true → mapped x ≡ false)
      → ((x : Ptr) → mapped' x ≡ (in_block base meta_chunk_size x || mapped x))
      → IsChunkAnswer mapped mapped' base

-- What src/metadata.c relies on in mmap, with the addresses that are mapped.
pub record IsChunkMapper (o : Mapper) : Type 1 where
  pub mapped : o.Kernel → Ptr → Bool
  pub answers :
      (k : o.Kernel)
      → IsChunkAnswer (mapped k) (mapped (o.mmap meta_chunk_size k).1) (o.mmap meta_chunk_size k).0

-- The bytes that are left in the newest chunk.
abbrev pub in_rest : MetaChunks → Ptr → Bool
in_rest no_chunk x = false
in_rest failed_chunk x = false
in_rest (chunk prev cur end) x = leb cur x && ltb x end

-- The newest chunk's bump pointer is below 2 ^ 63 or a little above, and its end is not above.
pub data IsRest : MetaChunks → Type 0 where
  rest_none : IsRest no_chunk
  rest_failed : IsRest failed_chunk
  rest_chunk :
      {prev : MetaChunks} {cur end : Ptr}
      → cur ≢ null
      → cur < end + 16
      → end ≤ 2 ^ 63
      → IsRest (chunk prev cur end)

-- The most that fits in a new chunk behind its header.
abbrev pub largest : ℕ
largest = meta_chunk_size - 32

pub aligned_up : (x : ℕ) → x + 15 < 2 ^ 64 → (x ≤ align_up x) × (align_up x < x + 16)
aligned_up x h = let low = align_lem x h in (low.0, low.1)

-- The first block of a chunk stands 32 bytes behind its start.
pub chunk_start :
    (base : ℕ)
    → base % 16 ≡ 0
    → base + meta_chunk_size ≤ 2 ^ 63
    → align_up (u64 (base + sizeof_meta_chunk)) ≡ base + 32
chunk_start base whole small =
    let up = align_lem (u64 (base + sizeof_meta_chunk)) (omega arith) in
    omega (arith, up.0, up.1, up.2, whole, small)

-- Below 2 ^ 63 the signed test says whether the block fits.
pub signed_lt_lem :
    (cur end size : ℕ)
    → cur ≢ null
    → cur < end + 16
    → end ≤ 2 ^ 63
    → size < 2 ^ 63
    → signed_lt (sub64 end cur) size ≡ ltb end (cur + size)
signed_lt_lem cur end size real near small fits = ground arith

module _ {o : Mapper} (k : IsChunkMapper o) where
  -- Blocks of these sizes, 0 for none, are apart from each other and from the rest of the chunk.
  pub record IsPlaced (extent : Ptr → ℕ) (chunks : MetaChunks) (kernel : o.Kernel) : Type 0 where
    pub no_null : extent null ≡ 0
    pub apart :
        (p q x : Ptr) → in_block p (extent p) x ≡ true → in_block q (extent q) x ≡ true → p ≡ q
    pub before : (p x : Ptr) → in_block p (extent p) x ≡ true → in_rest chunks x ≡ false
    pub inside : (p x : Ptr) → in_block p (extent p) x ≡ true → k.mapped kernel x ≡ true
    pub ahead : (x : Ptr) → in_rest chunks x ≡ true → k.mapped kernel x ≡ true
    pub rest : IsRest chunks

  -- A block at the bump pointer, and the pointer moved past it.
  module _ (extent : Ptr → ℕ) (prev : MetaChunks) (cur end : Ptr) (kernel : o.Kernel) (size : ℕ)
      (h : IsPlaced extent (chunk prev cur end) kernel) (pos : 0 < size) (fits : cur + size ≤ end)
      (small : end ≤ 2 ^ 63) where
    next : Ptr
    next = align_up (u64 (cur + size))

    next_lem : (cur + size ≤ next) × (next < cur + size + 16)
    unfolding next
    next_lem = let up = aligned_up (u64 (cur + size)) (omega arith) in omega (arith, up)

    place_apart :
        (p q x : Ptr)
        → in_block p (update extent cur size p) x ≡ true
        → in_block q (update extent cur size q) x ≡ true
        → p ≡ q
    place_apart p q x = ground (arith, h.apart p q x, h.before p x, h.before q x)

    pub place :
        cur ≢ null
        → (extent cur ≡ 0)
          × IsPlaced (update extent cur size) (chunk prev (align_up (u64 (cur + size))) end) kernel
    unfolding next
    place real = (
      ground (arith, h.before cur cur),
      record {
        no_null = ground (arith, h.no_null);
        apart = place_apart;
        before = λ p x. ground (arith, h.before p x, next_lem);
        inside = λ p x. ground (arith, h.inside p x, h.ahead x);
        ahead = λ x. ground (arith, h.ahead x, next_lem);
        rest = rest_chunk (omega (arith, next_lem)) (omega (arith, next_lem)) small;
      },
    )

  -- A new chunk.
  module _ (extent : Ptr → ℕ) (chunks : MetaChunks) (base : Ptr) (kernel kernel' : o.Kernel)
      (h : IsPlaced extent chunks kernel) where
    pub place_chunk :
        base % 16 ≡ 0
        → base + meta_chunk_size ≤ 2 ^ 63
        → ((x : Ptr) → in_block base meta_chunk_size x ≡ true → k.mapped kernel x ≡ false)
        → ((x : Ptr) → k.mapped kernel' x ≡ (in_block base meta_chunk_size x || k.mapped kernel x))
        → IsPlaced extent (chunk chunks (base + 32) (base + meta_chunk_size)) kernel'
    place_chunk whole small new now = record {
      no_null = h.no_null;
      apart = h.apart;
      before = λ p x. ground (arith, h.inside p x, new x);
      inside = λ p x. ground (arith, h.inside p x, now x);
      ahead = λ x. ground (arith, now x);
      rest = rest_chunk (omega arith) (omega arith) small;
    }

  -- mmap fails: the blocks are as before, and `meta_arena` is of no use.
  pub place_failed :
      (extent : Ptr → ℕ) (chunks : MetaChunks) (kernel kernel' : o.Kernel)
      → IsPlaced extent chunks kernel
      → ((x : Ptr) → k.mapped kernel' x ≡ k.mapped kernel x)
      → IsPlaced extent failed_chunk kernel'
  place_failed extent chunks kernel kernel' h now = record {
    no_null = h.no_null;
    apart = h.apart;
    before = λ p x covered. refl;
    inside = λ p x covered. now x ∙ h.inside p x covered;
    ahead = λ x covered. ground (arith, covered);
    rest = rest_failed;
  }
