-- ===== src/SpanHeap/Roles.antt =====
-- Which spans there are: an address is unborn, or its span is in use or cached in a bin. The invariant
-- of src/span.c in these terms, with what it relies on in the kernel and the metadata allocator.
pub mod Frame
pub mod Moves
pub mod Steps
pub mod Runs
pub mod Given
pub mod Split
pub mod Chunk
pub mod Fresh
pub mod NewChunk
pub mod Alloc
pub mod Client
pub mod Reach
pub mod Tests
use fast_memory_allocator.Base.{
  ℕ, ◌+◌, ◌*◌, ◌/◌, ◌%◌, ◌^◌, ◌≤◌, ◌<◌, ◌≡◌, ◌≢◌, refl, Bool, true, false, ◌||◌, Option, none, some,
  List, [], ◌∷◌, ◌⊎◌, IsAbsent, absent_nil, absent_cons, arith,
}
use fast_memory_allocator.Common.{Runtime}
use fast_memory_allocator.Span.{Ptr, null, Span}
use fast_memory_allocator.RangeMap.{Allocator, L1Node, cmalloc_get}
use fast_memory_allocator.RangeMap.Counts.{IsTrie}
use fast_memory_allocator.RangeMap.Ranges.{in_keys}
use fast_memory_allocator.RangeMap.Ledger.{IsAllocator}
use fast_memory_allocator.PageBins.{PageBins}
use fast_memory_allocator.PageBins.Marks.{IsTracked}
use fast_memory_allocator.SpanHeap.{Mapper, SpanHeap, map_failed}

pub data Role : Type 0 where
  unborn in_use : Role
  cached : ℕ → Role

-- Whether page `i` is one of the span's.
abbrev pub has_page : Runtime → Span → ℕ → Bool
has_page r s i = in_keys (s.base / 2 ^ r.page_shift) (s.base / 2 ^ r.page_shift + s.page_count) i

-- Whether page `i` is one of the `n` from `base` on.
abbrev pub in_run : Runtime → Ptr → ℕ → ℕ → Bool
in_run r base n i = in_keys (base / 2 ^ r.page_shift) (base / 2 ^ r.page_shift + n) i

-- What mmap answers to a request for `n` pages: MAP_FAILED, or whole pages below the 2 ^ 35th that
-- were not mapped before.
pub data IsAnswer (r : Runtime) (n : ℕ) (mapped mapped' : ℕ → Bool) (base : Ptr) : Type 0 where
  failed : base ≡ map_failed → ((i : ℕ) → mapped' i ≡ mapped i) → IsAnswer r n mapped mapped' base
  given :
      base % 2 ^ r.page_shift ≡ 0
      → base + n * 2 ^ r.page_shift ≤ 2 ^ 35 * 2 ^ r.page_shift
      → ((i : ℕ) → in_run r base n i ≡ true → mapped i ≡ false)
      → ((i : ℕ) → mapped' i ≡ (in_run r base n i || mapped i))
      → IsAnswer r n mapped mapped' base

-- What src/span.c relies on in mmap, with the pages that are mapped.
pub record IsMapper (o : Mapper) (r : Runtime) : Type 1 where
  pub mapped : o.Kernel → ℕ → Bool
  pub answers :
      (n : ℕ) (k : o.Kernel)
      → n * 2 ^ r.page_shift < 2 ^ 64
      → IsAnswer r n
          (mapped k)
          (mapped (o.mmap (n * 2 ^ r.page_shift) k).1)
          (o.mmap (n * 2 ^ r.page_shift) k).0

-- The links from a bin's head on lead through different spans that are cached in the bin.
pub data IsStack (f : Ptr → Span) (role : Ptr → Role) (n : ℕ) : Ptr → List Ptr → Type 0 where
  stack_nil : IsStack f role n null []
  stack_cons :
      {p next : Ptr} {ps : List Ptr}
      → p ≢ null
      → role p ≡ cached n
      → IsAbsent p ps
      → (f p).next_in_uninitialized_bin ≡ next
      → IsStack f role n next ps
      → IsStack f role n p (p ∷ ps)

-- The span that the page map has for page `i`.
abbrev pub owner_of : Option L1Node → ℕ → Ptr
owner_of none i = null
owner_of (some m) i = cmalloc_get m i

-- Whole pages below the 2 ^ 35th.
pub record IsPaginated (r : Runtime) (s : Span) : Type 0 where
  pub aligned : s.base % 2 ^ r.page_shift ≡ 0
  pub fits : s.base + s.page_count * 2 ^ r.page_shift ≤ 2 ^ 35 * 2 ^ r.page_shift

module _ {a : Allocator} {o : Mapper} {r : Runtime} (u : IsAllocator a) (k : IsMapper o r) where
  -- Of a heap whose spans have these roles: the bins are stacks of the spans cached in them, and the
  -- page map leads from every page of a span to that span.
  pub record IsHeapOf (map : Option L1Node) (b : PageBins) (f : Ptr → Span) (st : a.Store)
      (kernel : o.Kernel) (role : Ptr → Role) : Type 0 where
    pub sound : u.IsSound st
    pub tracked : IsTracked b
    pub no_null : role null ≡ unborn
    pub born : (p : Ptr) → role p ≢ unborn → u.IsHeld st p
    pub trie : (m : L1Node) → map ≡ some m → IsTrie m
    pub stacks :
        (n : ℕ) → n < 8193 → (ps : List Ptr) × IsStack f role n (b.uninitialized_span_bin n) ps
    pub sizes : (p : Ptr) (n : ℕ) → role p ≡ cached n → (f p).page_count ≡ n
    pub placed : (p : Ptr) → role p ≢ unborn → IsPaginated r (f p)
    pub owns : (p : Ptr) (i : ℕ) → role p ≢ unborn → has_page r (f p) i ≡ true → owner_of map i ≡ p
    pub known : (i : ℕ) → i < 2 ^ 35 → owner_of map i ≢ null → k.mapped kernel i ≡ true

  abbrev pub IsHeap : SpanHeap a o → (Ptr → Role) → Type 0
  IsHeap w role = IsHeapOf w.page_map w.bins w.spans w.store w.kernel role
