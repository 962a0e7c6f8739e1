-- ===== src/SpanHeap.antt =====
-- src/span.c: where spans come from and go to. The state holds what the file keeps in its static
-- variables, with the spans at their addresses. The allocator of metadata and the kernel's mmap and
-- munmap are parameters.
--
-- `none` stands for a failed assertion and for a dereference of NULL. A span that the allocator of
-- metadata hands out has the contents that the state has at its address: that the allocator links
-- the memory given back to it through the first word, here `phys_next`, is left out.
pub mod Bins
pub mod Errors
pub mod Initialize
pub mod Owner
pub mod Reuse
pub mod Roles
pub mod Supply
pub mod Served
pub mod Tests
use fast_memory_allocator.Base.{
  ℕ, zero, suc, ◌+◌, ◌-◌, ◌*◌, ◌/◌, ◌^◌, Bool, true, false, not, ◌&&◌, Option, none, some, List, [],
  ◌∷◌, ltb, leb, ◌==◌, if◌then◌else◌, update, ◌>>=◌,
}
use fast_memory_allocator.Base.Words.{u64, sub64, max64}
use fast_memory_allocator.Common.{
  Runtime, round_up_page, round_down_page_index, class_size, class_span_size, class_block_count,
}
use fast_memory_allocator.Span.{Ptr, null, Span, initialize_blocks}
use fast_memory_allocator.RangeMap.{
  Allocator, L1Node, cmalloc_get, cmalloc_map_range, cmalloc_unmap_range,
  cmalloc_initialize_range_map,
}
use fast_memory_allocator.PageBins.{
  PageBins, max_binned_pages, no_fitting_page_sequence, mark_binned_span_non_empty,
  mark_binned_span_empty, find_best_fitting_uninitialized_span,
}

-- mmap of anonymous memory by length, and munmap.
pub record Mapper : Type 1 where
  pub Kernel : Type 0
  pub mmap : ℕ → Kernel → Ptr × Kernel
  pub munmap : Ptr → ℕ → Kernel → Kernel

-- MAP_FAILED, (void *) -1
abbrev pub map_failed : Ptr
map_failed = max64

abbrev pub data_chunk_size : ℕ
data_chunk_size = 32 * 1024 * 1024

-- sizeof span_t and sizeof data_chunk_t
abbrev pub sizeof_span : ℕ
sizeof_span = 608

abbrev pub sizeof_data_chunk : ℕ
sizeof_data_chunk = 16

-- `data_arena` lists the bases of the chunks, the newest first; it is NULL when there is none.
pub record SpanHeap (a : Allocator) (o : Mapper) : Type 0 where
  pub page_map : Option L1Node
  pub data_arena : List Ptr
  pub bins : PageBins
  pub spans : Ptr → Span
  pub store : a.Store
  pub kernel : o.Kernel

-- Assignments through a pointer to a span, and to the head of a bin.
abbrev pub put_span : {a : Allocator} {o : Mapper} → Ptr → Span → SpanHeap a o → SpanHeap a o
put_span p s w = record w { spans = update w.spans p s }

abbrev pub put_head : {a : Allocator} {o : Mapper} → ℕ → Ptr → SpanHeap a o → SpanHeap a o
put_head page_count p w = record w {
  bins = record (w.bins) {
    uninitialized_span_bin = update w.bins.uninitialized_span_bin page_count p;
  };
}

abbrev pub put_bins : {a : Allocator} {o : Mapper} → PageBins → SpanHeap a o → SpanHeap a o
put_bins b w = record w { bins = b }

-- The sizes of a new span: one block of the requested size, or those of the class.
unfoldable pub span_size : Option ℕ → ℕ → ℕ
span_size none requested = requested
span_size (some i) requested = class_span_size i

unfoldable pub set_sizes : Option ℕ → ℕ → Span → Span
set_sizes none requested s = record s { block_size = requested; block_count = 1 }
set_sizes (some i) requested s = record s {
  block_size = class_size i;
  block_count = class_block_count i;
}

module _ (a : Allocator) (o : Mapper) (r : Runtime) where
  open r use {page_shift}

  abbrev W : Type 0
  W = SpanHeap a o

  -- `page_count << PAGE_SHIFT`
  abbrev pub pages_size : ℕ → ℕ
  pages_size page_count = u64 (page_count * 2 ^ page_shift)

  unfoldable pub ensure_page_map : W → Option W
  ensure_page_map w = elim w.page_map [
    | some m ↦ some w
    | none ↦ cmalloc_initialize_range_map a w.store >>= λ (m, st).
        some (record w { page_map = some m; store = st })
  ]

  unfoldable pub new_span : W → Option (Ptr × W)
  new_span w =
      let (p, st) = a.alloc_metadata sizeof_span w.store in
      if p == null then none else some (p, record w { store = st })

  -- The calls of `cmalloc_map_range` and `cmalloc_unmap_range` for the pages of a span.
  unfoldable pub map_pages : Ptr → W → Option W
  map_pages p w = do
    m ← w.page_map
    let first = round_down_page_index r (w.spans p).base
    (m', st) ← cmalloc_map_range a m p first (u64 (first + (w.spans p).page_count)) w.store
    some (record w { page_map = some m'; store = st })

  unfoldable pub unmap_pages : Ptr → W → Option W
  unmap_pages p w = do
    m ← w.page_map
    let first = round_down_page_index r (w.spans p).base
    (m', st) ← cmalloc_unmap_range a m first (u64 (first + (w.spans p).page_count)) w.store
    some (record w { page_map = some m'; store = st })

  -- The branch of `alloc_span` for MAX_BINNED_PAGES and more.
  unfoldable pub alloc_direct : ℕ → W → Option (Ptr × W)
  alloc_direct page_count w = do
    (p, w1) ← new_span w
    let (base, kernel) = o.mmap (pages_size page_count) w1.kernel
    let s : Span = record (w1.spans p) {
      base = base;
      page_count = page_count;
      is_initialized = false;
    }
    w2 ← map_pages p (put_span p s (record w1 { kernel = kernel }))
    some (p, w2)

  -- The first span of a bin is unlinked.
  unfoldable pub pop_bin : ℕ → W → Option (Ptr × W)
  pop_bin page_count w =
      let p = w.bins.uninitialized_span_bin page_count in
      let next = (w.spans p).next_in_uninitialized_bin in
      let w1 = put_head page_count next w in
      if p == null
      then none
      else some
          (p, if next == null then put_bins (mark_binned_span_empty page_count w1.bins) w1 else w1)

  -- A new span becomes the head of its bin, its pages are mapped, and the bin is marked.
  unfoldable pub push_remainder : Ptr → ℕ → W → Option W
  push_remainder p page_count w = do
    w1 ← map_pages p (put_head page_count p w)
    some (put_bins (mark_binned_span_non_empty page_count w1.bins) w1)

  -- `if (s->phys_next) s->phys_next->phys_prev = split; s->phys_next = split;`
  unfoldable pub link_split : Ptr → Ptr → W → W
  link_split p split w =
      let next = (w.spans p).phys_next in
      let w1 =
        if next == null then w else put_span next (record (w.spans next) { phys_prev = split }) w in
      put_span p (record (w1.spans p) { phys_next = split }) w1

  -- The branch of `alloc_span` that splits a larger span.
  unfoldable pub alloc_split : ℕ → ℕ → W → Option (Ptr × W)
  alloc_split page_count best w = do
    (p, w1) ← pop_bin best w
    (split, w2) ← new_span (put_span p (record (w1.spans p) { page_count = page_count }) w1)
    let rest = sub64 best page_count
    let s : Span = record (w2.spans split) {
      base = u64 ((w2.spans p).base + pages_size page_count);
      page_count = rest;
      is_initialized = false;
      phys_next = (w2.spans p).phys_next;
      phys_prev = p;
      next_in_uninitialized_bin = w2.bins.uninitialized_span_bin rest;
    }
    w3 ← push_remainder split rest (put_span split s w2)
    some (p, link_split p split w3)

  -- The number of pages of a new chunk.
  unfoldable pub chunk_pages : ℕ → ℕ
  chunk_pages page_count =
      let usual = data_chunk_size / 2 ^ page_shift in
      if ltb usual page_count then page_count else usual

  -- The span for the rest of a new chunk.
  unfoldable pub chunk_remainder : Ptr → Ptr → ℕ → ℕ → W → Option W
  chunk_remainder fit base page_count rest w = do
    (split, w1) ← new_span w
    let s : Span = record (w1.spans split) {
      base = u64 (base + pages_size page_count);
      page_count = rest;
      is_initialized = false;
    }
    w2 ← map_pages split (put_span split s w1)
    let w3 = put_span fit (record (w2.spans fit) { phys_next = split }) w2
    let s' : Span = record (w3.spans split) {
      phys_prev = fit;
      phys_next = null;
      next_in_uninitialized_bin = w3.bins.uninitialized_span_bin rest;
    }
    let w4 = put_head rest split (put_span split s' w3)
    some (put_bins (mark_binned_span_non_empty rest w4.bins) w4)

  -- The branch of `alloc_span` that maps a new chunk. The chunk's record in metadata holds its base
  -- and its predecessor; NULL from mmap's failure is returned after the arena is set back.
  unfoldable pub alloc_chunk : ℕ → W → Option (Ptr × W)
  alloc_chunk page_count w =
      let (chunk, st) = a.alloc_metadata sizeof_data_chunk w.store in
      let (base, kernel) = o.mmap (pages_size (chunk_pages page_count)) w.kernel in
      let w1 : W = record w { store = st; kernel = kernel } in
      if chunk == null
      then none
      else (if base == map_failed then some (null, w1) else do
        (fit, w2) ← new_span (record w1 { data_arena = base ∷ w.data_arena })
        let s : Span = record (w2.spans fit) {
          base = base;
          next_in_uninitialized_bin = null;
          page_count = page_count;
          is_initialized = false;
        }
        w3 ← map_pages fit (put_span fit s w2)
        let w4 = put_span fit (record (w3.spans fit) { phys_prev = null; phys_next = null }) w3
        let rest = sub64 (chunk_pages page_count) page_count
        w5 ←
            (if ltb 0 rest && ltb rest max_binned_pages
              then chunk_remainder fit base page_count rest w4
              else some w4)
        some (fit, w5))

  abbrev pub has_arena : W → Bool
  has_arena w = elim (w.data_arena) [ [] ↦ false | base ∷ older ↦ true ]

  -- The number of pages of a request.
  unfoldable pub request_pages : ℕ → ℕ
  request_pages size = round_up_page r size / 2 ^ page_shift

  -- The branches of `alloc_span` for page counts that have a bin.
  unfoldable pub alloc_binned : ℕ → W → Option (Ptr × W)
  alloc_binned page_count w =
      let best = find_best_fitting_uninitialized_span page_count w.bins in
      if has_arena w && not (best == no_fitting_page_sequence)
      then (if page_count == best then pop_bin page_count w else alloc_split page_count best w)
      else alloc_chunk page_count w

  -- All branches of `alloc_span`, once the page map is there.
  unfoldable pub alloc_pages : ℕ → W → Option (Ptr × W)
  alloc_pages page_count w =
      if leb max_binned_pages page_count
      then alloc_direct page_count w
      else alloc_binned page_count w

  unfoldable pub alloc_span : ℕ → W → Option (Ptr × W)
  alloc_span size w = ensure_page_map w >>= alloc_pages (request_pages size)

  -- A span that is too large for the bins is given back.
  unfoldable pub release_span : Ptr → W → Option W
  release_span p w = do
    w1 ← unmap_pages p w
    let s = w1.spans p
    some (record w1 {
      kernel = o.munmap s.base (pages_size s.page_count) w1.kernel;
      store = a.free_metadata p sizeof_span w1.store;
    })

  -- Any other is put into its bin.
  unfoldable pub bin_span : Ptr → W → W
  bin_span p w =
      let s = w.spans p in
      let s' : Span = record s {
        is_initialized = false;
        next_in_uninitialized_bin = w.bins.uninitialized_span_bin s.page_count;
      } in
      let w1 = put_head s.page_count p (put_span p s' w) in
      put_bins (mark_binned_span_non_empty s.page_count w1.bins) w1

  unfoldable pub cmalloc_cache_span : Ptr → W → Option W
  cmalloc_cache_span p w =
      if leb max_binned_pages (w.spans p).page_count then release_span p w else some (bin_span p w)

  unfoldable pub cmalloc_initialize_span : Option ℕ → ℕ → W → Option (Ptr × W)
  cmalloc_initialize_span size_class_index requested_size w = do
    (p, w1) ← alloc_span (span_size size_class_index requested_size) w
    let s : Span = record (set_sizes size_class_index requested_size (w1.spans p)) {
      is_initialized = true;
      size_class_index = size_class_index;
    }
    if p == null then none else some (p, put_span p (initialize_blocks s) w1)

  unfoldable pub cmalloc_get_span : Ptr → W → Option Ptr
  cmalloc_get_span ptr w = do m ← w.page_map; some (cmalloc_get m (round_down_page_index r ptr))
