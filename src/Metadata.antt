-- ===== src/Metadata.antt =====
-- src/metadata.c: the arena from which the program takes memory for its own structures, by a bump
-- pointer and, for the sizes that were given back, from free lists.
--
-- The map from a size to the head of its free list is a trie of src/range_map.c. Its nodes come from
-- this same arena: `cmalloc_map` calls `cmalloc_alloc_metadata`, which reads the map and can change
-- it, so here the trie is read again after each such call. Of the arena's memory the model has the
-- headers of the chunks, the nodes as values, and of every other block the first word, which links
-- the free lists. The kernel's mmap is a parameter.
--
-- `none` stands for a dereference of NULL or of MAP_FAILED.
pub mod Recursion
pub mod Blocks
pub mod Refusals
pub mod Heads
pub mod Lists
pub mod Allocs
pub mod Nodes
pub mod Paths
pub mod Frees
pub mod Reuse
pub mod Live
pub mod Runs
pub mod AsAllocator
pub mod Interface
pub mod Spans
pub mod Tests
use fast_memory_allocator.Base.{
  ℕ, zero, suc, ◌+◌, ◌*◌, ◌^◌, Bool, Option, none, some, ltb, ◌==◌, if◌then◌else◌, update, ◌>>=◌,
}
use fast_memory_allocator.Base.Words.{u64, sub64}
use fast_memory_allocator.Common.{align_up_ptr}
use fast_memory_allocator.Span.{Ptr, null}
use fast_memory_allocator.RangeMap.{
  L1Node, L2Node, L3Node, empty_map, empty_l2, empty_l3, sizeof_l1, sizeof_l2, sizeof_l3, l1_index,
  l2_index, l3_index, cmalloc_get, store_l3,
}
use fast_memory_allocator.SpanHeap.{Mapper, map_failed}

abbrev pub meta_chunk_size : ℕ
meta_chunk_size = 4 * 1024 * 1024

-- sizeof meta_chunk_t
abbrev pub sizeof_meta_chunk : ℕ
sizeof_meta_chunk = 24

-- The chunks that `meta_arena` leads to, the newest first: it is NULL, it points to a chunk with the
-- fields `prev`, `cur` and `end`, or it is MAP_FAILED.
pub data MetaChunks : Type 0 where
  no_chunk failed_chunk : MetaChunks
  chunk : (prev : MetaChunks) → (cur end : Ptr) → MetaChunks

-- `links` is the first word of a block.
pub record Arena (o : Mapper) : Type 0 where
  pub meta_arena : MetaChunks
  pub free_list_map : Option L1Node
  pub links : Ptr → Ptr
  pub kernel : o.Kernel

-- `(intptr_t) a < (intptr_t) b`
abbrev pub signed_lt : ℕ → ℕ → Bool
signed_lt a b = ltb (u64 (a + 2 ^ 63)) (u64 (b + 2 ^ 63))

abbrev pub set_map : {o : Mapper} → L1Node → Arena o → Arena o
set_map m st = record st { free_list_map = some m }

module _ (o : Mapper) where
  -- A chunk for the arena. `true`: mmap failed, and `meta_arena` is MAP_FAILED.
  unfoldable pub new_chunk : Arena o → Bool × Arena o
  new_chunk st =
      let (base, kernel') = o.mmap meta_chunk_size st.kernel in
      if base == map_failed
      then (Bool.true, record st { meta_arena = failed_chunk; kernel = kernel' })
      else (
        Bool.false,
        record st {
          meta_arena =
              chunk st.meta_arena (align_up_ptr (u64 (base + sizeof_meta_chunk)))
                (u64 (base + meta_chunk_size));
          kernel = kernel';
        },
      )

  -- The block at the bump pointer.
  unfoldable pub bump_cur : ℕ → Arena o → Option (Ptr × Arena o)
  bump_cur size st = elim st.meta_arena [
    | no_chunk ↦ none
    | failed_chunk ↦ none
    | chunk prev cur end ↦
        some (cur, record st { meta_arena = chunk prev (align_up_ptr (u64 (cur + size))) end })
  ]

  unfoldable pub alloc_from_new_chunk : ℕ → Arena o → Option (Ptr × Arena o)
  alloc_from_new_chunk size st =
      let (fails, st') = new_chunk st in if fails then some (null, st') else bump_cur size st'

  -- From the test of `meta_arena` on.
  unfoldable pub alloc_from_arena : ℕ → Arena o → Option (Ptr × Arena o)
  alloc_from_arena size st = elim st.meta_arena [
    | no_chunk ↦ alloc_from_new_chunk size st
    | failed_chunk ↦ none
    | chunk prev cur end ↦
        if signed_lt (sub64 end cur) size then alloc_from_new_chunk size st else bump_cur size st
  ]

  -- `cmalloc_map` on `free_list_map`, with what it calls for memory.
  module _ (alloc : ℕ → Arena o → Option (Ptr × Arena o)) where
    unfoldable pub add_middle : ℕ → Arena o → Option (Arena o)
    add_middle i st = do
      (p, st') ← alloc sizeof_l2 st
      m ← st'.free_list_map
      if p == null
          then none
          else some (set_map (record { l1 = update m.l1 i (some (p, empty_l2)) }) st')

    unfoldable pub add_leaf : ℕ → ℕ → Arena o → Option (Arena o)
    add_leaf i j st = do
      (p, st') ← alloc sizeof_l3 st
      m ← st'.free_list_map
      (p2, n2) ← m.l1 i
      let n2' : L2Node = record {
        l2 = update n2.l2 j (some (p, empty_l3));
        count = u64 (n2.count + 1);
      }
      if p == null
          then none
          else some (set_map (record { l1 = update m.l1 i (some (p2, n2')) }) st')

    unfoldable pub ensure_middle : ℕ → Arena o → Option (Arena o)
    ensure_middle i st = do
      m ← st.free_list_map
      elim (m.l1 i) [ none ↦ add_middle i st | some n2 ↦ some st ]

    unfoldable pub ensure_leaf : ℕ → ℕ → Arena o → Option (Arena o)
    ensure_leaf i j st = do
      m ← st.free_list_map
      (p2, n2) ← m.l1 i
      elim (n2.l2 j) [ none ↦ add_leaf i j st | some n3 ↦ some st ]

  unfoldable pub store_entry : Ptr → ℕ → Arena o → Option (Arena o)
  store_entry value key st = do
    m ← st.free_list_map
    (p2, n2) ← m.l1 (l1_index key)
    (p3, n3) ← n2.l2 (l2_index key)
    let n3' = store_l3 n3 (l3_index key) value
    let n2' : L2Node = record n2 { l2 = update n2.l2 (l2_index key) (some (p3, n3')) }
    some (set_map (record { l1 = update m.l1 (l1_index key) (some (p2, n2')) }) st)

  unfoldable pub map_size :
      (ℕ → Arena o → Option (Ptr × Arena o)) → Ptr → ℕ → Arena o → Option (Arena o)
  map_size alloc value key st = do
    st1 ← ensure_middle alloc (l1_index key) st
    st2 ← ensure_leaf alloc (l1_index key) (l2_index key) st1
    store_entry value key st2

  -- The head of a size's free list.
  abbrev pub head_of : Arena o → ℕ → Ptr
  head_of st size = elim st.free_list_map [ none ↦ null | some m ↦ cmalloc_get m size ]

  -- The body of `cmalloc_alloc_metadata`, with what the recursive call runs.
  unfoldable pub alloc_step :
      (ℕ → Arena o → Option (Ptr × Arena o)) → ℕ → Arena o → Option (Ptr × Arena o)
  alloc_step alloc size st =
      if head_of st size == null
      then alloc_from_arena size st
      else map_size alloc (st.links (head_of st size)) size st >>= λ st'.
          some (head_of st size, st')

  -- At most `depth` calls are active at a time: `none` at 0.
  unfoldable pub alloc_to : ℕ → ℕ → Arena o → Option (Ptr × Arena o)
  alloc_to zero size st = none
  alloc_to (suc depth) size st = alloc_step (alloc_to depth) size st

  abbrev pub cmalloc_alloc_metadata : ℕ → Arena o → Option (Ptr × Arena o)
  cmalloc_alloc_metadata = alloc_to 1

  -- `free_list_map` after the test at the top: `none` when there is no memory for it.
  unfoldable pub ensure_free_list_map : Arena o → Option (Arena o)
  ensure_free_list_map st = elim st.free_list_map [
    | none ↦ do
      (p, st') ← cmalloc_alloc_metadata sizeof_l1 st
      if p == null then none else some (set_map empty_map st')
    | some m ↦ some st
  ]

  unfoldable pub cmalloc_free_metadata : Ptr → ℕ → Arena o → Option (Arena o)
  cmalloc_free_metadata ptr size st = do
    st1 ← ensure_free_list_map st
    let linked : Arena o = record st1 { links = update st1.links ptr (head_of st1 size) }
    if ptr == null then none else map_size cmalloc_alloc_metadata ptr size linked
