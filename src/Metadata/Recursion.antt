-- ===== src/Metadata/Recursion.antt =====
-- The recursion of `cmalloc_alloc_metadata` through `cmalloc_map` in src/metadata.c.
use fast_memory_allocator.Base.{
  ℕ, suc, ◌≡◌, ◌≢◌, refl, arith, Option, some, Bool-cases, inl, inr, ◌==◌, if◌then◌else◌, ◌>>=◌,
}
use fast_memory_allocator.Span.{Ptr, null}
use fast_memory_allocator.RangeMap.{cmalloc_get}
use fast_memory_allocator.SpanHeap.{Mapper}
use fast_memory_allocator.Metadata.{
  Arena, alloc_from_arena, head_of, map_size, ensure_middle, ensure_leaf, store_entry, alloc_step,
  alloc_to,
}

module _ (o : Mapper) where
  -- The size of a free list that is not empty has its nodes in the trie.
  pub map_size-eq-store_entry :
      (alloc : ℕ → Arena o → Option (Ptr × Arena o)) (v : Ptr) (size : ℕ) (st : Arena o)
      → head_of o st size ≢ null
      → map_size o alloc v size st ≡ store_entry o v size st
  unfolding map_size ensure_middle ensure_leaf cmalloc_get
  map_size-eq-store_entry alloc v size st full = ground arith

  -- What `cmalloc_alloc_metadata` comes to: no call of it makes another.
  abbrev pub pop_or_fresh : ℕ → Arena o → Option (Ptr × Arena o)
  pop_or_fresh size st =
      if head_of o st size == null
      then alloc_from_arena o size st
      else store_entry o (st.links (head_of o st size)) size st >>= λ st'.
          some (head_of o st size, st')

  -- At every depth.
  pub alloc_to_lem :
      (depth size : ℕ) (st : Arena o) → alloc_to o (suc depth) size st ≡ pop_or_fresh size st
  unfolding alloc_to alloc_step
  alloc_to_lem depth size st = elim (Bool-cases (head_of o st size == null)) [
    | inl e ↦ rw e refl
    | inr e ↦
        rw (e, map_size-eq-store_entry (alloc_to o depth) _ size st λ z. ground (arith, e, z)) refl
  ]
