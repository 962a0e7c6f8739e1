-- ===== src/Metadata/Reuse.antt =====
-- What src/metadata.c does with a block that was given back, and after a failure of mmap.
use fast_memory_allocator.Base.{
  ℕ, zero, ◌≡◌, ◌≢◌, refl, ap, ◌∙◌, sym, ◌↔◌, arith, false, none, some, ◌==◌, Bool-cases, inl, inr,
  eq_false, eq_true, is_some, ==_iff,
}
use fast_memory_allocator.Span.{Ptr, null}
use fast_memory_allocator.SpanHeap.{Mapper}
use fast_memory_allocator.Metadata.{
  Arena, failed_chunk, head_of, alloc_from_arena, cmalloc_alloc_metadata,
}
use fast_memory_allocator.Metadata.Recursion.{alloc_to_lem}
use fast_memory_allocator.Metadata.Heads.{head-IsPath, store_entry-IsReheaded}

module _ (o : Mapper) where
  -- The first block of the size's list is given out, if there is one.
  pub alloc_metadata_first :
      (st : Arena o) (p : Ptr) (size : ℕ)
      → p ≢ null
      → head_of o st size ≡ p
      → (st' : Arena o) × (cmalloc_alloc_metadata o size st ≡ some (p, st'))
  alloc_metadata_first st p size real e =
      let (st', runs, rest) =
        store_entry-IsReheaded o (st.links (head_of o st size)) size st
          (head-IsPath o st size (λ z. real (sym e ∙ z))) in
      let full : (head_of o st size == null) ≡ false = eq_false (λ z. real (sym e ∙ z)) in
      (st', alloc_to_lem o zero size st ∙ rw (full, runs) (ap (λ q. some (q, st')) e))

  arena_failed :
      (st : Arena o) (size : ℕ) → st.meta_arena ≡ failed_chunk → alloc_from_arena o size st ≡ none
  unfolding alloc_from_arena
  arena_failed st size failed = rw failed refl

  -- With MAP_FAILED in `meta_arena` a call faults exactly if its size has no free block.
  pub alloc_metadata-eq-none :
      (st : Arena o) (size : ℕ)
      → st.meta_arena ≡ failed_chunk
      → (cmalloc_alloc_metadata o size st ≡ none) ↔ (head_of o st size ≡ null)
  alloc_metadata-eq-none st size failed = (
    λ runs. elim (Bool-cases (head_of o st size == null)) [
      | inl e ↦ (==_iff (head_of o st size) null).0 e
      | inr e ↦
          let (st', first) = alloc_metadata_first st _ size (λ z. ground (arith, e, z)) refl in
          absurd (ground (arith, ap is_some (sym runs ∙ first)))
    ],
    λ e. alloc_to_lem o zero size st ∙ rw (eq_true e) (arena_failed st size failed),
  )
