-- ===== src/Metadata/Runs.antt =====
-- What src/metadata.c has given out after any calls of its two functions.
use fast_memory_allocator.Base.{
  ℕ, ◌≤◌, ◌<◌, ◌≡◌, ◌≢◌, refl, ap, ◌∙◌, subst, ◌⊎◌, arith, true, false, none, some, ◌↔◌, update,
  update-update, update_self, inl, inr, Bool-cases, OnRun, stopped, yields, Option-cases, run_equal,
  run_stopped,
}
use fast_memory_allocator.Span.{Ptr, null}
use fast_memory_allocator.SpanHeap.{Mapper, map_failed}
use fast_memory_allocator.Metadata.{
  Arena, failed_chunk, head_of, meta_chunk_size, cmalloc_alloc_metadata, cmalloc_free_metadata,
}
use fast_memory_allocator.Metadata.Refusals.{CannotMap}
use fast_memory_allocator.Metadata.Blocks.{IsChunkMapper, largest, in_block}
use fast_memory_allocator.Metadata.Lists.{size_of, is_held}
use fast_memory_allocator.Metadata.Allocs.{IsTaken, refused, taken, alloc_metadata-IsTaken}
use fast_memory_allocator.Metadata.Reuse.{alloc_metadata_first, alloc_metadata-eq-none}
use fast_memory_allocator.Metadata.Frees.{free_metadata-IsFreed}
use fast_memory_allocator.Metadata.Live.{
  MetaRun, given, returned, IsLive, live_covers, MetaRun-IsLive,
}

module _ {o : Mapper} (k : IsChunkMapper o) where
  -- Two blocks that are in use have no byte in common, after any calls with sizes of 1 byte to what
  -- fits in a chunk, if mmap gives memory that was not mapped.
  pub MetaRun-apart :
      (st : Arena o) (live : Ptr → ℕ) (p q x : Ptr)
      → MetaRun o st live
      → p ≢ q
      → in_block p (live p) x ≡ true
      → in_block q (live q) x ≡ false
  MetaRun-apart st live p q x run ne covers = elim (Bool-cases (in_block q (live q) x)) [
    | inr e ↦ e
    | inl e ↦
        let l = MetaRun-IsLive k st live run in
        absurd
          (ne (l.arena.placed.apart p q x (live_covers k l p x covers).1 (live_covers k l q x e).1))
  ]

  -- What is in use is mapped, and is not NULL.
  pub MetaRun-inside :
      (st : Arena o) (live : Ptr → ℕ) (p x : Ptr)
      → MetaRun o st live
      → in_block p (live p) x ≡ true
      → (p ≢ null) × (k.mapped st.kernel x ≡ true)
  MetaRun-inside st live p x run covers =
      let l = MetaRun-IsLive k st live run in
      let covers' = (live_covers k l p x covers).1 in
      (
        λ e. ground (arith, covers', l.arena.placed.no_null, ap (λ q. size_of (l.role q)) e, e),
        l.arena.placed.inside p x covers',
      )

  -- After any such calls, a call of `cmalloc_alloc_metadata` for 1 byte to what fits in a chunk
  -- faults only if `meta_arena` is MAP_FAILED, and returns NULL only if mmap fails in it, which makes
  -- `meta_arena` MAP_FAILED. Otherwise it returns a block that was not in use, and the calls can go on.
  pub MetaRun-gives :
      (st : Arena o) (live : Ptr → ℕ) (size : ℕ)
      → MetaRun o st live
      → 0 < size
      → size ≤ largest
      → OnRun
          (st.meta_arena ≡ failed_chunk)
          (λ (p, st').
            ((p ≡ null)
              × ((o.mmap meta_chunk_size st.kernel).0 ≡ map_failed)
              × (st'.meta_arena ≡ failed_chunk))
            ⊎ ((p ≢ null) × (live p ≡ 0) × MetaRun o st' (update live p size)))
          (cmalloc_alloc_metadata o size st)
  MetaRun-gives st live size run pos le =
      let l = MetaRun-IsLive k st live run in
      let taken_or_not = alloc_metadata-IsTaken k st l.role size l.arena pos le in
      elim (Option-cases (cmalloc_alloc_metadata o size st)) [
        | inl fails ↦ rw fails (stopped (run_stopped fails taken_or_not))
        | inr ((p, st'), runs) ↦
            rw runs (yields (case_of p st' l runs (run_equal runs taken_or_not)))
      ]
    where
      case_of :
          (p : Ptr) (st' : Arena o) (l : IsLive k st live)
          → cmalloc_alloc_metadata o size st ≡ some (p, st')
          → IsTaken k st l.role size (p, st')
          → ((p ≡ null)
              × ((o.mmap meta_chunk_size st.kernel).0 ≡ map_failed)
              × (st'.meta_arena ≡ failed_chunk))
            ⊎ ((p ≢ null) × (live p ≡ 0) × MetaRun o st' (update live p size))
      case_of _ _ l runs (refused fails failed arena leaves) = inl (refl, fails, failed)
      case_of p st' l runs (taken real new arena leaves) = inr (
        real,
        elim (l.has p) [ inl z ↦ z | inr is ↦ absurd (ground (arith, new, ap is_held is)) ],
        given size run pos le runs real,
      )

  -- A failure of mmap is for good: after any calls, once a call returns NULL, `meta_arena` is
  -- MAP_FAILED, and every later call from that state faults exactly if its size has no free block.
  pub MetaRun-failed :
      (st st' : Arena o) (live : Ptr → ℕ) (size : ℕ)
      → MetaRun o st live
      → 0 < size
      → size ≤ largest
      → cmalloc_alloc_metadata o size st ≡ some (null, st')
      → (st'.meta_arena ≡ failed_chunk)
        × ((size' : ℕ) → (cmalloc_alloc_metadata o size' st' ≡ none) ↔ (head_of o st' size' ≡ null))
  MetaRun-failed st st' live size run pos le runs =
      elim (run_equal runs (MetaRun-gives st live size run pos le)) [
        | inl (e, fails, failed) ↦ (failed, λ size'. alloc_metadata-eq-none o st' size' failed)
        | inr (real, new, rest) ↦ absurd (real refl)
      ]

  -- After any such calls, `cmalloc_free_metadata` returns for a block in use with its size, unless
  -- `meta_arena` is MAP_FAILED or one of the next three requests for a chunk gets MAP_FAILED. The
  -- block is not in use then, and the next request for its size gives it out again.
  pub MetaRun-takes_back :
      (st : Arena o) (live : Ptr → ℕ) (p : Ptr)
      → MetaRun o st live
      → live p ≢ 0
      → OnRun
          (CannotMap o 3 st)
          (λ st'.
            MetaRun o st' (update live p 0)
            × ((st'' : Arena o) × (cmalloc_alloc_metadata o (live p) st' ≡ some (p, st''))
                × MetaRun o st'' live))
          (cmalloc_free_metadata o p (live p) st)
  MetaRun-takes_back st live p run used =
      let l = MetaRun-IsLive k st live run in
      elim (l.has p) [
        | inl z ↦ absurd (used z)
        | inr is ↦
            let freed = free_metadata-IsFreed k st l.role p (live p) l.arena (l.fits p) is in
            let real : p ≢ null = λ e. used (
              ground
                (arith, l.arena.placed.no_null, ap size_of is, ap (λ q. size_of (l.role q)) e)) in
            elim (Option-cases (cmalloc_free_metadata o p (live p) st)) [
              | inl fails ↦ rw fails (stopped (run_stopped fails freed))
              | inr (st', runs) ↦
                  let (st'', again) =
                    alloc_metadata_first o st' p (live p) real (run_equal runs freed).first in
                  rw runs (
                    yields (
                      returned p run used runs,
                      (
                        st'',
                        again,
                        subst (MetaRun o st'')
                            (update-update live p 0 (live p) ∙ update_self live p (live p) refl)
                            (given (live p) (returned p run used runs) (omega (arith, used))
                              (l.fits p) again real),
                      ),
                    ))
            ]
      ]
