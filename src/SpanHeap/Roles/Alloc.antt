-- ===== src/SpanHeap/Roles/Alloc.antt =====
-- `alloc_span` as a whole: each branch keeps the heap and hands out a span that was not in use.
use native.Mathlib.Nat.{div-mul-le_self}
use fast_memory_allocator.Base.{
  ℕ, ◌+◌, ◌*◌, ◌^◌, ◌≤◌, ◌<◌, ◌≡◌, ◌≢◌, refl, sym, ◌∙◌, subst, ◌&&◌, not, leb, none, some, ◌==◌,
  arith, Bool-cases, Option-cases, ==_iff, inl, inr, OnResult, no_result, result, on_bind,
  on_weaken, on_either,
}
use fast_memory_allocator.Base.Words.{u64, sub64, not64}
use fast_memory_allocator.Base.Bits.{bit_and-lt}
use fast_memory_allocator.Common.{Runtime, round_up_page}
use fast_memory_allocator.Span.{Ptr, null}
use fast_memory_allocator.RangeMap.{
  Allocator, L1Node, empty_map, sizeof_l1, cmalloc_get, cmalloc_initialize_range_map,
}
use fast_memory_allocator.RangeMap.Counts.{IsTrie}
use fast_memory_allocator.RangeMap.Ledger.{IsAllocator, alloc-Grows}
use fast_memory_allocator.PageBins.{
  no_fitting_page_sequence, max_binned_pages, find_best_fitting_uninitialized_span,
}
use fast_memory_allocator.PageBins.Marks.{find-nonempty}
use fast_memory_allocator.SpanHeap.{
  Mapper, SpanHeap, map_failed, has_arena, ensure_page_map, request_pages, alloc_binned,
  alloc_pages, alloc_span,
}
use fast_memory_allocator.SpanHeap.Errors.{ensured}
use fast_memory_allocator.SpanHeap.Roles.Given.{pop_bin-IsGiven}
use fast_memory_allocator.SpanHeap.Roles.Split.{alloc_split-IsGiven}
use fast_memory_allocator.SpanHeap.Roles.Fresh.{IsServed, served, same_spans, alloc_direct-IsGiven}
use fast_memory_allocator.SpanHeap.Roles.NewChunk.{alloc_chunk-IsServed}
use fast_memory_allocator.SpanHeap.Roles.{Role, IsMapper, IsHeap}

-- mmap gives a large span its pages.
abbrev pub Answers : (o : Mapper) → Runtime → ℕ → o.Kernel → Type 0
Answers o r n kernel = 8193 ≤ n → (o.mmap (n * 2 ^ r.page_shift) kernel).0 ≢ map_failed

module _ {a : Allocator} {o : Mapper} {r : Runtime} (u : IsAllocator a) (k : IsMapper o r)
    (small : r.page_shift ≤ 20) where
  alloc_binned-IsServed :
      (n : ℕ) (w : SpanHeap a o) (m : L1Node) (role : Ptr → Role)
      → IsHeap u k w role
      → w.page_map ≡ some m
      → n < 8193
      → OnResult (λ (p, w'). IsServed u k w role n p w') (alloc_binned a o r n w)
  unfolding alloc_binned
  alloc_binned-IsServed n w m role heap there lt =
      let best = find_best_fitting_uninitialized_span n w.bins in
      on_either (has_arena a o r w && not (best == no_fitting_page_sequence))
        (λ e.
          let fit = find-nonempty w.bins n heap.tracked lt (ground arith) in
          on_either (n == best)
            (λ same.
              on_weaken
                (pop_bin-IsGiven u k n w role lt heap (
                  subst (λ x. w.bins.uninitialized_span_bin x ≢ null) (sym ((==_iff n best).0 same))
                    fit.0))
                λ x given. result (served given))
            (λ larger.
              on_weaken (alloc_split-IsGiven u k n best w m role small heap there fit.1 fit.2 fit.0)
                λ x given. result (served given)))
        (λ e. alloc_chunk-IsServed u k n w m role small heap there lt)

  -- The bytes of a request's pages do not wrap round.
  request_fits : (size : ℕ) → request_pages a o r size * 2 ^ r.page_shift < 2 ^ 64
  unfolding request_pages round_up_page
  request_fits size = omega (
    arith,
    div-mul-le_self (round_up_page r size) (2 ^ r.page_shift),
    bit_and-lt 64 (u64 (size + sub64 r.page_size 1)) (not64 (sub64 r.page_size 1)),
  )

  alloc_pages-IsServed :
      (n : ℕ) (w : SpanHeap a o) (m : L1Node) (role : Ptr → Role)
      → IsHeap u k w role
      → w.page_map ≡ some m
      → n * 2 ^ r.page_shift < 2 ^ 64
      → Answers o r n w.kernel
      → OnResult (λ (p, w'). IsServed u k w role n p w') (alloc_pages a o r n w)
  unfolding alloc_pages
  alloc_pages-IsServed n w m role heap there lt answers =
      on_either (leb max_binned_pages n)
        (λ e.
          on_weaken (alloc_direct-IsGiven u k n w m role heap there lt (answers (ground arith)))
            λ x given. result (served given))
        (λ e. alloc_binned-IsServed n w m role heap there (ground arith))

  -- A new page map leads nowhere.
  record IsEnsured (w : SpanHeap a o) (role : Ptr → Role) (w' : SpanHeap a o) : Type 0 where
    heap : IsHeap u k w' role
    there : (m : L1Node) × (w'.page_map ≡ some m)
    spans_same : w'.spans ≡ w.spans
    kernel_same : w'.kernel ≡ w.kernel

  empty_map-IsTrie : IsTrie empty_map
  empty_map-IsTrie = record { middles = λ i p n e. ground arith }

  get_empty : (i : ℕ) → cmalloc_get empty_map i ≡ null
  unfolding cmalloc_get
  get_empty i = refl

  new_map-IsHeap :
      (w : SpanHeap a o) (role : Ptr → Role)
      → IsHeap u k w role
      → w.page_map ≡ none
      → IsHeap u k
          (record w { page_map = some empty_map; store = (a.alloc_metadata sizeof_l1 w.store).1 })
          role
  new_map-IsHeap w role heap e =
      let grows = alloc-Grows u sizeof_l1 refl w.store heap.sound in
      record {
        sound = grows.sound;
        tracked = heap.tracked;
        no_null = heap.no_null;
        born = λ p live. grows.kept p (heap.born p live);
        trie = λ m same. (let e' : empty_map ≡ m = cc in subst IsTrie e' empty_map-IsTrie);
        stacks = heap.stacks;
        sizes = heap.sizes;
        placed = heap.placed;
        owns = λ p i live has. get_empty i ∙ rw e at (heap.owns p i live has);
        known = λ i lt there. absurd (there (get_empty i));
      }

  ensure_page_map-IsEnsured :
      (w : SpanHeap a o) (role : Ptr → Role)
      → IsHeap u k w role
      → OnResult (IsEnsured w role) (ensure_page_map a o r w)
  unfolding ensure_page_map cmalloc_initialize_range_map
  ensure_page_map-IsEnsured w role heap = elim (Option-cases w.page_map) [
    | inl e ↦ elim (Bool-cases ((a.alloc_metadata sizeof_l1 w.store).0 == null)) [
      | inl fails ↦ rw (e, fails) no_result
      | inr gives ↦
          rw (e, gives)
            (result (record {
              heap = new_map-IsHeap w role heap e;
              there = (empty_map, refl);
              spans_same = refl;
              kernel_same = refl;
            }))
    ]
    | inr (m, e) ↦
        subst (OnResult (IsEnsured w role)) (sym (ensured a o r w m e))
          (result (record { heap = heap; there = (m, e); spans_same = refl; kernel_same = refl }))
  ]

  -- In a heap where every page of a span leads to it, what `alloc_span` gives is NULL after a failure
  -- of mmap, or a span of the requested number of pages that was in nobody's hands.
  pub alloc_span-IsServed :
      (size : ℕ) (w : SpanHeap a o) (role : Ptr → Role)
      → IsHeap u k w role
      → Answers o r (request_pages a o r size) w.kernel
      → OnResult
          (λ (p, w'). IsServed u k w role (request_pages a o r size) p w')
          (alloc_span a o r size w)
  unfolding alloc_span
  alloc_span-IsServed size w role heap answers =
      on_bind (ensure_page_map-IsEnsured w role heap) λ w1 ready.
        let (m, there) = ready.there in
        on_weaken
          (alloc_pages-IsServed (request_pages a o r size) w1 m role ready.heap there
            (request_fits size) (λ le. rw ready.kernel_same (answers le)))
          λ (p, w2) h. result (same_spans u k ready.spans_same h)
