-- ===== src/SpanHeap/Roles/Fresh.antt =====
-- `alloc_span` where mmap is asked: for a chunk, and for a span that is too large for the bins.
use native.Mathlib.Nat.{mul-le-mul, div-mul-le_self}
use fast_memory_allocator.Base.{
  ℕ, ◌*◌, ◌/◌, ◌^◌, ◌≤◌, ◌<◌, ◌≡◌, ◌≢◌, refl, ap, ◌∙◌, subst, true, false, ltb, some, ◌==◌, arith,
  update, update_at, Bool-cases, inl, inr, ◌⊎◌, OnResult, result,
}
use fast_memory_allocator.Base.Words.{u64}
use fast_memory_allocator.Common.{Runtime}
use fast_memory_allocator.Span.{Ptr, null, Span}
use fast_memory_allocator.RangeMap.{Allocator, L1Node}
use fast_memory_allocator.RangeMap.Ledger.{IsAllocator, alloc-Grows}
use fast_memory_allocator.SpanHeap.{
  Mapper, SpanHeap, map_failed, data_chunk_size, sizeof_span, chunk_pages, alloc_direct,
}
use fast_memory_allocator.SpanHeap.Roles.Runs.{page_pos, page_le}
use fast_memory_allocator.SpanHeap.Roles.{
  in_run, Role, unborn, in_use, has_page, IsMapper, failed, given, IsHeap,
}
use fast_memory_allocator.SpanHeap.Roles.Frame.{frame_memory}
use fast_memory_allocator.SpanHeap.Roles.Steps.{new_span_step}
use fast_memory_allocator.SpanHeap.Roles.Given.{
  IsKept, IsGiven, new-unborn, page_mapped, adopt_step,
}

-- The branch of a chunk computes in its pages.
module _ (a : Allocator) (o : Mapper) (r : Runtime) (small : r.page_shift ≤ 20) where
  chunk_cases :
      (n : ℕ)
      → ((data_chunk_size / 2 ^ r.page_shift < n) × (chunk_pages a o r n ≡ n))
        ⊎ ((n ≤ data_chunk_size / 2 ^ r.page_shift)
            × (chunk_pages a o r n ≡ data_chunk_size / 2 ^ r.page_shift))
  unfolding chunk_pages
  chunk_cases n = elim (Bool-cases (ltb (data_chunk_size / 2 ^ r.page_shift) n)) [
    | inl e ↦ inl (ground arith, rw e refl)
    | inr e ↦ inr (ground arith, rw e refl)
  ]

  -- The bytes of a chunk do not wrap round.
  pub chunk_fits : (n : ℕ) → n < 8193 → chunk_pages a o r n * 2 ^ r.page_shift < 2 ^ 64
  chunk_fits n lt = elim (chunk_cases n) [
    | inl (more, e) ↦ rw e (
        omega (
          arith,
          mul-le-mul {n₁ = n} {m₁ = 2 ^ r.page_shift} {n₂ = 8193} {m₂ = 2 ^ 20} (omega arith)
              (page_le r small),
        ))
    | inr (le, e) ↦ rw e (omega (arith, div-mul-le_self data_chunk_size (2 ^ r.page_shift)))
  ]

  pub chunk-le : (n : ℕ) → n ≤ chunk_pages a o r n
  chunk-le n = elim (chunk_cases n) [ inl (more, e) ↦ omega arith | inr (le, e) ↦ omega arith ]

  pub chunk-lt : (n : ℕ) → n < 8193 → chunk_pages a o r n < 2 ^ 64
  chunk-lt n lt = elim (chunk_cases n) [
    | inl (more, e) ↦ omega arith
    | inr (le, e) ↦
        omega (arith, div-mul-le_self data_chunk_size (2 ^ r.page_shift), page_pos r small)
  ]

module _ {a : Allocator} {o : Mapper} {r : Runtime} (u : IsAllocator a) (k : IsMapper o r) where
  -- What a branch of `alloc_span` that asks mmap gives.
  pub data IsServed (w : SpanHeap a o) (role : Ptr → Role) (n : ℕ) (p : Ptr) (w' : SpanHeap a o)
      : Type 0 where
    refused : p ≡ null → IsHeap u k w' role → w'.spans ≡ w.spans → IsServed w role n p w'
    served : IsGiven u k w role n p w' → IsServed w role n p w'

  pub same_spans :
      {w w1 w' : SpanHeap a o} {role : Ptr → Role} {n : ℕ} {p : Ptr}
      → w1.spans ≡ w.spans
      → IsServed w1 role n p w'
      → IsServed w role n p w'
  same_spans e (refused none_given heap same) = refused none_given heap (same ∙ e)
  same_spans {w} {w1} {w'} {role} {n} {p} e (served h) = served (record {
    role' = h.role';
    heap = h.heap;
    real = h.real;
    was_free = h.was_free;
    now_used = h.now_used;
    count = h.count;
    kept = λ q used. subst (λ f. IsKept u k f w'.spans h.role' q) e (h.kept q used);
  })

  -- Pages that were not mapped belong to no span.
  pub unmapped_free :
      (w : SpanHeap a o) {role : Ptr → Role} (base : Ptr) (n : ℕ)
      → IsHeap u k w role
      → ((i : ℕ) → in_run r base n i ≡ true → k.mapped w.kernel i ≡ false)
      → (q : Ptr) (i : ℕ) → role q ≢ unborn
      → in_run r base n i ≡ true
      → has_page r (w.spans q) i ≡ false
  unmapped_free w base n heap free q i live run = elim (Bool-cases (has_page r (w.spans q) i)) [
    | inl has ↦ ground (arith, page_mapped u k w q i heap live has, free i run)
    | inr e ↦ e
  ]

  -- The spans in use are not the new one.
  pub keep_others :
      (f : Ptr → Span) (s : Span) (role : Ptr → Role) (p : Ptr)
      → role p ≡ unborn
      → (q : Ptr) → role q ≡ in_use
      → IsKept u k f (update f p s) (update role p in_use) q
  keep_others f s role p new q used =
      let other : (p == q) ≡ false = ground (arith, new) in
      record { used = rw other used; base_same = rw other refl; count_same = rw other refl }

  -- A large span.
  pub alloc_direct-IsGiven :
      (n : ℕ) (w : SpanHeap a o) (m : L1Node) (role : Ptr → Role)
      → IsHeap u k w role
      → w.page_map ≡ some m
      → n * 2 ^ r.page_shift < 2 ^ 64
      → (o.mmap (n * 2 ^ r.page_shift) w.kernel).0 ≢ map_failed
      → OnResult (λ (p, w'). IsGiven u k w role n p w') (alloc_direct a o r n w)
  unfolding alloc_direct
  alloc_direct-IsGiven n w m role heap there lt succeeds =
      let bytes : u64 (n * 2 ^ r.page_shift) ≡ n * 2 ^ r.page_shift = omega arith in
      rw bytes (
        new_span_step u k w _ heap.sound λ new. elim (k.answers n w.kernel lt) [
          | failed e same ↦ absurd (succeeds e)
          | given aligned fits free now ↦
              let p = (a.alloc_metadata sizeof_span w.store).0 in
              let answer = o.mmap (n * 2 ^ r.page_shift) w.kernel in
              let w1 : SpanHeap a o = record w {
                store = (a.alloc_metadata sizeof_span w.store).1;
                kernel = answer.1;
              } in
              let s : Span = record (w.spans p) {
                base = answer.0;
                page_count = n;
                is_initialized = false;
              } in
              let unborn_at = new-unborn u k w role sizeof_span refl heap new in
              let heap1 =
                frame_memory u k heap w1.store w1.kernel
                  (alloc-Grows u sizeof_span refl w.store heap.sound)
                  (λ i h. ground (arith, now i)) in
              adopt_step u k p s w1 m role _ heap1 there new unborn_at
                (u.taken sizeof_span refl w.store heap.sound new)
                (record { aligned = aligned; fits = fits })
                (λ q i. unmapped_free w answer.0 n heap free q i) (λ i run. ground (arith, now i))
                λ m' st' heap2. result (record {
                  role' = update role p in_use;
                  heap = heap2;
                  real = new;
                  was_free = λ e. ground (arith, unborn_at);
                  now_used = update_at role p in_use;
                  count = ap (λ (x : Span). x.page_count) (update_at w.spans p s);
                  kept = keep_others w.spans s role p unborn_at;
                })
        ])
