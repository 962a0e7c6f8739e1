-- ===== src/SpanHeap/Roles/Split.antt =====
-- `alloc_span` where a bin has a larger span: the span is split.
use fast_memory_allocator.Base.{
  ℕ, ◌+◌, ◌-◌, ◌*◌, ◌^◌, ◌≤◌, ◌<◌, ◌≡◌, ◌≢◌, refl, sym, ap, ◌∙◌, subst, true, false, some, ◌==◌,
  arith, update, update_at, Bool-cases, ==_iff, inl, inr, OnResult, result, on_bind, ◌>>=◌,
}
use fast_memory_allocator.Base.Words.{u64, sub64}
use fast_memory_allocator.Common.{Runtime}
use fast_memory_allocator.Span.{Ptr, null, Span}
use fast_memory_allocator.RangeMap.{Allocator, L1Node}
use fast_memory_allocator.RangeMap.Ledger.{IsAllocator, alloc-Grows}
use fast_memory_allocator.PageBins.Marks.{popped}
use fast_memory_allocator.SpanHeap.{
  Mapper, SpanHeap, put_span, put_bins, link_split, sizeof_span, pages_size, alloc_split,
  push_remainder,
}
use fast_memory_allocator.SpanHeap.Roles.Runs.{end_lem, rest_page, rest-IsPaginated}
use fast_memory_allocator.SpanHeap.Roles.{
  in_run, Role, unborn, in_use, cached, has_page, IsMapper, IsPaginated, IsHeap,
}
use fast_memory_allocator.SpanHeap.Roles.Frame.{cached-ne-unborn, frame_at, frame_memory}
use fast_memory_allocator.SpanHeap.Roles.Moves.{page-lt, pop-IsHeap, top-cached}
use fast_memory_allocator.SpanHeap.Roles.Steps.{
  unborn-IsCompatible, used-IsCompatible, new_span_step, pop_bin_step,
}
use fast_memory_allocator.SpanHeap.Roles.Given.{
  IsGiven, apart_lem, link_split-IsHeap, link_split_same, push_remainder-IsHeap, new-unborn,
}

module _ {a : Allocator} {o : Mapper} {r : Runtime} (u : IsAllocator a) (k : IsMapper o r) where
  module _ (n best : ℕ) (w : SpanHeap a o) (m : L1Node) (role : Ptr → Role)
      (small : r.page_shift ≤ 20) (heap : IsHeap u k w role) (there : w.page_map ≡ some m)
      (le : n ≤ best) (lt : best < 8193) where
    abbrev p : Ptr
    p = w.bins.uninitialized_span_bin best

    -- The span with its first `n` pages.
    abbrev head_part : Span
    head_part = record (w.spans p) { page_count = n }

    abbrev w1 : SpanHeap a o
    w1 =
        put_span p head_part (put_bins (popped best (w.spans p).next_in_uninitialized_bin w.bins) w)

    abbrev split : Ptr
    split = (a.alloc_metadata sizeof_span w.store).0

    abbrev w2 : SpanHeap a o
    w2 = record w1 { store = (a.alloc_metadata sizeof_span w.store).1 }

    abbrev rest : ℕ
    rest = sub64 best n

    -- The span for the other pages.
    abbrev tail_part : Span
    tail_part = record (w2.spans split) {
      base = u64 ((w2.spans p).base + pages_size a o r n);
      page_count = rest;
      is_initialized = false;
      phys_next = (w2.spans p).phys_next;
      phys_prev = p;
      next_in_uninitialized_bin = w2.bins.uninitialized_span_bin rest;
    }

    abbrev w3 : SpanHeap a o
    w3 = put_span split tail_part w2

    abbrev role1 : Ptr → Role
    role1 = update role p in_use

    module _ (real : p ≢ null) (new : split ≢ null) where
      here : role p ≡ cached best
      here = top-cached u k heap best lt real

      pages : IsPaginated r (w.spans p)
      pages = heap.placed p (cached-ne-unborn here)

      whole : (w.spans p).page_count ≡ best
      whole = heap.sizes p best here

      split_unborn : role split ≡ unborn
      split_unborn = new-unborn u k w role sizeof_span refl heap new

      split_unborn1 : role1 split ≡ unborn
      split_unborn1 = ground (arith, here, split_unborn)

      heap3 : IsHeap u k w3 role1
      heap3 =
          let shorter =
            frame_at u k (pop-IsHeap u k heap best lt real) p head_part
              (used-IsCompatible (update_at role p in_use) refl (omega (arith, whole))) in
          let grows = alloc-Grows u sizeof_span refl w.store heap.sound in
          frame_at u k (frame_memory u k shorter _ w.kernel grows (λ i h. h)) split tail_part
            (unborn-IsCompatible split_unborn1)

      placed_at : w3.spans split ≡ tail_part
      placed_at = update_at w2.spans split tail_part

      base_eq : tail_part.base ≡ (w.spans p).base + n * 2 ^ r.page_shift
      base_eq =
          ap (λ (x : Span). u64 (x.base + pages_size a o r n)) (update_at w.spans p head_part)
          ∙ end_lem r small (w.spans p).base n (w.spans p).page_count (omega (arith, whole))
              pages.aligned pages.fits

      count_eq : tail_part.page_count ≡ (w.spans p).page_count - n
      count_eq = omega (arith, whole)

      tail_page :
          (i : ℕ)
          → has_page r tail_part i ≡ true
          → (has_page r (w.spans p) i ≡ true) × (in_run r (w.spans p).base n i ≡ false)
      tail_page =
          rest_page r small (w.spans p) tail_part n pages (omega (arith, whole)) base_eq count_eq

      tail_free :
          (q : Ptr) (i : ℕ)
          → role1 q ≢ unborn
          → has_page r tail_part i ≡ true
          → has_page r (w3.spans q) i ≡ false
      tail_free q i live has = elim (Bool-cases (split == q)) [
        | inl e ↦ absurd (live (subst (λ x. role1 x ≡ unborn) ((==_iff split q).0 e) split_unborn1))
        | inr other ↦ elim (Bool-cases (p == q)) [
          | inl e ↦ rw (other, e) (tail_page i has).1
          | inr e ↦
              let ne : p ≢ q = ground arith in
              let alive : role q ≢ unborn = λ h. live (ground arith) in
              rw (other, e)
                (apart_lem u k w p q i heap ne (cached-ne-unborn here) alive (tail_page i has).0)
        ]
      ]

      -- The spans that are neither the old one nor the new one.
      same_at : (q : Ptr) → role q ≡ in_use → w3.spans q ≡ w.spans q
      same_at q used =
          let not_p : (p == q) ≡ false = ground (arith, here) in
          let not_split : (split == q) ≡ false = ground (arith, split_unborn) in
          rw (not_p, not_split) refl

      head_at : w3.spans p ≡ head_part
      head_at =
          let other : (split == p) ≡ false = ground (arith, here, split_unborn) in
          rw other (update_at w.spans p head_part)

      tail_mapped : (i : ℕ) → has_page r tail_part i ≡ true → k.mapped w.kernel i ≡ true
      tail_mapped i has =
          let old = (tail_page i has).0 in
          heap.known i (page-lt a o r (w.spans p) i pages old)
            (λ e. real (sym (heap.owns p i (cached-ne-unborn here) old) ∙ e))

      split_lem :
          OnResult
            (λ (q, w'). IsGiven u k w role n q w')
            (push_remainder a o r split rest w3 >>= λ w4. some (p, link_split a o r p split w4))
      split_lem =
          on_bind
            (push_remainder-IsHeap u k split rest w3 m role1 heap3 there (omega arith) new
              split_unborn1 (u.taken sizeof_span refl w.store heap.sound new)
              (subst (IsPaginated r) (sym placed_at) (
                rest-IsPaginated r small (w.spans p) tail_part n pages (omega (arith, whole))
                  base_eq count_eq))
              (ap (λ (x : Span). x.page_count) placed_at)
              (ap (λ (x : Span). x.next_in_uninitialized_bin) placed_at)
              (λ q i live has.
                tail_free q i live (subst (λ x. has_page r x i ≡ true) placed_at has))
              (λ i has. tail_mapped i (subst (λ x. has_page r x i ≡ true) placed_at has)))
            λ w4 (heap4, same). result (record {
              role' = update (update role1 split in_use) split (cached rest);
              heap = link_split-IsHeap u k p split w4 _ heap4;
              real = real;
              was_free = λ e. ground (arith, here);
              now_used = ground (arith, here, split_unborn);
              count =
                  (link_split_same u k p split p w4).1
                  ∙ ap (λ (f : Ptr → Span). (f p).page_count) same
                  ∙ ap (λ (x : Span). x.page_count) head_at;
              kept = λ q used.
                  let stays = ap (λ (f : Ptr → Span). f q) same ∙ same_at q used in
                  record {
                    used = ground (arith, here, split_unborn);
                    base_same =
                        (link_split_same u k p split q w4).0 ∙ ap (λ (x : Span). x.base) stays;
                    count_same =
                        (link_split_same u k p split q w4).1
                        ∙ ap (λ (x : Span). x.page_count) stays;
                  };
            })

  -- The pages of a span go to it and a new one.
  pub alloc_split-IsGiven :
      (n best : ℕ) (w : SpanHeap a o) (m : L1Node) (role : Ptr → Role)
      → r.page_shift ≤ 20
      → IsHeap u k w role
      → w.page_map ≡ some m
      → n ≤ best
      → best < 8193
      → w.bins.uninitialized_span_bin best ≢ null
      → OnResult (λ (p, w'). IsGiven u k w role n p w') (alloc_split a o r n best w)
  unfolding alloc_split
  alloc_split-IsGiven n best w m role small heap there le lt real = pop_bin_step u k best w _ (
    real,
    new_span_step u k (w1 n best w m role small heap there le lt) _ heap.sound
        λ new. split_lem n best w m role small heap there le lt real new,
  )
