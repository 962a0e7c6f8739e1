-- ===== src/SpanHeap/Roles/Client.antt =====
-- `cmalloc_initialize_span` and `cmalloc_cache_span` between a heap's roles.
use fast_memory_allocator.Base.{
  ℕ, zero, suc, ◌+◌, ◌≤◌, ◌<◌, ◌≡◌, refl, ap, ◌∙◌, true, false, leb, Option, none, some, ◌==◌,
  arith, update, update_at, ==_iff, OnResult, no_result, result, on_bind, on_either,
}
use fast_memory_allocator.Common.{Runtime}
use fast_memory_allocator.Span.{Ptr, null, Span, fill_words, initialize_blocks}
use fast_memory_allocator.RangeMap.{Allocator}
use fast_memory_allocator.RangeMap.Ledger.{IsAllocator}
use fast_memory_allocator.PageBins.{max_binned_pages}
use fast_memory_allocator.SpanHeap.{
  Mapper, SpanHeap, put_span, set_sizes, span_size, request_pages, bin_span, cmalloc_cache_span,
  cmalloc_initialize_span,
}
use fast_memory_allocator.SpanHeap.Roles.Given.{IsGiven}
use fast_memory_allocator.SpanHeap.Roles.Fresh.{refused, served}
use fast_memory_allocator.SpanHeap.Roles.Alloc.{Answers, alloc_span-IsServed}
use fast_memory_allocator.SpanHeap.Roles.Frame.{linked-IsCompatible, frame_at}
use fast_memory_allocator.SpanHeap.Roles.Moves.{push-IsHeap}
use fast_memory_allocator.SpanHeap.Roles.Steps.{used-IsCompatible}
use fast_memory_allocator.SpanHeap.Roles.{Role, in_use, cached, IsMapper, IsHeap}

-- The span that `cmalloc_initialize_span` makes of one that it gets.
abbrev pub initialized : Option ℕ → ℕ → Span → Span
initialized c requested s =
    initialize_blocks
      (record (set_sizes c requested s) { is_initialized = true; size_class_index = c })

set_sizes_same :
    (c : Option ℕ) (requested : ℕ) (s : Span)
    → ((set_sizes c requested s).base ≡ s.base)
      × ((set_sizes c requested s).page_count ≡ s.page_count)
      × ((set_sizes c requested s).next_in_uninitialized_bin ≡ s.next_in_uninitialized_bin)
unfolding set_sizes
set_sizes_same none requested s = (refl, refl, refl)
set_sizes_same (some i) requested s = (refl, refl, refl)

fill_words_same :
    (n last left k : ℕ) (s : Span)
    → ((fill_words n last left k s).base ≡ s.base)
      × ((fill_words n last left k s).page_count ≡ s.page_count)
      × ((fill_words n last left k s).next_in_uninitialized_bin ≡ s.next_in_uninitialized_bin)
unfolding fill_words
fill_words_same n last zero k s = (refl, refl, refl)
fill_words_same n last (suc left) k s = fill_words_same n last left (k + 1) _

initialized_same :
    (c : Option ℕ) (requested : ℕ) (s : Span)
    → ((initialized c requested s).base ≡ s.base)
      × ((initialized c requested s).page_count ≡ s.page_count)
      × ((initialized c requested s).next_in_uninitialized_bin ≡ s.next_in_uninitialized_bin)
unfolding initialize_blocks
initialized_same c requested s =
    let (base, count, next) = fill_words_same _ _ _ _ _ in
    let (base', count', next') = set_sizes_same c requested s in
    (base ∙ base', count ∙ count', next ∙ next')

module _ {a : Allocator} {o : Mapper} {r : Runtime} (u : IsAllocator a) (k : IsMapper o r) where
  initialize-IsGiven :
      (c : Option ℕ) (requested n : ℕ) (w w1 : SpanHeap a o) (role : Ptr → Role) (p : Ptr)
      → IsGiven u k w role n p w1
      → IsGiven u k w role n p (put_span p (initialized c requested (w1.spans p)) w1)
  initialize-IsGiven c requested n w w1 role p h =
      let (base, count, next) = initialized_same c requested (w1.spans p) in
      record {
        role' = h.role';
        heap = frame_at u k h.heap p _ (linked-IsCompatible base count next);
        real = h.real;
        was_free = h.was_free;
        now_used = h.now_used;
        count = ap (λ (x : Span). x.page_count) (update_at w1.spans p _) ∙ count ∙ h.count;
        kept = λ q used.
            let was = h.was_free in
            let other : (p == q) ≡ false = ground (arith, was) in
            let same = h.kept q used in
            record {
              used = same.used;
              base_same = rw other same.base_same;
              count_same = rw other same.count_same;
            };
      }

  -- What `cmalloc_initialize_span` returns.
  pub cmalloc_initialize_span-IsGiven :
      (c : Option ℕ) (requested : ℕ) (w : SpanHeap a o) (role : Ptr → Role)
      → r.page_shift ≤ 20
      → IsHeap u k w role
      → Answers o r (request_pages a o r (span_size c requested)) w.kernel
      → OnResult
          (λ (p, w'). IsGiven u k w role (request_pages a o r (span_size c requested)) p w')
          (cmalloc_initialize_span a o r c requested w)
  unfolding cmalloc_initialize_span
  cmalloc_initialize_span-IsGiven c requested w role small heap answers =
      on_bind (alloc_span-IsServed u k small (span_size c requested) w role heap answers)
        λ (p, w1) h. elim h [
          | refused e heap1 same ↦ rw ((==_iff p null).1 e) no_result
          | served given ↦
              let real : (p == null) ≡ false = (let ne = given.real in ground arith) in
              rw real (
                result (
                  initialize-IsGiven c requested (request_pages a o r (span_size c requested)) w w1
                    role p given))
        ]

  -- A span in use is put into its bin.
  bin_span-IsHeap :
      (p : Ptr) (w : SpanHeap a o) (role : Ptr → Role)
      → IsHeap u k w role
      → role p ≡ in_use
      → (w.spans p).page_count < 8193
      → IsHeap u k (bin_span a o r p w) (update role p (cached (w.spans p).page_count))
  unfolding bin_span
  bin_span-IsHeap p w role heap used lt =
      let s : Span = record (w.spans p) {
        is_initialized = false;
        next_in_uninitialized_bin = w.bins.uninitialized_span_bin (w.spans p).page_count;
      } in
      let at = update_at w.spans p s in
      push-IsHeap u k (frame_at u k heap p s (used-IsCompatible used refl (omega arith))) p
        (w.spans p).page_count lt used (ap (λ (x : Span). x.page_count) at)
        (ap (λ (x : Span). x.next_in_uninitialized_bin) at)

  pub cmalloc_cache_span-IsHeap :
      (p : Ptr) (w : SpanHeap a o) (role : Ptr → Role)
      → IsHeap u k w role
      → role p ≡ in_use
      → (w.spans p).page_count < 8193
      → OnResult
          (λ w'. IsHeap u k w' (update role p (cached (w.spans p).page_count)))
          (cmalloc_cache_span a o r p w)
  unfolding cmalloc_cache_span
  cmalloc_cache_span-IsHeap p w role heap used lt =
      on_either (leb max_binned_pages (w.spans p).page_count) (λ e. absurd (ground arith))
        (λ e. result (bin_span-IsHeap p w role heap used lt))
