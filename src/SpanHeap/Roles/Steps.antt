-- ===== src/SpanHeap/Roles/Steps.antt =====
-- The steps that the branches of `alloc_span` share, each with what the rest of the branch may rely on.
use fast_memory_allocator.Base.{
  ℕ, ◌+◌, ◌/◌, ◌^◌, ◌≤◌, ◌≡◌, ◌≢◌, arith, Option, some, ◌==◌, ◌>>=◌, OnResult, no_result, on_equal,
  Option-cases, Bool-cases, ==_iff, inl, inr,
}
use fast_memory_allocator.Base.Words.{u64}
use fast_memory_allocator.Common.{Runtime, round_down_page_index}
use fast_memory_allocator.Span.{Ptr, null, Span}
use fast_memory_allocator.RangeMap.{Allocator, L1Node, cmalloc_map_range}
use fast_memory_allocator.RangeMap.Counts.{IsTrie}
use fast_memory_allocator.RangeMap.Ledger.{IsAllocator, IsMapped, cmalloc_map_range-IsMapped}
use fast_memory_allocator.PageBins.Marks.{popped}
use fast_memory_allocator.SpanHeap.{
  Mapper, SpanHeap, new_span, map_pages, pop_bin, sizeof_span, put_bins,
}
use fast_memory_allocator.SpanHeap.Owner.{keys_fit}
use fast_memory_allocator.SpanHeap.Roles.{Role, unborn, in_use, IsMapper, IsPaginated}
use fast_memory_allocator.SpanHeap.Roles.Frame.{IsCompatible}

-- An unborn span may become anything.
pub unborn-IsCompatible : {role : Role} {s t : Span} → role ≡ unborn → IsCompatible role s t
unborn-IsCompatible e = record {
  base_same = λ live. absurd (live e);
  count_le = λ live. absurd (live e);
  count_same = λ n h. cc;
  next_same = λ n h. cc;
}

-- A span in use may lose pages.
pub used-IsCompatible :
    {role : Role} {s t : Span}
    → role ≡ in_use
    → t.base ≡ s.base
    → t.page_count ≤ s.page_count
    → IsCompatible role s t
used-IsCompatible e base count = record {
  base_same = λ live. base;
  count_le = λ live. count;
  count_same = λ n h. cc;
  next_same = λ n h. cc;
}

module _ {a : Allocator} {o : Mapper} {r : Runtime} (u : IsAllocator a) (k : IsMapper o r) where
  module _ {ℓ} {B : Type 0} {Q : B → Type ℓ} where
    pub new_span_step :
        (w : SpanHeap a o) (f : Ptr × SpanHeap a o → Option B)
        → u.IsSound w.store
        → (let (p, st) = a.alloc_metadata sizeof_span w.store in
            p ≢ null → OnResult Q (f (p, record w { store = st })))
        → OnResult Q (new_span a o r w >>= f)
    unfolding new_span
    new_span_step w f ok rest =
        let p = (a.alloc_metadata sizeof_span w.store).0 in
        elim (Bool-cases (p == null)) [
          | inl e ↦ rw e no_result
          | inr e ↦ rw e (rest (ground arith))
        ]

    pub pop_bin_step :
        (n : ℕ) (w : SpanHeap a o) (f : Ptr × SpanHeap a o → Option B)
        → (let p = w.bins.uninitialized_span_bin n in
            (p ≢ null)
            × OnResult Q
                (f (p, put_bins (popped n (w.spans p).next_in_uninitialized_bin w.bins) w)))
        → OnResult Q (pop_bin a o r n w >>= f)
    unfolding pop_bin
    pop_bin_step n w f rest =
        let p = w.bins.uninitialized_span_bin n in
        let next = (w.spans p).next_in_uninitialized_bin in
        elim (Bool-cases (p == null)) [
          | inl e ↦ absurd (rest.0 ((==_iff p null).0 e))
          | inr e ↦ elim (Bool-cases (next == null)) [
            | inl last ↦ rw (e, last) (rw last at rest.1)
            | inr more ↦ rw (e, more) (rw more at rest.1)
          ]
        ]

    pub map_pages_step :
        (p : Ptr) (w : SpanHeap a o) (m : L1Node) (f : SpanHeap a o → Option B)
        → w.page_map ≡ some m
        → u.IsSound w.store
        → IsTrie m
        → p ≢ null
        → IsPaginated r (w.spans p)
        → (let first = (w.spans p).base / 2 ^ r.page_shift in
            (m' : L1Node) (st' : a.Store)
            → IsMapped u m p first (first + (w.spans p).page_count) w.store (m', st')
            → OnResult Q (f (record w { page_map = some m'; store = st' })))
        → OnResult Q (map_pages a o r p w >>= f)
    unfolding map_pages round_down_page_index
    map_pages_step p w m f there ok trie real pages rest =
        let first = (w.spans p).base / 2 ^ r.page_shift in
        let to = first + (w.spans p).page_count in
        let le : to ≤ 2 ^ 35 =
          keys_fit a o r (w.spans p).base (w.spans p).page_count pages.aligned pages.fits in
        let e : u64 to ≡ to = omega arith in
        elim (Option-cases (cmalloc_map_range a m p first to w.store)) [
          | inl fails ↦ rw (there, e, fails) no_result
          | inr (x, runs) ↦
              let run =
                on_equal runs (
                  cmalloc_map_range-IsMapped u m p first to w.store ok trie real (omega arith)
                    le) in
              rw (there, e, runs) (rest x.0 x.1 run)
        ]
