-- ===== src/SpanHeap/Roles/Chunk.antt =====
-- `alloc_span` where a chunk is mapped: the rest of the chunk becomes a span in a bin.
use fast_memory_allocator.Base.{
  ℕ, ◌+◌, ◌*◌, ◌%◌, ◌^◌, ◌≤◌, ◌<◌, ◌≡◌, ◌≢◌, refl, ap, ◌∙◌, subst, true, false, some, ◌==◌, arith,
  update, update_at, OnResult, result,
}
use fast_memory_allocator.Base.Words.{u64}
use fast_memory_allocator.Common.{Runtime}
use fast_memory_allocator.Span.{Ptr, null, Span}
use fast_memory_allocator.RangeMap.{Allocator, L1Node}
use fast_memory_allocator.RangeMap.Ledger.{IsAllocator, alloc-Grows}
use fast_memory_allocator.PageBins.Marks.{pushed}
use fast_memory_allocator.SpanHeap.{
  Mapper, SpanHeap, sizeof_span, pages_size, put_span, put_bins, chunk_remainder,
}
use fast_memory_allocator.SpanHeap.Roles.Runs.{end_lem, end_aligned, rest_fits}
use fast_memory_allocator.SpanHeap.Roles.{
  in_run, Role, unborn, in_use, cached, has_page, IsMapper, IsPaginated, IsHeap,
}
use fast_memory_allocator.SpanHeap.Roles.Frame.{linked-IsCompatible, frame_at, frame_memory}
use fast_memory_allocator.SpanHeap.Roles.Moves.{push-IsHeap}
use fast_memory_allocator.SpanHeap.Roles.Steps.{used-IsCompatible, new_span_step}
use fast_memory_allocator.SpanHeap.Roles.Given.{IsKept, new-unborn, adopt_step}

module _ {a : Allocator} {o : Mapper} {r : Runtime} (u : IsAllocator a) (k : IsMapper o r)
    (small : r.page_shift ≤ 20) where
  abbrev page : ℕ
  page = 2 ^ r.page_shift

  -- A heap in which the spans in use keep their pages.
  pub record Extends (w : SpanHeap a o) (role : Ptr → Role) (w' : SpanHeap a o) : Type 0 where
    pub role' : Ptr → Role
    pub heap : IsHeap u k w' role'
    pub kept : (q : Ptr) → role q ≡ in_use → IsKept u k w.spans w'.spans role' q

  -- The links of a new span and its neighbour, and the bin.
  module _ (fit split : Ptr) (rest : ℕ) (w : SpanHeap a o) (role : Ptr → Role)
      (heap : IsHeap u k w role) (lt : rest < 8193) (used : role split ≡ in_use)
      (count : (w.spans split).page_count ≡ rest) where
    abbrev w3 : SpanHeap a o
    w3 = put_span fit (record (w.spans fit) { phys_next = split }) w

    abbrev linked : Span
    linked = record (w3.spans split) {
      phys_prev = fit;
      phys_next = null;
      next_in_uninitialized_bin = w3.bins.uninitialized_span_bin rest;
    }

    linked_count : linked.page_count ≡ rest
    linked_count = ground (arith, count)

    link_remainder-IsHeap :
        IsHeap u k
          (put_bins (pushed rest split w3.bins) (put_span split linked w3))
          (update role split (cached rest))
    link_remainder-IsHeap =
        let heap3 =
          frame_at u k heap fit (record (w.spans fit) { phys_next = split })
            (linked-IsCompatible refl refl refl) in
        let at = update_at w3.spans split linked in
        push-IsHeap u k
          (frame_at u k heap3 split linked (used-IsCompatible used refl (omega arith))) split rest
          lt used (ap (λ (x : Span). x.page_count) at ∙ linked_count)
          (ap (λ (x : Span). x.next_in_uninitialized_bin) at)

  -- The rest of a chunk becomes a span in its bin.
  pub chunk_remainder-Extends :
      (fit base : Ptr) (n rest : ℕ) (w : SpanHeap a o) (m : L1Node) (role : Ptr → Role)
      → IsHeap u k w role
      → w.page_map ≡ some m
      → base % page ≡ 0
      → base + (n + rest) * page ≤ 2 ^ 35 * page
      → rest < 8193
      → ((q : Ptr) (i : ℕ)
          → role q ≢ unborn
          → in_run r (base + n * page) rest i ≡ true
          → has_page r (w.spans q) i ≡ false)
      → ((i : ℕ) → in_run r (base + n * page) rest i ≡ true → k.mapped w.kernel i ≡ true)
      → OnResult (Extends w role) (chunk_remainder a o r fit base n rest w)
  unfolding chunk_remainder
  chunk_remainder-Extends fit base n rest w m role heap there aligned fits lt free mapped =
      new_span_step u k w _ heap.sound λ new.
        let split = (a.alloc_metadata sizeof_span w.store).0 in
        let w1 : SpanHeap a o = record w { store = (a.alloc_metadata sizeof_span w.store).1 } in
        let s : Span = record (w1.spans split) {
          base = u64 (base + pages_size a o r n);
          page_count = rest;
          is_initialized = false;
        } in
        let start : s.base ≡ base + n * page =
          end_lem r small base n (n + rest) (omega arith) aligned fits in
        let pages : IsPaginated r s = record {
          aligned = rw start (end_aligned r small base n (n + rest) (omega arith) aligned fits);
          fits = rw start (
              subst (λ (x : ℕ). base + n * page + x * page ≤ 2 ^ 35 * page) (omega arith)
                (rest_fits r small base n (n + rest) (omega arith) aligned fits));
        } in
        let fresh = new-unborn u k w role sizeof_span refl heap new in
        let heap1 =
          frame_memory u k heap w1.store w.kernel
            (alloc-Grows u sizeof_span refl w.store heap.sound) (λ i h. h) in
        adopt_step u k split s w1 m role _ heap1 there new fresh
          (u.taken sizeof_span refl w.store heap.sound new) pages
          (λ q i live has. free q i live (rw start at has)) (λ i has. mapped i (rw start at has))
          λ m' st' heap2.
            let w2 : SpanHeap a o = record (put_span split s w1) {
              page_map = some m';
              store = st';
            } in
            let count : (w2.spans split).page_count ≡ rest =
              ap (λ (x : Span). x.page_count) (update_at w1.spans split s) in
            result (record {
              role' = update (update role split in_use) split (cached rest);
              heap =
                  link_remainder-IsHeap fit split rest w2 _ heap2 lt (update_at role split in_use)
                    count;
              kept = λ q used.
                  let other : (split == q) ≡ false = ground (arith, fresh) in
                  record {
                    used = rw other used;
                    base_same = ground (arith, other);
                    count_same = ground (arith, other);
                  };
            })
