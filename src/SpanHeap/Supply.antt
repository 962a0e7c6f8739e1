-- ===== src/SpanHeap/Supply.antt =====
-- The branches of `alloc_span` of src/span.c where the allocator of metadata serves the
-- calls they make and mmap answers: no assertion fails and NULL is not dereferenced.
use fast_memory_allocator.Base.{
  ℕ, suc, ◌+◌, ◌-◌, ◌*◌, ◌≡◌, ◌≢◌, refl, ap, ◌∙◌, sym, subst, update_at, ◌∷◌, arith, false, ◌&&◌,
  ltb, some, ◌==◌, OnRun, yields, run_bind, run_either, eq_false, Bool-cases, inl, inr,
}
use fast_memory_allocator.Base.Words.{u64, sub64}
use fast_memory_allocator.Common.{Runtime, round_down_page_index}
use fast_memory_allocator.Span.{Ptr, null, Span}
use fast_memory_allocator.RangeMap.{Allocator, L1Node}
use fast_memory_allocator.RangeMap.Supply.{Serves, Serves-le, Serves-call, cmalloc_map_range-served}
use fast_memory_allocator.PageBins.{max_binned_pages}
use fast_memory_allocator.SpanHeap.{
  Mapper, SpanHeap, map_failed, sizeof_span, sizeof_data_chunk, put_span, put_head, pages_size,
  chunk_pages, new_span, map_pages, pop_bin, push_remainder, alloc_direct, alloc_split,
  chunk_remainder, alloc_chunk,
}

module _ (a : Allocator) (o : Mapper) (r : Runtime) where
  abbrev W : Type 0
  W = SpanHeap a o

  -- There is a page map, the spans are `f`, and `n` more calls are served.
  record IsSupplied (f : Ptr → Span) (n : ℕ) (w : W) : Type 0 where
    m : L1Node
    there : w.page_map ≡ some m
    serves : Serves a n w.store
    spans_same : w.spans ≡ f

  -- Two calls at most for each page.
  map_pages-IsSupplied :
      (p : Ptr) (n : ℕ) (w : W) (m : L1Node)
      → w.page_map ≡ some m
      → Serves a (2 * (w.spans p).page_count + n) w.store
      → OnRun ⊥ (IsSupplied w.spans n) (map_pages a o r p w)
  unfolding map_pages
  map_pages-IsSupplied p n w m there h =
      let s = w.spans p in
      let first = round_down_page_index r s.base in
      let to = u64 (first + s.page_count) in
      rw there (
        run_bind
          (cmalloc_map_range-served a m p first to n w.store
            (Serves-le a _ (2 * (to - first) + n) w.store (omega arith) h))
          λ (m', st') g. yields (record { m = m'; there = refl; serves = g; spans_same = refl }))

  pub alloc_direct-supplied :
      (n left : ℕ) (w : W) (m : L1Node)
      → w.page_map ≡ some m
      → Serves a (suc (2 * n + left)) w.store
      → OnRun ⊥
          (λ (p, w'). (p ≢ null) × ((w'.spans p).base ≡ (o.mmap (pages_size a o r n) w.kernel).0))
          (alloc_direct a o r n w)
  unfolding alloc_direct new_span
  alloc_direct-supplied n left w m there h =
      let (real, rest) = Serves-call a (2 * n + left) sizeof_span w.store refl h in
      let p = (a.alloc_metadata sizeof_span w.store).0 in
      let (base, kernel) = o.mmap (pages_size a o r n) w.kernel in
      let s : Span = record (w.spans p) { base = base; page_count = n; is_initialized = false } in
      let w1 : W =
        put_span p s
          (record w { store = (a.alloc_metadata sizeof_span w.store).1; kernel = kernel }) in
      let e : (w1.spans p).page_count ≡ n =
        ap (λ (x : Span). x.page_count) (update_at w.spans p s) in
      rw (eq_false real) (
        run_bind (map_pages-IsSupplied p left w1 m there (rw e rest)) λ w2 g. yields (
          real,
          ap (λ f. (f p).base) g.spans_same ∙ ap (λ (x : Span). x.base) (update_at w.spans p s),
        ))

  pub pop_bin-supplied :
      (n : ℕ) (w : W)
      → w.bins.uninitialized_span_bin n ≢ null
      → OnRun ⊥
          (λ (p, w'). (p ≢ null) × (w'.store ≡ w.store) × (w'.page_map ≡ w.page_map))
          (pop_bin a o r n w)
  unfolding pop_bin
  pop_bin-supplied n w full =
      let next = (w.spans (w.bins.uninitialized_span_bin n)).next_in_uninitialized_bin in
      rw (eq_false full) (elim (Bool-cases (next == null)) [
        | inl last ↦ rw last (yields (full, refl, refl))
        | inr more ↦ rw more (yields (full, refl, refl))
      ])

  push_remainder-IsSupplied :
      (p : Ptr) (count n : ℕ) (w : W) (m : L1Node)
      → w.page_map ≡ some m
      → Serves a (2 * (w.spans p).page_count + n) w.store
      → OnRun ⊥ (IsSupplied w.spans n) (push_remainder a o r p count w)
  unfolding push_remainder
  push_remainder-IsSupplied p count n w m there h =
      run_bind (map_pages-IsSupplied p n (put_head count p w) m there h) λ w1 g.
        yields (record { m = g.m; there = g.there; serves = g.serves; spans_same = g.spans_same })

  pub alloc_split-supplied :
      (n best left : ℕ) (w : W) (m : L1Node)
      → w.page_map ≡ some m
      → w.bins.uninitialized_span_bin best ≢ null
      → Serves a (suc (2 * sub64 best n + left)) w.store
      → OnRun ⊥ (λ (p, w'). p ≢ null) (alloc_split a o r n best w)
  unfolding alloc_split new_span
  alloc_split-supplied n best left w m there full h =
      run_bind (pop_bin-supplied best w full) λ (p, w1) (real, same, same_map).
        let h' : Serves a (suc (2 * sub64 best n + left)) w1.store =
          subst (Serves a (suc (2 * sub64 best n + left))) (sym same) h in
        let w1' : W = put_span p (record (w1.spans p) { page_count = n }) w1 in
        let (given, rest) = Serves-call a (2 * sub64 best n + left) sizeof_span w1.store refl h' in
        let split = (a.alloc_metadata sizeof_span w1.store).0 in
        let w2 : W = record w1' { store = (a.alloc_metadata sizeof_span w1.store).1 } in
        let s : Span = record (w2.spans split) {
          base = u64 ((w2.spans p).base + pages_size a o r n);
          page_count = sub64 best n;
          is_initialized = false;
          phys_next = (w2.spans p).phys_next;
          phys_prev = p;
          next_in_uninitialized_bin = w2.bins.uninitialized_span_bin (sub64 best n);
        } in
        let w3 : W = put_span split s w2 in
        let e : (w3.spans split).page_count ≡ sub64 best n =
          ap (λ (x : Span). x.page_count) (update_at w2.spans split s) in
        rw (eq_false given) (
          run_bind
            (push_remainder-IsSupplied split (sub64 best n) left w3 m (same_map ∙ there)
              (rw e rest))
            λ w4 g. yields real)

  chunk_remainder-supplied :
      (fit base : Ptr) (n rest left : ℕ) (w : W) (m : L1Node)
      → w.page_map ≡ some m
      → Serves a (suc (2 * rest + left)) w.store
      → OnRun ⊥ (λ w'. rest ≡ rest) (chunk_remainder a o r fit base n rest w)
  unfolding chunk_remainder new_span
  chunk_remainder-supplied fit base n rest left w m there h =
      let (given, more) = Serves-call a (2 * rest + left) sizeof_span w.store refl h in
      let split = (a.alloc_metadata sizeof_span w.store).0 in
      let w1 : W = record w { store = (a.alloc_metadata sizeof_span w.store).1 } in
      let s : Span = record (w1.spans split) {
        base = u64 (base + pages_size a o r n);
        page_count = rest;
        is_initialized = false;
      } in
      let w2 : W = put_span split s w1 in
      let e : (w2.spans split).page_count ≡ rest =
        ap (λ (x : Span). x.page_count) (update_at w1.spans split s) in
      rw (eq_false given)
        (run_bind (map_pages-IsSupplied split left w2 m there (rw e more)) λ w3 g. yields refl)

  -- mmap gives the chunk.
  pub alloc_chunk-supplied :
      (n left : ℕ) (w : W) (m : L1Node)
      → w.page_map ≡ some m
      → (o.mmap (pages_size a o r (chunk_pages a o r n)) w.kernel).0 ≢ map_failed
      → Serves a (suc (suc (2 * n + suc (2 * 8192 + left)))) w.store
      → OnRun ⊥ (λ (p, w'). p ≢ null) (alloc_chunk a o r n w)
  unfolding alloc_chunk new_span
  alloc_chunk-supplied n left w m there answers h =
      let (given, h1) = Serves-call a _ sizeof_data_chunk w.store refl h in
      let st1 = (a.alloc_metadata sizeof_data_chunk w.store).1 in
      let (real, h2) = Serves-call a _ sizeof_span st1 refl h1 in
      let fit = (a.alloc_metadata sizeof_span st1).0 in
      let (base, kernel) = o.mmap (pages_size a o r (chunk_pages a o r n)) w.kernel in
      let w2 : W = record w {
        store = (a.alloc_metadata sizeof_span st1).1;
        kernel = kernel;
        data_arena = base ∷ w.data_arena;
      } in
      let s : Span = record (w2.spans fit) {
        base = base;
        next_in_uninitialized_bin = null;
        page_count = n;
        is_initialized = false;
      } in
      let w2' : W = put_span fit s w2 in
      let e : (w2'.spans fit).page_count ≡ n =
        ap (λ (x : Span). x.page_count) (update_at w2.spans fit s) in
      let rest = sub64 (chunk_pages a o r n) n in
      rw (eq_false given, eq_false answers, eq_false real)
        (run_bind (map_pages-IsSupplied fit (suc (2 * 8192 + left)) w2' m there (rw e h2)) λ w3 g.
          let w4 : W =
            put_span fit (record (w3.spans fit) { phys_prev = null; phys_next = null }) w3 in
          run_bind
            (run_either (ltb 0 rest && ltb rest max_binned_pages)
              (λ b.
                chunk_remainder-supplied fit base n rest left w4 g.m g.there
                  (Serves-le a _ _ w4.store (ground (arith, b)) g.serves))
              (λ b. yields refl))
            λ w5 z. yields real)
