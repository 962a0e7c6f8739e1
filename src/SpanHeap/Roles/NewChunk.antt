-- ===== src/SpanHeap/Roles/NewChunk.antt =====
-- `alloc_span` where no span fits: a chunk is mapped.
use native.Mathlib.Nat.{mul-le-mul_right}
use fast_memory_allocator.Base.{
  ℕ, ◌+◌, ◌*◌, ◌%◌, ◌^◌, ◌≤◌, ◌<◌, ◌≡◌, ◌≢◌, refl, ◌∙◌, true, false, ◌||◌, ◌&&◌, ltb, some, ◌∷◌,
  ◌==◌, if◌then◌else◌, arith, update, update_at, Bool-cases, ==_iff, inl, inr, OnResult, no_result,
  result, on_bind, on_either, ◌>>=◌,
}
use fast_memory_allocator.Base.Words.{u64, sub64}
use fast_memory_allocator.Common.{Runtime}
use fast_memory_allocator.Span.{Ptr, null, Span}
use fast_memory_allocator.RangeMap.{Allocator, L1Node}
use fast_memory_allocator.RangeMap.Ledger.{IsAllocator, alloc-Grows}
use fast_memory_allocator.PageBins.{max_binned_pages}
use fast_memory_allocator.SpanHeap.{
  Mapper, SpanHeap, map_failed, sizeof_span, sizeof_data_chunk, chunk_pages, put_span, map_pages,
  chunk_remainder, alloc_chunk,
}
use fast_memory_allocator.SpanHeap.Roles.Runs.{page_le, end_page}
use fast_memory_allocator.SpanHeap.Roles.Fresh.{
  IsServed, refused, served, chunk_fits, chunk-le, chunk-lt, unmapped_free,
}
use fast_memory_allocator.SpanHeap.Roles.Chunk.{Extends, chunk_remainder-Extends}
use fast_memory_allocator.SpanHeap.Roles.{
  in_run, Role, unborn, in_use, has_page, IsMapper, failed, given, IsPaginated, IsHeap,
}
use fast_memory_allocator.SpanHeap.Roles.Frame.{linked-IsCompatible, frame_at, frame_memory}
use fast_memory_allocator.SpanHeap.Roles.Steps.{new_span_step}
use fast_memory_allocator.SpanHeap.Roles.Given.{new-unborn, adopt_step}

module _ {a : Allocator} {o : Mapper} {r : Runtime} (u : IsAllocator a) (k : IsMapper o r) where
  module _ (n : ℕ) (w : SpanHeap a o) (m : L1Node) (role : Ptr → Role) (small : r.page_shift ≤ 20)
      (heap : IsHeap u k w role) (there : w.page_map ≡ some m) (lt : n < 8193) where
    abbrev page : ℕ
    page = 2 ^ r.page_shift

    abbrev total : ℕ
    total = chunk_pages a o r n

    abbrev answer : Ptr × o.Kernel
    answer = o.mmap (total * page) w.kernel

    abbrev base : Ptr
    base = answer.0

    abbrev w1 : SpanHeap a o
    w1 = record w { store = (a.alloc_metadata sizeof_data_chunk w.store).1; kernel = answer.1 }

    abbrev fit : Ptr
    fit = (a.alloc_metadata sizeof_span w1.store).0

    abbrev w2 : SpanHeap a o
    w2 = record w1 {
      data_arena = base ∷ w.data_arena;
      store = (a.alloc_metadata sizeof_span w1.store).1;
    }

    abbrev first_part : Span
    first_part = record (w2.spans fit) {
      base = base;
      next_in_uninitialized_bin = null;
      page_count = n;
      is_initialized = false;
    }

    abbrev rest : ℕ
    rest = sub64 total n

    parts_lem : n + rest ≡ total
    parts_lem = omega (arith, chunk-le a o r small n, chunk-lt a o r small n lt)

    -- The chunk is mapped where no span is, and the record for its first pages is new.
    module _ (aligned : base % page ≡ 0) (fits : base + total * page ≤ 2 ^ 35 * page)
        (free : (i : ℕ) → in_run r base total i ≡ true → k.mapped w.kernel i ≡ false)
        (now : (i : ℕ) → k.mapped answer.1 i ≡ (in_run r base total i || k.mapped w.kernel i))
        (new : fit ≢ null) where
      heap1 : IsHeap u k w1 role
      heap1 =
          frame_memory u k heap w1.store w1.kernel
            (alloc-Grows u sizeof_data_chunk refl w.store heap.sound) (λ i h. ground (arith, now i))

      heap2 : IsHeap u k w2 role
      heap2 =
          frame_memory u k heap1 w2.store w2.kernel
            (alloc-Grows u sizeof_span refl w1.store heap1.sound) (λ i h. h)

      fit_unborn : role fit ≡ unborn
      fit_unborn = new-unborn u k w1 role sizeof_span refl heap1 new

      fits' : base + (n + rest) * page ≤ 2 ^ 35 * page
      fits' = rw parts_lem fits

      first-IsPaginated : IsPaginated r first_part
      first-IsPaginated = record {
        aligned = aligned;
        fits = omega (arith, fits, mul-le-mul_right page (chunk-le a o r small n));
      }

      first_free :
          (q : Ptr) (i : ℕ)
          → role q ≢ unborn
          → in_run r base n i ≡ true
          → has_page r (w.spans q) i ≡ false
      first_free q i live run =
          unmapped_free u k w base total heap free q i live (ground (arith, chunk-le a o r small n))

      -- The span for the first pages, and the rest.
      module _ (m' : L1Node) (st' : a.Store) where
        abbrev w3 : SpanHeap a o
        w3 = record (put_span fit first_part w2) { page_map = some m'; store = st' }

        abbrev w4 : SpanHeap a o
        w4 = put_span fit (record (w3.spans fit) { phys_prev = null; phys_next = null }) w3

        abbrev role4 : Ptr → Role
        role4 = update role fit in_use

        rest_free :
            (q : Ptr) (i : ℕ)
            → role4 q ≢ unborn
            → in_run r (base + n * page) rest i ≡ true
            → has_page r (w4.spans q) i ≡ false
        rest_free q i live run =
            let next = end_page r small base n total (chunk-le a o r small n) aligned fits in
            elim (Bool-cases (fit == q)) [
              | inl e ↦ rw (e, update_at w.spans fit first_part) (ground (arith, next))
              | inr e ↦ rw e (
                  unmapped_free u k w base total heap free q i (λ h. live (ground arith))
                    (ground (arith, next, parts_lem)))
            ]

        rest_lem :
            IsHeap u k w3 role4
            → OnResult (Extends u k small w4 role4) (
                if ltb 0 rest && ltb rest max_binned_pages
                then chunk_remainder a o r fit base n rest w4
                else some w4)
        rest_lem heap3 =
            let heap4 = frame_at u k heap3 fit _ (linked-IsCompatible refl refl refl) in
            on_either (ltb 0 rest && ltb rest max_binned_pages)
              (λ e.
                chunk_remainder-Extends u k small fit base n rest w4 m' role4 heap4 refl aligned
                  fits' (ground arith) rest_free
                  (λ i run.
                    let next =
                      end_page r small base n total (chunk-le a o r small n) aligned fits in
                    ground (arith, now i, next, parts_lem)))
              (λ e. result (record {
                role' = role4;
                heap = heap4;
                kept = λ q used. record { used = used; base_same = refl; count_same = refl };
              }))

      first_lem :
          OnResult
            (λ (p, w'). IsServed u k w role n p w')
            (map_pages a o r fit (put_span fit first_part w2) >>= λ w3.
              (if ltb 0 rest && ltb rest max_binned_pages
                then chunk_remainder a o r fit base n rest
                    (put_span fit (record (w3.spans fit) { phys_prev = null; phys_next = null }) w3)
                else some (
                    put_span fit (record (w3.spans fit) { phys_prev = null; phys_next = null }) w3))
              >>= λ w5. some (fit, w5))
      first_lem =
          adopt_step u k fit first_part w2 m role _ heap2 there new fit_unborn
            (u.taken sizeof_span refl w1.store heap1.sound new) first-IsPaginated first_free
            (λ i run. ground (arith, now i, chunk-le a o r small n))
            λ m' st' heap3. on_bind (rest_lem m' st' heap3) λ w5 ext.
              let kept = ext.kept fit (update_at role fit in_use) in
              result (
                served (record {
                  role' = ext.role';
                  heap = ext.heap;
                  real = new;
                  was_free = λ e. ground (arith, fit_unborn);
                  now_used = kept.used;
                  count = kept.count_same ∙ ground arith;
                  kept = λ q used.
                      let other : (fit == q) ≡ false = ground (arith, fit_unborn) in
                      let same = ext.kept q (rw other used) in
                      record {
                        used = same.used;
                        base_same = same.base_same ∙ rw other refl;
                        count_same = same.count_same ∙ rw other refl;
                      };
                }))

  -- The first pages of a new chunk, or NULL where mmap fails.
  pub alloc_chunk-IsServed :
      (n : ℕ) (w : SpanHeap a o) (m : L1Node) (role : Ptr → Role)
      → r.page_shift ≤ 20
      → IsHeap u k w role
      → w.page_map ≡ some m
      → n < 8193
      → OnResult (λ (p, w'). IsServed u k w role n p w') (alloc_chunk a o r n w)
  unfolding alloc_chunk
  alloc_chunk-IsServed n w m role small heap there lt =
      let bound = chunk_fits a o r small n lt in
      let bytes : u64 (chunk_pages a o r n * 2 ^ r.page_shift)
          ≡ chunk_pages a o r n * 2 ^ r.page_shift =
        omega arith in
      let base = (o.mmap (chunk_pages a o r n * 2 ^ r.page_shift) w.kernel).0 in
      rw bytes (
        on_either ((a.alloc_metadata sizeof_data_chunk w.store).0 == null) (λ e. no_result)
          λ e. elim (k.answers (chunk_pages a o r n) w.kernel bound) [
            | failed e same ↦ rw ((==_iff base map_failed).1 e) (
                result (
                  refused refl
                    (frame_memory u k heap _ _
                      (alloc-Grows u sizeof_data_chunk refl w.store heap.sound) (λ i h. same i ∙ h))
                    refl))
            | given aligned fits free now ↦
                let works : (base == map_failed) ≡ false = ground (arith, fits, page_le r small) in
                rw works (
                  new_span_step u k _ _ (u.sound sizeof_data_chunk refl w.store heap.sound)
                    λ new. first_lem n w m role small heap there lt aligned fits free now new)
          ])
